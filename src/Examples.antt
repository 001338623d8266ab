-- ===== src/Examples.antt =====
-- Concrete inputs at which the conditions of the theorems hold.
mod Plan
mod Scheduling
mod Reviewing
mod Sessions
mod Statuses
mod Workspace
mod Lifecycles
mod Credentials
mod Workflow
