-- ===== src/Lib.antt =====
-- The control plane of Refactor Agent, a service in which three language-model agents refactor Python
-- files: an Architect plans, a Developer writes, a Reviewer tests. The models' answers are free text;
-- what keeps a run in order is deterministic code, and that code is modelled here.
--
-- The parts, and how they interact. The Architect's answer is read as a plan and checked
-- (backend/agent/plans.py, with the path policy of backend/agent/path_policy.py). The scheduler
-- (backend/agent/scheduler.py) keeps the plan's execution in the state of the graph
-- (backend/agent/state.py): it starts one task after another, closes the attempts by what the write
-- tool reported, blocks what is downstream of a failure, and reopens tasks that the Reviewer sends
-- back. Every model call passes the run's budget (backend/agent/budgets.py, backend/agent/nodes.py).
-- The edges (backend/agent/edges.py) lead from node to node, and the final nodes record success only
-- with evidence. The session registry (backend/session_registry.py) guards all of it against other
-- clients: tokens, one active run for each session, and decisions that are used once. A run changes
-- files in an isolated workspace only (backend/agent/workspace.py); once the user has approved the
-- whole diff, it is applied to the source tree as a transaction with compensation. The lifecycle of a
-- run (backend/agent/run_lifecycle.py) releases what it owns, and publishes it in the registry of
-- statuses; API keys stand in a vault (backend/agent/credentials.py).
--
-- Which file models which part:
--   Common (Tests, Lists, Sets), Dict: Booleans, lists, sets of texts and Python's dict as an
--     association list, in insertion order;
--   Messages, State: the state of the graph; Execution is what the scheduler keeps in it;
--   Plans: _assert_acyclic, the queue `ready` as a list with its end at the head; its modules are on
--     orders of tasks and Kahn's algorithm (Ordering, Kahn, Acyclic, Start, Verdict);
--   Validation: validate_refactor_plan, parse_refactor_plan, find_plan_task_id; Task, Soundness;
--   Paths: canonical_repository_path, is_protected_path, canonical_refactor_path; Boundary;
--   Downstream: _downstream_task_ids; Exact;
--   Dependencies: _build_task_dependency_result, render_dependency_context; Bounds;
--   Scheduler: initialize_plan_execution, schedule_next_task_node;
--   Completion: complete_active_task_node;
--   Reviews: parse_reviewer_failure_result, reopen_tasks_after_review;
--   Progress: the invariant of a plan under execution, node by node (Selection, Attempts, Reopening),
--     over whole runs (Runs), and the start of the next task (Liveness);
--   Evidence: the records and review_evidence_errors; Proof;
--   Usage, Budgets, Calls: the limits, the usage, the accounting and invoke_budgeted_agent;
--     Calls.Bounded;
--   Routes: the conditional edges; Workflow: build_agent_graph of backend/agent/workflow.py, with
--     Declared, Before, Claims, Prepares and Traces, which join the edges and the nodes;
--   Verdicts: the retry nodes and the final nodes; Endings, Retries;
--   Sessions: the registry, each method as critical sections on the whole registry; Invariant,
--     Methods, Leases, Approval;
--   Statuses: the registry of the runs' public status (backend/agent/run_status.py); Names, Sizes,
--     Capacity, Reading;
--   Workspace: backend/agent/workspace.py, the snapshots; Targets, Transaction, Compensation and Apply
--     are _atomic_apply_workspace_locked from its checks to its rollback, Manifest, Creation, Approval,
--     Nodes and Reports the other functions, and the rest proofs: Commits, Preparation, Saved, Loops,
--     Restoration and Transacted follow a transaction, Planning, Gate, Differences and Guards its
--     checks, Refinement, Foreign, Sections, Prepared, Creation.Copies and Endings state what comes of
--     it;
--   Lifecycles: RunLifecycle of backend/agent/run_lifecycle.py; Once, Outcomes;
--   Credentials: backend/agent/credentials.py; Lifetime;
--   Examples: concrete inputs.
--
-- A node takes a state and returns the state with its partial result merged in; an exception is an
-- option or a sum. A dict that another thread may change is passed on explicitly, and any schedule of
-- critical sections is a list of them.
--
-- Loops and fuel. The loop of _downstream_task_ids has a round for each task and one more, since each
-- round but the last adds a task; the loop of _assert_acyclic has a round for each task and one for the
-- last test, since each round visits a task; the loop of render_dependency_context has a round for
-- each selected dependency, since each round drops one.
--
-- A run of the graph is a sequence of nodes, each called in the run that the one before it has left,
-- on a disk that others may have changed since. The nodes that ask a model or call tools, and the
-- closing of a task, the Developer's retry, the start and the application, may leave any run there.
--
-- Parameters, for code that is not the repository's: json.dumps and the JSON decoders, re, pydantic,
-- SHA-256, str.strip and casefold, pathlib, decimal digits, the clock, random tokens and the models'
-- answers. Times are whole numbers of ticks. What the workspace and the code indexer report of files
-- is a parameter too, because they read the file system. Ids of approvals are ASCII texts, as
-- token_urlsafe makes them: the TypeError of compare_digest for others is not modelled.
--
-- The workspace. A tree is a dictionary from paths to what stands there, the bytes of a file being a
-- text. The temporary files of a transaction stand in dictionaries of their own, since mkstemp makes
-- names that nothing else has; what remains of them where the deletion of one is refused is not
-- followed. What others do to the source tree is a function of the moment, one for each call of the
-- source's hook, which may also raise; a second function says which requests the operating system
-- refuses. The lifecycle of a run takes for each attempt what the producer and the operations do.
--
-- In a run of the graph the evidence checks read the workspace as the disk holds it then; taken alone,
-- what they read of it is a parameter. Within a call the disk changes only where a hook of the source
-- stands.
--
-- Not modelled: of the workspace the lock around the application, the resolution of its own directory
-- and the clean-up at exit; of the lifecycle the registry of active runs and the producer's start; the
-- tools, the choice of a checkpointer, the event stream, the HTTP API, the model catalog, the
-- indexers, the offline evaluations and the frontend, which are glue, text, or walks of files and of
-- Python's ast.
pub mod Workspace
pub mod Workflow
pub mod Lifecycles
pub mod Credentials
pub mod Common
pub mod Dict
pub mod Messages
pub mod Plans
pub mod State
pub mod Dependencies
pub mod Downstream
pub mod Scheduler
pub mod Completion
pub mod Reviews
pub mod Progress
pub mod Paths
pub mod Validation
pub mod Evidence
pub mod Usage
pub mod Budgets
pub mod Calls
pub mod Routes
pub mod Verdicts
pub mod Sessions
pub mod Statuses
pub mod Examples
