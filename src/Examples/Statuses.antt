-- ===== src/Examples/Statuses.antt =====
-- The public status of two runs where there is room for one (backend/agent/run_status.py).
use refactor_agent.Common.{if◌then◌else◌, ◌≡◌, none, some, List, [], ◌∷◌, arith, ◌==◌}
use refactor_agent.Statuses.{start, get_status, Call, call_each, starts, reads}
use refactor_agent.Statuses.Capacity.{IsBounded, call_each-IsBounded}
use refactor_agent.Statuses.Reading.{start-get_status}

abbrev two_runs : List (Call 10 1)
two_runs = starts 0 "r1" "t1" ∷ starts 1 "r2" "t1" ∷ reads 2 "r1" "t1" ∷ []

call_each-IsBounded_example : IsBounded 10 1 (omega arith) (call_each 10 1 two_runs [])
call_each-IsBounded_example = call_each-IsBounded 10 1 (omega arith) two_runs

start-get_status_example :
    (get_status 10 1 5 "r3" "t1" (start 10 1 2 "r3" "t1" (call_each 10 1 two_runs [])).1).0
    ≡ (if "t1" == "t1" then some (start 10 1 2 "r3" "t1" (call_each 10 1 two_runs [])).0 else none)
start-get_status_example =
    start-get_status 10 1 (omega arith) 2 5 "r3" "t1" "t1" (call_each 10 1 two_runs [])
      (call_each-IsBounded 10 1 (omega arith) two_runs) (omega arith)
