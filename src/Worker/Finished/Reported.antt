-- ===== src/Worker/Finished/Reported.antt =====
-- internal/worker/worker.go, runJob: what a job's report answers, and when the supervisor takes a
-- worker for ready.
use apipact_agent.Prelude.{ℕ, ◌≡◌, ◌↔◌, Bool, true, false, Option, none, some, List, map, arith}
use apipact_agent.Protocol.{Job, ResponseResult}
use apipact_agent.Worker.Requests.{Engine, run_sequential-ids}
use apipact_agent.Worker.Pool.Outcome.{run-AllAnswer}
use apipact_agent.Supervisor.Polling.{answers_ok}
use apipact_agent.Worker.Finished.{readyz, Executes, in_turn, at_once}

-- The slice that execRequests returns answers the job's requests one for one and in their order,
-- whether they have run in turn, up to a failure under stopOnError, or at once, in any order of their
-- goroutines.
pub Executes-ids :
    (engine : Engine) (pool_capacity : ℕ) (job : Job) (out : List ResponseResult)
    → Executes engine pool_capacity job out
    → map (λ r. r.request_id) out ≡ map (λ q. q.id) job.requests
Executes-ids engine n job out (in_turn w h) =
    run_sequential-ids engine job.execution.stop_on_error job.requests w
Executes-ids engine n job out (at_once h r) = let (_, ids) = run-AllAnswer engine r in ids

-- The supervisor takes a worker for ready exactly if its transport is connected and it does not
-- drain.
readyz_iff :
    (transport : Option Bool) (draining : Bool)
    → (answers_ok (some (readyz transport draining)) ≡ true)
      ↔ ((transport ≡ some true) × (draining ≡ false))
unfolding answers_ok readyz
readyz_iff none draining = ground arith
readyz_iff (some true) true = ground arith
readyz_iff (some true) false = ground arith
readyz_iff (some false) draining = ground arith
