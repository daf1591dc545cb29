-- ===== src/Worker/Finished.antt =====
-- internal/worker/worker.go: the result of runJob, from the choice that execRequests makes between its
-- sequential and its concurrent path, and the health server's /readyz.
pub mod Reported
pub mod Leaving
use Prim.Native.String.{◌++◌ as ◌<>◌}
use apipact_agent.Prelude.{
  ℕ, ◌*◌, String, ◌≡◌, Bool, true, false, ◌&&◌, not, Option, none, some, List, if◌then◌else◌,
  length,
}
use apipact_agent.Prelude.Int.{pos, pos_part, ltb_ℤ}
use apipact_agent.Protocol.{Time, Job, ResponseResult, JobResult}
use apipact_agent.Reporter.{ReporterConfig}
use apipact_agent.Reporter.Sealed.{report_result, Sender, Sealer, Wires, Delivered}
use apipact_agent.Worker.Requests.{Engine, run_sequential}
use apipact_agent.Worker.Pool.{Cell, Slots, Run}
use apipact_agent.Worker.Pool.Outcome.{slots_of}

module _ (engine : Engine) (pool_capacity : ℕ) where
  -- A slice that execRequests may return for a job.
  pub data Executes (job : Job) : List ResponseResult → Type 0 where
    in_turn :
        (w : engine.World)
        → ltb_ℤ (pos 1) job.execution.max_concurrency ≡ false
        → Executes job (run_sequential engine job.execution.stop_on_error job.requests w).0
    at_once :
        {others : ℕ} {s : Slots} {cs : List Cell}
        → ltb_ℤ (pos 1) job.execution.max_concurrency ≡ true
        → Run engine
            (record { job = pos_part job.execution.max_concurrency; pool = pool_capacity })
            job.requests
            others
            (4 * length job.requests)
            s
            cs
        → Executes job (slots_of engine cs)

-- runJob's result
unfoldable pub job_result : String → String → Time → Time → Job → List ResponseResult → JobResult
job_result agent_id version start_time end_time job responses = record {
  job_id = job.job_id;
  agent_id = agent_id;
  context = job.context;
  agent_version = version;
  worker_version = version;
  started_at = start_time;
  finished_at = end_time;
  responses = responses;
}

-- runJob, once execRequests has returned: its result is sealed and reported as the job asks.
unfoldable pub run_job :
    (net : Wires) (sealer : Sealer) (who : Sender) (cfg : ReporterConfig) (version : String)
    (start_time end_time : Time) (job : Job) (responses : List ResponseResult)
    → net.World
    → Delivered net.World
unfolding job_result report_result
run_job net sealer who cfg version start_time end_time job responses w =
    report_result net sealer who cfg
      (job_result who.agent_id version start_time end_time job responses) job.return w

-- The status of /readyz: the transport is there and connected, and the worker does not drain.
unfoldable pub readyz : Option Bool → Bool → ℕ
readyz none draining = 503
readyz (some connected) draining = if connected && not draining then 200 else 503
