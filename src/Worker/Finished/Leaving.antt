-- ===== src/Worker/Finished/Leaving.antt =====
-- internal/worker/worker.go, runJob with internal/reporter/reporter.go: what leaves the agent for a job.
use apipact_agent.Prelude.{ℕ, String, ◌≡◌, refl, ◌⊎◌, inl, inr, List, [], map, ok, All}
use apipact_agent.Protocol.{Time, content_type_result, Job, ResponseResult, JobResult}
use apipact_agent.Executor.Request.{Bytes}
use apipact_agent.Reporter.{ReporterConfig}
use apipact_agent.Reporter.Sealed.{Sealer, Sender, Wires}
use apipact_agent.Reporter.Sealed.Outgoing.{Carries, report_result-Carries}
use apipact_agent.Worker.Requests.{Engine}
use apipact_agent.Worker.Finished.{job_result, run_job, Executes}
use apipact_agent.Worker.Finished.Reported.{Executes-ids}

-- The result of a job that an agent of a version has run: it holds the responses as they are, the times
-- of its start and its end, and the ids and the context of the job, and it answers the job's requests
-- one for one and in their order.
abbrev pub IsResultOf :
    Job → String → String → Time → Time → List ResponseResult → JobResult → Type 0
IsResultOf job agent_id version start_time end_time out r =
    (r ≡ record {
      job_id = job.job_id;
      agent_id = agent_id;
      context = job.context;
      agent_version = version;
      worker_version = version;
      started_at = start_time;
      finished_at = end_time;
      responses = out;
    })
    × (map (λ x. x.request_id) out ≡ map (λ q. q.id) job.requests)

-- Whatever the relay and the endpoint do, runJob sends nothing, or there is one result, which holds
-- the responses that execRequests has returned, in turn or at once, unchanged, with the ids of the job
-- and the agent, and answers the requests one for one and in their order, and one sealed envelope of that result under the id of the job; and every message that runJob
-- sends, by the channel or by HTTP, carries this envelope, with the ids of the agent and of the job.
pub run_job_delivers :
    (engine : Engine) (pool_capacity : ℕ) (net : Wires) (sealer : Sealer) (who : Sender)
    (cfg : ReporterConfig) (version : String) (start_time end_time : Time) (job : Job)
    (out : List ResponseResult) (w : net.World)
    → Executes engine pool_capacity job out
    → let d = run_job net sealer who cfg version start_time end_time job out w in
      (d.sent.log ≡ [])
      ⊎ ((r : JobResult) × (env : sealer.Envelope) × (sealed : Bytes) × IsResultOf job who.agent_id
            version start_time end_time out r
          × (sealer.seal r (record { message_id = job.job_id; content_type = content_type_result })
              ≡ ok env)
          × (sealer.marshal env ≡ ok sealed)
          × All (Carries who job.job_id sealed) d.sent.log)
unfolding run_job job_result
run_job_delivers engine n net sealer who cfg version start_time end_time job out w h =
    let r = job_result who.agent_id version start_time end_time job out in
    elim (report_result-Carries net sealer who cfg r job.return w) [
      | inl e ↦ inl e
      | inr (env, sealed, q, a, c) ↦
          inr (r, env, sealed, (refl, Executes-ids engine n job out h), q, a, c)
    ]
