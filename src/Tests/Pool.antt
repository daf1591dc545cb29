-- ===== src/Tests/Pool.antt =====
-- internal/worker/worker.go: one request that runs to its end beside no other job.
use apipact_agent.Prelude.{ℕ, ◌*◌, ◌≤◌, ◌≡◌, refl, ◌⊎◌, true, none, [], ◌∷◌, arith, ok, length, All}
use apipact_agent.Protocol.{content_type_result, Job, ResponseResult, JobResult}
use apipact_agent.Worker.Requests.{engine_of}
use apipact_agent.Prelude.Int.{pos}
use apipact_agent.Worker.Finished.{run_job, at_once}
use apipact_agent.Worker.Finished.Leaving.{IsResultOf, run_job_delivers}
use apipact_agent.Reporter.Sealed.{Meta}
use apipact_agent.Reporter.Sealed.Outgoing.{Carries}
use apipact_agent.Executor.Request.{Bytes}
use apipact_agent.Tests.Reporter.{config}
use apipact_agent.Tests.Sealed.{down, sealer, who}
use apipact_agent.Worker.Pool.{
  start_cell, Phase, Cell, Slots, Capacity, Run, finished, enter, acquire, answer, finish, here,
  start, turn,
}
use apipact_agent.Worker.Pool.Invariant.{run-IsCounted, Turns, run_ends, IsCounted}
use apipact_agent.Worker.Pool.Outcome.{slots_of}
use apipact_agent.Tests.Executor.{spec, library, site}

abbrev two_slots : Capacity
two_slots = record { job = 2; pool = 2 }

abbrev taken : ℕ → ℕ → Slots
taken job pool = record { job = job; pool = pool; others = 0 }

abbrev at_phase : Phase → Cell
at_phase p = record (start_cell spec) { phase = p }

abbrev result : ResponseResult
result = ((engine_of library site 100).run spec 0).0

abbrev ended : Cell
ended = record (start_cell spec) { phase = finished; slot = result }

one_request : Run (engine_of library site 100) two_slots (spec ∷ []) 0 4 (taken 0 0) (ended ∷ [])
unfolding start_cell
one_request =
    turn
      (turn
        (turn (turn (start (omega arith)) (here (enter refl (omega arith))))
          (here (acquire refl (omega arith))))
        (here (answer 0 refl)))
      (here (finish result refl))

run-IsCounted_example : IsCounted two_slots (taken 0 0) (ended ∷ [])
run-IsCounted_example = run-IsCounted (engine_of library site 100) two_slots one_request

run_ends_example :
    (4 ≤ 4 * length (spec ∷ []))
    × ((4 ≡ 4 * length (spec ∷ []))
        ⊎ ((taken 0 0).others ≡ two_slots.pool)
        ⊎ Turns (engine_of library site 100) two_slots (taken 0 0) (ended ∷ []))
run_ends_example = run_ends (engine_of library site 100) two_slots 0 one_request (omega arith)

abbrev job : Job
job = record {
  job_id = "j1";
  agent_id = "ag-1";
  issued_at = pos 0;
  deadline = none;
  context = "c";
  return = record { transport = ""; channel = ""; url = ""; inline_max_bytes = pos 0 };
  execution = record { max_concurrency = pos 2; stop_on_error = true };
  requests = spec ∷ [];
}

run_job_delivers_example :
    let d =
      run_job down sealer who config "1.0.0"
        (pos 1)
        (pos 2)
        job
        (slots_of (engine_of library site 100) (ended ∷ []))
        0 in
    (d.sent.log ≡ [])
    ⊎ ((r : JobResult) × (env : Meta) × (sealed : Bytes) × IsResultOf job "ag-1" "1.0.0"
          (pos 1)
          (pos 2)
          (slots_of (engine_of library site 100) (ended ∷ []))
          r
        × (sealer.seal r (record { message_id = job.job_id; content_type = content_type_result })
            ≡ ok env)
        × (sealer.marshal env ≡ ok sealed)
        × All (Carries who job.job_id sealed) d.sent.log)
run_job_delivers_example =
    run_job_delivers (engine_of library site 100) 2 down sealer who config "1.0.0" (pos 1) (pos 2)
      job (slots_of (engine_of library site 100) (ended ∷ [])) 0 (at_once refl one_request)
