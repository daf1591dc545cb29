-- ===== src/Tests/Worker.antt =====
-- internal/worker/worker.go on one job, and on a job of two requests of which the first fails.
use apipact_agent.Prelude.{
  ℕ, ◌+◌, String, ◌≡◌, refl, ◌↔◌, true, false, none, some, List, [], ◌∷◌, arith, ok, err, All,
}
use apipact_agent.Prelude.Int.{pos}
use apipact_agent.Prelude.Dict.{lookup}
use apipact_agent.Protocol.{RequestSpec, Job, ResponseResult}
use apipact_agent.Dedupe.{flush, seen_or_record, Codec, flushed}
use apipact_agent.Dedupe.Laws.{IsStore}
use apipact_agent.Worker.{
  handle, element_at, remove_at, spawn, go_on, begin_job, resume_job, job_begun, job_resumed,
  dropped_draining, after_dedupe, admit, after_open, on_job, start_drain, run_events, Envelopes,
  Identity, Instant, Worker, Event, started, job_message, control_message, heartbeat_due, shutdown,
  job_ended,
}
use apipact_agent.Worker.Accept.{on_job-started_iff, Admitted}
use apipact_agent.Worker.Counted.{IsCounted}
use apipact_agent.Worker.Drain.{drain_starts_entered, IsDrained}
use apipact_agent.Worker.Once.{NotAgain, started_once}
use apipact_agent.Worker.Requests.{engine_of, run_sequential}
use apipact_agent.Tests.Executor.{spec, library, site}

abbrev pub job : Job
job = record {
  job_id = "j1";
  agent_id = "ag-1";
  issued_at = pos 0;
  deadline = some (pos 100);
  context = "";
  return = record { transport = ""; channel = ""; url = ""; inline_max_bytes = pos 0 };
  execution = record { max_concurrency = pos 1; stop_on_error = true };
  requests = [];
}

-- Every message opens to the job; control messages are pings.
abbrev pub env : Envelopes
env = record {
  Raw = String;
  Envelope = String;
  Opener = ℕ;
  parse = ok;
  message_id = λ e. e;
  sign_key_id = λ e. "cloud";
  open_job = λ o e. (ok job, o + 1);
  open_control = λ o e. (err "replayed", o + 1);
}

abbrev pub me : Identity
me = record {
  agent_id = "ag-1";
  name = "agent";
  labels = [];
  sign_key_id = "mine";
  version = "1.0.0";
  has_publisher = true;
  heartbeat_sec = pos 60;
}

abbrev pub codec : Codec
codec = record { encode = λ m. ""; decode = λ s. some (some []) }

abbrev pub idle : Worker env me codec
idle = record {
  opener = 0;
  dedupe = record { ttl = pos 10; seen = [] };
  disk = none;
  draining = false;
  inflight = 0;
  wait_group = 0;
  running = [];
  published = [];
  entered = [];
}

abbrev pub at_second : ℕ → Instant
at_second n = record { now = pos n; now_sec = n; prune_sec = n; io = flushed }

starts : (on_job env me codec (at_second 5) "m" idle).0 ≡ started job
unfolding on_job after_open admit after_dedupe seen_or_record flush lookup
starts = refl

idle-IsStore : IsStore 10 idle.dedupe
idle-IsStore = record { unique = tt; lives = refl }

pub idle-IsCounted : IsCounted env me codec idle
idle-IsCounted = record { inflight = refl; wait_group = refl }

abbrev later : List (Event env me codec)
later =
    heartbeat_due (pos 6)
    ∷ job_message (at_second 7) "again"
    ∷ job_ended 0
    ∷ shutdown
    ∷ control_message (pos 8) "ping"
    ∷ job_begun "third"
    ∷ job_resumed (at_second 9) 0
    ∷ []

on_job-started_iff_example :
    ((on_job env me codec (at_second 5) "m" idle).0 ≡ started job)
    ↔ Admitted env me codec (at_second 5) "m" idle job
on_job-started_iff_example = on_job-started_iff env me codec (at_second 5) "m" idle job

-- A message arrives and passes the test of the flag, the signal comes, and its handler goes on.
abbrev crossing : Worker env me codec
crossing = (handle env me codec (job_begun "m") idle).1

starts_after_signal :
    let (os, w') =
      run_events env me codec
        (job_resumed (at_second 5) 0 ∷ job_message (at_second 6) "n" ∷ [])
        (start_drain env me codec crossing) in
    (os ≡ some (started job) ∷ some dropped_draining ∷ []) × (w'.running ≡ job ∷ [])
unfolding run_events handle resume_job begin_job go_on on_job after_open admit after_dedupe
    seen_or_record flush lookup spawn start_drain element_at remove_at
starts_after_signal = (refl, refl)

drain_starts_entered_example :
    let (os, w') = run_events env me codec later (start_drain env me codec idle) in
    IsDrained env me codec idle later os w'
drain_starts_entered_example = drain_starts_entered env me codec later idle

started_once_example :
    All
      (NotAgain env me codec "j1")
      (run_events env me codec later (on_job env me codec (at_second 5) "m" idle).1).0
started_once_example =
    started_once env me codec 10 (at_second 5) "m" idle job later idle-IsStore starts (omega arith)
      (tt, ((omega arith, omega arith), (tt, (tt, (tt, (tt, ((omega arith, omega arith), tt)))))))

abbrev two : List RequestSpec
two = spec ∷ record spec { id = "r2" } ∷ []

abbrev in_turn_job : Job
in_turn_job = record job { requests = two }

abbrev responses : List ResponseResult
responses = (run_sequential (engine_of library site 100) true two 0).0
