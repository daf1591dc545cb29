-- ===== src/Tests/Lifetime.antt =====
-- internal/worker/worker.go, Run on a relay that works, with one job that ends during the drain.
use apipact_agent.Protocol.Channels.{jobs_channel, control_channel}
use apipact_agent.Prelude.{◌=ₛ◌, if◌then◌else◌, ◌≡◌, refl, true, none, some, List, [], ◌∷◌}
use apipact_agent.Prelude.Int.{pos}
use apipact_agent.Prelude.Dict.{lookup}
use apipact_agent.Dedupe.{flush, seen_or_record}
use apipact_agent.Transport.{Relay}
use apipact_agent.Worker.{
  spawn, after_dedupe, admit, after_open, go_on, on_job, finish_job, handle, Event,
  dropped_draining, started, job_message, job_ended,
}
use apipact_agent.Worker.Lifetime.{run, Launch, Ran}
use apipact_agent.Tests.Worker.{job, env, me, codec, idle, at_second}

abbrev working : Relay
working = record {
  new_client_error = λ o. none;
  connect_error = none;
  subscribe_error = λ channel. none;
}

abbrev launch : Launch
launch = record { health_addr = ""; publish_key = "pub"; base_url = "" }

abbrev before : List (Event env me codec)
before = job_message (at_second 5) "m" ∷ []

abbrev after : List (Event env me codec)
after = job_message (at_second 7) "more" ∷ job_ended 0 ∷ []

abbrev whole : Ran env me codec
whole = run env me codec working (λ addr. none) launch (pos 4) [] before after idle

drains :
    (whole.error ≡ none)
    × (whole.drained ≡ true)
    × (whole.outcomes ≡ some (started job) ∷ [])
    × (whole.late ≡ some dropped_draining ∷ none ∷ [])
unfolding run handle finish_job on_job after_open admit after_dedupe seen_or_record lookup flush
    spawn go_on
drains = (refl, refl, refl, refl)

-- A message comes between the jobs subscription and the failure of the control subscription: its job
-- has started when Run returns its error.
abbrev half_working : Relay
half_working = record working {
  subscribe_error = λ channel. if channel =ₛ "agent-ag-1-control" then some "refused" else none;
}

started_before_failure :
    let r = run env me codec half_working (λ addr. none) launch (pos 4) before [] [] idle in
    (r.error ≡ some "connect transport: refused") × (r.outcomes ≡ some (started job) ∷ [])
unfolding jobs_channel control_channel run handle on_job go_on after_open admit after_dedupe
    seen_or_record lookup flush spawn
started_before_failure = (refl, refl)
