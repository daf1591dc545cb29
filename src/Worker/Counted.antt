-- ===== src/Worker/Counted.antt =====
-- internal/worker/worker.go: the counters of running jobs.
use apipact_agent.Prelude.{
  ℕ, String, ◌≡◌, sym, ap, ◌∙◌, inl, inr, List, [], ◌∷◌, arith, ltb, Bool-cases, Option-cases,
  length,
}
use apipact_agent.Protocol.{Time}
use apipact_agent.Dedupe.{Codec}
use apipact_agent.Worker.{
  element_at, remove_at, go_on, on_job, begin_job, resume_job, job_begun, job_resumed, Outcome,
  Instant, send_heartbeat, start_drain, finish_job, handle, run_events, Envelopes, Identity, Worker,
  Event, job_message, control_message, heartbeat_due, shutdown, job_ended,
}
use apipact_agent.Worker.Load.{
  length-remove_at, go_on-Loads, on_job-Loads, Loads, send_heartbeat-same, heartbeat_tick-same,
  on_control-same, SameLoad, OneMore,
}

module _ (env : Envelopes) (me : Identity) (codec : Codec) where
  abbrev W : Type 0
  W = Worker env me codec

  -- The in-flight counter and the wait group count the jobs that run.
  pub record IsCounted (w : W) : Type 0 where
    pub inflight : w.inflight ≡ length w.running
    pub wait_group : w.wait_group ≡ length w.running

  same-IsCounted : {v w : W} → SameLoad v w → IsCounted v → IsCounted w
  same-IsCounted s c = record {
    inflight = s.inflight ∙ c.inflight ∙ ap length (sym s.running);
    wait_group = s.wait_group ∙ c.wait_group ∙ ap length (sym s.running);
  }

  pub send_heartbeat-IsCounted :
      (now : Time) (kind reply : String) (w : W)
      → IsCounted w
      → IsCounted (send_heartbeat env me codec now kind reply w)
  send_heartbeat-IsCounted now kind reply w = same-IsCounted (send_heartbeat-same now kind reply w)

  more-IsCounted : {v w : W} → OneMore v w → IsCounted v → IsCounted w
  more-IsCounted s c =
      let e = ap length s.running in
      record {
        inflight = omega (arith, e, s.inflight, c.inflight);
        wait_group = omega (arith, e, s.wait_group, c.wait_group);
      }

  finish_job-IsCounted : (i : ℕ) (w : W) → IsCounted w → IsCounted (finish_job env me codec i w)
  unfolding finish_job
  finish_job-IsCounted i w c = elim (Bool-cases (ltb i (length w.running))) [
    | inl b ↦
        let e = length-remove_at i w.running (ground arith) in
        simp b (record {
          inflight = omega (arith, e, c.inflight);
          wait_group = omega (arith, e, c.wait_group);
        })
    | inr b ↦ simp b c
  ]

  Loads-IsCounted : (v : W) (r : Outcome × W) → Loads v r → IsCounted v → IsCounted r.1
  Loads-IsCounted v r h c = elim h [
    | inl (_, s) ↦ same-IsCounted s c
    | inr (_, s) ↦ more-IsCounted s c
  ]

  resume_job-IsCounted :
      (t : Instant) (i : ℕ) (w : W) → IsCounted w → IsCounted (resume_job env me codec t i w).1
  unfolding resume_job
  resume_job-IsCounted t i w c = elim (Option-cases (element_at i w.entered)) [
    | inl q ↦ rw (q, resume_job) c
    | inr (m, q) ↦
        let v = record w { entered = remove_at i w.entered } in
        rw (q, resume_job)
          (Loads-IsCounted v (go_on env me codec t m v) (go_on-Loads t m v)
            (record { inflight = c.inflight; wait_group = c.wait_group }))
  ]

  handle-IsCounted :
      (e : Event env me codec) (w : W) → IsCounted w → IsCounted (handle env me codec e w).1
  unfolding handle
  handle-IsCounted (job_message t m) w c =
      Loads-IsCounted w (on_job env me codec t m w) (on_job-Loads t m w) c
  handle-IsCounted (control_message now m) w c = same-IsCounted (on_control-same now m w) c
  handle-IsCounted (heartbeat_due now) w c = same-IsCounted (heartbeat_tick-same now w) c
  handle-IsCounted shutdown w c =
      unfold start_drain in record { inflight = c.inflight; wait_group = c.wait_group }
  handle-IsCounted (job_ended i) w c = finish_job-IsCounted i w c
  handle-IsCounted (job_begun m) w c =
      unfold begin_job in
      elim (Bool-cases w.draining) [
        | inl b ↦ simp b c
        | inr b ↦ simp b (record { inflight = c.inflight; wait_group = c.wait_group })
      ]
  handle-IsCounted (job_resumed t i) w c = resume_job-IsCounted t i w c

  -- Whatever messages, ticks, signals and ends of jobs come in whatever order, the in-flight counter
  -- and the wait group stay equal to the number of jobs that run.
  pub run_events-IsCounted :
      (es : List (Event env me codec)) (w : W)
      → IsCounted w
      → IsCounted (run_events env me codec es w).1
  unfolding run_events
  run_events-IsCounted [] w c = c
  run_events-IsCounted (e ∷ es) w c =
      run_events-IsCounted es (handle env me codec e w).1 (handle-IsCounted e w c)
