-- ===== src/Worker/Load.antt =====
-- internal/worker/worker.go: what the handlers of messages and ticks do to the jobs that run, and to
-- the counters that count them.
use apipact_agent.Prelude.{
  ℕ, zero, suc, ◌+◌, ◌<◌, String, ◌≡◌, refl, ◌⊎◌, inl, inr, Bool, true, false, ◌&&◌, ◌||◌, not,
  List, [], ◌∷◌, arith, ◌=ₛ◌, Bool-cases, Result, ok, err, Result-cases, length,
}
use apipact_agent.Prelude.Int.{not_positive}
use apipact_agent.Protocol.{Time, control_ping, Job, ControlMessage}
use apipact_agent.Dedupe.{Codec, Recorded}
use apipact_agent.Worker.{
  remove_at, heartbeat_interval, spawn, after_dedupe, is_past, admit, after_open, go_on, on_job,
  send_heartbeat, after_open_control, on_control, heartbeat_tick, Envelopes, Identity, Outcome,
  Instant, Worker, started,
}

pub length-remove_at :
    (i : ℕ) (xs : List Job) → i < length xs → length (remove_at i xs) + 1 ≡ length xs
unfolding remove_at
length-remove_at i [] h = absurd (omega arith)
length-remove_at zero (x ∷ xs) h = omega arith
length-remove_at (suc i) (x ∷ xs) h = omega (arith, length-remove_at i xs)

abbrev pub is_started : Outcome → Bool
is_started (started job) = true
is_started _ = false

module _ {env : Envelopes} {me : Identity} {codec : Codec} where
  -- Two workers with the same jobs, counters and drain flag.
  pub record SameLoad (v w : Worker env me codec) : Type 0 where
    pub inflight : w.inflight ≡ v.inflight
    pub wait_group : w.wait_group ≡ v.wait_group
    pub running : w.running ≡ v.running
    pub draining : w.draining ≡ v.draining
    pub entered : w.entered ≡ v.entered

  -- A worker that runs one job more.
  pub record OneMore (v w : Worker env me codec) : Type 0 where
    pub job : Job
    pub inflight : w.inflight ≡ v.inflight + 1
    pub wait_group : w.wait_group ≡ v.wait_group + 1
    pub running : w.running ≡ job ∷ v.running
    pub draining : w.draining ≡ v.draining
    pub entered : w.entered ≡ v.entered

  -- What a jobs message does to the load.
  abbrev pub Loads : Worker env me codec → Outcome × Worker env me codec → Type 0
  Loads v (o, w) = ((is_started o ≡ false) × SameLoad v w) ⊎ ((is_started o ≡ true) × OneMore v w)

  pub same : (w : Worker env me codec) → SameLoad w w
  same w = record {
    inflight = refl;
    wait_group = refl;
    running = refl;
    draining = refl;
    entered = refl;
  }

  after_dedupe-Loads :
      (job : Job) (w : Worker env me codec) (r : Recorded)
      → Loads w (after_dedupe env me codec job w r)
  unfolding after_dedupe spawn
  after_dedupe-Loads job w r = elim (Result-cases r.answer) [
    | inr (e, q) ↦
        rw (q, after_dedupe)
          (inl (
            refl,
            record {
              inflight = refl;
              wait_group = refl;
              running = refl;
              draining = refl;
              entered = refl;
            },
          ))
    | inl (true, q) ↦
        rw (q, after_dedupe)
          (inl (
            refl,
            record {
              inflight = refl;
              wait_group = refl;
              running = refl;
              draining = refl;
              entered = refl;
            },
          ))
    | inl (false, q) ↦
        rw (q, after_dedupe)
          (inr (
            refl,
            record {
              job = job;
              inflight = refl;
              wait_group = refl;
              running = refl;
              draining = refl;
              entered = refl;
            },
          ))
  ]

  admit-Loads :
      (t : Instant) (job : Job) (w : Worker env me codec) → Loads w (admit env me codec t job w)
  unfolding admit
  admit-Loads t job w =
      elim (Bool-cases (not (job.agent_id =ₛ "") && not (job.agent_id =ₛ me.agent_id))) [
        | inl a ↦ rw a (inl (refl, same w))
        | inr a ↦ elim (Bool-cases (is_past env me codec t.now job.deadline)) [
          | inl d ↦ rw (a, d) (inl (refl, same w))
          | inr d ↦ rw (a, d) (after_dedupe-Loads job w _)
        ]
      ]

  after_open-Loads :
      (t : Instant) (w : Worker env me codec) (r : Result String Job × env.Opener)
      → Loads w (after_open env me codec t w r)
  unfolding after_open
  after_open-Loads t w (err e, opener) = inl (
    refl,
    record { inflight = refl; wait_group = refl; running = refl; draining = refl; entered = refl },
  )
  after_open-Loads t w (ok job, opener) = elim (admit-Loads t job (record w { opener = opener })) [
    | inl (o, s) ↦ inl (
      o,
      record {
        inflight = s.inflight;
        wait_group = s.wait_group;
        running = s.running;
        draining = s.draining;
        entered = s.entered;
      },
    )
    | inr (o, s) ↦ inr (
      o,
      record {
        job = s.job;
        inflight = s.inflight;
        wait_group = s.wait_group;
        running = s.running;
        draining = s.draining;
        entered = s.entered;
      },
    )
  ]

  pub go_on-Loads :
      (t : Instant) (m : env.Raw) (w : Worker env me codec) → Loads w (go_on env me codec t m w)
  unfolding go_on
  go_on-Loads t m w = elim (Result-cases (env.parse m)) [
    | inr (x, q) ↦ rw (q, go_on) (inl (refl, same w))
    | inl (e, q) ↦ rw (q, go_on) (after_open-Loads t w (env.open_job w.opener e))
  ]

  pub on_job-Loads :
      (t : Instant) (m : env.Raw) (w : Worker env me codec) → Loads w (on_job env me codec t m w)
  unfolding on_job
  on_job-Loads t m w = elim (Bool-cases w.draining) [
    | inl b ↦ simp b (inl (refl, same w))
    | inr b ↦ simp b (go_on-Loads t m w)
  ]

  pub send_heartbeat-same :
      (now : Time) (kind reply : String) (w : Worker env me codec)
      → SameLoad w (send_heartbeat env me codec now kind reply w)
  unfolding send_heartbeat
  send_heartbeat-same now kind reply w = record {
    inflight = ground arith;
    wait_group = ground arith;
    running = ground arith;
    draining = ground arith;
    entered = ground arith;
  }

  pub heartbeat_tick-same :
      (now : Time) (w : Worker env me codec) → SameLoad w (heartbeat_tick env me codec now w)
  unfolding heartbeat_tick
  heartbeat_tick-same now w =
      elim (Bool-cases (not_positive (heartbeat_interval me.heartbeat_sec) || w.draining)) [
        | inl b ↦ simp b (same w)
        | inr b ↦ simp b (send_heartbeat-same now "heartbeat" "" w)
      ]

  after_open_control-same :
      (now : Time) (e : env.Envelope) (w : Worker env me codec)
      (r : Result String ControlMessage × env.Opener)
      → SameLoad w (after_open_control env me codec now e w r)
  unfolding after_open_control
  after_open_control-same now e w (err x, opener) = record {
    inflight = refl;
    wait_group = refl;
    running = refl;
    draining = refl;
    entered = refl;
  }
  after_open_control-same now e w (ok ctl, opener) =
      let s = send_heartbeat-same now "pong" (env.message_id e) (record w { opener = opener }) in
      elim (Bool-cases (ctl.type_name =ₛ control_ping)) [
        | inl b ↦ rw b (record {
          inflight = s.inflight;
          wait_group = s.wait_group;
          running = s.running;
          draining = s.draining;
          entered = s.entered;
        })
        | inr b ↦ rw b (record {
          inflight = refl;
          wait_group = refl;
          running = refl;
          draining = refl;
          entered = refl;
        })
      ]

  pub on_control-same :
      (now : Time) (m : env.Raw) (w : Worker env me codec)
      → SameLoad w (on_control env me codec now m w)
  unfolding on_control
  on_control-same now m w = elim (Result-cases (env.parse m)) [
    | inr (x, q) ↦ rw (q, on_control) (same w)
    | inl (e, q) ↦
        elim (Bool-cases (not (env.sign_key_id e =ₛ "") && (env.sign_key_id e =ₛ me.sign_key_id))) [
          | inl b ↦ rw (q, on_control, b) (same w)
          | inr b ↦
              rw (q, on_control, b) (after_open_control-same now e w (env.open_control w.opener e))
        ]
  ]
