-- ===== src/Worker/Drain.antt =====
-- internal/worker/worker.go: the drain after a shutdown signal.
use apipact_agent.Prelude.{
  ℕ, ◌+◌, zero, suc, if◌then◌else◌, Option-cases, ◌≤◌, ◌≡◌, refl, ◌∙◌, inl, inr, true, false,
  Option, none, some, List, [], ◌∷◌, arith, ltb, Bool-cases, length,
}
use apipact_agent.Dedupe.{Codec}
use apipact_agent.Worker.{
  element_at, remove_at, go_on, begin_job, resume_job, job_begun, job_resumed, on_job, start_drain,
  finish_job, handle, run_events, Envelopes, Identity, Outcome, Instant, Worker, Event,
  dropped_draining, job_message, control_message, heartbeat_due, shutdown, job_ended,
}
use apipact_agent.Worker.Load.{
  length-remove_at, go_on-Loads, Loads, is_started, heartbeat_tick-same, on_control-same, SameLoad,
}

-- The count of the jobs that a sequence of outcomes starts.
abbrev pub count_started : List (Option Outcome) → ℕ
count_started [] = 0
count_started (none ∷ os) = count_started os
count_started (some o ∷ os) = (if is_started o then 1 else 0) + count_started os

element_at-length :
    {A : Type 0} (i : ℕ) (xs : List A) (x : A)
    → element_at i xs ≡ some x
    → length (remove_at i xs) + 1 ≡ length xs
unfolding element_at remove_at
element_at-length i [] x h = absurd (ground arith)
element_at-length zero (y ∷ xs) x h = omega arith
element_at-length (suc i) (y ∷ xs) x h = omega (arith, element_at-length i xs x h)

count_cons :
    (o : Option Outcome) (os : List (Option Outcome))
    → count_started (o ∷ os) ≡ count_started (o ∷ []) + count_started os
count_cons none os = omega arith
count_cons (some o) os = omega arith

module _ (env : Envelopes) (me : Identity) (codec : Codec) where
  abbrev W : Type 0
  W = Worker env me codec

  -- What a step of a draining worker may do: what it starts comes from a handler that has passed the
  -- test of the flag, and each such handler starts one job at most.
  record Drains (v : W) (o : Option Outcome) (w : W) : Type 0 where
    draining : w.draining ≡ true
    passed : count_started (o ∷ []) + length w.entered ≤ length v.entered
    fewer : length w.running ≤ length v.running + count_started (o ∷ [])

  finish_job-Drains :
      (i : ℕ) (w : W) → w.draining ≡ true → Drains w none (finish_job env me codec i w)
  unfolding finish_job
  finish_job-Drains i w d = elim (Bool-cases (ltb i (length w.running))) [
    | inl b ↦
        let e = length-remove_at i w.running (ground arith) in
        simp b (record { draining = d; passed = omega arith; fewer = omega (arith, e) })
    | inr b ↦ simp b (record { draining = d; passed = omega arith; fewer = omega arith })
  ]

  same-Drains : {v w : W} → SameLoad v w → v.draining ≡ true → Drains v none w
  same-Drains s d = record {
    draining = s.draining ∙ d;
    passed = rw (s.entered) (omega arith);
    fewer = rw (s.running) (omega arith);
  }

  on_job-drops :
      (t : Instant) (m : env.Raw) (w : W)
      → w.draining ≡ true
      → on_job env me codec t m w ≡ (dropped_draining, w)
  unfolding on_job
  on_job-drops t m w b = simp b

  begin_job-drops :
      (m : env.Raw) (w : W)
      → w.draining ≡ true
      → begin_job env me codec m w ≡ (some dropped_draining, w)
  unfolding begin_job
  begin_job-drops m w b = simp b

  dropped-Drains : (w : W) → w.draining ≡ true → Drains w (some dropped_draining) w
  dropped-Drains w d = record { draining = d; passed = omega arith; fewer = omega arith }

  -- A handler goes on, and is no longer between its test and its end.
  Loads-Drains :
      (v w : W) (r : Outcome × W)
      → length w.entered + 1 ≡ length v.entered
      → w.running ≡ v.running
      → w.draining ≡ true
      → Loads w r
      → Drains v (some r.0) r.1
  Loads-Drains v w r e same d h = elim h [
    | inl (o, s) ↦ record {
      draining = s.draining ∙ d;
      passed = rw (o, s.entered) (omega (arith, e));
      fewer = rw (o, s.running, same) (omega arith);
    }
    | inr (o, s) ↦ record {
      draining = s.draining ∙ d;
      passed = rw (o, s.entered) (omega (arith, e));
      fewer = rw (o, s.running, same) (omega arith);
    }
  ]

  resume_job-Drains :
      (t : Instant) (i : ℕ) (w : W)
      → w.draining ≡ true
      → let (o, w') = resume_job env me codec t i w in Drains w o w'
  unfolding resume_job
  resume_job-Drains t i w d = elim (Option-cases (element_at i w.entered)) [
    | inl q ↦
        rw (q, resume_job) (record { draining = d; passed = omega arith; fewer = omega arith })
    | inr (m, q) ↦
        let v = record w { entered = remove_at i w.entered } in
        rw (q, resume_job)
          (Loads-Drains w v (go_on env me codec t m v) (element_at-length i w.entered m q) refl d
            (go_on-Loads t m v))
  ]

  handle-Drains :
      (e : Event env me codec) (w : W)
      → w.draining ≡ true
      → let (o, w') = handle env me codec e w in Drains w o w'
  unfolding handle
  handle-Drains (job_message t m) w d = rw (on_job-drops t m w d) (dropped-Drains w d)
  handle-Drains (control_message now m) w d = same-Drains (on_control-same now m w) d
  handle-Drains (heartbeat_due now) w d = same-Drains (heartbeat_tick-same now w) d
  handle-Drains shutdown w d =
      unfold start_drain in record { draining = refl; passed = omega arith; fewer = omega arith }
  handle-Drains (job_ended i) w d = finish_job-Drains i w d
  handle-Drains (job_begun m) w d = rw (begin_job-drops m w d) (dropped-Drains w d)
  handle-Drains (job_resumed t i) w d = resume_job-Drains t i w d

  -- The outcome of an event of a draining worker: only a handler that goes on may start a job.
  abbrev IsLate : Event env me codec → Option Outcome → Type 0
  IsLate (job_resumed t i) o = Unit
  IsLate e none = Unit
  IsLate e (some o) = is_started o ≡ false

  abbrev pub AllLate : List (Event env me codec) → List (Option Outcome) → Type 0
  AllLate [] [] = Unit
  AllLate (e ∷ es) (o ∷ os) = IsLate e o × AllLate es os
  AllLate _ _ = ⊥

  handle-IsLate :
      (e : Event env me codec) (w : W) → w.draining ≡ true → IsLate e (handle env me codec e w).0
  unfolding handle
  handle-IsLate (job_message t m) w d = rw (on_job-drops t m w d) refl
  handle-IsLate (control_message now m) w d = tt
  handle-IsLate (heartbeat_due now) w d = tt
  handle-IsLate shutdown w d = tt
  handle-IsLate (job_ended i) w d = tt
  handle-IsLate (job_begun m) w d = rw (begin_job-drops m w d) refl
  handle-IsLate (job_resumed t i) w d = tt

  -- What holds after the events that follow a shutdown signal.
  pub record IsDrained (v : W) (es : List (Event env me codec)) (os : List (Option Outcome)) (w : W)
      : Type 0 where
    pub late : AllLate es os
    pub draining : w.draining ≡ true
    pub passed : count_started os + length w.entered ≤ length v.entered
    pub fewer : length w.running ≤ length v.running + count_started os

  drain_loop :
      (es : List (Event env me codec)) (w : W)
      → w.draining ≡ true
      → let (os, w') = run_events env me codec es w in IsDrained w es os w'
  unfolding run_events
  drain_loop [] w d = record { late = tt; draining = d; passed = omega arith; fewer = omega arith }
  drain_loop (e ∷ es) w d =
      let (o, v) = handle env me codec e w in
      let s = handle-Drains e w d in
      let r = drain_loop es v s.draining in
      let c = count_cons o (run_events env me codec es v).0 in
      record {
        late = (handle-IsLate e w d, r.late);
        draining = r.draining;
        passed = omega (arith, c, s.passed, r.passed);
        fewer = omega (arith, c, s.fewer, r.fewer);
      }

  -- After the shutdown signal, whatever events follow, the worker stays draining; only a handler that
  -- goes on may start a job, so that a message whose test of the flag comes after the signal starts
  -- none; at most as many jobs start as handlers had passed their test before the signal and had not
  -- gone on; and the jobs that run are no more than those that ran at the signal and those.
  pub drain_starts_entered :
      (es : List (Event env me codec)) (w : W)
      → let (os, w') = run_events env me codec es (start_drain env me codec w) in
        IsDrained w es os w'
  unfolding start_drain
  drain_starts_entered es w =
      let r = drain_loop es (start_drain env me codec w) refl in
      record { late = r.late; draining = r.draining; passed = r.passed; fewer = r.fewer }
