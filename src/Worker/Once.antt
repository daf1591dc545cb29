-- ===== src/Worker/Once.antt =====
-- internal/worker/worker.go with internal/store/dedupe.go: a job is started once.
use apipact_agent.Prelude.{
  ℕ, ◌+◌, ◌<◌, String, ◌≡◌, refl, ap, ◌∙◌, ◌≢◌, ◌⊎◌, inl, inr, ◌&&◌, ◌||◌, not, Option, some, List,
  [], ◌∷◌, arith, ◌=ₛ◌, ltb, Bool-cases, Option-cases, Result, ok, err, Result-cases, length, All,
}
use apipact_agent.Prelude.Int.{not_positive}
use apipact_agent.Protocol.{Time, control_ping, ack_heartbeat, ack_pong, Job, ControlMessage}
use apipact_agent.Dedupe.{Codec, Recorded}
use apipact_agent.Dedupe.Laws.{max_clock, Holds, IsStore}
use apipact_agent.Dedupe.Restart.{call, Before, call-Holds, call-seen, call-accepted-Holds, Call}
use apipact_agent.Worker.{
  heartbeat_interval, spawn, after_dedupe, is_past, admit, after_open, go_on, on_job, element_at,
  remove_at, begin_job, resume_job, job_begun, job_resumed, send_heartbeat, after_open_control,
  on_control, heartbeat_tick, start_drain, finish_job, handle, run_events, Envelopes, Identity,
  Outcome, Instant, Worker, Event, started, job_message, control_message, heartbeat_due, shutdown,
  job_ended,
}
use apipact_agent.Worker.Accept.{go_on-fresh, started-Admitted}

module _ (env : Envelopes) (me : Identity) (codec : Codec) where
  abbrev W : Type 0
  W = Worker env me codec

  -- The call of SeenOrRecord that a message makes for a job.
  abbrev call_of : Instant → String → Call
  call_of t id = record { job = id; io = t.io; now = t.now_sec; now' = t.prune_sec }

  -- The store after a message: untouched, or as one call of SeenOrRecord leaves it.
  abbrev Asked : Instant → W → W → Type 0
  Asked t v w =
      (w.dedupe ≡ v.dedupe)
      ⊎ ((id : String) × (w.dedupe ≡ (call codec (call_of t id) v.dedupe v.disk).store))

  after_dedupe-store :
      (job : Job) (w : W) (r : Recorded) → (after_dedupe env me codec job w r).1.dedupe ≡ r.store
  unfolding after_dedupe spawn
  after_dedupe-store job w r = ground arith

  admit-Asked : (t : Instant) (job : Job) (w : W) → Asked t w (admit env me codec t job w).1
  unfolding admit call
  admit-Asked t job w =
      elim (Bool-cases (not (job.agent_id =ₛ "") && not (job.agent_id =ₛ me.agent_id))) [
        | inl a ↦ rw a (inl refl)
        | inr a ↦ elim (Bool-cases (is_past env me codec t.now job.deadline)) [
          | inl d ↦ rw (a, d) (inl refl)
          | inr d ↦ rw (a, d) (inr (job.job_id, after_dedupe-store job w _))
        ]
      ]

  after_open-Asked :
      (t : Instant) (w : W) (r : Result String Job × env.Opener)
      → Asked t w (after_open env me codec t w r).1
  unfolding after_open
  after_open-Asked t w (err e, opener) = inl refl
  after_open-Asked t w (ok job, opener) = admit-Asked t job (record w { opener = opener })

  go_on-Asked : (t : Instant) (m : env.Raw) (w : W) → Asked t w (go_on env me codec t m w).1
  unfolding go_on
  go_on-Asked t m w = elim (Result-cases (env.parse m)) [
    | inr (x, q) ↦ rw (q, go_on) (inl refl)
    | inl (e, q) ↦ rw (q, go_on) (after_open-Asked t w (env.open_job w.opener e))
  ]

  on_job-Asked : (t : Instant) (m : env.Raw) (w : W) → Asked t w (on_job env me codec t m w).1
  unfolding on_job
  on_job-Asked t m w = elim (Bool-cases w.draining) [
    | inl b ↦ simp b (inl refl)
    | inr b ↦ simp b (go_on-Asked t m w)
  ]

  send_heartbeat-store :
      (now : Time) (kind reply : String) (w : W)
      → (send_heartbeat env me codec now kind reply w).dedupe ≡ w.dedupe
  unfolding send_heartbeat
  send_heartbeat-store now kind reply w = ground arith

  after_open_control-store :
      (now : Time) (e : env.Envelope) (w : W) (r : Result String ControlMessage × env.Opener)
      → (after_open_control env me codec now e w r).dedupe ≡ w.dedupe
  unfolding after_open_control
  after_open_control-store now e w (err x, opener) = refl
  after_open_control-store now e w (ok ctl, opener) =
      elim (Bool-cases (ctl.type_name =ₛ control_ping)) [
        | inl b ↦ rw b (send_heartbeat-store now ack_pong (env.message_id e) _)
        | inr b ↦ rw b refl
      ]

  control-store :
      (now : Time) (m : env.Raw) (w : W) → (on_control env me codec now m w).dedupe ≡ w.dedupe
  unfolding on_control
  control-store now m w = elim (Result-cases (env.parse m)) [
    | inr (x, q) ↦ rw (q, on_control) refl
    | inl (e, q) ↦
        elim (Bool-cases (not (env.sign_key_id e =ₛ "") && (env.sign_key_id e =ₛ me.sign_key_id))) [
          | inl b ↦ rw (q, on_control, b) refl
          | inr b ↦
              rw (q, on_control, b) (after_open_control-store now e w (env.open_control w.opener e))
        ]
  ]

  heartbeat_tick-store :
      (now : Time) (w : W) → (heartbeat_tick env me codec now w).dedupe ≡ w.dedupe
  unfolding heartbeat_tick
  heartbeat_tick-store now w =
      elim (Bool-cases (not_positive (heartbeat_interval me.heartbeat_sec) || w.draining)) [
        | inl b ↦ rw b refl
        | inr b ↦ rw b (send_heartbeat-store now ack_heartbeat "" w)
      ]

  finish_job-store : (i : ℕ) (w : W) → (finish_job env me codec i w).dedupe ≡ w.dedupe
  unfolding finish_job
  finish_job-store i w = elim (Bool-cases (ltb i (length w.running))) [
    | inl b ↦ rw b refl
    | inr b ↦ rw b refl
  ]

  -- An event starts no job with this id.
  abbrev pub NotAgain : String → Option Outcome → Type 0
  NotAgain id (some (started job)) = job.job_id ≢ id
  NotAgain id _ = Unit

  -- The clock readings of a jobs message lie before the second `end`.
  abbrev pub EventBefore : ℕ → Event env me codec → Type 0
  EventBefore end (job_message t m) = Before end (call_of t "")
  EventBefore end (job_resumed t i) = Before end (call_of t "")
  EventBefore end _ = Unit

  module _ (id : String) (n ttl : ℕ) (n_small : n < max_clock) (fits : n + ttl < max_clock) where
    on_job-Holds :
        (t : Instant) (m : env.Raw) (w : W)
        → Before (n + ttl) (call_of t "")
        → Holds id n ttl w.dedupe
        → Holds id n ttl (on_job env me codec t m w).1.dedupe
    on_job-Holds t m w b h = elim (on_job-Asked t m w) [
      | inl e ↦ rw e h
      | inr (j, e) ↦ rw e (call-Holds codec id n ttl n_small fits (call_of t j) w.dedupe w.disk b h)
    ]

    not_again :
        (t : Instant) (m : env.Raw) (w : W) (o : Outcome)
        → (on_job env me codec t m w).0 ≡ o
        → Before (n + ttl) (call_of t "")
        → Holds id n ttl w.dedupe
        → NotAgain id (some o)
    unfolding call
    not_again t m w (started job) e b h = λ same.
        let a = started-Admitted env me codec t m w job e in
        let s =
          call-seen codec id n ttl n_small fits (call_of t job.job_id) w.dedupe w.disk same b h in
        cc (a.fresh, s)
    not_again t m w _ e b h = tt

    resumed-NotAgain :
        (t : Instant) (m : env.Raw) (w : W) (o : Outcome)
        → (go_on env me codec t m w).0 ≡ o
        → Before (n + ttl) (call_of t "")
        → Holds id n ttl w.dedupe
        → NotAgain id (some o)
    unfolding call
    resumed-NotAgain t m w (started job) e b h = λ same.
        let a = go_on-fresh env me codec t m w job e in
        let s =
          call-seen codec id n ttl n_small fits (call_of t job.job_id) w.dedupe w.disk same b h in
        cc (a, s)
    resumed-NotAgain t m w _ e b h = tt

    resume_job-Holds :
        (t : Instant) (i : ℕ) (w : W)
        → Before (n + ttl) (call_of t "")
        → Holds id n ttl w.dedupe
        → NotAgain id (resume_job env me codec t i w).0
          × Holds id n ttl (resume_job env me codec t i w).1.dedupe
    unfolding resume_job
    resume_job-Holds t i w b h = elim (Option-cases (element_at i w.entered)) [
      | inl q ↦ rw (q, resume_job) (tt, h)
      | inr (m, q) ↦
          let v = record w { entered = remove_at i w.entered } in
          rw (q, resume_job)
            (
              resumed-NotAgain t m v (go_on env me codec t m v).0 refl b h,
              elim (go_on-Asked t m v) [
                | inl e ↦ rw e h
                | inr (j, e) ↦
                    rw e (call-Holds codec id n ttl n_small fits (call_of t j) v.dedupe v.disk b h)
              ],
            )
    ]

    handle-Holds :
        (e : Event env me codec) (w : W)
        → EventBefore (n + ttl) e
        → Holds id n ttl w.dedupe
        → NotAgain id (handle env me codec e w).0
          × Holds id n ttl (handle env me codec e w).1.dedupe
    unfolding handle start_drain
    handle-Holds (job_message t m) w b h =
        (not_again t m w (on_job env me codec t m w).0 refl b h, on_job-Holds t m w b h)
    handle-Holds (control_message now m) w b h = (tt, rw (control-store now m w) h)
    handle-Holds (heartbeat_due now) w b h = (tt, rw (heartbeat_tick-store now w) h)
    handle-Holds shutdown w b h = (tt, h)
    handle-Holds (job_ended i) w b h = (tt, rw (finish_job-store i w) h)
    handle-Holds (job_begun m) w b h =
        unfold begin_job in
        elim (Bool-cases w.draining) [ inl d ↦ simp d (tt, h) | inr d ↦ simp d (tt, h) ]
    handle-Holds (job_resumed t i) w b h = resume_job-Holds t i w b h

    run_events-Holds :
        (es : List (Event env me codec)) (w : W)
        → All (EventBefore (n + ttl)) es
        → Holds id n ttl w.dedupe
        → All (NotAgain id) (run_events env me codec es w).0
    unfolding run_events
    run_events-Holds [] w bs h = tt
    run_events-Holds (e ∷ es) w (b, bs) h =
        let (a, h') = handle-Holds e w b h in
        (a, run_events-Holds es (handle env me codec e w).1 bs h')

  after_dedupe-id :
      (job job' : Job) (w : W) (r : Recorded)
      → (after_dedupe env me codec job' w r).0 ≡ started job
      → job' ≡ job
  unfolding after_dedupe
  after_dedupe-id job job' w r h = ground arith

  -- The message that starts a job leaves the store of the call that recorded the job's id.
  admit-records :
      (t : Instant) (job job' : Job) (w : W)
      → (admit env me codec t job' w).0 ≡ started job
      → (admit env me codec t job' w).1.dedupe
        ≡ (call codec (call_of t job.job_id) w.dedupe w.disk).store
  unfolding admit call
  admit-records t job job' w h =
      elim (Bool-cases (not (job'.agent_id =ₛ "") && not (job'.agent_id =ₛ me.agent_id))) [
        | inl a ↦ absurd (ground arith)
        | inr a ↦ elim (Bool-cases (is_past env me codec t.now job'.deadline)) [
          | inl d ↦ absurd (ground arith)
          | inr d ↦
              let same = after_dedupe-id job job' w _ (rw (a, d) at h) in
              rw (a, d)
                (after_dedupe-store job' w _
                  ∙ ap (λ j. (call codec (call_of t j.job_id) w.dedupe w.disk).store) same)
        ]
      ]

  after_open-records :
      (t : Instant) (job : Job) (w : W) (r : Result String Job × env.Opener)
      → (after_open env me codec t w r).0 ≡ started job
      → (after_open env me codec t w r).1.dedupe
        ≡ (call codec (call_of t job.job_id) w.dedupe w.disk).store
  unfolding after_open
  after_open-records t job w (err e, opener) h = absurd (ground arith)
  after_open-records t job w (ok job', opener) h = admit-records t job job' _ h

  on_job-records :
      (t : Instant) (m : env.Raw) (w : W) (job : Job)
      → (on_job env me codec t m w).0 ≡ started job
      → (on_job env me codec t m w).1.dedupe
        ≡ (call codec (call_of t job.job_id) w.dedupe w.disk).store
  unfolding on_job go_on
  on_job-records t m w job h = elim (Bool-cases w.draining) [
    | inl b ↦ absurd (ground arith)
    | inr b ↦ elim (Result-cases (env.parse m)) [
      | inr (x, q) ↦ absurd (ground (arith, b, q))
      | inl (e, q) ↦
          rw (b, q, on_job, go_on)
            (after_open-records t job w (env.open_job w.opener e) (rw (b, q, on_job, go_on) at h))
    ]
  ]

  -- Once a message has started a job, no message that arrives while the clock stays below the end
  -- of the id's time to live starts a job with that id, whatever other messages, heartbeats, ends
  -- of jobs and shutdown signals come in between, and whatever becomes of the store's writes.
  pub started_once :
      (ttl : ℕ) (t : Instant) (m : env.Raw) (w : W) (job : Job) (es : List (Event env me codec))
      → IsStore ttl w.dedupe
      → (on_job env me codec t m w).0 ≡ started job
      → t.now_sec + ttl < max_clock
      → All (EventBefore (t.now_sec + ttl)) es
      → All (NotAgain job.job_id) (run_events env me codec es (on_job env me codec t m w).1).0
  unfolding call
  started_once ttl t m w job es s h fits bs =
      let a = started-Admitted env me codec t m w job h in
      let c = call_of t job.job_id in
      let held = call-accepted-Holds codec ttl c w.dedupe w.disk s a.fresh in
      run_events-Holds job.job_id t.now_sec ttl (omega arith) fits es (on_job env me codec t m w).1
        bs (rw (on_job-records t m w job h) held)
