-- ===== src/Worker/Lifetime/Announced.antt =====
-- internal/worker/worker.go: a worker that has said hello has said it for good.
use apipact_agent.Prelude.{
  ℕ, Option-cases, String, ◌≡◌, refl, inl, inr, Bool, true, ◌&&◌, not, List, [], ◌∷◌, ◌++◌, arith,
  ◌=ₛ◌, Bool-cases, Result, ok, err, Result-cases, any,
}
use apipact_agent.Prelude.Int.{pos}
use apipact_agent.Protocol.{Time, ack_hello, ack_heartbeat, ack_pong, Job, ControlMessage, Ack}
use apipact_agent.Dedupe.{seen_or_record, Codec, Recorded}
use apipact_agent.Worker.{
  spawn, after_dedupe, admit, after_open, go_on, on_job, element_at, remove_at, begin_job,
  resume_job, job_begun, job_resumed, send_heartbeat, after_open_control, on_control,
  heartbeat_tick, start_drain, finish_job, handle, run_events, Envelopes, Identity, Instant, Worker,
  Event, job_message, control_message, heartbeat_due, shutdown, job_ended,
}

module _ (env : Envelopes) (me : Identity) (codec : Codec) where
  abbrev pub is_hello : Ack → Bool
  is_hello a = a.kind =ₛ ack_hello

  -- The worker has published an Ack of the kind "hello".
  abbrev pub has_announced : Worker env me codec → Bool
  has_announced w = any is_hello w.published

  any-++ : (xs ys : List Ack) → any is_hello xs ≡ true → any is_hello (xs ++ ys) ≡ true
  any-++ [] ys h = absurd (ground arith)
  any-++ (x ∷ xs) ys h = ground (arith, any-++ xs ys)

  any-last : (xs : List Ack) (a : Ack) → is_hello a ≡ true → any is_hello (xs ++ a ∷ []) ≡ true
  any-last [] a h = rw h refl
  any-last (x ∷ xs) a h = ground (arith, any-last xs a h)

  send_heartbeat-keeps :
      (now : Time) (kind reply : String) (w : Worker env me codec)
      → has_announced w ≡ true
      → has_announced (send_heartbeat env me codec now kind reply w) ≡ true
  unfolding send_heartbeat
  send_heartbeat-keeps now kind reply w h = elim (Bool-cases me.has_publisher) [
    | inl b ↦ simp b (any-++ w.published _ h)
    | inr b ↦ simp b h
  ]

  pub hello-announces :
      (now : Time) (w : Worker env me codec)
      → me.has_publisher ≡ true
      → has_announced (send_heartbeat env me codec now ack_hello "" w) ≡ true
  unfolding send_heartbeat
  hello-announces now w b = simp b (any-last w.published _ refl)

  after_dedupe-same :
      (job : Job) (w : Worker env me codec) (r : Recorded)
      → (after_dedupe env me codec job w r).1.published ≡ w.published
  unfolding after_dedupe spawn
  after_dedupe-same job w r = ground arith

  admit-same :
      (t : Instant) (job : Job) (w : Worker env me codec)
      → (admit env me codec t job w).1.published ≡ w.published
  unfolding admit
  admit-same t job w = ground (
    arith,
    after_dedupe-same job w
        (seen_or_record codec t.io (pos t.now_sec) (pos t.prune_sec) job.job_id w.dedupe w.disk),
  )

  after_open-same :
      (t : Instant) (w : Worker env me codec) (r : Result String Job × env.Opener)
      → (after_open env me codec t w r).1.published ≡ w.published
  unfolding after_open
  after_open-same t w (err e, opener) = refl
  after_open-same t w (ok job, opener) = admit-same t job (record w { opener = opener })

  go_on-same :
      (t : Instant) (m : env.Raw) (w : Worker env me codec)
      → (go_on env me codec t m w).1.published ≡ w.published
  unfolding go_on
  go_on-same t m w = elim (Result-cases (env.parse m)) [
    | inr (x, q) ↦ rw (q, go_on) refl
    | inl (e, q) ↦ rw (q, go_on) (after_open-same t w (env.open_job w.opener e))
  ]

  on_job-same :
      (t : Instant) (m : env.Raw) (w : Worker env me codec)
      → (on_job env me codec t m w).1.published ≡ w.published
  unfolding on_job
  on_job-same t m w = elim (Bool-cases w.draining) [
    | inl b ↦ simp b refl
    | inr b ↦ simp b (go_on-same t m w)
  ]

  resume_job-same :
      (t : Instant) (i : ℕ) (w : Worker env me codec)
      → (resume_job env me codec t i w).1.published ≡ w.published
  unfolding resume_job
  resume_job-same t i w = elim (Option-cases (element_at i w.entered)) [
    | inl q ↦ rw (q, resume_job) refl
    | inr (m, q) ↦
        rw (q, resume_job) (go_on-same t m (record w { entered = remove_at i w.entered }))
  ]

  after_open_control-keeps :
      (now : Time) (e : env.Envelope) (w : Worker env me codec)
      (r : Result String ControlMessage × env.Opener)
      → has_announced w ≡ true
      → has_announced (after_open_control env me codec now e w r) ≡ true
  unfolding after_open_control
  after_open_control-keeps now e w (err x, opener) h = h
  after_open_control-keeps now e w (ok ctl, opener) h =
      ground (
        arith,
        send_heartbeat-keeps now ack_pong (env.message_id e) (record w { opener = opener }) h,
      )

  on_control-keeps :
      (now : Time) (m : env.Raw) (w : Worker env me codec)
      → has_announced w ≡ true
      → has_announced (on_control env me codec now m w) ≡ true
  unfolding on_control
  on_control-keeps now m w h = elim (Result-cases (env.parse m)) [
    | inr (x, q) ↦ rw (q, on_control) h
    | inl (e, q) ↦
        elim (Bool-cases (not (env.sign_key_id e =ₛ "") && (env.sign_key_id e =ₛ me.sign_key_id))) [
          | inl b ↦ rw (q, on_control, b) h
          | inr b ↦
              rw (q, on_control, b)
                (after_open_control-keeps now e w (env.open_control w.opener e) h)
        ]
  ]

  handle-keeps :
      (e : Event env me codec) (w : Worker env me codec)
      → has_announced w ≡ true
      → has_announced (handle env me codec e w).1 ≡ true
  unfolding handle
  handle-keeps (job_message t m) w h = rw (on_job-same t m w) h
  handle-keeps (control_message now m) w h = on_control-keeps now m w h
  handle-keeps (heartbeat_due now) w h =
      unfold heartbeat_tick in ground (arith, send_heartbeat-keeps now ack_heartbeat "" w h)
  handle-keeps shutdown w h = unfold start_drain in h
  handle-keeps (job_ended i) w h = unfold finish_job in ground arith
  handle-keeps (job_begun m) w h =
      unfold begin_job in elim (Bool-cases w.draining) [ inl b ↦ simp b h | inr b ↦ simp b h ]
  handle-keeps (job_resumed t i) w h = rw (resume_job-same t i w) h

  pub run_events-keeps :
      (es : List (Event env me codec)) (w : Worker env me codec)
      → has_announced w ≡ true
      → has_announced (run_events env me codec es w).1 ≡ true
  unfolding run_events
  run_events-keeps [] w h = h
  run_events-keeps (e ∷ es) w h =
      run_events-keeps es (handle env me codec e w).1 (handle-keeps e w h)
