-- ===== src/Reporter/Pace.antt =====
-- internal/reporter/reporter.go: how long a report sleeps in all, and that backoff does not panic in it.
use apipact_agent.Prelude.{
  ℕ, zero, suc, ◌+◌, ◌-◌, ◌*◌, ◌≤◌, ◌<◌, String, ◌≡◌, refl, ◌∙◌, inl, inr, false, ◌&&◌, ◌||◌, not,
  Option, none, some, [], ◌∷◌, arith, ◌=ₛ◌, ltb, leb, ◌==◌, Bool-cases, Option-cases, length,
}
use apipact_agent.Prelude.Int.{pos, pos_part, ltb_ℤ}
use apipact_agent.Protocol.{return_channel, return_http, ReturnSpec}
use apipact_agent.Executor.Request.{Bytes, first_non_empty}
use apipact_agent.Reporter.{
  stop, answered, pause, post_loop, post_http, fall_back, after_publish, publish_loop,
  publish_channel, inline_max, transport_of, report, ReporterConfig, Courier, Report,
}
use apipact_agent.Reporter.Backoff.{backoff, full_pause, backoff_bounds, wait_backoff, paced, Timed}

-- The full pause before an attempt; there is none before the first.
abbrev pub cost : ℕ → ℕ
cost zero = 0
cost (suc n) = full_pause n

-- The full pauses of a loop with `left` attempts to make.
abbrev pub budget : ℕ → ℕ → ℕ
budget zero attempt = 0
budget (suc left) attempt = cost attempt + budget left (attempt + 1)

module _ {V : Type 0} where
  -- A stretch of a report that has slept at most this long and has not panicked.
  record Spent (b : ℕ) (s t : Timed V) : Type 0 where
    calm : t.panicked ≡ s.panicked
    spent : t.slept ≤ s.slept + b

  nothing-Spent : (b : ℕ) (s : Timed V) → Spent b s s
  nothing-Spent b s = record { calm = refl; spent = omega arith }

  Spent-Spent : {a b c : ℕ} {s t u : Timed V} → Spent a s t → Spent b t u → a + b ≤ c → Spent c s u
  Spent-Spent x y e = record { calm = y.calm ∙ x.calm; spent = omega (arith, x.spent, y.spent, e) }

module _ (net : Courier) (int63n : ℕ → ℕ) (sleep : ℕ → net.World → Option String × net.World)
    (random : (m : ℕ) → 0 < m → int63n m < m) (cfg : ReporterConfig) (sealed : Bytes) where
  abbrev W : Type 0
  W = Timed net.World

  abbrev on : Courier
  on = paced net int63n sleep

  wait_backoff-Spent :
      (n : ℕ) (s : W) → n ≤ 35 → Spent (full_pause n) s (wait_backoff net int63n sleep (suc n) s).1
  unfolding wait_backoff
  wait_backoff-Spent n s h =
      let (d, q, _, under, _, _) = backoff_bounds int63n n random h in
      let same : suc n - 1 ≡ n = omega arith in
      let drawn : backoff int63n (suc n - 1) ≡ some d = rw same q in
      rw (wait_backoff, drawn) (record { calm = refl; spent = omega (arith, under) })

  pause-Spent :
      (attempt : ℕ) (s : W)
      → attempt ≤ 36
      → Spent (cost attempt) s (pause on cfg sealed attempt s).1
  unfolding pause
  pause-Spent zero s h = nothing-Spent 0 s
  pause-Spent (suc n) s h = wait_backoff-Spent n s (omega arith)

  posted-Spent : (url : String) (s : W) → Spent 0 s (on.post url sealed s).1
  posted-Spent url s = record { calm = refl; spent = omega arith }

  answered-Spent :
      (b : ℕ) (again : W → Report on cfg sealed) (url : String) (r : Option ℕ × W)
      → ((t : W) → Spent b t (again t).world)
      → Spent b r.1 (answered on cfg sealed again url r).world
  unfolding answered
  answered-Spent b again url (none, t) k = k t
  answered-Spent b again url (some code, t) k = elim (Bool-cases (leb 200 code && ltb code 300)) [
    | inl e ↦ rw e (nothing-Spent b t)
    | inr e ↦ elim (Bool-cases (leb 400 code && ltb code 500 && not (code == 429))) [
      | inl f ↦ rw (e, f) (nothing-Spent b t)
      | inr f ↦ rw (e, f) (k t)
    ]
  ]

  post_loop-Spent :
      (left attempt : ℕ) (url : String) (s : W)
      → attempt + left ≤ 37
      → Spent (budget left attempt) s (post_loop on cfg sealed left attempt url s).world
  unfolding post_loop stop
  post_loop-Spent zero attempt url s h = nothing-Spent 0 s
  post_loop-Spent (suc left) attempt url s h =
      let paused = pause-Spent attempt s (omega arith) in
      let t = (pause on cfg sealed attempt s).1 in
      elim (Option-cases (pause on cfg sealed attempt s).0) [
        | inr (e, q) ↦ rw (post_loop, q) (Spent-Spent paused (nothing-Spent 0 t) (omega arith))
        | inl q ↦ elim (Option-cases (net.request_error url)) [
          | inr (e, a) ↦ rw (post_loop, q, a) (Spent-Spent paused (nothing-Spent 0 t) (omega arith))
          | inl a ↦
              rw (post_loop, q, a)
                (Spent-Spent {b = budget left (attempt + 1)} paused
                  (Spent-Spent (posted-Spent url t)
                    (answered-Spent _ _ url (on.post url sealed t)
                      (λ u. post_loop-Spent left (attempt + 1) url u (omega arith)))
                    (omega arith))
                  (omega arith))
        ]
      ]

  -- The full pauses of one loop of the configured number of attempts.
  abbrev pub loop_budget : ℕ
  loop_budget = budget (pos_part cfg.retry_attempts) 0

  module _ (few : pos_part cfg.retry_attempts ≤ 37) where
    post_http-Spent :
        (url : String) (s : W) → Spent loop_budget s (post_http on cfg sealed url s).world
    unfolding post_http stop
    post_http-Spent url s = elim (Bool-cases (url =ₛ "")) [
      | inl e ↦ rw e (nothing-Spent _ s)
      | inr e ↦ rw e (post_loop-Spent _ 0 url s (omega (arith, few)))
    ]

    fall_back-Spent :
        (last : String) (s : W) → Spent loop_budget s (fall_back on cfg sealed last s).world
    unfolding fall_back stop
    fall_back-Spent last s = elim (Bool-cases (cfg.result_url =ₛ "")) [
      | inl e ↦ rw e (nothing-Spent _ s)
      | inr e ↦ rw e (post_http-Spent cfg.result_url s)
    ]

    after_publish-Spent :
        (b : ℕ) (again : String → W → Report on cfg sealed) (channel : String)
        (r : Option String × W)
        → ((e : String) (t : W) → Spent b t (again e t).world)
        → Spent b r.1 (after_publish on cfg sealed again channel r).world
    unfolding after_publish
    after_publish-Spent b again channel (none, t) k = nothing-Spent b t
    after_publish-Spent b again channel (some e, t) k = k e t

    published-Spent : (channel : String) (s : W) → Spent 0 s (on.publish channel sealed s).1
    published-Spent channel s = record { calm = refl; spent = omega arith }

    publish_loop-Spent :
        (left attempt : ℕ) (channel last : String) (s : W)
        → attempt + left ≤ 37
        → Spent
            (budget left attempt + loop_budget)
            s
            (publish_loop on cfg sealed left attempt channel last s).world
    unfolding publish_loop stop
    publish_loop-Spent zero attempt channel last s h =
        Spent-Spent (nothing-Spent 0 s) (fall_back-Spent last s) (omega arith)
    publish_loop-Spent (suc left) attempt channel last s h =
        let paused = pause-Spent attempt s (omega arith) in
        let t = (pause on cfg sealed attempt s).1 in
        elim (Option-cases (pause on cfg sealed attempt s).0) [
          | inr (e, q) ↦ rw (publish_loop, q) (Spent-Spent paused (nothing-Spent 0 t) (omega arith))
          | inl q ↦
              rw (publish_loop, q)
                (Spent-Spent {b = budget left (attempt + 1) + loop_budget} paused
                  (Spent-Spent (published-Spent channel t)
                    (after_publish-Spent _ _ channel (on.publish channel sealed t)
                      (λ e u. publish_loop-Spent left (attempt + 1) channel e u (omega arith)))
                    (omega arith))
                  (omega arith))
        ]

    publish_channel-Spent :
        (channel : String) (s : W)
        → Spent (2 * loop_budget) s (publish_channel on cfg sealed channel s).world
    unfolding publish_channel stop
    publish_channel-Spent channel s = elim (Bool-cases cfg.has_publisher) [
      | inr e ↦ rw (publish_channel, e) (nothing-Spent _ s)
      | inl e ↦ elim (Bool-cases (channel =ₛ "")) [
        | inl f ↦ rw (publish_channel, e, f) (nothing-Spent _ s)
        | inr f ↦
            rw (e, f)
              (Spent-Spent (publish_loop-Spent _ 0 channel "" s (omega (arith, few)))
                (nothing-Spent 0 _) (omega arith))
      ]
    ]

    -- A report of a reporter with at most 37 attempts never makes backoff panic, and sleeps in all no
    -- longer than the full pauses of two loops of its attempts, whatever the relay, the endpoint and
    -- the random source do.
    pub report_paced :
        (spec : ReturnSpec) (w : net.World)
        → let s =
            (report on cfg sealed spec (record { world = w; slept = 0; panicked = false })).world in
          (s.panicked ≡ false) × (s.slept ≤ 2 * loop_budget)
    unfolding report stop
    report_paced spec w =
        let start : W = record { world = w; slept = 0; panicked = false } in
        let url = first_non_empty (spec.url ∷ cfg.result_url ∷ []) in
        let transport = transport_of on cfg sealed spec in
        let posts : Spent (2 * loop_budget) start (post_http on cfg sealed url start).world =
          Spent-Spent (post_http-Spent url start) (nothing-Spent 0 _) (omega arith) in
        elim (Bool-cases (transport =ₛ return_http)) [
          | inl a ↦ rw (report, a) (ends posts)
          | inr a ↦ elim (Bool-cases ((transport =ₛ return_channel) || (transport =ₛ ""))) [
            | inr b ↦ rw (report, a, b) (refl, omega arith)
            | inl b ↦
                elim (Bool-cases (
                  ltb_ℤ (inline_max on cfg sealed spec) (pos (length sealed)) && not (url =ₛ ""))) [
                    | inl c ↦ rw (report, a, b, c) (ends posts)
                    | inr c ↦ rw (report, a, b, c) (ends (publish_channel-Spent _ start))
                  ]
          ]
        ]
      where
        ends :
            {t : W}
            → Spent (2 * loop_budget) (record { world = w; slept = 0; panicked = false }) t
            → (t.panicked ≡ false) × (t.slept ≤ 2 * loop_budget)
        ends x = (x.calm, omega (arith, x.spent))
