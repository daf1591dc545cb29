-- ===== src/Reporter/Delivery.antt =====
-- internal/reporter/reporter.go: when a report counts as delivered, and how often it is tried.
use apipact_agent.Prelude.{
  ℕ, zero, suc, ◌+◌, ◌*◌, ◌≤◌, String, ◌≡◌, refl, ◌↔◌, inl, inr, Bool, true, false, ◌&&◌, ◌||◌, not,
  Option, none, some, [], ◌∷◌, arith, ◌=ₛ◌, ltb, leb, ◌==◌, Bool-cases, Option-cases, is_some,
  length, any,
}
use apipact_agent.Prelude.Int.{pos, pos_part, ltb_ℤ}
use apipact_agent.Protocol.{ReturnSpec, return_channel, return_http}
use apipact_agent.Executor.Request.{Bytes, first_non_empty}
use apipact_agent.Reporter.{
  stop, answered, pause, post_loop, post_http, fall_back, after_publish, publish_loop,
  publish_channel, inline_max, transport_of, report, ReporterConfig, ReportError, Attempt, Courier,
  Report, no_publisher, no_channel, no_url, unknown_transport, cancelled, bad_url,
  channel_exhausted, http_exhausted, published, publish_failed, posted, post_failed,
}

-- An attempt that the cloud has taken: a publish without error, or a POST answered with 2xx.
abbrev pub is_accepted : Attempt → Bool
is_accepted (published channel) = true
is_accepted (publish_failed channel) = false
is_accepted (posted url code) = leb 200 code && ltb code 300
is_accepted (post_failed url) = false

module _ (net : Courier) (cfg : ReporterConfig) (sealed : Bytes) where
  abbrev R : Type 0
  R = Report net cfg sealed

  -- A report whose error says whether one of its attempts was accepted, and which made at most n.
  record Sound (n : ℕ) (r : R) : Type 0 where
    told : is_some r.error ≡ not (any is_accepted r.attempts)
    few : length r.attempts ≤ n

  more : (n m : ℕ) (r : R) → n ≤ m → Sound n r → Sound m r
  more n m r h s = record { told = s.told; few = omega (arith, s.few, h) }

  stop-Sound : (n : ℕ) (e : ReportError) (w : net.World) → Sound n (stop net cfg sealed e w)
  unfolding stop
  stop-Sound n e w = record { told = refl; few = omega arith }

  answered-Sound :
      (n : ℕ) (again : net.World → R) (url : String) (a : Option ℕ × net.World)
      → Sound n (again a.1)
      → Sound (suc n) (answered net cfg sealed again url a)
  unfolding answered
  answered-Sound n again url (none, w) h = record { told = h.told; few = omega (arith, h.few) }
  answered-Sound n again url (some code, w) h = elim (Bool-cases (leb 200 code && ltb code 300)) [
    | inl b ↦ rw b (record { told = rw b refl; few = omega arith })
    | inr b ↦ elim (Bool-cases (leb 400 code && ltb code 500 && not (code == 429))) [
      | inl c ↦ rw (b, c) (record { told = rw b refl; few = omega arith })
      | inr c ↦ rw (b, c) (record { told = rw b h.told; few = omega (arith, h.few) })
    ]
  ]

  post_loop-Sound :
      (left attempt : ℕ) (url : String) (w : net.World)
      → Sound left (post_loop net cfg sealed left attempt url w)
  unfolding post_loop
  post_loop-Sound zero attempt url w = stop-Sound 0 http_exhausted w
  post_loop-Sound (suc left) attempt url w =
      elim (Option-cases (pause net cfg sealed attempt w).0) [
        | inr (e, q) ↦ rw (q, post_loop) (stop-Sound (suc left) (cancelled e) _)
        | inl q ↦ elim (Option-cases (net.request_error url)) [
          | inr (e, r) ↦ rw (q, r, post_loop) (stop-Sound (suc left) (bad_url e) _)
          | inl r ↦
              rw (q, r, post_loop)
                (answered-Sound left (post_loop net cfg sealed left (attempt + 1) url) url
                  (net.post url sealed (pause net cfg sealed attempt w).1)
                  (post_loop-Sound left (attempt + 1) url
                    (net.post url sealed (pause net cfg sealed attempt w).1).1))
        ]
      ]

  post_http-Sound :
      (url : String) (w : net.World)
      → Sound (pos_part cfg.retry_attempts) (post_http net cfg sealed url w)
  unfolding post_http
  post_http-Sound url w = elim (Bool-cases (url =ₛ "")) [
    | inl b ↦ rw b (stop-Sound _ no_url w)
    | inr b ↦ rw b (post_loop-Sound (pos_part cfg.retry_attempts) 0 url w)
  ]

  fall_back-Sound :
      (last : String) (w : net.World)
      → Sound (pos_part cfg.retry_attempts) (fall_back net cfg sealed last w)
  unfolding fall_back
  fall_back-Sound last w = elim (Bool-cases (cfg.result_url =ₛ "")) [
    | inl b ↦ rw b (stop-Sound _ (channel_exhausted last) w)
    | inr b ↦ rw b (post_http-Sound cfg.result_url w)
  ]

  after_publish-Sound :
      (n : ℕ) (again : String → net.World → R) (channel : String) (a : Option String × net.World)
      → ((e : String) → Sound n (again e a.1))
      → Sound (suc n) (after_publish net cfg sealed again channel a)
  unfolding after_publish
  after_publish-Sound n again channel (none, w) h = record { told = refl; few = omega arith }
  after_publish-Sound n again channel (some e, w) h = record {
    told = (h e).told;
    few = omega (arith, (h e).few);
  }

  publish_loop-Sound :
      (left attempt : ℕ) (channel last : String) (w : net.World)
      → Sound
          (left + pos_part cfg.retry_attempts)
          (publish_loop net cfg sealed left attempt channel last w)
  unfolding publish_loop
  publish_loop-Sound zero attempt channel last w =
      more (pos_part cfg.retry_attempts) (0 + pos_part cfg.retry_attempts) _ (omega arith)
        (fall_back-Sound last w)
  publish_loop-Sound (suc left) attempt channel last w =
      elim (Option-cases (pause net cfg sealed attempt w).0) [
        | inr (e, q) ↦ rw (q, publish_loop) (stop-Sound _ (cancelled e) _)
        | inl q ↦
            rw (q, publish_loop)
              (more (suc (left + pos_part cfg.retry_attempts))
                (suc left + pos_part cfg.retry_attempts) _ (omega arith)
                (after_publish-Sound (left + pos_part cfg.retry_attempts)
                  (publish_loop net cfg sealed left (attempt + 1) channel) channel
                  (net.publish channel sealed (pause net cfg sealed attempt w).1)
                  (λ e. publish_loop-Sound left (attempt + 1) channel e _)))
      ]

  publish_channel-Sound :
      (channel : String) (w : net.World)
      → Sound (2 * pos_part cfg.retry_attempts) (publish_channel net cfg sealed channel w)
  unfolding publish_channel
  publish_channel-Sound channel w = elim (Bool-cases cfg.has_publisher) [
    | inr b ↦ simp b (stop-Sound _ no_publisher w)
    | inl b ↦ elim (Bool-cases (channel =ₛ "")) [
      | inl e ↦ simp b (rw e (stop-Sound _ no_channel w))
      | inr e ↦ simp b (
          rw e (
            more _ _ _ (omega arith)
              (publish_loop-Sound (pos_part cfg.retry_attempts) 0 channel "" w)))
    ]
  ]

  report-Sound :
      (spec : ReturnSpec) (w : net.World)
      → Sound (2 * pos_part cfg.retry_attempts) (report net cfg sealed spec w)
  unfolding report
  report-Sound spec w =
      let t = transport_of net cfg sealed spec in
      let url = first_non_empty (spec.url ∷ cfg.result_url ∷ []) in
      let by_http =
        more (pos_part cfg.retry_attempts) (2 * pos_part cfg.retry_attempts)
          (post_http net cfg sealed url w) (omega arith) (post_http-Sound url w) in
      elim (Bool-cases (t =ₛ return_http)) [
        | inl a ↦ rw a by_http
        | inr a ↦ elim (Bool-cases ((t =ₛ return_channel) || (t =ₛ ""))) [
          | inr b ↦ rw (a, b) (stop-Sound _ (unknown_transport t) w)
          | inl b ↦
              elim (Bool-cases
                (ltb_ℤ (inline_max net cfg sealed spec) (pos (length sealed)) && not (url =ₛ ""))) [
                  | inl c ↦ rw (a, b, c) by_http
                  | inr c ↦ rw (a, b, c) (publish_channel-Sound _ w)
                ]
        ]
      ]

  -- A report returns without an error exactly when the cloud has accepted one of its attempts, and
  -- it makes at most twice RetryAttempts of them, whatever the relay and the endpoint answer.
  pub report-delivered_iff :
      (spec : ReturnSpec) (w : net.World)
      → (((report net cfg sealed spec w).error ≡ none)
          ↔ (any is_accepted (report net cfg sealed spec w).attempts ≡ true))
        × (length (report net cfg sealed spec w).attempts ≤ 2 * pos_part cfg.retry_attempts)
  report-delivered_iff spec w =
      let s = report-Sound spec w in
      let told = s.told in ((λ e. ground (arith, told), λ e. ground (arith, told)), s.few)
