-- ===== src/Reporter/Preserved.antt =====
-- internal/reporter/reporter.go: what every attempt of a report preserves holds after it.
use apipact_agent.Prelude.{
  ℕ, zero, suc, ◌+◌, String, inl, inr, ◌&&◌, ◌||◌, not, Option, none, some, [], ◌∷◌, ◌=ₛ◌, ltb, leb,
  ◌==◌, Bool-cases, Option-cases, length,
}
use apipact_agent.Prelude.Int.{pos, ltb_ℤ}
use apipact_agent.Protocol.{return_channel, return_http, ReturnSpec}
use apipact_agent.Executor.Request.{Bytes, first_non_empty}
use apipact_agent.Reporter.{
  stop, answered, pause, post_loop, post_http, fall_back, after_publish, publish_loop,
  publish_channel, inline_max, transport_of, report, ReporterConfig, Courier, Report,
}

-- A predicate on the courier's states that every publication and every POST of the sealed bytes and
-- every pause preserves holds after a report.
module _ (net : Courier) (cfg : ReporterConfig) (sealed : Bytes) (Holds : net.World → Type 0)
    (publish-Holds : (channel : String) (w : net.World)
      → Holds w
      → Holds (net.publish channel sealed w).1)
    (post-Holds : (url : String) (w : net.World) → Holds w → Holds (net.post url sealed w).1)
    (wait-Holds : (n : ℕ) (w : net.World) → Holds w → Holds (net.wait n w).1) where
  pause-Holds : (n : ℕ) (w : net.World) → Holds w → Holds (pause net cfg sealed n w).1
  unfolding pause
  pause-Holds zero w h = h
  pause-Holds (suc n) w h = wait-Holds (suc n) w h

  answered-Holds :
      (again : net.World → Report net cfg sealed) (url : String) (r : Option ℕ × net.World)
      → ((w : net.World) → Holds w → Holds (again w).world)
      → Holds r.1
      → Holds (answered net cfg sealed again url r).world
  unfolding answered
  answered-Holds again url (none, w) k h = k w h
  answered-Holds again url (some code, w) k h = elim (Bool-cases (leb 200 code && ltb code 300)) [
    | inl e ↦ rw e h
    | inr e ↦ elim (Bool-cases (leb 400 code && ltb code 500 && not (code == 429))) [
      | inl f ↦ rw (e, f) h
      | inr f ↦ rw (e, f) (k w h)
    ]
  ]

  post_loop-Holds :
      (left attempt : ℕ) (url : String) (w : net.World)
      → Holds w
      → Holds (post_loop net cfg sealed left attempt url w).world
  unfolding post_loop stop
  post_loop-Holds zero attempt url w h = h
  post_loop-Holds (suc left) attempt url w h =
      let paused = pause-Holds attempt w h in
      let w' = (pause net cfg sealed attempt w).1 in
      elim (Option-cases (pause net cfg sealed attempt w).0) [
        | inr (e, q) ↦ rw (post_loop, q) paused
        | inl q ↦ elim (Option-cases (net.request_error url)) [
          | inr (e, a) ↦ rw (post_loop, q, a) paused
          | inl a ↦
              rw (post_loop, q, a)
                (answered-Holds _ url (net.post url sealed w')
                  (post_loop-Holds left (attempt + 1) url) (post-Holds url w' paused))
        ]
      ]

  post_http-Holds :
      (url : String) (w : net.World) → Holds w → Holds (post_http net cfg sealed url w).world
  unfolding post_http stop
  post_http-Holds url w h = elim (Bool-cases (url =ₛ "")) [
    | inl e ↦ rw e h
    | inr e ↦ rw e (post_loop-Holds _ 0 url w h)
  ]

  fall_back-Holds :
      (last : String) (w : net.World) → Holds w → Holds (fall_back net cfg sealed last w).world
  unfolding fall_back stop
  fall_back-Holds last w h = elim (Bool-cases (cfg.result_url =ₛ "")) [
    | inl e ↦ rw e h
    | inr e ↦ rw e (post_http-Holds cfg.result_url w h)
  ]

  after_publish-Holds :
      (again : String → net.World → Report net cfg sealed) (channel : String)
      (r : Option String × net.World)
      → ((e : String) (w : net.World) → Holds w → Holds (again e w).world)
      → Holds r.1
      → Holds (after_publish net cfg sealed again channel r).world
  unfolding after_publish
  after_publish-Holds again channel (none, w) k h = h
  after_publish-Holds again channel (some e, w) k h = k e w h

  publish_loop-Holds :
      (left attempt : ℕ) (channel last : String) (w : net.World)
      → Holds w
      → Holds (publish_loop net cfg sealed left attempt channel last w).world
  unfolding publish_loop stop
  publish_loop-Holds zero attempt channel last w h = fall_back-Holds last w h
  publish_loop-Holds (suc left) attempt channel last w h =
      let paused = pause-Holds attempt w h in
      let w' = (pause net cfg sealed attempt w).1 in
      elim (Option-cases (pause net cfg sealed attempt w).0) [
        | inr (e, q) ↦ rw (publish_loop, q) paused
        | inl q ↦
            rw (publish_loop, q)
              (after_publish-Holds _ channel (net.publish channel sealed w')
                (publish_loop-Holds left (attempt + 1) channel) (publish-Holds channel w' paused))
      ]

  publish_channel-Holds :
      (channel : String) (w : net.World)
      → Holds w
      → Holds (publish_channel net cfg sealed channel w).world
  unfolding publish_channel stop
  publish_channel-Holds channel w h = elim (Bool-cases cfg.has_publisher) [
    | inr e ↦ rw (publish_channel, e) h
    | inl e ↦ elim (Bool-cases (channel =ₛ "")) [
      | inl f ↦ rw (publish_channel, e, f) h
      | inr f ↦ rw (publish_channel, e, f) (publish_loop-Holds _ 0 channel "" w h)
    ]
  ]

  pub report-Holds :
      (spec : ReturnSpec) (w : net.World) → Holds w → Holds (report net cfg sealed spec w).world
  unfolding report stop
  report-Holds spec w h =
      let url = first_non_empty (spec.url ∷ cfg.result_url ∷ []) in
      let transport = transport_of net cfg sealed spec in
      elim (Bool-cases (transport =ₛ return_http)) [
        | inl a ↦ rw (report, a) (post_http-Holds url w h)
        | inr a ↦ elim (Bool-cases ((transport =ₛ return_channel) || (transport =ₛ ""))) [
          | inr b ↦ rw (report, a, b) h
          | inl b ↦
              elim (Bool-cases
                (ltb_ℤ (inline_max net cfg sealed spec) (pos (length sealed)) && not (url =ₛ ""))) [
                  | inl c ↦ rw (report, a, b, c) (post_http-Holds url w h)
                  | inr c ↦ rw (report, a, b, c) (publish_channel-Holds _ w h)
                ]
        ]
      ]
