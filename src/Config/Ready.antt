-- ===== src/Config/Ready.antt =====
-- internal/config/config.go: what Load promises of the configuration that it returns.
use apipact_agent.Prelude.{
  ℕ, ◌^◌, ◌<◌, String, ◌≡◌, refl, sym, ap, ◌≢◌, ◌↔◌, ◌⊎◌, inl, inr, true, none, arith, eq_iff,
  Option-cases, ok, is_ok,
}
use apipact_agent.Prelude.Int.{ℤ, pos, negsuc}
use apipact_agent.Protocol.{return_channel, return_http}
use apipact_agent.Protocol.Channels.{valid_agent_id}
use apipact_agent.Config.{
  or_default, or_text, apply_defaults, egress_policy, validate, load_parsed, Config, Addresses,
}

module _ (lib : Addresses) where
  -- What the rest of the agent relies on.
  pub record IsReady (c : Config) : Type 0 where
    pub named : valid_agent_id c.agent_id ≡ true
    pub key : c.pushflo.publish_key ≢ ""
    pub channel_key : (c.return.transport ≢ return_channel) ⊎ (c.pushflo.secret_key ≢ "")
    pub http_url : (c.return.transport ≢ return_http) ⊎ (c.return.result_url ≢ "")
    pub policy : is_ok (egress_policy lib c) ≡ true

  validate-Ready :
      (c : Config)
      → (validate lib c ≡ none) ↔ (
          (valid_agent_id c.agent_id ≡ true)
          × (c.pushflo.publish_key ≢ "")
          × ((c.return.transport ≢ return_channel) ⊎ (c.pushflo.secret_key ≢ ""))
          × ((c.return.transport ≢ return_http) ⊎ (c.return.result_url ≢ ""))
          × (is_ok (egress_policy lib c) ≡ true))
  unfolding validate
  validate-Ready c = ground (
    arith,
    eq_iff c.pushflo.publish_key "",
    eq_iff c.pushflo.secret_key "",
    eq_iff c.return.transport return_channel,
    eq_iff c.return.transport return_http,
    eq_iff c.return.result_url "",
  )

  pub validate-IsReady : (c : Config) → (validate lib c ≡ none) ↔ IsReady c
  validate-IsReady c =
      let (f, g) = validate-Ready c in
      (
        λ h.
            let (n, k, x, y, p) = f h in
            record { named = n; key = k; channel_key = x; http_url = y; policy = p },
        λ r. g (r.named, r.key, r.channel_key, r.http_url, r.policy),
      )

  load_parsed_lem :
      (c c' : Config)
      → (load_parsed lib c ≡ ok c')
        ↔ ((validate lib (apply_defaults c) ≡ none) × (c' ≡ apply_defaults c))
  unfolding load_parsed
  load_parsed_lem c c' = elim (Option-cases (validate lib (apply_defaults c))) [
    | inl q ↦ rw (q, load_parsed) (λ h. (refl, ground arith), λ h. let (_, e) = h in ap ok (sym e))
    | inr (e, q) ↦ rw (q, load_parsed) (λ h. absurd (ground arith), λ h. absurd (ground arith))
  ]

  -- Load returns a configuration exactly when it is the file's with the defaults filled in, and it has
  -- a valid agent id, a publish key, a secret key if results go over the channel, a result URL if
  -- they go by HTTP, and egress lists that parse.
  pub load_parsed-ok_iff :
      (c c' : Config) → (load_parsed lib c ≡ ok c') ↔ ((c' ≡ apply_defaults c) × IsReady c')
  load_parsed-ok_iff c c' =
      let (f, g) = load_parsed_lem c c' in
      let (v, w) = validate-IsReady (apply_defaults c) in
      (λ h. let (a, e) = f h in (e, rw e (v a)), λ h. let (e, r) = h in g (w (rw e at r), e))

or_default-nonzero : (d : ℕ) (x : ℤ) → 0 < d → or_default d x ≢ pos 0
unfolding or_default
or_default-nonzero d (pos n) h = λ e. ground arith
or_default-nonzero d (negsuc n) h = λ e. ground arith

or_default-or_default : (d : ℕ) (x : ℤ) → or_default d (or_default d x) ≡ or_default d x
unfolding or_default
or_default-or_default d (pos n) = ground arith
or_default-or_default d (negsuc n) = refl

or_text-or_text : (d s : String) → or_text d (or_text d s) ≡ or_text d s
unfolding or_text
or_text-or_text d s = ground arith

-- Filling in the defaults a second time changes nothing, so that a configuration that was loaded
-- and saved loads as it was; and the bound on concurrency and the heartbeat interval are then not
-- zero.
pub apply_defaults_idempotent :
    (c : Config)
    → (apply_defaults (apply_defaults c) ≡ apply_defaults c)
      × ((apply_defaults c).limits.max_concurrency ≢ pos 0)
      × ((apply_defaults c).limits.heartbeat_sec ≢ pos 0)
unfolding apply_defaults
apply_defaults_idempotent c = (
  rw
      (
        or_default-or_default 8 c.limits.max_concurrency,
        or_default-or_default (2 ^ 20) c.limits.max_body_bytes,
        or_default-or_default 120 c.limits.clock_skew_sec,
        or_default-or_default 600 c.limits.replay_ttl_sec,
        or_default-or_default 60 c.limits.heartbeat_sec,
        or_text-or_text "binary" c.update.mode,
        or_text-or_text return_channel c.return.transport,
      )
      refl,
  or_default-nonzero 8 c.limits.max_concurrency (omega arith),
  or_default-nonzero 60 c.limits.heartbeat_sec (omega arith),
)
