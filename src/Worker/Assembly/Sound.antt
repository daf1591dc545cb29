-- ===== src/Worker/Assembly/Sound.antt =====
-- internal/worker/worker.go, Build and SelfCheck: which configurations a worker can run with.
use apipact_agent.Prelude.{
  ◌≡◌, refl, ap, ◌≢◌, ◌↔◌, ◌⊎◌, sym, ◌∙◌, if◌then◌else◌, [], inl, inr, Bool, true, false, none,
  arith, ◌=ₛ◌, eq_iff, Bool-cases, Option-cases, ok, Result-cases,
}
use apipact_agent.Prelude.Int.{ℤ, pos, not_positive}
use apipact_agent.Protocol.Channels.{results_channel}
use apipact_agent.Executor.Egress.{EgressPolicy}
use apipact_agent.Secure.Wiring.{build_suite_iff, IsWired}
use apipact_agent.Config.{egress_policy, join_list, parse_cidrs, Config}
use apipact_agent.Reporter.{new_reporter, default_inline_max_bytes}
use apipact_agent.Dedupe.{loaded, prune, open_store, Dedupe, ReadFile, read, not_exist, read_failed}
use apipact_agent.Worker.Assembly.{
  seconds, build_publisher, reporter_config, assemble, build, Parts,
}
use apipact_agent.Worker.Assembly.Built.{IsBuilt, Worker, skew, ttl}

module _ (parts : Parts) (now : ℤ) (file : ReadFile) (c : Config) where
  -- The publisher: none without a secret key, else one that pushflo-go makes.
  abbrev IsPublisher : Bool → Type 0
  IsPublisher has =
      ((c.pushflo.secret_key ≡ "") × (has ≡ false))
      ⊎ ((c.pushflo.secret_key ≢ "")
          × (parts.publisher_error c.pushflo.secret_key c.pushflo.base_url ≡ none)
          × (has ≡ true))

  -- The policy of the lists of the configuration, each of which parses.
  abbrev IsPolicy : EgressPolicy → Type 0
  IsPolicy p =
      (parse_cidrs parts.addresses (join_list c.egress.allow) ≡ ok p.allow)
      × (parse_cidrs parts.addresses (join_list c.egress.block) ≡ ok p.block)
      × (p.allow_private ≡ c.egress.allow_private)

  -- The dedupe store: what is live of the entries of its file, or empty without one.
  abbrev IsStoreOf : ReadFile → Dedupe → Type 0
  IsStoreOf (read raw) d =
      d
      ≡ prune now (record {
        ttl = parts.whole_seconds (ttl parts now file c);
        seen = loaded parts.codec raw;
      })
  IsStoreOf not_exist d = d ≡ record { ttl = parts.whole_seconds (ttl parts now file c); seen = [] }
  IsStoreOf (read_failed e) d = ⊥

  -- A worker that is as the configuration says.
  pub record IsAssembled (b : Worker parts now file c) : Type 0 where
    pub wired :
        IsWired parts.envelope c.keys
          (skew parts now file c)
          (parts.new_replay (ttl parts now file c))
          b.suite
    pub policy_of : IsPolicy b.policy
    pub publisher_of : IsPublisher b.has_publisher
    pub store_of : IsStoreOf file b.dedupe
    pub max_body : b.default_max_body ≡ c.limits.max_body_bytes
    pub slots :
        b.capacity
        ≡ (if not_positive c.limits.max_concurrency then pos 8 else c.limits.max_concurrency)
    pub reports : b.reporter ≡ record {
      default_transport = c.return.transport;
      results_channel = results_channel c.agent_id;
      result_url = c.return.result_url;
      inline_max_bytes =
          if not_positive c.return.inline_max_bytes
          then default_inline_max_bytes
          else c.return.inline_max_bytes;
      has_publisher = b.has_publisher;
      retry_attempts = pos 4;
    }

  store_opens :
      (f : ReadFile) (d : Dedupe)
      → IsStoreOf f d
      → open_store parts.codec (parts.whole_seconds (ttl parts now file c)) now f ≡ ok d
  unfolding open_store
  store_opens (read raw) d h = ap ok (sym h)
  store_opens not_exist d h = ap ok (sym h)
  store_opens (read_failed e) d h = absurd h

  IsPolicy-iff : (p : EgressPolicy) → (egress_policy parts.addresses c ≡ ok p) ↔ IsPolicy p
  unfolding egress_policy
  IsPolicy-iff p = elim (Result-cases (parse_cidrs parts.addresses (join_list c.egress.allow))) [
    | inr (e, q) ↦ (
      λ h. absurd (ground (arith, rw (q, egress_policy) at h)),
      λ h. absurd (ground (arith, q, h.0)),
    )
    | inl (allow, q) ↦
        elim (Result-cases (parse_cidrs parts.addresses (join_list c.egress.block))) [
          | inr (e, r) ↦ (
            λ h. absurd (ground (arith, rw (q, r, egress_policy) at h)),
            λ h. absurd (ground (arith, r, h.1)),
          )
          | inl (block, r) ↦ (
            λ h.
                let made = rw (q, r, egress_policy) at h in
                let same : record {
                  allow_private = c.egress.allow_private;
                  allow = allow;
                  block = block;
                }
                    ≡ p =
                  ground (arith, made) in
                (
                  q ∙ ap (λ x. ok x.allow) same,
                  r ∙ ap (λ x. ok x.block) same,
                  sym (ap (λ x. x.allow_private) same),
                ),
            λ (x, y, z). rw (x, y, egress_policy, ← z) refl,
          )
        ]
  ]

  IsPublisher-iff : (has : Bool) → (build_publisher parts c ≡ ok has) ↔ IsPublisher has
  unfolding build_publisher
  IsPublisher-iff has = elim (Bool-cases (c.pushflo.secret_key =ₛ "")) [
    | inl e ↦
        let empty : c.pushflo.secret_key ≡ "" = ground (arith, eq_iff c.pushflo.secret_key "") in
        (
          λ h. inl (empty, ground (arith, rw (e, build_publisher) at h)),
          λ h. elim h [
            | inl (_, n) ↦ rw (e, build_publisher, n) refl
            | inr (n, _, _) ↦ absurd (n empty)
          ],
        )
    | inr e ↦
        let named : c.pushflo.secret_key ≢ "" = ground (arith, eq_iff c.pushflo.secret_key "") in
        elim (Option-cases (parts.publisher_error c.pushflo.secret_key c.pushflo.base_url)) [
          | inl q ↦ (
            λ h. inr (named, q, ground (arith, rw (e, q, build_publisher) at h)),
            λ h. elim h [
              | inl (n, _) ↦ absurd (named n)
              | inr (_, _, n) ↦ rw (e, q, build_publisher, n) refl
            ],
          )
          | inr (x, q) ↦ (
            λ h. absurd (ground (arith, rw (e, q, build_publisher) at h)),
            λ h. elim h [
              | inl (n, _) ↦ absurd (named n)
              | inr (_, n, _) ↦ absurd (ground (arith, q, n))
            ],
          )
        ]
  ]

  IsAssembled-IsBuilt : (b : Worker parts now file c) → IsAssembled b → IsBuilt parts now file c b
  unfolding assemble new_reporter reporter_config
  IsAssembled-IsBuilt b a = record {
    wired = a.wired;
    policy_from = (IsPolicy-iff b.policy).1 a.policy_of;
    publisher_from = (IsPublisher-iff b.has_publisher).1 a.publisher_of;
    store_from = store_opens file b.dedupe a.store_of;
    made = λ i. record {
      suite = b.suite;
      policy = b.policy;
      default_max_body = sym a.max_body i;
      reporter = sym a.reports i;
      has_publisher = b.has_publisher;
      dedupe = b.dedupe;
      capacity = sym a.slots i;
    };
  }

-- Whether the dedupe store opens does not depend on the clock.
open_store_later :
    (parts : Parts) (ttl now later : ℤ) (file : ReadFile) (d : Dedupe)
    → open_store parts.codec ttl now file ≡ ok d
    → (d' : Dedupe) × (open_store parts.codec ttl later file ≡ ok d')
unfolding open_store
open_store_later parts ttl now later (read raw) d h = (_, refl)
open_store_later parts ttl now later not_exist d h = (_, refl)
open_store_later parts ttl now later (read_failed e) d h = absurd (ground arith)

-- Nor whether there is a worker.
pub builds_later :
    (parts : Parts) (now later : ℤ) (file : ReadFile) (c : Config) (b : Worker parts now file c)
    → IsAssembled parts now file c b
    → (b' : Worker parts later file c) × (build parts later file c ≡ ok b')
unfolding build
builds_later parts now later file c b assembled =
    let a = IsAssembled-IsBuilt parts now file c b assembled in
    let skew = seconds c.limits.clock_skew_sec in
    let ttl = seconds c.limits.replay_ttl_sec in
    let x = (build_suite_iff parts.envelope c.keys skew (parts.new_replay ttl) b.suite).1 a.wired in
    let (d, s) =
      open_store_later parts (parts.whole_seconds ttl) now later file b.dedupe a.store_from in
    (
      assemble parts c b.suite b.policy b.has_publisher d,
      rw (build, x, a.policy_from, a.publisher_from, s) refl,
    )
