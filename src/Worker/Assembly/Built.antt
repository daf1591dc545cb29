-- ===== src/Worker/Assembly/Built.antt =====
-- internal/worker/worker.go, Build: what it returns, step by step, and that a worker which is built from
-- a loaded configuration can report.
use apipact_agent.Prelude.{
  ◌≡◌, refl, ap, ◌≢◌, inl, inr, Bool, true, false, arith, ◌=ₛ◌, eq_iff, Bool-cases, Option-cases,
  ok, Result-cases,
}
use apipact_agent.Prelude.Int.{ℤ, not_positive}
use apipact_agent.Protocol.{return_channel, return_http}
use apipact_agent.Executor.Egress.{EgressPolicy}
use apipact_agent.Secure.{build_suite, Suite}
use apipact_agent.Secure.Wiring.{build_suite_iff, IsWired}
use apipact_agent.Config.{egress_policy, load_parsed, Config}
use apipact_agent.Config.Ready.{load_parsed-ok_iff, IsReady}
use apipact_agent.Reporter.{new_reporter}
use apipact_agent.Dedupe.{loaded, open_store, Dedupe, ReadFile}
use apipact_agent.Worker.Assembly.{
  seconds, build_publisher, reporter_config, assemble, build, Parts, Assembled,
}

module _ (parts : Parts) (now : ℤ) (file : ReadFile) (c : Config) where
  abbrev pub Worker : Type 0
  Worker = Assembled parts.envelope.Opener parts.envelope.Sealer

  abbrev pub skew : ℤ
  skew = seconds c.limits.clock_skew_sec

  abbrev pub ttl : ℤ
  ttl = seconds c.limits.replay_ttl_sec

  -- A worker that Build puts together from what its steps return.
  pub record IsBuilt (b : Worker) : Type 0 where
    pub wired : IsWired parts.envelope c.keys skew (parts.new_replay ttl) b.suite
    pub policy_from : egress_policy parts.addresses c ≡ ok b.policy
    pub publisher_from : build_publisher parts c ≡ ok b.has_publisher
    pub store_from : open_store parts.codec (parts.whole_seconds ttl) now file ≡ ok b.dedupe
    pub made : assemble parts c b.suite b.policy b.has_publisher b.dedupe ≡ b

  assembled :
      (suite : Suite parts.envelope.Opener parts.envelope.Sealer) (policy : EgressPolicy)
      (has : Bool) (store : Dedupe)
      → build_suite parts.envelope c.keys skew (parts.new_replay ttl) ≡ ok suite
      → egress_policy parts.addresses c ≡ ok policy
      → build_publisher parts c ≡ ok has
      → open_store parts.codec (parts.whole_seconds ttl) now file ≡ ok store
      → IsBuilt (assemble parts c suite policy has store)
  unfolding assemble
  assembled suite policy has store x y z w = record {
    wired = (build_suite_iff parts.envelope c.keys skew (parts.new_replay ttl) suite).0 x;
    policy_from = y;
    publisher_from = z;
    store_from = w;
    made = refl;
  }

  pub build-IsBuilt : (b : Worker) → build parts now file c ≡ ok b → IsBuilt b
  unfolding build
  build-IsBuilt b h =
      elim (Result-cases (build_suite parts.envelope c.keys skew (parts.new_replay ttl))) [
        | inr (e, q) ↦ absurd (ground (arith, q))
        | inl (suite, x) ↦ elim (Result-cases (egress_policy parts.addresses c)) [
          | inr (e, q) ↦ absurd (ground (arith, x, q))
          | inl (policy, y) ↦ elim (Result-cases (build_publisher parts c)) [
            | inr (e, q) ↦ absurd (ground (arith, x, y, q))
            | inl (has, z) ↦
                elim (Result-cases (open_store parts.codec (parts.whole_seconds ttl) now file)) [
                  | inr (e, q) ↦ absurd (ground (arith, x, y, z, q))
                  | inl (store, w) ↦
                      let same : assemble parts c suite policy has store ≡ b =
                        ground (arith, rw (x, y, z, w, build) at h) in
                      rw same at (assembled suite policy has store x y z w)
                ]
          ]
        ]
      ]

  pub assembled_builds : (b : Worker) → IsBuilt b → build parts now file c ≡ ok b
  unfolding build
  assembled_builds b a =
      let x =
        (build_suite_iff parts.envelope c.keys skew (parts.new_replay ttl) b.suite).1 a.wired in
      rw (build, x, a.policy_from, a.publisher_from, a.store_from) (ap ok a.made)

  abbrev pub CanReport : Worker → Type 0
  CanReport b =
      (b.reporter.default_transport ≡ return_channel → b.reporter.has_publisher ≡ true)
      × (b.reporter.default_transport ≡ return_http → b.reporter.result_url ≢ "")
      × (not_positive b.reporter.retry_attempts ≡ false)
      × (not_positive b.capacity ≡ false)

  publisher_built :
      (has : Bool) → build_publisher parts c ≡ ok has → c.pushflo.secret_key ≢ "" → has ≡ true
  unfolding build_publisher
  publisher_built has h n = elim (Bool-cases (c.pushflo.secret_key =ₛ "")) [
    | inl e ↦ absurd (n ((eq_iff c.pushflo.secret_key "").0 e))
    | inr e ↦ elim (Option-cases (parts.publisher_error c.pushflo.secret_key c.pushflo.base_url)) [
      | inl q ↦ ground (arith, e, q, h)
      | inr (x, q) ↦ absurd (ground (arith, e, q, h))
    ]
  ]

  can_report :
      (b : Worker)
      → IsBuilt b
      → IsReady parts.addresses c
      → CanReport (assemble parts c b.suite b.policy b.has_publisher b.dedupe)
  unfolding assemble new_reporter reporter_config
  can_report b a ready = (
    λ t. elim ready.channel_key [
      | inl n ↦ absurd (n t)
      | inr n ↦ publisher_built b.has_publisher a.publisher_from n
    ],
    λ t. elim ready.http_url [ inl n ↦ absurd (n t) | inr n ↦ n ],
    refl,
    elim (Bool-cases (not_positive c.limits.max_concurrency)) [
      | inl e ↦ rw e refl
      | inr e ↦ rw e e
    ],
  )

  -- A worker that is built from a configuration that Load has returned can report: over the channel,
  -- if that is its transport, it has a publisher; by HTTP, if that is its transport, it has a URL; it
  -- makes at least one attempt, and its pool has at least one slot.
  pub loaded-CanReport :
      (raw : Config) (b : Worker)
      → load_parsed parts.addresses raw ≡ ok c
      → build parts now file c ≡ ok b
      → CanReport b
  loaded-CanReport raw b loaded built =
      let (_, ready) = (load_parsed-ok_iff parts.addresses raw c).0 loaded in
      let a = build-IsBuilt b built in rw a.made at (can_report b a ready)
