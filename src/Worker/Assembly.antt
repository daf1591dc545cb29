-- ===== src/Worker/Assembly.antt =====
-- internal/worker/worker.go: Build and SelfCheck, which assemble a worker from its configuration. The
-- constructors of pushflo-go, and the clock's and the disk's answers, are arguments.
pub mod Built
pub mod Sound
use Prim.Native.String.{◌++◌ as ◌<>◌}
use apipact_agent.Prelude.{
  ◌+◌, ◌-◌, ◌*◌, ◌<◌, String, Bool, true, false, Option, none, some, ◌=ₛ◌, if◌then◌else◌, Result,
  ok, err,
}
use apipact_agent.Prelude.Int.{ℤ, pos, negsuc, not_positive, wrap64}
use apipact_agent.Protocol.Channels.{results_channel}
use apipact_agent.Executor.Egress.{EgressPolicy}
use apipact_agent.Secure.{build_suite, Envelope, Suite}
use apipact_agent.Config.{egress_policy, Config, Addresses}
use apipact_agent.Reporter.{new_reporter, ReporterConfig}
use apipact_agent.Dedupe.{open_store, Dedupe, Codec, ReadFile}

-- What Build calls outside of the agent.
pub record Parts : Type 1 where
  pub envelope : Envelope
  pub addresses : Addresses
  pub codec : Codec
  -- envelope.NewMemoryReplayCache
  pub new_replay : ℤ → envelope.Replay
  -- the error of pushflo.NewPublisher for a secret key and a base URL
  pub publisher_error : String → String → Option String
  -- int64(d.Seconds())
  pub whole_seconds : ℤ → ℤ

-- time.Duration(sec) * time.Second, of ClockSkew and ReplayTTL
unfoldable pub seconds : ℤ → ℤ
seconds (pos n) = wrap64 (pos (n * 1_000_000_000))
seconds (negsuc n) = wrap64 (negsuc ((n + 1) * 1_000_000_000 - 1))

-- The fields of a Worker that Build sets.
pub record Assembled (O S : Type 0) : Type 0 where
  pub suite : Suite O S
  pub policy : EgressPolicy
  pub default_max_body : ℤ
  pub reporter : ReporterConfig
  pub has_publisher : Bool
  pub dedupe : Dedupe
  pub capacity : ℤ

module _ (parts : Parts) where
  -- Build's publisher: whether there is one, or its error
  unfoldable pub build_publisher : Config → Result String Bool
  build_publisher c =
      if c.pushflo.secret_key =ₛ ""
      then ok false
      else elim (parts.publisher_error c.pushflo.secret_key c.pushflo.base_url) [
        | some e ↦ err ("build publisher: " <> e)
        | none ↦ ok true
      ]

  -- The configuration that Build gives to the reporter.
  unfoldable pub reporter_config : Config → Bool → ReporterConfig
  reporter_config c has_publisher = record {
    default_transport = c.return.transport;
    results_channel = results_channel c.agent_id;
    result_url = c.return.result_url;
    inline_max_bytes = c.return.inline_max_bytes;
    has_publisher = has_publisher;
    retry_attempts = pos 0;
  }

  -- The Worker that Build returns.
  unfoldable pub assemble :
      {O S : Type 0} → Config → Suite O S → EgressPolicy → Bool → Dedupe → Assembled O S
  unfolding reporter_config new_reporter
  assemble c suite policy has_publisher dedupe = record {
    suite = suite;
    policy = policy;
    default_max_body = c.limits.max_body_bytes;
    reporter = new_reporter (reporter_config c has_publisher);
    has_publisher = has_publisher;
    dedupe = dedupe;
    capacity = if not_positive c.limits.max_concurrency then pos 8 else c.limits.max_concurrency;
  }

  -- Build, with the reading of the clock and of the file of the dedupe store
  unfoldable pub build :
      ℤ → ReadFile → Config → Result String (Assembled parts.envelope.Opener parts.envelope.Sealer)
  unfolding seconds build_publisher reporter_config build_suite egress_policy new_reporter
      open_store
  build now file c =
      elim (build_suite parts.envelope c.keys (seconds c.limits.clock_skew_sec)
        (parts.new_replay (seconds c.limits.replay_ttl_sec))) [
          | err e ↦ err ("build crypto suite: " <> e)
          | ok suite ↦ elim (egress_policy parts.addresses c) [
            | err e ↦ err e
            | ok policy ↦ elim (build_publisher c) [
              | err e ↦ err e
              | ok has_publisher ↦
                  elim (open_store parts.codec
                    (parts.whole_seconds (seconds c.limits.replay_ttl_sec)) now file) [
                      | err e ↦ err ("open dedupe store: " <> e)
                      | ok dedupe ↦ ok (assemble c suite policy has_publisher dedupe)
                    ]
            ]
          ]
        ]

  -- SelfCheck: the error, if there is one
  unfoldable pub self_check : ℤ → ReadFile → Config → Option String
  unfolding build
  self_check now file c = elim (build now file c) [ err e ↦ some e | ok b ↦ none ]
