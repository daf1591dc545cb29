-- ===== src/Tests/Assembly.antt =====
-- internal/worker/worker.go: the worker that is built from the configuration of an enrolled agent.
use apipact_agent.Prelude.{ℕ, ◌≡◌, refl, false, none, [], ◌∷◌, ok}
use apipact_agent.Prelude.Int.{pos, wrap64}
use apipact_agent.Prelude.Dict.{erase, insert}
use apipact_agent.Secure.{
  named_error, decode_signers, build_opener, build_sealer, build_suite, OpenerConfig, SealerConfig,
  Suite,
}
use apipact_agent.Config.{
  or_default, or_text, apply_defaults, join_list, fields, parse_tokens, parse_cidrs, egress_policy,
}
use apipact_agent.Enroll.{agent_sign_key_id, build_config}
use apipact_agent.Dedupe.{open_store, not_exist}
use apipact_agent.Executor.Egress.{EgressPolicy}
use apipact_agent.Worker.Assembly.{seconds, build_publisher, assemble, build, Parts, Assembled}
use apipact_agent.Tests.Enrolling.{addresses, envelope, filled_in}

abbrev pub parts : Parts
parts = record {
  envelope = envelope;
  addresses = addresses;
  codec = record { encode = λ m. ""; decode = λ s. none };
  new_replay = λ ttl. 0;
  publisher_error = λ secret url. none;
  whole_seconds = λ d. pos 600;
}

abbrev suite : Suite (OpenerConfig ℕ) SealerConfig
suite = record {
  opener = record {
    recipient_public = 1 ∷ [];
    recipient_private = 1 ∷ [];
    signers = ("", 2 ∷ []) ∷ [];
    max_clock_skew = pos 120_000_000_000;
    replay = 0;
  };
  result_sealer = record {
    recipient_public = 1 ∷ [];
    recipient_key_id = "";
    signer_private = 3 ∷ [];
    signer_key_id = "agent-ag-1-1";
  };
}

abbrev policy : EgressPolicy
policy = record { allow_private = false; allow = []; block = [] }

abbrev worker : Assembled (OpenerConfig ℕ) SealerConfig
worker = assemble parts filled_in suite policy false (record { ttl = pos 600; seen = [] })

builds : build parts (pos 0) not_exist filled_in ≡ ok worker
unfolding build build_suite build_opener build_sealer decode_signers named_error insert erase
    build_config agent_sign_key_id apply_defaults or_default or_text seconds egress_policy
    parse_cidrs parse_tokens fields join_list build_publisher open_store assemble wrap64
builds = refl
