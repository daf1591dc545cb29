-- ===== src/Tests/Config.antt =====
-- internal/config/config.go on a configuration that leaves the defaults out.
use apipact_agent.Prelude.{◌≡◌, refl, false, some, [], ◌∷◌, ◌=ₛ◌, if◌then◌else◌, ok, err}
use apipact_agent.Prelude.Int.{pos}
use apipact_agent.Executor.Egress.{v4}
use apipact_agent.Config.{is_separator, begins_field, grow_first, fields, Config, Addresses}

abbrev addresses : Addresses
addresses = record {
  parse_ip = λ s. some (v4 0x0a000001);
  parse_cidr =
      λ s. if s =ₛ "10.0.0.1/32" then ok (record { ip = v4 0x0a000001; ones = 32 }) else err "bad";
}

abbrev sparse : Config
sparse = record {
  agent_id = "ag-1";
  name = "";
  labels = [];
  cloud_base_url = "https://example.com";
  pushflo = record { base_url = ""; publish_key = "pub"; secret_key = "sec" };
  keys = record {
    recipient_public = "own public";
    recipient_private = "own private";
    cloud_signers = ("", "cloud signer") ∷ [];
    cloud_public = "cloud public";
    sign_private = "own signer";
    sign_key_id = "agent-ag-1-1";
    recipient_key_id = "";
    cloud_recipient_id = "";
  };
  egress = record { allow_private = false; allow = "10.0.0.1" ∷ []; block = [] };
  return = record { transport = ""; result_url = ""; result_token = ""; inline_max_bytes = pos 0 };
  update = record {
    mode = "";
    channel = "stable";
    manifest_url = "";
    release_signer = "";
    pinned_version = "";
    poll_interval = "";
  };
  limits = record {
    max_concurrency = pos 0;
    max_body_bytes = pos 0;
    clock_skew_sec = pos 0;
    replay_ttl_sec = pos 0;
    heartbeat_sec = pos 0;
  };
}

two_fields : fields "10.0.0.0/8, ::1" ≡ "10.0.0.0/8" ∷ "::1" ∷ []
unfolding fields begins_field is_separator grow_first
two_fields = refl
