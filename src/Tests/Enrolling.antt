-- ===== src/Tests/Enrolling.antt =====
-- cmd/agentctl, internal/enroll, internal/secure, internal/config and internal/transport: an agent
-- that is enrolled, whose configuration is stored, and which connects.
use apipact_agent.Prelude.{
  ℕ, String, ◌≡◌, refl, sym, ◌∙◌, ◌≢◌, ◌↔◌, ◌⊎◌, inl, inr, true, false, none, some, [], ◌∷◌, ◌=ₛ◌,
  if◌then◌else◌, ok, err,
}
use apipact_agent.Prelude.Dict.{lookup, erase, insert}
use apipact_agent.Executor.Request.{Bytes}
use apipact_agent.Update.Swap.{Files, rename, exists, remove}
use apipact_agent.Secure.Wiring.{build_suite_iff, IsWired}
use apipact_agent.Secure.{
  named_error, decode_signers, build_opener, build_sealer, build_suite, generate_agent_keys,
  KeyPair, OpenerConfig, SealerConfig, Envelope, Suite,
}
use apipact_agent.Config.Save.{write_and_move, save, load, Codec, SaveFaults}
use apipact_agent.Config.Save.Atomic.{Saves, save-Saves, reload}
use apipact_agent.Enroll.Stored.{NamesReturn, enrolled_loads_iff}
use apipact_agent.Agentctl.{enroll_options, store_config, cmd_enroll, Flags}
use apipact_agent.Agentctl.Enrolling.{cmd_enroll_keeps, cmd_enroll_stores}
use apipact_agent.Transport.{
  new_client, open_connection, subscribe, destroy, or_destroy, connect_client, connect, Settled,
  connect-Settled, Relay, Handlers, TransportOptions,
}
use apipact_agent.Tests.{texts_differ}
use apipact_agent.Prelude.Int.{pos}
use apipact_agent.Protocol.Channels.{
  is_slug_char, matches_agent_id, valid_agent_id, jobs_channel, control_channel,
}
use apipact_agent.Config.{
  apply_defaults, join_list, fields, parse_tokens, parse_cidrs, egress_policy, validate,
  load_parsed, Config, Addresses,
}
use apipact_agent.Enroll.{
  all_slashes, trim_right_slashes, agent_sign_key_id, build_config, accept_reply, read_reply,
  enroll, Reply, Online, World,
}
use apipact_agent.Enroll.Enrolled.{enroll-IsEnrolled, IsEnrolled}

abbrev pub addresses : Addresses
addresses = record { parse_ip = λ s. none; parse_cidr = λ s. err "no addresses in this test" }

abbrev pub envelope : Envelope
envelope = record {
  Opener = OpenerConfig ℕ;
  Sealer = SealerConfig;
  Replay = ℕ;
  decode_key32 = λ s. if s =ₛ "" then err "empty" else ok (1 ∷ []);
  decode_signing_public = λ s. ok (2 ∷ []);
  decode_signing_private = λ s. ok (3 ∷ []);
  encode_public_key = λ b. "own public";
  encode_private_key = λ b. "own private";
  encode_signing_public = λ b. "signing public";
  encode_signing_private = λ b. "signing private";
  new_opener = ok;
  new_sealer = ok;
  quote = λ s. s;
}

abbrev reply : Reply
reply = record {
  agent_id = "ag-1";
  name = "";
  pushflo = record { base_url = ""; publish_key = "pub"; secret_key = "" };
  cloud_public = "cloud public";
  cloud_signers = ("", "cloud signer") ∷ [];
  recipient_key_id = "";
  cloud_recipient_id = "";
  egress = record { allow_private = false; allow = []; block = [] };
  return = record {
    transport = "http";
    result_url = "https://example.com/r";
    result_token = "";
    inline_max_bytes = pos 0;
  };
  update = record {
    mode = "";
    channel = "";
    manifest_url = "";
    release_signer = "";
    poll_interval = "";
  };
  limits = record {
    max_concurrency = pos 0;
    max_body_bytes = pos 0;
    clock_skew_sec = pos 0;
    replay_ttl_sec = pos 0;
  };
}

abbrev online : Online
online = record {
  marshal = λ r. [];
  unmarshal = λ b. ok reply;
  body_text = λ b. "";
  digest = λ b. "";
}

abbrev pair : KeyPair
pair = record { public = 1 ∷ []; private = 2 ∷ [] }

abbrev world : World
world = record {
  recipient = ok pair;
  signing = ok pair;
  host = none;
  os = "linux";
  arch = "amd64";
  version = "1.0.0";
  request_error = λ url. none;
  post = λ url body. ok (record { code = 200; status = "200 OK"; body = [] });
}

abbrev flags : Flags
flags = record {
  token = "t";
  server = "https://example.com/";
  name = "probe";
  labels = [];
  pin = "";
  out = "agent.json";
  force = false;
}

abbrev pub enrolled : Config
enrolled = build_config envelope (enroll_options flags) reply pair pair

enrolls : enroll envelope online addresses world (enroll_options flags) ≡ ok enrolled
unfolding enroll enroll_options generate_agent_keys trim_right_slashes all_slashes read_reply
    accept_reply valid_agent_id matches_agent_id is_slug_char validate egress_policy parse_cidrs
    parse_tokens fields join_list build_config
enrolls = refl

enroll-IsEnrolled_example :
    IsEnrolled envelope online addresses world (enroll_options flags) enrolled
enroll-IsEnrolled_example =
    enroll-IsEnrolled envelope online addresses world (enroll_options flags) enrolled enrolls

-- A format for the one configuration.
abbrev pub codec : Codec
codec = record { encode = λ c. ok (7 ∷ []); decode = λ b. ok enrolled }

enrolled_reads_back :
    (c : Config)
    → enroll envelope online addresses world (enroll_options flags) ≡ ok c
    → (raw : Bytes) → codec.encode c ≡ ok raw
    → codec.decode raw ≡ ok c
enrolled_reads_back c e raw h = sym enrolls ∙ e

abbrev no_faults : SaveFaults
no_faults = record {
  mkdir = none;
  create = none;
  chmod = none;
  write = none;
  written = 0;
  sync = none;
  close = none;
  move = none;
  cleanup = none;
}

abbrev full_disk : SaveFaults
full_disk = record no_faults { write = some "disk full" }

tmp_differs : ◌≢◌ {A = String} "tmp" "agent.json"
tmp_differs = texts_differ "tmp" "agent.json" refl

saves : (save codec no_faults "tmp" "agent.json" enrolled []).0 ≡ none
unfolding save write_and_move rename lookup insert erase remove
saves = refl

save-Saves_example :
    Saves (ok (7 ∷ [])) "tmp" "agent.json" [] (save codec full_disk "tmp" "agent.json" enrolled [])
save-Saves_example = save-Saves codec full_disk "tmp" "agent.json" enrolled [] tmp_differs

abbrev pub filled_in : Config
filled_in = apply_defaults enrolled

pub loads_again : load_parsed addresses enrolled ≡ ok filled_in
unfolding build_config
loads_again =
    (enrolled_loads_iff addresses envelope online world (enroll_options flags) enrolled enrolls).1
      (inl (texts_differ "http" "" refl))

abbrev filled_codec : Codec
filled_codec = record { encode = λ c. ok (7 ∷ []); decode = λ b. ok filled_in }

saves_again : (save filled_codec no_faults "tmp" "agent.json" filled_in []).0 ≡ none
unfolding save write_and_move rename lookup insert erase remove
saves_again = refl

reload_example :
    load filled_codec addresses "agent.json"
      (save filled_codec no_faults "tmp" "agent.json" filled_in []).1
    ≡ ok filled_in
reload_example =
    reload filled_codec addresses no_faults "tmp" "agent.json" filled_in enrolled [] tmp_differs
      (λ raw h. refl) loads_again saves_again

abbrev run_enroll : SaveFaults → Files → ℕ × Files
run_enroll f fs = cmd_enroll codec envelope online addresses world f "tmp" flags fs

exits_zero : (run_enroll no_faults []).0 ≡ 0
unfolding cmd_enroll enroll enroll_options generate_agent_keys trim_right_slashes all_slashes
    read_reply accept_reply valid_agent_id matches_agent_id is_slug_char validate egress_policy
    parse_cidrs parse_tokens fields join_list build_config store_config save write_and_move rename
    lookup insert erase remove
exits_zero = refl

cmd_enroll_stores_example :
    (c : Config) × (enroll envelope online addresses world (enroll_options flags) ≡ ok c)
    × ((exists "agent.json" [] ≡ false) ⊎ (flags.force ≡ true))
    × ((load codec addresses "agent.json" (run_enroll no_faults []).1 ≡ ok (apply_defaults c))
        ↔ NamesReturn c)
cmd_enroll_stores_example =
    cmd_enroll_stores codec envelope online addresses world no_faults "tmp" flags [] tmp_differs
      enrolled_reads_back exits_zero

abbrev configured : Files
configured = ("agent.json", 9 ∷ []) ∷ []

is_configured : exists "agent.json" configured ≡ true
unfolding lookup
is_configured = refl

cmd_enroll_keeps_example :
    ((run_enroll no_faults configured).0 ≢ 0)
    × ((asked : String)
        → asked ≢ "tmp"
        → lookup asked (run_enroll no_faults configured).1 ≡ lookup asked configured)
cmd_enroll_keeps_example =
    cmd_enroll_keeps codec envelope online addresses world no_faults "tmp" flags configured
      tmp_differs (inr (is_configured, refl))

abbrev suite : Suite (OpenerConfig ℕ) SealerConfig
suite = record {
  opener = record {
    recipient_public = 1 ∷ [];
    recipient_private = 1 ∷ [];
    signers = ("", 2 ∷ []) ∷ [];
    max_clock_skew = pos 120;
    replay = 0;
  };
  result_sealer = record {
    recipient_public = 1 ∷ [];
    recipient_key_id = "";
    signer_private = 3 ∷ [];
    signer_key_id = "agent-ag-1-1";
  };
}

builds : build_suite envelope enrolled.keys (pos 120) 0 ≡ ok suite
unfolding build_suite build_opener build_sealer decode_signers named_error insert erase build_config
    agent_sign_key_id
builds = refl

build_suite_iff_example :
    (build_suite envelope enrolled.keys (pos 120) 0 ≡ ok suite)
    ↔ IsWired envelope enrolled.keys (pos 120) 0 suite
build_suite_iff_example = build_suite_iff envelope enrolled.keys (pos 120) 0 suite

-- A relay that refuses the control channel.
abbrev refusing : Relay
refusing = record {
  new_client_error = λ o. none;
  connect_error = none;
  subscribe_error = λ c. if c =ₛ "agent-ag-1-control" then some "refused" else none;
}

abbrev options : TransportOptions
options = record { agent_id = "ag-1"; publish_key = "pub"; base_url = ""; debug = false }

abbrev handlers : Handlers String
handlers = record { on_job = some "job"; on_control = some "control" }

refuses : (connect refusing options handlers).0 ≡ some "refused"
unfolding connect connect_client or_destroy open_connection subscribe destroy new_client
    control_channel jobs_channel
refuses = refl

connect-Settled_example : Settled options handlers (connect refusing options handlers)
connect-Settled_example = connect-Settled refusing options handlers
