-- ===== src/Enroll.antt =====
-- internal/enroll/enroll.go: the enrollment of an agent. The envelope package is the record Envelope;
-- encoding/json, net/http, crypto/sha256 and encoding/base64 are the record Online, and what the host
-- and the cloud answer is the record World.
pub mod Enrolled
pub mod Stored
pub mod Pinned
use Prim.Native.Char.{Char, code}
use Prim.Native.String.{◌++◌ as ◌<>◌}
use apipact_agent.Prelude.{
  ℕ, ◌-◌, ◌/◌, ◌^◌, ◌<◌, String, Bool, true, ◌&&◌, ◌||◌, not, Option, none, some, List, [], ◌∷◌,
  ◌=ₛ◌, ltb, leb, ◌==◌, if◌then◌else◌, Result, ok, err, length, take,
}
use apipact_agent.Prelude.Int.{ℤ, pos}
use apipact_agent.Prelude.Dict.{Dict}
use apipact_agent.Executor.Request.{Bytes}
use apipact_agent.Protocol.Channels.{valid_agent_id}
use apipact_agent.Secure.{generate_agent_keys, KeyPair, Envelope}
use apipact_agent.Config.{fields, validate, PushFlo, Egress, Return, Config, Addresses}

-- Request: the payload of the enrollment call
pub record EnrollRequest : Type 0 where
  pub token : String
  pub name : String
  pub labels : Dict String
  pub recipient_public : String
  pub sign_public : String
  pub hostname : String
  pub os : String
  pub arch : String
  pub agent_version : String

pub record ReplyUpdate : Type 0 where
  pub mode : String
  pub channel : String
  pub manifest_url : String
  pub release_signer : String
  pub poll_interval : String

pub record ReplyLimits : Type 0 where
  pub max_concurrency : ℤ
  pub max_body_bytes : ℤ
  pub clock_skew_sec : ℤ
  pub replay_ttl_sec : ℤ

-- Response
pub record Reply : Type 0 where
  pub agent_id : String
  pub name : String
  pub pushflo : PushFlo
  pub cloud_public : String
  pub cloud_signers : Dict String
  pub recipient_key_id : String
  pub cloud_recipient_id : String
  pub egress : Egress
  pub return : Return
  pub update : ReplyUpdate
  pub limits : ReplyLimits

pub record Options : Type 0 where
  pub cloud_base_url : String
  pub token : String
  pub name : String
  pub labels : Dict String
  pub pin : String

pub record HttpReply : Type 0 where
  pub code : ℕ
  pub status : String
  pub body : Bytes

pub record Online : Type 0 where
  pub marshal : EnrollRequest → Bytes
  pub unmarshal : Bytes → Result String Reply
  pub body_text : Bytes → String
  -- base64 of the SHA-256 of some bytes
  pub digest : Bytes → String

pub record World : Type 0 where
  pub recipient : Result String KeyPair
  pub signing : Result String KeyPair
  pub host : Option String
  pub os : String
  pub arch : String
  pub version : String
  -- the error of http.NewRequestWithContext for a URL
  pub request_error : String → Option String
  -- hc.Do for a POST of this body to this URL, with the body that can be read
  pub post : String → Bytes → Result String HttpReply

abbrev pub enroll_path : String
enroll_path = "/api/v1/agents/enroll"

abbrev pub max_reply_bytes : ℕ
max_reply_bytes = 2 ^ 20

unfoldable pub all_slashes : String → Bool
all_slashes String.[] = true
all_slashes (String.◌∷◌ c s) = code c == b'/' && all_slashes s

-- strings.TrimRight(s, "/")
unfoldable pub trim_right_slashes : String → String
unfolding all_slashes
trim_right_slashes String.[] = String.[]
trim_right_slashes (String.◌∷◌ c s) =
    let rest = trim_right_slashes s in
    if code c == b'/' && all_slashes s then String.[] else String.◌∷◌ c rest

-- hostname
unfoldable pub hostname : Option String → String
hostname none = ""
hostname (some h) = h

-- agentSignKeyID
unfoldable pub agent_sign_key_id : String → String
agent_sign_key_id agent_id = "agent-" <> (agent_id <> "-1")

-- The check of pinnedTransport's VerifyConnection, on the public keys of the peer's certificates.
unfoldable pub verify_connection : Online → String → List Bytes → Option String
verify_connection online pin [] = some "server certificate SPKI does not match pin"
verify_connection online pin (key ∷ keys) =
    let rest = verify_connection online pin keys in if online.digest key =ₛ pin then none else rest

-- pinnedTransport: the check that a connection has to pass beside the standard ones.
unfoldable pub pinned_transport : Online → String → Option (List Bytes → Option String)
unfolding verify_connection
pinned_transport online pin = if pin =ₛ "" then none else some (verify_connection online pin)

module _ (lib : Envelope) where
  -- buildConfig
  unfoldable pub build_config : Options → Reply → KeyPair → KeyPair → Config
  unfolding agent_sign_key_id
  build_config opts er recipient signing = record {
    agent_id = er.agent_id;
    name = if er.name =ₛ "" then opts.name else er.name;
    labels = opts.labels;
    cloud_base_url = opts.cloud_base_url;
    pushflo = er.pushflo;
    keys = record {
      recipient_public = lib.encode_public_key recipient.public;
      recipient_private = lib.encode_private_key recipient.private;
      cloud_signers = er.cloud_signers;
      cloud_public = er.cloud_public;
      sign_private = lib.encode_signing_private signing.private;
      sign_key_id = agent_sign_key_id er.agent_id;
      recipient_key_id = er.recipient_key_id;
      cloud_recipient_id = er.cloud_recipient_id;
    };
    egress = er.egress;
    return = er.return;
    update = record {
      mode = er.update.mode;
      channel = er.update.channel;
      manifest_url = er.update.manifest_url;
      release_signer = er.update.release_signer;
      pinned_version = "";
      poll_interval = er.update.poll_interval;
    };
    limits = record {
      max_concurrency = er.limits.max_concurrency;
      max_body_bytes = er.limits.max_body_bytes;
      clock_skew_sec = er.limits.clock_skew_sec;
      replay_ttl_sec = er.limits.replay_ttl_sec;
      heartbeat_sec = pos 0;
    };
  }

  -- Enroll's reqBody
  unfoldable pub enroll_request : Options → World → KeyPair → KeyPair → EnrollRequest
  unfolding hostname
  enroll_request opts world recipient signing = record {
    token = opts.token;
    name = opts.name;
    labels = opts.labels;
    recipient_public = lib.encode_public_key recipient.public;
    sign_public = lib.encode_signing_public signing.public;
    hostname = hostname world.host;
    os = world.os;
    arch = world.arch;
    agent_version = world.version;
  }

  -- Enroll, from the parsed response on
  unfoldable pub accept_reply :
      Addresses → Options → Reply → KeyPair → KeyPair → Result String Config
  unfolding build_config
  accept_reply addresses opts er recipient signing =
      if not (valid_agent_id er.agent_id)
      then err "cloud returned invalid agent id"
      else if (er.pushflo.publish_key =ₛ "")
          || (er.cloud_public =ₛ "")
          || length er.cloud_signers == 0
      then err "enroll response missing required fields (publishKey/cloudPublic/cloudSigners)"
      else elim (validate addresses (build_config opts er recipient signing)) [
        | some e ↦ err ("assembled config invalid: " <> e)
        | none ↦ ok (build_config opts er recipient signing)
      ]

  -- Enroll, from the HTTP reply on
  unfoldable pub read_reply :
      Online → Addresses → Options → HttpReply → KeyPair → KeyPair → Result String Config
  unfolding accept_reply
  read_reply online addresses opts r recipient signing =
      let body = take max_reply_bytes r.body in
      if ltb r.code 200 || leb 300 r.code
      then err ("enroll rejected: " <> (r.status <> (": " <> online.body_text body)))
      else elim (online.unmarshal body) [
        | err e ↦ err ("parse enroll response: " <> e)
        | ok er ↦ accept_reply addresses opts er recipient signing
      ]

  -- Enroll
  unfoldable pub enroll : Online → Addresses → World → Options → Result String Config
  unfolding generate_agent_keys trim_right_slashes enroll_request read_reply
  enroll online addresses world opts =
      if opts.token =ₛ ""
      then err "enrollment token is required"
      else if opts.cloud_base_url =ₛ ""
      then err "cloud base URL is required"
      else elim (generate_agent_keys world.recipient world.signing) [
        | err e ↦ err ("generate keys: " <> e)
        | ok (recipient, signing) ↦
            let url = trim_right_slashes opts.cloud_base_url <> enroll_path in
            let raw = online.marshal (enroll_request opts world recipient signing) in
            elim (world.request_error url) [
              | some e ↦ err e
              | none ↦ elim (world.post url raw) [
                | err e ↦ err ("enroll request: " <> e)
                | ok r ↦ read_reply online addresses opts r recipient signing
              ]
            ]
      ]
