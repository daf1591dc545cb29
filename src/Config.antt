-- ===== src/Config.antt =====
-- internal/config/config.go: defaults, validation and the egress policy of the agent's configuration,
-- with ParseCIDRs of internal/executor/egress.go. Go's net package is the record Addresses.
pub mod Ready
pub mod Save
use apipact_agent.Secure.{KeyMaterial}
use Prim.Native.Char.{Char, code}
use Prim.Native.String.{◌++◌ as ◌<>◌}
use apipact_agent.Prelude.{
  ℕ, ◌/◌, ◌^◌, ◌<◌, String, Bool, false, ◌&&◌, ◌||◌, not, Option, none, some, List, [], ◌∷◌, ◌=ₛ◌,
  ◌==◌, if◌then◌else◌, Result, ok, err, is_some,
}
use apipact_agent.Prelude.Int.{ℤ, pos, negsuc}
use apipact_agent.Protocol.{return_channel, return_http}
use apipact_agent.Protocol.Channels.{valid_agent_id}
use apipact_agent.Executor.Egress.{Ip, IpNet, to4, EgressPolicy}

pub record PushFlo : Type 0 where
  pub base_url : String
  pub publish_key : String
  pub secret_key : String

pub record Egress : Type 0 where
  pub allow_private : Bool
  pub allow : List String
  pub block : List String

pub record Return : Type 0 where
  pub transport : String
  pub result_url : String
  pub result_token : String
  pub inline_max_bytes : ℤ

pub record UpdateSettings : Type 0 where
  pub mode : String
  pub channel : String
  pub manifest_url : String
  pub release_signer : String
  pub pinned_version : String
  pub poll_interval : String

pub record Limits : Type 0 where
  pub max_concurrency : ℤ
  pub max_body_bytes : ℤ
  pub clock_skew_sec : ℤ
  pub replay_ttl_sec : ℤ
  pub heartbeat_sec : ℤ

pub record Config : Type 0 where
  pub agent_id : String
  pub name : String
  pub labels : List (String × String)
  pub cloud_base_url : String
  pub pushflo : PushFlo
  pub keys : KeyMaterial
  pub egress : Egress
  pub return : Return
  pub update : UpdateSettings
  pub limits : Limits

pub record Addresses : Type 0 where
  pub parse_ip : String → Option Ip
  pub parse_cidr : String → Result String IpNet

-- An integer option, or its default where it is zero.
unfoldable pub or_default : ℕ → ℤ → ℤ
or_default d (pos n) = if n == 0 then pos d else pos n
or_default d (negsuc n) = negsuc n

unfoldable pub or_text : String → String → String
or_text d s = if s =ₛ "" then d else s

-- applyDefaults
unfoldable pub apply_defaults : Config → Config
apply_defaults c = record c {
  limits = record {
    max_concurrency = or_default 8 c.limits.max_concurrency;
    max_body_bytes = or_default (2 ^ 20) c.limits.max_body_bytes;
    clock_skew_sec = or_default 120 c.limits.clock_skew_sec;
    replay_ttl_sec = or_default 600 c.limits.replay_ttl_sec;
    heartbeat_sec = or_default 60 c.limits.heartbeat_sec;
  };
  update = record c.update { mode = or_text "binary" c.update.mode };
  return = record c.return { transport = or_text return_channel c.return.transport };
}

-- joinList
unfoldable pub join_list : List String → String
join_list [] = ""
join_list (s ∷ []) = s
join_list (s ∷ t ∷ ss) = s <> ("," <> join_list (t ∷ ss))

unfoldable pub is_separator : Char → Bool
is_separator c = code c == b',' || code c == b' ' || code c == 0x0a || code c == 0x09

-- Whether a text begins with a character of a field.
unfoldable pub begins_field : String → Bool
begins_field String.[] = false
begins_field (String.◌∷◌ c s) = not (is_separator c)

unfoldable pub grow_first : Char → List String → List String
grow_first c [] = String.◌∷◌ c "" ∷ []
grow_first c (f ∷ fs) = String.◌∷◌ c f ∷ fs

-- strings.FieldsFunc with the separators of ParseCIDRs
unfoldable pub fields : String → List String
fields String.[] = []
fields (String.◌∷◌ c s) =
    let rest = fields s in
    if is_separator c
    then rest
    else if begins_field s
    then grow_first c rest
    else String.◌∷◌ c "" ∷ rest

unfoldable pub has_slash : String → Bool
has_slash String.[] = false
has_slash (String.◌∷◌ c s) = code c == b'/' || has_slash s

module _ (lib : Addresses) where
  -- A bare address, with the length of its mask.
  unfoldable pub with_mask : String → String
  with_mask tok = if has_slash tok then tok else elim (lib.parse_ip tok) [
    | none ↦ tok
    | some ip ↦ if is_some (to4 ip) then tok <> "/32" else tok <> "/128"
  ]

  unfoldable pub parse_tokens : List String → Result String (List IpNet)
  parse_tokens [] = ok []
  parse_tokens (tok ∷ toks) = elim (lib.parse_cidr (with_mask tok)) [
    | err e ↦ err ("invalid CIDR " <> (with_mask tok <> (": " <> e)))
    | ok n ↦ elim (parse_tokens toks) [ err e ↦ err e | ok ns ↦ ok (n ∷ ns) ]
  ]

  -- ParseCIDRs
  unfoldable pub parse_cidrs : String → Result String (List IpNet)
  parse_cidrs list = parse_tokens (fields list)

  -- Config.EgressPolicy
  unfoldable pub egress_policy : Config → Result String EgressPolicy
  egress_policy c = elim (parse_cidrs (join_list c.egress.allow)) [
    | err e ↦ err ("egress.allow: " <> e)
    | ok allow ↦ elim (parse_cidrs (join_list c.egress.block)) [
      | err e ↦ err ("egress.block: " <> e)
      | ok block ↦
          ok (record { allow_private = c.egress.allow_private; allow = allow; block = block })
    ]
  ]

  -- Validate: the error, if there is one
  unfoldable pub validate : Config → Option String
  validate c =
      if not (valid_agent_id c.agent_id)
      then some "invalid agent id"
      else if c.pushflo.publish_key =ₛ ""
      then some "pushflo.publishKey is required"
      else if (c.return.transport =ₛ return_channel) && (c.pushflo.secret_key =ₛ "")
      then some "pushflo.secretKey is required for channel result return"
      else if (c.return.transport =ₛ return_http) && (c.return.result_url =ₛ "")
      then some "return.resultUrl is required for http result return"
      else elim (egress_policy c) [ err e ↦ some e | ok p ↦ none ]

  -- Load, once the file has been read and parsed.
  unfoldable pub load_parsed : Config → Result String Config
  load_parsed c = elim (validate (apply_defaults c)) [
    | some e ↦ err e
    | none ↦ ok (apply_defaults c)
  ]
