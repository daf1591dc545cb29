-- ===== src/Agentctl.antt =====
-- cmd/agentctl/main.go: the command enroll, with its --label flags. A command's result is its exit
-- code and the files of the disk; what it prints is left out.
pub mod Enrolling
pub mod Labels
pub mod Keys
pub mod Status
use Prim.Native.Char.{Char, code}
use Prim.Native.String.{◌++◌ as ◌<>◌}
use apipact_agent.Prelude.{
  ℕ, String, Bool, ◌&&◌, ◌||◌, not, Option, none, some, [], ◌∷◌, ◌=ₛ◌, ◌==◌, if◌then◌else◌, Result,
  ok, err,
}
use apipact_agent.Prelude.Dict.{Dict, insert}
use apipact_agent.Update.Swap.{Files, exists}
use apipact_agent.Secure.{Envelope}
use apipact_agent.Config.{Config, Addresses}
use apipact_agent.Config.Save.{save, Codec, SaveFaults}
use apipact_agent.Enroll.{enroll, Options, Online, World}

-- The texts around the first '=', strings.IndexByte(v, '=') and the two slices.
unfoldable pub cut_at_equals : String → Option (String × String)
cut_at_equals String.[] = none
cut_at_equals (String.◌∷◌ c s) =
    let rest = cut_at_equals s in
    if code c == b'='
    then some ("", s)
    else elim rest [ none ↦ none | some (k, v) ↦ some (String.◌∷◌ c k, v) ]

-- labelFlags.Set
unfoldable pub set_label : String → Dict String → Result String (Dict String)
unfolding cut_at_equals
set_label v m = elim (cut_at_equals v) [
  | none ↦ err "label must be key=value"
  | some (k, value) ↦ if k =ₛ "" then err "label must be key=value" else ok (insert k value m)
]

-- cmdEnroll's flags
pub record Flags : Type 0 where
  pub token : String
  pub server : String
  pub name : String
  pub labels : Dict String
  pub pin : String
  pub out : String
  pub force : Bool

unfoldable pub enroll_options : Flags → Options
enroll_options flags = record {
  cloud_base_url = flags.server;
  token = flags.token;
  name = flags.name;
  labels = flags.labels;
  pin = flags.pin;
}

module _ (codec : Codec) where
  -- cmdEnroll, from config.Save on
  unfoldable pub store_config : SaveFaults → String → String → Config → Files → ℕ × Files
  unfolding save
  store_config f tmp path c fs =
      let (failed, fs') = save codec f tmp path c fs in
      elim failed [ some e ↦ (1, fs') | none ↦ (0, fs') ]

  -- cmdEnroll
  unfoldable pub cmd_enroll :
      Envelope → Online → Addresses → World → SaveFaults → String → Flags → Files → ℕ × Files
  unfolding enroll enroll_options store_config
  cmd_enroll lib online addresses world f tmp flags fs =
      if (flags.token =ₛ "") || (flags.server =ₛ "")
      then (2, fs)
      else if exists flags.out fs && not flags.force
      then (1, fs)
      else elim (enroll lib online addresses world (enroll_options flags)) [
        | err e ↦ (1, fs)
        | ok c ↦ store_config f tmp flags.out c fs
      ]
