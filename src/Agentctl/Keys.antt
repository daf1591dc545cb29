-- ===== src/Agentctl/Keys.antt =====
-- cmd/agentctl/main.go: cmdKeygen and cmdReleaseKeygen, which print new keys. A command
-- is its exit status with what it writes to standard output; flags and JSON are parameters.
pub mod Usable
use Prim.Native.String.{◌++◌ as ◌<>◌}
use apipact_agent.Prelude.{ℕ, ◌<◌, String, Bool, Option, none, some, List, [], ◌∷◌, if◌then◌else◌}
use apipact_agent.Prelude.Dict.{Dict, lookup}
use apipact_agent.Secure.{KeyPair, Envelope}

-- The exit status of a command, and its lines on standard output.
pub record Printed : Type 0 where
  pub status : ℕ
  pub lines : List String

-- A key generator's pair and error. cmdKeygen does not look at the error.
abbrev pub Generated : Type 0
Generated = KeyPair × Option String

-- What cmdKeygen gets of its four calls.
pub record NewKeys : Type 0 where
  pub agent_recipient : Generated
  pub cloud_signer : Generated
  pub cloud_recipient : Generated
  pub agent_signer : Generated

module _ (lib : Envelope) (marshal_indent : Dict String → String) where
  -- cmdKeygen's map
  unfoldable pub key_set : NewKeys → Dict String
  key_set k =
      ("AGENT_RECIPIENT_PUBLIC", lib.encode_public_key k.agent_recipient.0.public)
      ∷ ("AGENT_RECIPIENT_PRIVATE", lib.encode_private_key k.agent_recipient.0.private)
      ∷ ("AGENT_SIGN_PUBLIC", lib.encode_signing_public k.agent_signer.0.public)
      ∷ ("AGENT_SIGN_PRIVATE", lib.encode_signing_private k.agent_signer.0.private)
      ∷ ("CLOUD_RECIPIENT_PUBLIC", lib.encode_public_key k.cloud_recipient.0.public)
      ∷ ("CLOUD_RECIPIENT_PRIVATE", lib.encode_private_key k.cloud_recipient.0.private)
      ∷ ("CLOUD_SIGN_PUBLIC", lib.encode_signing_public k.cloud_signer.0.public)
      ∷ ("CLOUD_SIGN_PRIVATE", lib.encode_signing_private k.cloud_signer.0.private)
      ∷ []

  -- The names in the order in which cmdKeygen prints them.
  abbrev pub key_names : List String
  key_names =
      "AGENT_RECIPIENT_PUBLIC" ∷ "AGENT_RECIPIENT_PRIVATE" ∷ "AGENT_SIGN_PUBLIC"
      ∷ "AGENT_SIGN_PRIVATE" ∷ "CLOUD_RECIPIENT_PUBLIC" ∷ "CLOUD_RECIPIENT_PRIVATE"
      ∷ "CLOUD_SIGN_PUBLIC" ∷ "CLOUD_SIGN_PRIVATE" ∷ []

  -- set[k], which is "" for a missing key
  unfoldable pub value_of : String → Dict String → String
  value_of k set = elim (lookup k set) [ none ↦ "" | some v ↦ v ]

  -- fmt.Printf("%s=%s\n", k, set[k]) for each of the names
  unfoldable pub key_lines : List String → Dict String → List String
  unfolding value_of
  key_lines [] set = []
  key_lines (k ∷ ks) set = (k <> ("=" <> value_of k set)) ∷ key_lines ks set

  -- cmdKeygen
  unfoldable pub cmd_keygen : Bool → NewKeys → Printed
  unfolding key_set key_lines
  cmd_keygen as_json k = record {
    status = 0;
    lines =
        if as_json
        then marshal_indent (key_set k) ∷ []
        else "# AGENT holds: AGENT_RECIPIENT_PRIVATE, AGENT_SIGN_PRIVATE, CLOUD_RECIPIENT_PUBLIC, CLOUD_SIGN_PUBLIC"
          ∷ "# CLOUD holds: CLOUD_RECIPIENT_PRIVATE, CLOUD_SIGN_PRIVATE, AGENT_RECIPIENT_PUBLIC, AGENT_SIGN_PUBLIC"
          ∷ key_lines key_names (key_set k);
  }

  -- cmdReleaseKeygen
  unfoldable pub cmd_release_keygen : Bool → Generated → Printed
  cmd_release_keygen as_json (pair, some e) = record { status = 1; lines = [] }
  cmd_release_keygen as_json (pair, none) =
      let private = lib.encode_signing_private pair.private in
      let public = lib.encode_signing_public pair.public in
      let private_line = "RELEASE_SIGN_PRIVATE_B64=" <> private in
      let public_line = "RELEASE_SIGN_PUBLIC_B64=" <> public in
      let set = ("RELEASE_SIGN_PRIVATE_B64", private) ∷ ("RELEASE_SIGN_PUBLIC_B64", public) ∷ [] in
      record {
        status = 0;
        lines =
            if as_json
            then marshal_indent set ∷ []
            else "# Store PRIVATE as a CI secret (RELEASE_SIGN_PRIVATE_B64); never commit it."
              ∷ "# Return PUBLIC to agents as update.releaseSigner in the enrollment response."
              ∷ private_line ∷ public_line ∷ [];
      }
