-- ===== src/Secure.antt =====
-- internal/secure/secure.go: from the key material of a configuration to the two halves of the
-- message encryption. The envelope package of pushflo-go is the record Envelope; its keys are bytes.
pub mod Signers
pub mod Wiring
use Prim.Native.String.{◌++◌ as ◌<>◌}
use apipact_agent.Prelude.{◌<◌, String, [], ◌∷◌, ◌==◌, if◌then◌else◌, Result, ok, err, length}
use apipact_agent.Prelude.Int.{ℤ}
use apipact_agent.Prelude.Dict.{Dict, insert}
use apipact_agent.Executor.Request.{Bytes}

pub record KeyMaterial : Type 0 where
  pub recipient_public : String
  pub recipient_private : String
  pub cloud_signers : Dict String
  pub cloud_public : String
  pub sign_private : String
  pub sign_key_id : String
  pub recipient_key_id : String
  pub cloud_recipient_id : String

-- A key pair of GenerateRecipientKeyPair or GenerateSigningKeyPair.
pub record KeyPair : Type 0 where
  pub public : Bytes
  pub private : Bytes

-- envelope.OpenerConfig, for replay caches of type R
pub record OpenerConfig (R : Type 0) : Type 0 where
  pub recipient_public : Bytes
  pub recipient_private : Bytes
  pub signers : Dict Bytes
  pub max_clock_skew : ℤ
  pub replay : R

pub record SealerConfig : Type 0 where
  pub recipient_public : Bytes
  pub recipient_key_id : String
  pub signer_private : Bytes
  pub signer_key_id : String

pub record Envelope : Type 1 where
  pub Opener : Type 0
  pub Sealer : Type 0
  pub Replay : Type 0
  pub decode_key32 : String → Result String Bytes
  pub decode_signing_public : String → Result String Bytes
  pub decode_signing_private : String → Result String Bytes
  pub encode_public_key : Bytes → String
  pub encode_private_key : Bytes → String
  pub encode_signing_public : Bytes → String
  pub encode_signing_private : Bytes → String
  pub new_opener : OpenerConfig Replay → Result String Opener
  pub new_sealer : SealerConfig → Result String Sealer
  -- the %q of fmt
  pub quote : String → String

pub record Suite (O S : Type 0) : Type 0 where
  pub opener : O
  pub result_sealer : S

-- fmt.Errorf(what + ": %w", err), where there is an error
unfoldable pub named_error {ℓ} : {A : Type ℓ} → String → Result String A → Result String A
named_error what (ok a) = ok a
named_error what (err e) = err (what <> (": " <> e))

module _ (lib : Envelope) where
  -- The loop over the cloud's signers, into the map that it has built so far.
  unfoldable pub decode_signers : Dict Bytes → Dict String → Result String (Dict Bytes)
  unfolding named_error
  decode_signers signers [] = ok signers
  decode_signers signers ((skid, text) ∷ rest) =
      elim (named_error ("cloud signer " <> lib.quote skid) (lib.decode_signing_public text)) [
        | err e ↦ err e
        | ok key ↦ decode_signers (insert skid key signers) rest
      ]

  -- BuildSuite, up to the opener
  unfoldable pub build_opener : KeyMaterial → ℤ → lib.Replay → Result String lib.Opener
  unfolding named_error decode_signers
  build_opener km max_skew replay =
      elim (named_error "recipient public" (lib.decode_key32 km.recipient_public)) [
        | err e ↦ err e
        | ok public ↦
            elim (named_error "recipient private" (lib.decode_key32 km.recipient_private)) [
              | err e ↦ err e
              | ok private ↦
                  if length km.cloud_signers == 0
                  then err "no cloud signer keys configured"
                  else elim (decode_signers [] km.cloud_signers) [
                    | err e ↦ err e
                    | ok signers ↦ named_error "build opener" (
                        lib.new_opener (record {
                          recipient_public = public;
                          recipient_private = private;
                          signers = signers;
                          max_clock_skew = max_skew;
                          replay = replay;
                        }))
                  ]
            ]
      ]

  -- BuildSuite, from the cloud's public key to the sealer
  unfoldable pub build_sealer : KeyMaterial → Result String lib.Sealer
  unfolding named_error
  build_sealer km = elim (named_error "cloud public" (lib.decode_key32 km.cloud_public)) [
    | err e ↦ err e
    | ok public ↦ elim (named_error "sign private" (lib.decode_signing_private km.sign_private)) [
      | err e ↦ err e
      | ok private ↦ named_error "build sealer" (
          lib.new_sealer (record {
            recipient_public = public;
            recipient_key_id = km.cloud_recipient_id;
            signer_private = private;
            signer_key_id = km.sign_key_id;
          }))
    ]
  ]

  -- BuildSuite
  unfoldable pub build_suite :
      KeyMaterial → ℤ → lib.Replay → Result String (Suite lib.Opener lib.Sealer)
  unfolding build_opener build_sealer
  build_suite km max_skew replay = elim (build_opener km max_skew replay) [
    | err e ↦ err e
    | ok opener ↦ elim (build_sealer km) [
      | err e ↦ err e
      | ok sealer ↦ ok (record { opener = opener; result_sealer = sealer })
    ]
  ]

-- GenerateAgentKeys, from the results of the two generators.
unfoldable pub generate_agent_keys :
    Result String KeyPair → Result String KeyPair → Result String (KeyPair × KeyPair)
generate_agent_keys (err e) signing = err e
generate_agent_keys (ok recipient) (err e) = err e
generate_agent_keys (ok recipient) (ok signing) = ok (recipient, signing)
