-- ===== src/Agentctl/Keys/Usable.antt =====
-- cmd/agentctl/main.go, cmdKeygen: the printed keys are those that internal/secure/secure.go needs.
use Prim.Native.String.{◌++◌ as ◌<>◌}
use apipact_agent.Prelude.{
  ℕ, zero, suc, ◌≤◌, String, ◌≡◌, refl, ap, ◌≢◌, true, false, none, List, [], ◌∷◌, arith, ◌=ₛ◌,
  eq_iff, ◌==◌, ok, length,
}
use apipact_agent.Prelude.Int.{ℤ}
use apipact_agent.Prelude.Dict.{Dict, lookup, erase, insert}
use apipact_agent.Executor.Request.{Bytes}
use text.Mathlib.TextLemmas.{append_cancel_left}
use apipact_agent.Update.Manifest.{
  public_key_size, max_manifest_bytes, fetch_manifest, download_and_verify, decode_release_key,
  Release, response,
}
use apipact_agent.Update.Signing.{release_manifest, release_sign, Signing, ReleaseFlags}
use apipact_agent.Update.Signing.Published.{ArePair, published_release_verifies, Agree}
use apipact_agent.Secure.{
  named_error, decode_signers, build_opener, build_sealer, build_suite, KeyMaterial, KeyPair,
  Envelope,
}
use apipact_agent.Agentctl.Keys.{
  key_set, key_names, value_of, key_lines, cmd_release_keygen, NewKeys,
}

module _ (lib : Envelope) (marshal_indent : Dict String → String) where
  -- The lines of a printed key set, less its two comments.
  abbrev pub printed : NewKeys → List String
  printed k =
      key_lines lib marshal_indent (key_names lib marshal_indent) (key_set lib marshal_indent k)

  -- The key material of an agent with the keys that the comment of cmdKeygen gives it.
  abbrev pub agent_material : String → NewKeys → KeyMaterial
  agent_material signer k =
      let set = key_set lib marshal_indent k in
      let value : String → String = λ name. value_of lib marshal_indent name set in
      record {
        recipient_public = value "AGENT_RECIPIENT_PUBLIC";
        recipient_private = value "AGENT_RECIPIENT_PRIVATE";
        cloud_signers = (signer, value "CLOUD_SIGN_PUBLIC") ∷ [];
        cloud_public = value "CLOUD_RECIPIENT_PUBLIC";
        sign_private = value "AGENT_SIGN_PRIVATE";
        sign_key_id = "agent";
        recipient_key_id = "agent";
        cloud_recipient_id = "cloud";
      }

  -- The decoders read what the encoders wrote.
  pub record Decodes (k : NewKeys) : Type 0 where
    pub agent_public :
        lib.decode_key32 (lib.encode_public_key k.agent_recipient.0.public)
        ≡ ok k.agent_recipient.0.public
    pub agent_private :
        lib.decode_key32 (lib.encode_private_key k.agent_recipient.0.private)
        ≡ ok k.agent_recipient.0.private
    pub cloud_public :
        lib.decode_key32 (lib.encode_public_key k.cloud_recipient.0.public)
        ≡ ok k.cloud_recipient.0.public
    pub agent_sign :
        lib.decode_signing_private (lib.encode_signing_private k.agent_signer.0.private)
        ≡ ok k.agent_signer.0.private
    pub cloud_sign :
        lib.decode_signing_public (lib.encode_signing_public k.cloud_signer.0.public)
        ≡ ok k.cloud_signer.0.public

  -- With the keys that keygen prints for an agent, where the decoders read what the encoders wrote,
  -- BuildSuite returns the opener of the agent's own receiving pair and of the cloud's signer, and the
  -- sealer of the cloud's receiving key and of the agent's own signing key.
  keygen-build_suite :
      (k : NewKeys) (signer : String) (skew : ℤ) (replay : lib.Replay) (opener : lib.Opener)
      (sealer : lib.Sealer)
      → Decodes k
      → lib.new_opener (record {
        recipient_public = k.agent_recipient.0.public;
        recipient_private = k.agent_recipient.0.private;
        signers = (signer, k.cloud_signer.0.public) ∷ [];
        max_clock_skew = skew;
        replay = replay;
      })
        ≡ ok opener
      → lib.new_sealer (record {
        recipient_public = k.cloud_recipient.0.public;
        recipient_key_id = "cloud";
        signer_private = k.agent_signer.0.private;
        signer_key_id = "agent";
      })
        ≡ ok sealer
      → build_suite lib (agent_material signer k) skew replay
        ≡ ok (record { opener = opener; result_sealer = sealer })
  unfolding build_suite build_opener build_sealer decode_signers named_error key_set value_of lookup
      insert erase
  keygen-build_suite k signer skew replay opener sealer d o s =
      rw
        (
          build_suite, build_opener, build_sealer, decode_signers, named_error, d.agent_public,
          d.agent_private, d.cloud_sign, o, d.cloud_public, d.agent_sign, s,
        )
        refl

abbrev line_at : ℕ → List String → String
line_at n [] = ""
line_at zero (l ∷ ls) = l
line_at (suc n) (l ∷ ls) = line_at n ls

module _ (lib : Envelope) (marshal_indent : Dict String → String) (tool : Signing)
    (rel : Release) where
  -- The lines of release-keygen with these two keys.
  abbrev pub release_lines : String → String → List String
  release_lines private public =
      "# Store PRIVATE as a CI secret (RELEASE_SIGN_PRIVATE_B64); never commit it."
      ∷ "# Return PUBLIC to agents as update.releaseSigner in the enrollment response."
      ∷ ("RELEASE_SIGN_PRIVATE_B64=" <> private)
      ∷ ("RELEASE_SIGN_PUBLIC_B64=" <> public)
      ∷ []

  -- Base64 and Ed25519 treat a pair as documented: what the envelope package encodes the two programs
  -- decode, and the public half verifies what the private half signs.
  pub record IsSound (pair : KeyPair) : Type 0 where
    pub private_text :
        tool.decode_base64 (lib.encode_signing_private pair.private) ≡ ok pair.private
    pub public_text : rel.decode_base64 (lib.encode_signing_public pair.public) ≡ ok pair.public
    pub written : lib.encode_signing_public pair.public ≢ ""
    pub size : length pair.public ≡ public_key_size
    pub signs : (m : Bytes) → rel.verify pair.public m (tool.sign pair.private m) ≡ true

  -- The keys that release-keygen prints work from one end to the other: if release-sign has signed a
  -- release with the printed private key, then a supervisor whose release signer is the printed public
  -- key decodes it, accepts the published manifest, and accepts the worker that was signed.
  pub release_keygen-accepted :
      (pair : KeyPair) (f : ReleaseFlags) (signer : String) (worker out : Bytes)
      (status status' : String)
      → (cmd_release_keygen lib marshal_indent false (pair, none)).lines
        ≡ release_lines f.key signer
      → IsSound pair
      → Agree tool rel f worker
      → length out ≤ max_manifest_bytes
      → release_sign tool f worker ≡ ok out
      → (decode_release_key rel signer ≡ ok pair.public)
        × (fetch_manifest rel pair.public (response 200 status out none)
            ≡ ok (release_manifest tool f worker))
        × (download_and_verify rel
              (release_manifest tool f worker)
              (response 200 status' worker none)
            ≡ (worker, none))
  unfolding cmd_release_keygen decode_release_key
  release_keygen-accepted pair f signer worker out status status' p k agree fits h =
      let same_key : lib.encode_signing_private pair.private ≡ f.key =
        append_cancel_left "RELEASE_SIGN_PRIVATE_B64=" _ _ (ap (line_at 2) p) in
      let same_signer : lib.encode_signing_public pair.public ≡ signer =
        append_cancel_left "RELEASE_SIGN_PUBLIC_B64=" _ _ (ap (line_at 3) p) in
      let named : (lib.encode_signing_public pair.public =ₛ "") ≡ false =
        ground (arith, k.written, eq_iff (lib.encode_signing_public pair.public) "") in
      let sized : (length pair.public == public_key_size) ≡ true = ground (arith, k.size) in
      let paired : ArePair tool rel f.key pair.public = λ private d m.
        let same : pair.private ≡ private =
          ground (arith, k.private_text, ap tool.decode_base64 same_key, d) in
        rw (← same) (k.signs m) in
      let (fetched, downloaded) =
        published_release_verifies tool rel f worker out pair.public status status' agree paired
          k.size fits h in
      (
        rw (← same_signer, decode_release_key, named, k.public_text, sized) refl,
        fetched,
        downloaded,
      )
