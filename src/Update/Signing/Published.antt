-- ===== src/Update/Signing/Published.antt =====
-- cmd/release-sign and internal/update: what the command publishes is what the supervisor accepts.
use apipact_agent.Prelude.{
  ◌≤◌, String, ◌≡◌, refl, ◌≢◌, inl, inr, true, ◌||◌, none, arith, ◌=ₛ◌, eq_iff, ◌==◌, Bool-cases,
  ok, Result-cases, length, take_of_length-le,
}
use apipact_agent.Executor.Request.{Bytes}
use apipact_agent.Executor.Text.{equal_fold}
use apipact_agent.Update.Manifest.{
  public_key_size, max_manifest_bytes, read_all, check_manifest, open_payload, open_signed,
  fetch_manifest, check_worker, download_and_verify, SignedManifest, Release, response,
}
use apipact_agent.Update.Signing.{
  private_key_size, release_manifest, release_sign, Signing, ReleaseFlags,
}

equal_fold_refl : (s : String) → equal_fold s s ≡ true
unfolding equal_fold
equal_fold_refl String.[] = refl
equal_fold_refl (String.◌∷◌ c s) = ground (arith, equal_fold_refl s)

module _ (tool : Signing) (lib : Release) where
  -- The envelope of a payload with its signature.
  abbrev pub signed_manifest : Bytes → Bytes → SignedManifest
  signed_manifest payload private = record {
    payload = tool.encode_base64 payload;
    signature = tool.encode_base64 (tool.sign private payload);
  }

  -- The two programs use the same checksum, and what the one encodes the other decodes: any bytes in
  -- base64, this release's manifest, and its envelope.
  pub record Agree (f : ReleaseFlags) (worker : Bytes) : Type 0 where
    pub same_sum : lib.hex_sum worker ≡ tool.hex_sum worker
    pub sum_text : tool.hex_sum worker ≢ ""
    pub base64 : (b : Bytes) → lib.decode_base64 (tool.encode_base64 b) ≡ ok b
    pub manifests :
        (raw : Bytes)
        → tool.marshal (release_manifest tool f worker) ≡ ok raw
        → lib.parse_manifest raw ≡ ok (release_manifest tool f worker)
    pub envelopes :
        (payload private raw : Bytes)
        → tool.marshal (release_manifest tool f worker) ≡ ok payload
        → tool.decode_base64 f.key ≡ ok private
        → tool.encode_signed (signed_manifest payload private) ≡ ok raw
        → lib.parse_signed raw ≡ ok (signed_manifest payload private)

  -- A signing key whose signatures a release key verifies.
  abbrev pub ArePair : String → Bytes → Type 0
  ArePair text key =
      (private : Bytes)
      → tool.decode_base64 text ≡ ok private
      → (message : Bytes) → lib.verify key message (tool.sign private message) ≡ true

  -- What the command has done where it has signed.
  signed_parts :
      (f : ReleaseFlags) (worker out : Bytes)
      → release_sign tool f worker ≡ ok out
      → (payload : Bytes) × (private : Bytes) × (f.url ≢ "")
        × (tool.marshal (release_manifest tool f worker) ≡ ok payload)
        × (tool.decode_base64 f.key ≡ ok private)
        × (tool.encode_signed (signed_manifest payload private) ≡ ok out)
  unfolding release_sign
  signed_parts f worker out h =
      elim (Bool-cases ((f.url =ₛ "") || (f.version =ₛ "") || (f.key =ₛ ""))) [
        | inl a ↦ absurd (ground (arith, a))
        | inr a ↦ elim (Result-cases (tool.marshal (release_manifest tool f worker))) [
          | inr (e, q) ↦ absurd (ground (arith, a, q))
          | inl (payload, b) ↦ elim (Result-cases (tool.decode_base64 f.key)) [
            | inr (e, q) ↦ absurd (ground (arith, a, b, q))
            | inl (private, c) ↦ elim (Bool-cases (length private == private_key_size)) [
              | inr d ↦ absurd (ground (arith, a, b, c, d))
              | inl d ↦ (
                payload,
                private,
                ground (arith, a, eq_iff f.url ""),
                b,
                c,
                rw (a, b, c, d, release_sign) at h,
              )
            ]
          ]
        ]
      ]

  manifest_accepted :
      (f : ReleaseFlags) (worker : Bytes)
      → Agree f worker
      → f.url ≢ ""
      → check_manifest lib (release_manifest tool f worker) ≡ ok (release_manifest tool f worker)
  unfolding check_manifest release_manifest
  manifest_accepted f worker agree n =
      let s = agree.sum_text in ground (arith, eq_iff f.url "", eq_iff (tool.hex_sum worker) "")

  opened :
      (f : ReleaseFlags) (worker out key : Bytes)
      → Agree f worker
      → ArePair f.key key
      → length key ≡ public_key_size
      → release_sign tool f worker ≡ ok out
      → open_signed lib key out ≡ ok (release_manifest tool f worker)
  unfolding open_signed open_payload
  opened f worker out key agree pair size h =
      let (payload, private, n, b, c, e) = signed_parts f worker out h in
      let s : (length key == public_key_size) ≡ true = ground arith in
      rw
        (
          open_signed,
          agree.envelopes payload private out b c e,
          agree.base64 payload,
          agree.base64 (tool.sign private payload),
          open_payload,
          s,
          pair private c payload,
          agree.manifests payload b,
        )
        (manifest_accepted f worker agree n)

  worker_accepted :
      (f : ReleaseFlags) (worker : Bytes)
      → Agree f worker
      → check_worker lib (release_manifest tool f worker).worker worker ≡ none
  unfolding check_worker release_manifest
  worker_accepted f worker agree =
      rw (check_worker, agree.same_sum, equal_fold_refl (tool.hex_sum worker)) (ground arith)

  -- A release round trip: the supervisor opens the manifest that release-sign has published, when it
  -- is served whole and within the limit on its size, the release key is the signing key's other
  -- half, and the two programs' encodings agree; it reads the manifest that was signed, and the
  -- worker that was hashed passes its checks.
  pub published_release_verifies :
      (f : ReleaseFlags) (worker out key : Bytes) (status status' : String)
      → Agree f worker
      → ArePair f.key key
      → length key ≡ public_key_size
      → length out ≤ max_manifest_bytes
      → release_sign tool f worker ≡ ok out
      → (fetch_manifest lib key (response 200 status out none)
          ≡ ok (release_manifest tool f worker))
        × (download_and_verify lib
              (release_manifest tool f worker)
              (response 200 status' worker none)
            ≡ (worker, none))
  unfolding fetch_manifest download_and_verify read_all
  published_release_verifies f worker out key status status' agree pair size fits h = (
    rw (fetch_manifest, read_all, take_of_length-le max_manifest_bytes out fits)
        (opened f worker out key agree pair size h),
    rw (download_and_verify, worker_accepted f worker agree) refl,
  )
