-- ===== src/Update/Manifest/Trust.antt =====
-- internal/update/manifest.go and swap.go: what is checked before a binary can be installed.
use apipact_agent.Prelude.{
  String, ◌≡◌, refl, ◌≢◌, ◌↔◌, inl, inr, true, Option, arith, eq_iff, ◌==◌, Bool-cases, ok,
  Result-cases, length,
}
use apipact_agent.Executor.Request.{Bytes}
use apipact_agent.Update.Manifest.{
  max_manifest_bytes, read_all, check_manifest, open_payload, open_signed, fetch_manifest, Manifest,
  SignedManifest, Got, Release, bad_request, no_response, response,
}

module _ (lib : Release) where
  -- A manifest that the release key vouches for: the answer is a 200 whose body, up to the limit,
  -- is a payload with a signature of it under the key, and the payload is the manifest.
  pub record Vouched (key : Bytes) (got : Got) (m : Manifest) : Type 0 where
    pub status : String
    pub body : Bytes
    pub failed : Option String
    pub raw : Bytes
    pub signed : SignedManifest
    pub payload : Bytes
    pub sig : Bytes
    pub answered : got ≡ response 200 status body failed
    pub limited : read_all max_manifest_bytes body failed ≡ ok raw
    pub parsed : lib.parse_signed raw ≡ ok signed
    pub payload_of : lib.decode_base64 signed.payload ≡ ok payload
    pub sig_of : lib.decode_base64 signed.signature ≡ ok sig
    pub key_size : length key ≡ 32
    pub verified : lib.verify key payload sig ≡ true
    pub manifest_of : lib.parse_manifest payload ≡ ok m
    pub has_url : m.worker.url ≢ ""
    pub has_sum : m.worker.sha256 ≢ ""

  check_manifest_iff :
      (m n : Manifest)
      → (check_manifest lib m ≡ ok n) ↔ ((m ≡ n) × (m.worker.url ≢ "") × (m.worker.sha256 ≢ ""))
  unfolding check_manifest
  check_manifest_iff m n = ground (arith, eq_iff m.worker.url "", eq_iff m.worker.sha256 "")

  open_payload-ok :
      (key payload sig : Bytes) (m : Manifest)
      → open_payload lib key payload sig ≡ ok m
      → (length key ≡ 32)
        × (lib.verify key payload sig ≡ true)
        × (lib.parse_manifest payload ≡ ok m)
        × (m.worker.url ≢ "")
        × (m.worker.sha256 ≢ "")
  unfolding open_payload
  open_payload-ok key payload sig m h = elim (Result-cases (lib.parse_manifest payload)) [
    | inr (e, q) ↦ absurd (ground arith)
    | inl (n, q) ↦ ground (arith, check_manifest_iff n m)
  ]

  open_signed-ok :
      (key raw : Bytes) (m : Manifest)
      → open_signed lib key raw ≡ ok m
      → (sm : SignedManifest) × (payload : Bytes) × (sig : Bytes) × (lib.parse_signed raw ≡ ok sm)
        × (lib.decode_base64 sm.payload ≡ ok payload)
        × (lib.decode_base64 sm.signature ≡ ok sig)
        × (open_payload lib key payload sig ≡ ok m)
  unfolding open_signed
  open_signed-ok key raw m h = elim (Result-cases (lib.parse_signed raw)) [
    | inr (e, q) ↦ absurd (ground arith)
    | inl (sm, q) ↦ elim (Result-cases (lib.decode_base64 sm.payload)) [
      | inr (e, r) ↦ absurd (ground arith)
      | inl (payload, r) ↦ elim (Result-cases (lib.decode_base64 sm.signature)) [
        | inr (e, t) ↦ absurd (ground arith)
        | inl (sig, t) ↦ (sm, payload, sig, q, r, t, rw (q, r, t, open_signed) at h)
      ]
    ]
  ]

  fetched-Vouched :
      (key : Bytes) (got : Got) (m : Manifest)
      → fetch_manifest lib key got ≡ ok m
      → Vouched key got m
  unfolding fetch_manifest
  fetched-Vouched key (bad_request e) m h = absurd (ground arith)
  fetched-Vouched key (no_response e) m h = absurd (ground arith)
  fetched-Vouched key (response code status body failed) m h = elim (Bool-cases (code == 200)) [
    | inr b ↦ absurd (ground arith)
    | inl b ↦ elim (Result-cases (read_all max_manifest_bytes body failed)) [
      | inr (e, q) ↦ absurd (ground arith)
      | inl (raw, q) ↦
          let o : open_signed lib key raw ≡ ok m = rw (b, q, fetch_manifest) at h in
          let (sm, payload, sig, x, y, z, p) = open_signed-ok key raw m o in
          let (k, v, n, u, c) = open_payload-ok key payload sig m p in
          let is_200 : code ≡ 200 = ground arith in
          record {
            status = status;
            body = body;
            failed = failed;
            raw = raw;
            signed = sm;
            payload = payload;
            sig = sig;
            answered = rw is_200 refl;
            limited = q;
            parsed = x;
            payload_of = y;
            sig_of = z;
            key_size = k;
            verified = v;
            manifest_of = n;
            has_url = u;
            has_sum = c;
          }
    ]
  ]

  Vouched-open_payload :
      (key : Bytes) (got : Got) (m : Manifest) (v : Vouched key got m)
      → open_payload lib key v.payload v.sig ≡ ok m
  unfolding open_payload
  Vouched-open_payload key got m v =
      rw (v.key_size, v.verified, v.manifest_of, open_payload)
        ((check_manifest_iff m m).1 (refl, v.has_url, v.has_sum))

  Vouched-open_signed :
      (key : Bytes) (got : Got) (m : Manifest) (v : Vouched key got m)
      → open_signed lib key v.raw ≡ ok m
  unfolding open_signed
  Vouched-open_signed key got m v =
      rw (v.parsed, v.payload_of, v.sig_of, open_signed) (Vouched-open_payload key got m v)

  Vouched-fetched :
      (key : Bytes) (got : Got) (m : Manifest)
      → Vouched key got m
      → fetch_manifest lib key got ≡ ok m
  unfolding fetch_manifest
  Vouched-fetched key got m v =
      rw v.answered (rw (v.limited, fetch_manifest) (Vouched-open_signed key got m v))

  -- FetchManifest returns a manifest exactly when the server answers 200 with a body that names a
  -- payload and a signature of it under the release key, which has 32 bytes, and the payload is the
  -- manifest, with a URL and a checksum for the worker.
  pub fetch_manifest-ok_iff :
      (key : Bytes) (got : Got) (m : Manifest)
      → (fetch_manifest lib key got ≡ ok m) ↔ Vouched key got m
  fetch_manifest-ok_iff key got m = (fetched-Vouched key got m, Vouched-fetched key got m)
