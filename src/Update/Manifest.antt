-- ===== src/Update/Manifest.antt =====
-- internal/update/manifest.go: FetchManifest and DownloadAndVerify, and DecodeReleaseKey of swap.go.
-- The HTTP client, JSON, base64, hex, Ed25519 and SHA-256 are the record Release.
pub mod Trust
use Prim.Native.String.{◌++◌ as ◌<>◌}
use apipact_agent.Prelude.{
  ℕ, ◌/◌, ◌^◌, ◌<◌, String, Bool, ◌&&◌, ◌||◌, not, Option, none, some, [], ◌=ₛ◌, leb, ◌==◌,
  if◌then◌else◌, Result, ok, err, length, take,
}
use apipact_agent.Prelude.Int.{ℤ, pos_part, not_positive}
use apipact_agent.Executor.Request.{Bytes}
use apipact_agent.Executor.Text.{equal_fold}

-- WorkerArtifact
pub record WorkerArtifact : Type 0 where
  pub url : String
  pub sha256 : String
  pub size : ℤ

-- Manifest
pub record Manifest : Type 0 where
  pub version : String
  pub channel : String
  pub os : String
  pub arch : String
  pub worker : WorkerArtifact
  pub released_at : String

-- SignedManifest
pub record SignedManifest : Type 0 where
  pub payload : String
  pub signature : String

-- What a GET ends with: no request, no response, or a status with the bytes that the body has
-- given when it ends, and the error that it ends with if it does not end well.
pub data Got : Type 0 where
  bad_request no_response : String → Got
  response : (code : ℕ) (status : String) (body : Bytes) (failed : Option String) → Got

pub record Release : Type 0 where
  pub parse_signed : Bytes → Result String SignedManifest
  pub parse_manifest : Bytes → Result String Manifest
  pub decode_base64 : String → Result String Bytes
  -- ed25519.Verify(key, message, signature)
  pub verify : Bytes → Bytes → Bytes → Bool
  -- hex.EncodeToString of the SHA-256 sum
  pub hex_sum : Bytes → String

abbrev pub public_key_size : ℕ
public_key_size = 32

abbrev pub max_manifest_bytes : ℕ
max_manifest_bytes = 2 ^ 20

-- io.ReadAll(io.LimitReader(body, n)): an error past the limit is not met.
unfoldable pub read_all : ℕ → Bytes → Option String → Result String Bytes
read_all n body none = ok (take n body)
read_all n body (some e) = if leb n (length body) then ok (take n body) else err e

module _ (lib : Release) where
  -- FetchManifest, once the manifest has been parsed.
  unfoldable pub check_manifest : Manifest → Result String Manifest
  check_manifest m =
      if (m.worker.url =ₛ "") || (m.worker.sha256 =ₛ "")
      then err "manifest missing worker url/sha256"
      else ok m

  -- The decoded payload and signature of FetchManifest.
  unfoldable pub open_payload : Bytes → Bytes → Bytes → Result String Manifest
  open_payload key payload sig =
      if not (length key == public_key_size)
      then err "no valid release signing key configured"
      else if not (lib.verify key payload sig)
      then err "manifest signature verification failed"
      else elim (lib.parse_manifest payload) [
        | err e ↦ err ("parse manifest: " <> e)
        | ok m ↦ check_manifest m
      ]

  -- The bytes that FetchManifest has read.
  unfoldable pub open_signed : Bytes → Bytes → Result String Manifest
  open_signed key raw = elim (lib.parse_signed raw) [
    | err e ↦ err ("parse signed manifest: " <> e)
    | ok sm ↦ elim (lib.decode_base64 sm.payload) [
      | err e ↦ err ("decode manifest payload: " <> e)
      | ok payload ↦ elim (lib.decode_base64 sm.signature) [
        | err e ↦ err ("decode manifest signature: " <> e)
        | ok sig ↦ open_payload key payload sig
      ]
    ]
  ]

  -- FetchManifest
  unfoldable pub fetch_manifest : Bytes → Got → Result String Manifest
  fetch_manifest key (bad_request e) = err e
  fetch_manifest key (no_response e) = err ("fetch manifest: " <> e)
  fetch_manifest key (response code status body failed) =
      if not (code == 200)
      then err ("manifest fetch returned " <> status)
      else elim (read_all max_manifest_bytes body failed) [
        | err e ↦ err e
        | ok raw ↦ open_signed key raw
      ]

  -- The checks of DownloadAndVerify on a body that has been streamed in full.
  unfoldable pub check_worker : WorkerArtifact → Bytes → Option String
  check_worker a body =
      if not (equal_fold (lib.hex_sum body) a.sha256)
      then some "worker checksum mismatch"
      else if not (not_positive a.size)
          && not (leb (pos_part a.size) (length body) && leb (length body) (pos_part a.size))
      then some "worker size mismatch"
      else none

  -- DownloadAndVerify: the bytes that it has written, and its error. The numbers and the checksums
  -- in the texts of the errors are left out.
  unfoldable pub download_and_verify : Manifest → Got → Bytes × Option String
  download_and_verify m (bad_request e) = ([], some e)
  download_and_verify m (no_response e) = ([], some ("download worker: " <> e))
  download_and_verify m (response code status body failed) =
      if not (code == 200)
      then ([], some ("worker download returned " <> status))
      else elim failed [
        | some e ↦ (body, some ("stream worker: " <> e))
        | none ↦ (body, check_worker m.worker body)
      ]

  -- DecodeReleaseKey
  unfoldable pub decode_release_key : String → Result String Bytes
  decode_release_key b64 =
      if b64 =ₛ "" then err "empty release signing key" else elim (lib.decode_base64 b64) [
        | err e ↦ err ("decode release key: " <> e)
        | ok raw ↦
            if not (length raw == public_key_size) then err "release key wrong size" else ok raw
      ]
