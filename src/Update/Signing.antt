-- ===== src/Update/Signing.antt =====
-- cmd/release-sign/main.go: from a worker binary to its signed manifest. What the command calls of
-- encoding/json, encoding/base64, crypto/sha256 and crypto/ed25519 is the record Signing.
pub mod Published
use apipact_agent.Prelude.{
  ℕ, ◌-◌, String, ◌||◌, not, ◌=ₛ◌, ◌==◌, if◌then◌else◌, Result, ok, err, length,
}
use apipact_agent.Prelude.Int.{pos}
use apipact_agent.Executor.Request.{Bytes}
use apipact_agent.Update.Manifest.{Manifest, SignedManifest}

pub record Signing : Type 0 where
  pub hex_sum : Bytes → String
  pub marshal : Manifest → Result String Bytes
  pub encode_base64 : Bytes → String
  pub decode_base64 : String → Result String Bytes
  -- ed25519.Sign(key, message)
  pub sign : Bytes → Bytes → Bytes
  pub encode_signed : SignedManifest → Result String Bytes

abbrev pub private_key_size : ℕ
private_key_size = 64

-- The flags, less the path of the worker.
pub record ReleaseFlags : Type 0 where
  pub url : String
  pub version : String
  pub channel : String
  pub os : String
  pub arch : String
  pub released_at : String
  pub key : String

module _ (tool : Signing) where
  unfoldable pub release_manifest : ReleaseFlags → Bytes → Manifest
  release_manifest f worker = record {
    version = f.version;
    channel = f.channel;
    os = f.os;
    arch = f.arch;
    worker = record { url = f.url; sha256 = tool.hex_sum worker; size = pos (length worker) };
    released_at = f.released_at;
  }

  -- main, once the worker has been read
  unfoldable pub release_sign : ReleaseFlags → Bytes → Result String Bytes
  unfolding release_manifest
  release_sign f worker =
      if (f.url =ₛ "") || (f.version =ₛ "") || (f.key =ₛ "")
      then err "release-sign requires --worker, --url, --version, and --key"
      else elim (tool.marshal (release_manifest f worker)) [
        | err e ↦ err e
        | ok payload ↦ elim (tool.decode_base64 f.key) [
          | err e ↦ err e
          | ok private ↦
              if not (length private == private_key_size)
              then err "release key must be a 64-byte ed25519 private key"
              else tool.encode_signed (record {
                payload = tool.encode_base64 payload;
                signature = tool.encode_base64 (tool.sign private payload);
              })
        ]
      ]
