-- ===== src/Tests/Release.antt =====
-- cmd/release-sign and internal/update: a release that is signed, fetched and downloaded.
use Prim.Native.Char.{code}
use apipact_agent.Prelude.{
  ℕ, zero, suc, String, ◌≡◌, refl, ap, true, [], ◌∷◌, arith, ◌==◌, if◌then◌else◌, ok,
}
use apipact_agent.Executor.Request.{Bytes}
use apipact_agent.Update.Manifest.{Manifest, Release}
use apipact_agent.Update.Signing.{release_manifest, release_sign, Signing, ReleaseFlags}
use apipact_agent.Update.Signing.Published.{Agree}
use apipact_agent.Tests.{texts_differ}

abbrev pub zeros : ℕ → Bytes
zeros zero = []
zeros (suc n) = 0 ∷ zeros n

abbrev pub flags : ReleaseFlags
flags = record {
  url = "https://example.com/w";
  version = "1.1.0";
  channel = "stable";
  os = "linux";
  arch = "amd64";
  released_at = "";
  key = "k";
}

-- A text format for bytes: a full stop and a stroke for each unit of a byte.
unfoldable strokes : ℕ → String → String
strokes zero s = s
strokes (suc n) s = String.◌∷◌ "i" (strokes n s)

unfoldable pub write : Bytes → String
unfolding strokes
write [] = String.[]
write (n ∷ b) = String.◌∷◌ "." (strokes n (write b))

unfoldable pub scan : String → ℕ × Bytes
scan String.[] = (0, [])
scan (String.◌∷◌ c s) = let (n, b) = scan s in if code c == b'i' then (suc n, b) else (0, n ∷ b)

scan-strokes : (n : ℕ) (s : String) (b : Bytes) → scan s ≡ (0, b) → scan (strokes n s) ≡ (n, b)
unfolding scan strokes
scan-strokes zero s b h = h
scan-strokes (suc n) s b h = rw (scan-strokes n s b h) refl

pub scan-write : (b : Bytes) → scan (write b) ≡ (0, b)
unfolding scan write
scan-write [] = refl
scan-write (n ∷ b) = rw (scan-strokes n (write b) b (scan-write b)) refl

abbrev pub tool : Signing
tool = record {
  hex_sum = λ b. "ab";
  marshal = λ m. ok (7 ∷ []);
  encode_base64 = write;
  decode_base64 = λ s. ok (zeros 64);
  sign = λ key message. message;
  encode_signed = λ s. ok (9 ∷ []);
}

abbrev pub released : Manifest
released = release_manifest tool flags (1 ∷ 2 ∷ [])

abbrev pub lib : Release
lib = record {
  parse_signed = λ raw. ok (record { payload = write (7 ∷ []); signature = write (7 ∷ []) });
  parse_manifest = λ raw. ok released;
  decode_base64 = λ s. ok (scan s).1;
  verify = λ key payload sig. true;
  hex_sum = λ b. "ab";
}

pub agrees : Agree tool lib flags (1 ∷ 2 ∷ [])
agrees = record {
  same_sum = refl;
  sum_text = texts_differ "ab" "" refl;
  base64 = λ b. rw (scan-write b) refl;
  manifests = λ raw h. refl;
  envelopes = λ payload private raw h k e.
      let same : 7 ∷ [] ≡ payload = ground arith in
      ap (λ x. ok (record { payload = write x; signature = write x })) same;
}

pub signs : release_sign tool flags (1 ∷ 2 ∷ []) ≡ ok (9 ∷ [])
unfolding release_sign
signs = refl
