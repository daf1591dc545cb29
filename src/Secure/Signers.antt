-- ===== src/Secure/Signers.antt =====
-- internal/secure/secure.go, BuildSuite: the map of the keys that verify the cloud.
use apipact_agent.Prelude.{
  String, ◌≡◌, refl, sym, ap, ◌∙◌, ◌↔◌, inl, inr, false, Option, none, some, [], ◌∷◌, arith, ◌=ₛ◌,
  eq_iff, Bool-cases, Result, ok, err, Result-cases, is_ok,
}
use apipact_agent.Prelude.Dict.{Dict, lookup, insert, NodupKeys, lookup-insert}
use apipact_agent.Executor.Request.{Bytes}
use apipact_agent.Secure.{named_error, decode_signers, Envelope}

module _ (lib : Envelope) where
  -- The key that a signer's text decodes to, if it does.
  abbrev pub key_of : Option String → Option Bytes
  key_of none = none
  key_of (some text) = elim (lib.decode_signing_public text) [ err e ↦ none | ok key ↦ some key ]

  pub named_error-ok {ℓ} :
      {A : Type ℓ} (what : String) (r : Result String A) (a : A)
      → (named_error what r ≡ ok a) ↔ (r ≡ ok a)
  unfolding named_error
  named_error-ok what (ok b) a = ground arith
  named_error-ok what (err e) a = ground arith

  decode_signers-step :
      (signers : Dict Bytes) (skid text : String) (rest : Dict String) (key : Bytes)
      → lib.decode_signing_public text ≡ ok key
      → decode_signers lib signers ((skid, text) ∷ rest)
        ≡ decode_signers lib (insert skid key signers) rest
  unfolding decode_signers named_error
  decode_signers-step signers skid text rest key q = rw (q, decode_signers) refl

  decode_signers-stop :
      (signers : Dict Bytes) (skid text : String) (rest : Dict String) (e : String)
      → lib.decode_signing_public text ≡ err e
      → is_ok (decode_signers lib signers ((skid, text) ∷ rest)) ≡ false
  unfolding decode_signers named_error
  decode_signers-stop signers skid text rest e q = rw (q, decode_signers) refl

  -- The key that a signer has: that of the configuration, or one that the map had before.
  abbrev pub configured : Option String → Option Bytes → Option Bytes
  configured none before = before
  configured (some text) before = key_of (some text)

  pub configured-none : (o : Option String) → configured o none ≡ key_of o
  configured-none none = refl
  configured-none (some text) = refl

  pub lookup-decode_signers :
      (signers keys : Dict Bytes) (entries : Dict String) (skid : String)
      → NodupKeys entries
      → decode_signers lib signers entries ≡ ok keys
      → lookup skid keys ≡ configured (lookup skid entries) (lookup skid signers)
  unfolding lookup decode_signers
  lookup-decode_signers signers keys [] skid u h =
      let same : signers ≡ keys = ground arith in ap (lookup skid) (sym same)
  lookup-decode_signers signers keys ((j, text) ∷ rest) skid (fresh, u) h =
      elim (Result-cases (lib.decode_signing_public text)) [
        | inl (key, q) ↦
            let hyp =
              lookup-decode_signers (insert j key signers) keys rest skid u
                (sym (decode_signers-step signers j text rest key q) ∙ h) in
            let at = lookup-insert j skid key signers in
            elim (Bool-cases (j =ₛ skid)) [
              | inl same ↦
                  let eq : j ≡ skid = ground (arith, eq_iff j skid) in
                  let gone : lookup skid rest ≡ none = rw eq at fresh in
                  rw (same, key_of, q) (hyp ∙ rw (gone, at, same) refl)
              | inr other ↦ rw other (hyp ∙ ap (configured (lookup skid rest)) (at ∙ rw other refl))
            ]
        | inr (e, q) ↦
            let stop = decode_signers-stop signers j text rest e q in absurd (ground arith)
      ]

  -- Each of the entries decodes, and its key is stored under its id, in the order of the entries.
  pub data Decoded : Dict Bytes → Dict String → Dict Bytes → Type 0 where
    all_decoded : {signers : Dict Bytes} → Decoded signers [] signers
    next_decoded :
        {signers keys : Dict Bytes} {skid text : String} {rest : Dict String} {key : Bytes}
        → lib.decode_signing_public text ≡ ok key
        → Decoded (insert skid key signers) rest keys
        → Decoded signers ((skid, text) ∷ rest) keys

  pub decode_signers-Decoded :
      (signers : Dict Bytes) (entries : Dict String) (keys : Dict Bytes)
      → decode_signers lib signers entries ≡ ok keys
      → Decoded signers entries keys
  unfolding decode_signers
  decode_signers-Decoded signers [] keys h =
      let same : signers ≡ keys = ground arith in rw (← same) all_decoded
  decode_signers-Decoded signers ((j, text) ∷ rest) keys h =
      elim (Result-cases (lib.decode_signing_public text)) [
        | inl (key, q) ↦ next_decoded q (
            decode_signers-Decoded (insert j key signers) rest keys
              (sym (decode_signers-step signers j text rest key q) ∙ h))
        | inr (e, q) ↦
            let stop = decode_signers-stop signers j text rest e q in absurd (ground arith)
      ]

  pub Decoded-decode_signers :
      {signers keys : Dict Bytes} {entries : Dict String}
      → Decoded signers entries keys
      → decode_signers lib signers entries ≡ ok keys
  unfolding decode_signers
  Decoded-decode_signers all_decoded = refl
  Decoded-decode_signers (next_decoded {signers} {keys} {skid} {text} {rest} {key} q d) =
      decode_signers-step signers skid text rest key q ∙ Decoded-decode_signers d
