-- ===== src/Secure/Wiring.antt =====
-- internal/secure/secure.go, BuildSuite: which keys open the messages that come in and seal those
-- that go out.
use apipact_agent.Prelude.{
  String, ◌≡◌, refl, ap, ◌∙◌, ◌≢◌, ◌↔◌, inl, inr, false, [], arith, ◌==◌, Bool-cases, ok,
  Result-cases, length,
}
use apipact_agent.Prelude.Int.{ℤ}
use apipact_agent.Prelude.Dict.{Dict, lookup, NodupKeys}
use apipact_agent.Executor.Request.{Bytes}
use apipact_agent.Secure.{
  named_error, decode_signers, build_opener, build_sealer, build_suite, KeyMaterial, OpenerConfig,
  SealerConfig, Envelope, Suite,
}
use apipact_agent.Secure.Signers.{
  key_of, Decoded, decode_signers-Decoded, Decoded-decode_signers, named_error-ok, configured-none,
  lookup-decode_signers,
}

module _ (lib : Envelope) where
  -- The configurations of the two constructors.
  abbrev opener_config : Bytes → Bytes → Dict Bytes → ℤ → lib.Replay → OpenerConfig lib.Replay
  opener_config public private signers max_skew replay = record {
    recipient_public = public;
    recipient_private = private;
    signers = signers;
    max_clock_skew = max_skew;
    replay = replay;
  }

  abbrev sealer_config : KeyMaterial → Bytes → Bytes → SealerConfig
  sealer_config km public private = record {
    recipient_public = public;
    recipient_key_id = km.cloud_recipient_id;
    signer_private = private;
    signer_key_id = km.sign_key_id;
  }

  -- A suite whose opener has the agent's own receiving keys and the cloud's signers, and whose sealer
  -- has the cloud's receiving key and the agent's own signing key.
  pub record IsWired (km : KeyMaterial) (max_skew : ℤ) (replay : lib.Replay)
      (suite : Suite lib.Opener lib.Sealer) : Type 0 where
    pub own_public : Bytes
    pub own_private : Bytes
    pub signers : Dict Bytes
    pub cloud_public : Bytes
    pub sign_private : Bytes
    pub some_signer : length km.cloud_signers ≢ 0
    pub own_public_from : lib.decode_key32 km.recipient_public ≡ ok own_public
    pub own_private_from : lib.decode_key32 km.recipient_private ≡ ok own_private
    pub signers_from : Decoded lib [] km.cloud_signers signers
    pub keyed :
        NodupKeys km.cloud_signers
        → (skid : String) → lookup skid signers ≡ key_of lib (lookup skid km.cloud_signers)
    pub cloud_public_from : lib.decode_key32 km.cloud_public ≡ ok cloud_public
    pub sign_private_from : lib.decode_signing_private km.sign_private ≡ ok sign_private
    pub opener_from :
        lib.new_opener (record {
          recipient_public = own_public;
          recipient_private = own_private;
          signers = signers;
          max_clock_skew = max_skew;
          replay = replay;
        })
        ≡ ok suite.opener
    pub sealer_from :
        lib.new_sealer (record {
          recipient_public = cloud_public;
          recipient_key_id = km.cloud_recipient_id;
          signer_private = sign_private;
          signer_key_id = km.sign_key_id;
        })
        ≡ ok suite.result_sealer

  abbrev OpenerParts : KeyMaterial → ℤ → lib.Replay → lib.Opener → Type 0
  OpenerParts km max_skew replay opener =
      (public : Bytes) × (private : Bytes) × (signers : Dict Bytes) × (length km.cloud_signers ≢ 0)
      × (lib.decode_key32 km.recipient_public ≡ ok public)
      × (lib.decode_key32 km.recipient_private ≡ ok private)
      × (decode_signers lib [] km.cloud_signers ≡ ok signers)
      × (lib.new_opener (record {
        recipient_public = public;
        recipient_private = private;
        signers = signers;
        max_clock_skew = max_skew;
        replay = replay;
      })
          ≡ ok opener)

  build_opener-parts :
      (km : KeyMaterial) (max_skew : ℤ) (replay : lib.Replay) (opener : lib.Opener)
      → build_opener lib km max_skew replay ≡ ok opener
      → OpenerParts km max_skew replay opener
  unfolding build_opener named_error
  build_opener-parts km max_skew replay opener h =
      elim (Result-cases (lib.decode_key32 km.recipient_public)) [
        | inr (e, q) ↦ absurd (ground (arith, q))
        | inl (public, a) ↦ elim (Result-cases (lib.decode_key32 km.recipient_private)) [
          | inr (e, q) ↦ absurd (ground (arith, a, q))
          | inl (private, b) ↦ elim (Bool-cases (length km.cloud_signers == 0)) [
            | inl q ↦ absurd (ground (arith, a, b, q))
            | inr n ↦ elim (Result-cases (decode_signers lib [] km.cloud_signers)) [
              | inr (e, q) ↦ absurd (ground (arith, a, b, n, q))
              | inl (signers, c) ↦ (
                public,
                private,
                signers,
                ground arith,
                a,
                b,
                c,
                (named_error-ok lib "build opener"
                      (lib.new_opener (opener_config public private signers max_skew replay))
                      opener).0
                    (rw (a, b, n, c, build_opener) at h),
              )
            ]
          ]
        ]
      ]

  abbrev SealerParts : KeyMaterial → lib.Sealer → Type 0
  SealerParts km sealer =
      (public : Bytes) × (private : Bytes) × (lib.decode_key32 km.cloud_public ≡ ok public)
      × (lib.decode_signing_private km.sign_private ≡ ok private)
      × (lib.new_sealer (sealer_config km public private) ≡ ok sealer)

  build_sealer-parts :
      (km : KeyMaterial) (sealer : lib.Sealer)
      → build_sealer lib km ≡ ok sealer
      → SealerParts km sealer
  unfolding build_sealer named_error
  build_sealer-parts km sealer h = elim (Result-cases (lib.decode_key32 km.cloud_public)) [
    | inr (e, q) ↦ absurd (ground (arith, q))
    | inl (public, a) ↦ elim (Result-cases (lib.decode_signing_private km.sign_private)) [
      | inr (e, q) ↦ absurd (ground (arith, a, q))
      | inl (private, b) ↦ (
        public,
        private,
        a,
        b,
        (named_error-ok lib "build sealer" (lib.new_sealer (sealer_config km public private))
              sealer).0
            (rw (a, b, build_sealer) at h),
      )
    ]
  ]

  suite_parts :
      (km : KeyMaterial) (max_skew : ℤ) (replay : lib.Replay) (suite : Suite lib.Opener lib.Sealer)
      → build_suite lib km max_skew replay ≡ ok suite
      → (build_opener lib km max_skew replay ≡ ok suite.opener)
        × (build_sealer lib km ≡ ok suite.result_sealer)
  unfolding build_suite
  suite_parts km max_skew replay suite h =
      elim (Result-cases (build_opener lib km max_skew replay)) [
        | inr (e, q) ↦ absurd (ground (arith, q))
        | inl (opener, a) ↦ elim (Result-cases (build_sealer lib km)) [
          | inr (e, q) ↦ absurd (ground (arith, a, q))
          | inl (sealer, b) ↦
              let built = rw (a, b, build_suite) at h in
              let same : record { opener = opener; result_sealer = sealer } ≡ suite =
                ground arith in
              (a ∙ ap (λ x. ok x.opener) same, b ∙ ap (λ x. ok x.result_sealer) same)
        ]
      ]

  wired_builds :
      (km : KeyMaterial) (max_skew : ℤ) (replay : lib.Replay) (suite : Suite lib.Opener lib.Sealer)
      → IsWired km max_skew replay suite
      → build_suite lib km max_skew replay ≡ ok suite
  unfolding build_suite build_opener build_sealer named_error
  wired_builds km max_skew replay suite w =
      let n : (length km.cloud_signers == 0) ≡ false = let m = w.some_signer in ground arith in
      rw
        (
          build_suite,
          build_opener,
          w.own_public_from,
          w.own_private_from,
          n,
          Decoded-decode_signers lib w.signers_from,
          w.opener_from,
          build_sealer,
          w.cloud_public_from,
          w.sign_private_from,
          w.sealer_from,
        )
        refl

  signers_exact :
      (km : KeyMaterial) (signers : Dict Bytes)
      → decode_signers lib [] km.cloud_signers ≡ ok signers
      → NodupKeys km.cloud_signers
      → (skid : String) → lookup skid signers ≡ key_of lib (lookup skid km.cloud_signers)
  unfolding lookup
  signers_exact km signers h u skid =
      lookup-decode_signers lib [] signers km.cloud_signers skid u h
      ∙ configured-none lib (lookup skid km.cloud_signers)

  -- BuildSuite succeeds exactly with a suite that is wired this way, when the key material has at
  -- least one signer of the cloud, all of its keys decode, and the two constructors accept them; the
  -- opener then knows each signer of the material under its id, with the key that its text decodes
  -- to, and no other, if no id occurs twice.
  pub build_suite_iff :
      (km : KeyMaterial) (max_skew : ℤ) (replay : lib.Replay) (suite : Suite lib.Opener lib.Sealer)
      → (build_suite lib km max_skew replay ≡ ok suite) ↔ IsWired km max_skew replay suite
  build_suite_iff km max_skew replay suite = (
    λ h.
        let (o, s) = suite_parts km max_skew replay suite h in
        let (p, q, ks, n, a, b, c, d) = build_opener-parts km max_skew replay suite.opener o in
        let (p', q', a', b', d') = build_sealer-parts km suite.result_sealer s in
        record {
          own_public = p;
          own_private = q;
          signers = ks;
          cloud_public = p';
          sign_private = q';
          some_signer = n;
          own_public_from = a;
          own_private_from = b;
          signers_from = decode_signers-Decoded lib [] km.cloud_signers ks c;
          keyed = λ u skid. signers_exact km ks c u skid;
          cloud_public_from = a';
          sign_private_from = b';
          opener_from = d;
          sealer_from = d';
        },
    λ w. wired_builds km max_skew replay suite w,
  )
