-- ===== src/Agentctl/Enrolling.antt =====
-- cmd/agentctl/main.go, cmdEnroll: what it leaves on the disk.
use apipact_agent.Executor.Request.{Bytes}
use apipact_agent.Prelude.Dict.{lookup}
use apipact_agent.Config.Save.Atomic.{failed_save, load-save}
use apipact_agent.Enroll.Stored.{NamesReturn, enrolled_loads_iff}
use apipact_agent.Prelude.{
  ℕ, String, ◌≡◌, refl, ap, ◌∙◌, ◌≢◌, ◌↔◌, ◌⊎◌, inl, inr, true, false, ◌&&◌, ◌||◌, not, none, some,
  arith, ◌=ₛ◌, Bool-cases, Option-cases, ok, Result-cases,
}
use apipact_agent.Update.Swap.{Files, exists}
use apipact_agent.Secure.{Envelope}
use apipact_agent.Config.{apply_defaults, Config, Addresses}
use apipact_agent.Config.Save.{save, load, Codec, SaveFaults}
use apipact_agent.Enroll.{enroll, Online, World}
use apipact_agent.Agentctl.{enroll_options, store_config, cmd_enroll, Flags}

module _ (codec : Codec) (lib : Envelope) (online : Online) (addresses : Addresses) (world : World)
    (f : SaveFaults) (tmp : String) (flags : Flags) (fs : Files) where
  abbrev result : ℕ × Files
  result = cmd_enroll codec lib online addresses world f tmp flags fs

  -- The three ways in which the command ends.
  command_ends :
      ((result.0 ≢ 0) × (result.1 ≡ fs))
      ⊎ ((c : Config) × (enroll lib online addresses world (enroll_options flags) ≡ ok c)
          × ((exists flags.out fs ≡ false) ⊎ (flags.force ≡ true))
          × (result ≡ store_config codec f tmp flags.out c fs))
  unfolding cmd_enroll
  command_ends = elim (Bool-cases ((flags.token =ₛ "") || (flags.server =ₛ ""))) [
    | inl a ↦ inl (rw (a, cmd_enroll) (λ x. ground arith, refl))
    | inr a ↦ elim (Bool-cases (exists flags.out fs && not flags.force)) [
      | inl b ↦ inl (rw (a, b, cmd_enroll) (λ x. ground arith, refl))
      | inr b ↦ elim (Result-cases (enroll lib online addresses world (enroll_options flags))) [
        | inr (e, q) ↦ inl (rw (a, b, q, cmd_enroll) (λ x. ground arith, refl))
        | inl (c, q) ↦ inr (c, q, ground (arith, b), rw (a, b, q, cmd_enroll) refl)
      ]
    ]
  ]

  stored :
      (c : Config)
      → (((save codec f tmp flags.out c fs).0 ≡ none)
          × (store_config codec f tmp flags.out c fs ≡ (0, (save codec f tmp flags.out c fs).1)))
        ⊎ ((e : String) × ((save codec f tmp flags.out c fs).0 ≡ some e)
            × (store_config codec f tmp flags.out c fs ≡ (1, (save codec f tmp flags.out c fs).1)))
  unfolding store_config
  stored c = elim (Option-cases (save codec f tmp flags.out c fs).0) [
    | inl a ↦ inl (a, rw (a, store_config) refl)
    | inr (e, a) ↦ inr (e, a, rw (a, store_config) refl)
  ]

  -- The command changes no file but the temporary one unless it exits with 0, and it never does where
  -- there is a configuration at its path and no --force.
  pub cmd_enroll_keeps :
      tmp ≢ flags.out
      → (result.0 ≢ 0) ⊎ ((exists flags.out fs ≡ true) × (flags.force ≡ false))
      → (result.0 ≢ 0) × ((asked : String) → asked ≢ tmp → lookup asked result.1 ≡ lookup asked fs)
  cmd_enroll_keeps n h = elim command_ends [
    | inl (m, same) ↦ (m, λ asked a. ap (lookup asked) same)
    | inr (c, e, free, r) ↦ elim (stored c) [
      | inl (s, t) ↦ let code : result.0 ≡ 0 = ap (λ x. x.0) (r ∙ t) in absurd (ground arith)
      | inr (x, s, t) ↦
          let code : result.0 ≡ 1 = ap (λ x. x.0) (r ∙ t) in
          (
            λ z. ground arith,
            λ asked a.
                ap (λ r. lookup asked r.1) (r ∙ t)
                ∙ failed_save codec f tmp flags.out x c fs n s asked a,
          )
    ]
  ]

  -- Where the command exits with 0, the enrollment has succeeded, there was no configuration or the
  -- operator forced it, and Load accepts the stored configuration, with the defaults filled in,
  -- exactly if that one names a return transport or has a secret key; decoding has to invert
  -- encoding at it.
  pub cmd_enroll_stores :
      tmp ≢ flags.out
      → ((c : Config)
          → enroll lib online addresses world (enroll_options flags) ≡ ok c
          → (raw : Bytes) → codec.encode c ≡ ok raw
          → codec.decode raw ≡ ok c)
      → result.0 ≡ 0
      → (c : Config) × (enroll lib online addresses world (enroll_options flags) ≡ ok c)
        × ((exists flags.out fs ≡ false) ⊎ (flags.force ≡ true))
        × ((load codec addresses flags.out result.1 ≡ ok (apply_defaults c)) ↔ NamesReturn c)
  cmd_enroll_stores n inverse done = elim command_ends [
    | inl (m, _) ↦ absurd (m done)
    | inr (c, e, free, r) ↦ elim (stored c) [
      | inl (s, t) ↦
          let at : result.1 ≡ (save codec f tmp flags.out c fs).1 = ap (λ x. x.1) (r ∙ t) in
          (
            c,
            e,
            free,
            rw (at, load-save codec addresses f tmp flags.out c fs n (inverse c e) s)
                (enrolled_loads_iff addresses lib online world (enroll_options flags) c e),
          )
      | inr (x, s, t) ↦ let code : result.0 ≡ 1 = ap (λ x. x.0) (r ∙ t) in absurd (ground arith)
    ]
  ]
