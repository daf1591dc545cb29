-- ===== src/Config/Save/Atomic.antt =====
-- internal/config/config.go: what Save leaves on the disk, and what Load reads of it.
use mathlib.Core.Path.{subst}
use apipact_agent.Prelude.{
  String, ◌≡◌, refl, sym, ap, ◌∙◌, ◌≢◌, inl, inr, Option, none, some, [], arith, eq_iff,
  Option-cases, Result, ok, Result-cases, take,
}
use apipact_agent.Prelude.Dict.{lookup, erase, insert, lookup-erase, lookup-insert}
use apipact_agent.Executor.Request.{Bytes}
use apipact_agent.Update.Swap.{Files, Fault, rename, remove}
use apipact_agent.Config.{apply_defaults, load_parsed, Config, Addresses}
use apipact_agent.Config.Ready.{load_parsed-ok_iff, apply_defaults_idempotent}
use apipact_agent.Config.Save.{write_and_move, save, load, Codec, SaveFaults}

-- A file other than the temporary one is the same in both.
abbrev SameBut : String → Files → Files → Type 0
SameBut tmp fs fs' = (asked : String) → asked ≢ tmp → lookup asked fs' ≡ lookup asked fs

remove-SameBut : (f : Fault) (tmp : String) (fs : Files) → SameBut tmp fs (remove f tmp fs)
unfolding remove
remove-SameBut (some e) tmp fs asked n = refl
remove-SameBut none tmp fs asked n = ground (arith, lookup-erase tmp asked fs, eq_iff tmp asked)

insert-SameBut : (tmp : String) (b : Bytes) (fs : Files) → SameBut tmp fs (insert tmp b fs)
insert-SameBut tmp b fs asked n = ground (arith, lookup-insert tmp asked b fs, eq_iff tmp asked)

-- What a call of Save does to the file at its path and to all others but the temporary one.
abbrev pub Saves : Result String Bytes → String → String → Files → Option String × Files → Type 0
Saves encoded tmp path fs (some e, fs') = SameBut tmp fs fs'
Saves encoded tmp path fs (none, fs') =
    (raw : Bytes) × (encoded ≡ ok raw)
    × (lookup path fs' ≡ some raw)
    × ((asked : String) → asked ≢ tmp → asked ≢ path → lookup asked fs' ≡ lookup asked fs)

-- What a rename of the temporary file leaves.
moved_files :
    (raw : Bytes) (tmp path : String) (fs : Files)
    → tmp ≢ path
    → Saves (ok raw) tmp path fs (none, insert path raw (erase tmp (insert tmp raw fs)))
moved_files raw tmp path fs n = (
  raw,
  refl,
  ground (arith, lookup-insert path path raw (erase tmp (insert tmp raw fs)), eq_iff path path),
  λ asked a b. ground (
    arith,
    lookup-insert path asked raw (erase tmp (insert tmp raw fs)),
    lookup-erase tmp asked (insert tmp raw fs),
    lookup-insert tmp asked raw fs,
    eq_iff path asked,
    eq_iff tmp asked,
  ),
)

moved :
    (f : Fault) (raw : Bytes) (tmp path : String) (fs : Files)
    → tmp ≢ path
    → Saves (ok raw) tmp path fs (rename f tmp path (insert tmp raw fs))
unfolding rename
moved (some e) raw tmp path fs n = insert-SameBut tmp raw fs
moved none raw tmp path fs n =
    let found : lookup tmp (insert tmp raw fs) ≡ some raw =
      ground (arith, lookup-insert tmp tmp raw fs, eq_iff tmp tmp) in
    rw (rename, found) (moved_files raw tmp path fs n)

written-Saves :
    (f : SaveFaults) (raw : Bytes) (tmp path : String) (fs : Files)
    → tmp ≢ path
    → Saves (ok raw) tmp path fs (write_and_move f raw tmp path fs)
unfolding write_and_move
written-Saves f raw tmp path fs n = elim (Option-cases f.chmod) [
  | inr (e, a) ↦ rw (a, write_and_move) (insert-SameBut tmp [] fs)
  | inl a ↦ elim (Option-cases f.write) [
    | inr (e, b) ↦ rw (a, b, write_and_move) (insert-SameBut tmp (take f.written raw) fs)
    | inl b ↦ elim (Option-cases f.sync) [
      | inr (e, c) ↦ rw (a, b, c, write_and_move) (insert-SameBut tmp raw fs)
      | inl c ↦ elim (Option-cases f.close) [
        | inr (e, d) ↦ rw (a, b, c, d, write_and_move) (insert-SameBut tmp raw fs)
        | inl d ↦ rw (a, b, c, d, write_and_move) (moved f.move raw tmp path fs n)
      ]
    ]
  ]
]

removed-Saves :
    (g : Fault) (encoded : Result String Bytes) (tmp path : String) (fs : Files)
    (r : Option String × Files)
    → tmp ≢ path
    → Saves encoded tmp path fs r
    → Saves encoded tmp path fs (r.0, remove g tmp r.1)
removed-Saves g encoded tmp path fs (some e, fs') n h =
    λ asked a. remove-SameBut g tmp fs' asked a ∙ h asked a
removed-Saves g encoded tmp path fs (none, fs') n (raw, e, at, others) = (
  raw,
  e,
  remove-SameBut g tmp fs' path (λ same. n (sym same)) ∙ at,
  λ asked a b. remove-SameBut g tmp fs' asked a ∙ others asked a b,
)

module _ (codec : Codec) where
  -- Save is atomic: where it reports an error, every file but its temporary one is as it was, the
  -- configuration included; where it does not, the configuration's file holds the whole encoding, and
  -- no other file but the temporary one has changed.
  pub save-Saves :
      (f : SaveFaults) (tmp path : String) (c : Config) (fs : Files)
      → tmp ≢ path
      → Saves (codec.encode c) tmp path fs (save codec f tmp path c fs)
  unfolding save
  save-Saves f tmp path c fs n = elim (Option-cases f.mkdir) [
    | inr (e, a) ↦ rw (a, save) (λ asked m. refl)
    | inl a ↦ elim (Result-cases (codec.encode c)) [
      | inr (e, b) ↦ rw (a, b, save) (λ asked m. refl)
      | inl (raw, b) ↦ elim (Option-cases f.create) [
        | inr (e, d) ↦ rw (a, b, d, save) (λ asked m. refl)
        | inl d ↦
            rw (a, b, d, save)
              (removed-Saves f.cleanup (ok raw) tmp path fs (write_and_move f raw tmp path fs) n
                (written-Saves f raw tmp path fs n))
      ]
    ]
  ]

  saved_raw :
      (f : SaveFaults) (tmp path : String) (c : Config) (fs : Files)
      → tmp ≢ path
      → (save codec f tmp path c fs).0 ≡ none
      → Saves (codec.encode c) tmp path fs (none, (save codec f tmp path c fs).1)
  saved_raw f tmp path c fs n done =
      let h = save-Saves f tmp path c fs n in
      subst (λ r. Saves (codec.encode c) tmp path fs (r, (save codec f tmp path c fs).1)) done h

  pub failed_save :
      (f : SaveFaults) (tmp path e : String) (c : Config) (fs : Files)
      → tmp ≢ path
      → (save codec f tmp path c fs).0 ≡ some e
      → (asked : String) → asked ≢ tmp
      → lookup asked (save codec f tmp path c fs).1 ≡ lookup asked fs
  failed_save f tmp path e c fs n failed =
      let h = save-Saves f tmp path c fs n in
      subst (λ r. Saves (codec.encode c) tmp path fs (r, (save codec f tmp path c fs).1)) failed h

  -- A configuration that Save has stored is the one that Load then reads, before Load fills in the
  -- defaults and validates it, when decoding inverts encoding at it.
  pub load-save :
      (lib : Addresses) (f : SaveFaults) (tmp path : String) (c : Config) (fs : Files)
      → tmp ≢ path
      → ((raw : Bytes) → codec.encode c ≡ ok raw → codec.decode raw ≡ ok c)
      → (save codec f tmp path c fs).0 ≡ none
      → load codec lib path (save codec f tmp path c fs).1 ≡ load_parsed lib c
  unfolding load
  load-save lib f tmp path c fs n inverse done =
      let (raw, e, at, _) = saved_raw f tmp path c fs n done in rw (load, at, inverse raw e) refl

  -- A configuration that Load has returned is stored and loaded again unchanged.
  pub reload :
      (lib : Addresses) (f : SaveFaults) (tmp path : String) (c c' : Config) (fs : Files)
      → tmp ≢ path
      → ((raw : Bytes) → codec.encode c ≡ ok raw → codec.decode raw ≡ ok c)
      → load_parsed lib c' ≡ ok c
      → (save codec f tmp path c fs).0 ≡ none
      → load codec lib path (save codec f tmp path c fs).1 ≡ ok c
  reload lib f tmp path c c' fs n inverse loaded done =
      let (e, ready) = (load_parsed-ok_iff lib c' c).0 loaded in
      let (same, _, _) = apply_defaults_idempotent c' in
      load-save lib f tmp path c fs n inverse done
      ∙ (load_parsed-ok_iff lib c c).1 (e ∙ sym same ∙ ap apply_defaults (sym e), ready)
