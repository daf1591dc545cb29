-- ===== src/Update/Version/Order.antt =====
-- internal/update/manifest.go, ShouldUpdate: the order of releases.
use apipact_agent.Prelude.{
  ◌<◌, String, ◌≡◌, refl, sym, ◌∙◌, ◌≢◌, ◌↔◌, ◌⊎◌, inl, inr, true, none, some, List, [], ◌∷◌, arith,
  ◌=ₛ◌, eq_iff, Bool-cases, Option-cases, All,
}
use apipact_agent.Update.Version.{
  Semver, parse_semver, newer_numbers, differs, is_newer, should_update,
}

-- One release's numbers are above another's in the lexicographic order.
abbrev pub Above : Semver → Semver → Type 0
Above (a, b, c) (x, y, z) = (x < a) ⊎ ((a ≡ x) × ((y < b) ⊎ ((b ≡ y) × (z < c))))

-- What makes a version newer: both are semantic versions and it is above the other, or one is
-- not, and it is another text that is neither empty nor "dev".
abbrev pub Newer : String → String → Type 0
Newer a b =
    ((p : Semver) × (q : Semver) × (parse_semver a ≡ some p)
      × (parse_semver b ≡ some q)
      × Above p q)
    ⊎ (((parse_semver a ≡ none) ⊎ (parse_semver b ≡ none)) × (a ≢ b) × (a ≢ "") × (a ≢ "dev"))

newer_numbers-Above : (p q : Semver) → (newer_numbers p q ≡ true) ↔ Above p q
unfolding newer_numbers
newer_numbers-Above (a, b, c) (x, y, z) = ground arith

differs_iff : (a b : String) → (differs a b ≡ true) ↔ ((a ≢ b) × (a ≢ "") × (a ≢ "dev"))
unfolding differs
differs_iff a b = ground (arith, eq_iff a b, eq_iff a "", eq_iff a "dev")

numbers_both_iff :
    (a b : String) (p q : Semver)
    → parse_semver a ≡ some p
    → parse_semver b ≡ some q
    → Above p q ↔ Newer a b
numbers_both_iff a b p q ha hb = (
  λ h. inl (p, q, ha, hb, h),
  λ n. elim n [
    | inl (p', q', ha', hb', h) ↦
        let same : p' ≡ p = ground arith in
        let same' : q' ≡ q = ground arith in rw (same, same') at h
    | inr (u, _, _, _) ↦ absurd (ground arith)
  ],
)

is_newer-numbers :
    (a b : String) (p q : Semver)
    → parse_semver a ≡ some p
    → parse_semver b ≡ some q
    → is_newer a b ≡ newer_numbers p q
unfolding is_newer
is_newer-numbers a b p q ha hb = rw (ha, hb, is_newer) refl

is_newer-differs :
    (a b : String) → (parse_semver a ≡ none) ⊎ (parse_semver b ≡ none) → is_newer a b ≡ differs a b
unfolding is_newer
is_newer-differs a b (inl ha) = rw (ha, is_newer) refl
is_newer-differs a b (inr hb) = elim (Option-cases (parse_semver a)) [
  | inl ha ↦ rw (ha, is_newer) refl
  | inr (p, ha) ↦ rw (ha, hb, is_newer) refl
]

texts_iff :
    (a b : String)
    → (parse_semver a ≡ none) ⊎ (parse_semver b ≡ none)
    → (is_newer a b ≡ true) ↔ Newer a b
texts_iff a b u =
    let (f, g) = differs_iff a b in
    let e = is_newer-differs a b u in
    (
      λ h. let (x, y, z) = f (sym e ∙ h) in inr (u, x, y, z),
      λ n. elim n [
        | inl (p, q, hp, hq, _) ↦ elim u [
          | inl x ↦ absurd (ground arith)
          | inr x ↦ absurd (ground arith)
        ]
        | inr (_, x, y, z) ↦ e ∙ g (x, y, z)
      ],
    )

is_newer_iff : (a b : String) → (is_newer a b ≡ true) ↔ Newer a b
is_newer_iff a b = elim (Option-cases (parse_semver a)) [
  | inl ha ↦ texts_iff a b (inl ha)
  | inr (p, ha) ↦ elim (Option-cases (parse_semver b)) [
    | inl hb ↦ texts_iff a b (inr hb)
    | inr (q, hb) ↦
        let (f, g) = newer_numbers-Above p q in
        let (f', g') = numbers_both_iff a b p q ha hb in
        let e = is_newer-numbers a b p q ha hb in (λ h. f' (f (sym e ∙ h)), λ n. e ∙ g (g' n))
  ]
]

-- With a pin, an update happens to the pinned version alone and only when it is not running;
-- without one, exactly to a newer version.
pub should_update_iff :
    (current pinned version : String)
    → (should_update current pinned version ≡ true) ↔ (
        ((pinned ≢ "") × (version ≡ pinned) × (version ≢ current))
        ⊎ ((pinned ≡ "") × Newer version current))
unfolding should_update
should_update_iff current pinned version = elim (Bool-cases (pinned =ₛ "")) [
  | inl e ↦ ground (arith, is_newer_iff version current, eq_iff pinned "")
  | inr e ↦ ground (arith, eq_iff pinned "", eq_iff version pinned, eq_iff version current)
]

-- A sequence of releases that an unpinned agent could install one after the other, each of them a
-- semantic version, after one with the numbers p.
abbrev pub IsUpgrade : Semver → String → List String → Type 0
IsUpgrade p v [] = Unit
IsUpgrade p v (w ∷ ws) =
    (should_update v "" w ≡ true) × ((q : Semver) × (parse_semver w ≡ some q) × IsUpgrade q w ws)

Above-trans : (p q r : Semver) → Above p q → Above q r → Above p r
Above-trans (a, b, c) (x, y, z) (i, j, k) h g = ground arith

pub Above-irrefl : (p : Semver) → ¬ Above p p
Above-irrefl (a, b, c) h = ground arith

upgrade-Above :
    (v w : String) (p q : Semver)
    → parse_semver v ≡ some p
    → parse_semver w ≡ some q
    → should_update v "" w ≡ true
    → Above q p
upgrade-Above v w p q hv hw h = elim ((should_update_iff v "" w).0 h) [
  | inl (n, _, _) ↦ absurd (n refl)
  | inr (_, n) ↦ (numbers_both_iff w v q p hw hv).1 n
]

raise :
    (p q : Semver) (ws : List String)
    → Above q p
    → All (λ w. (r : Semver) × (parse_semver w ≡ some r) × Above r q) ws
    → All (λ w. (r : Semver) × (parse_semver w ≡ some r) × Above r p) ws
raise p q [] h a = tt
raise p q (w ∷ ws) h ((r, e, above), a) = ((r, e, Above-trans r q p above h), raise p q ws h a)

-- Every release of an upgrade has numbers above those it started from.
upgrades-Above :
    (v : String) (p : Semver) (ws : List String)
    → parse_semver v ≡ some p
    → IsUpgrade p v ws
    → All (λ w. (q : Semver) × (parse_semver w ≡ some q) × Above q p) ws
upgrades-Above v p [] hv h = tt
upgrades-Above v p (w ∷ ws) hv (u, (q, hw, rest)) =
    let above = upgrade-Above v w p q hv hw u in
    ((q, hw, above), raise p q ws above (upgrades-Above w q ws hw rest))

none_same :
    (p : Semver) (ws : List String)
    → All (λ w. (r : Semver) × (parse_semver w ≡ some r) × Above r p) ws
    → All (λ w. parse_semver w ≢ some p) ws
none_same p [] a = tt
none_same p (w ∷ ws) ((r, e, above), a) =
    (λ same. let eq : r ≡ p = ground arith in Above-irrefl p (rw eq at above), none_same p ws a)

-- An agent without a pin that follows releases with semantic versions never comes back to the
-- version it started from, whatever it is offered: no release of the sequence has its numbers.
pub no_update_cycle :
    (v : String) (p : Semver) (ws : List String)
    → parse_semver v ≡ some p
    → IsUpgrade p v ws
    → All (λ w. parse_semver w ≢ some p) ws
no_update_cycle v p ws hv h = none_same p ws (upgrades-Above v p ws hv h)
