-- ===== src/Prelude/Dict.antt =====
-- Go's maps with string keys, as association lists with at most one entry for a key.
use Prim.Native.String.{String}
use mathlib.Core.Path.{◌≡◌, refl}
use mathlib.Core.Bool.{Bool}
use mathlib.Core.Option.{Option, none, some}
use mathlib.Core.List.{List, [], ◌∷◌}
use native.Mathlib.Omega.{arith}
use text.Mathlib.Text.{◌==◌}
use text.Mathlib.TextEquality.{eq_iff}
use apipact_agent.Prelude.Tests.{if◌then◌else◌}

abbrev pub Dict {ℓ} : Type ℓ → Type ℓ
Dict V = List (String × V)

module _ {ℓ} {V : Type ℓ} where
  -- m[k], with its comma-ok form
  unfoldable pub lookup : String → Dict V → Option V
  lookup k [] = none
  lookup k ((j, v) ∷ rest) = let later = lookup k rest in if j == k then some v else later

  -- delete(m, k)
  unfoldable pub erase : String → Dict V → Dict V
  erase k [] = []
  erase k ((j, v) ∷ m) = let rest = erase k m in if j == k then rest else (j, v) ∷ rest

  -- m[k] = v
  unfoldable pub insert : String → V → Dict V → Dict V
  insert k v m = (k, v) ∷ erase k m

  -- for k, v := range m { if !keep(v) { delete(m, k) } }: the order of the visits does not matter
  unfoldable pub keep : (V → Bool) → Dict V → Dict V
  keep p [] = []
  keep p ((j, v) ∷ m) = let rest = keep p m in if p v then (j, v) ∷ rest else rest

  abbrev pub NodupKeys : Dict V → Type ℓ
  NodupKeys [] = Unit
  NodupKeys ((k, v) ∷ m) = (lookup k m ≡ none) × NodupKeys m

  pub lookup-erase :
      (k j : String) (m : Dict V) → lookup j (erase k m) ≡ (if k == j then none else lookup j m)
  unfolding lookup erase
  lookup-erase k j [] = ground arith
  lookup-erase k j ((i, v) ∷ m) =
      ground (arith, lookup-erase k j m, eq_iff i k, eq_iff i j, eq_iff k j)

  pub lookup-insert :
      (new asked : String) (v : V) (m : Dict V)
      → lookup asked (insert new v m) ≡ (if new == asked then some v else lookup asked m)
  unfolding lookup insert
  lookup-insert new asked v m = ground (arith, lookup-erase new asked m)

abbrev pub keep_value {ℓ} : {V : Type ℓ} → (V → Bool) → Option V → Option V
keep_value p none = none
keep_value p (some v) = if p v then some v else none

module _ {ℓ} {V : Type ℓ} (p : V → Bool) where
  lookup-keep_of_absent : (j : String) (m : Dict V) → lookup j m ≡ none → lookup j (keep p m) ≡ none
  unfolding lookup keep
  lookup-keep_of_absent j [] h = refl
  lookup-keep_of_absent j ((i, v) ∷ m) h = ground (arith, lookup-keep_of_absent j m)

  pub lookup-keep :
      (j : String) (m : Dict V) → NodupKeys m → lookup j (keep p m) ≡ keep_value p (lookup j m)
  unfolding lookup keep
  lookup-keep j [] u = refl
  lookup-keep j ((i, v) ∷ m) (fresh, u) =
      ground (arith, lookup-keep j m u, lookup-keep_of_absent i m, eq_iff i j)

  pub keep-NodupKeys : (m : Dict V) → NodupKeys m → NodupKeys (keep p m)
  unfolding keep
  keep-NodupKeys [] u = tt
  keep-NodupKeys ((i, v) ∷ m) (fresh, u) =
      ground (arith, keep-NodupKeys m u, lookup-keep_of_absent i m)

module _ {ℓ} {V : Type ℓ} where
  pub erase-NodupKeys : (k : String) (m : Dict V) → NodupKeys m → NodupKeys (erase k m)
  unfolding erase
  erase-NodupKeys k [] u = tt
  erase-NodupKeys k ((i, v) ∷ m) (fresh, u) =
      ground (arith, erase-NodupKeys k m u, lookup-erase k i m)

  pub insert-NodupKeys : (k : String) (v : V) (m : Dict V) → NodupKeys m → NodupKeys (insert k v m)
  unfolding insert
  insert-NodupKeys k v m u = ground (arith, erase-NodupKeys k m u, lookup-erase k k m, eq_iff k k)
