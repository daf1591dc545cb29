-- ===== src/Update/Version.antt =====
-- internal/update/manifest.go: parseSemver, isNewer and ShouldUpdate.
pub mod Order
use Prim.Native.Char.{Char, code}
use apipact_agent.Prelude.{
  ℕ, ◌+◌, ◌-◌, ◌*◌, ◌^◌, String, Bool, false, ◌&&◌, ◌||◌, not, Option, none, some, List, [], ◌∷◌,
  ◌=ₛ◌, ltb, leb, ◌==◌, if◌then◌else◌,
}
use apipact_agent.Executor.Text.{trim_space}

-- The digits of strconv.Atoi, read onto an accumulator.
unfoldable pub digits : ℕ → String → Option ℕ
digits acc String.[] = some acc
digits acc (String.◌∷◌ c s) =
    let rest = digits (acc * 10 + (code c - b'0')) s in
    if leb b'0' (code c) && leb (code c) b'9' then rest else none

-- strconv.Atoi on a text without a sign: it is empty, has another character, or is out of range.
unfoldable pub atoi : String → Option ℕ
unfolding digits
atoi s =
    if s =ₛ ""
    then none
    else elim (digits 0 s) [ none ↦ none | some n ↦ if ltb n (2 ^ 63) then some n else none ]

unfoldable pub onto_first : Char → List String → List String
onto_first c [] = String.◌∷◌ c "" ∷ []
onto_first c (p ∷ ps) = String.◌∷◌ c p ∷ ps

-- strings.Split at the dots
unfoldable pub split_dots : String → List String
unfolding onto_first
split_dots String.[] = "" ∷ []
split_dots (String.◌∷◌ c s) =
    let rest = split_dots s in if code c == b'.' then "" ∷ rest else onto_first c rest

-- The text before the first hyphen or plus.
unfoldable pub drop_suffix : String → String
drop_suffix String.[] = String.[]
drop_suffix (String.◌∷◌ c s) =
    let rest = drop_suffix s in
    if code c == b'-' || code c == b'+' then String.[] else String.◌∷◌ c rest

-- strings.TrimPrefix(v, "v")
unfoldable pub trim_v : String → String
trim_v String.[] = String.[]
trim_v (String.◌∷◌ c s) = if code c == b'v' then s else String.◌∷◌ c s

abbrev pub Semver : Type 0
Semver = ℕ × ℕ × ℕ

unfoldable pub three_numbers : List String → Option Semver
unfolding atoi
three_numbers (a ∷ b ∷ c ∷ []) = elim (atoi a) [
  | none ↦ none
  | some x ↦ elim (atoi b) [
    | none ↦ none
    | some y ↦ elim (atoi c) [ none ↦ none | some z ↦ some (x, y, z) ]
  ]
]
three_numbers _ = none

-- parseSemver
unfoldable pub parse_semver : String → Option Semver
unfolding trim_space trim_v drop_suffix split_dots three_numbers
parse_semver v = three_numbers (split_dots (drop_suffix (trim_v (trim_space v))))

-- The loop of isNewer over the three numbers.
unfoldable pub newer_numbers : Semver → Semver → Bool
newer_numbers (a, b, c) (x, y, z) =
    if not (a == x)
    then ltb x a
    else if not (b == y)
    then ltb y b
    else if not (c == z)
    then ltb z c
    else false

unfoldable pub differs : String → String → Bool
differs a b = not (a =ₛ b) && not (a =ₛ "") && not (a =ₛ "dev")

-- isNewer
unfoldable pub is_newer : String → String → Bool
is_newer a b = elim (parse_semver a) [
  | none ↦ differs a b
  | some p ↦ elim (parse_semver b) [ none ↦ differs a b | some q ↦ newer_numbers p q ]
]

-- ShouldUpdate, for a manifest of this version
unfoldable pub should_update : String → String → String → Bool
should_update current pinned version =
    if not (pinned =ₛ "")
    then version =ₛ pinned && not (version =ₛ current)
    else is_newer version current
