-- ===== src/Executor/Text.antt =====
-- The functions of Go's strings package that the engine calls: TrimSpace, and EqualFold against a
-- text of ASCII letters and hyphens.
use Prim.Native.Char.{Char, code}
use apipact_agent.Prelude.{ℕ, ◌+◌, String, Bool, true, false, ◌&&◌, ◌||◌, leb, ◌==◌, if◌then◌else◌}

-- unicode.IsSpace
unfoldable pub is_space : Char → Bool
is_space c =
    let n = code c in
    (leb 0x09 n && leb n 0x0d)
    || n == 0x20
    || n == 0x85
    || n == 0xa0
    || n == 0x1680
    || (leb 0x2000 n && leb n 0x200a)
    || n == 0x2028
    || n == 0x2029
    || n == 0x202f
    || n == 0x205f
    || n == 0x3000

unfoldable pub is_blank : String → Bool
is_blank String.[] = true
is_blank (String.◌∷◌ c s) = is_space c && is_blank s

unfoldable pub trim_left : String → String
trim_left String.[] = String.[]
trim_left (String.◌∷◌ c s) = let rest = trim_left s in if is_space c then rest else String.◌∷◌ c s

unfoldable pub trim_right : String → String
trim_right String.[] = String.[]
trim_right (String.◌∷◌ c s) =
    let rest = trim_right s in if is_space c && is_blank s then String.[] else String.◌∷◌ c rest

-- strings.TrimSpace
unfoldable pub trim_space : String → String
unfolding trim_left trim_right is_space is_blank
trim_space s = trim_right (trim_left s)

-- The lower-case ASCII letter that a character folds to: the long s and the Kelvin sign fold to
-- letters, as Unicode has it.
unfoldable pub fold_code : ℕ → ℕ
fold_code n =
    if leb b'A' n && leb n b'Z'
    then n + 32
    else if n == 0x17f
    then b's'
    else if n == 0x212a
    then b'k'
    else n

-- strings.EqualFold
unfoldable pub equal_fold : String → String → Bool
unfolding fold_code
equal_fold String.[] String.[] = true
equal_fold (String.◌∷◌ c s) (String.◌∷◌ d t) =
    fold_code (code c) == fold_code (code d) && equal_fold s t
equal_fold _ _ = false
