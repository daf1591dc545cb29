-- ===== src/Prelude/Int.antt =====
-- Go's signed integers: the integers, and the wrap-around of int64.
use Prim.Native.Nat.{ℕ, suc, ◌+◌, ◌-◌, ◌%◌, ◌^◌, ◌≤◌, ◌<◌}
use mathlib.Core.Path.{◌≡◌}
use mathlib.Core.Bool.{Bool, true}
use native.Mathlib.Omega.{arith}
use apipact_agent.Prelude.Tests.{ltb, leb, if◌then◌else◌}

-- `negsuc n` is -(n + 1).
pub data ℤ : Type 0 where
  pos : ℕ → ℤ
  negsuc : ℕ → ℤ

abbrev pub pos_part : ℤ → ℕ
pos_part (pos n) = n
pos_part (negsuc n) = 0

abbrev pub neg_part : ℤ → ℕ
neg_part (pos n) = 0
neg_part (negsuc n) = suc n

-- a - b, as an integer.
abbrev pub sub_ℕ : ℕ → ℕ → ℤ
sub_ℕ a b = if leb b a then pos (a - b) else negsuc (b - a - 1)

infix 50 ◌≤ℤ◌ ◌<ℤ◌
abbrev pub ◌≤ℤ◌ : ℤ → ℤ → Type 0
a ≤ℤ b = pos_part a + neg_part b ≤ pos_part b + neg_part a

abbrev pub ◌<ℤ◌ : ℤ → ℤ → Type 0
a <ℤ b = pos_part a + neg_part b < pos_part b + neg_part a

abbrev pub ltb_ℤ : ℤ → ℤ → Bool
ltb_ℤ a b = ltb (pos_part a + neg_part b) (pos_part b + neg_part a)

-- `x <= 0`, the test by which the agent reads "not set" in its integer options.
abbrev pub not_positive : ℤ → Bool
not_positive (pos n) = leb n 0
not_positive (negsuc n) = true

infixl 65 ◌-ℤ◌
unfoldable pub ◌-ℤ◌ : ℤ → ℤ → ℤ
a -ℤ b = sub_ℕ (pos_part a + neg_part b) (neg_part a + pos_part b)

pub -ℤ_parts :
    (a b : ℤ)
    → pos_part (a -ℤ b) + neg_part a + pos_part b ≡ neg_part (a -ℤ b) + pos_part a + neg_part b
unfolding ◌-ℤ◌
-ℤ_parts a b = ground arith

-- The value that an int64 holds after z is stored in it.
unfoldable pub wrap64 : ℤ → ℤ
wrap64 z = sub_ℕ ((pos_part z + 2 ^ 63 + (2 ^ 64 - neg_part z % 2 ^ 64)) % 2 ^ 64) (2 ^ 63)

-- The range of int64.
abbrev pub In64 : ℤ → Type 0
In64 z = (pos_part z < 2 ^ 63) × (neg_part z ≤ 2 ^ 63)

-- In range nothing wraps.
pub wrap64_of_In64 : (z : ℤ) → In64 z → wrap64 z ≡ z
unfolding wrap64
wrap64_of_In64 (pos n) h = ground arith
wrap64_of_In64 (negsuc n) h = ground arith
