-- ===== src/Reporter/Backoff.antt =====
-- internal/reporter/reporter.go: backoff, the pause before a further attempt, in nanoseconds.
-- math/rand's Int63n is an argument; it panics on a bound that is not positive.
use native.Mathlib.Nat.{pow-le-pow_right, one-le-pow}
use apipact_agent.Reporter.{Courier}
use apipact_agent.Prelude.{
  ℕ, ◌+◌, ◌-◌, ◌*◌, ◌/◌, ◌^◌, ◌≤◌, ◌<◌, min, String, ◌≡◌, Bool, true, Option, none, some, arith,
  ◌==◌, if◌then◌else◌,
}
use apipact_agent.Prelude.Int.{ℤ, pos, pos_part, ltb_ℤ, wrap64, wrap64_of_In64}

-- 250 * time.Millisecond * time.Duration(1<<uint(attempt-1)) in int64, for attempt = n + 1: the
-- factors wrap to the same number as their product.
unfoldable pub backoff_base : ℕ → ℤ
unfolding wrap64
backoff_base n =
    let base = wrap64 (pos (250_000_000 * 2 ^ n)) in
    if ltb_ℤ (pos 8_000_000_000) base then pos 8_000_000_000 else base

-- backoff(n + 1); there is no result if Int63n panics. int64(base)/2 is 0 or less if base is.
unfoldable pub backoff : (ℕ → ℕ) → ℕ → Option ℕ
unfolding backoff_base
backoff int63n n =
    let half = pos_part (backoff_base n) / 2 in
    if half == 0 then none else some (half + int63n half)

-- The pause that backoff means: it doubles from a quarter of a second up to eight seconds.
abbrev pub full_pause : ℕ → ℕ
full_pause n = min (250_000_000 * 2 ^ n) 8_000_000_000

-- Up to the 36th attempt the product fits in an int64.
backoff_base_lem : (n : ℕ) → n ≤ 35 → backoff_base n ≡ pos (full_pause n)
unfolding backoff_base
backoff_base_lem n h =
    let top : 2 ^ n ≤ 2 ^ 35 = pow-le-pow_right (omega arith) h in
    let fits = wrap64_of_In64 (pos (250_000_000 * 2 ^ n)) (omega arith, omega arith) in
    rw fits (ground arith)

-- Up to the 36th attempt backoff does not panic, whatever the random source, and waits at least half
-- of its full pause and less than all of it; the full pause is from a quarter of a second to eight
-- seconds, and doubles in between.
pub backoff_bounds :
    (int63n : ℕ → ℕ) (n : ℕ)
    → ((m : ℕ) → 0 < m → int63n m < m)
    → n ≤ 35
    → (d : ℕ) × (backoff int63n n ≡ some d)
      × (full_pause n ≤ 2 * d)
      × (d < full_pause n)
      × (125_000_000 ≤ d)
      × (d < 8_000_000_000)
unfolding backoff
backoff_bounds int63n n random h =
    let some_pause : 1 ≤ 2 ^ n = one-le-pow n 2 (omega arith) in
    let half = full_pause n / 2 in
    let drawn : int63n half < half = random half (omega arith) in
    (
      half + int63n half,
      rw (backoff, backoff_base_lem n h) (ground arith),
      omega arith,
      omega arith,
      omega arith,
      omega arith,
    )

-- The world of a courier whose pauses are those of backoff: the nanoseconds that it has slept, and
-- whether backoff has panicked.
pub record Timed (W : Type 0) : Type 0 where
  pub world : W
  pub slept : ℕ
  pub panicked : Bool

module _ (net : Courier) (int63n : ℕ → ℕ) (sleep : ℕ → net.World → Option String × net.World) where
  -- sleep(ctx, backoff(attempt)), before an attempt that is not the first
  unfoldable pub wait_backoff : ℕ → Timed net.World → Option String × Timed net.World
  unfolding backoff
  wait_backoff attempt s = elim (backoff int63n (attempt - 1)) [
    | none ↦ (some "panic", record s { panicked = true })
    | some d ↦
        let (late, w) = sleep d s.world in (late, record s { world = w; slept = s.slept + d })
  ]

  -- The courier with these pauses
  abbrev pub paced : Courier
  paced = record {
    World = Timed net.World;
    publish = λ channel body s.
        let (e, w) = net.publish channel body s.world in (e, record s { world = w });
    request_error = net.request_error;
    post = λ url body s. let (e, w) = net.post url body s.world in (e, record s { world = w });
    wait = wait_backoff;
  }
