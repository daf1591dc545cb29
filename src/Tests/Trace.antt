-- ===== src/Tests/Trace.antt =====
-- internal/executor/executor.go, traceTimer: two connections that race, of which one ends late.
use apipact_agent.Prelude.{ℕ, ◌≡◌, refl, List, [], ◌∷◌, arith}
use apipact_agent.Prelude.Int.{pos}
use apipact_agent.Executor.Trace.{
  ms_since, new_timer, fire, fire_all, snapshot, take_snapshot, Hook, dns_start, dns_done,
  connect_start, connect_done, first_byte,
}
use apipact_agent.Executor.Trace.Bounds.{IsBounded, snapshot-IsBounded}

abbrev racing : List (ℕ × Hook)
racing =
    (1_000_000, dns_start)
    ∷ (3_000_000, dns_done)
    ∷ (3_000_000, connect_start)
    ∷ (4_000_000, connect_start)
    ∷ (9_000_000, connect_done)
    ∷ (12_000_000, first_byte)
    ∷ (13_000_000, connect_done)
    ∷ []

traced :
    (take_snapshot 15_000_000 [] (fire_all racing (new_timer 1_000_000))).connect_ms ≡ pos 9_000
unfolding take_snapshot snapshot fire_all fire ms_since
traced = refl

-- A dial that ends after the total was read, and before the copy.
abbrev lingering : List (ℕ × Hook)
lingering = (16_000_000, connect_done) ∷ []

abbrev early_dial : List (ℕ × Hook)
early_dial = (1_000_000, connect_start) ∷ []

-- The connection takes more than the total.
exceeds_total :
    let t = take_snapshot 15_000_000 lingering (fire_all early_dial (new_timer 1_000_000)) in
    (t.total_ms ≡ pos 14_000) × (t.connect_ms ≡ pos 15_000)
unfolding take_snapshot snapshot fire_all fire ms_since
exceeds_total = (refl, refl)

snapshot-IsBounded_example :
    IsBounded 1_000_000 15_000_000 17_000_000 lingering
      (take_snapshot 15_000_000 lingering (fire_all racing (new_timer 1_000_000)))
snapshot-IsBounded_example =
    snapshot-IsBounded 1_000_000 15_000_000 17_000_000 racing lingering (ground arith)
      (ground arith)
