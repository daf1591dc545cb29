-- ===== src/Executor/Trace.antt =====
-- internal/executor/executor.go: traceTimer, its hooks and snapshot, and msSince. A hook reads the
-- clock, in nanoseconds, while it holds the mutex, so that the hooks of an exchange are a sequence,
-- whichever goroutines they run in. A duration is kept in microseconds, before its division by 1000.
pub mod Bounds
use apipact_agent.Prelude.{ℕ, ◌-◌, ◌/◌, Option, none, some, List, [], ◌∷◌, leb, if◌then◌else◌}
use apipact_agent.Prelude.Int.{ℤ, pos, sub_ℕ}
use apipact_agent.Protocol.{Timing}
use apipact_agent.Executor.Execute.{no_timing}

-- traceTimer; a mark that is not set is the zero time.
pub record TraceTimer : Type 0 where
  pub start : ℕ
  pub dns_at : Option ℕ
  pub conn_at : Option ℕ
  pub tls_at : Option ℕ
  pub timing : Timing

-- The hooks of trace
pub data Hook : Type 0 where
  dns_start dns_done connect_start connect_done tls_start tls_done first_byte : Hook

-- msSince at a reading of the clock
unfoldable pub ms_since : ℕ → Option ℕ → ℤ
ms_since now none = pos 0
ms_since now (some t) = if leb t now then pos ((now - t) / 1000) else sub_ℕ 0 ((t - now) / 1000)

abbrev pub new_timer : ℕ → TraceTimer
new_timer start = record {
  start = start;
  dns_at = none;
  conn_at = none;
  tls_at = none;
  timing = no_timing;
}

-- A hook that runs at a reading of the clock
unfoldable pub fire : ℕ → Hook → TraceTimer → TraceTimer
unfolding ms_since
fire now dns_start timer = record timer { dns_at = some now }
fire now dns_done timer = record timer {
  timing = record timer.timing { dns_ms = ms_since now timer.dns_at };
}
fire now connect_start timer = record timer { conn_at = some now }
fire now connect_done timer = record timer {
  timing = record timer.timing { connect_ms = ms_since now timer.conn_at };
}
fire now tls_start timer = record timer { tls_at = some now }
fire now tls_done timer = record timer {
  timing = record timer.timing { tls_ms = ms_since now timer.tls_at };
}
fire now first_byte timer = record timer {
  timing = record timer.timing { ttfb_ms = ms_since now (some timer.start) };
}

unfoldable pub fire_all : List (ℕ × Hook) → TraceTimer → TraceTimer
unfolding fire
fire_all [] timer = timer
fire_all ((now, h) ∷ hooks) timer = fire_all hooks (fire now h timer)

-- snapshot, on the total that its caller has computed before
unfoldable pub snapshot : ℤ → TraceTimer → Timing
snapshot total timer = record timer.timing { total_ms = total }

-- tt.snapshot(msSince(tt.start)): the argument reads the clock before snapshot takes the mutex, and
-- hooks of a goroutine that lingers may run between the two.
unfoldable pub take_snapshot : ℕ → List (ℕ × Hook) → TraceTimer → Timing
unfolding ms_since fire_all snapshot
take_snapshot now between timer =
    let total = ms_since now (some timer.start) in snapshot total (fire_all between timer)
