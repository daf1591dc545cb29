-- ===== src/Executor/Trace/Bounds.antt =====
-- internal/executor/executor.go, traceTimer: how the timings of an exchange relate to its total.
use apipact_agent.Prelude.{
  ℕ, ◌-◌, ◌/◌, ◌≤◌, ◌≡◌, refl, ap, ◌∙◌, Option, none, some, List, [], ◌∷◌, arith,
}
use apipact_agent.Prelude.Int.{ℤ, pos, ◌≤ℤ◌}
use apipact_agent.Protocol.{Timing}
use apipact_agent.Executor.Trace.{
  ms_since, new_timer, fire, fire_all, snapshot, take_snapshot, TraceTimer, Hook, dns_start,
  dns_done, connect_start, connect_done, tls_start, tls_done, first_byte,
}

-- Readings of a clock that does not go back, between two times.
abbrev pub Ordered : ℕ → List (ℕ × Hook) → ℕ → Type 0
Ordered lo [] hi = lo ≤ hi
Ordered lo ((now, h) ∷ hooks) hi = (lo ≤ now) × Ordered now hooks hi

-- A mark that stands between the start and now.
abbrev Marked : ℕ → ℕ → Option ℕ → Type 0
Marked start now none = Unit
Marked start now (some t) = (start ≤ t) × (t ≤ now)

-- A duration within the time since the start.
abbrev Within : ℕ → ℕ → ℤ → Type 0
Within start now d = (pos 0 ≤ℤ d) × (d ≤ℤ pos ((now - start) / 1000))

abbrev AllWithin : ℕ → ℕ → Timing → Type 0
AllWithin start now t =
    Within start now t.dns_ms
    × Within start now t.connect_ms
    × Within start now t.tls_ms
    × Within start now t.ttfb_ms

-- The state of a timer whose last hook ran at `now` or before.
abbrev IsTimed : ℕ → TraceTimer → Type 0
IsTimed now t =
    (t.start ≤ now)
    × Marked t.start now t.dns_at
    × Marked t.start now t.conn_at
    × Marked t.start now t.tls_at
    × AllWithin t.start now t.timing

Marked-later :
    (start now later : ℕ) (m : Option ℕ) → now ≤ later → Marked start now m → Marked start later m
Marked-later start now later none h k = tt
Marked-later start now later (some t) h k = (k.0, omega (arith, h, k.1))

Within-later :
    (start now later : ℕ) (d : ℤ) → now ≤ later → Within start now d → Within start later d
Within-later start now later d h (k, l) = (k, omega (arith, h, l))

ms_since-Within :
    (start now : ℕ) (m : Option ℕ) → Marked start now m → Within start now (ms_since now m)
unfolding ms_since
ms_since-Within start now none h = (omega arith, omega arith)
ms_since-Within start now (some t) h = ground (arith, h.0, h.1)

AllWithin-later :
    (start now later : ℕ) (t : Timing)
    → now ≤ later
    → AllWithin start now t
    → AllWithin start later t
AllWithin-later start now later t h (d, c, l, f) = (
  Within-later start now later t.dns_ms h d,
  Within-later start now later t.connect_ms h c,
  Within-later start now later t.tls_ms h l,
  Within-later start now later t.ttfb_ms h f,
)

later-IsTimed : (now later : ℕ) (t : TraceTimer) → now ≤ later → IsTimed now t → IsTimed later t
later-IsTimed now later t h (b, d, c, l, w) = (
  omega (arith, h, b),
  Marked-later t.start now later t.dns_at h d,
  Marked-later t.start now later t.conn_at h c,
  Marked-later t.start now later t.tls_at h l,
  AllWithin-later t.start now later t.timing h w,
)

fire-IsTimed : (now : ℕ) (h : Hook) (t : TraceTimer) → IsTimed now t → IsTimed now (fire now h t)
unfolding fire
fire-IsTimed now dns_start t (b, d, c, l, w) = (b, (b, omega arith), c, l, w)
fire-IsTimed now connect_start t (b, d, c, l, w) = (b, d, (b, omega arith), l, w)
fire-IsTimed now tls_start t (b, d, c, l, w) = (b, d, c, (b, omega arith), w)
fire-IsTimed now dns_done t (b, d, c, l, (x, y, z, f)) =
    (b, d, c, l, (ms_since-Within t.start now t.dns_at d, y, z, f))
fire-IsTimed now connect_done t (b, d, c, l, (x, y, z, f)) =
    (b, d, c, l, (x, ms_since-Within t.start now t.conn_at c, z, f))
fire-IsTimed now tls_done t (b, d, c, l, (x, y, z, f)) =
    (b, d, c, l, (x, y, ms_since-Within t.start now t.tls_at l, f))
fire-IsTimed now first_byte t (b, d, c, l, (x, y, z, f)) =
    (b, d, c, l, (x, y, z, ms_since-Within t.start now (some t.start) (omega arith, b)))

fire_start : (now : ℕ) (h : Hook) (t : TraceTimer) → (fire now h t).start ≡ t.start
unfolding fire
fire_start now dns_start t = refl
fire_start now dns_done t = refl
fire_start now connect_start t = refl
fire_start now connect_done t = refl
fire_start now tls_start t = refl
fire_start now tls_done t = refl
fire_start now first_byte t = refl

fire_all-IsTimed :
    (lo hi : ℕ) (hooks : List (ℕ × Hook)) (t : TraceTimer)
    → Ordered lo hooks hi
    → IsTimed lo t
    → IsTimed hi (fire_all hooks t) × ((fire_all hooks t).start ≡ t.start)
unfolding fire_all
fire_all-IsTimed lo hi [] t o x = (later-IsTimed lo hi t o x, refl)
fire_all-IsTimed lo hi ((now, h) ∷ hooks) t (p, o) x =
    let (y, e) =
      fire_all-IsTimed now hi hooks (fire now h t) o
        (fire-IsTimed now h t (later-IsTimed lo now t p x)) in
    (y, e ∙ fire_start now h t)

-- A timing whose parts lie between zero and a limit
abbrev pub PartsWithin : ℤ → Timing → Type 0
PartsWithin limit t =
    ((pos 0 ≤ℤ t.dns_ms) × (t.dns_ms ≤ℤ limit))
    × ((pos 0 ≤ℤ t.connect_ms) × (t.connect_ms ≤ℤ limit))
    × ((pos 0 ≤ℤ t.tls_ms) × (t.tls_ms ≤ℤ limit))
    × ((pos 0 ≤ℤ t.ttfb_ms) × (t.ttfb_ms ≤ℤ limit))

-- A timing whose total is the time from start to the reading, and whose parts are at most the time
-- from start to the copy; without a hook between the two, they are at most the total.
abbrev pub IsBounded : ℕ → ℕ → ℕ → List (ℕ × Hook) → Timing → Type 0
IsBounded start read copied between t =
    (t.total_ms ≡ pos ((read - start) / 1000))
    × PartsWithin (pos ((copied - start) / 1000)) t
    × (between ≡ [] → PartsWithin t.total_ms t)

ms_since-some :
    (start now : ℕ) → start ≤ now → ms_since now (some start) ≡ pos ((now - start) / 1000)
unfolding ms_since
ms_since-some start now h = ground (arith, h)

-- The timings of an exchange whose hooks ran in any order, with readings of a clock that does not go
-- back: some before the caller of snapshot reads the clock, and some between this and the copy that
-- snapshot makes. The total is the time from the start to the reading; the lookup, the connection, the
-- handshake and the first byte took no less than zero and no more than the time up to the copy; and no
-- more than the total, if no hook ran between the reading and the copy.
pub snapshot-IsBounded :
    (start read copied : ℕ) (before between : List (ℕ × Hook))
    → Ordered start before read
    → Ordered read between copied
    → IsBounded start read copied between
        (take_snapshot read between (fire_all before (new_timer start)))
unfolding take_snapshot snapshot fire_all
snapshot-IsBounded start read copied before between o p =
    let zero_in : Within start start (pos 0) = (omega arith, omega arith) in
    let (x, e) =
      fire_all-IsTimed start read before (new_timer start) o
        (omega arith, tt, tt, tt, (zero_in, zero_in, zero_in, zero_in)) in
    let timer = fire_all before (new_timer start) in
    let (y, f) = fire_all-IsTimed read copied between timer p x in
    let (_, _, _, _, parts) = x in
    let (_, _, _, _, all_parts) = y in
    let total : ms_since read (some timer.start) ≡ pos ((read - start) / 1000) =
      ms_since-some timer.start read x.0 ∙ ap (λ s. pos ((read - s) / 1000)) e in
    (total, rw (f ∙ e) at all_parts, λ n. rw n (rw total (rw e at parts)))
