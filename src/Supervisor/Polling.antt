-- ===== src/Supervisor/Polling.antt =====
-- internal/supervisor/supervisor.go: waitReady's polls of the worker, and updateLoop's interval. The
-- clock, the context and the worker's answers are a sequence of polls; times are in milliseconds.
pub mod Returns
use apipact_agent.Prelude.{
  ℕ, zero, suc, ◌+◌, ◌-◌, String, ◌≡◌, inl, inr, Bool, false, not, Option, none, some, arith, ◌=ₛ◌,
  ltb, ◌==◌, if◌then◌else◌, Option-cases,
}
use apipact_agent.Prelude.Int.{ℤ, pos, not_positive}

-- One turn of waitReady's loop: the time at its head, whether the context has ended there, the
-- status that GET /readyz answers, if it does, and whether the context ends during the pause.
pub record Poll : Type 0 where
  pub now : ℕ
  pub stopping : Bool
  pub status : Option ℕ
  pub stopped_in_pause : Bool

-- waitReady's nil, ctx.Err() and "worker did not become ready in time"
pub data Verdict : Type 0 where
  ready interrupted late : Verdict

-- err == nil && resp.StatusCode == http.StatusOK
unfoldable pub answers_ok : Option ℕ → Bool
answers_ok none = false
answers_ok (some n) = n == 200

-- The loop of waitReady from its i-th turn on. None: the fuel has run out.
unfoldable pub wait_from : ℕ → (ℕ → Poll) → ℕ → ℕ → Option Verdict
unfolding answers_ok
wait_from zero polls deadline i = none
wait_from (suc fuel) polls deadline i =
    let rest = wait_from fuel polls deadline (suc i) in
    if not (ltb (polls i).now deadline)
    then some late
    else if (polls i).stopping
    then some interrupted
    else if answers_ok (polls i).status
    then some ready
    else if (polls i).stopped_in_pause
    then some interrupted
    else rest

-- waitReady, called at a time and with a timeout, with a fuel for that many turns.
unfoldable pub wait_ready : ℕ → (ℕ → Poll) → ℕ → ℕ → Option Verdict
unfolding wait_from
wait_ready fuel polls start timeout = wait_from fuel polls (start + timeout) 0

abbrev pub default_poll_interval : ℤ
default_poll_interval = pos 300_000_000_000

-- The interval of updateLoop's ticker in nanoseconds, with time.ParseDuration.
unfoldable pub poll_interval : (String → Option ℤ) → String → ℤ
poll_interval parse_duration text =
    if text =ₛ "" then default_poll_interval else elim (parse_duration text) [
      | none ↦ default_poll_interval
      | some d ↦ if not_positive d then default_poll_interval else d
    ]

-- time.NewTicker gets a positive interval.
poll_interval-positive :
    (parse_duration : String → Option ℤ) (text : String)
    → not_positive (poll_interval parse_duration text) ≡ false
unfolding poll_interval
poll_interval-positive parse_duration text = elim (Option-cases (parse_duration text)) [
  | inl q ↦ rw (q, poll_interval) (ground arith)
  | inr (d, q) ↦ rw (q, poll_interval) (ground arith)
]
