-- ===== src/Supervisor/Polling/Returns.antt =====
-- internal/supervisor/supervisor.go, waitReady: that it returns, and with which result.
use apipact_agent.Prelude.{
  ℕ, zero, suc, ◌+◌, ◌*◌, ◌≤◌, ◌<◌, ◌≡◌, refl, ◌∙◌, ◌≢◌, ◌↔◌, ◌⊎◌, inl, inr, true, false, Option,
  none, some, arith, ltb, ◌==◌, Bool-cases,
}
use apipact_agent.Supervisor.Polling.{
  answers_ok, wait_from, wait_ready, Poll, Verdict, ready, interrupted, late,
}

-- A turn after which the loop goes on.
abbrev Pending : Poll → ℕ → Type 0
Pending p deadline =
    (p.now < deadline)
    × (p.stopping ≡ false)
    × (answers_ok p.status ≡ false)
    × (p.stopped_in_pause ≡ false)

-- A turn that ends the loop with a verdict.
abbrev Decides : Verdict → Poll → ℕ → Type 0
Decides ready p deadline = (p.now < deadline) × (p.stopping ≡ false) × (p.status ≡ some 200)
Decides interrupted p deadline =
    (p.now < deadline)
    × ((p.stopping ≡ true) ⊎ ((p.status ≢ some 200) × (p.stopped_in_pause ≡ true)))
Decides late p deadline = deadline ≤ p.now

-- The loop goes on up to the k-th turn, which gives the verdict.
pub record IsVerdict (polls : ℕ → Poll) (deadline i : ℕ) (v : Verdict) : Type 0 where
  pub turn : ℕ
  pub later : i ≤ turn
  pub pending : (j : ℕ) → i ≤ j → j < turn → Pending (polls j) deadline
  pub decides : Decides v (polls turn) deadline

abbrev Spaced : (ℕ → Poll) → Type 0
Spaced polls = (i : ℕ) → (polls i).now + 500 ≤ (polls (suc i)).now

at_once :
    (polls : ℕ → Poll) (deadline i : ℕ) (v : Verdict)
    → Decides v (polls i) deadline
    → IsVerdict polls deadline i v
at_once polls deadline i v d = record {
  turn = i;
  later = omega arith;
  pending = λ j a b. absurd (omega (arith, a, b));
  decides = d;
}

after_pause :
    (polls : ℕ → Poll) (deadline i : ℕ) (v : Verdict)
    → Pending (polls i) deadline
    → IsVerdict polls deadline (suc i) v
    → IsVerdict polls deadline i v
after_pause polls deadline i v p r = record {
  turn = r.turn;
  later = omega (arith, r.later);
  pending = λ j a b. elim (Bool-cases (j == i)) [
    | inl e ↦ let same : j ≡ i = ground arith in rw same p
    | inr e ↦ r.pending j (ground arith) b
  ];
  decides = r.decides;
}

answers_ok_iff : (s : Option ℕ) → (answers_ok s ≡ true) ↔ (s ≡ some 200)
unfolding answers_ok
answers_ok_iff none = ground arith
answers_ok_iff (some n) = ground arith

-- One turn ends with a verdict or goes on.
wait_from-turn :
    (fuel : ℕ) (polls : ℕ → Poll) (deadline i : ℕ)
    → ((v : Verdict) × (wait_from (suc fuel) polls deadline i ≡ some v)
        × Decides v (polls i) deadline)
      ⊎ (Pending (polls i) deadline
          × (wait_from (suc fuel) polls deadline i ≡ wait_from fuel polls deadline (suc i)))
unfolding wait_from
wait_from-turn fuel polls deadline i = elim (Bool-cases (ltb (polls i).now deadline)) [
  | inr a ↦ inl (late, rw (a, wait_from) refl, ground arith)
  | inl a ↦ elim (Bool-cases (polls i).stopping) [
    | inl b ↦ inl (interrupted, rw (a, b, wait_from) refl, (ground arith, inl b))
    | inr b ↦ elim (Bool-cases (answers_ok (polls i).status)) [
      | inl c ↦ inl (
        ready,
        rw (a, b, c, wait_from) refl,
        (ground arith, b, (answers_ok_iff (polls i).status).0 c),
      )
      | inr c ↦ elim (Bool-cases (polls i).stopped_in_pause) [
        | inl d ↦ inl (
          interrupted,
          rw (a, b, c, d, wait_from) refl,
          (ground arith, inr (ground (arith, answers_ok_iff (polls i).status), d)),
        )
        | inr d ↦ inr ((ground arith, b, c, d), rw (a, b, c, d, wait_from) refl)
      ]
    ]
  ]
]

wait_from-returns :
    (n : ℕ) (polls : ℕ → Poll) (deadline i : ℕ)
    → Spaced polls
    → deadline ≤ (polls i).now + n * 500
    → (v : Verdict) × (wait_from (suc n) polls deadline i ≡ some v) × IsVerdict polls deadline i v
wait_from-returns zero polls deadline i sp l = elim (wait_from-turn 0 polls deadline i) [
  | inl (v, e, d) ↦ (v, e, at_once polls deadline i v d)
  | inr ((p, _, _, _), _) ↦ absurd (omega (arith, l, p))
]
wait_from-returns (suc n) polls deadline i sp l = elim (wait_from-turn (suc n) polls deadline i) [
  | inl (v, e, d) ↦ (v, e, at_once polls deadline i v d)
  | inr (p, e) ↦
      let (v, f, r) = wait_from-returns n polls deadline (suc i) sp (omega (arith, l, sp i)) in
      (v, e ∙ f, after_pause polls deadline i v p r)
]

-- waitReady returns, after at most one turn for each 500 milliseconds of its timeout and one more,
-- when the pauses are at least that long and no turn precedes the call: with nil at the first turn
-- before the deadline that answers 200, with the context's error where that ends first, and
-- otherwise with "worker did not become ready in time" at the first turn after the deadline.
pub wait_ready_returns :
    (n start timeout : ℕ) (polls : ℕ → Poll)
    → Spaced polls
    → start ≤ (polls 0).now
    → timeout ≤ n * 500
    → (v : Verdict) × (wait_ready (suc n) polls start timeout ≡ some v)
      × IsVerdict polls (start + timeout) 0 v
unfolding wait_ready
wait_ready_returns n start timeout polls sp a b =
    wait_from-returns n polls (start + timeout) 0 sp (omega (arith, a, b))
