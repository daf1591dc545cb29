-- ===== src/Worker/Pool/Invariant.antt =====
-- internal/worker/worker.go: what the two semaphores of execRequests count.
use apipact_agent.Prelude.{
  ℕ, ◌+◌, ◌*◌, ◌≤◌, ◌<◌, ◌≡◌, refl, ◌⊎◌, inl, inr, List, [], ◌∷◌, map, arith, ltb, Bool-cases,
  length,
}
use apipact_agent.Protocol.{RequestSpec, ResponseResult}
use apipact_agent.Worker.Requests.{Engine}
use apipact_agent.Worker.Pool.{
  start_cell, Phase, Cell, Slots, Capacity, Move, Turn, Run, queued, admitted, executing, answered,
  finished, enter, acquire, answer, finish, here, there, start, turn, other_takes, other_gives,
}

-- A goroutine with a slot of jobSem, and one that executes its request.
abbrev pub holds_job : Phase → ℕ
holds_job queued = 0
holds_job finished = 0
holds_job _ = 1

abbrev pub holds_pool : Phase → ℕ
holds_pool executing = 1
holds_pool _ = 0

-- The steps that a goroutine has left.
abbrev pub steps_left : Phase → ℕ
steps_left queued = 4
steps_left admitted = 3
steps_left executing = 2
steps_left (answered r) = 1
steps_left finished = 0

abbrev pub total : (Phase → ℕ) → List Cell → ℕ
total f [] = 0
total f (c ∷ cs) = f c.phase + total f cs

-- The semaphores count their holders and are within their capacities.
pub record IsCounted (cap : Capacity) (s : Slots) (cs : List Cell) : Type 0 where
  pub job : s.job ≡ total holds_job cs
  pub pool : s.pool ≡ total holds_pool cs + s.others
  pub job_room : s.job ≤ cap.job
  pub pool_room : s.pool ≤ cap.pool

module _ (engine : Engine) (cap : Capacity) where
  -- What a step changes of the counts.
  abbrev Counts : Slots → List Cell → Slots → List Cell → Type 0
  Counts s cs s' cs' =
      (s'.job + total holds_job cs ≡ s.job + total holds_job cs')
      × (s'.pool + total holds_pool cs ≡ s.pool + total holds_pool cs')
      × (s'.others ≡ s.others)
      × (total steps_left cs' + 1 ≡ total steps_left cs)
      × (s.job ≤ cap.job → s'.job ≤ cap.job)
      × (s.pool ≤ cap.pool → s'.pool ≤ cap.pool)

  Turn-Counts :
      {s s' : Slots} {cs cs' : List Cell}
      → Turn engine cap s cs s' cs'
      → total holds_job cs ≤ s.job
      → total holds_pool cs ≤ s.pool
      → Counts s cs s' cs'
  Turn-Counts (here (enter p room)) h k = ground arith
  Turn-Counts (here (acquire p room)) h k = ground arith
  Turn-Counts (here (answer w p)) h k = ground arith
  Turn-Counts (here (finish r p)) h k = ground arith
  Turn-Counts (there t) h k = grind (arith, Turn-Counts t)

  total-queued :
      (specs : List RequestSpec)
      → (total holds_job (map start_cell specs) ≡ 0)
        × (total holds_pool (map start_cell specs) ≡ 0)
        × (total steps_left (map start_cell specs) ≡ 4 * length specs)
  unfolding start_cell
  total-queued [] = ground arith
  total-queued (spec ∷ specs) = ground (arith, total-queued specs)

  -- Within a run at most MaxConcurrency requests of the job are under way, and at most as many
  -- execute, over all jobs, as the pool has slots; each semaphore counts exactly those that hold it.
  pub run-IsCounted :
      {specs : List RequestSpec} {others n : ℕ} {s : Slots} {cs : List Cell}
      → Run engine cap specs others n s cs
      → IsCounted cap s cs
  run-IsCounted {specs} (start h) = ground (arith, total-queued specs)
  run-IsCounted (turn r t) = let i = run-IsCounted r in ground (arith, i, Turn-Counts t)
  run-IsCounted (other_takes r h) = let i = run-IsCounted r in ground (arith, i)
  run-IsCounted (other_gives r h) = let i = run-IsCounted r in ground (arith, i)

  pub run-steps :
      {specs : List RequestSpec} {others n : ℕ} {s : Slots} {cs : List Cell}
      → Run engine cap specs others n s cs
      → n + total steps_left cs ≡ 4 * length specs
  run-steps {specs} (start h) = omega (arith, total-queued specs)
  run-steps (turn r t) = let i = run-IsCounted r in ground (arith, i, run-steps r, Turn-Counts t)
  run-steps (other_takes r h) = run-steps r
  run-steps (other_gives r h) = run-steps r

  -- A step that a goroutine can take.
  abbrev Ready : Slots → Cell → Type 0
  Ready s c = (s' : Slots) × (c' : Cell) × Move engine cap s c s' c'

  abbrev pub Turns : Slots → List Cell → Type 0
  Turns s cs = (s' : Slots) × (cs' : List Cell) × Turn engine cap s cs s' cs'

  turn_of :
      (f : Phase → ℕ) (s : Slots) (cs : List Cell)
      → ((c : Cell) → 0 < f c.phase → Ready s c)
      → 0 < total f cs
      → Turns s cs
  turn_of f s [] ready h = absurd (omega arith)
  turn_of f s (c ∷ cs) ready h = elim (Bool-cases (ltb 0 (f c.phase))) [
    | inl e ↦ let (s', c', m) = ready c (ground arith) in (s', c' ∷ cs, here m)
    | inr e ↦ let (s', cs', t) = turn_of f s cs ready (ground arith) in (s', c ∷ cs', there t)
  ]

  abbrev is_queued : Phase → ℕ
  is_queued queued = 1
  is_queued _ = 0

  abbrev is_admitted : Phase → ℕ
  is_admitted admitted = 1
  is_admitted _ = 0

  abbrev is_answered : Phase → ℕ
  is_answered (answered r) = 1
  is_answered _ = 0

  phases_lem :
      (p : Phase)
      → (steps_left p ≡ 4 * is_queued p + 3 * is_admitted p + 2 * holds_pool p + is_answered p)
        × (holds_job p ≡ is_admitted p + holds_pool p + is_answered p)
  phases_lem queued = ground arith
  phases_lem admitted = ground arith
  phases_lem executing = ground arith
  phases_lem (answered r) = ground arith
  phases_lem finished = ground arith

  total-phases :
      (cs : List Cell)
      → (total steps_left cs
          ≡ 4 * total is_queued cs
            + 3 * total is_admitted cs
            + 2 * total holds_pool cs
            + total is_answered cs)
        × (total holds_job cs ≡ total is_admitted cs + total holds_pool cs + total is_answered cs)
  total-phases [] = ground arith
  total-phases (c ∷ cs) = omega (arith, phases_lem c.phase, total-phases cs)

  executing_of : (p : Phase) → 0 < holds_pool p → p ≡ executing
  executing_of executing h = refl
  executing_of queued h = absurd (omega arith)
  executing_of admitted h = absurd (omega arith)
  executing_of (answered r) h = absurd (omega arith)
  executing_of finished h = absurd (omega arith)

  answered_of : (p : Phase) → 0 < is_answered p → (r : ResponseResult) × (p ≡ answered r)
  answered_of (answered r) h = (r, refl)
  answered_of queued h = absurd (omega arith)
  answered_of admitted h = absurd (omega arith)
  answered_of executing h = absurd (omega arith)
  answered_of finished h = absurd (omega arith)

  admitted_of : (p : Phase) → 0 < is_admitted p → p ≡ admitted
  admitted_of admitted h = refl
  admitted_of queued h = absurd (omega arith)
  admitted_of executing h = absurd (omega arith)
  admitted_of (answered r) h = absurd (omega arith)
  admitted_of finished h = absurd (omega arith)

  queued_of : (p : Phase) → 0 < is_queued p → p ≡ queued
  queued_of queued h = refl
  queued_of admitted h = absurd (omega arith)
  queued_of executing h = absurd (omega arith)
  queued_of (answered r) h = absurd (omega arith)
  queued_of finished h = absurd (omega arith)

  -- While goroutines have steps left, one of them can take a step, if jobSem has slots and the other
  -- jobs leave the pool one.
  turn_exists :
      (w : engine.World) (s : Slots) (cs : List Cell)
      → IsCounted cap s cs
      → 0 < cap.job
      → s.others < cap.pool
      → 0 < total steps_left cs
      → Turns s cs
  turn_exists w s cs i slots room left = elim (Bool-cases (ltb 0 (total holds_pool cs))) [
    | inl e ↦
        turn_of holds_pool s cs (λ c h. (_, _, answer w (executing_of c.phase h))) (ground arith)
    | inr e ↦ elim (Bool-cases (ltb 0 (total is_answered cs))) [
      | inl a ↦
          turn_of is_answered s cs (λ c h. let (r, q) = answered_of c.phase h in (_, _, finish r q))
            (ground arith)
      | inr a ↦ elim (Bool-cases (ltb 0 (total is_admitted cs))) [
        | inl d ↦
            turn_of is_admitted s cs
              (λ c h. (_, _, acquire (admitted_of c.phase h) (ground (arith, i)))) (ground arith)
        | inr d ↦
            turn_of is_queued s cs
              (λ c h. (_, _, enter (queued_of c.phase h) (ground (arith, i, total-phases cs))))
              (ground (arith, total-phases cs, i))
      ]
    ]
  ]

  -- A job's goroutines take exactly four steps each, so that every run of them ends; and a run stops
  -- before that only while other jobs hold all the slots of the pool, if MaxConcurrency is positive.
  pub run_ends :
      {specs : List RequestSpec} {others n : ℕ} {s : Slots} {cs : List Cell} (w : engine.World)
      → Run engine cap specs others n s cs
      → 0 < cap.job
      → (n ≤ 4 * length specs) × ((n ≡ 4 * length specs) ⊎ (s.others ≡ cap.pool) ⊎ Turns s cs)
  run_ends {specs} {n = n} {s} {cs} w r slots =
      let i = run-IsCounted r in
      let left = run-steps r in
      (
        omega (arith, left),
        elim (Bool-cases (ltb 0 (total steps_left cs))) [
          | inr e ↦ inl (ground (arith, left))
          | inl e ↦ elim (Bool-cases (ltb s.others cap.pool)) [
            | inl o ↦ inr (inr (turn_exists w s cs i slots (ground arith) (ground arith)))
            | inr o ↦ inr (inl (ground (arith, i)))
          ]
        ],
      )
