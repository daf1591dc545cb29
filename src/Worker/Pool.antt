-- ===== src/Worker/Pool.antt =====
-- internal/worker/worker.go: the goroutines by which execRequests runs a job with MaxConcurrency
-- above 1, and execOne's pool semaphore, which all jobs share.
-- A cell is one goroutine with its element of the slice `out`. The jobs beside this one are counted
-- by the slots of the pool that they hold. A goroutine's last statements (the write to `out`, the
-- release of jobSem and wg.Done) are one step, since no other goroutine reads what they change
-- before wg.Wait returns.
pub mod Invariant
pub mod Outcome
use apipact_agent.Prelude.{ℕ, ◌+◌, ◌-◌, ◌≤◌, ◌<◌, ◌≡◌, List, ◌∷◌, map}
use apipact_agent.Protocol.{RequestSpec, ResponseResult}
use apipact_agent.Worker.Requests.{Engine}
use apipact_agent.Executor.Execute.{blank_result}

-- Where a goroutine stands: before jobSem, before the pool's semaphore with a slot of jobSem, in
-- Engine.Execute with both, back from it with its result, or at its end.
pub data Phase : Type 0 where
  queued : Phase
  admitted : Phase
  executing : Phase
  answered : ResponseResult → Phase
  finished : Phase

pub record Cell : Type 0 where
  pub spec : RequestSpec
  pub phase : Phase
  pub slot : ResponseResult

-- The slots taken of jobSem and of the pool's semaphore, and those of the latter that other jobs
-- have taken.
pub record Slots : Type 0 where
  pub job : ℕ
  pub pool : ℕ
  pub others : ℕ

-- The two capacities: execution.maxConcurrency and limits.maxConcurrency.
pub record Capacity : Type 0 where
  pub job : ℕ
  pub pool : ℕ

-- A goroutine's element of `out` before it runs.
unfoldable pub start_cell : RequestSpec → Cell
start_cell spec = record { spec = spec; phase = queued; slot = blank_result "" }

module _ (engine : Engine) (cap : Capacity) where
  -- One step of a goroutine. Execute returns what the engine makes of the request in some world.
  pub data Move : Slots → Cell → Slots → Cell → Type 0 where
    enter :
        {s : Slots} {c : Cell}
        → c.phase ≡ queued
        → s.job < cap.job
        → Move s c (record s { job = s.job + 1 }) (record c { phase = admitted })
    acquire :
        {s : Slots} {c : Cell}
        → c.phase ≡ admitted
        → s.pool < cap.pool
        → Move s c (record s { pool = s.pool + 1 }) (record c { phase = executing })
    answer :
        {s : Slots} {c : Cell} (w : engine.World)
        → c.phase ≡ executing
        → Move s c
            (record s { pool = s.pool - 1 })
            (record c { phase = answered (engine.run c.spec w).0 })
    finish :
        {s : Slots} {c : Cell} (r : ResponseResult)
        → c.phase ≡ answered r
        → Move s c (record s { job = s.job - 1 }) (record c { phase = finished; slot = r })

  -- A step of one of the goroutines of a list.
  pub data Turn : Slots → List Cell → Slots → List Cell → Type 0 where
    here :
        {s s' : Slots} {c c' : Cell} {cs : List Cell}
        → Move s c s' c'
        → Turn s (c ∷ cs) s' (c' ∷ cs)
    there :
        {s s' : Slots} {c : Cell} {cs cs' : List Cell}
        → Turn s cs s' cs'
        → Turn s (c ∷ cs) s' (c ∷ cs')

  -- A run from the start of the job's goroutines, with the count of their steps. Another job may
  -- take a free slot of the pool, or give one back, between any two steps.
  pub data Run (specs : List RequestSpec) (others : ℕ) : ℕ → Slots → List Cell → Type 0 where
    start :
        others ≤ cap.pool
        → Run specs others 0
            (record { job = 0; pool = others; others = others })
            (map start_cell specs)
    turn :
        {n : ℕ} {s s' : Slots} {cs cs' : List Cell}
        → Run specs others n s cs
        → Turn s cs s' cs'
        → Run specs others (n + 1) s' cs'
    other_takes :
        {n : ℕ} {s : Slots} {cs : List Cell}
        → Run specs others n s cs
        → s.pool < cap.pool
        → Run specs others n (record s { pool = s.pool + 1; others = s.others + 1 }) cs
    other_gives :
        {n : ℕ} {s : Slots} {cs : List Cell}
        → Run specs others n s cs
        → 0 < s.others
        → Run specs others n (record s { pool = s.pool - 1; others = s.others - 1 }) cs
