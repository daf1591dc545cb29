-- ===== src/Supervisor/System/Backoff.antt =====
-- internal/supervisor/supervisor.go, superviseLoop: the pause before a restart.
use apipact_agent.Prelude.{ℕ, ◌≡◌, refl, ◌⊎◌, inl, true, false, arith}
use apipact_agent.Executor.Request.{Bytes}
use apipact_agent.Update.Manifest.{Release}
use apipact_agent.Update.Swap.{Files}
use apipact_agent.Supervisor.System.{
  start_child, set_child, stop_child, next_backoff, initial, cycle_ends, LoopPhase, System,
  Settings, Step, Reach, reading, sleeping, waiting, starting, ended, loop_reads, loop_finds_none,
  loop_sees_exit, loop_leaves, loop_starts, loop_has_started, loop_start_fails, here, next,
}

-- The pauses that doubling up to 30 seconds gives, in seconds.
abbrev IsPause : ℕ → Type 0
IsPause b = (b ≡ 1) ⊎ ((b ≡ 2) ⊎ ((b ≡ 4) ⊎ ((b ≡ 8) ⊎ ((b ≡ 16) ⊎ (b ≡ 32)))))

abbrev pub HasPause : LoopPhase → Type 0
HasPause (reading b) = IsPause b
HasPause (sleeping b) = IsPause b
HasPause (waiting pid b) = IsPause b
HasPause (starting pid b) = IsPause b
HasPause ended = Unit

next_backoff-IsPause : (b : ℕ) → IsPause b → IsPause (next_backoff b)
unfolding next_backoff
next_backoff-IsPause b h = ground arith

module _ (lib : Release) (set : Settings) (Passed : Bytes → Type 0) where
  Step-HasPause : {s t : System} → Step lib set Passed s t → HasPause s.loop → HasPause t.loop
  unfolding stop_child cycle_ends start_child set_child
  Step-HasPause (loop_reads {b = b} a c) h = rw a at h
  Step-HasPause (loop_finds_none a c) h = tt
  Step-HasPause (loop_sees_exit a d c) h = rw a at h
  Step-HasPause (loop_leaves a c) h = tt
  Step-HasPause (loop_starts a c found) h = rw a at h
  Step-HasPause (loop_has_started {b = b} true a) h = inl refl
  Step-HasPause (loop_has_started {b = b} false a) h = next_backoff-IsPause b (rw a at h)
  Step-HasPause (loop_start_fails {b = b} a) h = next_backoff-IsPause b (rw a at h)
  Step-HasPause _ h = h

  Reach-HasPause : {s t : System} → Reach lib set Passed s t → HasPause s.loop → HasPause t.loop
  Reach-HasPause here h = h
  Reach-HasPause (next r st) h = Step-HasPause st (Reach-HasPause r h)

  -- In every state that the supervisor reaches, the pause before a restart is 1, 2, 4, 8, 16 or 32
  -- seconds: doubling stops after 32, which is above the limit of 30 that the code tests.
  backoff_bounded :
      (files : Files) (image : Bytes) {t : System}
      → Reach lib set Passed (initial files image) t
      → HasPause t.loop
  unfolding initial
  backoff_bounded files image r = Reach-HasPause r (inl refl)
