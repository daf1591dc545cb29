-- ===== src/Supervisor/System/Shutdown.antt =====
-- internal/supervisor/supervisor.go: what still happens once the context of Run is cancelled.
use apipact_agent.Prelude.{◌≡◌, refl, ◌∙◌, inl, inr, true, arith, Option-cases, length}
use apipact_agent.Supervisor.System.{
  set_child, stop_child, cycle_ends, System, Settings, Step, Reach, process_exits, loop_starts,
  update_stops, update_starts, update_stops_again, update_restarts, shutdown, run_stops, here, next,
}
use apipact_agent.Supervisor.System.Single.{length-kill}
use apipact_agent.Executor.Request.{Bytes}
use apipact_agent.Update.Manifest.{Release}

module _ (lib : Release) (set : Settings) (Passed : Bytes → Type 0) where
  length-stop_child : (s : System) → length (stop_child s).processes ≡ length s.processes
  unfolding stop_child
  length-stop_child s = elim (Option-cases s.child) [
    | inl q ↦ simp q refl
    | inr (pid, q) ↦ simp q (length-kill pid s.processes)
  ]

  Step-cancelled :
      {s t : System}
      → Step lib set Passed s t
      → s.cancelled ≡ true
      → (t.cancelled ≡ true) × (length t.processes ≡ length s.processes)
  unfolding stop_child set_child cycle_ends
  Step-cancelled {s} (process_exits pid) c = (c, length-kill pid s.processes)
  Step-cancelled (loop_starts a c' found) c = absurd (ground arith)
  Step-cancelled {s} (update_stops a) c = (c, length-stop_child s)
  Step-cancelled (update_starts a c' found) c = absurd (ground arith)
  Step-cancelled {s} (update_stops_again a) c = (c, length-stop_child s)
  Step-cancelled (update_restarts a c' found) c = absurd (ground arith)
  Step-cancelled shutdown c = (refl, refl)
  Step-cancelled {s} (run_stops a) c = (c, length-stop_child s)
  Step-cancelled _ c = (c, refl)

  -- Once the context is cancelled, no step starts a worker: the supervisor has started as many
  -- processes as it had then, wherever its loops stood.
  shutdown_starts_nothing :
      {s t : System}
      → s.cancelled ≡ true
      → Reach lib set Passed s t
      → (t.cancelled ≡ true) × (length t.processes ≡ length s.processes)
  shutdown_starts_nothing c here = (c, refl)
  shutdown_starts_nothing c (next r st) =
      let (d, e) = shutdown_starts_nothing c r in let (f, g) = Step-cancelled st d in (f, g ∙ e)
