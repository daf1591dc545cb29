-- ===== src/Worker/Requests/Reach.antt =====
-- internal/worker/worker.go, the sequential execRequests over the executor of executor.go: which
-- addresses a whole job connects to.
use apipact_agent.Prelude.{inl, inr, Bool, ◌&&◌, List, [], ◌∷◌, Bool-cases, is_some, All}
use apipact_agent.Protocol.{RequestSpec}
use apipact_agent.Executor.Request.{Library}
use apipact_agent.Executor.Dial.{Net}
use apipact_agent.Executor.Guarded.{guarded, Transport}
use apipact_agent.Executor.Guarded as Guarded
use apipact_agent.Executor.Guarded.Reach.{Reachable, run_session-Reachable}
use apipact_agent.Executor.Execute.Preserved.{execute-Holds}
use apipact_agent.Worker.Requests.{run_sequential, engine_of, Engine}

module _ (engine : Engine) (Holds : engine.World → Type 0)
    (kept : (spec : RequestSpec) (w : engine.World) → Holds w → Holds (engine.run spec w).1) where
  -- What each request keeps of the network is kept by a job, whether or not it stops early.
  run_sequential-Holds :
      (stop : Bool) (specs : List RequestSpec) (w : engine.World)
      → Holds w
      → Holds (run_sequential engine stop specs w).1
  unfolding run_sequential
  run_sequential-Holds stop [] w h = h
  run_sequential-Holds stop (spec ∷ specs) w h =
      elim (Bool-cases (stop && is_some (engine.run spec w).0.error)) [
        | inl b ↦ rw b (kept spec w h)
        | inr b ↦ rw b (run_sequential-Holds stop specs (engine.run spec w).1 (kept spec w h))
      ]

-- Every address that the requests of a job connect to, over all their redirects, is one that the
-- engine's policy opens.
run_sequential-Reachable :
    (lib : Library) (net : Net) (web : Transport net) (e : Guarded.Engine) (stop : Bool)
    (specs : List RequestSpec) (w : net.World)
    → All
        (Reachable e.policy)
        (run_sequential
          (engine_of lib (guarded net web e.policy) e.default_max_body)
          stop
          specs
          (record { world = w; connected = [] })).1.connected
run_sequential-Reachable lib net web e stop specs w =
    run_sequential-Holds (engine_of lib (guarded net web e.policy) e.default_max_body)
      (λ s. All (Reachable e.policy) s.connected)
      (λ spec s.
        execute-Holds lib (guarded net web e.policy) e.default_max_body spec
          (λ s. All (Reachable e.policy) s.connected)
          (λ s timeout client req. run_session-Reachable net web e.policy _ s) s)
      stop specs (record { world = w; connected = [] }) tt
