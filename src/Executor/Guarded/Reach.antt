-- ===== src/Executor/Guarded/Reach.antt =====
-- internal/executor/executor.go: which addresses a whole Execute connects to.
use apipact_agent.Prelude.{◌≡◌, true, false, ◌||◌, not, List, [], ◌∷◌, ◌++◌, All}
use apipact_agent.Protocol.{RequestSpec}
use apipact_agent.Executor.Request.{Library}
use apipact_agent.Executor.Egress.{is_private, always_blocked, Ip, EgressPolicy}
use apipact_agent.Executor.Egress.Ranges.{covered, egress_allowed_iff}
use apipact_agent.Executor.Dial.{guarded_dial, Net}
use apipact_agent.Executor.Dial.Guard.{IsAllowed, guarded_dial_sound}
use apipact_agent.Executor.Guarded.{
  run_session, guarded, engine_execute, Engine, Session, Transport, Wire, done, dial, talk,
}
use apipact_agent.Executor.Execute.Preserved.{execute-Holds}

-- What an address has to satisfy for a policy to open it.
abbrev pub Reachable : EgressPolicy → Ip → Type 0
Reachable p ip =
    (covered ip always_blocked ≡ false)
    × (covered ip p.block ≡ false)
    × ((covered ip p.allow || (p.allow_private || not (is_private ip))) ≡ true)

All-Reachable : (p : EgressPolicy) (ips : List Ip) → All (IsAllowed p) ips → All (Reachable p) ips
All-Reachable p [] h = tt
All-Reachable p (ip ∷ ips) (h, hs) = ((egress_allowed_iff p ip).0 h, All-Reachable p ips hs)

All-++ : {A : Type 0} (P : A → Type 0) (xs ys : List A) → All P xs → All P ys → All P (xs ++ ys)
All-++ P [] ys h k = k
All-++ P (x ∷ xs) ys (h, hs) k = (h, All-++ P xs ys hs k)

module _ (net : Net) (web : Transport net) (p : EgressPolicy) where
  pub run_session-Reachable :
      (s : Session net) (w : Wire net)
      → All (Reachable p) w.connected
      → All (Reachable p) (run_session net web p s w).world.connected
  unfolding run_session
  run_session-Reachable (done r t) w h = h
  run_session-Reachable (dial addr next) w h =
      let d = guarded_dial net p w.world addr in
      run_session-Reachable (next d.result) _ (
        All-++ (Reachable p) w.connected d.tried h
          (All-Reachable p d.tried (guarded_dial_sound net p w.world addr)))
  run_session-Reachable (talk c bytes next) w h =
      let (r, w') = web.exchange_bytes w.world c bytes in
      run_session-Reachable (next r) (record w { world = w' }) h

-- Every address that Execute connects to, over all the redirects that it follows, is one that the
-- engine's policy opens: no always-blocked and no operator-blocked network contains it, and it is in
-- the allowlist, or private targets are allowed, or it is not private. It holds for every spec, and
-- whatever the resolver, the servers and net/http do.
pub engine_execute-Reachable :
    (lib : Library) (net : Net) (web : Transport net) (e : Engine) (spec : RequestSpec)
    (w : net.World)
    → All (Reachable e.policy) (engine_execute lib net web e spec w).world.connected
unfolding engine_execute
engine_execute-Reachable lib net web e spec w =
    execute-Holds lib (guarded net web e.policy) e.default_max_body spec
      (λ s. All (Reachable e.policy) s.connected)
      (λ s timeout client req. run_session-Reachable net web e.policy _ s)
      (record { world = w; connected = [] }) tt
