-- ===== src/Worker/Lifetime/Ends.antt =====
-- internal/worker/worker.go, Run: what holds when it returns, and what its health server says.
use apipact_agent.Prelude.{◌+◌, ◌≤◌, ◌≡◌, true, false, Option, none, some, [], is_some, length}
use apipact_agent.Transport.{RelayClient}
use apipact_agent.Dedupe.{Codec}
use apipact_agent.Worker.{Envelopes, Identity, Worker}
use apipact_agent.Worker.Counted.{IsCounted}
use apipact_agent.Worker.Drain.{count_started}
use apipact_agent.Worker.Lifetime.{ready_status, listened, Handler, Ran}
use apipact_agent.Worker.Lifetime.Announced.{has_announced}

module _ (env : Envelopes) (me : Identity) (codec : Codec) where
  abbrev IsClosed : Option (RelayClient Handler) → Type 0
  IsClosed none = Unit
  IsClosed (some c) = c.destroyed ≡ true

  -- What holds of a worker that Run was called on and of the return of Run.
  pub record IsEnded (w : Worker env me codec) (r : Ran env me codec) : Type 0 where
    pub closed : IsClosed r.client
    pub failed :
        is_some r.error ≡ true
        → (r.late ≡ [])
          × (listened env me codec r.client ≡ false → (r.worker ≡ w) × (r.outcomes ≡ []))
    pub ended :
        is_some r.error ≡ false
        → (r.worker.draining ≡ true)
          × (ready_status env me codec r.client r.worker ≡ 503)
          × (count_started r.late + length r.worker.entered ≤ r.passing)
          × (me.has_publisher ≡ true → has_announced env me codec r.worker ≡ true)
    pub counted : IsCounted env me codec r.worker
    pub waited : r.drained ≡ true → r.worker.running ≡ []
