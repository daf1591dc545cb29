-- ===== src/Enroll/Pinned.antt =====
-- internal/enroll/enroll.go, pinnedTransport: which servers a pin accepts.
use apipact_agent.Prelude.{String, ◌≡◌, ◌↔◌, true, none, List, [], ◌∷◌, arith, ◌=ₛ◌, any}
use apipact_agent.Executor.Request.{Bytes}
use apipact_agent.Enroll.{verify_connection, Online}

-- The check accepts a peer exactly if some certificate that it sends has the pinned key, which need
-- not be the leaf.
verify_connection_iff :
    (online : Online) (pin : String) (keys : List Bytes)
    → (verify_connection online pin keys ≡ none)
      ↔ (any (λ key. online.digest key =ₛ pin) keys ≡ true)
unfolding verify_connection
verify_connection_iff online pin [] = ground arith
verify_connection_iff online pin (key ∷ keys) =
    ground (arith, verify_connection_iff online pin keys)
