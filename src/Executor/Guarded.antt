-- ===== src/Executor/Guarded.antt =====
-- internal/executor/executor.go: Engine, New, and what Execute does on the network through the
-- DialContext that buildClient sets.
-- net/http is the record Transport: what an http.Client does for a request is a tree of dials, which
-- are calls of DialContext, and of exchanges of bytes on the connections that it got. The transport
-- has no proxy and no DialTLSContext, so that every connection is dialed in this way.
pub mod Reach
use apipact_agent.Prelude.{ℕ, ◌+◌, String, List, [], ◌∷◌, ◌++◌, Result}
use apipact_agent.Prelude.Int.{ℤ}
use apipact_agent.Protocol.{RequestSpec, Timing, timeout}
use apipact_agent.Executor.Egress.{Ip, EgressPolicy}
use apipact_agent.Executor.Errors.{GoError}
use apipact_agent.Executor.Dial.{guarded_dial, Net}
use apipact_agent.Executor.Request.{Bytes, Library, Client, HttpRequest}
use apipact_agent.Executor.Execute.{execute, Cert, Response, Exchanged, Exchanger, Executed}

-- Engine, without its logger; its resolver is part of the Net.
pub record Engine : Type 0 where
  pub policy : EgressPolicy
  pub default_max_body : ℕ

abbrev pub default_max_body_bytes : ℕ
default_max_body_bytes = 1_048_576

-- New
abbrev pub new_engine : EgressPolicy → Engine
new_engine policy = record { policy = policy; default_max_body = default_max_body_bytes }

-- What client.Do does for one request.
pub data Session (net : Net) : Type 0 where
  done : Result GoError Response → Timing → Session net
  dial : String → (Result GoError net.Conn → Session net) → Session net
  talk : net.Conn → Bytes → (Result GoError Bytes → Session net) → Session net

pub record Transport (net : Net) : Type 0 where
  -- client.Do under a total timeout
  pub session : ℤ → Client → HttpRequest → Session net
  pub exchange_bytes : net.World → net.Conn → Bytes → Result GoError Bytes × net.World
  -- pem.EncodeToMemory(&pem.Block{Type: "CERTIFICATE", Bytes: ...})
  pub pem_certificate : Bytes → String

-- The state of the network, with every address that was connected to so far.
pub record Wire (net : Net) : Type 0 where
  pub world : net.World
  pub connected : List Ip

-- certsToPEM
unfoldable pub certs_to_pem : (Bytes → String) → List Cert → List String
certs_to_pem pem [] = []
certs_to_pem pem (c ∷ cs) = pem c.raw ∷ certs_to_pem pem cs

module _ (net : Net) (web : Transport net) (p : EgressPolicy) where
  -- A session whose dials are those of guardedDial.
  unfoldable pub run_session : Session net → Wire net → Exchanged (Wire net)
  run_session (done r t) s = record { outcome = r; timing = t; world = s }
  run_session (dial addr next) s =
      let d = guarded_dial net p s.world addr in
      run_session (next d.result) (record { world = d.world; connected = s.connected ++ d.tried })
  run_session (talk c bytes next) s =
      let (r, w) = web.exchange_bytes s.world c bytes in
      run_session (next r) (record s { world = w })

  -- The network of an engine with this policy.
  abbrev pub guarded : Exchanger
  guarded = record {
    World = Wire net;
    exchange = λ s timeout client req. run_session (web.session timeout client req) s;
    certs_to_pem = certs_to_pem web.pem_certificate;
  }

-- Engine.Execute on an engine, for a spec; nothing is connected to before.
unfoldable pub engine_execute :
    (lib : Library) (net : Net) (web : Transport net) (e : Engine) (spec : RequestSpec)
    → net.World
    → Executed lib (guarded net web e.policy) e.default_max_body spec
unfolding execute
engine_execute lib net web e spec w =
    execute lib (guarded net web e.policy) e.default_max_body spec
      (record { world = w; connected = [] })
