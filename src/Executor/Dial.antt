-- ===== src/Executor/Dial.antt =====
-- internal/executor/executor.go, guardedDial: resolve, filter by the egress policy, connect.
-- The network is the parameter Net: its state, the resolver, the dialer, and Go's parsers of
-- addresses.
pub mod Guard
use apipact_agent.Prelude.{String, Option, none, some, List, [], ◌∷◌, Result, ok, err}
use apipact_agent.Executor.Egress.{egress_verdict, Ip, EgressPolicy, Reason, allowed, denied}
use apipact_agent.Executor.Errors.{GoError, egress_blocked, plain}

pub record Net : Type 1 where
  pub World : Type 0
  pub Conn : Type 0
  pub split_host_port : String → Result GoError (String × String)
  pub parse_ip : String → Option Ip
  pub lookup_ip_addr : World → String → Result GoError (List Ip) × World
  pub dial_context : World → Ip → String → Result GoError Conn × World
  -- the texts that Allowed and guardedDial format
  pub denial_text : Ip → Reason → String
  pub no_addresses_text : String → String

module _ (net : Net) (p : EgressPolicy) where
  -- What the dial function returns, with the addresses that it connected to and the state after.
  pub record Dialed : Type 0 where
    pub result : Result GoError net.Conn
    pub tried : List Ip
    pub world : net.World

  abbrev pub denial : Ip → Reason → GoError
  denial ip r = record { text = net.denial_text ip r; layers = egress_blocked ∷ [] }

  -- The error after the loop.
  abbrev pub last_error : String → Option GoError → GoError
  last_error host (some e) = e
  last_error host none = record { text = net.no_addresses_text host; layers = plain ∷ [] }

  -- The end of a round of the loop, after the dialer has answered.
  unfoldable pub after_dial :
      Ip → (Option GoError → net.World → Dialed) → Result GoError net.Conn × net.World → Dialed
  after_dial ip next (ok c, w) = record { result = ok c; tried = ip ∷ []; world = w }
  after_dial ip next (err e, w) =
      let rest = next (some e) w in record rest { tried = ip ∷ rest.tried }

  -- The loop over the candidate addresses.
  unfoldable pub dial_ips : String → String → List Ip → Option GoError → net.World → Dialed
  dial_ips host port [] last w = record {
    result = err (last_error host last);
    tried = [];
    world = w;
  }
  dial_ips host port (ip ∷ ips) last w = elim (egress_verdict p ip) [
    | denied r ↦ dial_ips host port ips (some (denial ip r)) w
    | allowed ↦ after_dial ip (dial_ips host port ips) (net.dial_context w ip port)
  ]

  -- The candidates: the address itself if the host is one, else what the resolver answers.
  unfoldable pub candidates : net.World → String → Result GoError (List Ip) × net.World
  candidates w host = elim (net.parse_ip host) [
    | some literal ↦ (ok (literal ∷ []), w)
    | none ↦ net.lookup_ip_addr w host
  ]

  unfoldable pub dial_resolved : String → String → Result GoError (List Ip) × net.World → Dialed
  unfolding dial_ips after_dial
  dial_resolved host port (ok ips, w) = dial_ips host port ips none w
  dial_resolved host port (err e, w) = record { result = err e; tried = []; world = w }

  -- guardedDial
  unfoldable pub guarded_dial : net.World → String → Dialed
  unfolding dial_resolved candidates
  guarded_dial w addr = elim (net.split_host_port addr) [
    | err e ↦ record { result = err e; tried = []; world = w }
    | ok (host, port) ↦ dial_resolved host port (candidates w host)
  ]
