-- ===== src/Tests/Guarded.antt =====
-- internal/executor/executor.go on a site whose redirect leads to an address inside the network.
use apipact_agent.Prelude.{ℕ, ◌+◌, ◌≡◌, refl, none, [], ◌∷◌, ◌=ₛ◌, if◌then◌else◌, ok, err, All}
use apipact_agent.Prelude.Int.{pos}
use apipact_agent.Prelude.Dict.{lookup}
use apipact_agent.Executor.Redirect.{is_redirect}
use apipact_agent.Executor.Egress.{
  to4, same_net, contains, is_private, first_containing, egress_verdict, Ip, v4,
}
use apipact_agent.Executor.Egress.Defaults.{default_policy}
use apipact_agent.Executor.Execute.{no_timing, Response}
use apipact_agent.Executor.Dial.{guarded_dial, Net}
use apipact_agent.Executor.Guarded.{
  new_engine, run_session, engine_execute, Engine, Transport, done, dial, talk,
}
use apipact_agent.Executor.Guarded.Reach.{Reachable, engine_execute-Reachable}
use apipact_agent.Tests.Executor.{spec, library}

abbrev public_ip : Ip
public_ip = v4 0x08080808

-- The name of the site has a public address, any other name that of a metadata service.
abbrev rebinding : Net
rebinding = record {
  World = ℕ;
  Conn = Ip;
  split_host_port = λ addr. ok (addr, "443");
  parse_ip = λ host. none;
  lookup_ip_addr = λ w host.
      (ok ((if host =ₛ "https://example.com/" then public_ip else v4 0xa9fea9fe) ∷ []), w);
  dial_context = λ w ip port. (ok ip, w + 1);
  denial_text = λ ip r. "egress blocked";
  no_addresses_text = λ host. "no addresses";
}

abbrev redirect_inside : Response
redirect_inside = record {
  status_code = pos 302;
  proto = "HTTP/1.1";
  header = ("Location", "https://inside/" ∷ []) ∷ [];
  body = [];
  tls = none;
}

-- A request is one dial and one exchange of bytes.
abbrev client : Transport rebinding
client = record {
  session = λ timeout knobs req. dial req.url (λ r. elim r [
    | err e ↦ done (err e) no_timing
    | ok c ↦ talk c req.body (λ b. done (ok redirect_inside) no_timing)
  ]);
  exchange_bytes = λ w c b. (ok [], w + 1);
  pem_certificate = λ raw. "";
}

abbrev engine : Engine
engine = new_engine default_policy

redirect_not_followed_inside :
    (engine_execute library rebinding client engine spec 0).world.connected ≡ public_ip ∷ []
unfolding engine_execute run_session guarded_dial egress_verdict first_containing contains same_net
    to4 is_private is_redirect lookup
redirect_not_followed_inside = refl

engine_execute-Reachable_example :
    All
      (Reachable default_policy)
      (engine_execute library rebinding client engine spec 0).world.connected
engine_execute-Reachable_example = engine_execute-Reachable library rebinding client engine spec 0
