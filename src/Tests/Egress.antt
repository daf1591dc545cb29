-- ===== src/Tests/Egress.antt =====
-- internal/executor/egress.go and the dialer of executor.go on concrete addresses.
use apipact_agent.Prelude.{
  ℕ, ◌+◌, ◌≡◌, refl, ◌↔◌, true, false, ◌||◌, not, none, List, [], ◌∷◌, arith, Result, ok, err,
  is_ok,
}
use apipact_agent.Executor.Egress.{
  to4, same_net, contains, is_private, always_blocked, first_containing, egress_verdict, Ip, IpNet,
  v4, always_blocked_range, allowed, denied,
}
use apipact_agent.Executor.Egress.Ranges.{
  covered, egress_allowed_iff, mapped, mapped_no_bypass, forbidden_denied, link_local4,
}
use apipact_agent.Executor.Egress.Defaults.{default_policy}
use apipact_agent.Executor.Errors.{GoError, op_error}
use apipact_agent.Executor.Dial.{candidates, guarded_dial, Net}
use apipact_agent.Executor.Dial.Guard.{is_allowed}

abbrev public_ip : Ip
public_ip = v4 0x08080808

abbrev private_ip : Ip
private_ip = v4 0x0a000001

abbrev metadata_ip : Ip
metadata_ip = v4 0xa9fea9fe

egress_allowed_iff_example : (egress_verdict default_policy public_ip ≡ allowed) ↔ (
    (covered public_ip always_blocked ≡ false)
    × (covered public_ip default_policy.block ≡ false)
    × ((covered public_ip default_policy.allow
          || (default_policy.allow_private || not (is_private public_ip)))
        ≡ true))
egress_allowed_iff_example = egress_allowed_iff default_policy public_ip

mapped_no_bypass_example :
    egress_verdict default_policy (mapped 0xa9fea9fe) ≡ egress_verdict default_policy metadata_ip
mapped_no_bypass_example = mapped_no_bypass default_policy 0xa9fea9fe (omega arith)

forbidden_denied_example :
    (net : IpNet) × (egress_verdict default_policy metadata_ip ≡ denied (always_blocked_range net))
forbidden_denied_example =
    forbidden_denied default_policy metadata_ip (link_local4 0xa9fea9fe (omega arith) (omega arith))

abbrev refused : GoError
refused = record { text = "connection refused"; layers = op_error false ∷ [] }

-- A network on which every name has these addresses and every dial has this answer.
abbrev network : List Ip → (Ip → Result GoError Ip) → Net
network ips answer = record {
  World = ℕ;
  Conn = Ip;
  split_host_port = λ addr. ok (addr, "443");
  parse_ip = λ host. none;
  lookup_ip_addr = λ w host. (ok ips, w);
  dial_context = λ w ip port. (answer ip, w + 1);
  denial_text = λ ip r. "egress blocked";
  no_addresses_text = λ host. "no addresses";
}

abbrev both : List Ip
both = private_ip ∷ public_ip ∷ []

abbrev working : Net
working = network both ok

abbrev failing : Net
failing = network both (λ ip. err refused)

both_found : candidates working default_policy 0 "example.com" ≡ (ok both, 0)
unfolding candidates
both_found = refl

both_found_failing : candidates failing default_policy 0 "example.com" ≡ (ok both, 0)
unfolding candidates
both_found_failing = refl

connected : (guarded_dial working default_policy 0 "example.com").result ≡ ok public_ip
unfolding guarded_dial egress_verdict to4 same_net contains first_containing is_private
connected = refl

failed : is_ok (guarded_dial failing default_policy 0 "example.com").result ≡ false
unfolding guarded_dial egress_verdict to4 same_net contains first_containing is_private
failed = refl

abbrev inside : Net
inside = network (private_ip ∷ []) ok

inside_found : candidates inside default_policy 0 "db" ≡ (ok (private_ip ∷ []), 0)
unfolding candidates
inside_found = refl

private_denied : is_allowed default_policy private_ip ≡ false
unfolding egress_verdict to4 same_net contains first_containing is_private
private_denied = refl
