-- ===== src/Executor/Egress.antt =====
-- internal/executor/egress.go: which addresses the agent may dial.
-- A net.IP of 4 or 16 bytes is the number that its bytes spell; a net.IPNet has an address and the
-- count of leading ones of its mask. The predicates on net.IP are those of Go's net package.
pub mod Ranges
pub mod Defaults
use apipact_agent.Prelude.{
  ℕ, ◌+◌, ◌-◌, ◌*◌, ◌/◌, ◌%◌, ◌^◌, Bool, false, ◌&&◌, ◌||◌, Option, none, some, List, [], ◌∷◌, ◌==◌,
  if◌then◌else◌,
}

pub data Ip : Type 0 where
  v4 v6 : ℕ → Ip

pub record IpNet : Type 0 where
  pub ip : Ip
  pub ones : ℕ

-- ip.To4(): a 16-byte address in ::ffff:0:0/96 is an IPv4 address.
unfoldable pub to4 : Ip → Option ℕ
to4 (v4 n) = some n
to4 (v6 n) = if n / 2 ^ 32 == 0xffff then some (n % 2 ^ 32) else none

-- (*net.IPNet).Contains on an address with its To4 form, by the form of the network's address.
unfoldable pub same_net : Ip → Option ℕ → ℕ → Ip → Option ℕ → Bool
same_net (v4 m) m4 ones ip (some n) = n / 2 ^ (32 - ones) == m / 2 ^ (32 - ones)
same_net (v6 m) (some k) ones ip (some n) = n / 2 ^ (32 - (ones - 96)) == k / 2 ^ (32 - (ones - 96))
same_net (v6 m) none ones (v6 n) none = n / 2 ^ (128 - ones) == m / 2 ^ (128 - ones)
same_net _ _ _ _ _ = false

unfoldable pub contains : IpNet → Ip → Bool
contains net ip = same_net net.ip (to4 net.ip) net.ones ip (to4 ip)

-- net.IP's predicates, on the To4 form if there is one and on the 16 bytes if not.
unfoldable pub is_loopback : Ip → Option ℕ → Bool
is_loopback ip (some n) = n / 2 ^ 24 == 127
is_loopback (v6 n) none = n == 1
is_loopback (v4 n) none = false

unfoldable pub is_rfc1918_or_ula : Ip → Option ℕ → Bool
is_rfc1918_or_ula ip (some n) = n / 2 ^ 24 == 10 || n / 2 ^ 20 == 0xac1 || n / 2 ^ 16 == 0xc0a8
is_rfc1918_or_ula (v6 n) none = n / 2 ^ 121 == 0x7e
is_rfc1918_or_ula (v4 n) none = false

unfoldable pub is_link_local_unicast : Ip → Option ℕ → Bool
is_link_local_unicast ip (some n) = n / 2 ^ 16 == 0xa9fe
is_link_local_unicast (v6 n) none = n / 2 ^ 118 == 0x3fa
is_link_local_unicast (v4 n) none = false

unfoldable pub is_link_local_multicast : Ip → Option ℕ → Bool
is_link_local_multicast ip (some n) = n / 2 ^ 8 == 0xe00000
is_link_local_multicast (v6 n) none = n / 2 ^ 120 == 0xff && n / 2 ^ 112 % 16 == 2
is_link_local_multicast (v4 n) none = false

unfoldable pub is_interface_local_multicast : Ip → Bool
is_interface_local_multicast (v4 n) = false
is_interface_local_multicast (v6 n) = n / 2 ^ 120 == 0xff && n / 2 ^ 112 % 16 == 1

unfoldable pub is_unspecified : Ip → Option ℕ → Bool
is_unspecified ip (some n) = n == 0
is_unspecified (v6 n) none = n == 0
is_unspecified (v4 n) none = false

unfoldable pub is_private : Ip → Bool
unfolding is_loopback is_rfc1918_or_ula is_link_local_unicast is_link_local_multicast
    is_interface_local_multicast is_unspecified
is_private ip =
    let four = to4 ip in
    is_loopback ip four
    || is_rfc1918_or_ula ip four
    || is_link_local_unicast ip four
    || is_link_local_multicast ip four
    || is_interface_local_multicast ip
    || is_unspecified ip four

-- alwaysBlocked
abbrev pub always_blocked : List IpNet
always_blocked =
    record { ip = v4 0xa9fea9fe; ones = 32 }
    ∷ record { ip = v6 (0xfd000ec2 * 2 ^ 96 + 0x254); ones = 128 }
    ∷ record { ip = v4 0xa9fe0000; ones = 16 }
    ∷ record { ip = v6 (0xfe80 * 2 ^ 112); ones = 10 }
    ∷ record { ip = v6 0; ones = 128 }
    ∷ record { ip = v4 0; ones = 32 }
    ∷ []

pub record EgressPolicy : Type 0 where
  pub allow_private : Bool
  pub allow : List IpNet
  pub block : List IpNet

-- Why an address may not be dialed: the texts that Allowed formats.
pub data Reason : Type 0 where
  always_blocked_range blocked_range : IpNet → Reason
  private_address : Reason

pub data Verdict : Type 0 where
  allowed : Verdict
  denied : Reason → Verdict

-- The first network of a list that contains the address.
unfoldable pub first_containing : Ip → List IpNet → Option IpNet
first_containing ip [] = none
first_containing ip (net ∷ nets) = if contains net ip then some net else first_containing ip nets

-- The part of Allowed after the two denylists.
unfoldable pub allowed_unblocked : EgressPolicy → Ip → Verdict
allowed_unblocked p ip = elim (first_containing ip p.allow) [
  | some net ↦ allowed
  | none ↦
      if p.allow_private then allowed else if is_private ip then denied private_address else allowed
]

-- EgressPolicy.Allowed
unfoldable pub egress_verdict : EgressPolicy → Ip → Verdict
unfolding allowed_unblocked
egress_verdict p ip = elim (first_containing ip always_blocked) [
  | some net ↦ denied (always_blocked_range net)
  | none ↦ elim (first_containing ip p.block) [
    | some net ↦ denied (blocked_range net)
    | none ↦ allowed_unblocked p ip
  ]
]
