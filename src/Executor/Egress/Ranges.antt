-- ===== src/Executor/Egress/Ranges.antt =====
-- What EgressPolicy.Allowed lets through, as sets of addresses.
use apipact_agent.Prelude.{
  ℕ, ◌+◌, ◌*◌, ◌^◌, ◌≤◌, ◌<◌, ◌≡◌, refl, ◌↔◌, inl, inr, Bool, true, false, ◌||◌, not, Option, none,
  some, List, [], ◌∷◌, arith, Option-cases, is_some, any,
}
use apipact_agent.Executor.Egress.{
  to4, same_net, contains, is_private, always_blocked, first_containing, egress_verdict, Ip, IpNet,
  EgressPolicy, v4, v6, always_blocked_range, allowed, denied,
}

-- Some network of the list contains the address.
abbrev pub covered : Ip → List IpNet → Bool
covered ip nets = any (λ net. contains net ip) nets

first_containing-covered :
    (ip : Ip) (nets : List IpNet) → is_some (first_containing ip nets) ≡ covered ip nets
unfolding first_containing
first_containing-covered ip [] = refl
first_containing-covered ip (net ∷ nets) = ground (arith, first_containing-covered ip nets)

-- An address is allowed exactly when no always-blocked and no operator-blocked network contains it,
-- and it is in the operator's allowlist, or private targets are allowed, or it is not private.
pub egress_allowed_iff :
    (p : EgressPolicy) (ip : Ip)
    → (egress_verdict p ip ≡ allowed) ↔ (
        (covered ip always_blocked ≡ false)
        × (covered ip p.block ≡ false)
        × ((covered ip p.allow || (p.allow_private || not (is_private ip))) ≡ true))
unfolding egress_verdict
egress_allowed_iff p ip = ground (
  arith,
  first_containing-covered ip always_blocked,
  first_containing-covered ip p.block,
  first_containing-covered ip p.allow,
)

-- The IPv6 form ::ffff:a.b.c.d of an IPv4 address.
abbrev pub mapped : ℕ → Ip
mapped n = v6 (0xffff * 2 ^ 32 + n)

to4-mapped : (n : ℕ) → n < 2 ^ 32 → to4 (mapped n) ≡ some n
unfolding to4
to4-mapped n h = ground arith

to4-v4 : (n : ℕ) → to4 (v4 n) ≡ some n
unfolding to4
to4-v4 n = refl

contains-mapped : (net : IpNet) (n : ℕ) → n < 2 ^ 32 → contains net (mapped n) ≡ contains net (v4 n)
unfolding contains same_net
contains-mapped net n h = rw (to4-mapped n h, to4-v4 n) (by_form net.ip (to4 net.ip))
  where
    by_form :
        (ip : Ip) (four : Option ℕ)
        → same_net ip four net.ones (mapped n) (some n) ≡ same_net ip four net.ones (v4 n) (some n)
    by_form (v4 m) four = refl
    by_form (v6 m) (some k) = refl
    by_form (v6 m) none = refl

first_containing-mapped :
    (nets : List IpNet) (n : ℕ)
    → n < 2 ^ 32
    → first_containing (mapped n) nets ≡ first_containing (v4 n) nets
unfolding first_containing
first_containing-mapped [] n h = refl
first_containing-mapped (net ∷ nets) n h =
    rw (contains-mapped net n h, first_containing-mapped nets n h)

is_private-mapped : (n : ℕ) → n < 2 ^ 32 → is_private (mapped n) ≡ is_private (v4 n)
unfolding is_private
is_private-mapped n h = rw (to4-mapped n h, to4-v4 n) (ground arith)

-- An IPv4 address in its IPv6 form has the verdict of the IPv4 address, reason included.
pub mapped_no_bypass :
    (p : EgressPolicy) (n : ℕ) → n < 2 ^ 32 → egress_verdict p (mapped n) ≡ egress_verdict p (v4 n)
unfolding egress_verdict
mapped_no_bypass p n h = ground (
  arith,
  first_containing-mapped always_blocked n h,
  first_containing-mapped p.block n h,
  first_containing-mapped p.allow n h,
  is_private-mapped n h,
)

-- Addresses that no policy may open: link-local ones with the metadata endpoints among them, and
-- the unspecified ones, in whatever form they are written.
pub data IsForbidden : Ip → Type 0 where
  link_local4 : (n : ℕ) → 0xa9fe0000 ≤ n → n < 0xa9ff0000 → IsForbidden (v4 n)
  link_local_mapped : (n : ℕ) → 0xa9fe0000 ≤ n → n < 0xa9ff0000 → IsForbidden (mapped n)
  link_local6 : (n : ℕ) → 0xfe80 * 2 ^ 112 ≤ n → n < 0xfec0 * 2 ^ 112 → IsForbidden (v6 n)
  metadata6 : IsForbidden (v6 (0xfd000ec2 * 2 ^ 96 + 0x254))
  unspecified4 : IsForbidden (v4 0)
  unspecified6 : IsForbidden (v6 0)

forbidden_covered : (ip : Ip) → IsForbidden ip → covered ip always_blocked ≡ true
unfolding contains same_net to4
forbidden_covered (v4 _) (link_local4 n a b) = ground arith
forbidden_covered (v6 _) (link_local_mapped n a b) = ground arith
forbidden_covered (v6 _) (link_local6 n a b) = ground arith
forbidden_covered (v6 _) metadata6 = refl
forbidden_covered (v4 _) unspecified4 = refl
forbidden_covered (v6 _) unspecified6 = refl

-- Whatever the policy, a link-local, metadata or unspecified address is denied, for the reason that
-- an always-blocked range contains it.
pub forbidden_denied :
    (p : EgressPolicy) (ip : Ip)
    → IsForbidden ip
    → (net : IpNet) × (egress_verdict p ip ≡ denied (always_blocked_range net))
unfolding egress_verdict
forbidden_denied p ip f = elim (Option-cases (first_containing ip always_blocked)) [
  | inl e ↦
      absurd (ground (arith, first_containing-covered ip always_blocked, forbidden_covered ip f))
  | inr (net, e) ↦ (net, ground arith)
]
