-- ===== src/Executor/Egress/Defaults.antt =====
-- internal/executor/egress.go: the policy of an agent whose operator has configured none.
use apipact_agent.Prelude.{
  ℕ, ◌≤◌, ◌<◌, ◌≡◌, ◌↔◌, ◌⊎◌, Bool, true, false, ◌&&◌, not, List, [], ◌∷◌, arith, All,
}
use apipact_agent.Executor.Egress.{
  to4, same_net, contains, is_private, always_blocked, egress_verdict, EgressPolicy, v4, allowed,
}
use apipact_agent.Executor.Egress.Ranges.{covered, egress_allowed_iff}

abbrev pub default_policy : EgressPolicy
default_policy = record { allow_private = false; allow = []; block = [] }

-- The IPv4 ranges that stay closed by default, first address and first address after: 0.0.0.0,
-- 10/8, 127/8, 169.254/16, 172.16/12, 192.168/16 and 224.0.0/24.
abbrev pub reserved4 : List (ℕ × ℕ)
reserved4 =
    (0, 1)
    ∷ (0x0a000000, 0x0b000000)
    ∷ (0x7f000000, 0x80000000)
    ∷ (0xa9fe0000, 0xa9ff0000)
    ∷ (0xac100000, 0xac200000)
    ∷ (0xc0a80000, 0xc0a90000)
    ∷ (0xe0000000, 0xe0000100)
    ∷ []

abbrev pub Outside : ℕ → ℕ × ℕ → Type 0
Outside n (lo, hi) = (n < lo) ⊎ (hi ≤ n)

-- The tests that remain for an IPv4 address under the default policy.
abbrev open4 : ℕ → Bool
open4 n = not (covered (v4 n) always_blocked) && not (is_private (v4 n))

default_verdict : (n : ℕ) → (egress_verdict default_policy (v4 n) ≡ allowed) ↔ (open4 n ≡ true)
default_verdict n = ground (arith, egress_allowed_iff default_policy (v4 n))

open4-Outside : (n : ℕ) → open4 n ≡ true → All (Outside n) reserved4
unfolding is_private contains same_net to4
open4-Outside n h = ground arith

Outside-open4 : (n : ℕ) → All (Outside n) reserved4 → open4 n ≡ true
unfolding is_private contains same_net to4
Outside-open4 n h = ground arith

-- With no egress configuration the agent dials an IPv4 address exactly when the address lies
-- outside each of the seven reserved ranges.
default_allows_iff :
    (n : ℕ) → (egress_verdict default_policy (v4 n) ≡ allowed) ↔ All (Outside n) reserved4
default_allows_iff n =
    (λ h. open4-Outside n ((default_verdict n).0 h), λ h. (default_verdict n).1 (Outside-open4 n h))
