-- ===== src/Agentctl/Labels.antt =====
-- cmd/agentctl/main.go, labelFlags.Set: what a --label flag stores.
use Prim.Native.Char.{code}
use Prim.Native.String.{◌++◌ as ◌<>◌}
use text.Mathlib.TextLemmas.{nil-append, cons-append}
use apipact_agent.Prelude.{
  String, ◌≡◌, refl, ap, ◌∙◌, ◌≢◌, Bool, true, false, ◌&&◌, not, some, arith, ◌=ₛ◌, eq_iff, ◌==◌,
  ok,
}
use apipact_agent.Prelude.Dict.{Dict, insert}
use apipact_agent.Agentctl.{cut_at_equals, set_label}

abbrev no_equals : String → Bool
no_equals String.[] = true
no_equals (String.◌∷◌ c s) = not (code c == b'=') && no_equals s

cut_at_equals-append :
    (k v : String) → no_equals k ≡ true → cut_at_equals (k <> String.◌∷◌ "=" v) ≡ some (k, v)
unfolding cut_at_equals
cut_at_equals-append String.[] v h = ap cut_at_equals (nil-append (String.◌∷◌ "=" v))
cut_at_equals-append (String.◌∷◌ c k) v h =
    let other : (code c == b'=') ≡ false = ground arith in
    let rest : no_equals k ≡ true = ground arith in
    ap cut_at_equals (cons-append c k (String.◌∷◌ "=" v))
    ∙ rw (other, cut_at_equals-append k v rest) refl

-- A label key=value is stored under its key, which ends at the first equals sign, and replaces an
-- earlier one of the same key; the value may have any characters.
set_label-append :
    (k v : String) (m : Dict String)
    → no_equals k ≡ true
    → k ≢ ""
    → set_label (k <> String.◌∷◌ "=" v) m ≡ ok (insert k v m)
unfolding set_label
set_label-append k v m h n =
    let named : (k =ₛ "") ≡ false = ground (arith, eq_iff k "") in
    rw (set_label, cut_at_equals-append k v h, named) refl
