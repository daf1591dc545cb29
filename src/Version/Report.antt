-- ===== src/Version/Report.antt =====
-- internal/supervisor/supervisor.go, currentWorkerVersion: what it reads of the line that
-- cmd/worker prints, and what an update cycle decides from it.
use Prim.Native.Char.{Char}
use Prim.Native.String.{◌++◌ as ◌<>◌}
use text.Mathlib.TextLemmas.{append_assoc, append-nil, nil-append, cons-append}
use mathlib.Core.List.{append_assoc as list-append_assoc, append-nil as list-append-nil}
use apipact_agent.Prelude.{
  String, ◌≡◌, refl, sym, ap, ◌∙◌, ◌≢◌, inl, inr, Bool, true, false, ◌&&◌, not, Option, List, [],
  ◌∷◌, ◌++◌, arith, ◌=ₛ◌, eq_iff, Bool-cases, ok,
}
use apipact_agent.Version.{shown_version, version_string, version_line, Build}
use apipact_agent.Update.Version.{should_update}
use apipact_agent.Update.Version.Order.{Newer, should_update_iff, Above-irrefl}
use apipact_agent.Supervisor.Output.{
  ends_field, flush, fields_from, split_fields, second_field, current_worker_version,
}

-- A text without a space, a newline and a tab.
abbrev pub is_word : String → Bool
is_word String.[] = true
is_word (String.◌∷◌ c s) = not (ends_field c) && is_word s

snoc-append :
    (w : String) (c : Char) (s : String) → (w <> String.◌∷◌ c "") <> s ≡ w <> String.◌∷◌ c s
snoc-append w c s =
    append_assoc w (String.◌∷◌ c "") s
    ∙ ap (λ x. w <> x) (cons-append c "" s ∙ ap (λ x. String.◌∷◌ c x) (nil-append s))

fields_from-word :
    (cur : String) (out : List String) (w s : String)
    → is_word w ≡ true
    → fields_from cur out (w <> s) ≡ fields_from (cur <> w) out s
unfolding fields_from
fields_from-word cur out String.[] s h = rw (append-nil cur, nil-append s) refl
fields_from-word cur out (String.◌∷◌ c w) s h =
    let no : ends_field c ≡ false = ground arith in
    let hs : is_word w ≡ true = ground arith in
    ap (λ x. fields_from cur out x) (cons-append c w s)
    ∙ rw (no, fields_from)
        (fields_from-word (cur <> String.◌∷◌ c "") out w s hs
          ∙ ap (λ x. fields_from x out s) (snoc-append cur c w))

flush-prefix :
    (cur : String) (out : List String) → (more : List String) × (flush cur out ≡ out ++ more)
unfolding flush
flush-prefix cur out = elim (Bool-cases (cur =ₛ "")) [
  | inl e ↦ ([], rw e (sym (list-append-nil out)))
  | inr e ↦ (cur ∷ [], rw e refl)
]

-- The fields that the loop has found stay the first.
fields_from-prefix :
    (cur : String) (out : List String) (s : String)
    → (more : List String) × (fields_from cur out s ≡ out ++ more)
unfolding fields_from
fields_from-prefix cur out String.[] = flush-prefix cur out
fields_from-prefix cur out (String.◌∷◌ c s) = elim (Bool-cases (ends_field c)) [
  | inl e ↦
      let (first, p) = flush-prefix cur out in
      let (more, q) = fields_from-prefix "" (flush cur out) s in
      (first ++ more, rw e (q ∙ ap (λ x. x ++ more) p ∙ list-append_assoc out first more))
  | inr e ↦ let (more, q) = fields_from-prefix (cur <> String.◌∷◌ c "") out s in (more, rw e q)
]

-- A word that a separator follows is a field.
fields_from-field :
    (out : List String) (w : String) (c : Char) (s : String)
    → is_word w ≡ true
    → (w =ₛ "") ≡ false
    → ends_field c ≡ true
    → fields_from "" out (w <> String.◌∷◌ c s) ≡ fields_from "" (out ++ (w ∷ [])) s
unfolding fields_from flush
fields_from-field out w c s h n e =
    fields_from-word "" out w (String.◌∷◌ c s) h
    ∙ ap (λ x. fields_from x out (String.◌∷◌ c s)) (nil-append w)
    ∙ rw (e, n) refl

second_field-append : (a b : String) (more : List String) → second_field ((a ∷ b ∷ []) ++ more) ≡ b
unfolding second_field
second_field-append a b more = refl

-- The printed line, cut after its first two separators.
line_form :
    (v r : String)
    → "apipact-worker" <> (" " <> ((v <> (" (" <> r)) <> "\n"))
      ≡ "apipact-worker" <> String.◌∷◌ " " (v <> String.◌∷◌ " " ("(" <> (r <> "\n")))
line_form v r =
    let inner : (v <> (" (" <> r)) <> "\n" ≡ v <> String.◌∷◌ " " ("(" <> (r <> "\n")) =
      append_assoc v (" (" <> r) "\n"
      ∙ ap (λ x. v <> x) (append_assoc " (" r "\n" ∙ cons-append " " "(" (r <> "\n")) in
    ap (λ x. "apipact-worker" <> x)
      (cons-append " " "" ((v <> (" (" <> r)) <> "\n")
        ∙ ap (λ x. String.◌∷◌ " " x) (nil-append ((v <> (" (" <> r)) <> "\n") ∙ inner))

-- What follows a second field does not matter.
second_of_line :
    (v r : String)
    → is_word v ≡ true
    → v ≢ ""
    → second_field (fields_from "" [] ("apipact-worker" <> String.◌∷◌ " " (v <> String.◌∷◌ " " r)))
      ≡ v
unfolding ends_field
second_of_line v r h n =
    let (more, e) = fields_from-prefix "" ("apipact-worker" ∷ v ∷ []) r in
    ap second_field (
      fields_from-field [] "apipact-worker" " " (v <> String.◌∷◌ " " r) refl refl refl
      ∙ fields_from-field ("apipact-worker" ∷ []) v " " r h (ground (arith, eq_iff v "")) refl
      ∙ e)
    ∙ second_field-append "apipact-worker" v more

-- The supervisor reads back the version that the worker prints, if that is a word: not empty, and
-- without a space, a newline and a tab.
current_worker_version-version_line :
    (b : Build) (info : Option String)
    → is_word (shown_version b info) ≡ true
    → shown_version b info ≢ ""
    → current_worker_version (ok (version_line b info)) ≡ shown_version b info
unfolding current_worker_version split_fields version_line version_string
current_worker_version-version_line b info h n =
    let v = shown_version b info in
    let rest = b.commit <> (", " <> (b.date <> ")")) in
    ap (λ x. second_field (fields_from "" [] x)) (line_form v rest)
    ∙ second_of_line v ("(" <> (rest <> "\n")) h n

-- A version is not newer than itself.
not_Newer : (v : String) → ¬ Newer v v
not_Newer v (inl (p, q, hp, hq, h)) =
    let same : q ≡ p = ground arith in Above-irrefl p (rw same at h)
not_Newer v (inr (u, n, _, _)) = n refl

should_update-same : (pinned v : String) → should_update v pinned v ≡ false
should_update-same pinned v = elim (Bool-cases (should_update v pinned v)) [
  | inl e ↦ elim ((should_update_iff v pinned v).0 e) [
    | inl (_, _, n) ↦ absurd (n refl)
    | inr (_, n) ↦ absurd (not_Newer v n)
  ]
  | inr e ↦ e
]

-- Once the installed worker prints the version of the manifest, no cycle updates it again, with any
-- pin, as long as that version is not empty and has no space, newline and tab.
pub installed_is_settled :
    (b : Build) (info : Option String) (pinned version : String)
    → shown_version b info ≡ version
    → is_word version ≡ true
    → version ≢ ""
    → should_update (current_worker_version (ok (version_line b info))) pinned version ≡ false
installed_is_settled b info pinned version e h n =
    ap (λ x. should_update x pinned version)
      (current_worker_version-version_line b info (rw e h) (rw e n) ∙ e)
    ∙ should_update-same pinned version
