-- ===== src/Update/Swap/Undo.antt =====
-- internal/update/swap.go: what Promote leaves of the running binary, and Rollback after it.
use text.Mathlib.TextLemmas.{append_cancel_left, append-nil}
use apipact_agent.Prelude.{
  String, ◌≡◌, refl, sym, ap, ◌∙◌, ◌≢◌, ◌⊎◌, inl, inr, true, Option, none, some, arith, ◌=ₛ◌,
  eq_iff, Option-cases, is_some,
}
use apipact_agent.Prelude.Dict.{lookup, erase, insert, lookup-erase, lookup-insert}
use apipact_agent.Executor.Request.{Bytes}
use apipact_agent.Update.Swap.{
  Files, Fault, previous, rename, install, after_save, promote, rollback, PromoteFaults,
}

previous-differs : (dest : String) → dest ≢ previous dest
previous-differs dest h =
    let e : "" ≡ ".prev" = append_cancel_left dest "" ".prev" (append-nil dest ∙ h) in
    let t : ("" =ₛ ".prev") ≡ true = (eq_iff "" ".prev").1 e in absurd (ground arith)

-- A rename that succeeds has found its file and moved it.
renamed :
    (f : Fault) (old new : String) (fs : Files)
    → (rename f old new fs).0 ≡ none
    → (body : Bytes) × (lookup old fs ≡ some body)
      × ((rename f old new fs).1 ≡ insert new body (erase old fs))
unfolding rename
renamed none old new fs h = elim (Option-cases (lookup old fs)) [
  | inl q ↦ absurd (ground arith)
  | inr (body, q) ↦ (body, q, rw (q, rename) refl)
]
renamed (some e) old new fs h = absurd (ground arith)

-- A rename that fails changes nothing.
not_renamed :
    (f : Fault) (old new e : String) (fs : Files)
    → (rename f old new fs).0 ≡ some e
    → (rename f old new fs).1 ≡ fs
unfolding rename
not_renamed none old new e fs h = elim (Option-cases (lookup old fs)) [
  | inl q ↦ rw (q, rename) refl
  | inr (body, q) ↦ absurd (ground arith)
]
not_renamed (some x) old new e fs h = refl

moved_new :
    (old new : String) (body : Bytes) (fs : Files)
    → lookup new (insert new body (erase old fs)) ≡ some body
moved_new old new body fs =
    ground (arith, lookup-insert new new body (erase old fs), eq_iff new new)

moved_old :
    (old new : String) (body : Bytes) (fs : Files)
    → old ≢ new
    → lookup old (insert new body (erase old fs)) ≡ none
moved_old old new body fs n = ground (
  arith,
  lookup-insert new old body (erase old fs),
  lookup-erase old old fs,
  eq_iff new old,
  eq_iff old old,
)

moved_other :
    (old new other : String) (body : Bytes) (fs : Files)
    → other ≢ old
    → other ≢ new
    → lookup other (insert new body (erase old fs)) ≡ lookup other fs
moved_other old new other body fs n m = ground (
  arith,
  lookup-insert new other body (erase old fs),
  lookup-erase old other fs,
  eq_iff new other,
  eq_iff old other,
)

-- The pair of an outcome and the files after it, for a rename that has moved `old`.
rename_done :
    (old new : String) (body : Bytes) (fs : Files)
    → lookup old fs ≡ some body
    → rename none old new fs ≡ (none, insert new body (erase old fs))
unfolding rename
rename_done old new body fs q = rw (q, rename) refl

module _ (staged dest : String) (apart : staged ≢ dest) (apart' : staged ≢ previous dest)
    (fs : Files) (old : Bytes) (running : lookup dest fs ≡ some old) where
  -- The files after the first rename of Promote.
  abbrev saved : Files
  saved = insert (previous dest) old (erase dest fs)

  promote_lem :
      (f : PromoteFaults)
      → promote f staged dest fs ≡ after_save f staged dest (rename f.save dest (previous dest) fs)
  unfolding promote
  promote_lem f = rw running refl

  -- The three ways that Promote goes where a binary is running: it cannot save it, it cannot
  -- install the new one and tries to restore, or it installs the new one.
  abbrev Ways : PromoteFaults → Option String × Files → Type 0
  Ways f (failed, gs) =
      ((is_some failed ≡ true) × (gs ≡ fs))
      ⊎ (((is_some failed ≡ true) × (gs ≡ (rename f.restore (previous dest) dest saved).1))
          ⊎ ((new : Bytes) × (lookup staged saved ≡ some new)
              × (failed ≡ none)
              × (gs ≡ insert dest new (erase staged saved))))

  installed :
      (restore : Fault) (r : Option String × Files) → r.0 ≡ none → install restore staged dest r ≡ r
  unfolding install
  installed restore (none, gs) h = refl
  installed restore (some e, gs) h = absurd (ground arith)

  not_installed :
      (restore : Fault) (e : String) (r : Option String × Files)
      → r.0 ≡ some e
      → (is_some (install restore staged dest r).0 ≡ true)
        × ((install restore staged dest r).1 ≡ (rename restore (previous dest) dest r.1).1)
  unfolding install
  not_installed restore e (none, gs) h = absurd (ground arith)
  not_installed restore e (some x, gs) h = (refl, refl)

  install-Ways :
      (f : PromoteFaults) → Ways f (install f.restore staged dest (rename f.move staged dest saved))
  install-Ways f = elim (Option-cases (rename f.move staged dest saved).0) [
    | inr (e, q) ↦
        let same = not_renamed f.move staged dest e saved q in
        let (i, j) = not_installed f.restore e (rename f.move staged dest saved) q in
        inr (inl (i, j ∙ ap (λ gs. (rename f.restore (previous dest) dest gs).1) same))
    | inl q ↦
        let (new, found, moved) = renamed f.move staged dest saved q in
        let i = installed f.restore (rename f.move staged dest saved) q in
        inr (inr (new, found, ap (λ r. r.0) i ∙ q, ap (λ r. r.1) i ∙ moved))
  ]

  promote-Ways : (f : PromoteFaults) → Ways f (promote f staged dest fs)
  unfolding after_save
  promote-Ways f = elim (Option-cases f.save) [
    | inr (e, q) ↦ rw (promote_lem f) (simp (q, rename) (inl (refl, refl)))
    | inl q ↦
        rw (promote_lem f)
          (simp q (rw (rename_done dest (previous dest) old fs running) (install-Ways f)))
  ]

  rollback_done :
      (gs : Files)
      → lookup (previous dest) gs ≡ some old
      → rollback none dest gs ≡ (none, insert dest old (erase (previous dest) gs))
  unfolding rollback
  rollback_done gs q = rw q (rename_done (previous dest) dest old gs q)

  saved-staged : lookup staged saved ≡ lookup staged fs
  saved-staged = moved_other dest (previous dest) staged old fs apart apart'

  saved-previous : lookup (previous dest) saved ≡ some old
  saved-previous = moved_new dest (previous dest) old fs

  saved-dest : lookup dest saved ≡ none
  saved-dest = moved_old dest (previous dest) old fs (previous-differs dest)

  previous-apart : previous dest ≢ staged
  previous-apart h = apart' (sym h)

  previous-dest : previous dest ≢ dest
  previous-dest h = previous-differs dest (sym h)

  -- A Promote that succeeds puts the staged binary in place and keeps the one that was running,
  -- and a Rollback after it, if its rename works, succeeds and puts the old one back.
  pub rollback_undoes_promote :
      (f : PromoteFaults)
      → (promote f staged dest fs).0 ≡ none
      → (lookup dest (promote f staged dest fs).1 ≡ lookup staged fs)
        × (lookup (previous dest) (promote f staged dest fs).1 ≡ some old)
        × ((rollback none dest (promote f staged dest fs).1).0 ≡ none)
        × (lookup dest (rollback none dest (promote f staged dest fs).1).1 ≡ some old)
  rollback_undoes_promote f h = elim (promote-Ways f) [
    | inl (e, _) ↦ absurd (ground arith)
    | inr (inl (e, _)) ↦ absurd (ground arith)
    | inr (inr (new, found, _, gs)) ↦
        let g = insert dest new (erase staged saved) in
        let prev : lookup (previous dest) g ≡ some old =
          moved_other staged dest (previous dest) new saved previous-apart previous-dest
          ∙ saved-previous in
        let back = rollback_done g prev in
        rw gs (
          moved_new staged dest new saved ∙ sym found ∙ saved-staged,
          prev,
          ap (λ r. r.0) back,
          ap (λ r. lookup dest r.1) back ∙ moved_new (previous dest) dest old g,
        )
  ]

  -- A Promote that fails leaves the running binary in place, unless the rename that restores it
  -- fails too.
  pub promote_failure_keeps :
      (f : PromoteFaults)
      → is_some (promote f staged dest fs).0 ≡ true
      → (lookup dest (promote f staged dest fs).1 ≡ some old) ⊎ (is_some f.restore ≡ true)
  promote_failure_keeps f h = elim (promote-Ways f) [
    | inl (_, gs) ↦ inl (ap (λ x. lookup dest x) gs ∙ running)
    | inr (inl (_, gs)) ↦ elim (Option-cases f.restore) [
      | inr (e, q) ↦ inr (rw q refl)
      | inl q ↦ inl (
          ap (λ x. lookup dest x) gs
          ∙ ap (λ x. lookup dest (rename x (previous dest) dest saved).1) q
          ∙ ap (λ r. lookup dest r.1) (rename_done (previous dest) dest old saved saved-previous)
          ∙ moved_new (previous dest) dest old saved)
    ]
    | inr (inr (new, found, e, _)) ↦ absurd (ground arith)
  ]
