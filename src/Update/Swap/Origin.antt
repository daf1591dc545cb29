-- ===== src/Update/Swap/Origin.antt =====
-- internal/update/swap.go: where the contents of a path come from after its operations.
use apipact_agent.Prelude.{
  String, ◌≡◌, sym, ◌∙◌, ◌≢◌, ◌⊎◌, inl, inr, Option, none, some, arith, ◌=ₛ◌, eq_iff, Bool-cases,
  Option-cases,
}
use apipact_agent.Prelude.Dict.{lookup, erase, insert, lookup-erase, lookup-insert}
use apipact_agent.Executor.Request.{Bytes}
use apipact_agent.Update.Manifest.{download_and_verify, Manifest, Got, Release}
use apipact_agent.Update.Swap.{
  Files, Fault, previous, rename, exists, install, after_save, promote, rollback, remove,
  stage_worker, PromoteFaults, StageFaults,
}

-- Every content of the path satisfies the predicate.
abbrev pub Holding : (Bytes → Type 0) → Files → String → Type 0
Holding T fs k = (b : Bytes) → lookup k fs ≡ some b → T b

module _ (T : Bytes → Type 0) where
  erase-Holding : (fs : Files) (j k : String) → Holding T fs k → Holding T (erase j fs) k
  erase-Holding fs j k h b e = h b (ground (arith, lookup-erase j k fs))

  insert-Holding :
      (fs : Files) (j k : String) (x : Bytes) → T x → Holding T fs k → Holding T (insert j x fs) k
  insert-Holding fs j k x t h b e = elim (Bool-cases (j =ₛ k)) [
    | inl same ↦
        let found : some x ≡ some b = sym (ground (arith, lookup-insert j k x fs)) ∙ e in
        let same_body : x ≡ b = ground arith in rw same_body at t
    | inr other ↦ h b (ground (arith, lookup-insert j k x fs))
  ]

  pub remove-Holding :
      (f : Fault) (fs : Files) (j k : String) → Holding T fs k → Holding T (remove f j fs) k
  unfolding remove
  remove-Holding none fs j k h = erase-Holding fs j k h
  remove-Holding (some e) fs j k h = h

  rename-Holding :
      (f : Fault) (fs : Files) (a b k : String)
      → Holding T fs a
      → Holding T fs k
      → Holding T (rename f a b fs).1 k
  unfolding rename
  rename-Holding (some e) fs a b k ha hk = hk
  rename-Holding none fs a b k ha hk = elim (Option-cases (lookup a fs)) [
    | inl q ↦ rw (q, rename) hk
    | inr (x, q) ↦
        rw (q, rename) (insert-Holding (erase a fs) b k x (ha x q) (erase-Holding fs a k hk))
  ]

  install-Holding :
      (f : Fault) (staged dest k : String) (r : Option String × Files)
      → Holding T r.1 (previous dest)
      → Holding T r.1 k
      → Holding T (install f staged dest r).1 k
  unfolding install
  install-Holding f staged dest k (none, fs) hp hk = hk
  install-Holding f staged dest k (some e, fs) hp hk =
      rename-Holding f fs (previous dest) dest k hp hk

  after_save-Holding :
      (f : PromoteFaults) (staged dest k : String) (r : Option String × Files)
      → Holding T r.1 staged
      → Holding T r.1 (previous dest)
      → Holding T r.1 k
      → Holding T (after_save f staged dest r).1 k
  unfolding after_save
  after_save-Holding f staged dest k (some e, fs) hs hp hk = hk
  after_save-Holding f staged dest k (none, fs) hs hp hk =
      install-Holding f.restore staged dest k (rename f.move staged dest fs)
        (rename-Holding f.move fs staged dest (previous dest) hs hp)
        (rename-Holding f.move fs staged dest k hs hk)

  pub promote-Holding :
      (f : PromoteFaults) (staged dest k : String) (fs : Files)
      → Holding T fs staged
      → Holding T fs dest
      → Holding T fs (previous dest)
      → Holding T fs k
      → Holding T (promote f staged dest fs).1 k
  unfolding promote
  promote-Holding f staged dest k fs hs hd hp hk = elim (Bool-cases (exists dest fs)) [
    | inr b ↦ rw b (after_save-Holding f staged dest k (none, fs) hs hp hk)
    | inl b ↦ rw b (
        after_save-Holding f staged dest k (rename f.save dest (previous dest) fs)
          (rename-Holding f.save fs dest (previous dest) staged hd hs)
          (rename-Holding f.save fs dest (previous dest) (previous dest) hd hp)
          (rename-Holding f.save fs dest (previous dest) k hd hk))
  ]

  pub rollback-Holding :
      (f : Fault) (dest k : String) (fs : Files)
      → Holding T fs (previous dest)
      → Holding T fs k
      → Holding T (rollback f dest fs).1 k
  unfolding rollback
  rollback-Holding f dest k fs hp hk = elim (Bool-cases (exists (previous dest) fs)) [
    | inr b ↦ rw b hk
    | inl b ↦ rw b (rename-Holding f fs (previous dest) dest k hp hk)
  ]

  -- The files after StageWorker: as before, or with the staged file written, or written and removed.
  stage-files :
      (lib : Release) (f : StageFaults) (m : Manifest) (got : Got) (path : String) (fs : Files)
      → let body = (download_and_verify lib m got).0 in
        let gs = (stage_worker lib f m got path fs).1 in
        (gs ≡ fs) ⊎ (gs ≡ insert path body fs) ⊎ (gs ≡ remove f.remove path (insert path body fs))
  unfolding stage_worker
  stage-files lib f m got path fs = ground arith

  insert_other-Holding :
      (fs : Files) (j k : String) (x : Bytes) → j ≢ k → Holding T fs k → Holding T (insert j x fs) k
  insert_other-Holding fs j k x n h b e = h b (ground (arith, lookup-insert j k x fs, eq_iff j k))

  -- StageWorker touches its own path alone.
  pub stage_worker-Holding :
      (lib : Release) (f : StageFaults) (m : Manifest) (got : Got) (path k : String) (fs : Files)
      → path ≢ k
      → Holding T fs k
      → Holding T (stage_worker lib f m got path fs).1 k
  stage_worker-Holding lib f m got path k fs n h =
      let body = (download_and_verify lib m got).0 in
      let written = insert_other-Holding fs path k body n h in
      elim (stage-files lib f m got path fs) [
        | inl e ↦ rw e h
        | inr (inl e) ↦ rw e written
        | inr (inr e) ↦ rw e (remove-Holding f.remove (insert path body fs) path k written)
      ]
