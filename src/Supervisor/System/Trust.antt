-- ===== src/Supervisor/System/Trust.antt =====
-- internal/supervisor/supervisor.go: which binaries a supervisor ever starts.
use apipact_agent.Prelude.{
  ℕ, String, ◌≡◌, sym, ap, ◌∙◌, ◌≢◌, ◌⊎◌, inl, inr, some, List, [], ◌∷◌, arith, ◌==◌, Bool-cases,
  Option-cases, Result, ok, length, All,
}
use apipact_agent.Prelude.Dict.{lookup}
use apipact_agent.Executor.Request.{Bytes}
use apipact_agent.Update.Manifest.{fetch_manifest, decode_release_key, Manifest, Got, Release}
use apipact_agent.Update.Swap.{
  Files, Fault, previous, promote, rollback, remove, stage_worker, PromoteFaults, StageFaults,
}
use apipact_agent.Update.Swap.Stage.{Matches, staged_worker-Matches}
use apipact_agent.Update.Swap.Origin.{
  Holding, remove-Holding, promote-Holding, rollback-Holding, stage_worker-Holding,
}
use apipact_agent.Supervisor.System.{
  kill, start_child, set_child, stop_child, cycle_ends, Process, UpdatePhase, System, Settings,
  Step, Reach, resting, eligible, staged, checked, stopped, promoted, promote_failed, unhealthy,
  stopped_again, rolled_back, launched, relaunched, process_exits, loop_starts, update_found,
  update_staged, update_not_staged, update_checked, update_not_checked, update_stops,
  update_promotes, update_not_promoted, update_starts, update_succeeds, update_unready,
  update_not_started, update_stops_again, update_rolls_back, update_restarts, update_has_restarted,
  update_not_restarted, run_stops, here, next,
}

module _ (lib : Release) (set : Settings) (Passed : Bytes → Type 0)
    (Original : Bytes → Type 0) where
  -- A binary of a manifest that the configured release key vouches for.
  pub record IsRelease (b : Bytes) : Type 0 where
    pub key : Bytes
    pub got : Got
    pub manifest : Manifest
    pub decoded : decode_release_key lib set.release_signer ≡ ok key
    pub fetched : fetch_manifest lib key got ≡ ok manifest
    pub matches : Matches lib manifest.worker b

  -- A binary that was there at the start, or a release that has passed its self-check.
  abbrev pub IsTrusted : Bytes → Type 0
  IsTrusted b = Original b ⊎ (IsRelease b × Passed b)

  -- The manifest of a cycle comes from the release key.
  abbrev IsSigned : Manifest → Type 0
  IsSigned m =
      (key : Bytes) × (got : Got) × (decode_release_key lib set.release_signer ≡ ok key)
      × (fetch_manifest lib key got ≡ ok m)

  -- What a cycle knows of the path that it has staged.
  abbrev IsKnown : UpdatePhase → Files → Type 0
  IsKnown resting fs = Unit
  IsKnown (eligible m) fs = IsSigned m
  IsKnown (staged m path) fs = Holding IsRelease fs path
  IsKnown (checked path) fs = Holding IsTrusted fs path
  IsKnown (stopped path) fs = Holding IsTrusted fs path
  IsKnown _ fs = Unit

  pub record IsSound (fs : Files) (u : UpdatePhase) (ps : List Process) : Type 0 where
    pub current : Holding IsTrusted fs set.worker_bin
    pub saved : Holding IsTrusted fs (previous set.worker_bin)
    pub known : IsKnown u fs
    pub workers : All (λ p. IsTrusted p.image) ps

  with_phase :
      {fs : Files} {u : UpdatePhase} {ps : List Process} (v : UpdatePhase)
      → IsSound fs u ps
      → IsKnown v fs
      → IsSound fs v ps
  with_phase v i k = record { current = i.current; saved = i.saved; known = k; workers = i.workers }

  with_workers :
      {fs : Files} {u : UpdatePhase} {ps qs : List Process}
      → IsSound fs u ps
      → All (λ p. IsTrusted p.image) qs
      → IsSound fs u qs
  with_workers i ws = record { current = i.current; saved = i.saved; known = i.known; workers = ws }

  -- A cycle that ends removes its staged file.
  removed-IsSound :
      {fs : Files} {u : UpdatePhase} {ps : List Process} (f : Fault) (path : String)
      → IsSound fs u ps
      → IsSound (remove f path fs) resting ps
  removed-IsSound {fs} f path i = record {
    current = remove-Holding IsTrusted f fs path set.worker_bin i.current;
    saved = remove-Holding IsTrusted f fs path (previous set.worker_bin) i.saved;
    known = tt;
    workers = i.workers;
  }

  kill-trusted :
      (pid : ℕ) (ps : List Process)
      → All (λ p. IsTrusted p.image) ps
      → All (λ p. IsTrusted p.image) (kill pid ps)
  unfolding kill
  kill-trusted pid [] h = tt
  kill-trusted pid (p ∷ ps) (h, hs) = elim (Bool-cases (p.pid == pid)) [
    | inl b ↦ rw b (h, kill-trusted pid ps hs)
    | inr b ↦ rw b (h, kill-trusted pid ps hs)
  ]

  stop_child-trusted :
      (s : System)
      → All (λ p. IsTrusted p.image) s.processes
      → All (λ p. IsTrusted p.image) (stop_child s).processes
  unfolding stop_child
  stop_child-trusted s h = elim (Option-cases s.child) [
    | inl q ↦ simp q h
    | inr (pid, q) ↦ simp q (kill-trusted pid s.processes h)
  ]

  staged-IsSound :
      {fs files : Files} {u : UpdatePhase} {ps : List Process} (m : Manifest) (f : StageFaults)
      (got : Got) (path : String) (r : Result String String)
      → path ≢ set.worker_bin
      → path ≢ previous set.worker_bin
      → stage_worker lib f m got path fs ≡ (r, files)
      → IsSound fs u ps
      → IsSound files resting ps
  staged-IsSound {fs} m f got path r n n' e i =
      let moved = ap (λ x. x.1) e in
      record {
        current =
            rw moved at
              (stage_worker-Holding IsTrusted lib f m got path set.worker_bin fs n i.current);
        saved = rw moved at (
            stage_worker-Holding IsTrusted lib f m got path (previous set.worker_bin) fs n'
              i.saved);
        known = tt;
        workers = i.workers;
      }

  -- What StageWorker leaves at its path is a release.
  staged-IsRelease :
      (fs : Files) {files : Files} (m : Manifest) (f : StageFaults) (got : Got) (path : String)
      → IsSigned m
      → stage_worker lib f m got path fs ≡ (ok path, files)
      → Holding IsRelease files path
  staged-IsRelease fs {files} m f got path (key, source, d, v) e b found =
      let (status, body, g, at, fits) =
        staged_worker-Matches lib f m got path path fs (ap (λ x. x.0) e) in
      let stored : lookup path files ≡ some body = ap (λ x. lookup path x.1) (sym e) ∙ at in
      let same : body ≡ b = ground arith in
      record {
        key = key;
        got = source;
        manifest = m;
        decoded = d;
        fetched = v;
        matches = rw same at fits;
      }

  promoted-IsSound :
      {fs : Files} {ps : List Process} (f : PromoteFaults) (path : String)
      → IsSound fs (stopped path) ps
      → IsSound (promote f path set.worker_bin fs).1 resting ps
  promoted-IsSound {fs} f path i =
      let at = promote-Holding IsTrusted f path set.worker_bin in
      record {
        current = at set.worker_bin fs i.known i.current i.saved i.current;
        saved = at (previous set.worker_bin) fs i.known i.current i.saved i.saved;
        known = tt;
        workers = i.workers;
      }

  rolled_back-IsSound :
      {fs : Files} {u : UpdatePhase} {ps : List Process} (f : Fault)
      → IsSound fs u ps
      → IsSound (rollback f set.worker_bin fs).1 resting ps
  rolled_back-IsSound {fs} f i = record {
    current = rollback-Holding IsTrusted f set.worker_bin set.worker_bin fs i.saved i.current;
    saved =
        rollback-Holding IsTrusted f set.worker_bin (previous set.worker_bin) fs i.saved i.saved;
    known = tt;
    workers = i.workers;
  }

  in_phase :
      {fs : Files} {u v : UpdatePhase} {ps : List Process}
      → u ≡ v
      → IsSound fs u ps
      → IsSound fs v ps
  in_phase e i = rw e at i

  Step-IsSound :
      {s t : System}
      → Step lib set Passed s t
      → IsSound s.files s.update s.processes
      → IsSound t.files t.update t.processes
  unfolding start_child set_child cycle_ends stop_child
  Step-IsSound {s} (process_exits pid) i = with_workers i (kill-trusted pid s.processes i.workers)
  Step-IsSound (loop_starts {image = image} a b found) i =
      with_workers i (i.current image found, i.workers)
  Step-IsSound (update_found {m = m} key got v a b c d e f) i =
      with_phase (eligible m) i (key, got, d, e)
  Step-IsSound {s} (update_staged {m = m} {path} f got a n n' e) i =
      with_phase (staged m path) (staged-IsSound m f got path _ n n' e i)
        (staged-IsRelease s.files m f got path (in_phase a i).known e)
  Step-IsSound (update_not_staged {m = m} {path} f got a n n' e) i =
      staged-IsSound m f got path _ n n' e i
  Step-IsSound (update_checked {path = path} {image} a found passed) i =
      with_phase (checked path) i λ b at.
        inr ((in_phase a i).known b at, let same : image ≡ b = ground arith in rw same at passed)
  Step-IsSound (update_not_checked {path = path} f a) i = removed-IsSound f path i
  Step-IsSound {s} (update_stops {path = path} a) i =
      with_workers (with_phase (stopped path) i (in_phase a i).known)
        (stop_child-trusted s i.workers)
  Step-IsSound (update_promotes {path = path} f a e) i =
      let moved = ap (λ x. x.1) e in
      with_phase (promoted path) (rw moved at (promoted-IsSound f path (in_phase a i))) tt
  Step-IsSound (update_not_promoted {path = path} f a e) i =
      let moved = ap (λ x. x.1) e in
      with_phase (promote_failed path) (rw moved at (promoted-IsSound f path (in_phase a i))) tt
  Step-IsSound {s} (update_starts {path = path} {image} a c found) i =
      with_phase (launched path (length s.processes))
        (with_workers i (i.current image found, i.workers)) tt
  Step-IsSound (update_succeeds {path = path} f a) i = removed-IsSound f path i
  Step-IsSound (update_unready {path = path} a) i = with_phase (unhealthy path) i tt
  Step-IsSound (update_not_started {path = path} a) i = with_phase (unhealthy path) i tt
  Step-IsSound {s} (update_stops_again {path = path} a) i =
      with_phase (stopped_again path) (with_workers i (stop_child-trusted s i.workers)) tt
  Step-IsSound (update_rolls_back {path = path} f a) i =
      with_phase (rolled_back path) (rolled_back-IsSound f i) tt
  Step-IsSound {s} (update_restarts {path = path} {image} a c found) i =
      with_phase (relaunched path (length s.processes))
        (with_workers i (i.current image found, i.workers)) tt
  Step-IsSound (update_has_restarted {path = path} f a) i = removed-IsSound f path i
  Step-IsSound (update_not_restarted {path = path} f a) i = removed-IsSound f path i
  Step-IsSound {s} (run_stops a) i = with_workers i (stop_child-trusted s i.workers)
  Step-IsSound _ i = i

  Reach-IsSound :
      {s t : System}
      → Reach lib set Passed s t
      → IsSound s.files s.update s.processes
      → IsSound t.files t.update t.processes
  Reach-IsSound here i = i
  Reach-IsSound (next r st) i = Step-IsSound st (Reach-IsSound r i)

  All-original :
      (ps : List Process) → All (λ p. Original p.image) ps → All (λ p. IsTrusted p.image) ps
  All-original [] h = tt
  All-original (p ∷ ps) (h, hs) = (inl h, All-original ps hs)

  IsSound-at_start :
      (s : System)
      → Holding Original s.files set.worker_bin
      → Holding Original s.files (previous set.worker_bin)
      → All (λ p. Original p.image) s.processes
      → s.update ≡ resting
      → IsSound s.files s.update s.processes
  IsSound-at_start s a b c e = record {
    current = λ x h. inl (a x h);
    saved = λ x h. inl (b x h);
    known = rw e tt;
    workers = All-original s.processes c;
  }

  -- Every worker that the supervisor ever starts runs a binary that was there at the start, or one
  -- whose checksum, and size if one is given, are those of a manifest signed by the configured
  -- release key, and that has passed its self-check: whatever the network answers, whichever calls of
  -- the file system fail and whenever workers end, and however superviseLoop and checkAndApply
  -- interleave.
  pub workers_trusted :
      {s t : System}
      → Holding Original s.files set.worker_bin
      → Holding Original s.files (previous set.worker_bin)
      → All (λ p. Original p.image) s.processes
      → s.update ≡ resting
      → Reach lib set Passed s t
      → All (λ p. IsTrusted p.image) t.processes
  workers_trusted {s} a b c e r = (Reach-IsSound r (IsSound-at_start s a b c e)).workers
