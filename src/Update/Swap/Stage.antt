-- ===== src/Update/Swap/Stage.antt =====
-- internal/update/swap.go, StageWorker: what lies in the staged file.
use apipact_agent.Prelude.{
  String, ◌≡◌, refl, ◌↔◌, ◌⊎◌, inl, inr, true, none, some, arith, eq_iff, ◌==◌, Bool-cases, ok, err,
  length,
}
use apipact_agent.Prelude.Int.{pos_part, not_positive}
use apipact_agent.Prelude.Dict.{lookup, insert, lookup-erase, lookup-insert}
use apipact_agent.Executor.Request.{Bytes}
use apipact_agent.Executor.Text.{equal_fold}
use apipact_agent.Update.Manifest.{
  check_worker, download_and_verify, WorkerArtifact, Manifest, Got, Release, bad_request,
  no_response, response,
}
use apipact_agent.Update.Swap.{Files, remove, stage_worker, StageFaults}

module _ (lib : Release) where
  -- A binary that the manifest's artifact describes: its checksum, and its size if one is given.
  abbrev pub Matches : WorkerArtifact → Bytes → Type 0
  Matches a body =
      (equal_fold (lib.hex_sum body) a.sha256 ≡ true)
      × ((not_positive a.size ≡ true) ⊎ (pos_part a.size ≡ length body))

  check_worker_iff :
      (a : WorkerArtifact) (body : Bytes) → (check_worker lib a body ≡ none) ↔ Matches a body
  unfolding check_worker
  check_worker_iff a body = ground arith

  downloaded :
      (m : Manifest) (got : Got)
      → (download_and_verify lib m got).1 ≡ none
      → (status : String) × (body : Bytes) × (got ≡ response 200 status body none)
        × ((download_and_verify lib m got).0 ≡ body)
        × Matches m.worker body
  unfolding download_and_verify
  downloaded m (bad_request e) h = absurd (ground arith)
  downloaded m (no_response e) h = absurd (ground arith)
  downloaded m (response code status body (some e)) h = absurd (ground arith)
  downloaded m (response code status body none) h = elim (Bool-cases (code == 200)) [
    | inr b ↦ absurd (ground arith)
    | inl b ↦
        let is_200 : code ≡ 200 = ground arith in
        let c : check_worker lib m.worker body ≡ none = rw b at h in
        (status, body, rw is_200 refl, rw b refl, (check_worker_iff m.worker body).0 c)
  ]

  staged_ok :
      (f : StageFaults) (m : Manifest) (got : Got) (tmp path : String) (fs : Files)
      → (stage_worker lib f m got tmp fs).0 ≡ ok path
      → (path ≡ tmp)
        × ((download_and_verify lib m got).1 ≡ none)
        × ((stage_worker lib f m got tmp fs).1 ≡ insert tmp (download_and_verify lib m got).0 fs)
  unfolding stage_worker
  staged_ok f m got tmp path fs h = ground arith

  -- StageWorker returns a path only when it has written there, in full, the body of a 200 answer
  -- that has the manifest's checksum, and its size if the manifest gives one.
  pub staged_worker-Matches :
      (f : StageFaults) (m : Manifest) (got : Got) (tmp path : String) (fs : Files)
      → (stage_worker lib f m got tmp fs).0 ≡ ok path
      → (status : String) × (body : Bytes) × (got ≡ response 200 status body none)
        × (lookup path (stage_worker lib f m got tmp fs).1 ≡ some body)
        × Matches m.worker body
  staged_worker-Matches f m got tmp path fs h =
      let (same, none_failed, files) = staged_ok f m got tmp path fs h in
      let (status, body, g, b, c) = downloaded m got none_failed in
      (
        status,
        body,
        g,
        rw (files, same, b) (ground (arith, lookup-insert tmp tmp body fs, eq_iff tmp tmp)),
        c,
      )

  -- When StageWorker fails it leaves no file behind, if its removal works.
  stage_failure_cleans :
      (f : StageFaults) (m : Manifest) (got : Got) (tmp e : String) (fs : Files)
      → lookup tmp fs ≡ none
      → f.remove ≡ none
      → (stage_worker lib f m got tmp fs).0 ≡ err e
      → lookup tmp (stage_worker lib f m got tmp fs).1 ≡ none
  unfolding stage_worker remove
  stage_failure_cleans f m got tmp e fs fresh works h = ground (
    arith,
    lookup-erase tmp tmp (insert tmp (download_and_verify lib m got).0 fs),
    eq_iff tmp tmp,
  )
