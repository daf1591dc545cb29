-- ===== src/Tests/Supervisor.antt =====
-- internal/supervisor/supervisor.go: an update that is installed, beside a loop that restarts.
use apipact_agent.Prelude.{
  ℕ, ◌+◌, ◌*◌, ◌≤◌, String, ◌≡◌, refl, inr, true, false, none, some, [], ◌∷◌, arith, ok, All,
}
use apipact_agent.Prelude.Int.{pos}
use apipact_agent.Prelude.Dict.{lookup, erase, insert}
use apipact_agent.Executor.Request.{Bytes}
use apipact_agent.Executor.Text.{fold_code, equal_fold}
use apipact_agent.Update.Version.{parse_semver, newer_numbers, is_newer, should_update}
use apipact_agent.Update.Manifest.{
  read_all, check_manifest, open_payload, open_signed, fetch_manifest, check_worker,
  download_and_verify, decode_release_key, Manifest, Got, Release, response,
}
use apipact_agent.Update.Swap.{
  Files, rename, install, after_save, promote, remove, stage_worker, PromoteFaults, StageFaults,
}
use apipact_agent.Update.Swap.Origin.{Holding}
use apipact_agent.Version.{shown_version, version_string, version_line, Build}
use apipact_agent.Version.Report.{is_word, installed_is_settled}
use apipact_agent.Supervisor.Output.{ends_field, current_worker_version}
use apipact_agent.Supervisor.Polling.{answers_ok, wait_from, wait_ready, Poll, Verdict, late}
use apipact_agent.Supervisor.Polling.Returns.{wait_ready_returns, IsVerdict}
use apipact_agent.Supervisor.System.{
  kill, is_dead, start_child, set_child, stop_child, next_backoff, initial, cycle_ends, System,
  Settings, Reach, reading, sleeping, waiting, ended, resting, staged, stopped, promoted,
  process_exits, loop_reads, loop_sees_exit, loop_leaves, loop_starts, loop_has_started,
  update_found, update_staged, update_checked, update_stops, update_promotes, update_starts,
  update_succeeds, run_stops, here, next,
}
use apipact_agent.Supervisor.System.Trust.{IsTrusted, workers_trusted}
use apipact_agent.Supervisor.System.Single.{live}
use apipact_agent.Supervisor.System.External.{external_single}
use apipact_agent.Tests.{texts_differ}

abbrev key : Bytes
key =
    0 ∷ 0 ∷ 0 ∷ 0 ∷ 0 ∷ 0 ∷ 0 ∷ 0 ∷ 0 ∷ 0 ∷ 0 ∷ 0 ∷ 0 ∷ 0 ∷ 0 ∷ 0 ∷ 0 ∷ 0 ∷ 0 ∷ 0 ∷ 0 ∷ 0 ∷ 0 ∷ 0
    ∷ 0 ∷ 0 ∷ 0 ∷ 0 ∷ 0 ∷ 0 ∷ 0 ∷ 0 ∷ []

abbrev offer : Manifest
offer = record {
  version = "1.1.0";
  channel = "stable";
  os = "linux";
  arch = "amd64";
  worker = record { url = "https://example.com/w"; sha256 = "ab"; size = pos 0 };
  released_at = "";
}

abbrev release : Release
release = record {
  parse_signed = λ raw. ok (record { payload = "p"; signature = "s" });
  parse_manifest = λ raw. ok offer;
  decode_base64 = λ s. ok key;
  verify = λ key payload sig. true;
  hex_sum = λ body. "ab";
}

abbrev settings : String → Settings
settings mode = record {
  worker_bin = "worker";
  mode = mode;
  manifest_url = "https://example.com/m";
  release_signer = "k";
  pinned_version = "";
}

-- Every binary passes its self-check; the first worker is the only original one.
abbrev Passes : Bytes → Type 0
Passes b = Unit

abbrev IsFirst : Bytes → Type 0
IsFirst b = b ≡ 1 ∷ []

abbrev first_files : Files
first_files = ("worker", 1 ∷ []) ∷ []

abbrev got : Got
got = response 200 "200 OK" (2 ∷ []) none

abbrev no_faults : StageFaults
no_faults = record { create = none; chmod = none; close = none; remove = none }

abbrev all_work : PromoteFaults
all_work = record { save = none; move = none; restore = none }

abbrev at_start : System
at_start = record {
  files = first_files;
  child = some 0;
  processes = record { pid = 0; image = 1 ∷ []; alive = true } ∷ [];
  loop = waiting 0 1;
  update = resting;
  cancelled = false;
}

abbrev was_staged : System
was_staged = record at_start { files = ("tmp", 2 ∷ []) ∷ first_files; update = staged offer "tmp" }

abbrev was_stopped : System
was_stopped = record (stop_child was_staged) { update = stopped "tmp" }

abbrev was_promoted : System
was_promoted = record was_stopped {
  files = ("worker", 2 ∷ []) ∷ ("worker.prev", 1 ∷ []) ∷ [];
  update = promoted "tmp";
}

abbrev was_updated : System
was_updated = cycle_ends none "tmp" (set_child 1 (start_child (2 ∷ []) was_promoted))

installs : Reach release (settings "binary") Passes at_start was_updated
unfolding lookup insert erase rename promote after_save install stage_worker download_and_verify
    check_worker equal_fold fold_code remove start_child set_child stop_child kill cycle_ends
    decode_release_key fetch_manifest read_all open_signed open_payload check_manifest should_update
    is_newer parse_semver newer_numbers
installs =
    next
      (next
        (next
          (next
            (next
              (next
                (next here (
                  update_found key got "1.0.0" refl (texts_differ "binary" "external" refl)
                    (texts_differ "https://example.com/m" "" refl) refl refl refl))
                (update_staged no_faults got refl (texts_differ "tmp" "worker" refl)
                  (texts_differ "tmp" "worker.prev" refl) refl))
              (update_checked refl refl tt))
            (update_stops refl))
          (update_promotes all_work refl refl))
        (update_starts refl refl refl))
      (update_succeeds none refl)

-- The loop that waited for the first worker sees it exit and starts a second one beside the new one.
two_workers :
    Reach release
      (settings "binary")
      Passes
      at_start
      (record (set_child 2 (start_child (2 ∷ []) was_updated)) { loop = reading 1 })
unfolding lookup remove erase start_child set_child stop_child kill cycle_ends is_dead
two_workers =
    next (next (next installs (loop_sees_exit refl refl refl)) (loop_starts refl refl refl))
      (loop_has_started true refl)

two_live :
    live (record (set_child 2 (start_child (2 ∷ []) was_updated)) { loop = reading 1 }).processes
    ≡ 2
unfolding start_child set_child stop_child kill cycle_ends
two_live = refl

holds_worker : Holding IsFirst first_files "worker"
unfolding lookup
holds_worker b e = ground arith

holds_previous : Holding IsFirst first_files "worker.prev"
unfolding lookup
holds_previous b e = absurd (ground arith)

workers_trusted_example :
    All (λ p. IsTrusted release (settings "binary") Passes IsFirst p.image) was_updated.processes
workers_trusted_example =
    workers_trusted release (settings "binary") Passes IsFirst holds_worker holds_previous
      (refl, tt) refl installs

restarts :
    Reach release
      (settings "external")
      Passes
      (initial first_files (1 ∷ []))
      (record (set_child 1 (
        start_child (1 ∷ []) (record (initial first_files (1 ∷ [])) {
          processes = record { pid = 0; image = 1 ∷ []; alive = false } ∷ [];
          loop = sleeping 1;
        }))) { loop = reading 2 })
unfolding initial kill is_dead start_child set_child next_backoff lookup
restarts =
    next
      (next
        (next (next (next here (loop_reads refl refl)) (process_exits 0))
          (loop_sees_exit refl refl refl))
        (loop_starts refl refl refl))
      (loop_has_started false refl)

external_single_example :
    live
      (record (set_child 1 (
        start_child (1 ∷ []) (record (initial first_files (1 ∷ [])) {
          processes = record { pid = 0; image = 1 ∷ []; alive = false } ∷ [];
          loop = sleeping 1;
        }))) { loop = reading 2 }).processes
    ≤ 1
external_single_example =
    external_single release (settings "external") Passes refl first_files (1 ∷ []) restarts

abbrev shutting_down : System
shutting_down = record at_start { cancelled = true }

stops :
    Reach release
      (settings "binary")
      Passes
      shutting_down
      (stop_child (record shutting_down { loop = ended }))
stops = next (next here (loop_leaves (inr refl) refl)) (run_stops refl)

-- A worker that never answers.
abbrev silent : ℕ → Poll
silent i = record {
  now = 1000 + i * 500;
  stopping = false;
  status = none;
  stopped_in_pause = false;
}

gives_up : wait_ready 61 silent 1000 30_000 ≡ some late
unfolding wait_ready wait_from answers_ok
gives_up = refl

wait_ready_returns_example :
    (v : Verdict) × (wait_ready 61 silent 1000 30_000 ≡ some v) × IsVerdict silent 31_000 0 v
wait_ready_returns_example =
    wait_ready_returns 60 1000 30_000 silent (λ i. omega arith) (omega arith) (omega arith)

abbrev build : Build
build = record { version = "1.1.0"; commit = "c0ffee"; date = "2025-01-01" }

prints : version_line build none ≡ "apipact-worker 1.1.0 (c0ffee, 2025-01-01)\n"
unfolding version_line version_string shown_version
prints = refl

shows : (shown_version build none ≡ "1.1.0") × (is_word "1.1.0" ≡ true)
unfolding shown_version ends_field
shows = (refl, refl)

installed_is_settled_example :
    should_update (current_worker_version (ok (version_line build none))) "" "1.1.0" ≡ false
installed_is_settled_example =
    installed_is_settled build none "" "1.1.0" shows.0 shows.1 (texts_differ "1.1.0" "" refl)
