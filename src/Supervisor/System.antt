-- ===== src/Supervisor/System.antt =====
-- internal/supervisor/supervisor.go: Run, superviseLoop, updateLoop and checkAndApply as goroutines
-- that interleave. A step is what one of them does up to its next wait or its next use of what it
-- shares with the other: the field `child`, the processes and the files. stopChild's wait for the exit
-- of its process belongs to its step.
pub mod Trust
pub mod Single
pub mod External
pub mod Shutdown
pub mod Backoff
use apipact_agent.Prelude.{
  ℕ, ◌*◌, String, ◌≡◌, ◌≢◌, ◌⊎◌, Bool, true, false, ◌&&◌, ◌||◌, not, Option, none, some, List, [],
  ◌∷◌, ltb, ◌==◌, if◌then◌else◌, ok, err, length,
}
use apipact_agent.Prelude.Dict.{lookup}
use apipact_agent.Executor.Request.{Bytes}
use apipact_agent.Update.Version.{should_update}
use apipact_agent.Update.Manifest.{fetch_manifest, decode_release_key, Manifest, Got, Release}
use apipact_agent.Update.Swap.{
  Files, Fault, previous, promote, rollback, remove, stage_worker, PromoteFaults, StageFaults,
}

-- A worker process, with the binary that it was started from. Its pid is the count of the processes
-- started before it.
pub record Process : Type 0 where
  pub pid : ℕ
  pub image : Bytes
  pub alive : Bool

-- Where superviseLoop stands, with the process that it waits for or has started, and with its backoff
-- in seconds.
pub data LoopPhase : Type 0 where
  reading sleeping : ℕ → LoopPhase
  waiting starting : ℕ → ℕ → LoopPhase
  ended : LoopPhase

-- Where checkAndApply stands: between two cycles, or after the call that the name says, with the path
-- of the staged binary.
pub data UpdatePhase : Type 0 where
  resting : UpdatePhase
  eligible : Manifest → UpdatePhase
  staged : Manifest → String → UpdatePhase
  checked stopped promoted promote_failed unhealthy stopped_again rolled_back : String → UpdatePhase
  launched relaunched : String → ℕ → UpdatePhase

pub record System : Type 0 where
  pub files : Files
  pub child : Option ℕ
  pub processes : List Process
  pub loop : LoopPhase
  pub update : UpdatePhase
  pub cancelled : Bool

-- What the supervisor reads of its configuration and options.
pub record Settings : Type 0 where
  pub worker_bin : String
  pub mode : String
  pub manifest_url : String
  pub release_signer : String
  pub pinned_version : String

-- A process ends.
unfoldable pub kill : ℕ → List Process → List Process
kill pid [] = []
kill pid (p ∷ ps) =
    let rest = kill pid ps in if p.pid == pid then record p { alive = false } ∷ rest else p ∷ rest

unfoldable pub is_dead : ℕ → List Process → Bool
is_dead pid [] = true
is_dead pid (p ∷ ps) = (not (p.pid == pid) || not p.alive) && is_dead pid ps

-- startChild's process, once cmd.Start has succeeded.
unfoldable pub start_child : Bytes → System → System
start_child image s = record s {
  processes = record { pid = length s.processes; image = image; alive = true } ∷ s.processes;
}

-- startChild's assignment
unfoldable pub set_child : ℕ → System → System
set_child pid s = record s { child = some pid }

-- stopChild, until the process has exited or has been killed.
unfoldable pub stop_child : System → System
stop_child s = record s {
  child = none;
  processes = elim s.child [ none ↦ s.processes | some pid ↦ kill pid s.processes ];
}

-- superviseLoop's `if backoff < 30*time.Second { backoff *= 2 }`
unfoldable pub next_backoff : ℕ → ℕ
next_backoff b = if ltb b 30 then b * 2 else b

-- Run, up to the start of its goroutines, for a first worker with this image.
unfoldable pub initial : Files → Bytes → System
initial files image = record {
  files = files;
  child = some 0;
  processes = record { pid = 0; image = image; alive = true } ∷ [];
  loop = reading 1;
  update = resting;
  cancelled = false;
}

-- The return of checkAndApply, with its deferred os.Remove.
unfoldable pub cycle_ends : Fault → String → System → System
cycle_ends f path s = record s { files = remove f path s.files; update = resting }

-- `Passed b` says that a run of b with --selfcheck has succeeded.
module _ (lib : Release) (set : Settings) (Passed : Bytes → Type 0) where
  pub data Step : System → System → Type 0 where
    process_exits : {s : System} (pid : ℕ) → Step s (record s { processes = kill pid s.processes })
    loop_reads :
        {s : System} {b pid : ℕ}
        → s.loop ≡ reading b
        → s.child ≡ some pid
        → Step s (record s { loop = waiting pid b })
    loop_finds_none :
        {s : System} {b : ℕ}
        → s.loop ≡ reading b
        → s.child ≡ none
        → Step s (record s { loop = ended })
    loop_sees_exit :
        {s : System} {b pid : ℕ}
        → s.loop ≡ waiting pid b
        → is_dead pid s.processes ≡ true
        → s.cancelled ≡ false
        → Step s (record s { loop = sleeping b })
    loop_leaves :
        {s : System} {b pid : ℕ}
        → (s.loop ≡ sleeping b) ⊎ (s.loop ≡ waiting pid b)
        → s.cancelled ≡ true
        → Step s (record s { loop = ended })
    loop_starts :
        {s : System} {b : ℕ} {image : Bytes}
        → s.loop ≡ sleeping b
        → s.cancelled ≡ false
        → lookup set.worker_bin s.files ≡ some image
        → Step s (record (start_child image s) { loop = starting (length s.processes) b })
    loop_has_started :
        {s : System} {b pid : ℕ} (ready : Bool)
        → s.loop ≡ starting pid b
        → Step s (record (set_child pid s) { loop = reading (if ready then 1 else next_backoff b) })
    loop_start_fails :
        {s : System} {b : ℕ}
        → s.loop ≡ sleeping b
        → Step s (record s { loop = reading (next_backoff b) })
    update_found :
        {s : System} {m : Manifest} (key : Bytes) (got : Got) (current : String)
        → s.update ≡ resting
        → set.mode ≢ "external"
        → set.manifest_url ≢ ""
        → decode_release_key lib set.release_signer ≡ ok key
        → fetch_manifest lib key got ≡ ok m
        → should_update current set.pinned_version m.version ≡ true
        → Step s (record s { update = eligible m })
    update_staged :
        {s : System} {m : Manifest} {path : String} {files : Files} (f : StageFaults) (got : Got)
        → s.update ≡ eligible m
        → path ≢ set.worker_bin
        → path ≢ previous set.worker_bin
        → stage_worker lib f m got path s.files ≡ (ok path, files)
        → Step s (record s { files = files; update = staged m path })
    update_not_staged :
        {s : System} {m : Manifest} {path e : String} {files : Files} (f : StageFaults) (got : Got)
        → s.update ≡ eligible m
        → path ≢ set.worker_bin
        → path ≢ previous set.worker_bin
        → stage_worker lib f m got path s.files ≡ (err e, files)
        → Step s (record s { files = files; update = resting })
    update_checked :
        {s : System} {m : Manifest} {path : String} {image : Bytes}
        → s.update ≡ staged m path
        → lookup path s.files ≡ some image
        → Passed image
        → Step s (record s { update = checked path })
    update_not_checked :
        {s : System} {m : Manifest} {path : String} (f : Fault)
        → s.update ≡ staged m path
        → Step s (cycle_ends f path s)
    update_stops :
        {s : System} {path : String}
        → s.update ≡ checked path
        → Step s (record (stop_child s) { update = stopped path })
    update_promotes :
        {s : System} {path : String} {files : Files} (f : PromoteFaults)
        → s.update ≡ stopped path
        → promote f path set.worker_bin s.files ≡ (none, files)
        → Step s (record s { files = files; update = promoted path })
    update_not_promoted :
        {s : System} {path e : String} {files : Files} (f : PromoteFaults)
        → s.update ≡ stopped path
        → promote f path set.worker_bin s.files ≡ (some e, files)
        → Step s (record s { files = files; update = promote_failed path })
    update_starts :
        {s : System} {path : String} {image : Bytes}
        → s.update ≡ promoted path
        → s.cancelled ≡ false
        → lookup set.worker_bin s.files ≡ some image
        → Step s (record (start_child image s) { update = launched path (length s.processes) })
    update_succeeds :
        {s : System} {path : String} {pid : ℕ} (f : Fault)
        → s.update ≡ launched path pid
        → Step s (cycle_ends f path (set_child pid s))
    update_unready :
        {s : System} {path : String} {pid : ℕ}
        → s.update ≡ launched path pid
        → Step s (record (set_child pid s) { update = unhealthy path })
    update_not_started :
        {s : System} {path : String}
        → s.update ≡ promoted path
        → Step s (record s { update = unhealthy path })
    update_stops_again :
        {s : System} {path : String}
        → s.update ≡ unhealthy path
        → Step s (record (stop_child s) { update = stopped_again path })
    update_rolls_back :
        {s : System} {path : String} (f : Fault)
        → s.update ≡ stopped_again path
        → Step s
            (record s { files = (rollback f set.worker_bin s.files).1; update = rolled_back path })
    update_restarts :
        {s : System} {path : String} {image : Bytes}
        → (s.update ≡ promote_failed path) ⊎ (s.update ≡ rolled_back path)
        → s.cancelled ≡ false
        → lookup set.worker_bin s.files ≡ some image
        → Step s (record (start_child image s) { update = relaunched path (length s.processes) })
    update_has_restarted :
        {s : System} {path : String} {pid : ℕ} (f : Fault)
        → s.update ≡ relaunched path pid
        → Step s (cycle_ends f path (set_child pid s))
    update_not_restarted :
        {s : System} {path : String} (f : Fault)
        → (s.update ≡ promote_failed path) ⊎ (s.update ≡ rolled_back path)
        → Step s (cycle_ends f path s)
    shutdown : {s : System} → Step s (record s { cancelled = true })
    run_stops : {s : System} → s.cancelled ≡ true → Step s (stop_child s)

  pub data Reach (s : System) : System → Type 0 where
    here : Reach s s
    next : {t u : System} → Reach s t → Step t u → Reach s u
