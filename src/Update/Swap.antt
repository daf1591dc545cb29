-- ===== src/Update/Swap.antt =====
-- internal/update/swap.go: StageWorker, Promote, Rollback and HasRollback on the files of a disk.
-- A file system is a map from paths to contents; each call may fail, for the reason it is given.
pub mod Stage
pub mod Origin
pub mod Undo
use Prim.Native.String.{◌++◌ as ◌<>◌}
use apipact_agent.Prelude.{
  String, Bool, Option, none, some, if◌then◌else◌, Result, ok, err, is_some,
}
use apipact_agent.Prelude.Dict.{Dict, lookup, erase, insert}
use apipact_agent.Executor.Request.{Bytes}
use apipact_agent.Update.Manifest.{Manifest, Got, Release, download_and_verify}

abbrev pub Files : Type 0
Files = Dict Bytes

-- The reason a call of the operating system fails, if it does.
abbrev pub Fault : Type 0
Fault = Option String

-- dest + prevSuffix
abbrev pub previous : String → String
previous dest = dest <> ".prev"

-- os.Rename: a failed call changes nothing, and a missing file cannot be renamed.
unfoldable pub rename : Fault → String → String → Files → Option String × Files
rename (some e) old new fs = (some e, fs)
rename none old new fs = elim (lookup old fs) [
  | none ↦ (some "no such file", fs)
  | some body ↦ (none, insert new body (erase old fs))
]

-- os.Stat, as a test
abbrev pub exists : String → Files → Bool
exists path fs = is_some (lookup path fs)

-- Promote, from its last rename on; the first argument is the fate of the restoring rename.
unfoldable pub install : Fault → String → String → Option String × Files → Option String × Files
unfolding rename
install restore staged dest (none, fs) = (none, fs)
install restore staged dest (some e, fs) =
    (some ("install new worker: " <> e), (rename restore (previous dest) dest fs).1)

-- The faults of the three renames of Promote.
pub record PromoteFaults : Type 0 where
  pub save : Fault
  pub move : Fault
  pub restore : Fault

unfoldable pub after_save :
    PromoteFaults → String → String → Option String × Files → Option String × Files
unfolding rename install
after_save f staged dest (some e, fs) = (some ("save previous worker: " <> e), fs)
after_save f staged dest (none, fs) = install f.restore staged dest (rename f.move staged dest fs)

-- Promote
unfoldable pub promote : PromoteFaults → String → String → Files → Option String × Files
unfolding rename after_save
promote f staged dest fs =
    if exists dest fs
    then after_save f staged dest (rename f.save dest (previous dest) fs)
    else after_save f staged dest (none, fs)

-- Rollback
unfoldable pub rollback : Fault → String → Files → Option String × Files
unfolding rename
rollback fault dest fs =
    if exists (previous dest) fs
    then rename fault (previous dest) dest fs
    else (some "no previous worker to roll back to", fs)

-- HasRollback
unfoldable pub has_rollback : String → Files → Bool
has_rollback dest fs = exists (previous dest) fs

-- The faults of StageWorker's system calls; `remove` is that of the removal on an error.
pub record StageFaults : Type 0 where
  pub create : Fault
  pub chmod : Fault
  pub close : Fault
  pub remove : Fault

-- os.Remove
unfoldable pub remove : Fault → String → Files → Files
remove (some e) path fs = fs
remove none path fs = erase path fs

-- StageWorker, with the name that CreateTemp picks.
unfoldable pub stage_worker :
    Release → StageFaults → Manifest → Got → String → Files → Result String String × Files
unfolding remove download_and_verify
stage_worker lib f m got tmp fs = elim f.create [
  | some e ↦ (err e, fs)
  | none ↦
      let (body, failed) = download_and_verify lib m got in
      let fs' = insert tmp body fs in
      elim failed [
        | some e ↦ (err e, remove f.remove tmp fs')
        | none ↦ elim f.chmod [
          | some e ↦ (err e, remove f.remove tmp fs')
          | none ↦ elim f.close [ some e ↦ (err e, remove f.remove tmp fs') | none ↦ (ok tmp, fs') ]
        ]
      ]
]
