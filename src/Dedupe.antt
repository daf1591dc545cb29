-- ===== src/Dedupe.antt =====
-- internal/store/dedupe.go: the persistent set of processed job ids.
-- The clock is read twice by SeenOrRecord (once for the record, once for the cutoff), and each
-- reading is an argument. What the path holds is the state Disk; whether each system call of
-- flushLocked fails is an argument too. encoding/json is the parameter Codec. The time-to-live is
-- in whole seconds, since Config.ReplayTTL is a count of seconds.
pub mod Laws
pub mod Refinement
pub mod Restart
pub mod Expiry
use apipact_agent.Prelude.{
  ◌-◌, String, Bool, true, false, not, Option, none, some, [], if◌then◌else◌, Result, ok, err,
}
use apipact_agent.Prelude.Int.{ℤ, ltb_ℤ, ◌-ℤ◌, wrap64}
use apipact_agent.Prelude.Dict.{Dict, lookup, erase, insert, keep}

pub record Dedupe : Type 0 where
  pub ttl : ℤ
  pub seen : Dict ℤ

-- The content of the file at Dedupe.path, or none where there is no file.
abbrev pub Disk : Type 0
Disk = Option String

-- json.Marshal of `persisted`, and json.Unmarshal into it: an error, or the field, which may be nil.
pub record Codec : Type 0 where
  pub encode : Dict ℤ → String
  pub decode : String → Option (Option (Dict ℤ))

-- The first system call of flushLocked that fails, with its error.
pub data Flush : Type 0 where
  flushed : Flush
  mkdir_failed create_failed write_failed close_failed rename_failed : String → Flush

-- os.ReadFile
pub data ReadFile : Type 0 where
  read : String → ReadFile
  not_exist : ReadFile
  read_failed : String → ReadFile

-- int64 subtraction
abbrev pub sub64 : ℤ → ℤ → ℤ
sub64 a b = wrap64 (a -ℤ b)

-- pruneLocked, with the clock at `now`
unfoldable pub prune : ℤ → Dedupe → Dedupe
prune now d =
    let cutoff = sub64 now d.ttl in record d { seen = keep (λ ts. not (ltb_ℤ ts cutoff)) d.seen }

-- flushLocked: only the rename touches the path.
unfoldable pub flush : Codec → Flush → Dedupe → Disk → Option String × Disk
flush codec flushed d disk = (none, some (codec.encode d.seen))
flush codec (mkdir_failed e) d disk = (some e, disk)
flush codec (create_failed e) d disk = (some e, disk)
flush codec (write_failed e) d disk = (some e, disk)
flush codec (close_failed e) d disk = (some e, disk)
flush codec (rename_failed e) d disk = (some e, disk)

-- The content that Open keeps of a file.
unfoldable pub loaded : Codec → String → Dict ℤ
loaded codec raw = elim (codec.decode raw) [ some (some seen) ↦ seen | _ ↦ [] ]

-- Open
unfoldable pub open_store : Codec → ℤ → ℤ → ReadFile → Result String Dedupe
unfolding prune loaded
open_store codec ttl now (read raw) = ok (prune now (record { ttl = ttl; seen = loaded codec raw }))
open_store codec ttl now not_exist = ok (record { ttl = ttl; seen = [] })
open_store codec ttl now (read_failed e) = err e

-- The test of SeenOrRecord: recorded, and not longer than the time-to-live ago.
unfoldable pub is_live : ℤ → ℤ → Option ℤ → Bool
is_live now ttl none = false
is_live now ttl (some ts) = ltb_ℤ (sub64 now ts) ttl

-- What SeenOrRecord returns, with the store and the disk that it leaves.
pub record Recorded : Type 0 where
  pub answer : Result String Bool
  pub store : Dedupe
  pub disk : Disk

-- The return of SeenOrRecord after the flush: a failed one rolls the record back.
unfoldable pub after_flush : String → Dedupe → Option String × Disk → Recorded
after_flush job d (none, disk) = record { answer = ok false; store = d; disk = disk }
after_flush job d (some e, disk) = record {
  answer = err e;
  store = record d { seen = erase job d.seen };
  disk = disk;
}

-- SeenOrRecord
unfoldable pub seen_or_record : Codec → Flush → ℤ → ℤ → String → Dedupe → Disk → Recorded
unfolding after_flush is_live prune
seen_or_record codec io now now' job d disk =
    if is_live now d.ttl (lookup job d.seen)
    then record { answer = ok true; store = d; disk = disk }
    else let pruned = prune now' d in
      let recorded = record pruned { seen = insert job now pruned.seen } in
      after_flush job recorded (flush codec io recorded disk)
