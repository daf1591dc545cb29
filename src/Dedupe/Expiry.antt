-- ===== src/Dedupe/Expiry.antt =====
-- internal/store/dedupe.go: the invariant of the store, failed writes, and the end of an id's life.
use apipact_agent.Prelude.{
  ℕ, ◌+◌, ◌<◌, String, ◌≡◌, refl, ◌∙◌, inl, inr, false, Option, none, some, arith, eq_iff, ltb,
  Bool-cases, ok, err,
}
use apipact_agent.Prelude.Int.{ℤ, pos}
use apipact_agent.Prelude.Dict.{lookup, erase, lookup-erase, erase-NodupKeys, insert-NodupKeys}
use apipact_agent.Dedupe.{
  Dedupe, Disk, Codec, Flush, flushed, prune, flush, is_live, after_flush, seen_or_record,
}
use apipact_agent.Dedupe.Laws.{
  max_clock, Holds, IsStore, prune-IsStore, recorded, is_live_lem, failed_lem,
}

erase-IsStore :
    (ttl : ℕ) (job : String) (d : Dedupe)
    → IsStore ttl d
    → IsStore ttl (record d { seen = erase job d.seen })
erase-IsStore ttl job d h = record { unique = erase-NodupKeys job d.seen h.unique; lives = h.lives }

recorded-IsStore :
    (ttl : ℕ) (now now' : ℤ) (job : String) (d : Dedupe)
    → IsStore ttl d
    → IsStore ttl (recorded now now' job d)
recorded-IsStore ttl now now' job d h = record {
  unique = insert-NodupKeys job now _ (prune-IsStore ttl now' d h).unique;
  lives = (prune-IsStore ttl now' d h).lives;
}

after_flush-IsStore :
    (ttl : ℕ) (job : String) (d : Dedupe) (r : Option String × Disk)
    → IsStore ttl d
    → IsStore ttl (after_flush job d r).store
unfolding after_flush
after_flush-IsStore ttl job d (none, disk) h = h
after_flush-IsStore ttl job d (some e, disk) h = erase-IsStore ttl job d h

-- Every call, whatever it answers, keeps the ids of the store distinct and its time-to-live.
seen_or_record-IsStore :
    (codec : Codec) (io : Flush) (ttl : ℕ) (now now' : ℤ) (job : String) (d : Dedupe) (disk : Disk)
    → IsStore ttl d
    → IsStore ttl (seen_or_record codec io now now' job d disk).store
unfolding seen_or_record prune
seen_or_record-IsStore codec io ttl now now' job d disk h =
    elim (Bool-cases (is_live now d.ttl (lookup job d.seen))) [
      | inl b ↦ rw b h
      | inr b ↦ rw b (after_flush-IsStore ttl job _ _ (recorded-IsStore ttl now now' job d h))
    ]

-- With a disk that accepts the write, a call for an id that was recorded at second n is answered
-- "seen" exactly when the clock stands before n + ttl.
expires_exactly :
    (codec : Codec) (ttl n now : ℕ) (now' : ℤ) (job : String) (d : Dedupe) (disk : Disk)
    → now < max_clock
    → n < max_clock
    → Holds job n ttl d
    → (seen_or_record codec flushed (pos now) now' job d disk).answer ≡ ok (ltb now (n + ttl))
unfolding seen_or_record after_flush flush
expires_exactly codec ttl n now now' job d disk a b h =
    rw (h.at, h.lives, is_live_lem now ttl n a b) (ground arith)

is_live-none : (now ttl : ℤ) → is_live now ttl none ≡ false
unfolding is_live
is_live-none now ttl = refl

fresh_accepted :
    (codec : Codec) (now now' : ℤ) (job : String) (d : Dedupe) (disk : Disk)
    → lookup job d.seen ≡ none
    → (seen_or_record codec flushed now now' job d disk).answer ≡ ok false
unfolding seen_or_record after_flush flush
fresh_accepted codec now now' job d disk h = rw (h, is_live-none now d.ttl) refl

-- A call that fails leaves the file as it was and the id unrecorded, so that a later call, at any
-- time and with a disk that works, accepts the id.
failure_keeps_nothing :
    (codec : Codec) (io : Flush) (now now' later later' : ℤ) (job e : String) (d : Dedupe)
    (disk disk' : Disk)
    → (seen_or_record codec io now now' job d disk).answer ≡ err e
    → let r = seen_or_record codec io now now' job d disk in
      (r.disk ≡ disk)
      × (lookup job r.store.seen ≡ none)
      × ((seen_or_record codec flushed later later' job r.store disk').answer ≡ ok false)
failure_keeps_nothing codec io now now' later later' job e d disk disk' h =
    rw (failed_lem codec io now now' job d disk e h) (
      let gone =
        lookup-erase job job (recorded now now' job d).seen ∙ ground (arith, eq_iff job job) in
      (refl, gone, fresh_accepted codec later later' job _ disk' gone))
