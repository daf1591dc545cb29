-- ===== src/Dedupe/Laws.antt =====
-- internal/store/dedupe.go within one process: when an id counts as processed, and what a call
-- changes. The clock is a count of seconds below 2 ^ 62, so that no int64 difference wraps.
use apipact_agent.Prelude.{
  ℕ, ◌+◌, ◌^◌, ◌<◌, String, ◌≡◌, refl, ◌∙◌, ◌≢◌, ◌⊎◌, inl, inr, true, false, not, Option, none,
  some, arith, eq_iff, ltb, leb, Bool-cases, ok, err,
}
use apipact_agent.Prelude.Int.{ℤ, pos, sub_ℕ, ltb_ℤ, ◌-ℤ◌, wrap64}
use apipact_agent.Prelude.Dict.{
  lookup, erase, insert, NodupKeys, lookup-erase, lookup-insert, lookup-keep, keep-NodupKeys,
  erase-NodupKeys, insert-NodupKeys,
}
use apipact_agent.Dedupe.{
  Dedupe, Disk, Codec, Flush, flushed, sub64, prune, flush, is_live, after_flush, seen_or_record,
}

abbrev pub max_clock : ℕ
max_clock = 2 ^ 62

sub64_lem : (a b : ℕ) → a < max_clock → b < max_clock → sub64 (pos a) (pos b) ≡ sub_ℕ a b
unfolding wrap64 ◌-ℤ◌
sub64_lem a b h k = ground arith

-- An id recorded at `ts` counts as processed exactly before the second `ts + ttl`.
pub is_live_lem :
    (now ttl ts : ℕ)
    → now < max_clock
    → ts < max_clock
    → is_live (pos now) (pos ttl) (some (pos ts)) ≡ ltb now (ts + ttl)
unfolding is_live
is_live_lem now ttl ts h k = rw (sub64_lem now ts h k) (ground arith)

-- Pruning keeps an id through the second `ts + ttl`.
pub kept_lem :
    (now ttl ts : ℕ)
    → now < max_clock
    → ttl < max_clock
    → not (ltb_ℤ (pos ts) (sub64 (pos now) (pos ttl))) ≡ leb now (ts + ttl)
kept_lem now ttl ts h k = rw (sub64_lem now ttl h k) (ground arith)

-- The store holds `job`, recorded at second `n`.
pub record Holds (job : String) (n ttl : ℕ) (d : Dedupe) : Type 0 where
  pub at : lookup job d.seen ≡ some (pos n)
  pub unique : NodupKeys d.seen
  pub lives : d.ttl ≡ pos ttl

-- A store as Open and the calls leave it: each id once, and the time-to-live of the agent.
pub record IsStore (ttl : ℕ) (d : Dedupe) : Type 0 where
  pub unique : NodupKeys d.seen
  pub lives : d.ttl ≡ pos ttl

pub prune-IsStore : (ttl : ℕ) (now : ℤ) (d : Dedupe) → IsStore ttl d → IsStore ttl (prune now d)
unfolding prune
prune-IsStore ttl now d h = record { unique = keep-NodupKeys _ d.seen h.unique; lives = h.lives }

pub prune-Holds :
    (job : String) (n ttl now : ℕ) (d : Dedupe)
    → now < max_clock
    → ttl < max_clock
    → now < n + ttl
    → Holds job n ttl d
    → Holds job n ttl (prune (pos now) d)
unfolding prune
prune-Holds job n ttl now d a b c h = record {
  at =
      lookup-keep _ job d.seen h.unique ∙ rw (h.at, h.lives, kept_lem now ttl n a b) (ground arith);
  unique = keep-NodupKeys _ d.seen h.unique;
  lives = h.lives;
}

-- Recording another id, or taking it out again, leaves an id where it is.
insert-Holds :
    (job other : String) (n ttl : ℕ) (ts : ℤ) (d : Dedupe)
    → other ≢ job
    → Holds job n ttl d
    → Holds job n ttl (record d { seen = insert other ts d.seen })
insert-Holds job other n ttl ts d ne h = record {
  at = lookup-insert other job ts d.seen ∙ ground (arith, h.at, eq_iff other job);
  unique = insert-NodupKeys other ts d.seen h.unique;
  lives = h.lives;
}

erase-Holds :
    (job other : String) (n ttl : ℕ) (d : Dedupe)
    → other ≢ job
    → Holds job n ttl d
    → Holds job n ttl (record d { seen = erase other d.seen })
erase-Holds job other n ttl d ne h = record {
  at = lookup-erase other job d.seen ∙ ground (arith, h.at, eq_iff other job);
  unique = erase-NodupKeys other d.seen h.unique;
  lives = h.lives;
}

after_flush-Holds :
    (job other : String) (n ttl : ℕ) (d : Dedupe) (r : Option String × Disk)
    → other ≢ job
    → Holds job n ttl d
    → Holds job n ttl (after_flush other d r).store
unfolding after_flush
after_flush-Holds job other n ttl d (none, disk) ne h = h
after_flush-Holds job other n ttl d (some e, disk) ne h = erase-Holds job other n ttl d ne h

-- The store that SeenOrRecord writes.
abbrev pub recorded : ℤ → ℤ → String → Dedupe → Dedupe
recorded now now' job d = record (prune now' d) { seen = insert job now (prune now' d).seen }

recorded-Holds :
    (job : String) (ttl now : ℕ) (now' : ℤ) (d : Dedupe)
    → IsStore ttl d
    → Holds job now ttl (recorded (pos now) now' job d)
recorded-Holds job ttl now now' d h = record {
  at = lookup-insert job job (pos now) (prune now' d).seen ∙ ground (arith, eq_iff job job);
  unique = insert-NodupKeys job (pos now) _ (prune-IsStore ttl now' d h).unique;
  lives = (prune-IsStore ttl now' d h).lives;
}

after_flush_accepted :
    (codec : Codec) (io : Flush) (job : String) (d : Dedupe) (disk : Disk)
    → (after_flush job d (flush codec io d disk)).answer ≡ ok false
    → after_flush job d (flush codec io d disk)
      ≡ record { answer = ok false; store = d; disk = some (codec.encode d.seen) }
unfolding after_flush flush
after_flush_accepted codec flushed job d disk e = refl
after_flush_accepted codec _ job d disk e = cc

after_flush_disk :
    (codec : Codec) (io : Flush) (job : String) (d : Dedupe) (disk : Disk)
    → let r = after_flush job d (flush codec io d disk) in
      (r.disk ≡ disk) ⊎ (r.disk ≡ some (codec.encode r.store.seen))
unfolding after_flush flush
after_flush_disk codec flushed job d disk = inr refl
after_flush_disk codec _ job d disk = inl refl

after_flush_failed :
    (codec : Codec) (io : Flush) (job : String) (d : Dedupe) (disk : Disk) (e : String)
    → (after_flush job d (flush codec io d disk)).answer ≡ err e
    → after_flush job d (flush codec io d disk)
      ≡ record { answer = err e; store = record d { seen = erase job d.seen }; disk = disk }
unfolding after_flush flush
after_flush_failed codec flushed job d disk e h = cc
after_flush_failed codec _ job d disk e h = ground arith

module _ (codec : Codec) (io : Flush) where
  -- An id that the store holds is reported as seen, and the call changes nothing.
  pub seen_again :
      (job : String) (n ttl now : ℕ) (now' : ℤ) (d : Dedupe) (disk : Disk)
      → now < max_clock
      → n < max_clock
      → now < n + ttl
      → Holds job n ttl d
      → seen_or_record codec io (pos now) now' job d disk
        ≡ record { answer = ok true; store = d; disk = disk }
  unfolding seen_or_record
  seen_again job n ttl now now' d disk a b c h =
      rw (h.at, h.lives, is_live_lem now ttl n a b) (ground arith)

  -- A call for another id keeps what the store holds.
  pub other-Holds :
      (job other : String) (n ttl now : ℕ) (ts : ℤ) (d : Dedupe) (disk : Disk)
      → other ≢ job
      → now < max_clock
      → ttl < max_clock
      → now < n + ttl
      → Holds job n ttl d
      → Holds job n ttl (seen_or_record codec io ts (pos now) other d disk).store
  unfolding seen_or_record
  other-Holds job other n ttl now ts d disk ne a b c h =
      elim (Bool-cases (is_live ts d.ttl (lookup other d.seen))) [
        | inl e ↦ rw e h
        | inr e ↦ rw e (
            after_flush-Holds job other n ttl _ _ ne
              (insert-Holds job other n ttl ts _ ne (prune-Holds job n ttl now d a b c h)))
      ]

  -- A call that accepts an id has pruned, recorded and written.
  pub accepted_lem :
      (now now' : ℤ) (job : String) (d : Dedupe) (disk : Disk)
      → (seen_or_record codec io now now' job d disk).answer ≡ ok false
      → seen_or_record codec io now now' job d disk ≡ record {
        answer = ok false;
        store = recorded now now' job d;
        disk = some (codec.encode (recorded now now' job d).seen);
      }
  unfolding seen_or_record flush
  accepted_lem now now' job d disk e = elim (Bool-cases (is_live now d.ttl (lookup job d.seen))) [
    | inl b ↦ ground arith
    | inr b ↦ rw b (after_flush_accepted codec io job _ disk (rw b at e))
  ]

  -- What a call leaves on the disk: what was there, or the store that it leaves in memory.
  pub disk_cases :
      (now now' : ℤ) (job : String) (d : Dedupe) (disk : Disk)
      → let r = seen_or_record codec io now now' job d disk in
        (r.disk ≡ disk) ⊎ (r.disk ≡ some (codec.encode r.store.seen))
  unfolding seen_or_record
  disk_cases now now' job d disk = elim (Bool-cases (is_live now d.ttl (lookup job d.seen))) [
    | inl b ↦ rw b (inl refl)
    | inr b ↦ rw b (after_flush_disk codec io job _ disk)
  ]

  -- A call that fails leaves the file alone, has pruned, and does not hold the id.
  pub failed_lem :
      (now now' : ℤ) (job : String) (d : Dedupe) (disk : Disk) (e : String)
      → (seen_or_record codec io now now' job d disk).answer ≡ err e
      → seen_or_record codec io now now' job d disk ≡ record {
        answer = err e;
        store = record (prune now' d) { seen = erase job (recorded now now' job d).seen };
        disk = disk;
      }
  unfolding seen_or_record
  failed_lem now now' job d disk e h = elim (Bool-cases (is_live now d.ttl (lookup job d.seen))) [
    | inl b ↦ ground arith
    | inr b ↦ rw b (after_flush_failed codec io job _ disk e (rw b at h))
  ]

  -- An accepted id is held from then on.
  pub accepted-Holds :
      (job : String) (ttl now : ℕ) (now' : ℤ) (d : Dedupe) (disk : Disk)
      → IsStore ttl d
      → (seen_or_record codec io (pos now) now' job d disk).answer ≡ ok false
      → Holds job now ttl (seen_or_record codec io (pos now) now' job d disk).store
  accepted-Holds job ttl now now' d disk h e =
      rw (accepted_lem (pos now) now' job d disk e) (recorded-Holds job ttl now now' d h)
