-- ===== src/Dedupe/Restart.antt =====
-- internal/store/dedupe.go over a sequence of calls, and across a restart of the process.
use apipact_agent.Prelude.{
  ℕ, ◌+◌, ◌<◌, String, ◌≡◌, refl, ◌∙◌, ◌≢◌, ◌⊎◌, inl, inr, Bool, true, false, none, some, List, [],
  ◌∷◌, arith, ◌=ₛ◌, eq_iff, Bool-cases, Result, ok, All,
}
use apipact_agent.Prelude.Int.{ℤ, pos}
use apipact_agent.Prelude.Dict.{Dict, lookup, NodupKeys}
use apipact_agent.Dedupe.{
  Dedupe, Disk, Codec, Flush, ReadFile, read, not_exist, prune, loaded, open_store, Recorded,
  seen_or_record,
}
use apipact_agent.Dedupe.Laws.{
  max_clock, Holds, IsStore, prune-Holds, seen_again, other-Holds, accepted_lem, disk_cases,
  accepted-Holds,
}

-- One call of SeenOrRecord, with its two readings of the clock and the fate of its write.
pub record Call : Type 0 where
  pub job : String
  pub io : Flush
  pub now : ℕ
  pub now' : ℕ

unfoldable pub call : Codec → Call → Dedupe → Disk → Recorded
call codec c d disk = seen_or_record codec c.io (pos c.now) (pos c.now') c.job d disk

-- The answers of a sequence of calls, each with its job id.
unfoldable pub answers : Codec → List Call → Dedupe → Disk → List (String × Result String Bool)
answers codec [] d disk = []
answers codec (c ∷ cs) d disk =
    let r = call codec c d disk in (c.job, r.answer) ∷ answers codec cs r.store r.disk

-- The store and the disk after a sequence of calls.
unfoldable pub state_after : Codec → List Call → Dedupe → Disk → Dedupe × Disk
state_after codec [] d disk = (d, disk)
state_after codec (c ∷ cs) d disk =
    let r = call codec c d disk in state_after codec cs r.store r.disk

-- Both readings of the clock lie before the second `end`.
abbrev pub Before : ℕ → Call → Type 0
Before end c = (c.now < end) × (c.now' < end)

-- What a restarted process reads of the disk.
abbrev pub file : Disk → ReadFile
file none = not_exist
file (some raw) = read raw

-- The file holds a dictionary with `job`, recorded at second `n`.
abbrev pub OnDisk : Codec → String → ℕ → Disk → Type 0
OnDisk codec job n disk =
    (m : Dict ℤ) × (disk ≡ some (codec.encode m)) × (lookup job m ≡ some (pos n)) × NodupKeys m

-- An answer is for another id, or it says that the id was seen.
abbrev pub SeenIf : String → String × Result String Bool → Type 0
SeenIf job a = (a.0 ≢ job) ⊎ (a.1 ≡ ok true)

module _ (codec : Codec) (job : String) (n ttl : ℕ) (n_small : n < max_clock)
    (fits : n + ttl < max_clock) where
  pub call-Holds :
      (c : Call) (d : Dedupe) (disk : Disk)
      → Before (n + ttl) c
      → Holds job n ttl d
      → Holds job n ttl (call codec c d disk).store
  unfolding call
  call-Holds c d disk b h = elim (Bool-cases (c.job =ₛ job)) [
    | inl e ↦
        let same : c.job ≡ job = (eq_iff c.job job).0 e in
        rw
          (
            same,
            seen_again codec c.io job n ttl c.now (pos c.now') d disk (omega arith) n_small b.0 h,
          )
          h
    | inr e ↦
        other-Holds codec c.io job c.job n ttl c.now' (pos c.now) d disk
          (λ same. cc ((eq_iff c.job job).1 same)) (omega arith) (omega arith) b.1 h
  ]

  pub call-seen :
      (c : Call) (d : Dedupe) (disk : Disk)
      → c.job ≡ job
      → Before (n + ttl) c
      → Holds job n ttl d
      → (call codec c d disk).answer ≡ ok true
  unfolding call
  call-seen c d disk same b h =
      rw (
        same,
        seen_again codec c.io job n ttl c.now (pos c.now') d disk (omega arith) n_small b.0 h,
      )

  seen_if :
      (c : Call) (d : Dedupe) (disk : Disk)
      → Before (n + ttl) c
      → Holds job n ttl d
      → SeenIf job (c.job, (call codec c d disk).answer)
  seen_if c d disk b h = elim (Bool-cases (c.job =ₛ job)) [
    | inl e ↦ inr (call-seen c d disk ((eq_iff c.job job).0 e) b h)
    | inr e ↦ inl (λ same. cc ((eq_iff c.job job).1 same))
  ]

  call-OnDisk :
      (c : Call) (d : Dedupe) (disk : Disk)
      → Before (n + ttl) c
      → Holds job n ttl d
      → OnDisk codec job n disk
      → OnDisk codec job n (call codec c d disk).disk
  unfolding call
  call-OnDisk c d disk b h o = elim (disk_cases codec c.io (pos c.now) (pos c.now') c.job d disk) [
    | inl e ↦ (o.0, e ∙ o.1, o.2, o.3)
    | inr e ↦
        let k = call-Holds c d disk b h in ((call codec c d disk).store.seen, e, k.at, k.unique)
  ]

  answers-seen :
      (cs : List Call) (d : Dedupe) (disk : Disk)
      → All (Before (n + ttl)) cs
      → Holds job n ttl d
      → All (SeenIf job) (answers codec cs d disk)
  unfolding answers
  answers-seen [] d disk b h = tt
  answers-seen (c ∷ cs) d disk b h =
      (seen_if c d disk b.0 h, answers-seen cs _ _ b.1 (call-Holds c d disk b.0 h))

  state_after-Holds :
      (cs : List Call) (d : Dedupe) (disk : Disk)
      → All (Before (n + ttl)) cs
      → Holds job n ttl d
      → OnDisk codec job n disk
      → OnDisk codec job n (state_after codec cs d disk).1
  unfolding state_after
  state_after-Holds [] d disk b h o = o
  state_after-Holds (c ∷ cs) d disk b h o =
      state_after-Holds cs _ _ b.1 (call-Holds c d disk b.0 h) (call-OnDisk c d disk b.0 h o)

-- Once a call has accepted an id at second n, every later call for that id is answered "seen",
-- whatever calls for other ids come between and whichever of their writes fail, as long as the
-- clock stays before n + ttl. The ids are those of a well-formed store.
accepted_once :
    (codec : Codec) (ttl : ℕ) (c : Call) (cs : List Call) (d : Dedupe) (disk : Disk)
    → c.now + ttl < max_clock
    → IsStore ttl d
    → (call codec c d disk).answer ≡ ok false
    → All (Before (c.now + ttl)) cs
    → let r = call codec c d disk in All (SeenIf c.job) (answers codec cs r.store r.disk)
unfolding call
accepted_once codec ttl c cs d disk fits h e b =
    answers-seen codec c.job c.now ttl (omega arith) fits cs _ _ b
      (accepted-Holds codec c.io c.job ttl c.now (pos c.now') d disk h e)

loaded-encode :
    (codec : Codec) (m : Dict ℤ)
    → codec.decode (codec.encode m) ≡ some (some m)
    → loaded codec (codec.encode m) ≡ m
unfolding loaded
loaded-encode codec m e = rw (e, loaded)

prune-loaded :
    (codec : Codec) (job : String) (n ttl t : ℕ) (m : Dict ℤ)
    → ((m : Dict ℤ) → codec.decode (codec.encode m) ≡ some (some m))
    → n + ttl < max_clock
    → t < n + ttl
    → lookup job m ≡ some (pos n)
    → NodupKeys m
    → Holds job n ttl
        (prune (pos t) (record { ttl = pos ttl; seen = loaded codec (codec.encode m) }))
prune-loaded codec job n ttl t m decodes fits before at unique =
    rw (loaded-encode codec m (decodes m)) (
      prune-Holds job n ttl t (record { ttl = pos ttl; seen = m }) (omega arith) (omega arith)
        before (record { at = at; unique = unique; lives = refl }))

OnDisk-seen :
    (codec : Codec) (job : String) (n ttl t : ℕ) (disk : Disk) (again : Call) (disk' : Disk)
    → ((m : Dict ℤ) → codec.decode (codec.encode m) ≡ some (some m))
    → n + ttl < max_clock
    → t < n + ttl
    → again.job ≡ job
    → Before (n + ttl) again
    → OnDisk codec job n disk
    → (d : Dedupe) × (open_store codec (pos ttl) (pos t) (file disk) ≡ ok d)
      × ((call codec again d disk').answer ≡ ok true)
unfolding open_store
OnDisk-seen codec job n ttl t disk again disk' decodes fits before same b (m, e, at, unique) = (
  prune (pos t) (record { ttl = pos ttl; seen = loaded codec (codec.encode m) }),
  rw e refl,
  call-seen codec job n ttl (omega arith) fits again _ disk' same b
      (prune-loaded codec job n ttl t m decodes fits before at unique),
)

pub call-accepted-Holds :
    (codec : Codec) (ttl : ℕ) (c : Call) (d : Dedupe) (disk : Disk)
    → IsStore ttl d
    → (call codec c d disk).answer ≡ ok false
    → Holds c.job c.now ttl (call codec c d disk).store
unfolding call
call-accepted-Holds codec ttl c d disk h e =
    accepted-Holds codec c.io c.job ttl c.now (pos c.now') d disk h e

accepted-OnDisk :
    (codec : Codec) (ttl : ℕ) (c : Call) (d : Dedupe) (disk : Disk)
    → IsStore ttl d
    → (call codec c d disk).answer ≡ ok false
    → OnDisk codec c.job c.now (call codec c d disk).disk
unfolding call
accepted-OnDisk codec ttl c d disk h e =
    let k = accepted-Holds codec c.io c.job ttl c.now (pos c.now') d disk h e in
    let r = accepted_lem codec c.io (pos c.now) (pos c.now') c.job d disk e in
    ((call codec c d disk).store.seen, rw r refl, k.at, k.unique)

-- An accepted id survives a restart: after any further calls, whichever of their writes fail, a
-- process that opens the file before second n + ttl succeeds, and a call for the id until then is
-- answered "seen". The premise on the codec is that encoding/json reads back what it wrote.
pub accepted_survives_restart :
    (codec : Codec) (ttl t : ℕ) (c again : Call) (cs : List Call) (d : Dedupe) (disk disk' : Disk)
    → ((m : Dict ℤ) → codec.decode (codec.encode m) ≡ some (some m))
    → c.now + ttl < max_clock
    → t < c.now + ttl
    → IsStore ttl d
    → (call codec c d disk).answer ≡ ok false
    → All (Before (c.now + ttl)) cs
    → again.job ≡ c.job
    → Before (c.now + ttl) again
    → let r = call codec c d disk in
      (d' : Dedupe) × (open_store codec
          (pos ttl)
          (pos t)
          (file (state_after codec cs r.store r.disk).1)
        ≡ ok d')
      × ((call codec again d' disk').answer ≡ ok true)
accepted_survives_restart codec ttl t c again cs d disk disk' decodes fits before h e b same b' =
    OnDisk-seen codec c.job c.now ttl t _ again disk' decodes fits before same b' (
      state_after-Holds codec c.job c.now ttl (omega arith) fits cs _ _ b
        (call-accepted-Holds codec ttl c d disk h e) (accepted-OnDisk codec ttl c d disk h e))
