-- ===== src/Dedupe/Refinement.antt =====
-- internal/store/dedupe.go against what a client of it is promised: a ledger that remembers when it
-- accepted each id, and never drops or expires an entry.
use apipact_agent.Prelude.{
  ℕ, ◌+◌, ◌≤◌, ◌<◌, String, ◌≡◌, refl, sym, ap, ◌∙◌, ◌⊎◌, inl, inr, Bool, true, false, not, Option,
  none, some, List, [], ◌∷◌, arith, ◌=ₛ◌, eq_iff, ltb, leb, if◌then◌else◌, Bool-cases, Result, ok,
  err,
}
use apipact_agent.Prelude.Int.{ℤ, pos, ltb_ℤ}
use apipact_agent.Prelude.Dict.{
  lookup, erase, insert, lookup-erase, lookup-insert, keep_value, lookup-keep, erase-NodupKeys,
  insert-NodupKeys,
}
use apipact_agent.Dedupe.{
  Disk, sub64, prune, flush, is_live, after_flush, seen_or_record, Dedupe, Codec, Flush, Recorded,
  flushed, mkdir_failed, create_failed, write_failed, close_failed, rename_failed,
}
use apipact_agent.Dedupe.Laws.{max_clock, is_live_lem, kept_lem, prune-IsStore, IsStore}
use apipact_agent.Dedupe.Restart.{call, answers, Call}

-- The second at which an id was last accepted.
abbrev pub Ledger : Type 0
Ledger = String → Option ℕ

abbrev pub is_fresh : ℕ → ℕ → Option ℕ → Bool
is_fresh ttl now none = false
is_fresh ttl now (some n) = ltb now (n + ttl)

abbrev pub failure : Flush → Option String
failure flushed = none
failure (mkdir_failed e) = some e
failure (create_failed e) = some e
failure (write_failed e) = some e
failure (close_failed e) = some e
failure (rename_failed e) = some e

abbrev pub accept : String → ℕ → Ledger → Ledger
accept job now f id = if job =ₛ id then some now else f id

-- The promise: "seen" while the last acceptance is younger than the time to live; otherwise the id
-- is accepted now, unless the write fails, which is reported and changes nothing.
abbrev pub promise : ℕ → Call → Ledger → Result String Bool × Ledger
promise ttl c f =
    if is_fresh ttl c.now (f c.job)
    then (ok true, f)
    else elim (failure c.io) [ none ↦ (ok false, accept c.job c.now f) | some e ↦ (err e, f) ]

unfoldable pub promises : ℕ → List Call → Ledger → List (String × Result String Bool)
promises ttl [] f = []
promises ttl (c ∷ cs) f = let r = promise ttl c f in (c.job, r.0) ∷ promises ttl cs r.1

-- Calls whose readings of the clock do not go back, from second t on, and fit an int64.
abbrev pub Ordered : ℕ → List Call → Type 0
Ordered t [] = Unit
Ordered t (c ∷ cs) = ((t ≤ c.now) × (c.now ≤ c.now') × (c.now' < max_clock)) × Ordered c.now' cs

-- An id's entry in the store and in the ledger: the same, or dropped and out of date.
abbrev Agree : ℕ → ℕ → Option ℤ → Option ℕ → Type 0
Agree ttl t entry none = entry ≡ none
Agree ttl t entry (some n) =
    (n < max_clock) × ((entry ≡ some (pos n)) ⊎ ((entry ≡ none) × (n + ttl ≤ t)))

pub record IsView (ttl t : ℕ) (d : Dedupe) (f : Ledger) : Type 0 where
  pub store : IsStore ttl d
  pub agree : (id : String) → Agree ttl t (lookup id d.seen) (f id)

Agree-later :
    (ttl t t' : ℕ) (entry : Option ℤ) (o : Option ℕ)
    → t ≤ t'
    → Agree ttl t entry o
    → Agree ttl t' entry o
Agree-later ttl t t' entry none h a = a
Agree-later ttl t t' entry (some n) h (b, inl e) = (b, inl e)
Agree-later ttl t t' entry (some n) h (b, inr (e, old)) = (b, inr (e, omega arith))

Agree-live :
    (ttl t now : ℕ) (entry : Option ℤ) (o : Option ℕ)
    → t ≤ now
    → now < max_clock
    → Agree ttl t entry o
    → is_live (pos now) (pos ttl) entry ≡ is_fresh ttl now o
unfolding is_live
Agree-live ttl t now entry none h k a = rw (a, is_live) refl
Agree-live ttl t now entry (some n) h k (b, inl e) = rw e (is_live_lem now ttl n k b)
Agree-live ttl t now entry (some n) h k (b, inr (e, old)) = rw (e, is_live) (ground arith)

Agree-pruned :
    (ttl t now : ℕ) (entry : Option ℤ) (o : Option ℕ)
    → t ≤ now
    → now < max_clock
    → ttl < max_clock
    → Agree ttl t entry o
    → Agree ttl now (keep_value (λ ts. not (ltb_ℤ ts (sub64 (pos now) (pos ttl)))) entry) o
Agree-pruned ttl t now entry none h k l a = rw a refl
Agree-pruned ttl t now entry (some n) h k l (b, inl e) = elim (Bool-cases (leb now (n + ttl))) [
  | inl f ↦ (b, inl (rw (e, kept_lem now ttl n k l, f) refl))
  | inr f ↦ (b, inr (rw (e, kept_lem now ttl n k l, f) refl, ground arith))
]
Agree-pruned ttl t now entry (some n) h k l (b, inr (e, old)) = (b, inr (rw e refl, omega arith))

Agree-stale :
    (ttl t now t' : ℕ) (entry : Option ℤ) (o : Option ℕ)
    → now ≤ t'
    → Agree ttl t entry o
    → is_fresh ttl now o ≡ false
    → Agree ttl t' none o
Agree-stale ttl t now t' entry none h a e = refl
Agree-stale ttl t now t' entry (some n) h (b, a) e = (b, inr (refl, ground arith))

-- The store that SeenOrRecord writes, and the one that it leaves when the write fails.
abbrev recorded : Call → Dedupe → Dedupe
recorded c d =
    let pruned = prune (pos c.now') d in
    record pruned { seen = insert c.job (pos c.now) pruned.seen }

abbrev rolled_back : Call → Dedupe → Dedupe
rolled_back c d = record (recorded c d) { seen = erase c.job (recorded c d).seen }

module _ (ttl t : ℕ) (c : Call) (d : Dedupe) (f : Ledger) where
  abbrev InOrder : Type 0
  InOrder = (t ≤ c.now) × (c.now ≤ c.now') × (c.now' < max_clock)

  pruned-Agree :
      IsView ttl t d f
      → ttl < max_clock
      → InOrder
      → (id : String) → Agree ttl c.now' (lookup id (prune (pos c.now') d).seen) (f id)
  unfolding prune
  pruned-Agree v l (a, b, h) id =
      rw (lookup-keep _ id d.seen v.store.unique, v.store.lives)
        (Agree-pruned ttl t c.now' (lookup id d.seen) (f id) (omega arith) h l (v.agree id))

  recorded-IsView :
      IsView ttl t d f
      → ttl < max_clock
      → InOrder
      → IsView ttl c.now' (recorded c d) (accept c.job c.now f)
  recorded-IsView v l (a, b, h) = record {
    store = record {
      unique =
          insert-NodupKeys c.job (pos c.now) _ (prune-IsStore ttl (pos c.now') d v.store).unique;
      lives = (prune-IsStore ttl (pos c.now') d v.store).lives;
    };
    agree = λ id. elim (Bool-cases (c.job =ₛ id)) [
      | inl e ↦
          rw (lookup-insert c.job id (pos c.now) (prune (pos c.now') d).seen, e)
            (omega arith, inl refl)
      | inr e ↦
          rw (lookup-insert c.job id (pos c.now) (prune (pos c.now') d).seen, e)
            (pruned-Agree v l (a, b, h) id)
    ];
  }

  rolled_back-IsView :
      IsView ttl t d f
      → ttl < max_clock
      → InOrder
      → is_fresh ttl c.now (f c.job) ≡ false
      → IsView ttl c.now' (rolled_back c d) f
  rolled_back-IsView v l (a, b, h) stale = record {
    store = record {
      unique = erase-NodupKeys c.job _ (recorded-IsView v l (a, b, h)).store.unique;
      lives = (prune-IsStore ttl (pos c.now') d v.store).lives;
    };
    agree = λ id. elim (Bool-cases (c.job =ₛ id)) [
      | inl e ↦
          rw (lookup-erase c.job id (recorded c d).seen, e)
            (Agree-stale ttl t c.now c.now' (lookup id d.seen) (f id) b (v.agree id)
              (ap (λ x. is_fresh ttl c.now (f x)) (sym ((eq_iff c.job id).0 e)) ∙ stale))
      | inr e ↦
          rw
            (
              lookup-erase c.job id (recorded c d).seen,
              e,
              lookup-insert c.job id (pos c.now) (prune (pos c.now') d).seen,
              e,
            )
            (pruned-Agree v l (a, b, h) id)
    ];
  }

  -- The three ways that a call goes.
  call-seen_lem :
      (codec : Codec) (disk : Disk)
      → IsView ttl t d f
      → InOrder
      → is_fresh ttl c.now (f c.job) ≡ true
      → call codec c d disk ≡ record { answer = ok true; store = d; disk = disk }
  unfolding call seen_or_record
  call-seen_lem codec disk v (a, b, h) fresh =
      let e =
        Agree-live ttl t c.now (lookup c.job d.seen) (f c.job) a (omega arith) (v.agree c.job) in
      rw (v.store.lives, e, fresh) refl

  call-new_lem :
      (codec : Codec) (disk : Disk)
      → IsView ttl t d f
      → InOrder
      → is_fresh ttl c.now (f c.job) ≡ false
      → call codec c d disk
        ≡ after_flush c.job (recorded c d) (flush codec c.io (recorded c d) disk)
  unfolding call seen_or_record
  call-new_lem codec disk v (a, b, h) stale =
      let e =
        Agree-live ttl t c.now (lookup c.job d.seen) (f c.job) a (omega arith) (v.agree c.job) in
      rw (v.store.lives, e, stale) refl

  flushed_lem :
      (codec : Codec) (io : Flush) (store : Dedupe) (disk : Disk)
      → (r : Option String × Disk) × (r ≡ flush codec io store disk) × (r.0 ≡ failure io)
  unfolding flush
  flushed_lem codec flushed store disk = (_, refl, refl)
  flushed_lem codec (mkdir_failed e) store disk = (_, refl, refl)
  flushed_lem codec (create_failed e) store disk = (_, refl, refl)
  flushed_lem codec (write_failed e) store disk = (_, refl, refl)
  flushed_lem codec (close_failed e) store disk = (_, refl, refl)
  flushed_lem codec (rename_failed e) store disk = (_, refl, refl)

  -- What a call leaves is again a view of what the promise leaves, and the answers are the same.
  abbrev Simulates : Recorded → Result String Bool × Ledger → Type 0
  Simulates r (answer, g) = (r.answer ≡ answer) × IsView ttl c.now' r.store g

  after_flush-Simulates :
      (disk : Disk) (io : Option String)
      → IsView ttl t d f
      → ttl < max_clock
      → InOrder
      → is_fresh ttl c.now (f c.job) ≡ false
      → Simulates
          (after_flush c.job (recorded c d) (io, disk))
          (elim io [ none ↦ (ok false, accept c.job c.now f) | some e ↦ (err e, f) ])
  unfolding after_flush
  after_flush-Simulates disk none v l o stale = (refl, recorded-IsView v l o)
  after_flush-Simulates disk (some e) v l o stale = (refl, rolled_back-IsView v l o stale)

  call-Simulates :
      (codec : Codec) (disk : Disk)
      → IsView ttl t d f
      → ttl < max_clock
      → InOrder
      → Simulates (call codec c d disk) (promise ttl c f)
  call-Simulates codec disk v l o = elim (Bool-cases (is_fresh ttl c.now (f c.job))) [
    | inl fresh ↦
        rw (call-seen_lem codec disk v o fresh, fresh)
          (
            refl,
            record {
              store = v.store;
              agree = λ id. Agree-later ttl t c.now' _ _ (omega (arith, o)) (v.agree id);
            },
          )
    | inr stale ↦
        let (r, q, k) = flushed_lem codec c.io (recorded c d) disk in
        rw (call-new_lem codec disk v o stale, stale, ← q, ← k)
          (after_flush-Simulates r.1 r.0 v l o stale)
  ]

-- The store keeps its promise: for every sequence of calls whose clock does not run back, and
-- whichever of their writes fail, it answers what the ledger answers, although it forgets the ids
-- that are out of date.
pub answers_refine :
    (codec : Codec) (ttl t : ℕ) (cs : List Call) (d : Dedupe) (disk : Disk) (f : Ledger)
    → ttl < max_clock
    → Ordered t cs
    → IsView ttl t d f
    → answers codec cs d disk ≡ promises ttl cs f
unfolding answers promises
answers_refine codec ttl t [] d disk f l o v = refl
answers_refine codec ttl t (c ∷ cs) d disk f l (o, os) v =
    let (e, v') = call-Simulates ttl t c d f codec disk v l o in
    let rest =
      answers_refine codec ttl c.now' cs (call codec c d disk).store (call codec c d disk).disk
        (promise ttl c f).1 l os v' in
    rw (e, rest) refl
