-- ===== src/Tests/Dedupe.antt =====
-- internal/store/dedupe.go on a store with one id, and a file format that reads back what it wrote.
use Prim.Native.Char.{Char, code}
use apipact_agent.Prelude.{
  ℕ, zero, suc, ◌+◌, String, ◌≡◌, refl, ap, ◌∙◌, Bool, true, false, none, some, List, [], ◌∷◌,
  arith, ◌==◌, if◌then◌else◌, ok, err,
}
use apipact_agent.Prelude.Int.{ℤ, pos, negsuc}
use apipact_agent.Prelude.Dict.{Dict, lookup}
use apipact_agent.Dedupe.{
  flush, open_store, seen_or_record, Dedupe, Codec, Flush, flushed, write_failed,
}
use apipact_agent.Dedupe.Laws.{Holds, IsStore}
use apipact_agent.Dedupe.Restart.{call, answers, state_after, file, accepted_survives_restart, Call}
use apipact_agent.Dedupe.Refinement.{promises, answers_refine, IsView}

-- A format for the tests: an entry is a bracket, its key with a letter k before each character, a
-- sign, and its number in strokes.
unfoldable strokes : ℕ → String → String
strokes zero s = s
strokes (suc n) s = String.◌∷◌ "i" (strokes n s)

unfoldable write_value : ℤ → String → String
unfolding strokes
write_value (pos n) s = String.◌∷◌ "+" (strokes n s)
write_value (negsuc n) s = String.◌∷◌ "-" (strokes n s)

unfoldable write_key : String → String → String
write_key String.[] s = s
write_key (String.◌∷◌ c k) s = String.◌∷◌ "k" (String.◌∷◌ c (write_key k s))

unfoldable pub write : Dict ℤ → String
unfolding write_value write_key
write [] = String.[]
write ((k, v) ∷ m) = String.◌∷◌ "e" (write_key k (write_value v (write m)))

-- What has been read of a text, from its end: strokes, a value, the end of a key, whole entries.
abbrev Parsed : Type 0
Parsed = ℕ × ℤ × String × Dict ℤ

abbrev step : Char → Parsed → Parsed
step c (n, v, k, m) =
    if code c == b'i'
    then (n + 1, v, k, m)
    else if code c == b'+'
    then (0, pos n, "", m)
    else if code c == b'-'
    then (0, negsuc n, "", m)
    else (0, pos 0, "", (k, v) ∷ m)

abbrev keep_char : Char → Parsed → Parsed
keep_char c (n, v, k, m) = (n, v, String.◌∷◌ c k, m)

-- The flag says that the next character belongs to a key.
unfoldable scan : Bool → String → Parsed
scan flag String.[] = (0, pos 0, "", [])
scan true (String.◌∷◌ c s) = keep_char c (scan false s)
scan false (String.◌∷◌ c s) =
    let key = scan true s in
    let other = scan false s in if code c == b'k' then key else step c other

scan-strokes :
    (n : ℕ) (v : ℤ) (k : String) (m : Dict ℤ) (s : String)
    → scan false s ≡ (0, v, k, m)
    → scan false (strokes n s) ≡ (n, v, k, m)
unfolding scan strokes
scan-strokes zero v k m s h = h
scan-strokes (suc n) v k m s h = ap (step "i") (scan-strokes n v k m s h) ∙ ground arith

scan-key :
    (k : String) (v : ℤ) (m : Dict ℤ) (s : String)
    → scan false s ≡ (0, v, "", m)
    → scan false (write_key k s) ≡ (0, v, k, m)
unfolding scan write_key
scan-key String.[] v m s h = h
scan-key (String.◌∷◌ c k) v m s h = ap (keep_char c) (scan-key k v m s h)

scan-value :
    (v : ℤ) (k : String) (m : Dict ℤ) (s : String)
    → scan false s ≡ (0, pos 0, "", m)
    → scan false (write_value v s) ≡ (0, v, "", m)
unfolding scan write_value
scan-value (pos n) k m s h = ap (step "+") (scan-strokes n (pos 0) "" m s h)
scan-value (negsuc n) k m s h = ap (step "-") (scan-strokes n (pos 0) "" m s h)

scan-write : (m : Dict ℤ) → scan false (write m) ≡ (0, pos 0, "", m)
unfolding scan write
scan-write [] = refl
scan-write ((k, v) ∷ m) = ap (step "e") (scan-key k v m _ (scan-value v k m _ (scan-write m)))

abbrev codec : Codec
codec = record { encode = write; decode = λ s. some (some (scan false s).3) }

reads_back : (m : Dict ℤ) → codec.decode (codec.encode m) ≡ some (some m)
reads_back m = rw (scan-write m) refl

-- A store of ten seconds that holds the id "a" from second 5, and calls for it and for others.
abbrev one_id : Dedupe
one_id = record { ttl = pos 10; seen = ("a", pos 5) ∷ [] }

abbrev call_at : String → ℕ → Flush → Call
call_at id n io = record { job = id; io = io; now = n; now' = n }

one_id-IsStore : IsStore 10 one_id
unfolding lookup
one_id-IsStore = record { unique = (refl, tt); lives = refl }

one_id-Holds : Holds "a" 5 10 one_id
unfolding lookup
one_id-Holds = record { at = refl; unique = (refl, tt); lives = refl }

new_id : (call codec (call_at "b" 7 flushed) one_id none).answer ≡ ok false
unfolding call seen_or_record flush lookup
new_id = refl

broken :
    (seen_or_record codec (write_failed "disk full") (pos 7) (pos 7) "b" one_id none).answer
    ≡ err "disk full"
unfolding seen_or_record flush lookup
broken = refl

abbrev later_calls : List Call
later_calls = call_at "c" 8 (write_failed "disk full") ∷ call_at "b" 9 flushed ∷ []

accepted_survives_restart_example :
    let r = call codec (call_at "b" 7 flushed) one_id none in
    (d' : Dedupe) × (open_store codec
        (pos 10)
        (pos 12)
        (file (state_after codec later_calls r.store r.disk).1)
      ≡ ok d')
    × ((call codec (call_at "b" 13 flushed) d' none).answer ≡ ok true)
accepted_survives_restart_example =
    accepted_survives_restart codec 10 12 (call_at "b" 7 flushed) (call_at "b" 13 flushed)
      later_calls one_id none none reads_back (omega arith) (omega arith) one_id-IsStore new_id
      ((omega arith, omega arith), ((omega arith, omega arith), tt)) refl (omega arith, omega arith)

abbrev empty : Dedupe
empty = record { ttl = pos 10; seen = [] }

empty-IsView : IsView 10 0 empty (λ id. none)
unfolding lookup
empty-IsView = record { store = record { unique = tt; lives = refl }; agree = λ id. refl }

-- Accepted, seen, refused by the disk, and accepted again after its time to live.
abbrev four_calls : List Call
four_calls =
    call_at "a" 5 flushed
    ∷ call_at "a" 7 flushed
    ∷ call_at "b" 8 (write_failed "disk full")
    ∷ call_at "a" 15 flushed
    ∷ []

promised :
    promises 10 four_calls (λ id. none)
    ≡ ("a", ok false) ∷ ("a", ok true) ∷ ("b", err "disk full") ∷ ("a", ok false) ∷ []
unfolding promises
promised = refl

answers_refine_example : answers codec four_calls empty none ≡ promises 10 four_calls (λ id. none)
answers_refine_example =
    answers_refine codec 10 0 four_calls empty none (λ id. none) (omega arith)
      (
        (omega arith, omega arith, omega arith),
        (
          (omega arith, omega arith, omega arith),
          ((omega arith, omega arith, omega arith), ((omega arith, omega arith, omega arith), tt)),
        ),
      )
      empty-IsView
