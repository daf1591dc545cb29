-- ===== src/Protocol/Channels/Slug.antt =====
-- The language of agentIDRe, and the channel names as slugs and as names of one agent.
use Prim.Native.Char.{Char, code}
use Prim.Native.String.{◌++◌ as ◌<>◌, len}
use text.Mathlib.TextEquality.{Char-path}
use text.Mathlib.TextLemmas.{
  nil-append, append-nil, append_assoc, cons-append, append_cancel_left, append_cancel_right,
}
use text.Mathlib.TextPositions.{len-append}
use apipact_agent.Prelude.{
  ℕ, ◌+◌, ◌≤◌, String, ◌≡◌, refl, sym, ap, ◌∙◌, ◌≢◌, ◌↔◌, inl, inr, Bool, true, false, ◌&&◌, Option,
  none, some, arith, ◌==◌, if◌then◌else◌, Bool-cases,
}
use apipact_agent.Protocol.Channels.{
  is_slug_char, matches_agent_id, valid_agent_id, jobs_channel, results_channel, control_channel,
}

-- [a-z0-9]+
pub data IsSegment : String → Type 0 where
  last : (c : Char) {s : String} → is_slug_char c ≡ true → s ≡ String.◌∷◌ c String.[] → IsSegment s
  more :
      (c : Char) {s t : String}
      → is_slug_char c ≡ true
      → IsSegment t
      → s ≡ String.◌∷◌ c t
      → IsSegment s

-- Segments joined by single hyphens.
pub data IsSlug : String → Type 0 where
  one : {s : String} → IsSegment s → IsSlug s
  join : (s t : String) {u : String} → IsSegment s → IsSlug t → u ≡ s <> ("-" <> t) → IsSlug u

IsSlug-cons : (c : Char) (s : String) → is_slug_char c ≡ true → IsSlug s → IsSlug (String.◌∷◌ c s)
IsSlug-cons c s h (one g) = one (more c h g refl)
IsSlug-cons c s h (join a b g t e) =
    join (String.◌∷◌ c a) b (more c h g refl) t
      (ap (String.◌∷◌ c) e ∙ sym (cons-append c a ("-" <> b)))

abbrev Accepted : Bool → String → Type 0
Accepted false s = IsSlug s
Accepted true s = (c : Char) → is_slug_char c ≡ true → IsSlug (String.◌∷◌ c s)

hyphen_lem : (d : Char) → code d ≡ b'-' → (s : String) → String.◌∷◌ d s ≡ "-" <> s
hyphen_lem d h s =
    let e : d ≡ "-" = Char-path d "-" h in
    ap (λ c. String.◌∷◌ c s) e
    ∙ sym (cons-append "-" String.[] s ∙ ap (String.◌∷◌ "-") (nil-append s))

IsSlug-join_one :
    (c : Char) (s : String)
    → is_slug_char c ≡ true
    → IsSlug s
    → (d : Char) → code d ≡ b'-'
    → IsSlug (String.◌∷◌ c (String.◌∷◌ d s))
IsSlug-join_one c s h g d e = join (String.◌∷◌ c String.[]) s (last c h refl) g (
    ap (String.◌∷◌ c) (hyphen_lem d e s ∙ sym (nil-append ("-" <> s)))
    ∙ sym (cons-append c String.[] ("-" <> s)))

matches-Accepted : (after : Bool) (s : String) → matches_agent_id after s ≡ true → Accepted after s
unfolding matches_agent_id
matches-Accepted true String.[] h = λ c k. one (last c k refl)
matches-Accepted false String.[] h = cc
matches-Accepted true (String.◌∷◌ d s) h = elim (Bool-cases (is_slug_char d)) [
  | inl e ↦ λ c k. IsSlug-cons c _ k (matches-Accepted true s (ground arith) d e)
  | inr e ↦ λ c k. IsSlug-join_one c s k (matches-Accepted false s (ground arith)) d (ground arith)
]
matches-Accepted false (String.◌∷◌ d s) h = elim (Bool-cases (is_slug_char d)) [
  | inl e ↦ matches-Accepted true s (ground arith) d e
  | inr e ↦ absurd (ground arith)
]

-- The state after a text, if the automaton has not stopped.
after_text : Bool → String → Option Bool
after_text after String.[] = some after
after_text after (String.◌∷◌ c s) =
    let inside = after_text true s in
    let between = after_text false s in
    if is_slug_char c then inside else if after && code c == b'-' then between else none

abbrev resume : Option Bool → String → Bool
resume none t = false
resume (some after) t = matches_agent_id after t

matches-append :
    (after : Bool) (s t : String) → matches_agent_id after (s <> t) ≡ resume (after_text after s) t
unfolding matches_agent_id after_text
matches-append after String.[] t = rw nil-append
matches-append after (String.◌∷◌ c s) t =
    rw cons-append (ground (arith, matches-append true s t, matches-append false s t))

matches-after_text :
    (after : Bool) (s : String) → matches_agent_id after s ≡ true → after_text after s ≡ some true
unfolding matches_agent_id after_text
matches-after_text true String.[] h = refl
matches-after_text false String.[] h = cc
matches-after_text after (String.◌∷◌ c s) h =
    ground (arith, matches-after_text true s, matches-after_text false s)

segment-after_text : (after : Bool) {s : String} → IsSegment s → after_text after s ≡ some true
unfolding after_text
segment-after_text after (last c h e) = rw (e, after_text) (ground arith)
segment-after_text after (more c h g e) =
    rw (e, after_text) (ground (arith, segment-after_text true g))

matches_by_after :
    (after : Bool) (s : String) → matches_agent_id after s ≡ resume (after_text after s) String.[]
matches_by_after after s = rw append-nil at (matches-append after s String.[])

after_hyphen : after_text true "-" ≡ some false
unfolding after_text is_slug_char
after_hyphen = refl

slug-matches : {s : String} → IsSlug s → matches_agent_id false s ≡ true
unfolding matches_agent_id
slug-matches (one {s = s} g) =
    matches_by_after false s ∙ ap (λ o. resume o String.[]) (segment-after_text false g)
slug-matches (join s t g k e) = rw e (
    matches-append false s ("-" <> t)
    ∙ ap (λ o. resume o ("-" <> t)) (segment-after_text false g)
    ∙ matches-append true "-" t
    ∙ ap (λ o. resume o t) after_hyphen
    ∙ slug-matches k)

-- The automaton accepts exactly the texts of the grammar: non-empty runs of lower-case letters and
-- digits, joined by single hyphens.
pub matches-IsSlug : (s : String) → (matches_agent_id false s ≡ true) ↔ IsSlug s
matches-IsSlug s = (matches-Accepted false s, slug-matches)

valid_agent_id_parts :
    (id : String) → valid_agent_id id ≡ true → (matches_agent_id false id ≡ true) × (len id ≤ 100)
unfolding valid_agent_id
valid_agent_id_parts id h = ground arith

-- A prefix that leaves the automaton between segments, and a suffix that it reads to its end.
framed_matches :
    (prefix suffix id : String)
    → after_text false prefix ≡ some false
    → matches_agent_id true suffix ≡ true
    → matches_agent_id false id ≡ true
    → matches_agent_id false (prefix <> (id <> suffix)) ≡ true
framed_matches prefix suffix id p q h =
    matches-append false prefix (id <> suffix)
    ∙ ap (λ o. resume o (id <> suffix)) p
    ∙ matches-append false id suffix
    ∙ ap (λ o. resume o suffix) (matches-after_text false id h)
    ∙ q

framed_len :
    (prefix suffix id : String) → len (prefix <> (id <> suffix)) ≡ len prefix + len id + len suffix
framed_len prefix suffix id = omega (arith, len-append prefix (id <> suffix), len-append id suffix)

-- The name that the relay accepts for a channel: a slug of at most 128 bytes.
abbrev pub IsChannel : String → Type 0
IsChannel s = IsSlug s × (len s ≤ 128)

framed-IsChannel :
    (prefix suffix id : String)
    → after_text false prefix ≡ some false
    → matches_agent_id true suffix ≡ true
    → len prefix + len suffix ≤ 28
    → valid_agent_id id ≡ true
    → IsChannel (prefix <> (id <> suffix))
framed-IsChannel prefix suffix id p q r h =
    let (m, l) = valid_agent_id_parts id h in
    (
      (matches-IsSlug _).0 (framed_matches prefix suffix id p q m),
      omega (arith, framed_len prefix suffix id),
    )

after_prefix : after_text false "agent-" ≡ some false
unfolding after_text is_slug_char
after_prefix = refl

-- For a valid agent id each of the three channel names is a slug of at most 128 bytes.
channels-IsChannel :
    (id : String)
    → valid_agent_id id ≡ true
    → IsChannel (jobs_channel id) × IsChannel (results_channel id) × IsChannel (control_channel id)
unfolding jobs_channel results_channel control_channel matches_agent_id is_slug_char
channels-IsChannel id h = (
  framed-IsChannel "agent-" "-jobs" id after_prefix refl (omega arith) h,
  framed-IsChannel "agent-" "-results" id after_prefix refl (omega arith) h,
  framed-IsChannel "agent-" "-control" id after_prefix refl (omega arith) h,
)

framed_inj :
    (prefix suffix a b : String) → prefix <> (a <> suffix) ≡ prefix <> (b <> suffix) → a ≡ b
framed_inj prefix suffix a b e =
    append_cancel_right a b suffix (append_cancel_left prefix (a <> suffix) (b <> suffix) e)

last_code : String → ℕ → ℕ
last_code String.[] n = n
last_code (String.◌∷◌ c s) n = last_code s (code c)

last_code-append :
    (s t : String) (n m : ℕ) → ((k : ℕ) → last_code t k ≡ m) → last_code (s <> t) n ≡ m
unfolding last_code
last_code-append String.[] t n m h = rw nil-append (h n)
last_code-append (String.◌∷◌ c s) t n m h = rw cons-append (last_code-append s t (code c) m h)

-- Texts that end in two different last characters before a common end.
ends_differ :
    (a b s t end : String) (m n : ℕ)
    → ((k : ℕ) → last_code s k ≡ m)
    → ((k : ℕ) → last_code t k ≡ n)
    → m ≢ n
    → "agent-" <> (a <> (s <> end)) ≢ "agent-" <> (b <> (t <> end))
unfolding last_code
ends_differ a b s t end m n hs ht d e =
    let e₁ = append_cancel_left "agent-" _ _ e in
    let e₂ : (a <> s) <> end ≡ (b <> t) <> end =
      append_assoc a s end ∙ e₁ ∙ sym (append_assoc b t end) in
    let e₃ = append_cancel_right (a <> s) (b <> t) end e₂ in
    d (sym (last_code-append a s 0 m hs) ∙ ap (λ u. last_code u 0) e₃ ∙ last_code-append b t 0 n ht)

-- No two channels coincide: equal names of one kind come from equal ids, and the names of two
-- kinds differ, whatever the ids.
channels_injective :
    (a b : String)
    → ((jobs_channel a ≡ jobs_channel b) ↔ (a ≡ b))
      × ((results_channel a ≡ results_channel b) ↔ (a ≡ b))
      × ((control_channel a ≡ control_channel b) ↔ (a ≡ b))
      × (jobs_channel a ≢ results_channel b)
      × (jobs_channel a ≢ control_channel b)
      × (results_channel a ≢ control_channel b)
unfolding jobs_channel results_channel control_channel last_code
channels_injective a b = (
  (framed_inj "agent-" "-jobs" a b, ap jobs_channel),
  (framed_inj "agent-" "-results" a b, ap results_channel),
  (framed_inj "agent-" "-control" a b, ap control_channel),
  ends_differ a b "-job" "-result" "s" b'b' b't' (λ k. refl) (λ k. refl) (omega arith),
  ends_differ a b "-jobs" "-control" "" b's' b'l' (λ k. refl) (λ k. refl) (omega arith),
  ends_differ a b "-results" "-control" "" b's' b'l' (λ k. refl) (λ k. refl) (omega arith),
)
