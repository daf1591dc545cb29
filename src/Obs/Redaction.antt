-- ===== src/Obs/Redaction.antt =====
-- internal/obs/log.go, RedactURL: what is left of a URL in the log.
use Prim.Native.Char.{Char, code}
use Prim.Native.String.{◌++◌ as ◌<>◌}
use text.Mathlib.TextLemmas.{nil-append, append-nil, cons-append, append_assoc}
use apipact_agent.Prelude.{
  ℕ, String, ◌≡◌, refl, sym, ap, ◌∙◌, ◌≢◌, Bool, true, false, ◌&&◌, not, Option, none, some, arith,
  ◌=ₛ◌, eq_iff, ◌==◌,
}
use apipact_agent.Obs.{
  before_query, redact_query, split_last_at, after_marker, split_scheme, redact_user, redact_url,
}

-- No character of the text has this code.
abbrev pub lacks : ℕ → String → Bool
lacks n String.[] = true
lacks n (String.◌∷◌ c s) = not (code c == n) && lacks n s

before_query-append :
    (p q : String) → lacks b'?' p ≡ true → before_query (p <> String.◌∷◌ "?" q) ≡ some p
unfolding before_query
before_query-append String.[] q h = ap before_query (nil-append (String.◌∷◌ "?" q))
before_query-append (String.◌∷◌ c p) q h =
    let other : (code c == b'?') ≡ false = ground arith in
    let rest : lacks b'?' p ≡ true = ground arith in
    ap before_query (cons-append c p (String.◌∷◌ "?" q))
    ∙ rw (before_query, other, before_query-append p q rest) refl

split_last_at-lacks : (s : String) → lacks b'@' s ≡ true → split_last_at s ≡ none
unfolding split_last_at
split_last_at-lacks String.[] h = refl
split_last_at-lacks (String.◌∷◌ c s) h =
    let other : (code c == b'@') ≡ false = ground arith in
    let rest : lacks b'@' s ≡ true = ground arith in
    rw (split_last_at, split_last_at-lacks s rest, other) refl

split_last_at-append :
    (user host : String)
    → lacks b'@' host ≡ true
    → split_last_at (user <> String.◌∷◌ "@" host) ≡ some (user, host)
unfolding split_last_at
split_last_at-append String.[] host h =
    ap split_last_at (nil-append (String.◌∷◌ "@" host))
    ∙ rw (split_last_at, split_last_at-lacks host h) refl
split_last_at-append (String.◌∷◌ c user) host h =
    ap split_last_at (cons-append c user (String.◌∷◌ "@" host))
    ∙ rw (split_last_at, split_last_at-append user host h) refl

after_marker-lacks :
    (c : Char) (s : String) → (code c == b':') ≡ false → after_marker (String.◌∷◌ c s) ≡ none
unfolding after_marker
after_marker-lacks c String.[] h = refl
after_marker-lacks c (String.◌∷◌ d String.[]) h = refl
after_marker-lacks c (String.◌∷◌ d (String.◌∷◌ e s)) h = rw (after_marker, h) refl

-- "://" before a text
abbrev pub marked : String → String
marked s = String.◌∷◌ ":" (String.◌∷◌ "/" (String.◌∷◌ "/" s))

split_scheme-append :
    (scheme rest : String)
    → lacks b':' scheme ≡ true
    → split_scheme (scheme <> marked rest) ≡ some (scheme, rest)
unfolding split_scheme after_marker
split_scheme-append String.[] rest h = ap split_scheme (nil-append (marked rest))
split_scheme-append (String.◌∷◌ c scheme) rest h =
    let other : (code c == b':') ≡ false = ground arith in
    let more : lacks b':' scheme ≡ true = ground arith in
    ap split_scheme (cons-append c scheme (marked rest))
    ∙ rw
        (
          split_scheme,
          after_marker-lacks c (scheme <> marked rest) other,
          split_scheme-append scheme rest more,
        )
        refl

lacks-append :
    (n : ℕ) (s t : String) → lacks n s ≡ true → lacks n t ≡ true → lacks n (s <> t) ≡ true
lacks-append n String.[] t h k = ap (lacks n) (nil-append t) ∙ k
lacks-append n (String.◌∷◌ c s) t h k =
    let other : (code c == n) ≡ false = ground arith in
    let more : lacks n s ≡ true = ground arith in
    ap (lacks n) (cons-append c s t) ∙ rw (other, lacks-append n s t more k) refl

redact_user_hides :
    (scheme user host : String)
    → lacks b':' scheme ≡ true
    → lacks b'@' host ≡ true
    → user ≢ ""
    → redact_user (scheme <> marked (user <> String.◌∷◌ "@" host))
      ≡ scheme <> ("://<redacted>@" <> host)
unfolding redact_user
redact_user_hides scheme user host h k n =
    let named : (user =ₛ "") ≡ false = ground (arith, eq_iff user "") in
    rw
      (
        redact_user,
        split_scheme-append scheme (user <> String.◌∷◌ "@" host) h,
        split_last_at-append user host k,
        named,
      )
      refl

-- A URL in the log shows nothing of its query: whatever stands behind the first question mark, the
-- same text is logged.
pub redact_url_hides_query :
    (p q q' : String)
    → lacks b'?' p ≡ true
    → redact_url (p <> String.◌∷◌ "?" q) ≡ redact_url (p <> String.◌∷◌ "?" q')
unfolding redact_url redact_query
redact_url_hides_query p q q' h =
    rw (redact_url, redact_query, before_query-append p q h, before_query-append p q' h) refl

-- The end of a URL after its host and path: nothing, or a query
abbrev pub query_text : Option String → String
query_text none = ""
query_text (some q) = String.◌∷◌ "?" q

-- The same end in the log
abbrev pub redacted_query : Option String → String
redacted_query none = ""
redacted_query (some q) = "?<redacted>"

before_query-lacks : (s : String) → lacks b'?' s ≡ true → before_query s ≡ none
unfolding before_query
before_query-lacks String.[] h = refl
before_query-lacks (String.◌∷◌ c s) h =
    let other : (code c == b'?') ≡ false = ground arith in
    let rest : lacks b'?' s ≡ true = ground arith in
    rw (before_query, before_query-lacks s rest, other) refl

redact_query-text :
    (p : String) (query : Option String)
    → lacks b'?' p ≡ true
    → redact_query (p <> query_text query) ≡ p <> redacted_query query
unfolding redact_query
redact_query-text p none h =
    ap redact_query (append-nil p) ∙ rw (redact_query, before_query-lacks p h) (sym (append-nil p))
redact_query-text p (some q) h = rw (redact_query, before_query-append p q h) refl

lacks-redacted_query : (query : Option String) → lacks b'@' (redacted_query query) ≡ true
lacks-redacted_query none = refl
lacks-redacted_query (some q) = refl

-- A host and path, after a userinfo if there is one
abbrev pub with_user : Option String → String → String
with_user none s = s
with_user (some u) s = u <> String.◌∷◌ "@" s

-- The userinfo in the log
abbrev pub redacted_user : Option String → Option String
redacted_user none = none
redacted_user (some u) = some "<redacted>"

user_shown :
    (host : String) → "://<redacted>@" <> host ≡ marked ("<redacted>" <> String.◌∷◌ "@" host)
user_shown host =
    let at : "@" <> host ≡ String.◌∷◌ "@" host =
      cons-append "@" "" host ∙ ap (λ s. String.◌∷◌ "@" s) (nil-append host) in
    let user : "<redacted>@" <> host ≡ "<redacted>" <> String.◌∷◌ "@" host =
      append_assoc "<redacted>" "@" host ∙ ap (λ s. "<redacted>" <> s) at in
    rw
      (
        cons-append ":" "//<redacted>@" host,
        cons-append "/" "/<redacted>@" host,
        cons-append "/" "<redacted>@" host,
        user,
      )
      refl

redact_user_optional :
    (scheme : String) (user : Option String) (host : String)
    → lacks b':' scheme ≡ true
    → lacks b'@' host ≡ true
    → user ≢ some ""
    → redact_user (scheme <> marked (with_user user host))
      ≡ scheme <> marked (with_user (redacted_user user) host)
unfolding redact_user
redact_user_optional scheme none host h k n =
    rw (redact_user, split_scheme-append scheme host h, split_last_at-lacks host k) refl
redact_user_optional scheme (some u) host h k n =
    redact_user_hides scheme u host h k (λ e. n (ap some e))
    ∙ ap (λ s. scheme <> s) (user_shown host)

url_append :
    (scheme : String) (user : Option String) (host t : String)
    → (scheme <> marked (with_user user host)) <> t ≡ scheme <> marked (with_user user (host <> t))
url_append scheme none host t = rw (append_assoc, cons-append, cons-append, cons-append) refl
url_append scheme (some u) host t =
    rw (append_assoc, cons-append, cons-append, cons-append, append_assoc, cons-append) refl

-- Of a URL scheme://userinfo@host?query, whose userinfo and query may each be missing, the log shows
-- scheme://<redacted>@host?<redacted>, without the parts that are missing: nothing of the userinfo
-- and nothing of the query, and the rest as it is, with the path in the host. The scheme has no
-- colon, the host no '@', no part before the query a question mark, and a userinfo is not empty.
pub redact_url_hides :
    (scheme : String) (user : Option String) (host : String) (query : Option String)
    → lacks b':' scheme ≡ true
    → lacks b'?' (scheme <> marked (with_user user host)) ≡ true
    → lacks b'@' host ≡ true
    → user ≢ some ""
    → redact_url (scheme <> marked (with_user user (host <> query_text query)))
      ≡ scheme <> marked (with_user (redacted_user user) (host <> redacted_query query))
unfolding redact_url
redact_url_hides scheme user host query h k n u =
    ap redact_url (sym (url_append scheme user host (query_text query)))
    ∙ ap redact_user (redact_query-text (scheme <> marked (with_user user host)) query k)
    ∙ ap redact_user (url_append scheme user host (redacted_query query))
    ∙ redact_user_optional scheme user (host <> redacted_query query) h
        (lacks-append b'@' host (redacted_query query) n (lacks-redacted_query query)) u
