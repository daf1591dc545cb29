-- ===== src/Obs.antt =====
-- internal/obs/log.go: LevelFromEnv and RedactURL. New only hands a level to log/slog.
pub mod Redaction
use Prim.Native.Char.{Char, code}
use Prim.Native.String.{◌++◌ as ◌<>◌}
use apipact_agent.Prelude.{
  ◌/◌, ◌<◌, String, ◌&&◌, ◌||◌, Option, none, some, [], ◌∷◌, ◌=ₛ◌, ◌==◌, if◌then◌else◌,
}

-- The levels of log/slog
pub data Level : Type 0 where
  debug info warn error : Level

-- LevelFromEnv, from the lower-case value of APIPACT_LOG_LEVEL
unfoldable pub level_of : String → Level
level_of v =
    if v =ₛ "debug"
    then Level.debug
    else if v =ₛ "warn" || v =ₛ "warning"
    then Level.warn
    else if v =ₛ "error"
    then Level.error
    else Level.info

-- strings.ToLower is an argument.
unfoldable pub level_from_env : (String → String) → (String → String) → Level
unfolding level_of
level_from_env to_lower getenv = level_of (to_lower (getenv "APIPACT_LOG_LEVEL"))

-- The text before the first '?', the slice up to strings.IndexByte(raw, '?').
unfoldable pub before_query : String → Option String
before_query String.[] = none
before_query (String.◌∷◌ c s) =
    let rest = before_query s in
    if code c == b'?' then some "" else elim rest [ none ↦ none | some p ↦ some (String.◌∷◌ c p) ]

-- The first statement of RedactURL
unfoldable pub redact_query : String → String
unfolding before_query
redact_query raw = elim (before_query raw) [ none ↦ raw | some p ↦ p <> "?<redacted>" ]

-- The texts around the last '@', which is at strings.LastIndex.
unfoldable pub split_last_at : String → Option (String × String)
split_last_at String.[] = none
split_last_at (String.◌∷◌ c s) = elim (split_last_at s) [
  | some (user, host) ↦ some (String.◌∷◌ c user, host)
  | none ↦ if code c == b'@' then some ("", s) else none
]

-- The text after "://", if a text begins so.
unfoldable pub after_marker : String → Option String
after_marker (String.◌∷◌ c (String.◌∷◌ d (String.◌∷◌ e s))) =
    if code c == b':' && code d == b'/' && code e == b'/' then some s else none
after_marker _ = none

-- The texts around the first "://", which is at strings.Index.
unfoldable pub split_scheme : String → Option (String × String)
unfolding after_marker
split_scheme String.[] = none
split_scheme (String.◌∷◌ c s) =
    let rest = split_scheme s in
    elim (after_marker (String.◌∷◌ c s)) [
      | some after ↦ some ("", after)
      | none ↦ elim rest [ none ↦ none | some (k, v) ↦ some (String.◌∷◌ c k, v) ]
    ]

-- The second statement of RedactURL: a last '@' more than three bytes behind the first "://" is one
-- of the rest that has a text before it.
unfoldable pub redact_user : String → String
unfolding split_scheme split_last_at
redact_user raw = elim (split_scheme raw) [
  | none ↦ raw
  | some (scheme, rest) ↦ elim (split_last_at rest) [
    | none ↦ raw
    | some (user, host) ↦ if user =ₛ "" then raw else scheme <> ("://<redacted>@" <> host)
  ]
]

-- RedactURL
unfoldable pub redact_url : String → String
unfolding redact_query redact_user
redact_url raw = redact_user (redact_query raw)
