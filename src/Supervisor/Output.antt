-- ===== src/Supervisor/Output.antt =====
-- internal/supervisor/supervisor.go: splitFields, and currentWorkerVersion's reading of what
-- `worker --version` prints.
use Prim.Native.Char.{Char, code}
use Prim.Native.String.{◌++◌ as ◌<>◌}
use apipact_agent.Prelude.{
  String, Bool, ◌||◌, List, [], ◌∷◌, ◌++◌, ◌=ₛ◌, ◌==◌, if◌then◌else◌, Result, ok, err,
}

-- ' ', '\n' or '\t'
unfoldable pub ends_field : Char → Bool
ends_field c = code c == 0x20 || code c == 0x0a || code c == 0x09

-- if cur != "" { out = append(out, cur) }
unfoldable pub flush : String → List String → List String
flush cur out = if cur =ₛ "" then out else out ++ (cur ∷ [])

-- The loop of splitFields, from its variables cur and out.
unfoldable pub fields_from : String → List String → String → List String
unfolding ends_field flush
fields_from cur out String.[] = flush cur out
fields_from cur out (String.◌∷◌ c s) =
    fields_from (if ends_field c then "" else cur <> String.◌∷◌ c "")
      (if ends_field c then flush cur out else out) s

-- splitFields
unfoldable pub split_fields : String → List String
unfolding fields_from
split_fields s = fields_from "" [] s

unfoldable pub second_field : List String → String
second_field (a ∷ b ∷ rest) = b
second_field _ = "unknown"

-- currentWorkerVersion, from the output of the binary or the error of running it.
unfoldable pub current_worker_version : Result String String → String
unfolding split_fields second_field
current_worker_version (err e) = "unknown"
current_worker_version (ok out) = second_field (split_fields out)
