-- ===== src/Protocol/Channels.antt =====
-- internal/protocol/channels.go: agent ids and the names of an agent's three channels.
-- The regular expression of agentIDRe is read as the automaton that it denotes.
pub mod Slug
use Prim.Native.Char.{Char, code}
use Prim.Native.String.{◌++◌ as ◌<>◌, len}
use apipact_agent.Prelude.{Bool, true, false, String, ◌&&◌, ◌||◌, ltb, leb, ◌==◌, if◌then◌else◌}

-- [a-z0-9]
unfoldable pub is_slug_char : Char → Bool
is_slug_char c =
    (leb b'a' (code c) && leb (code c) b'z') || (leb b'0' (code c) && leb (code c) b'9')

-- `after` holds where a segment has begun, so that the text may end or a hyphen may follow.
unfoldable pub matches_agent_id : Bool → String → Bool
matches_agent_id after String.[] = after
matches_agent_id after (String.◌∷◌ c s) =
    let inside = matches_agent_id true s in
    let between = matches_agent_id false s in
    if is_slug_char c then inside else if after && code c == b'-' then between else false

unfoldable pub valid_agent_id : String → Bool
unfolding matches_agent_id
valid_agent_id id = if len id == 0 || ltb 100 (len id) then false else matches_agent_id false id

unfoldable pub jobs_channel : String → String
jobs_channel agent_id = "agent-" <> (agent_id <> "-jobs")

unfoldable pub results_channel : String → String
results_channel agent_id = "agent-" <> (agent_id <> "-results")

unfoldable pub control_channel : String → String
control_channel agent_id = "agent-" <> (agent_id <> "-control")
