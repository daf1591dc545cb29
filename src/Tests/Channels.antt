-- ===== src/Tests/Channels.antt =====
-- internal/protocol/channels.go on the samples of channels_test.go.
use apipact_agent.Prelude.{◌≡◌, refl, ◌↔◌, true, false}
use apipact_agent.Protocol.Channels.{is_slug_char, matches_agent_id, valid_agent_id, jobs_channel}
use apipact_agent.Protocol.Channels.Slug.{matches-IsSlug, IsSlug}

valid_ids :
    (valid_agent_id "a" ≡ true)
    × (valid_agent_id "abc123" ≡ true)
    × (valid_agent_id "ag-1" ≡ true)
    × (valid_agent_id "7f3a9c2b1d" ≡ true)
unfolding valid_agent_id is_slug_char
valid_ids = (refl, refl, refl, refl)

invalid_ids :
    (valid_agent_id "" ≡ false)
    × (valid_agent_id "-x" ≡ false)
    × (valid_agent_id "x-" ≡ false)
    × (valid_agent_id "a--b" ≡ false)
    × (valid_agent_id "Abc" ≡ false)
    × (valid_agent_id "a.b" ≡ false)
unfolding valid_agent_id is_slug_char
invalid_ids = (refl, refl, refl, refl, refl, refl)

channel_names : jobs_channel "ag-1" ≡ "agent-ag-1-jobs"
unfolding jobs_channel
channel_names = refl

matches-IsSlug_example : (matches_agent_id false "ag-1" ≡ true) ↔ IsSlug "ag-1"
matches-IsSlug_example = matches-IsSlug "ag-1"
