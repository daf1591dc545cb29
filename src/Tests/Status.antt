-- ===== src/Tests/Status.antt =====
-- cmd/agentctl's status on the configuration of an enrolled agent, and the choice of a command.
use apipact_agent.Prelude.{String, ◌≡◌, refl, some, List, [], ◌∷◌}
use apipact_agent.Prelude.Dict.{lookup}
use apipact_agent.Config.{
  egress_policy, or_text, apply_defaults, join_list, fields, parse_tokens, parse_cidrs, validate,
  load_parsed,
}
use apipact_agent.Config.Save.{load}
use apipact_agent.Protocol.Channels.{is_slug_char, valid_agent_id}
use apipact_agent.Enroll.{build_config}
use apipact_agent.Agentctl.Status.{
  join_with, label_parts, format_labels, cmd_status, command_of, agentctl_main, status_command,
  usage_command, version_command,
}
use apipact_agent.Tests.Command.{host, identity, files}
use apipact_agent.Tests.Enrolling.{addresses, codec}

labels_joined : format_labels (("env", "prod") ∷ ("zone", "") ∷ []) ≡ "env=prod,zone="
unfolding format_labels label_parts join_with
labels_joined = refl

abbrev same_order : List (String × String) → List (String × String)
same_order ls = ls

no_file : (cmd_status host codec identity same_order addresses (some "other.json") files).status ≡ 1
unfolding cmd_status load lookup
no_file = refl

shown : (cmd_status host codec identity same_order addresses (some "agent.json") files).status ≡ 0
unfolding cmd_status load load_parsed egress_policy lookup validate valid_agent_id apply_defaults
    build_config is_slug_char or_text parse_cidrs parse_tokens fields join_list
shown = refl

chooses_status :
    agentctl_main ("status" ∷ "--config" ∷ "a" ∷ []) ≡ (status_command, "--config" ∷ "a" ∷ [])
unfolding agentctl_main command_of
chooses_status = refl

chooses_version : command_of "-v" ≡ version_command
unfolding command_of
chooses_version = refl

no_command : agentctl_main [] ≡ (usage_command, [])
unfolding agentctl_main
no_command = refl
