-- ===== src/Agentctl/Status.antt =====
-- cmd/agentctl/main.go: cmdStatus with formatLabels, and main's choice of a command. What package flag
-- finds is an argument; the order in which Go ranges over the labels is a parameter.
pub mod Enrolled
use Prim.Native.String.{◌++◌ as ◌<>◌}
use apipact_agent.Prelude.{
  String, Bool, Option, List, [], ◌∷◌, ◌++◌, ◌=ₛ◌, ◌||◌, if◌then◌else◌, ok, err,
}
use apipact_agent.Prelude.Dict.{Dict}
use apipact_agent.Config.{Config, Addresses}
use apipact_agent.Config.Save.{load, Codec}
use apipact_agent.Protocol.Channels.{jobs_channel, results_channel, control_channel}
use apipact_agent.Update.Swap.{Files}
use apipact_agent.Version.{version_string, Build}
use apipact_agent.Worker.Command.{default_path, flag_or, Host}
use apipact_agent.Agentctl.Keys.{Printed}

-- strings.Join
unfoldable pub join_with : String → List String → String
join_with sep [] = ""
join_with sep (s ∷ []) = s
join_with sep (s ∷ t ∷ ss) = s <> (sep <> join_with sep (t ∷ ss))

-- The loop of formatLabels
unfoldable pub label_parts : List (String × String) → List String
label_parts [] = []
label_parts ((k, v) ∷ ls) = (k <> ("=" <> v)) ∷ label_parts ls

-- formatLabels, on the labels in the order of the range statement
unfoldable pub format_labels : List (String × String) → String
unfolding label_parts join_with
format_labels ls = join_with "," (label_parts ls)

-- The verb %v of a bool and of a []string
abbrev pub show_bool : Bool → String
show_bool b = if b then "true" else "false"

abbrev pub show_list : List String → String
show_list ss = "[" <> (join_with " " ss <> "]")

module _ (host : Host) (codec : Codec) (identity : Build)
    (ranged : Dict String → List (String × String)) where
  -- The line of the labels, printed if there are any.
  unfoldable pub label_lines : Dict String → List String
  unfolding format_labels
  label_lines [] = []
  label_lines (l ∷ ls) = ("labels:          " <> format_labels (ranged (l ∷ ls))) ∷ []

  abbrev pub name_lines : Config → List String
  name_lines c = ("agent id:        " <> c.agent_id) ∷ ("name:            " <> c.name) ∷ []

  -- The line of the egress policy
  unfoldable pub egress_line : Config → String
  unfolding join_with
  egress_line c =
      "egress:          allowPrivate="
      <> (show_bool c.egress.allow_private
          <> (" allow=" <> (show_list c.egress.allow <> (" block=" <> show_list c.egress.block))))

  -- The lines from the version on
  unfoldable pub channel_lines : Config → List String
  unfolding version_string jobs_channel results_channel control_channel egress_line
  channel_lines c =
      ("version:         " <> version_string identity host.build_info)
      ∷ ("cloud:           " <> c.cloud_base_url)
      ∷ ("jobs channel:    " <> jobs_channel c.agent_id)
      ∷ ("results channel: " <> results_channel c.agent_id)
      ∷ ("control channel: " <> control_channel c.agent_id)
      ∷ ("return:          " <> c.return.transport)
      ∷ egress_line c
      ∷ ("update:          mode=" <> (c.update.mode <> (" channel=" <> c.update.channel)))
      ∷ []

  -- What cmdStatus prints of a configuration
  unfoldable pub status_lines : Config → List String
  unfolding label_lines channel_lines
  status_lines c = name_lines c ++ (label_lines c.labels ++ channel_lines c)

  -- cmdStatus, with its flag --config
  unfoldable pub cmd_status : Addresses → Option String → Files → Printed
  unfolding load default_path status_lines
  cmd_status addresses config fs =
      elim (load codec addresses (flag_or (default_path host) config) fs) [
        | err e ↦ record { status = 1; lines = [] }
        | ok c ↦ record { status = 0; lines = status_lines c }
      ]

-- The line of main's command version
unfoldable pub version_text : Host → Build → String
unfolding version_string
version_text host identity = "agentctl" <> (" " <> version_string identity host.build_info)

-- What main runs; usage is followed by an exit with 2.
pub data Command : Type 0 where
  enroll_command keygen_command release_keygen_command status_command version_command : Command
  usage_command : Command

-- main's switch
unfoldable pub command_of : String → Command
command_of word =
    if word =ₛ "enroll"
    then enroll_command
    else if word =ₛ "keygen"
    then keygen_command
    else if word =ₛ "release-keygen"
    then release_keygen_command
    else if word =ₛ "status"
    then status_command
    else if (word =ₛ "version") || (word =ₛ "--version") || (word =ₛ "-v")
    then version_command
    else usage_command

-- main's command and the arguments that it gets, from those after the program's name
unfoldable pub agentctl_main : List String → Command × List String
unfolding command_of
agentctl_main [] = (usage_command, [])
agentctl_main (word ∷ args) = (command_of word, args)
