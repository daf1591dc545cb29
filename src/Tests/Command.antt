-- ===== src/Tests/Command.antt =====
-- cmd/worker and cmd/supervisor on the configuration of an enrolled agent.
use apipact_agent.Prelude.{String, ◌≡◌, refl, false, none, some, [], ◌∷◌, ◌=ₛ◌, if◌then◌else◌, ok}
use apipact_agent.Prelude.Int.{pos}
use apipact_agent.Prelude.Dict.{lookup}
use apipact_agent.Config.{
  or_text, apply_defaults, join_list, fields, parse_tokens, parse_cidrs, validate, Config,
}
use apipact_agent.Update.Swap.{Files}
use apipact_agent.Dedupe.{ReadFile, not_exist, read_failed}
use apipact_agent.Protocol.Channels.{is_slug_char, valid_agent_id}
use apipact_agent.Version.{Build}
use apipact_agent.Enroll.{build_config}
use apipact_agent.Worker.Command.{exit_status, worker_main, Host, Given}
use apipact_agent.Supervisor.Command.{new_supervisor, start_flags, self_check_flags, main_options}
use apipact_agent.Supervisor.Command.Gate.{options}
use apipact_agent.Tests.Assembly.{parts}
use apipact_agent.Tests.Enrolling.{codec}

abbrev pub host : Host
host = record {
  getenv = λ k. "";
  user_config_dir = ok "/home/agent/.config";
  executable = ok "/opt/apipact-supervisor";
  dir = λ p. "/etc/apipact";
  join = λ names. elim names [ [] ↦ "" | n ∷ rest ↦ elim rest [ [] ↦ n | m ∷ others ↦ m ] ];
  build_info = none;
}

abbrev pub identity : Build
identity = record { version = "1.2.0"; commit = "abc"; date = "2026-01-01" }

abbrev given : Given
given = record {
  config = some "agent.json";
  state = none;
  health_addr = none;
  worker = none;
  selfcheck = false;
  version = false;
}

abbrev pub files : Files
files = ("agent.json", 7 ∷ []) ∷ []

-- Every state file is missing, except that one cannot be read.
abbrev states : String → ReadFile
states path = if path =ₛ "/secret/state.json" then read_failed "not permitted" else not_exist

-- With a state file of its own that cannot be read, the self-check passes and the start fails.
abbrev elsewhere : Given
elsewhere = record given { state = some "/secret/state.json" }

checked_elsewhere :
    exit_status (
      worker_main host parts codec identity
        (self_check_flags (options host elsewhere))
        (pos 0)
        files
        states)
    ≡ some 0
unfolding worker_main self_check_flags lookup new_supervisor main_options validate valid_agent_id
    apply_defaults build_config is_slug_char or_text parse_cidrs parse_tokens fields join_list
checked_elsewhere = refl

start_elsewhere :
    exit_status (
      worker_main host parts codec identity
        (start_flags (options host elsewhere))
        (pos 0)
        files
        states)
    ≡ some 1
unfolding worker_main start_flags lookup new_supervisor main_options validate valid_agent_id
    apply_defaults build_config is_slug_char or_text parse_cidrs parse_tokens fields join_list
start_elsewhere = refl
