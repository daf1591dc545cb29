-- ===== src/Worker/Command.antt =====
-- cmd/worker/main.go: what the worker's command does, from its flags to Run; and DefaultPath of
-- internal/config/config.go, the default of its --config. The operating system's answers are the
-- record Host; what package flag finds on the command line is the record Given.
use Prim.Native.String.{◌++◌ as ◌<>◌}
use apipact_agent.Prelude.{
  ℕ, String, Bool, not, Option, none, some, List, [], ◌∷◌, ◌=ₛ◌, if◌then◌else◌, Result, ok, err,
}
use apipact_agent.Prelude.Int.{ℤ}
use apipact_agent.Config.{Config}
use apipact_agent.Config.Save.{load, Codec}
use apipact_agent.Update.Swap.{Files}
use apipact_agent.Dedupe.{ReadFile}
use apipact_agent.Version.{version_string, version_line, Build}
use apipact_agent.Worker.Assembly.{build, self_check, Parts, Assembled}

pub record Host : Type 0 where
  pub getenv : String → String
  pub user_config_dir : Result String String
  pub executable : Result String String
  -- filepath.Dir and filepath.Join
  pub dir : String → String
  pub join : List String → String
  -- debug.ReadBuildInfo
  pub build_info : Option String

-- The flags of a command line that are given.
pub record Given : Type 0 where
  pub config : Option String
  pub state : Option String
  pub health_addr : Option String
  pub worker : Option String
  pub selfcheck : Bool
  pub version : Bool

-- How a command ends, or that it goes on to Run.
pub data Outcome (W : Type 0) : Type 0 where
  prints exits : String → Outcome W
  runs : W → Outcome W

-- The exit status before Run; a return from main is 0.
abbrev pub exit_status : {W : Type 0} → Outcome W → Option ℕ
exit_status (prints text) = some 0
exit_status (exits e) = some 1
exit_status (runs w) = none

-- A string flag with a default
abbrev pub flag_or : String → Option String → String
flag_or default none = default
flag_or default (some v) = v

-- The dedupe state file of a --state and a --config
unfoldable pub state_file : Host → String → String → String
state_file host state config =
    if state =ₛ "" then host.join (host.dir config ∷ "dedupe.json" ∷ []) else state

-- config.DefaultPath
unfoldable pub default_path : Host → String
default_path host =
    let p = host.getenv "APIPACT_CONFIG" in
    if not (p =ₛ "")
    then p
    else host.join (
        elim host.user_config_dir [ err e ↦ "/etc" | ok dir ↦ if dir =ₛ "" then "/etc" else dir ]
        ∷ "apipact"
        ∷ "agent.json"
        ∷ [])

-- The worker of Build, and the --health-addr that Run is called with.
abbrev pub Started : Parts → Type 0
Started parts = Assembled parts.envelope.Opener parts.envelope.Sealer × String

module _ (host : Host) (parts : Parts) (codec : Codec) (identity : Build) where
  -- main, after the configuration is loaded; `file` is the state file as it is read at `now`
  unfoldable pub with_config : Bool → ℤ → ReadFile → Config → String → Outcome (Started parts)
  unfolding self_check build version_string
  with_config selfcheck now file c health_addr =
      if selfcheck
      then elim (self_check parts now file c) [
        | some e ↦ exits ("selfcheck failed: " <> e)
        | none ↦ prints ("selfcheck ok: " <> (version_string identity host.build_info <> "\n"))
      ]
      else elim (build parts now file c) [
        | err e ↦ exits ("build worker: " <> e)
        | ok w ↦ runs (w, health_addr)
      ]

  -- main, with the disk's files for the configuration and the reading of the state file
  unfoldable pub worker_main : Given → ℤ → Files → (String → ReadFile) → Outcome (Started parts)
  unfolding state_file default_path with_config load version_line
  worker_main given now files read_state =
      let config = flag_or (default_path host) given.config in
      let state = state_file host (flag_or "" given.state) config in
      if given.version
      then prints (version_line identity host.build_info)
      else elim (load codec parts.addresses config files) [
        | err e ↦ exits ("load config: " <> e)
        | ok c ↦ with_config given.selfcheck now (read_state state) c (flag_or "" given.health_addr)
      ]
