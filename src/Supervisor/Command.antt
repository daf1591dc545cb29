-- ===== src/Supervisor/Command.antt =====
-- cmd/supervisor/main.go up to Run; New, and the command lines of startChild and selfCheck, of
-- internal/supervisor/supervisor.go.
pub mod Gate
use Prim.Native.String.{◌++◌ as ◌<>◌}
use apipact_agent.Prelude.{
  ◌-◌, ◌<◌, String, true, false, not, none, some, [], ◌∷◌, ◌=ₛ◌, if◌then◌else◌, ok, err,
}
use apipact_agent.Config.{Config, Addresses}
use apipact_agent.Config.Save.{load, Codec}
use apipact_agent.Update.Swap.{Files}
use apipact_agent.Version.{version_string, Build}
use apipact_agent.Worker.Command.{
  flag_or, state_file, default_path, Host, Given, Outcome, prints, exits, runs,
}

-- Options, without its logger
pub record Options : Type 0 where
  pub config_path : String
  pub state_path : String
  pub worker_bin : String
  pub health_addr : String

abbrev pub default_health_addr : String
default_health_addr = "127.0.0.1:9099"

-- envOr
unfoldable pub env_or : Host → String → String → String
env_or host k default = let v = host.getenv k in if not (v =ₛ "") then v else default

-- defaultWorkerBin
unfoldable pub default_worker_bin : Host → String
default_worker_bin host =
    let v = host.getenv "APIPACT_WORKER_BIN" in
    if not (v =ₛ "") then v else elim host.executable [
      | err e ↦ "apipact-worker"
      | ok exe ↦ host.join (host.dir exe ∷ "apipact-worker" ∷ [])
    ]

-- New
unfoldable pub new_supervisor : Options → Options
new_supervisor opts = record opts {
  health_addr = if opts.health_addr =ₛ "" then default_health_addr else opts.health_addr;
}

-- The flags of the worker that startChild launches.
unfoldable pub start_flags : Options → Given
start_flags opts = record {
  config = some opts.config_path;
  state = some opts.state_path;
  health_addr = some opts.health_addr;
  worker = none;
  selfcheck = false;
  version = false;
}

-- The flags with which selfCheck runs a binary.
unfoldable pub self_check_flags : Options → Given
self_check_flags opts = record {
  config = some opts.config_path;
  state = none;
  health_addr = none;
  worker = none;
  selfcheck = true;
  version = false;
}

-- The Options of main for a command line
unfoldable pub main_options : Host → Given → Options
unfolding state_file default_path default_worker_bin env_or
main_options host given =
    let config = flag_or (default_path host) given.config in
    record {
      config_path = config;
      state_path = state_file host (flag_or "" given.state) config;
      worker_bin = flag_or (default_worker_bin host) given.worker;
      health_addr =
          flag_or (env_or host "APIPACT_HEALTH_ADDR" default_health_addr) given.health_addr;
    }

-- main, with the configuration and the options that it runs a supervisor with
unfoldable pub supervisor_main :
    (host : Host) (addresses : Addresses) (codec : Codec) (identity : Build) (given : Given)
    (files : Files)
    → Outcome (Config × Options)
unfolding main_options new_supervisor load version_string
supervisor_main host addresses codec identity given files =
    let opts = main_options host given in
    if given.version
    then prints ("apipact-supervisor " <> (version_string identity host.build_info <> "\n"))
    else elim (load codec addresses opts.config_path files) [
      | err e ↦ exits ("load config: " <> e)
      | ok c ↦ runs (c, new_supervisor opts)
    ]
