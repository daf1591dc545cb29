-- ===== src/Supervisor/Command/Gate.antt =====
-- internal/supervisor/supervisor.go, selfCheck and startChild, with cmd/worker/main.go: what the
-- self-check of a binary says of its start.
use apipact_agent.Config.{Config}
use apipact_agent.Worker.Command.{Host, Given}
use apipact_agent.Supervisor.Command.{new_supervisor, main_options, Options}

-- The options of the supervisor that main starts for a command line.
abbrev pub options : Host → Given → Options
options host given = new_supervisor (main_options host given)
