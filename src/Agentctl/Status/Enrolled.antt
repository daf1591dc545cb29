-- ===== src/Agentctl/Status/Enrolled.antt =====
-- cmd/agentctl/main.go: cmdStatus after cmdEnroll.
use apipact_agent.Executor.Request.{Bytes}
use apipact_agent.Prelude.{String, ◌≡◌, refl, ◌≢◌, some, List, ok}
use apipact_agent.Prelude.Dict.{Dict}
use apipact_agent.Update.Swap.{Files}
use apipact_agent.Secure.{Envelope}
use apipact_agent.Config.{apply_defaults, Config, Addresses}
use apipact_agent.Config.Save.{load, Codec, SaveFaults}
use apipact_agent.Enroll.{enroll, Online, World}
use apipact_agent.Enroll.Stored.{NamesReturn}
use apipact_agent.Version.{Build}
use apipact_agent.Worker.Command.{Host}
use apipact_agent.Agentctl.{enroll_options, cmd_enroll, Flags}
use apipact_agent.Agentctl.Enrolling.{cmd_enroll_stores}
use apipact_agent.Agentctl.Status.{status_lines, cmd_status}

module _ (host : Host) (codec : Codec) (identity : Build)
    (ranged : Dict String → List (String × String)) where
  -- The command status prints the lines of a configuration that Load accepts.
  cmd_status-load :
      (addresses : Addresses) (path : String) (c : Config) (fs : Files)
      → load codec addresses path fs ≡ ok c
      → cmd_status host codec identity ranged addresses (some path) fs
        ≡ record { status = 0; lines = status_lines host codec identity ranged c }
  unfolding cmd_status
  cmd_status-load addresses path c fs h = rw (cmd_status, h) refl

  -- After an enrollment that exits with 0, and that names a return transport or has a secret key,
  -- the command status on the same path exits with 0 and prints the enrolled configuration with its
  -- defaults; decoding has to invert encoding at what is enrolled.
  cmd_status-cmd_enroll :
      (lib : Envelope) (online : Online) (addresses : Addresses) (world : World) (f : SaveFaults)
      (tmp : String) (flags : Flags) (fs : Files)
      → tmp ≢ flags.out
      → ((c : Config)
          → enroll lib online addresses world (enroll_options flags) ≡ ok c
          → (raw : Bytes) → codec.encode c ≡ ok raw
          → codec.decode raw ≡ ok c)
      → (cmd_enroll codec lib online addresses world f tmp flags fs).0 ≡ 0
      → (c : Config) × (enroll lib online addresses world (enroll_options flags) ≡ ok c)
        × (NamesReturn c
            → cmd_status host codec identity ranged addresses
                (some flags.out)
                (cmd_enroll codec lib online addresses world f tmp flags fs).1
              ≡ record {
                status = 0;
                lines = status_lines host codec identity ranged (apply_defaults c);
              })
  cmd_status-cmd_enroll lib online addresses world f tmp flags fs n inverse done =
      let (c, e, free, (sound, complete)) =
        cmd_enroll_stores codec lib online addresses world f tmp flags fs n inverse done in
      (
        c,
        e,
        λ h.
            cmd_status-load addresses flags.out (apply_defaults c)
              (cmd_enroll codec lib online addresses world f tmp flags fs).1 (complete h),
      )
