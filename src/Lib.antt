-- ===== src/Lib.antt =====
-- A model of the APIpact agent: it receives signed jobs over a relay, sends the HTTP requests that
-- they ask for, and reports the sealed responses. The model covers the agent's own logic; the relay
-- (pushflo-go with its envelopes), the network, the file system calls, JSON, base64 and the
-- cryptography are parameters, records of functions whose laws, where a theorem needs one, are
-- among its hypotheses.
--
-- Prelude: Boolean tests, Go's (value, error) results, lists, int64 and maps with string keys.
-- Protocol: internal/protocol/protocol.go, the types that travel; Protocol.Channels:
--   internal/protocol/channels.go, agent ids and channel names.
-- Dedupe: internal/store/dedupe.go. The record Dedupe is the map in memory, Disk the file; a call
--   (SeenOrRecord is seen_or_record, Open is open_store) takes the two readings of the clock that
--   the code makes, and the system call of its write that fails, if one does.
-- Executor: internal/executor. Executor.Egress is egress.go (Allowed is egress_verdict). The others
--   are executor.go: Errors (classify), Dial (guardedDial), Text and Headers (applyHeaders), Request
--   (buildURL, buildClient, the request of doOnce), Redirect (isRedirect, redirectMethod), Execute
--   (Execute, fill, describeTLS). A dialer and an HTTP client are state-passing functions on a world.
--   Guarded puts Dial and Execute together: an Engine on a transport of net/http, a parameter whose
--   requests are trees of dials and exchanges of bytes. Trace is traceTimer, on readings of the
--   clock; hooks may run between the reading of the total and the copy that snapshot makes.
-- Worker: internal/worker/worker.go. The record Worker is the state that the handlers share; each
--   handler (onJob is on_job, onControl is on_control, the tick of heartbeatLoop is heartbeat_tick)
--   is a function on it, and an Event is one of the things that can happen, a goroutine's end among
--   them, so that an interleaving is a list of events. onJob takes no lock between its test of the
--   draining flag and the start of the job: its two parts are also events of their own, begin_job
--   and resume_job, and what comes between them may be the signal. Worker.Requests: the sequential
--   execRequests over the interface Engine, which Executor.Execute fills; Worker.Pool: the
--   concurrent one, whose goroutines take turns in any order between those of other jobs;
--   Worker.Finished: the result of runJob on either path, its report, and /readyz; Worker.Assembly:
--   Build and SelfCheck, from the configuration to the parts; Worker.Lifetime: Run, from the health
--   server and the transport to the drain, over the events that come meanwhile, also while Connect
--   subscribes; Worker.Command: cmd/worker/main.go with config.DefaultPath.
--   Dedupe.Refinement is what the worker may rely on of the store: a ledger.
-- Update: internal/update. Version and Manifest are manifest.go (parseSemver, isNewer, ShouldUpdate,
--   FetchManifest, DownloadAndVerify), Swap is swap.go on a map of files, every call of which may
--   fail for a given reason. Signing is cmd/release-sign/main.go, which makes the manifests.
-- Supervisor: internal/supervisor/supervisor.go. System holds the steps of superviseLoop, of
--   updateLoop with checkAndApply, and of Run, which interleave over the child, the processes and the
--   files; its theorems are by induction on the states that are reached. Polling is waitReady, Output
--   is currentWorkerVersion, which reads the line that Version (internal/version/version.go) prints.
--   Command is cmd/supervisor/main.go with New, and the flags with which startChild and selfCheck run
--   the worker, which Worker.Command then reads.
-- Secure: internal/secure/secure.go, from the configured keys to an opener and a sealer.
-- Enroll: internal/enroll/enroll.go (Enroll is enroll, buildConfig is build_config); Agentctl: the
--   enroll command of cmd/agentctl/main.go, which stores what Enroll returns by Config.Save.
--   Agentctl.Keys is what its commands keygen and release-keygen print, Agentctl.Status what status
--   prints and how main chooses a command.
-- Transport: internal/transport/transport.go (Connect is connect) on a client of the relay.
-- Reporter: internal/reporter/reporter.go from the sealed envelope on; a report keeps its attempts.
--   Reporter.Sealed puts the sealing before it and writes out what is sent.
--   Reporter.Backoff is backoff in int64 arithmetic, and a courier that sleeps by it.
-- Obs: internal/obs/log.go (LevelFromEnv, RedactURL).
-- Config: internal/config/config.go (applyDefaults, Validate, EgressPolicy, Load after parsing) with
--   ParseCIDRs of internal/executor/egress.go; Config.Save: Save and Load on the files of a disk.
-- Tests: runs on concrete inputs.
--
-- Loops end by construction: execute_loop counts the redirects that are left, which is the bound of
-- the code's loop (a hop is followed only while hop < maxRedirects), and the loops of the reporter
-- count the attempts that are left. Native numbers stand for counters and clocks; where an int64 can
-- wrap, the wrap is written out (wrap64), and theorems about the clock ask for seconds below 2^62.
--
-- waitReady runs on fuel, and a turn for each 500 milliseconds of the timeout and one more is enough,
-- since its pauses are that long.
--
-- Not modelled: what the other commands print, usage texts and logs, the listener of the health
-- server, and the example cloud.
pub mod Prelude
pub mod Protocol
pub mod Dedupe
pub mod Executor
pub mod Worker
pub mod Update
pub mod Reporter
pub mod Config
pub mod Secure
pub mod Enroll
pub mod Agentctl
pub mod Transport
pub mod Supervisor
pub mod Version
pub mod Obs
pub mod Tests
