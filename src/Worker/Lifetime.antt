-- ===== src/Worker/Lifetime.antt =====
-- internal/worker/worker.go: Run and the handlers of startHealthServer. The listener of the health
-- server and the relay are arguments, as is what happens meanwhile: the events from the first subscription
-- to the first Ack, or to the failure of Connect, from there to the end of Run's context, and from
-- there to its return.
pub mod Announced
pub mod Ends
use Prim.Native.String.{◌++◌ as ◌<>◌}
use apipact_agent.Prelude.{
  ℕ, ◌+◌, ◌<◌, String, Bool, false, Option, none, some, List, [], ◌++◌, ◌=ₛ◌, ◌==◌, if◌then◌else◌,
  ok, ◌∷◌, true, length,
}
use apipact_agent.Transport.{destroy, connect, Relay, RelayClient, Handlers, TransportOptions}
use apipact_agent.Protocol.{Time, ack_hello}
use apipact_agent.Dedupe.{Codec}
use apipact_agent.Worker.{
  on_job, send_heartbeat, on_control, start_drain, run_events, Envelopes, Identity, Outcome, Worker,
  Event,
}
use apipact_agent.Worker.Finished.{readyz}

-- The two handlers that Run gives to the transport: onJob and onControl.
pub data Handler : Type 0 where
  jobs_handler control_handler : Handler

-- What Run reads of its arguments and of the configuration.
pub record Launch : Type 0 where
  pub health_addr : String
  pub publish_key : String
  pub base_url : String

-- What /healthz answers.
pub record Health : Type 0 where
  pub status : String
  pub agent_id : String
  pub version : String
  pub in_flight : ℕ
  pub draining : Bool

module _ (env : Envelopes) (me : Identity) (codec : Codec) where
  -- The handler of /healthz
  unfoldable pub healthz : Worker env me codec → Health
  healthz w = record {
    status = "ok";
    agent_id = me.agent_id;
    version = me.version;
    in_flight = w.inflight;
    draining = w.draining;
  }

  -- The status of /readyz for the transport that Run has stored, if it has.
  unfoldable pub ready_status : Option (RelayClient Handler) → Worker env me codec → ℕ
  unfolding readyz
  ready_status none w = readyz none w.draining
  ready_status (some c) w = readyz (some c.connected) w.draining

  -- The return of Run, with the outcomes of its messages before the signal and after it, and the count
  -- of the handlers of jobs messages that the signal finds between their test of the flag and the rest.
  pub record Ran : Type 0 where
    pub error : Option String
    pub client : Option (RelayClient Handler)
    pub outcomes : List (Option Outcome)
    pub late : List (Option Outcome)
    pub passing : ℕ
    pub drained : Bool
    pub worker : Worker env me codec

  -- A return of Run before its transport is connected.
  unfoldable pub not_run :
      String → Option (RelayClient Handler) → List (Option Outcome) → Worker env me codec → Ran
  not_run e client os w = record {
    error = some e;
    client = client;
    outcomes = os;
    late = [];
    passing = 0;
    drained = false;
    worker = w;
  }

  -- Whether the client of a Connect that failed had a subscription, which is then that of onJob: its
  -- handlers may have run before the client was destroyed.
  unfoldable pub listened : Option (RelayClient Handler) → Bool
  listened none = false
  listened (some c) = elim c.subscriptions [ [] ↦ false | s ∷ ss ↦ true ]

  -- Run, from the connected transport on
  unfoldable pub run_connected :
      Relay
      → Time
      → List (Event env me codec)
      → List (Event env me codec)
      → List (Event env me codec)
      → RelayClient Handler
      → Worker env me codec
      → Ran
  unfolding send_heartbeat run_events start_drain destroy
  run_connected relay hello early events last client w =
      let (os, w) = run_events env me codec early w in
      let w = send_heartbeat env me codec hello ack_hello "" w in
      let (os', w) = run_events env me codec events w in
      let n = length w.entered in
      let (late, w) = run_events env me codec last (start_drain env me codec w) in
      record {
        error = none;
        client = some (destroy relay client);
        outcomes = os ++ os';
        late = late;
        passing = n;
        drained = w.wait_group == 0;
        worker = w;
      }

  -- Run, from the return of Connect on: an error, or a client
  unfoldable pub after_connect :
      Relay
      → Time
      → List (Event env me codec)
      → List (Event env me codec)
      → List (Event env me codec)
      → Option String × Option (RelayClient Handler)
      → Worker env me codec
      → Ran
  unfolding not_run run_connected run_events listened
  after_connect relay hello early events last (some e, client) w =
      let (os, w') = run_events env me codec early w in
      if listened client
      then not_run ("connect transport: " <> e) client os w'
      else not_run ("connect transport: " <> e) client [] w
  after_connect relay hello early events last (none, none) w = not_run "" none [] w
  after_connect relay hello early events last (none, some c) w =
      run_connected relay hello early events last c w

  abbrev pub options : Launch → TransportOptions
  options launch = record {
    agent_id = me.agent_id;
    publish_key = launch.publish_key;
    base_url = launch.base_url;
    debug = false;
  }

  abbrev pub handlers : Handlers Handler
  handlers = record { on_job = some jobs_handler; on_control = some control_handler }

  -- Run
  unfoldable pub run :
      Relay
      → (String → Option String)
      → Launch
      → Time
      → List (Event env me codec)
      → List (Event env me codec)
      → List (Event env me codec)
      → Worker env me codec
      → Ran
  unfolding not_run connect after_connect
  run relay listen_error launch hello early events last w =
      let listening = if launch.health_addr =ₛ "" then none else listen_error launch.health_addr in
      elim listening [
        | some e ↦ not_run ("start health server: " <> e) none [] w
        | none ↦
            after_connect relay hello early events last (connect relay (options launch) handlers) w
      ]
