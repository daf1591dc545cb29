-- ===== src/Worker.antt =====
-- internal/worker/worker.go: onJob, onControl, sendHeartbeat, heartbeatLoop's tick, and shutdown.
-- pushflo/envelope is the record Envelopes: parsing, the ids of an envelope, and an opener whose
-- state is its replay cache. The clock readings, the fate of the dedupe store's write and the order
-- of messages are arguments. A goroutine that runs a job is a job in the list `running`.
pub mod Accept
pub mod Load
pub mod Counted
pub mod Drain
pub mod Once
pub mod Requests
pub mod Pool
pub mod Finished
pub mod Assembly
pub mod Command
pub mod Lifetime
use apipact_agent.Prelude.{
  ℕ, zero, suc, ◌+◌, ◌-◌, ◌*◌, String, Bool, true, false, ◌&&◌, ◌||◌, not, Option, none, some, List,
  [], ◌∷◌, ◌++◌, ◌=ₛ◌, ltb, if◌then◌else◌, Result, ok, err, length,
}
use apipact_agent.Prelude.Int.{ℤ, pos, negsuc, ltb_ℤ, not_positive, wrap64}
use apipact_agent.Protocol.{Time, control_ping, ack_heartbeat, ack_pong, Job, ControlMessage, Ack}
use apipact_agent.Dedupe.{Disk, seen_or_record, Dedupe, Codec, Flush, Recorded}

pub record Envelopes : Type 1 where
  pub Raw : Type 0
  pub Envelope : Type 0
  pub Opener : Type 0
  pub parse : Raw → Result String Envelope
  pub message_id : Envelope → String
  pub sign_key_id : Envelope → String
  -- Opener.OpenJSON into a Job and into a ControlMessage
  pub open_job : Opener → Envelope → Result String Job × Opener
  pub open_control : Opener → Envelope → Result String ControlMessage × Opener

-- What the worker reads of its configuration.
pub record Identity : Type 0 where
  pub agent_id : String
  pub name : String
  pub labels : List (String × String)
  pub sign_key_id : String
  pub version : String
  pub has_publisher : Bool
  pub heartbeat_sec : ℤ

-- How onJob ends: each branch with what it logs.
pub data Outcome : Type 0 where
  dropped_draining : Outcome
  not_an_envelope rejected store_error : String → Outcome
  other_agent past_deadline duplicate started : Job → Outcome

-- A message's readings of the clock, and the fate of the write that it may cause.
pub record Instant : Type 0 where
  pub now : Time
  pub now_sec : ℕ
  pub prune_sec : ℕ
  pub io : Flush

-- The list without its i-th element.
unfoldable pub remove_at {ℓ} : {A : Type ℓ} → ℕ → List A → List A
remove_at i [] = []
remove_at zero (x ∷ xs) = xs
remove_at (suc i) (x ∷ xs) = x ∷ remove_at i xs

-- The i-th element of a list
unfoldable pub element_at {ℓ} : {A : Type ℓ} → ℕ → List A → Option A
element_at i [] = none
element_at zero (x ∷ xs) = some x
element_at (suc i) (x ∷ xs) = element_at i xs

-- time.Duration(sec) * time.Second
unfoldable pub heartbeat_interval : ℤ → ℤ
heartbeat_interval (pos n) = wrap64 (pos (n * 1_000_000_000))
heartbeat_interval (negsuc n) = wrap64 (negsuc ((n + 1) * 1_000_000_000 - 1))

module _ (env : Envelopes) (me : Identity) (codec : Codec) where
  -- The state of a worker, with the messages whose handlers have found it not draining and have not
  -- gone on.
  pub record Worker : Type 0 where
    pub opener : env.Opener
    pub dedupe : Dedupe
    pub disk : Disk
    pub draining : Bool
    pub inflight : ℕ
    pub wait_group : ℕ
    pub running : List Job
    pub published : List Ack
    pub entered : List env.Raw

  -- wg.Add(1), inflight.Add(1) and the go statement
  unfoldable pub spawn : Job → Worker → Worker
  spawn job w = record w {
    inflight = w.inflight + 1;
    wait_group = w.wait_group + 1;
    running = job ∷ w.running;
  }

  -- The part of onJob after the dedupe store has answered.
  unfoldable pub after_dedupe : Job → Worker → Recorded → Outcome × Worker
  after_dedupe job w r =
      let w' = record w { dedupe = r.store; disk = r.disk } in
      elim r.answer [
        | err e ↦ (store_error e, w')
        | ok seen ↦ if seen then (duplicate job, w') else (started job, spawn job w')
      ]

  abbrev pub is_past : Time → Option Time → Bool
  is_past now none = false
  is_past now (some deadline) = ltb_ℤ deadline now

  -- The part of onJob after the job has been opened.
  unfoldable pub admit : Instant → Job → Worker → Outcome × Worker
  admit t job w =
      if not (job.agent_id =ₛ "") && not (job.agent_id =ₛ me.agent_id)
      then (other_agent job, w)
      else if is_past t.now job.deadline
      then (past_deadline job, w)
      else after_dedupe job w
          (seen_or_record codec t.io (pos t.now_sec) (pos t.prune_sec) job.job_id w.dedupe w.disk)

  unfoldable pub after_open : Instant → Worker → Result String Job × env.Opener → Outcome × Worker
  after_open t w (err e, opener) = (rejected e, record w { opener = opener })
  after_open t w (ok job, opener) = admit t job (record w { opener = opener })

  -- onJob, past its test of the draining flag
  unfoldable pub go_on : Instant → env.Raw → Worker → Outcome × Worker
  go_on t m w = elim (env.parse m) [
    | err e ↦ (not_an_envelope e, w)
    | ok e ↦ after_open t w (env.open_job w.opener e)
  ]

  -- onJob, if nothing happens between its test of the draining flag and the rest
  unfoldable pub on_job : Instant → env.Raw → Worker → Outcome × Worker
  unfolding go_on
  on_job t m w = if w.draining then (dropped_draining, w) else go_on t m w

  -- onJob's test of the draining flag
  unfoldable pub begin_job : env.Raw → Worker → Option Outcome × Worker
  begin_job m w =
      if w.draining
      then (some dropped_draining, w)
      else (none, record w { entered = m ∷ w.entered })

  -- The rest of onJob, by the i-th of the handlers that have passed the test.
  unfoldable pub resume_job : Instant → ℕ → Worker → Option Outcome × Worker
  unfolding element_at remove_at go_on
  resume_job t i w = elim (element_at i w.entered) [
    | none ↦ (none, w)
    | some m ↦
        let (o, w') = go_on t m (record w { entered = remove_at i w.entered }) in (some o, w')
  ]

  -- sendHeartbeat
  unfoldable pub send_heartbeat : Time → String → String → Worker → Worker
  send_heartbeat now kind in_reply_to w = if not me.has_publisher then w else record w {
    published =
        w.published
        ++ record {
          kind = kind;
          agent_id = me.agent_id;
          name = me.name;
          labels = me.labels;
          agent_version = me.version;
          worker_version = me.version;
          sent_at = now;
          in_flight = pos w.inflight;
          in_reply_to = in_reply_to;
        }
          ∷ [];
  }

  unfoldable pub after_open_control :
      Time → env.Envelope → Worker → Result String ControlMessage × env.Opener → Worker
  after_open_control now e w (err x, opener) = record w { opener = opener }
  after_open_control now e w (ok ctl, opener) =
      let w' = record w { opener = opener } in
      if ctl.type_name =ₛ control_ping
      then send_heartbeat now ack_pong (env.message_id e) w'
      else w'

  -- onControl
  unfoldable pub on_control : Time → env.Raw → Worker → Worker
  on_control now m w = elim (env.parse m) [
    | err x ↦ w
    | ok e ↦
        if not (env.sign_key_id e =ₛ "") && (env.sign_key_id e =ₛ me.sign_key_id)
        then w
        else after_open_control now e w (env.open_control w.opener e)
  ]

  -- One tick of heartbeatLoop, which is disabled unless the interval is positive.
  unfoldable pub heartbeat_tick : Time → Worker → Worker
  heartbeat_tick now w =
      if not_positive (heartbeat_interval me.heartbeat_sec) || w.draining
      then w
      else send_heartbeat now ack_heartbeat "" w

  -- What Run does when its context is cancelled, before it waits.
  unfoldable pub start_drain : Worker → Worker
  start_drain w = record w { draining = true }

  -- The deferred inflight.Add(-1) and wg.Done() of the goroutine of the i-th running job.
  unfoldable pub finish_job : ℕ → Worker → Worker
  finish_job i w =
      if ltb i (length w.running)
      then record w {
        inflight = w.inflight - 1;
        wait_group = w.wait_group - 1;
        running = remove_at i w.running;
      }
      else w

  -- What can happen to a running worker. The handler of a jobs message takes no lock between its test
  -- of the draining flag and the start of the job: it runs as one job_message, or as a job_begun and,
  -- later, a job_resumed, with any events between the two.
  pub data Event : Type 0 where
    job_message : Instant → env.Raw → Event
    control_message : Time → env.Raw → Event
    heartbeat_due : Time → Event
    shutdown : Event
    job_ended : ℕ → Event
    job_begun : env.Raw → Event
    job_resumed : Instant → ℕ → Event

  unfoldable pub handle : Event → Worker → Option Outcome × Worker
  handle (job_message t m) w = let (o, w') = on_job t m w in (some o, w')
  handle (control_message now m) w = (none, on_control now m w)
  handle (heartbeat_due now) w = (none, heartbeat_tick now w)
  handle shutdown w = (none, start_drain w)
  handle (job_ended i) w = (none, finish_job i w)
  handle (job_begun m) w = begin_job m w
  handle (job_resumed t i) w = resume_job t i w

  -- The outcomes of a sequence of events, and the worker after it.
  unfoldable pub run_events : List Event → Worker → List (Option Outcome) × Worker
  run_events [] w = ([], w)
  run_events (e ∷ es) w =
      let (o, w') = handle e w in let (os, w'') = run_events es w' in (o ∷ os, w'')
