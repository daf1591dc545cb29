-- ===== src/Reporter/Sealed.antt =====
-- internal/reporter/reporter.go: Report from a result to what leaves the agent: the sealing, the
-- publication and the request of postHTTP. The Sealer of pushflo-go, its publisher and the HTTP client
-- are parameters. A report keeps a log of what it has sent.
pub mod Outgoing
use Prim.Native.String.{◌++◌ as ◌<>◌}
use apipact_agent.Prelude.{
  ℕ, ◌+◌, ◌/◌, ◌<◌, String, not, Option, none, some, List, [], ◌∷◌, ◌=ₛ◌, if◌then◌else◌, Result, ok,
  err,
}
use apipact_agent.Protocol.{JobResult, ReturnSpec, content_type_result, event_result}
use apipact_agent.Executor.Request.{Bytes}
use apipact_agent.Reporter.{report, ReporterConfig, ReportError, Courier}

-- envelope.Meta
pub record Meta : Type 0 where
  pub message_id : String
  pub content_type : String

pub record Sealer : Type 1 where
  pub Envelope : Type 0
  -- SealJSON and Marshal
  pub seal : JobResult → Meta → Result String Envelope
  pub marshal : Envelope → Result String Bytes

-- The fields of Config that the request of postHTTP shows.
pub record Sender : Type 0 where
  pub agent_id : String
  pub result_token : String

-- The request of postHTTP, with the headers that it sets.
pub record PostRequest : Type 0 where
  pub url : String
  pub body : Bytes
  pub content_type : String
  pub agent : String
  pub job : String
  pub authorization : Option String

pub data Message : Type 0 where
  publication : String → Bytes → String → Message
  request : PostRequest → Message

pub record Wires : Type 1 where
  pub World : Type 0
  -- PublishRaw with an event type, and http.Client.Do
  pub publish_raw : String → Bytes → String → World → Option String × World
  pub request_error : String → Option String
  pub send : PostRequest → World → Option ℕ × World
  pub wait : ℕ → World → Option String × World

-- The network's state, and what has been sent so far, the last message first.
pub record Sent (W : Type 0) : Type 0 where
  pub world : W
  pub log : List Message

-- The request of postHTTP
unfoldable pub result_request : Sender → String → String → Bytes → PostRequest
result_request who job url body = record {
  url = url;
  body = body;
  content_type = "application/apipact.envelope+json";
  agent = who.agent_id;
  job = job;
  authorization =
      if not (who.result_token =ₛ "") then some ("Bearer " <> who.result_token) else none;
}

-- Report's meta
abbrev pub result_meta : JobResult → Meta
result_meta result = record { message_id = result.job_id; content_type = content_type_result }

-- Report's error: of the sealing, of Marshal, or of the delivery.
pub data ResultError : Type 0 where
  seal_failed marshal_failed : String → ResultError
  not_delivered : ReportError → ResultError

module _ (net : Wires) (who : Sender) (job : String) where
  -- The courier of a report for a job
  abbrev pub wired : Courier
  wired = record {
    World = Sent net.World;
    publish = λ channel body s.
        let (e, w) = net.publish_raw channel body event_result s.world in
        (e, record { world = w; log = publication channel body event_result ∷ s.log });
    request_error = net.request_error;
    post = λ url body s.
        let req = result_request who job url body in
        let (code, w) = net.send req s.world in
        (code, record { world = w; log = request req ∷ s.log });
    wait = λ n s. let (e, w) = net.wait n s.world in (e, record s { world = w });
  }

pub record Delivered (W : Type 0) : Type 0 where
  pub error : Option ResultError
  pub sent : Sent W

-- Report
unfoldable pub report_result :
    (net : Wires) (sealer : Sealer) (who : Sender) (cfg : ReporterConfig) (result : JobResult)
    (spec : ReturnSpec)
    → net.World
    → Delivered net.World
unfolding report
report_result net sealer who cfg result spec w =
    let unsent : Sent net.World = record { world = w; log = [] } in
    elim (sealer.seal result (result_meta result)) [
      | err e ↦ record { error = some (seal_failed e); sent = unsent }
      | ok env ↦ elim (sealer.marshal env) [
        | err e ↦ record { error = some (marshal_failed e); sent = unsent }
        | ok sealed ↦
            let r = report (wired net who result.job_id) cfg sealed spec unsent in
            record {
              error = elim r.error [ none ↦ none | some e ↦ some (not_delivered e) ];
              sent = r.world;
            }
      ]
    ]
