-- ===== src/Protocol.antt =====
-- internal/protocol/protocol.go: the plaintext of jobs, results and control frames.
-- A time is its nanoseconds since the epoch, an `int` is an integer, a json.RawMessage is its text,
-- and a latency, a float64 of milliseconds with three decimals, is its count of microseconds.
pub mod Channels
use apipact_agent.Prelude.{Bool, Option, List, String}
use apipact_agent.Prelude.Int.{ℤ}

abbrev pub Time : Type 0
Time = ℤ

-- One ordered header or query-string entry.
pub record NameValue : Type 0 where
  pub name : String
  pub value : String

pub record Timeouts : Type 0 where
  pub connect_ms : ℤ
  pub tls_ms : ℤ
  pub response_header_ms : ℤ
  pub total_ms : ℤ

abbrev pub accept_encoding_identity : String
accept_encoding_identity = "identity"

abbrev pub accept_encoding_gzip : String
accept_encoding_gzip = "gzip"

abbrev pub http2_disable : String
http2_disable = "disable"

pub record RequestSpec : Type 0 where
  pub id : String
  pub method : String
  pub url : String
  pub headers : List NameValue
  pub host_override : String
  pub sni : String
  pub query : List NameValue
  pub body_base64 : String
  pub follow_redirects : Bool
  pub max_redirects : ℤ
  pub insecure_skip_verify : Bool
  pub timeouts : Timeouts
  pub max_body_bytes : ℤ
  pub reuse_connection : Bool
  pub http2 : String
  pub accept_encoding : String
  pub capture_cert_chain : Bool

abbrev pub return_channel : String
return_channel = "channel"

abbrev pub return_http : String
return_http = "http"

pub record ReturnSpec : Type 0 where
  pub transport : String
  pub channel : String
  pub url : String
  pub inline_max_bytes : ℤ

pub record ExecutionSpec : Type 0 where
  pub max_concurrency : ℤ
  pub stop_on_error : Bool

pub record Job : Type 0 where
  pub job_id : String
  pub agent_id : String
  pub issued_at : Time
  pub deadline : Option Time
  pub context : String
  pub return : ReturnSpec
  pub execution : ExecutionSpec
  pub requests : List RequestSpec

pub record Timing : Type 0 where
  pub dns_ms : ℤ
  pub connect_ms : ℤ
  pub tls_ms : ℤ
  pub ttfb_ms : ℤ
  pub total_ms : ℤ

pub record RedirectHop : Type 0 where
  pub status : ℤ
  pub location : String
  pub url : String

pub record TlsInfo : Type 0 where
  pub version : String
  pub cipher_suite : String
  pub alpn : String
  pub server_name : String
  pub issuer : String
  pub subject : String
  pub dns_names : List String
  pub not_before : Option Time
  pub not_after : Option Time
  pub peer_certs_pem : List String

-- The structured error kinds.
pub data ErrKind : Type 0 where
  dns connect tls timeout http blocked invalid : ErrKind

pub record ExecError : Type 0 where
  pub kind : ErrKind
  pub message : String
  pub retryable : Bool

abbrev pub body_encoding_base64 : String
body_encoding_base64 = "base64"

abbrev pub body_encoding_truncated : String
body_encoding_truncated = "truncated"

pub record ResponseResult : Type 0 where
  pub request_id : String
  pub status : ℤ
  pub proto : String
  pub headers : List NameValue
  pub body_encoding : String
  pub body_base64 : String
  pub body_truncated : Bool
  pub body_bytes : ℤ
  pub timing : Timing
  pub redirect_chain : List RedirectHop
  pub tls : Option TlsInfo
  pub error : Option ExecError

-- protocol.Result: what the agent returns for a whole job.
pub record JobResult : Type 0 where
  pub job_id : String
  pub agent_id : String
  pub context : String
  pub agent_version : String
  pub worker_version : String
  pub started_at : Time
  pub finished_at : Time
  pub responses : List ResponseResult

abbrev pub control_ping : String
control_ping = "ping"

pub record ControlMessage : Type 0 where
  pub type_name : String
  pub issued_at : Time
  pub payload : String

abbrev pub ack_hello : String
ack_hello = "hello"

abbrev pub ack_heartbeat : String
ack_heartbeat = "heartbeat"

abbrev pub ack_pong : String
ack_pong = "pong"

pub record Ack : Type 0 where
  pub kind : String
  pub agent_id : String
  pub name : String
  pub labels : List (String × String)
  pub agent_version : String
  pub worker_version : String
  pub sent_at : Time
  pub in_flight : ℤ
  pub in_reply_to : String

abbrev pub content_type_result : String
content_type_result = "application/apipact.result+json"

abbrev pub event_result : String
event_result = "apipact.result"
