-- ===== src/Reporter.antt =====
-- internal/reporter/reporter.go: how a sealed result is delivered, over the channel or by HTTP.
-- The relay, the HTTP client and the clock are the record Courier; every call of them advances its
-- world. A report keeps the list of its attempts.
pub mod Delivery
pub mod Backoff
pub mod Pace
pub mod Preserved
pub mod Sealed
use apipact_agent.Prelude.{
  ℕ, zero, suc, ◌+◌, String, Bool, ◌&&◌, ◌||◌, not, Option, none, some, List, [], ◌∷◌, ◌=ₛ◌, ltb,
  leb, ◌==◌, if◌then◌else◌, length,
}
use apipact_agent.Prelude.Int.{ℤ, pos, pos_part, ltb_ℤ, not_positive}
use apipact_agent.Protocol.{ReturnSpec, return_channel, return_http}
use apipact_agent.Executor.Request.{Bytes, first_non_empty}

-- Config, as far as the delivery reads it
pub record ReporterConfig : Type 0 where
  pub default_transport : String
  pub results_channel : String
  pub result_url : String
  pub inline_max_bytes : ℤ
  pub has_publisher : Bool
  pub retry_attempts : ℤ

abbrev pub default_inline_max_bytes : ℤ
default_inline_max_bytes = pos 204800

-- New
unfoldable pub new_reporter : ReporterConfig → ReporterConfig
new_reporter cfg = record cfg {
  inline_max_bytes =
      if not_positive cfg.inline_max_bytes then default_inline_max_bytes else cfg.inline_max_bytes;
  retry_attempts = if not_positive cfg.retry_attempts then pos 4 else cfg.retry_attempts;
}

-- Why a report fails: one constructor for each error that the code returns.
pub data ReportError : Type 0 where
  no_publisher no_channel no_url : ReportError
  unknown_transport cancelled bad_url channel_exhausted : String → ReportError
  http_rejected : ℕ → ReportError
  http_exhausted : ReportError

-- One attempt: a publish, or a POST with the status of its answer.
pub data Attempt : Type 0 where
  published publish_failed : String → Attempt
  posted : String → ℕ → Attempt
  post_failed : String → Attempt

pub record Courier : Type 1 where
  pub World : Type 0
  pub publish : String → Bytes → World → Option String × World
  -- http.NewRequest's error for a URL
  pub request_error : String → Option String
  pub post : String → Bytes → World → Option ℕ × World
  -- sleep(ctx, backoff(attempt))
  pub wait : ℕ → World → Option String × World

module _ (net : Courier) (cfg : ReporterConfig) (sealed : Bytes) where
  pub record Report : Type 0 where
    pub error : Option ReportError
    pub attempts : List Attempt
    pub world : net.World

  unfoldable pub stop : ReportError → net.World → Report
  stop e w = record { error = some e; attempts = []; world = w }

  abbrev pub adding : Attempt → Report → Report
  adding a r = record r { attempts = a ∷ r.attempts }

  -- What postHTTP does with the answer of a POST; `again` is its next round.
  unfoldable pub answered : (net.World → Report) → String → Option ℕ × net.World → Report
  answered again url (none, w) = adding (post_failed url) (again w)
  answered again url (some code, w) =
      if leb 200 code && ltb code 300
      then record { error = none; attempts = posted url code ∷ []; world = w }
      else if leb 400 code && ltb code 500 && not (code == 429)
      then record { error = some (http_rejected code); attempts = posted url code ∷ []; world = w }
      else adding (posted url code) (again w)

  -- The pause before an attempt; there is none before the first.
  unfoldable pub pause : ℕ → net.World → Option String × net.World
  pause zero w = (none, w)
  pause (suc n) w = net.wait (suc n) w

  -- The loop of postHTTP, with `left` attempts to make.
  unfoldable pub post_loop : ℕ → ℕ → String → net.World → Report
  post_loop zero attempt url w = stop http_exhausted w
  post_loop (suc left) attempt url w =
      let (late, w') = pause attempt w in
      elim late [
        | some e ↦ stop (cancelled e) w'
        | none ↦ elim (net.request_error url) [
          | some e ↦ stop (bad_url e) w'
          | none ↦ answered (post_loop left (attempt + 1) url) url (net.post url sealed w')
        ]
      ]

  -- postHTTP
  unfoldable pub post_http : String → net.World → Report
  post_http url w =
      if url =ₛ "" then stop no_url w else post_loop (pos_part cfg.retry_attempts) 0 url w

  -- What publishChannel does when its attempts are used up.
  unfoldable pub fall_back : String → net.World → Report
  fall_back last w =
      if not (cfg.result_url =ₛ "")
      then post_http cfg.result_url w
      else stop (channel_exhausted last) w

  -- What publishChannel does with the answer of a publish.
  unfoldable pub after_publish :
      (String → net.World → Report) → String → Option String × net.World → Report
  after_publish again channel (none, w) = record {
    error = none;
    attempts = published channel ∷ [];
    world = w;
  }
  after_publish again channel (some e, w) = adding (publish_failed channel) (again e w)

  -- The loop of publishChannel.
  unfoldable pub publish_loop : ℕ → ℕ → String → String → net.World → Report
  publish_loop zero attempt channel last w = fall_back last w
  publish_loop (suc left) attempt channel last w =
      let (late, w') = pause attempt w in
      elim late [
        | some e ↦ stop (cancelled e) w'
        | none ↦
            after_publish (publish_loop left (attempt + 1) channel) channel
              (net.publish channel sealed w')
      ]

  -- publishChannel
  unfoldable pub publish_channel : String → net.World → Report
  publish_channel channel w =
      if not cfg.has_publisher
      then stop no_publisher w
      else if channel =ₛ ""
      then stop no_channel w
      else publish_loop (pos_part cfg.retry_attempts) 0 channel "" w

  -- The threshold of Report for a job.
  unfoldable pub inline_max : ReturnSpec → ℤ
  inline_max spec =
      if not_positive spec.inline_max_bytes then cfg.inline_max_bytes else spec.inline_max_bytes

  -- The transport of Report for a job.
  unfoldable pub transport_of : ReturnSpec → String
  transport_of spec = if spec.transport =ₛ "" then cfg.default_transport else spec.transport

  -- Report, once the result has been sealed.
  unfoldable pub report : ReturnSpec → net.World → Report
  report spec w =
      let transport = transport_of spec in
      let url = first_non_empty (spec.url ∷ cfg.result_url ∷ []) in
      if transport =ₛ return_http
      then post_http url w
      else if (transport =ₛ return_channel) || (transport =ₛ "")
      then if ltb_ℤ (inline_max spec) (pos (length sealed)) && not (url =ₛ "")
        then post_http url w
        else publish_channel (first_non_empty (spec.channel ∷ cfg.results_channel ∷ [])) w
      else stop (unknown_transport transport) w
