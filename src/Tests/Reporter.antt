-- ===== src/Tests/Reporter.antt =====
-- internal/reporter/reporter.go on an endpoint that answers 503 once.
use apipact_agent.Prelude.{
  ℕ, ◌+◌, ◌*◌, ◌≤◌, ◌<◌, String, ◌≡◌, refl, ◌↔◌, true, false, Option, none, some, [], ◌∷◌, arith,
  ◌==◌, if◌then◌else◌, length, any,
}
use apipact_agent.Prelude.Int.{pos, pos_part, wrap64}
use apipact_agent.Protocol.{ReturnSpec}
use apipact_agent.Executor.Request.{first_non_empty}
use apipact_agent.Reporter.{
  answered, pause, post_loop, post_http, fall_back, after_publish, publish_loop, publish_channel,
  inline_max, transport_of, report, ReporterConfig, Courier, publish_failed, posted,
}
use apipact_agent.Reporter.Backoff.{backoff_base, backoff, paced}
use apipact_agent.Reporter.Pace.{report_paced}
use apipact_agent.Reporter.Delivery.{is_accepted, report-delivered_iff}

abbrev courier : Courier
courier = record {
  World = ℕ;
  publish = λ channel body w. (some "offline", w + 1);
  request_error = λ url. none;
  post = λ url body w. (some (if w == 1 then 503 else 204), w + 1);
  wait = λ n w. (none, w);
}

abbrev pub config : ReporterConfig
config = record {
  default_transport = "channel";
  results_channel = "agent-a-results";
  result_url = "https://example.com/results";
  inline_max_bytes = pos 0;
  has_publisher = true;
  retry_attempts = pos 2;
}

abbrev pub by_default : ReturnSpec
by_default = record { transport = ""; channel = ""; url = ""; inline_max_bytes = pos 10 }

-- Two publishes fail, then the fallback succeeds.
falls_back :
    (report courier config (1 ∷ 2 ∷ []) by_default 5).attempts
    ≡ publish_failed "agent-a-results"
      ∷ publish_failed "agent-a-results"
      ∷ posted "https://example.com/results" 204
      ∷ []
unfolding report transport_of inline_max publish_channel publish_loop after_publish fall_back
    post_http post_loop pause answered first_non_empty
falls_back = refl

report-delivered_iff_example :
    let r = report courier config (1 ∷ 2 ∷ []) by_default 5 in
    ((r.error ≡ none) ↔ (any is_accepted r.attempts ≡ true))
    × (length r.attempts ≤ 2 * pos_part config.retry_attempts)
report-delivered_iff_example = report-delivered_iff courier config (1 ∷ 2 ∷ []) by_default 5

-- A random source that always draws 0.
abbrev least : ℕ → ℕ
least m = 0

least_below : (m : ℕ) → 0 < m → least m < m
least_below m h = h

abbrev four_attempts : ReporterConfig
four_attempts = record config { retry_attempts = pos 4 }

awake : (d : ℕ) → ℕ → Option String × ℕ
awake d w = (none, w)

report_paced_example :
    let s =
      (report
        (paced courier least awake)
        four_attempts
        (1 ∷ 2 ∷ [])
        by_default
        (record { world = 5; slept = 0; panicked = false })).world in
    (s.panicked ≡ false) × (s.slept ≤ 3_500_000_000)
report_paced_example =
    report_paced courier least awake least_below four_attempts (1 ∷ 2 ∷ []) (omega arith) by_default
      5

sixth : backoff least 5 ≡ some 4_000_000_000
unfolding backoff backoff_base wrap64
sixth = refl

-- The 37th attempt would panic.
overflows : backoff least 36 ≡ none
unfolding backoff backoff_base wrap64
overflows = refl
