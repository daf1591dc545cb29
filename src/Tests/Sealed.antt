-- ===== src/Tests/Sealed.antt =====
-- internal/reporter/reporter.go on a relay that is down and an endpoint that takes the result.
use apipact_agent.Prelude.{ℕ, ◌+◌, ◌≡◌, refl, ◌⊎◌, none, some, [], ◌∷◌, ok, length, All}
use apipact_agent.Prelude.Int.{pos}
use apipact_agent.Protocol.{content_type_result, JobResult}
use apipact_agent.Executor.Request.{Bytes, first_non_empty}
use apipact_agent.Reporter.{
  answered, pause, post_loop, post_http, fall_back, after_publish, publish_loop, publish_channel,
  inline_max, transport_of, report,
}
use apipact_agent.Reporter.Sealed.{report_result, Meta, Sealer, Sender, Wires, Delivered}
use apipact_agent.Reporter.Sealed.Outgoing.{Carries, report_result-Carries}
use apipact_agent.Tests.Reporter.{config, by_default}

abbrev pub down : Wires
down = record {
  World = ℕ;
  publish_raw = λ channel body event w. (some "offline", w + 1);
  request_error = λ url. none;
  send = λ req w. (some 204, w + 1);
  wait = λ n w. (none, w);
}

abbrev pub sealer : Sealer
sealer = record {
  Envelope = Meta;
  seal = λ result meta. ok meta;
  marshal = λ meta. ok (1 ∷ 2 ∷ []);
}

abbrev pub who : Sender
who = record { agent_id = "ag-1"; result_token = "t" }

abbrev result : JobResult
result = record {
  job_id = "j1";
  agent_id = "ag-1";
  context = "";
  agent_version = "1.0.0";
  worker_version = "1.0.0";
  started_at = pos 1;
  finished_at = pos 2;
  responses = [];
}

abbrev reported : Delivered ℕ
reported = report_result down sealer who config result by_default 0

posts_last : length reported.sent.log ≡ 3
unfolding report_result report transport_of inline_max publish_channel publish_loop after_publish
    fall_back post_http post_loop pause answered first_non_empty
posts_last = refl

report_result-Carries_example :
    (reported.sent.log ≡ [])
    ⊎ ((env : Meta) × (sealed : Bytes) × (sealer.seal result
            (record { message_id = "j1"; content_type = content_type_result })
          ≡ ok env)
        × (sealer.marshal env ≡ ok sealed)
        × All (Carries who "j1" sealed) reported.sent.log)
report_result-Carries_example = report_result-Carries down sealer who config result by_default 0
