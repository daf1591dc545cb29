-- ===== src/Reporter/Sealed/Outgoing.antt =====
-- internal/reporter/reporter.go: what leaves the agent for a result.
use Prim.Native.String.{◌++◌ as ◌<>◌}
use apipact_agent.Prelude.{
  String, ◌≡◌, refl, ◌≢◌, ◌⊎◌, inl, inr, none, some, [], arith, eq_iff, ok, Result-cases, All,
}
use apipact_agent.Protocol.{content_type_result, event_result, ReturnSpec, JobResult}
use apipact_agent.Executor.Request.{Bytes}
use apipact_agent.Reporter.{ReporterConfig}
use apipact_agent.Reporter.Sealed.{
  result_request, result_meta, wired, report_result, Sealer, Sender, Message, Wires, publication,
  request,
}
use apipact_agent.Reporter.Preserved.{report-Holds}

-- A message for a job that carries these bytes and no more than its routing: a publication under the
-- result's event type, or a POST with the agent's id, the job's id and the bearer token, if there is one.
abbrev pub Carries : Sender → String → Bytes → Message → Type 0
Carries who job sealed (publication channel body event) = (body ≡ sealed) × (event ≡ event_result)
Carries who job sealed (request req) =
    (req.body ≡ sealed)
    × (req.agent ≡ who.agent_id)
    × (req.job ≡ job)
    × (req.content_type ≡ "application/apipact.envelope+json")
    × (who.result_token ≡ "" → req.authorization ≡ none)
    × (who.result_token ≢ "" → req.authorization ≡ some ("Bearer " <> who.result_token))

result_request-Carries :
    (who : Sender) (job url : String) (sealed : Bytes)
    → Carries who job sealed (request (result_request who job url sealed))
unfolding result_request
result_request-Carries who job url sealed = (
  refl,
  refl,
  refl,
  refl,
  λ e. ground (arith, eq_iff who.result_token "", e),
  λ n. ground (arith, eq_iff who.result_token "", n),
)

-- Whatever the relay, the endpoint and the transports do: a report whose result cannot be sealed sends
-- nothing; else there is one sealed envelope, of this result and under the id of its job, and every
-- message that the report sends, by the channel or by HTTP, carries its bytes and nothing else but its
-- routing: the event type, the agent's id, the job's id, and the bearer token of the configuration.
pub report_result-Carries :
    (net : Wires) (sealer : Sealer) (who : Sender) (cfg : ReporterConfig) (result : JobResult)
    (spec : ReturnSpec) (w : net.World)
    → let d = report_result net sealer who cfg result spec w in
      (d.sent.log ≡ [])
      ⊎ ((env : sealer.Envelope) × (sealed : Bytes) × (sealer.seal result
              (record { message_id = result.job_id; content_type = content_type_result })
            ≡ ok env)
          × (sealer.marshal env ≡ ok sealed)
          × All (Carries who result.job_id sealed) d.sent.log)
unfolding report_result
report_result-Carries net sealer who cfg result spec w =
    elim (Result-cases (sealer.seal result (result_meta result))) [
      | inr (e, q) ↦ inl (rw (report_result, q) refl)
      | inl (env, q) ↦ elim (Result-cases (sealer.marshal env)) [
        | inr (e, a) ↦ inl (rw (report_result, q, a) refl)
        | inl (sealed, a) ↦ inr (
          env,
          sealed,
          q,
          a,
          rw (report_result, q, a)
              (report-Holds (wired net who result.job_id) cfg sealed
                (λ s. All (Carries who result.job_id sealed) s.log)
                (λ channel s h. ((refl, refl), h))
                (λ url s h. (result_request-Carries who result.job_id url sealed, h)) (λ n s h. h)
                spec (record { world = w; log = [] }) tt),
        )
      ]
    ]
