-- ===== src/Worker/Requests.antt =====
-- internal/worker/worker.go: execRequests without concurrency, and the result that runJob reports.
-- The executor is the interface Engine, which engine_of fills with Executor.Execute.
pub mod Reach
use apipact_agent.Prelude.{
  ℕ, ◌≡◌, refl, ◌⊎◌, inl, inr, Bool, true, false, ◌&&◌, List, [], ◌∷◌, ◌++◌, map, if◌then◌else◌,
  Bool-cases, is_some, All,
}
use apipact_agent.Protocol.{RequestSpec, ErrKind, ResponseResult}
use apipact_agent.Executor.Request.{Library}
use apipact_agent.Executor.Execute.{blank_result, with_error, execute, Exchanger}
use apipact_agent.Executor.Execute.Laws.{execute-IsOutcome}

-- What the worker uses of the executor: a result that carries the request's id.
pub record Engine : Type 1 where
  pub World : Type 0
  pub run : RequestSpec → World → ResponseResult × World
  pub echoes : (spec : RequestSpec) (w : World) → (run spec w).0.request_id ≡ spec.id

abbrev pub engine_run :
    (lib : Library) (net : Exchanger) → ℕ → RequestSpec → net.World → ResponseResult × net.World
engine_run lib net max_body spec w =
    let out = execute lib net max_body spec w in (out.result, out.world)

-- Engine.Execute as the worker calls it.
abbrev pub engine_of : Library → Exchanger → ℕ → Engine
engine_of lib net max_body = record {
  World = net.World;
  run = engine_run lib net max_body;
  echoes = λ spec w. (execute-IsOutcome lib net max_body spec w).same_id;
}

unfoldable pub skipped : RequestSpec → ResponseResult
skipped spec = with_error (blank_result spec.id) ErrKind.invalid "skipped after earlier failure"

module _ (engine : Engine) where
  -- execRequests when MaxConcurrency is at most 1; the flag is StopOnError.
  unfoldable pub run_sequential :
      Bool → List RequestSpec → engine.World → List ResponseResult × engine.World
  run_sequential stop [] w = ([], w)
  run_sequential stop (spec ∷ specs) w =
      let (r, w') = engine.run spec w in
      let rest = run_sequential stop specs w' in
      if stop && is_some r.error then (r ∷ map skipped specs, w') else (r ∷ rest.0, rest.1)

  map-skipped :
      (specs : List RequestSpec)
      → map (λ r. r.request_id) (map skipped specs) ≡ map (λ s. s.id) specs
  unfolding skipped
  map-skipped [] = refl
  map-skipped (spec ∷ specs) = rw (map-skipped specs) refl

  -- The results answer the requests one for one, in the order of the job, whatever fails and
  -- whether or not the run stops early.
  pub run_sequential-ids :
      (stop : Bool) (specs : List RequestSpec) (w : engine.World)
      → map (λ r. r.request_id) (run_sequential stop specs w).0 ≡ map (λ s. s.id) specs
  unfolding run_sequential
  run_sequential-ids stop [] w = refl
  run_sequential-ids stop (spec ∷ specs) w =
      elim (Bool-cases (stop && is_some (engine.run spec w).0.error)) [
        | inl b ↦ rw (b, map-skipped specs, engine.echoes spec w) refl
        | inr b ↦
            rw (b, run_sequential-ids stop specs (engine.run spec w).1, engine.echoes spec w) refl
      ]

  abbrev pub Run : Type 0
  Run = List ResponseResult × engine.World

  -- The run of a job under stopOnError: the requests `before` succeed as they would alone; then
  -- the job ends, or the next request fails and those after it are marked as skipped, unsent.
  pub record IsStopped (specs : List RequestSpec) (w : engine.World) (out : Run) : Type 0 where
    pub before : List RequestSpec
    pub fine : All (λ r. is_some r.error ≡ false) (run_sequential false before w).0
    pub ended :
        ((specs ≡ before) × (out ≡ run_sequential false before w))
        ⊎ ((spec : RequestSpec) × (later : List RequestSpec) × (specs ≡ before ++ spec ∷ later)
            × (is_some (engine.run spec (run_sequential false before w).1).0.error ≡ true)
            × (out.0
                ≡ (run_sequential false before w).0
                  ++ (engine.run spec (run_sequential false before w).1).0 ∷ map skipped later)
            × (out.1 ≡ (engine.run spec (run_sequential false before w).1).1))

  -- Where a job's maxConcurrency is at most 1, so that its requests run in turn, and it has stopOnError,
  -- the requests before the first failure end as they would without it; the first that fails keeps its
  -- result; those after it are marked as skipped and not sent. Without a failure the run is the same
  -- as without stopOnError.
  pub stops_at_error :
      (specs : List RequestSpec) (w : engine.World)
      → IsStopped specs w (run_sequential true specs w)
  unfolding run_sequential
  stops_at_error [] w = record { before = []; fine = tt; ended = inl (refl, refl) }
  stops_at_error (spec ∷ specs) w = elim (Bool-cases (is_some (engine.run spec w).0.error)) [
    | inl b ↦
        rw b (record { before = []; fine = tt; ended = inr (spec, specs, refl, b, refl, refl) })
    | inr b ↦
        let r = stops_at_error specs (engine.run spec w).1 in
        rw b (record {
          before = spec ∷ r.before;
          fine = (b, r.fine);
          ended = elim r.ended [
            | inl (q, o) ↦ inl (rw q refl, rw o refl)
            | inr (s, later, q, e, o, u) ↦ inr (s, later, rw q refl, e, rw o refl, u)
          ];
        })
  ]
