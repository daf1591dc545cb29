-- ===== src/Worker/Pool/Outcome.antt =====
-- internal/worker/worker.go: what the slice `out` holds when the goroutines of execRequests end.
use apipact_agent.Prelude.{ℕ, ◌*◌, ◌≡◌, refl, ap, List, [], ◌∷◌, map, arith, length}
use apipact_agent.Protocol.{RequestSpec, ResponseResult}
use apipact_agent.Worker.Requests.{Engine}
use apipact_agent.Worker.Pool.Invariant.{steps_left, total, run-steps}
use apipact_agent.Worker.Pool.{
  start_cell, Phase, Cell, Slots, Capacity, Turn, Run, queued, admitted, executing, answered,
  finished, enter, acquire, answer, finish, here, there, start, turn, other_takes, other_gives,
}

module _ (engine : Engine) where
  -- A response that the engine gives to a request in some world.
  abbrev pub Answers : RequestSpec → ResponseResult → Type 0
  Answers spec r = (w : engine.World) × (r ≡ (engine.run spec w).0)

  -- What a goroutine's phase says of its result.
  abbrev Kept : RequestSpec → Phase → ResponseResult → Type 0
  Kept spec (answered r) slot = Answers spec r
  Kept spec finished slot = Answers spec slot
  Kept spec _ slot = Unit

  abbrev AllKept : List RequestSpec → List Cell → Type 0
  AllKept [] [] = Unit
  AllKept (spec ∷ specs) (c ∷ cs) = ((c.spec ≡ spec) × Kept spec c.phase c.slot) × AllKept specs cs
  AllKept _ _ = ⊥

  AllKept-start : (specs : List RequestSpec) → AllKept specs (map start_cell specs)
  unfolding start_cell
  AllKept-start [] = tt
  AllKept-start (spec ∷ specs) = ((refl, tt), AllKept-start specs)

  module _ (cap : Capacity) where
    Turn-AllKept :
        (specs : List RequestSpec) {s s' : Slots} {cs cs' : List Cell}
        → Turn engine cap s cs s' cs'
        → AllKept specs cs
        → AllKept specs cs'
    Turn-AllKept [] (here m) k = absurd k
    Turn-AllKept [] (there t) k = absurd k
    Turn-AllKept (spec ∷ specs) (here (enter p room)) ((e, k), ks) = ((e, tt), ks)
    Turn-AllKept (spec ∷ specs) (here (acquire p room)) ((e, k), ks) = ((e, tt), ks)
    Turn-AllKept (spec ∷ specs) (here (answer w p)) ((e, k), ks) =
        ((e, (w, ap (λ x. (engine.run x w).0) e)), ks)
    Turn-AllKept (spec ∷ specs) (here (finish r p)) ((e, k), ks) = ((e, rw p at k), ks)
    Turn-AllKept (spec ∷ specs) (there t) ((e, k), ks) = ((e, k), Turn-AllKept specs t ks)

    run-AllKept :
        {specs : List RequestSpec} {others n : ℕ} {s : Slots} {cs : List Cell}
        → Run engine cap specs others n s cs
        → AllKept specs cs
    run-AllKept {specs} (start h) = AllKept-start specs
    run-AllKept {specs} (turn r t) = Turn-AllKept specs t (run-AllKept r)
    run-AllKept (other_takes r h) = run-AllKept r
    run-AllKept (other_gives r h) = run-AllKept r

  -- A list of responses that answers a list of requests one for one.
  abbrev pub AllAnswer : List RequestSpec → List ResponseResult → Type 0
  AllAnswer [] [] = Unit
  AllAnswer (spec ∷ specs) (r ∷ rs) = Answers spec r × AllAnswer specs rs
  AllAnswer _ _ = ⊥

  answers-ids :
      (specs : List RequestSpec) (rs : List ResponseResult)
      → AllAnswer specs rs
      → map (λ r. r.request_id) rs ≡ map (λ q. q.id) specs
  answers-ids [] [] a = refl
  answers-ids [] (r ∷ rs) a = absurd a
  answers-ids (spec ∷ specs) [] a = absurd a
  answers-ids (spec ∷ specs) (r ∷ rs) ((w, e), a) =
      rw (answers-ids specs rs a, e, engine.echoes spec w) refl

  finished_of : (p : Phase) → steps_left p ≡ 0 → p ≡ finished
  finished_of finished h = refl
  finished_of queued h = absurd (omega arith)
  finished_of admitted h = absurd (omega arith)
  finished_of executing h = absurd (omega arith)
  finished_of (answered r) h = absurd (omega arith)

  abbrev pub slots_of : List Cell → List ResponseResult
  slots_of cs = map (λ c. c.slot) cs

  all_finished :
      (specs : List RequestSpec) (cs : List Cell)
      → AllKept specs cs
      → total steps_left cs ≡ 0
      → AllAnswer specs (slots_of cs)
  all_finished [] [] k e = tt
  all_finished [] (c ∷ cs) k e = absurd k
  all_finished (spec ∷ specs) [] k e = absurd k
  all_finished (spec ∷ specs) (c ∷ cs) ((_, k), ks) e =
      let done = finished_of c.phase (omega (arith, e)) in
      (rw done at k, all_finished specs cs ks (omega (arith, e)))

  -- When all goroutines have ended (they have taken the four steps that each of them takes), `out`
  -- holds, at the place of each request, the engine's response to it: none is skipped, whatever
  -- fails, and each carries the request's id.
  pub run-AllAnswer :
      {cap : Capacity} {specs : List RequestSpec} {others : ℕ} {s : Slots} {cs : List Cell}
      → Run engine cap specs others (4 * length specs) s cs
      → AllAnswer specs (slots_of cs)
        × (map (λ r. r.request_id) (slots_of cs) ≡ map (λ q. q.id) specs)
  run-AllAnswer {cap} {specs} {cs = cs} r =
      let a = all_finished specs cs (run-AllKept cap r) (omega (arith, run-steps engine cap r)) in
      (a, answers-ids specs (slots_of cs) a)
