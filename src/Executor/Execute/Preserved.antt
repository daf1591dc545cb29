-- ===== src/Executor/Execute/Preserved.antt =====
-- internal/executor/executor.go, Engine.Execute: what every exchange preserves holds after it.
use apipact_agent.Prelude.{
  ℕ, zero, suc, String, inl, inr, ◌&&◌, none, some, ◌=ₛ◌, Bool-cases, Option-cases, Result, ok, err,
  Result-cases,
}
use apipact_agent.Prelude.Int.{ℤ}
use apipact_agent.Protocol.{RequestSpec, ResponseResult}
use apipact_agent.Executor.Request.{Bytes, build_url, decode_body, Library, Client, HttpRequest}
use apipact_agent.Executor.Redirect.{is_redirect}
use apipact_agent.Executor.Errors.{GoError}
use apipact_agent.Executor.Headers.{get_header}
use apipact_agent.Executor.Execute.{
  do_once, follow, answer, execute_loop, not_executed, execute, Response, Exchanged, Exchanger,
  Executed,
}

-- A predicate on the network's states that every exchange preserves holds after Execute.
module _ (lib : Library) (net : Exchanger) (default_max_body : ℕ) (spec : RequestSpec)
    (Holds : net.World → Type 0)
    (exchange-Holds : (w : net.World) (timeout : ℤ) (client : Client) (req : HttpRequest)
      → Holds w
      → Holds (net.exchange w timeout client req).world) where
  abbrev Out : Type 0
  Out = Executed lib net default_max_body spec

  do_once-Holds :
      (w : net.World) (m : String) (u : lib.Url) (b : Bytes)
      → Holds w
      → Holds (do_once lib net default_max_body spec w m u b).world
  unfolding do_once
  do_once-Holds w m u b h = elim (Option-cases (lib.request_error m (lib.url_text u))) [
    | inl n ↦ rw (n, do_once) (exchange-Holds w _ _ _ h)
    | inr (e, s) ↦ rw (s, do_once) h
  ]

  abbrev Continues : (String → lib.Url → Bytes → ResponseResult → net.World → Out) → Type 0
  Continues again =
      (m : String) (u : lib.Url) (b : Bytes) (r : ResponseResult) (t : net.World)
      → Holds t
      → Holds (again m u b r t).world

  follow-Holds :
      (res : ResponseResult) (again : String → lib.Url → Bytes → ResponseResult → net.World → Out)
      (m : String) (u : lib.Url) (b : Bytes) (resp : Response) (w : net.World)
      → Continues again
      → Holds w
      → Holds (follow lib net default_max_body spec res again m u b resp w).world
  unfolding follow
  follow-Holds res again m u b resp w k h =
      let loc = get_header "Location" resp.header in
      elim (Result-cases (lib.resolve u loc)) [
        | inr (e, q) ↦ rw (q, follow) h
        | inl (next, q) ↦ elim (Bool-cases (loc =ₛ "")) [
          | inl z ↦ rw (q, follow, z) h
          | inr z ↦ rw (q, follow, z) (k _ _ _ _ w h)
        ]
      ]

  answer_last-Holds :
      (body : Bytes) (m : String) (u : lib.Url) (res : ResponseResult) (x : Exchanged net.World)
      (r : Result GoError Response)
      → Holds x.world
      → Holds (answer lib net default_max_body spec none body m u res x r).world
  unfolding answer
  answer_last-Holds body m u res x (ok resp) h = h
  answer_last-Holds body m u res x (err e) h = h

  answer-Holds :
      (again : String → lib.Url → Bytes → ResponseResult → net.World → Out) (body : Bytes)
      (m : String) (u : lib.Url) (res : ResponseResult) (x : Exchanged net.World)
      (r : Result GoError Response)
      → Continues again
      → Holds x.world
      → Holds (answer lib net default_max_body spec (some again) body m u res x r).world
  unfolding answer
  answer-Holds again body m u res x (err e) k h = h
  answer-Holds again body m u res x (ok resp) k h =
      elim (Bool-cases (spec.follow_redirects && is_redirect resp.status_code)) [
        | inl f ↦ rw f (follow-Holds res again m u body resp x.world k h)
        | inr f ↦ rw f h
      ]

  execute_loop-Holds :
      (left : ℕ) (body : Bytes) (m : String) (u : lib.Url) (b : Bytes) (res : ResponseResult)
      (w : net.World)
      → Holds w
      → Holds (execute_loop lib net default_max_body spec left body m u b res w).world
  unfolding execute_loop
  execute_loop-Holds zero body m u b res w h =
      let x = do_once lib net default_max_body spec w m u b in
      answer_last-Holds body m u res x x.outcome (do_once-Holds w m u b h)
  execute_loop-Holds (suc left) body m u b res w h =
      let x = do_once lib net default_max_body spec w m u b in
      answer-Holds (execute_loop lib net default_max_body spec left body) body m u res x x.outcome
        (execute_loop-Holds left body) (do_once-Holds w m u b h)

  pub execute-Holds :
      (w : net.World) → Holds w → Holds (execute lib net default_max_body spec w).world
  unfolding execute not_executed
  execute-Holds w h = elim (Result-cases (build_url lib spec)) [
    | inr (e, q) ↦ rw (q, execute) h
    | inl (u, q) ↦ elim (Result-cases (decode_body lib spec.body_base64)) [
      | inr (e, d) ↦ rw (q, execute, d) h
      | inl (body, d) ↦ rw (q, execute, d) (execute_loop-Holds _ body _ u body _ w h)
    ]
  ]
