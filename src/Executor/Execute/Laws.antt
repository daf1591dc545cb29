-- ===== src/Executor/Execute/Laws.antt =====
-- internal/executor/executor.go, Engine.Execute: redirects.
use apipact_agent.Prelude.{
  ℕ, zero, suc, ◌+◌, ◌≤◌, String, ◌≡◌, refl, sym, ap, ◌∙◌, ◌⊎◌, inl, inr, true, false, ◌&&◌, none,
  some, List, [], ◌∷◌, ◌++◌, arith, ◌=ₛ◌, Bool-cases, Result, ok, err, Result-cases, is_some,
  length, All,
}
use apipact_agent.Protocol.{RequestSpec, RedirectHop, ErrKind, ResponseResult}
use apipact_agent.Executor.Request.{Bytes, build_url, decode_body, Library}
use apipact_agent.Executor.Redirect.{is_redirect}
use apipact_agent.Executor.Execute.{
  blank_result, with_error, fill, do_once, terminal, follow, answer, sending, execute_loop,
  max_redirects, first_method, not_executed, execute, Response, Exchanged, Exchanger, Executed,
}
use apipact_agent.Executor.Headers.{get_header}
use apipact_agent.Executor.Errors.{GoError, classify}
use mathlib.Core.List.{append-nil, append_assoc}

module _ (lib : Library) (net : Exchanger) (default_max_body : ℕ) (spec : RequestSpec) where
  abbrev Out : Type 0
  Out = Executed lib net default_max_body spec

  -- A run of the loop from a result that has the hops `before`, with `left` redirects to follow.
  -- `extra` is 1 if the run's own request is counted among those sent.
  record Ran (extra left : ℕ) (before : List RedirectHop) (out : Out) : Type 0 where
    hops : List RedirectHop
    same_id : out.result.request_id ≡ spec.id
    chain : out.result.redirect_chain ≡ before ++ hops
    bounded : length hops ≤ left
    statuses : All (λ h. is_redirect h.status ≡ true) hops
    rounds : length out.sent ≤ length hops + extra
    ended :
        is_some out.result.error ≡ false
        → ((spec.follow_redirects && is_redirect out.result.status) ≡ false) ⊎ (length hops ≡ left)

  sending-Ran :
      (left : ℕ) (before : List RedirectHop) (m : String) (u : lib.Url) (b : Bytes) (out : Out)
      → Ran 0 left before out
      → Ran 1 left before (sending lib net default_max_body spec m u b out)
  sending-Ran left before m u b out a = record {
    hops = a.hops;
    same_id = a.same_id;
    chain = a.chain;
    bounded = a.bounded;
    statuses = a.statuses;
    rounds = omega (arith, a.rounds);
    ended = a.ended;
  }

  terminal-Ran :
      (left : ℕ) (res : ResponseResult) (resp : Response) (x : Exchanged net.World)
      → res.request_id ≡ spec.id
      → ((spec.follow_redirects && is_redirect resp.status_code) ≡ false) ⊎ (0 ≡ left)
      → Ran 0 left res.redirect_chain (record {
        result = terminal lib net default_max_body spec res resp x;
        sent = [];
        world = x.world;
      })
  unfolding fill
  terminal-Ran left res resp x h e = record {
    hops = [];
    same_id = h;
    chain = sym (append-nil _);
    bounded = omega arith;
    statuses = tt;
    rounds = omega arith;
    ended = λ k. e;
  }

  error-Ran :
      (left : ℕ) (res : ResponseResult) (x : Exchanged net.World) (e : GoError)
      → res.request_id ≡ spec.id
      → Ran 0 left res.redirect_chain (record {
        result = record res { timing = x.timing; error = some (classify e) };
        sent = [];
        world = x.world;
      })
  error-Ran left res x e h = record {
    hops = [];
    same_id = h;
    chain = sym (append-nil res.redirect_chain);
    bounded = omega arith;
    statuses = tt;
    rounds = omega arith;
    ended = λ k. cc;
  }

  stop-Ran :
      (left : ℕ) (res : ResponseResult) (hop : RedirectHop) (msg : String) (w : net.World)
      → res.request_id ≡ spec.id
      → is_redirect hop.status ≡ true
      → Ran 0 (suc left) res.redirect_chain (record {
        result =
            with_error
              (record res { redirect_chain = res.redirect_chain ++ hop ∷ [] })
              ErrKind.http
              msg;
        sent = [];
        world = w;
      })
  stop-Ran left res hop msg w h r = record {
    hops = hop ∷ [];
    same_id = h;
    chain = refl;
    bounded = omega arith;
    statuses = (r, tt);
    rounds = omega arith;
    ended = λ k. cc;
  }

  again-Ran :
      (left : ℕ) (before : List RedirectHop) (hop : RedirectHop) (out : Out)
      → is_redirect hop.status ≡ true
      → Ran 1 left (before ++ hop ∷ []) out
      → Ran 0 (suc left) before out
  again-Ran left before hop out r a = record {
    hops = hop ∷ a.hops;
    same_id = a.same_id;
    chain = a.chain ∙ append_assoc before (hop ∷ []) a.hops;
    bounded = omega (arith, a.bounded);
    statuses = (r, a.statuses);
    rounds = omega (arith, a.rounds);
    ended = λ k. elim (a.ended k) [ inl e ↦ inl e | inr e ↦ inr (ap suc e) ];
  }

  follow-Ran :
      (left : ℕ) (res : ResponseResult)
      (again : String → lib.Url → Bytes → ResponseResult → net.World → Out) (m : String)
      (u : lib.Url) (b : Bytes) (resp : Response) (w : net.World)
      → res.request_id ≡ spec.id
      → is_redirect resp.status_code ≡ true
      → ((m : String) (u : lib.Url) (b : Bytes) (r : ResponseResult) (t : net.World)
          → r.request_id ≡ spec.id
          → Ran 1 left r.redirect_chain (again m u b r t))
      → Ran 0
          (suc left)
          res.redirect_chain
          (follow lib net default_max_body spec res again m u b resp w)
  unfolding follow
  follow-Ran left res again m u b resp w h r k =
      let loc = get_header "Location" resp.header in
      let hop : RedirectHop = record {
        status = resp.status_code;
        location = loc;
        url = lib.url_text u;
      } in
      elim (Result-cases (lib.resolve u loc)) [
        | inr (e, q) ↦ rw (q, follow) (stop-Ran left res hop _ w h r)
        | inl (next, q) ↦ elim (Bool-cases (loc =ₛ "")) [
          | inl z ↦ rw (q, follow, z) (stop-Ran left res hop _ w h r)
          | inr z ↦ rw (q, follow, z) (again-Ran left res.redirect_chain hop _ r (k _ _ _ _ w h))
        ]
      ]

  abbrev Again : Type 0
  Again = String → lib.Url → Bytes → ResponseResult → net.World → Out

  answer_last-Ran :
      (body : Bytes) (m : String) (u : lib.Url) (res : ResponseResult) (x : Exchanged net.World)
      (r : Result GoError Response)
      → res.request_id ≡ spec.id
      → Ran 0 0 res.redirect_chain (answer lib net default_max_body spec none body m u res x r)
  unfolding answer
  answer_last-Ran body m u res x (ok resp) h = terminal-Ran 0 res resp x h (inr refl)
  answer_last-Ran body m u res x (err e) h = error-Ran 0 res x e h

  answer-Ran :
      (left : ℕ) (again : Again) (body : Bytes) (m : String) (u : lib.Url) (res : ResponseResult)
      (x : Exchanged net.World) (r : Result GoError Response)
      → res.request_id ≡ spec.id
      → ((m : String) (u : lib.Url) (b : Bytes) (r : ResponseResult) (t : net.World)
          → r.request_id ≡ spec.id
          → Ran 1 left r.redirect_chain (again m u b r t))
      → Ran 0
          (suc left)
          res.redirect_chain
          (answer lib net default_max_body spec (some again) body m u res x r)
  unfolding answer
  answer-Ran left again body m u res x (err e) h k = error-Ran (suc left) res x e h
  answer-Ran left again body m u res x (ok resp) h k =
      elim (Bool-cases (spec.follow_redirects && is_redirect resp.status_code)) [
        | inl f ↦ rw f (follow-Ran left res again m u body resp x.world h (ground arith) k)
        | inr f ↦ rw f (terminal-Ran (suc left) res resp x h (inl f))
      ]

  execute_loop-Ran :
      (left : ℕ) (body : Bytes) (m : String) (u : lib.Url) (b : Bytes) (res : ResponseResult)
      (w : net.World)
      → res.request_id ≡ spec.id
      → Ran 1 left res.redirect_chain
          (execute_loop lib net default_max_body spec left body m u b res w)
  unfolding execute_loop
  execute_loop-Ran zero body m u b res w h =
      let x = do_once lib net default_max_body spec w m u b in
      sending-Ran 0 res.redirect_chain m u b _ (answer_last-Ran body m u res x x.outcome h)
  execute_loop-Ran (suc left) body m u b res w h =
      let x = do_once lib net default_max_body spec w m u b in
      sending-Ran (suc left) res.redirect_chain m u b _ (
        answer-Ran left _ body m u res x x.outcome h
          (λ m' u' b' r t k. execute_loop-Ran left body m' u' b' r t k))

  -- What holds of the outcome of Execute, whatever the network answers: it is for this request; the
  -- recorded hops are redirects, and at most as many as the spec lets the engine follow; at most one
  -- request more than hops is sent; and a result without an error is not a redirect that the engine
  -- should have followed, unless it has followed all that it may.
  pub record IsOutcome (out : Out) : Type 0 where
    pub same_id : out.result.request_id ≡ spec.id
    pub bounded : length out.result.redirect_chain ≤ max_redirects lib net default_max_body spec
    pub statuses : All (λ h. is_redirect h.status ≡ true) out.result.redirect_chain
    pub rounds : length out.sent ≤ length out.result.redirect_chain + 1
    pub ended :
        (is_some out.result.error ≡ true)
        ⊎ ((spec.follow_redirects && is_redirect out.result.status) ≡ false)
        ⊎ (length out.result.redirect_chain ≡ max_redirects lib net default_max_body spec)

  not_executed-IsOutcome :
      (w : net.World) (msg : String) → IsOutcome (not_executed lib net default_max_body spec w msg)
  unfolding not_executed
  not_executed-IsOutcome w msg = record {
    same_id = refl;
    bounded = omega arith;
    statuses = tt;
    rounds = omega arith;
    ended = inl refl;
  }

  Ran-IsOutcome :
      (out : Out) → Ran 1 (max_redirects lib net default_max_body spec) [] out → IsOutcome out
  Ran-IsOutcome out r = record {
    same_id = r.same_id;
    bounded = rw r.chain r.bounded;
    statuses = rw r.chain r.statuses;
    rounds = rw r.chain r.rounds;
    ended = elim (Bool-cases (is_some out.result.error)) [
      | inl e ↦ inl e
      | inr e ↦ elim (r.ended e) [ inl a ↦ inr (inl a) | inr b ↦ inr (inr (rw r.chain b)) ]
    ];
  }

  -- For every spec and every network, Execute answers this request; it records at most as many hops
  -- as the spec lets it follow, all of them redirects, and sends at most one request more; and a
  -- result without an error is no redirect, unless the spec does not ask to follow them or all the
  -- hops have been followed.
  pub execute-IsOutcome : (w : net.World) → IsOutcome (execute lib net default_max_body spec w)
  unfolding execute
  execute-IsOutcome w = elim (Result-cases (build_url lib spec)) [
    | inr (e, q) ↦ rw (q, execute) (not_executed-IsOutcome w e)
    | inl (u, q) ↦ elim (Result-cases (decode_body lib spec.body_base64)) [
      | inr (e, d) ↦ rw (q, execute, d) (not_executed-IsOutcome w _)
      | inl (body, d) ↦
          rw (q, execute, d)
            (Ran-IsOutcome _ (
              execute_loop-Ran (max_redirects lib net default_max_body spec) body
                (first_method lib net default_max_body spec) u body (blank_result spec.id) w refl))
    ]
  ]
