-- ===== src/Executor/Execute/Capture.antt =====
-- internal/executor/executor.go, fill and redirectMethod: the captured body, and what a redirect
-- keeps of a request.
use apipact_agent.Prelude.{
  ℕ, zero, suc, ◌+◌, ◌-◌, ◌^◌, ◌<◌, min, String, ◌≡◌, refl, sym, ap, ◌∙◌, ◌≢◌, inl, inr, Bool, true,
  false, ◌||◌, [], ◌∷◌, arith, eq_iff, ltb, if◌then◌else◌, Bool-cases, length, take, length-take,
  take_of_length-le,
}
use apipact_agent.Prelude.Int.{ℤ, pos, wrap64, wrap64_of_In64}
use apipact_agent.Protocol.{RequestSpec, ResponseResult}
use apipact_agent.Executor.Request.{Bytes, Library}
use apipact_agent.Executor.Redirect.{is_status, redirect_method}
use apipact_agent.Executor.Execute.{read_limited, body_cap, read_limit, fill, Response, Exchanger}

take-take-suc : (n : ℕ) (xs : Bytes) → take n (take (suc n) xs) ≡ take n xs
take-take-suc zero xs = refl
take-take-suc (suc n) [] = refl
take-take-suc (suc n) (x ∷ xs) = ap (◌∷◌ x) (take-take-suc n xs)

read_limit_lem : (n : ℕ) → n + 1 < 2 ^ 63 → read_limit n ≡ pos (suc n)
unfolding read_limit
read_limit_lem n h = wrap64_of_In64 (pos (n + 1)) (h, omega arith) ∙ ap pos (omega arith)

-- What fill keeps of a body that it has read up to one byte more than the cap.
capture_lem :
    (n : ℕ) (body : Bytes)
    → let raw = take (suc n) body in
      ((if ltb n (length raw) then take n raw else raw) ≡ take n body)
      × (ltb n (length raw) ≡ ltb n (length body))
capture_lem n body = elim (Bool-cases (ltb n (length body))) [
  | inl long ↦
      let e : ltb n (length (take (suc n) body)) ≡ true =
        ground (arith, length-take (suc n) body) in
      (rw e (take-take-suc n body), rw (e, long) refl)
  | inr short ↦
      let e : ltb n (length (take (suc n) body)) ≡ false =
        ground (arith, length-take (suc n) body) in
      (
        rw e (
            take_of_length-le (suc n) body (ground arith)
            ∙ sym (take_of_length-le n body (ground arith))),
        rw (e, short) refl,
      )
]

module _ (lib : Library) (net : Exchanger) (default_max_body : ℕ) (spec : RequestSpec) where
  -- With a cap that fits an int64 when one is added to it, a result holds the longest part of the
  -- body within the cap, is marked truncated exactly when the body is longer, and counts its bytes.
  pub fill_captures :
      (res : ResponseResult) (resp : Response)
      → body_cap default_max_body spec + 1 < 2 ^ 63
      → let cap = body_cap default_max_body spec in
        let r = fill lib net default_max_body spec res resp in
        (r.body_base64 ≡ lib.encode_base64 (take cap resp.body))
        × (r.body_truncated ≡ ltb cap (length resp.body))
        × (r.body_bytes ≡ pos (min cap (length resp.body)))
  unfolding fill read_limited
  fill_captures res resp h =
      let cap = body_cap default_max_body spec in
      let c = capture_lem cap resp.body in
      rw (read_limit_lem cap h) (
        ap lib.encode_base64 c.0,
        c.1,
        ap (λ b. pos (length b)) c.0 ∙ ap pos (length-take cap resp.body),
      )

  -- The largest cap that a spec can ask for captures nothing: every body is reported as empty and
  -- as not truncated.
  fill_at_max_cap :
      (res : ResponseResult) (resp : Response)
      → spec.max_body_bytes ≡ pos (2 ^ 63 - 1)
      → let r = fill lib net default_max_body spec res resp in
        (r.body_base64 ≡ lib.encode_base64 []) × (r.body_truncated ≡ false) × (r.body_bytes ≡ pos 0)
  unfolding fill read_limited read_limit body_cap wrap64
  fill_at_max_cap res resp h = rw h (refl, refl, refl)

-- The redirects that rewrite a request, and those that keep it.
abbrev pub rewrites : ℤ → Bool
rewrites s = is_status s 301 || is_status s 302 || is_status s 303

abbrev pub preserves : ℤ → Bool
preserves s = is_status s 307 || is_status s 308

-- A request that a 301, 302 or 303 has turned into a GET without a body gets the body of the spec
-- back, as the body of a GET, when a 307 or 308 follows.
redirect_body_returns :
    (s t : ℤ) (method : String) (body : Bytes)
    → rewrites s ≡ true
    → preserves t ≡ true
    → method ≢ "GET"
    → method ≢ "HEAD"
    → (redirect_method s method body ≡ ("GET", []))
      × (redirect_method t (redirect_method s method body).0 body ≡ ("GET", body))
unfolding redirect_method
redirect_body_returns s t method body h k g d =
    ground (arith, eq_iff method "GET", eq_iff method "HEAD")
