-- ===== src/Executor/Redirect.antt =====
-- internal/executor/executor.go, isRedirect and redirectMethod.
use apipact_agent.Prelude.{ℕ, String, Bool, false, ◌&&◌, ◌||◌, not, [], ◌=ₛ◌, ◌==◌, if◌then◌else◌}
use apipact_agent.Prelude.Int.{ℤ, pos, negsuc}
use apipact_agent.Executor.Request.{Bytes}

-- A status code against a positive one.
abbrev pub is_status : ℤ → ℕ → Bool
is_status (pos n) k = n == k
is_status (negsuc n) k = false

-- isRedirect
unfoldable pub is_redirect : ℤ → Bool
is_redirect s =
    is_status s 301 || is_status s 302 || is_status s 303 || is_status s 307 || is_status s 308

-- redirectMethod
unfoldable pub redirect_method : ℤ → String → Bytes → String × Bytes
redirect_method s method body =
    if is_status s 307 || is_status s 308
    then (method, body)
    else if not (method =ₛ "GET") && not (method =ₛ "HEAD")
    then ("GET", [])
    else (method, [])
