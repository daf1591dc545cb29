-- ===== src/Executor/Errors.antt =====
-- internal/executor/executor.go, classify and isTimeout: how a Go error becomes a structured one.
-- A Go error is its text and its chain of wrapped errors, outermost first, each by what errors.As
-- and errors.Is can tell of it here.
use apipact_agent.Prelude.{
  String, ◌≡◌, ◌↔◌, ◌⊎◌, Bool, true, false, ◌||◌, Option, none, some, List, [], ◌∷◌, arith,
  if◌then◌else◌, any,
}
use apipact_agent.Protocol.{ExecError, ErrKind}

-- `dns_error` carries IsTemporary and Timeout(), `op_error` and `with_timeout` carry Timeout(); the
-- last is any other type with that method, such as the *url.Error of an HTTP client.
pub data Layer : Type 0 where
  egress_blocked : Layer
  dns_error : Bool → Bool → Layer
  cert_verification : Layer
  record_header : Layer
  deadline_exceeded : Layer
  op_error : Bool → Layer
  with_timeout : Bool → Layer
  plain : Layer

pub record GoError : Type 0 where
  pub text : String
  pub layers : List Layer

abbrev pub is_blocked : Layer → Bool
is_blocked egress_blocked = true
is_blocked _ = false

abbrev pub is_cert : Layer → Bool
is_cert cert_verification = true
is_cert _ = false

abbrev pub is_record : Layer → Bool
is_record record_header = true
is_record _ = false

abbrev pub is_deadline : Layer → Bool
is_deadline deadline_exceeded = true
is_deadline _ = false

abbrev pub is_op : Layer → Bool
is_op (op_error t) = true
is_op _ = false

-- errors.As for *net.DNSError, with the IsTemporary of the first one in the chain.
unfoldable pub find_dns : List Layer → Option Bool
find_dns [] = none
find_dns (dns_error temporary t ∷ ls) = some temporary
find_dns (l ∷ ls) = find_dns ls

-- isTimeout: the Timeout() of the first error in the chain that has the method.
unfoldable pub is_timeout : List Layer → Bool
is_timeout [] = false
is_timeout (dns_error temporary t ∷ ls) = t
is_timeout (op_error t ∷ ls) = t
is_timeout (with_timeout t ∷ ls) = t
is_timeout (deadline_exceeded ∷ ls) = true
is_timeout (l ∷ ls) = is_timeout ls

abbrev exec_error : ErrKind → GoError → Bool → ExecError
exec_error k e retry = record { kind = k; message = e.text; retryable = retry }

-- The part of classify after the test for a DNS error.
unfoldable pub classify_connected : GoError → ExecError
classify_connected e =
    if any is_cert e.layers
    then exec_error ErrKind.tls e false
    else if any is_record e.layers
    then exec_error ErrKind.tls e false
    else if any is_deadline e.layers || is_timeout e.layers
    then exec_error ErrKind.timeout e true
    else if any is_op e.layers
    then exec_error ErrKind.connect e true
    else exec_error ErrKind.http e false

-- classify
unfoldable pub classify : GoError → ExecError
unfolding classify_connected
classify e =
    if any is_blocked e.layers
    then exec_error ErrKind.blocked e false
    else elim (find_dns e.layers) [
      | some temporary ↦ exec_error ErrKind.dns e temporary
      | none ↦ classify_connected e
    ]

-- An egress denial anywhere in the chain, under whatever wrappers and beside whatever other errors,
-- is reported as "blocked" and as not to be retried; no other error is reported as "blocked".
pub classify-blocked_iff :
    (e : GoError) → (any is_blocked e.layers ≡ true) ↔ ((classify e).kind ≡ ErrKind.blocked)
unfolding classify
classify-blocked_iff e = ground arith

-- An error is reported as retryable exactly when no egress denial is in its chain, and it is a DNS
-- error that says it is temporary, or it is no DNS error, certificate error or TLS record error, and
-- it is a timeout or a failed network operation.
classify-retryable_iff :
    (e : GoError)
    → ((classify e).retryable ≡ true) ↔ (
        (any is_blocked e.layers ≡ false)
        × ((find_dns e.layers ≡ some true)
            ⊎ ((find_dns e.layers ≡ none)
                × (any is_cert e.layers ≡ false)
                × (any is_record e.layers ≡ false)
                × ((any is_deadline e.layers || (is_timeout e.layers || any is_op e.layers))
                    ≡ true))))
unfolding classify
classify-retryable_iff e = ground arith
