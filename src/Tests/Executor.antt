-- ===== src/Tests/Executor.antt =====
-- internal/executor/executor.go on a request whose redirect leads to a page.
use apipact_agent.Prelude.{
  ℕ, ◌+◌, ◌-◌, ◌^◌, ◌<◌, min, String, ◌≡◌, true, false, none, [], ◌∷◌, arith, ◌=ₛ◌, ltb, ◌==◌,
  if◌then◌else◌, ok, length, take,
}
use apipact_agent.Prelude.Int.{pos}
use apipact_agent.Protocol.{RequestSpec}
use apipact_agent.Executor.Request.{Library}
use apipact_agent.Executor.Execute.{
  no_timing, blank_result, body_cap, fill, execute, Response, Exchanger,
}
use apipact_agent.Executor.Execute.Laws.{execute-IsOutcome, IsOutcome}
use apipact_agent.Executor.Execute.Capture.{fill_captures}

abbrev pub spec : RequestSpec
spec = record {
  id = "r1";
  method = "post";
  url = "https://example.com/";
  headers =
      record { name = "x-test"; value = "1" }
      ∷ record { name = "user-agent"; value = "probe" }
      ∷ [];
  host_override = "";
  sni = "";
  query = [];
  body_base64 = "aGk=";
  follow_redirects = true;
  max_redirects = pos 3;
  insecure_skip_verify = false;
  timeouts = record {
    connect_ms = pos 0;
    tls_ms = pos 0;
    response_header_ms = pos 0;
    total_ms = pos 0;
  };
  max_body_bytes = pos 2;
  reuse_connection = false;
  http2 = "";
  accept_encoding = "";
  capture_cert_chain = false;
}

abbrev pub library : Library
library = record {
  Url = String;
  parse_url = ok;
  scheme = λ u. "https";
  host = λ u. "example.com";
  hostname = λ u. "example.com";
  url_text = λ u. u;
  query = λ u. [];
  encode_values = λ q. "";
  set_raw_query = λ u q. u;
  resolve = λ u ref. ok ref;
  quote = λ s. s;
  to_upper = λ s. if s =ₛ "post" then "POST" else s;
  decode_base64 = λ s. ok (104 ∷ 105 ∷ []);
  encode_base64 = λ b. if length b == 0 then "" else "cGE=";
  request_error = λ method url. none;
}

abbrev moved : Response
moved = record {
  status_code = pos 307;
  proto = "HTTP/1.1";
  header = ("Location", "https://example.com/page" ∷ []) ∷ [];
  body = [];
  tls = none;
}

abbrev page : Response
page = record {
  status_code = pos 200;
  proto = "HTTP/1.1";
  header = [];
  body = 112 ∷ 97 ∷ 103 ∷ 101 ∷ [];
  tls = none;
}

-- The first exchange is answered by the redirect, the others by the page.
abbrev pub site : Exchanger
site = record {
  World = ℕ;
  exchange = λ w ms client req. record {
    outcome = ok (if w == 0 then moved else page);
    timing = no_timing;
    world = w + 1;
  };
  certs_to_pem = λ certs. [];
}

execute-IsOutcome_example : IsOutcome library site 100 spec (execute library site 100 spec 0)
execute-IsOutcome_example = execute-IsOutcome library site 100 spec 0

small_cap : body_cap 100 spec + 1 < 2 ^ 63
unfolding body_cap
small_cap = omega arith

fill_captures_example :
    let cap = body_cap 100 spec in
    let r = fill library site 100 spec (blank_result "r1") page in
    (r.body_base64 ≡ library.encode_base64 (take cap page.body))
    × (r.body_truncated ≡ ltb cap (length page.body))
    × (r.body_bytes ≡ pos (min cap (length page.body)))
fill_captures_example = fill_captures library site 100 spec (blank_result "r1") page small_cap

abbrev huge : RequestSpec
huge = record spec { max_body_bytes = pos (2 ^ 63 - 1) }
