-- ===== src/Executor/Request.antt =====
-- internal/executor/executor.go: from a request spec to a URL, a body, an HTTP request and a client.
-- Go's net/url, encoding/base64, fmt and the checks of http.NewRequest are the record Library.
use Prim.Native.String.{◌++◌ as ◌<>◌}
use apipact_agent.Prelude.{
  ℕ, ◌+◌, ◌-◌, ◌*◌, String, Bool, ◌||◌, not, Option, List, [], ◌∷◌, ◌=ₛ◌, if◌then◌else◌, Result, ok,
  err,
}
use apipact_agent.Prelude.Int.{ℤ, pos, negsuc, not_positive, wrap64}
use apipact_agent.Protocol.{NameValue, RequestSpec, accept_encoding_gzip, http2_disable}
use apipact_agent.Executor.Errors.{GoError}
use apipact_agent.Executor.Text.{is_blank}
use apipact_agent.Executor.Headers.{Header, append_value, apply_headers}

abbrev pub Bytes : Type 0
Bytes = List ℕ

pub record Library : Type 1 where
  pub Url : Type 0
  pub parse_url : String → Result String Url
  pub scheme : Url → String
  pub host : Url → String
  pub hostname : Url → String
  pub url_text : Url → String
  -- u.Query(), url.Values.Encode and the assignment to u.RawQuery
  pub query : Url → Header
  pub encode_values : Header → String
  pub set_raw_query : Url → String → Url
  -- u.Parse(ref)
  pub resolve : Url → String → Result String Url
  pub quote : String → String
  pub to_upper : String → String
  pub decode_base64 : String → Result String Bytes
  pub encode_base64 : Bytes → String
  -- the error of http.NewRequestWithContext for a method and a URL
  pub request_error : String → String → Option GoError

module _ (lib : Library) where
  -- for _, kv := range spec.Query { q.Add(kv.Name, kv.Value) }
  unfoldable pub add_query : List NameValue → Header → Header
  add_query [] q = q
  add_query (kv ∷ kvs) q = add_query kvs (append_value kv.name kv.value q)

  unfoldable pub with_query : List NameValue → lib.Url → lib.Url
  unfolding add_query
  with_query [] u = u
  with_query (kv ∷ kvs) u =
      lib.set_raw_query u (lib.encode_values (add_query (kv ∷ kvs) (lib.query u)))

  -- buildURL
  unfoldable pub build_url : RequestSpec → Result String lib.Url
  unfolding with_query is_blank
  build_url spec = if is_blank spec.url then err "empty url" else elim (lib.parse_url spec.url) [
    | err e ↦ err ("bad url: " <> e)
    | ok u ↦
        if (lib.scheme u =ₛ "http") || (lib.scheme u =ₛ "https")
        then ok (with_query spec.query u)
        else err ("unsupported scheme " <> lib.quote (lib.scheme u))
  ]

  -- decodeBody
  unfoldable pub decode_body : String → Result String Bytes
  decode_body b64 = if b64 =ₛ "" then ok [] else lib.decode_base64 b64

-- time.Duration(ms) * time.Millisecond, for ms > 0
unfoldable pub duration_ms : ℤ → ℤ
duration_ms (pos ms) = wrap64 (pos (ms * 1_000_000))
duration_ms (negsuc ms) = wrap64 (negsuc ((ms + 1) * 1_000_000 - 1))

-- durMs
unfoldable pub dur_ms : ℤ → ℤ
unfolding duration_ms
dur_ms ms = if not_positive ms then pos 0 else duration_ms ms

-- The duration of a knob of Timeouts, or the default where it is not set.
unfoldable pub timeout_or : ℤ → ℤ → ℤ
unfolding duration_ms
timeout_or default ms = if not_positive ms then default else duration_ms ms

abbrev pub default_connect_timeout : ℤ
default_connect_timeout = pos 10_000_000_000

abbrev pub default_tls_timeout : ℤ
default_tls_timeout = pos 10_000_000_000

abbrev pub default_total_timeout : ℤ
default_total_timeout = pos 30_000_000_000

-- firstNonEmpty
unfoldable pub first_non_empty : List String → String
first_non_empty [] = ""
first_non_empty (v ∷ vs) = if v =ₛ "" then first_non_empty vs else v

-- The knobs of the http.Client that buildClient makes; it never follows a redirect itself.
pub record Client : Type 0 where
  pub connect_timeout : ℤ
  pub tls_handshake_timeout : ℤ
  pub disable_keep_alives : Bool
  pub disable_compression : Bool
  pub force_attempt_http2 : Bool
  pub response_header_timeout : ℤ
  pub insecure_skip_verify : Bool
  pub server_name : String
  -- TLSNextProto is the empty map
  pub no_http2_upgrade : Bool

-- buildClient, for a URL with this host name
unfoldable pub build_client : RequestSpec → String → Client
unfolding timeout_or dur_ms first_non_empty
build_client spec hostname = record {
  connect_timeout = timeout_or default_connect_timeout spec.timeouts.connect_ms;
  tls_handshake_timeout = timeout_or default_tls_timeout spec.timeouts.tls_ms;
  disable_keep_alives = not spec.reuse_connection;
  disable_compression = not (spec.accept_encoding =ₛ accept_encoding_gzip);
  force_attempt_http2 = not (spec.http2 =ₛ http2_disable);
  response_header_timeout = dur_ms spec.timeouts.response_header_ms;
  insecure_skip_verify = spec.insecure_skip_verify;
  server_name = first_non_empty (spec.sni ∷ spec.host_override ∷ hostname ∷ []);
  no_http2_upgrade = spec.http2 =ₛ http2_disable;
}

-- The request that doOnce hands to its client. An empty body is sent as no body.
pub record HttpRequest : Type 0 where
  pub method : String
  pub url : String
  pub host : String
  pub header : Header
  pub body : Bytes

unfoldable pub build_request :
    (lib : Library) → RequestSpec → String → lib.Url → Bytes → HttpRequest
unfolding apply_headers
build_request lib spec method u body =
    let applied = apply_headers spec (lib.host u) in
    record {
      method = method;
      url = lib.url_text u;
      host = applied.host;
      header = applied.header;
      body = body;
    }
