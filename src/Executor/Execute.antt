-- ===== src/Executor/Execute.antt =====
-- internal/executor/executor.go: Engine.Execute, doOnce and fill.
-- The network behind an http.Client is the record Exchanger: a request under a client's knobs gives
-- a response or an error within the total timeout, the timings that the trace hooks took, and the next state.
pub mod Laws
pub mod Capture
pub mod Preserved
use apipact_agent.Prelude.{
  ℕ, zero, suc, ◌+◌, ◌<◌, String, Bool, false, ◌&&◌, Option, none, some, List, [], ◌∷◌, ◌++◌, ◌=ₛ◌,
  ltb, if◌then◌else◌, Result, ok, err, length, take,
}
use apipact_agent.Prelude.Int.{ℤ, pos, negsuc, pos_part, not_positive, wrap64}
use apipact_agent.Protocol.{
  NameValue, Time, Timing, TlsInfo, RedirectHop, ErrKind, RequestSpec, ResponseResult,
  body_encoding_base64, body_encoding_truncated,
}
use apipact_agent.Executor.Errors.{GoError, classify}
use apipact_agent.Executor.Text.{trim_space}
use apipact_agent.Executor.Headers.{Header, get_header}
use apipact_agent.Executor.Request.{
  Bytes, build_url, decode_body, timeout_or, default_total_timeout, build_client, build_request,
  Library, Client, HttpRequest,
}
use apipact_agent.Executor.Redirect.{is_redirect, redirect_method}
use Prim.Native.String.{◌++◌ as ◌<>◌}

pub record Cert : Type 0 where
  pub not_before : Time
  pub not_after : Time
  pub issuer : String
  pub subject : String
  pub dns_names : List String
  pub raw : Bytes

-- tls.ConnectionState, with the names of its version and its cipher suite.
pub record ConnectionState : Type 0 where
  pub version_name : String
  pub cipher_suite_name : String
  pub negotiated_protocol : String
  pub server_name : String
  pub peer_certificates : List Cert

-- A response whose body is still to be read: the bytes that arrive before its end or a read error.
pub record Response : Type 0 where
  pub status_code : ℤ
  pub proto : String
  pub header : Header
  pub body : Bytes
  pub tls : Option ConnectionState

pub record Exchanged (W : Type 0) : Type 0 where
  pub outcome : Result GoError Response
  pub timing : Timing
  pub world : W

pub record Exchanger : Type 1 where
  pub World : Type 0
  pub exchange : World → ℤ → Client → HttpRequest → Exchanged World
  pub certs_to_pem : List Cert → List String

abbrev pub no_timing : Timing
no_timing = record {
  dns_ms = pos 0;
  connect_ms = pos 0;
  tls_ms = pos 0;
  ttfb_ms = pos 0;
  total_ms = pos 0;
}

-- protocol.ResponseResult{RequestID: spec.ID}
abbrev pub blank_result : String → ResponseResult
blank_result id = record {
  request_id = id;
  status = pos 0;
  proto = "";
  headers = [];
  body_encoding = "";
  body_base64 = "";
  body_truncated = false;
  body_bytes = pos 0;
  timing = no_timing;
  redirect_chain = [];
  tls = none;
  error = none;
}

abbrev pub with_error : ResponseResult → ErrKind → String → ResponseResult
with_error res k msg = record res {
  error = some (record { kind = k; message = msg; retryable = false });
}

-- flattenHeaders, in an order of the map's entries
unfoldable pub name_values : String → List String → List NameValue
name_values name [] = []
name_values name (v ∷ vs) = record { name = name; value = v } ∷ name_values name vs

unfoldable pub flatten_headers : Header → List NameValue
unfolding name_values
flatten_headers [] = []
flatten_headers ((name, vs) ∷ m) = name_values name vs ++ flatten_headers m

-- describeTLS
unfoldable pub describe_tls : (List Cert → List String) → ConnectionState → Bool → TlsInfo
describe_tls to_pem s include_chain =
    let info : TlsInfo = record {
      version = s.version_name;
      cipher_suite = s.cipher_suite_name;
      alpn = s.negotiated_protocol;
      server_name = s.server_name;
      issuer = "";
      subject = "";
      dns_names = [];
      not_before = none;
      not_after = none;
      peer_certs_pem = [];
    } in
    elim s.peer_certificates [
      | [] ↦ info
      | leaf ∷ others ↦ record info {
        issuer = leaf.issuer;
        subject = leaf.subject;
        dns_names = leaf.dns_names;
        not_before = some leaf.not_before;
        not_after = some leaf.not_after;
        peer_certs_pem = if include_chain then to_pem s.peer_certificates else [];
      }
    ]

-- io.ReadAll(io.LimitReader(body, n)): no byte is read if n <= 0.
unfoldable pub read_limited : ℤ → Bytes → Bytes
read_limited (pos n) body = take n body
read_limited (negsuc n) body = []

-- The cap on a captured body: the spec's, or the engine's default.
unfoldable pub body_cap : ℕ → RequestSpec → ℕ
body_cap default_max_body spec =
    if not_positive spec.max_body_bytes then default_max_body else pos_part spec.max_body_bytes

-- maxBody+1, in int64
unfoldable pub read_limit : ℕ → ℤ
read_limit n = wrap64 (pos (n + 1))

-- The engine's DefaultMaxBody is a natural number: with a negative one, fill would panic.
module _ (lib : Library) (net : Exchanger) (default_max_body : ℕ) (spec : RequestSpec) where
  -- fill
  unfoldable pub fill : ResponseResult → Response → ResponseResult
  unfolding read_limited body_cap read_limit
  fill res resp =
      let max_body = body_cap default_max_body spec in
      let raw = read_limited (read_limit max_body) resp.body in
      let truncated = ltb max_body (length raw) in
      let kept = if truncated then take max_body raw else raw in
      record res {
        status = resp.status_code;
        proto = resp.proto;
        headers = flatten_headers resp.header;
        body_encoding = if truncated then body_encoding_truncated else body_encoding_base64;
        body_base64 = lib.encode_base64 kept;
        body_truncated = truncated;
        body_bytes = pos (length kept);
        tls = elim resp.tls [
          | none ↦ res.tls
          | some s ↦ some (describe_tls net.certs_to_pem s spec.capture_cert_chain)
        ];
      }

  -- doOnce: a request that cannot be built is not sent.
  unfoldable pub do_once : net.World → String → lib.Url → Bytes → Exchanged net.World
  unfolding build_client build_request timeout_or
  do_once w method u body = elim (lib.request_error method (lib.url_text u)) [
    | some e ↦ record { outcome = err e; timing = no_timing; world = w }
    | none ↦
        net.exchange w (timeout_or default_total_timeout spec.timeouts.total_ms)
          (build_client spec (lib.hostname u)) (build_request lib spec method u body)
  ]

  -- The result of Execute, with the requests that it made and the state after.
  pub record Executed : Type 0 where
    pub result : ResponseResult
    pub sent : List (String × lib.Url × Bytes)
    pub world : net.World

  -- The terminal response of the loop.
  abbrev pub terminal : ResponseResult → Response → Exchanged net.World → ResponseResult
  terminal res resp x = record (fill res resp) { timing = x.timing }

  -- A redirect: the hop is recorded, and the loop goes on from the next URL if there is one.
  unfoldable pub follow :
      ResponseResult
      → (String → lib.Url → Bytes → ResponseResult → net.World → Executed)
      → String
      → lib.Url
      → Bytes
      → Response
      → net.World
      → Executed
  follow res again method u body resp w =
      let loc = get_header "Location" resp.header in
      let hop : RedirectHop = record {
        status = resp.status_code;
        location = loc;
        url = lib.url_text u;
      } in
      let res' = record res { redirect_chain = res.redirect_chain ++ hop ∷ [] } in
      let stop : Executed = record {
        result = with_error res' ErrKind.http ("invalid redirect Location: " <> loc);
        sent = [];
        world = w;
      } in
      elim (lib.resolve u loc) [
        | err e ↦ stop
        | ok next ↦
            let (method', body') = redirect_method resp.status_code method body in
            if loc =ₛ "" then stop else again method' next body' res' w
      ]

  -- What the loop does with the answer of an exchange; `again` is the next round, if a redirect is
  -- left to follow, and `body` the body of the spec, which redirectMethod is given.
  unfoldable pub answer :
      Option (String → lib.Url → Bytes → ResponseResult → net.World → Executed)
      → Bytes
      → String
      → lib.Url
      → ResponseResult
      → Exchanged net.World
      → Result GoError Response
      → Executed
  unfolding follow fill
  answer again body method u res x (err e) = record {
    result = record res { timing = x.timing; error = some (classify e) };
    sent = [];
    world = x.world;
  }
  answer none body method u res x (ok resp) = record {
    result = terminal res resp x;
    sent = [];
    world = x.world;
  }
  answer (some again) body method u res x (ok resp) =
      if spec.follow_redirects && is_redirect resp.status_code
      then follow res again method u body resp x.world
      else record { result = terminal res resp x; sent = []; world = x.world }

  abbrev pub sending : String → lib.Url → Bytes → Executed → Executed
  sending method u body out = record out { sent = (method, u, body) ∷ out.sent }

  -- The loop of Execute with `left` redirects still to follow, so that hop = maxRedirects - left.
  unfoldable pub execute_loop :
      ℕ → Bytes → String → lib.Url → Bytes → ResponseResult → net.World → Executed
  unfolding answer do_once
  execute_loop zero body method u cur_body res w =
      let x = do_once w method u cur_body in
      sending method u cur_body (answer none body method u res x x.outcome)
  execute_loop (suc left) body method u cur_body res w =
      let x = do_once w method u cur_body in
      sending method u cur_body (
        answer (some (λ m v b r t. execute_loop left body m v b r t)) body method u res x x.outcome)

  -- maxRedirects
  unfoldable pub max_redirects : ℕ
  max_redirects =
      if spec.follow_redirects
      then (if not_positive spec.max_redirects then 10 else pos_part spec.max_redirects)
      else 0

  unfoldable pub first_method : String
  unfolding trim_space
  first_method = let m = lib.to_upper (trim_space spec.method) in if m =ₛ "" then "GET" else m

  unfoldable pub not_executed : net.World → String → Executed
  not_executed w msg = record {
    result = with_error (blank_result spec.id) ErrKind.invalid msg;
    sent = [];
    world = w;
  }

  -- Engine.Execute
  unfoldable pub execute : net.World → Executed
  unfolding execute_loop max_redirects first_method not_executed build_url decode_body
  execute w = elim (build_url lib spec) [
    | err e ↦ not_executed w e
    | ok u ↦ elim (decode_body lib spec.body_base64) [
      | err e ↦ not_executed w ("bad body: " <> e)
      | ok body ↦ execute_loop max_redirects body first_method u body (blank_result spec.id) w
    ]
  ]
