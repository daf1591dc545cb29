-- ===== src/Executor/Headers.antt =====
-- internal/executor/executor.go, applyHeaders: the headers of a request spec on an HTTP request.
-- An http.Header is a map from names, as they are spelled, to lists of values.
pub mod Laws
use apipact_agent.Prelude.{
  ◌+◌, ◌-◌, String, Bool, true, false, ◌&&◌, Option, none, some, List, [], ◌∷◌, ◌++◌, ◌=ₛ◌,
  if◌then◌else◌,
}
use apipact_agent.Prelude.Dict.{Dict, lookup, insert}
use apipact_agent.Protocol.{NameValue, RequestSpec, accept_encoding_identity}
use apipact_agent.Executor.Text.{equal_fold}

abbrev pub Header : Type 0
Header = Dict (List String)

abbrev pub or_nil : Option (List String) → List String
or_nil none = []
or_nil (some vs) = vs

-- header[name] = append(header[name], value)
unfoldable pub append_value : String → String → Header → Header
append_value name value m = insert name (or_nil (lookup name m) ++ value ∷ []) m

abbrev pub first_or_empty : List String → String
first_or_empty [] = ""
first_or_empty (v ∷ vs) = v

-- Header.Get of a name in its canonical spelling
unfoldable pub get_header : String → Header → String
get_header name m = first_or_empty (or_nil (lookup name m))

pub record Applied : Type 0 where
  pub host : String
  pub header : Header
  pub has_ua : Bool

-- The body of the loop over spec.Headers.
unfoldable pub apply_header : String → NameValue → Applied → Applied
apply_header host_override h st =
    if equal_fold h.name "Host"
    then (if host_override =ₛ "" then record st { host = h.value } else st)
    else if equal_fold h.name "User-Agent"
    then record st { header = append_value h.name h.value st.header; has_ua = true }
    else record st { header = append_value h.name h.value st.header }

unfoldable pub apply_loop : String → List NameValue → Applied → Applied
apply_loop host_override [] st = st
apply_loop host_override (h ∷ hs) st = apply_loop host_override hs (apply_header host_override h st)

-- What applyHeaders does after the loop.
unfoldable pub finish_headers : RequestSpec → Applied → Applied
unfolding get_header
finish_headers spec st =
    let host = if spec.host_override =ₛ "" then st.host else spec.host_override in
    let header = if st.has_ua then st.header else insert "User-Agent" [] st.header in
    record {
      host = host;
      header =
          if (spec.accept_encoding =ₛ accept_encoding_identity)
            && (get_header "Accept-Encoding" header =ₛ "")
          then insert "Accept-Encoding" ("identity" ∷ []) header
          else header;
      has_ua = st.has_ua;
    }

-- applyHeaders, on a new request with the host of its URL
unfoldable pub apply_headers : RequestSpec → String → Applied
unfolding apply_loop finish_headers
apply_headers spec host = finish_headers spec (
    apply_loop spec.host_override spec.headers
      (record { host = host; header = []; has_ua = false }))
