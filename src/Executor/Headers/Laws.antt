-- ===== src/Executor/Headers/Laws.antt =====
-- internal/executor/executor.go, applyHeaders: which headers a request carries.
use mathlib.Core.List.{append_assoc}
use apipact_agent.Prelude.{
  String, ◌≡◌, refl, ap, ◌∙◌, ◌≢◌, inl, inr, Bool, true, false, ◌&&◌, ◌||◌, not, Option, none, some,
  List, [], ◌∷◌, ◌++◌, arith, ◌=ₛ◌, eq_iff, eq_refl, if◌then◌else◌, Bool-cases, any,
}
use apipact_agent.Prelude.Dict.{lookup, insert, lookup-insert}
use apipact_agent.Protocol.{NameValue, RequestSpec}
use apipact_agent.Executor.Text.{equal_fold}
use apipact_agent.Executor.Headers.{
  Header, or_nil, append_value, apply_header, apply_loop, finish_headers, apply_headers, Applied,
}

-- The values of the headers that are spelled `name`, in order.
abbrev pub values_of : String → List NameValue → List String
values_of name [] = []
values_of name (h ∷ hs) = if h.name =ₛ name then h.value ∷ values_of name hs else values_of name hs

-- A map entry after values have been appended to it.
abbrev pub extend : Option (List String) → List String → Option (List String)
extend o [] = o
extend none (v ∷ vs) = some (v ∷ vs)
extend (some us) (v ∷ vs) = some (us ++ v ∷ vs)

lookup-append_value :
    (name other value : String) (m : Header)
    → lookup name (append_value other value m)
      ≡ (if other =ₛ name then some (or_nil (lookup name m) ++ value ∷ []) else lookup name m)
unfolding append_value
lookup-append_value name other value m =
    lookup-insert other name _ m ∙ elim (Bool-cases (other =ₛ name)) [
      | inl e ↦ let same : other ≡ name = (eq_iff other name).0 e in rw (same, eq_refl name) refl
      | inr e ↦ rw e refl
    ]

abbrev one_if : Bool → String → List String
one_if b v = if b then v ∷ [] else []

apply_header-host :
    (ov : String) (x : NameValue) (st : Applied)
    → equal_fold x.name "Host" ≡ true
    → (apply_header ov x st).header ≡ st.header
unfolding apply_header
apply_header-host ov x st e = ground arith

apply_header-other :
    (ov : String) (x : NameValue) (st : Applied)
    → equal_fold x.name "Host" ≡ false
    → (apply_header ov x st).header ≡ append_value x.name x.value st.header
unfolding apply_header
apply_header-other ov x st e = ground arith

extend_one :
    (b : Bool) (o : Option (List String)) (v : String)
    → (if b then some (or_nil o ++ v ∷ []) else o) ≡ extend o (one_if b v)
extend_one true none v = refl
extend_one true (some us) v = refl
extend_one false o v = refl

extend_cons :
    (b : Bool) (o : Option (List String)) (v : String) (vs : List String)
    → extend (extend o (one_if b v)) vs ≡ extend o (if b then v ∷ vs else vs)
extend_cons false o v vs = refl
extend_cons true none v [] = refl
extend_cons true none v (w ∷ vs) = refl
extend_cons true (some us) v [] = refl
extend_cons true (some us) v (w ∷ vs) = ap some (append_assoc us (v ∷ []) (w ∷ vs))

-- One round of the loop appends the value of a header that is spelled `name`, and no other.
apply_header-lookup :
    (ov name : String) (x : NameValue) (st : Applied)
    → equal_fold name "Host" ≡ false
    → lookup name (apply_header ov x st).header
      ≡ extend (lookup name st.header) (one_if (x.name =ₛ name) x.value)
apply_header-lookup ov name x st h = elim (Bool-cases (equal_fold x.name "Host")) [
  | inl e ↦ elim (Bool-cases (x.name =ₛ name)) [
    | inl same ↦
        let same' : x.name ≡ name = (eq_iff x.name name).0 same in
        absurd (ground (arith, ap (λ n. equal_fold n "Host") same'))
    | inr differ ↦ rw (apply_header-host ov x st e, differ) refl
  ]
  | inr e ↦
      ap (λ m. lookup name m) (apply_header-other ov x st e)
      ∙ lookup-append_value name x.name x.value st.header
      ∙ extend_one (x.name =ₛ name) (lookup name st.header) x.value
]

header_loop :
    (ov name : String) (hs : List NameValue) (st : Applied)
    → equal_fold name "Host" ≡ false
    → lookup name (apply_loop ov hs st).header ≡ extend (lookup name st.header) (values_of name hs)
unfolding apply_loop
header_loop ov name [] st h = refl
header_loop ov name (x ∷ hs) st h =
    header_loop ov name hs (apply_header ov x st) h
    ∙ ap (λ o. extend o (values_of name hs)) (apply_header-lookup ov name x st h)
    ∙ extend_cons (x.name =ₛ name) (lookup name st.header) x.value (values_of name hs)

-- A header that is no Host header in any casing, and is a User-Agent header in some casing.
abbrev pub is_ua : NameValue → Bool
is_ua h = not (equal_fold h.name "Host") && equal_fold h.name "User-Agent"

has_ua_loop :
    (ov : String) (hs : List NameValue) (st : Applied)
    → (apply_loop ov hs st).has_ua ≡ (st.has_ua || any is_ua hs)
unfolding apply_loop apply_header
has_ua_loop ov [] st = ground arith
has_ua_loop ov (x ∷ hs) st = has_ua_loop ov hs (apply_header ov x st) ∙ ground arith

-- What happens after the loop touches two names only.
finish_headers-other :
    (spec : RequestSpec) (st : Applied) (name : String)
    → name ≢ "User-Agent"
    → name ≢ "Accept-Encoding"
    → lookup name (finish_headers spec st).header ≡ lookup name st.header
unfolding finish_headers
finish_headers-other spec st name u a = ground (
  arith,
  lookup-insert "User-Agent" name [] st.header,
  lookup-insert "Accept-Encoding" name ("identity" ∷ []) st.header,
  lookup-insert "Accept-Encoding" name ("identity" ∷ []) (insert "User-Agent" [] st.header),
  eq_iff "User-Agent" name,
  eq_iff "Accept-Encoding" name,
)

abbrev start : String → Applied
start host = record { host = host; header = []; has_ua = false }

loop_from_start :
    (spec : RequestSpec) (host name : String)
    → equal_fold name "Host" ≡ false
    → lookup name (apply_loop spec.host_override spec.headers (start host)).header
      ≡ extend none (values_of name spec.headers)
unfolding lookup
loop_from_start spec host name h = header_loop spec.host_override name spec.headers (start host) h

-- A request carries, under every name but Host, User-Agent and Accept-Encoding, exactly the values
-- that the spec lists under that spelling, in the spec's order and with its repetitions.
headers_verbatim :
    (spec : RequestSpec) (host name : String)
    → equal_fold name "Host" ≡ false
    → name ≢ "User-Agent"
    → name ≢ "Accept-Encoding"
    → lookup name (apply_headers spec host).header ≡ extend none (values_of name spec.headers)
unfolding apply_headers
headers_verbatim spec host name h u a =
    finish_headers-other spec (apply_loop spec.host_override spec.headers (start host)) name u a
    ∙ loop_from_start spec host name h

finish_headers-ua :
    (spec : RequestSpec) (st : Applied)
    → lookup "User-Agent" (finish_headers spec st).header
      ≡ (if st.has_ua then lookup "User-Agent" st.header else some [])
unfolding finish_headers
finish_headers-ua spec st = ground (
  arith,
  lookup-insert "User-Agent" "User-Agent" [] st.header,
  lookup-insert "Accept-Encoding" "User-Agent" ("identity" ∷ []) st.header,
  lookup-insert "Accept-Encoding" "User-Agent" ("identity" ∷ []) (insert "User-Agent" [] st.header),
)

not_host : equal_fold "User-Agent" "Host" ≡ false
unfolding equal_fold
not_host = refl

-- The entry by which net/http is kept from sending its default User-Agent: with no User-Agent
-- header in the spec, in any casing, the entry is there and empty; with one, the entry has the
-- values of the headers in the canonical spelling, and is missing if all are spelled otherwise.
user_agent_entry :
    (spec : RequestSpec) (host : String)
    → lookup "User-Agent" (apply_headers spec host).header ≡ (
        if any is_ua spec.headers
        then extend none (values_of "User-Agent" spec.headers)
        else some [])
unfolding apply_headers
user_agent_entry spec host =
    let st = apply_loop spec.host_override spec.headers (start host) in
    finish_headers-ua spec st
    ∙ ap (λ b. if b then lookup "User-Agent" st.header else some [])
        (has_ua_loop spec.host_override spec.headers (start host))
    ∙ ap (λ o. if any is_ua spec.headers then o else some [])
        (loop_from_start spec host "User-Agent" not_host)
