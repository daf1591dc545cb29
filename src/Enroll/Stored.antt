-- ===== src/Enroll/Stored.antt =====
-- internal/enroll/enroll.go: whether the configuration of an enrollment is one that Load accepts.
use apipact_agent.Prelude.{
  ◌≡◌, refl, ◌≢◌, ◌↔◌, ◌⊎◌, inl, inr, true, arith, ◌=ₛ◌, eq_iff, Bool-cases, ok,
}
use apipact_agent.Protocol.{return_channel, return_http}
use apipact_agent.Secure.{Envelope}
use apipact_agent.Config.{or_text, apply_defaults, egress_policy, load_parsed, Config, Addresses}
use apipact_agent.Config.Ready.{load_parsed-ok_iff, IsReady}
use apipact_agent.Enroll.{enroll, Options, Online, World}
use apipact_agent.Enroll.Enrolled.{enroll-IsEnrolled}

-- A configuration that names a return transport, whichever it is, or has a secret key.
abbrev pub NamesReturn : Config → Type 0
NamesReturn c = (c.return.transport ≢ "") ⊎ (c.pushflo.secret_key ≢ "")

channels_differ : return_channel ≢ return_http
channels_differ h =
    let t : (return_channel =ₛ return_http) ≡ true = (eq_iff return_channel return_http).1 h in
    absurd (ground arith)

module _ (addresses : Addresses) where
  with_defaults-IsReady :
      (c : Config) → IsReady addresses c → NamesReturn c → IsReady addresses (apply_defaults c)
  unfolding apply_defaults or_text egress_policy
  with_defaults-IsReady c i h = record {
    named = i.named;
    key = i.key;
    channel_key = elim (Bool-cases (c.return.transport =ₛ "")) [
      | inl e ↦ inr (elim h [ inl n ↦ absurd (n ((eq_iff c.return.transport "").0 e)) | inr n ↦ n ])
      | inr e ↦ rw e i.channel_key
    ];
    http_url = elim (Bool-cases (c.return.transport =ₛ "")) [
      | inl e ↦ inl (rw e (λ x. channels_differ x))
      | inr e ↦ rw e i.http_url
    ];
    policy = i.policy;
  }

  names_return : (c : Config) → IsReady addresses (apply_defaults c) → NamesReturn c
  unfolding apply_defaults or_text
  names_return c i = elim (Bool-cases (c.return.transport =ₛ "")) [
    | inl e ↦ inr (elim i.channel_key [ inl n ↦ absurd (n (rw e refl)) | inr n ↦ n ])
    | inr e ↦ inl (ground (arith, e, eq_iff c.return.transport ""))
  ]

  -- A validated configuration loads again exactly if it names a transport or has a secret key.
  ready_loads_iff :
      (c : Config)
      → IsReady addresses c
      → (load_parsed addresses c ≡ ok (apply_defaults c)) ↔ NamesReturn c
  ready_loads_iff c i =
      let (f, g) = load_parsed-ok_iff addresses c (apply_defaults c) in
      (λ h. let (_, r) = f h in names_return c r, λ h. g (refl, with_defaults-IsReady c i h))

  -- The configuration of a successful enrollment is one that Load accepts exactly if the cloud has
  -- named a return transport or given a secret key.
  pub enrolled_loads_iff :
      (lib : Envelope) (online : Online) (world : World) (opts : Options) (c : Config)
      → enroll lib online addresses world opts ≡ ok c
      → (load_parsed addresses c ≡ ok (apply_defaults c)) ↔ NamesReturn c
  enrolled_loads_iff lib online world opts c h =
      ready_loads_iff c (enroll-IsEnrolled lib online addresses world opts c h).valid
