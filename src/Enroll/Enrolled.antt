-- ===== src/Enroll/Enrolled.antt =====
-- internal/enroll/enroll.go: what a successful enrollment has checked and what it returns.
use Prim.Native.String.{◌++◌ as ◌<>◌}
use apipact_agent.Prelude.{
  ◌≤◌, ◌<◌, String, ◌≡◌, sym, ◌≢◌, inl, inr, ◌||◌, none, some, true, if◌then◌else◌, arith, ◌=ₛ◌,
  eq_iff, ◌==◌, Bool-cases, Option-cases, Result, ok, err, Result-cases, length, take,
}
use apipact_agent.Protocol.Channels.{valid_agent_id}
use apipact_agent.Prelude.Int.{pos}
use apipact_agent.Secure.{generate_agent_keys, KeyPair, Envelope}
use apipact_agent.Config.{validate, Config, Addresses}
use apipact_agent.Config.Ready.{validate-IsReady, IsReady}
use apipact_agent.Enroll.{
  enroll_path, max_reply_bytes, trim_right_slashes, hostname, agent_sign_key_id, build_config,
  enroll_request, accept_reply, read_reply, enroll, Reply, Options, HttpReply, Online, World,
}

module _ (lib : Envelope) (online : Online) (addresses : Addresses) where
  -- The course of an enrollment that succeeds.
  pub record IsEnrolled (world : World) (opts : Options) (c : Config) : Type 0 where
    pub recipient : KeyPair
    pub signing : KeyPair
    pub reply : Reply
    pub http_reply : HttpReply
    pub has_token : opts.token ≢ ""
    pub has_base_url : opts.cloud_base_url ≢ ""
    pub recipient_from : world.recipient ≡ ok recipient
    pub signing_from : world.signing ≡ ok signing
    pub sendable :
        world.request_error (trim_right_slashes opts.cloud_base_url <> enroll_path) ≡ none
    pub posted :
        world.post (trim_right_slashes opts.cloud_base_url <> enroll_path) (
          online.marshal (record {
            token = opts.token;
            name = opts.name;
            labels = opts.labels;
            recipient_public = lib.encode_public_key recipient.public;
            sign_public = lib.encode_signing_public signing.public;
            hostname = elim world.host [ none ↦ "" | some h ↦ h ];
            os = world.os;
            arch = world.arch;
            agent_version = world.version;
          }))
        ≡ ok http_reply
    pub accepted : (200 ≤ http_reply.code) × (http_reply.code < 300)
    pub reply_from : online.unmarshal (take max_reply_bytes http_reply.body) ≡ ok reply
    pub has_signers : length reply.cloud_signers ≢ 0
    pub has_cloud_key : reply.cloud_public ≢ ""
    pub valid_id : valid_agent_id reply.agent_id ≡ true
    pub has_publish_key : reply.pushflo.publish_key ≢ ""
    pub config_from : c ≡ record {
      agent_id = reply.agent_id;
      name = if reply.name =ₛ "" then opts.name else reply.name;
      labels = opts.labels;
      cloud_base_url = opts.cloud_base_url;
      pushflo = reply.pushflo;
      keys = record {
        recipient_public = lib.encode_public_key recipient.public;
        recipient_private = lib.encode_private_key recipient.private;
        cloud_signers = reply.cloud_signers;
        cloud_public = reply.cloud_public;
        sign_private = lib.encode_signing_private signing.private;
        sign_key_id = "agent-" <> (reply.agent_id <> "-1");
        recipient_key_id = reply.recipient_key_id;
        cloud_recipient_id = reply.cloud_recipient_id;
      };
      egress = reply.egress;
      return = reply.return;
      update = record {
        mode = reply.update.mode;
        channel = reply.update.channel;
        manifest_url = reply.update.manifest_url;
        release_signer = reply.update.release_signer;
        pinned_version = "";
        poll_interval = reply.update.poll_interval;
      };
      limits = record {
        max_concurrency = reply.limits.max_concurrency;
        max_body_bytes = reply.limits.max_body_bytes;
        clock_skew_sec = reply.limits.clock_skew_sec;
        replay_ttl_sec = reply.limits.replay_ttl_sec;
        heartbeat_sec = pos 0;
      };
    }
    pub valid : IsReady addresses c

  abbrev Accepts : Options → Reply → KeyPair → KeyPair → Config → Type 0
  Accepts opts er recipient signing c =
      (length er.cloud_signers ≢ 0)
      × (er.cloud_public ≢ "")
      × (valid_agent_id er.agent_id ≡ true)
      × (er.pushflo.publish_key ≢ "")
      × (c ≡ build_config lib opts er recipient signing)
      × (validate addresses c ≡ none)

  accept_reply-Accepts :
      (opts : Options) (er : Reply) (recipient signing : KeyPair) (c : Config)
      → accept_reply lib addresses opts er recipient signing ≡ ok c
      → Accepts opts er recipient signing c
  unfolding accept_reply
  accept_reply-Accepts opts er recipient signing c h =
      elim (Bool-cases (valid_agent_id er.agent_id)) [
        | inr b ↦ absurd (ground (arith, b))
        | inl a ↦
            elim (Bool-cases (
              (er.pushflo.publish_key =ₛ "")
              || (er.cloud_public =ₛ "")
              || length er.cloud_signers == 0)) [
                | inl b ↦ absurd (ground (arith, a, b))
                | inr b ↦
                    elim (Option-cases
                      (validate addresses (build_config lib opts er recipient signing))) [
                        | inr (e, q) ↦ absurd (ground (arith, a, b, q))
                        | inl q ↦
                            let same : build_config lib opts er recipient signing ≡ c =
                              ground (arith, a, b, q, h) in
                            (
                              ground (arith, b),
                              ground (arith, b, eq_iff er.cloud_public ""),
                              a,
                              ground (arith, b, eq_iff er.pushflo.publish_key ""),
                              sym same,
                              rw same at q,
                            )
                      ]
              ]
      ]

  read_reply-ok :
      (opts : Options) (r : HttpReply) (recipient signing : KeyPair) (c : Config)
      → read_reply lib online addresses opts r recipient signing ≡ ok c
      → (er : Reply) × (200 ≤ r.code)
        × (r.code < 300)
        × (online.unmarshal (take max_reply_bytes r.body) ≡ ok er)
        × (accept_reply lib addresses opts er recipient signing ≡ ok c)
  unfolding read_reply
  read_reply-ok opts r recipient signing c h =
      elim (Result-cases (online.unmarshal (take max_reply_bytes r.body))) [
        | inr (e, q) ↦ absurd (ground (arith, q))
        | inl (er, q) ↦ (er, ground (arith, q, h), ground (arith, q, h), q, ground (arith, q, h))
      ]

  -- The course of Enroll up to the HTTP reply.
  abbrev Posts : World → Options → Config → Type 0
  Posts world opts c =
      (recipient : KeyPair) × (signing : KeyPair) × (r : HttpReply) × (opts.token ≢ "")
      × (opts.cloud_base_url ≢ "")
      × (world.recipient ≡ ok recipient)
      × (world.signing ≡ ok signing)
      × (world.request_error (trim_right_slashes opts.cloud_base_url <> enroll_path) ≡ none)
      × (world.post (trim_right_slashes opts.cloud_base_url <> enroll_path)
            (online.marshal (enroll_request lib opts world recipient signing))
          ≡ ok r)
      × (read_reply lib online addresses opts r recipient signing ≡ ok c)

  keys_generated :
      (a b : Result String KeyPair) (recipient signing : KeyPair)
      → generate_agent_keys a b ≡ ok (recipient, signing)
      → (a ≡ ok recipient) × (b ≡ ok signing)
  unfolding generate_agent_keys
  keys_generated (err e) b recipient signing h = absurd (ground arith)
  keys_generated (ok x) (err e) recipient signing h = absurd (ground arith)
  keys_generated (ok x) (ok y) recipient signing h = ground arith

  enroll-Posts :
      (world : World) (opts : Options) (c : Config)
      → enroll lib online addresses world opts ≡ ok c
      → Posts world opts c
  unfolding enroll
  enroll-Posts world opts c h =
      let url = trim_right_slashes opts.cloud_base_url <> enroll_path in
      elim (Bool-cases (opts.token =ₛ "")) [
        | inl x ↦ absurd (ground (arith, x))
        | inr x ↦ elim (Bool-cases (opts.cloud_base_url =ₛ "")) [
          | inl y ↦ absurd (ground (arith, x, y))
          | inr y ↦ elim (Result-cases (generate_agent_keys world.recipient world.signing)) [
            | inr (e, q) ↦ absurd (ground (arith, x, y, q))
            | inl ((recipient, signing), k) ↦
                let raw = online.marshal (enroll_request lib opts world recipient signing) in
                let (a, b) = keys_generated world.recipient world.signing recipient signing k in
                elim (Option-cases (world.request_error url)) [
                  | inr (e, q) ↦ absurd (ground (arith, x, y, k, q))
                  | inl z ↦ elim (Result-cases (world.post url raw)) [
                    | inr (e, q) ↦ absurd (ground (arith, x, y, k, z, q))
                    | inl (r, w) ↦ (
                      recipient,
                      signing,
                      r,
                      ground (arith, x, eq_iff opts.token ""),
                      ground (arith, y, eq_iff opts.cloud_base_url ""),
                      a,
                      b,
                      z,
                      w,
                      rw (x, y, k, z, w, enroll) at h,
                    )
                  ]
                ]
          ]
        ]
      ]

  -- An enrollment that succeeds had a token and the cloud's URL, sent the public halves of two fresh
  -- key pairs, got a 2xx reply with a valid agent id, a publish key, the cloud's public key and at
  -- least one signer, and returns the configuration that holds what the reply names and the private
  -- halves of the same two pairs, which passes validation.
  pub enroll-IsEnrolled :
      (world : World) (opts : Options) (c : Config)
      → enroll lib online addresses world opts ≡ ok c
      → IsEnrolled world opts c
  unfolding enroll_request build_config hostname agent_sign_key_id
  enroll-IsEnrolled world opts c h =
      let (recipient, signing, r, x, y, a, b, z, w, read) = enroll-Posts world opts c h in
      let (er, low, high, q, done) = read_reply-ok opts r recipient signing c read in
      let (n, k, vid, key, e, v) = accept_reply-Accepts opts er recipient signing c done in
      record {
        recipient = recipient;
        signing = signing;
        reply = er;
        http_reply = r;
        has_token = x;
        has_base_url = y;
        recipient_from = a;
        signing_from = b;
        sendable = z;
        posted = w;
        accepted = (low, high);
        reply_from = q;
        has_signers = n;
        has_cloud_key = k;
        valid_id = vid;
        has_publish_key = key;
        config_from = e;
        valid = (validate-IsReady addresses c).0 v;
      }
