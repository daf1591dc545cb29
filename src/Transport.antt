-- ===== src/Transport.antt =====
-- internal/transport/transport.go: Connect and Close on a client of the relay. The pushflo package is
-- the record Relay, which says what its calls answer; a client is what has been asked of it.
use apipact_agent.Prelude.{
  String, ◌≡◌, refl, inl, inr, Bool, true, false, Option, none, some, List, [], ◌∷◌, Option-cases,
  Result, ok, err,
}
use apipact_agent.Protocol.Channels.{jobs_channel, control_channel}

-- ClientOptions
pub record ClientOptions : Type 0 where
  pub publish_key : String
  pub base_url : String
  pub debug : Bool

pub record Relay : Type 0 where
  pub new_client_error : ClientOptions → Option String
  pub connect_error : Option String
  pub subscribe_error : String → Option String

-- The subscriptions of a client, the last one first, each with its handler of type H if it has one.
pub record RelayClient (H : Type 0) : Type 0 where
  pub options : ClientOptions
  pub connected : Bool
  pub subscriptions : List (String × Option H)
  pub destroyed : Bool

pub record Handlers (H : Type 0) : Type 0 where
  pub on_job : Option H
  pub on_control : Option H

pub record TransportOptions : Type 0 where
  pub agent_id : String
  pub publish_key : String
  pub base_url : String
  pub debug : Bool

module _ {H : Type 0} (relay : Relay) where
  unfoldable pub new_client : ClientOptions → Result String (RelayClient H)
  new_client o = elim (relay.new_client_error o) [
    | some e ↦ err e
    | none ↦ ok (record { options = o; connected = false; subscriptions = []; destroyed = false })
  ]

  -- client.Connect
  unfoldable pub open_connection : RelayClient H → Option String × RelayClient H
  open_connection c = elim relay.connect_error [
    | some e ↦ (some e, c)
    | none ↦ (none, record c { connected = true })
  ]

  -- client.Subscribe
  unfoldable pub subscribe : String → Option H → RelayClient H → Option String × RelayClient H
  subscribe channel h c = elim (relay.subscribe_error channel) [
    | some e ↦ (some e, c)
    | none ↦ (none, record c { subscriptions = (channel, h) ∷ c.subscriptions })
  ]

  -- client.Destroy, and Close
  unfoldable pub destroy : RelayClient H → RelayClient H
  destroy c = record c { connected = false; destroyed = true }

  -- `if err != nil { client.Destroy(); return nil, err }`, or else the calls that follow
  unfoldable pub or_destroy :
      Option String × RelayClient H
      → (RelayClient H → Option String × RelayClient H)
      → Option String × RelayClient H
  unfolding destroy
  or_destroy (some e, c) rest = (some e, destroy c)
  or_destroy (none, c) rest = rest c

  -- Connect's calls of its client
  unfoldable pub connect_client :
      TransportOptions → Handlers H → RelayClient H → Option String × RelayClient H
  unfolding open_connection subscribe or_destroy
  connect_client o h c = or_destroy (open_connection c) λ c.
      or_destroy (subscribe (jobs_channel o.agent_id) h.on_job c)
        λ c. or_destroy (subscribe (control_channel o.agent_id) h.on_control c) λ c. (none, c)

  -- Connect: the error, if there is one, and the client, if there is one.
  unfoldable pub connect : TransportOptions → Handlers H → Option String × Option (RelayClient H)
  unfolding new_client connect_client
  connect o h =
      elim (new_client
        (record { publish_key = o.publish_key; base_url = o.base_url; debug = o.debug })) [
          | err e ↦ (some e, none)
          | ok c ↦ let (failed, c') = connect_client o h c in (failed, some c')
        ]

module _ {H : Type 0} where
  -- A client that was left behind is destroyed; one that is in use is connected, with the job handler
  -- on the agent's jobs channel and the control handler on its control channel, and nothing else.
  abbrev pub Settled :
      TransportOptions → Handlers H → Option String × Option (RelayClient H) → Type 0
  Settled o h (some e, none) = Unit
  Settled o h (some e, some c) = c.destroyed ≡ true
  Settled o h (none, none) = ⊥
  Settled o h (none, some c) =
      (c.destroyed ≡ false)
      × (c.connected ≡ true)
      × (c.subscriptions
          ≡ (control_channel o.agent_id, h.on_control) ∷ (jobs_channel o.agent_id, h.on_job) ∷ [])

  -- Connect leaks no client: where it fails, the client that it made, if any, has been destroyed; where
  -- it succeeds, the client is connected and subscribed to the jobs and the control channel of the
  -- agent, each with its own handler, and to no other.
  pub connect-Settled :
      (relay : Relay) (o : TransportOptions) (h : Handlers H) → Settled o h (connect relay o h)
  unfolding connect connect_client or_destroy open_connection subscribe destroy new_client
  connect-Settled relay o h =
      elim (Option-cases (
        relay.new_client_error
          (record { publish_key = o.publish_key; base_url = o.base_url; debug = o.debug }))) [
            | inr (e, a) ↦ rw (connect, new_client, a) tt
            | inl a ↦ elim (Option-cases relay.connect_error) [
              | inr (e, b) ↦ rw (connect, new_client, a, connect_client, open_connection, b) refl
              | inl b ↦ elim (Option-cases (relay.subscribe_error (jobs_channel o.agent_id))) [
                | inr (e, c) ↦
                    rw (connect, new_client, a, connect_client, open_connection, b, subscribe, c)
                      refl
                | inl c ↦ elim (Option-cases (relay.subscribe_error (control_channel o.agent_id))) [
                  | inr (e, d) ↦
                      rw
                        (
                          connect, new_client, a, connect_client, open_connection, b, subscribe, c,
                          d,
                        )
                        refl
                  | inl d ↦
                      rw
                        (
                          connect, new_client, a, connect_client, open_connection, b, subscribe, c,
                          d,
                        )
                        (refl, refl, refl)
                ]
              ]
            ]
          ]
