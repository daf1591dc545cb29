-- ===== src/Executor/Dial/Guard.antt =====
-- internal/executor/executor.go, guardedDial: no address is dialed that the egress policy denies.
use mathlib.Core.List.{append-nil}
use apipact_agent.Prelude.{
  String, ◌≡◌, refl, sym, ap, ◌∙◌, ◌⊎◌, inl, inr, Bool, true, false, Option, none, some, List, [],
  ◌∷◌, ◌++◌, arith, if◌then◌else◌, Result, ok, err, Result-cases, is_ok, any, All,
}
use apipact_agent.Protocol.{ErrKind}
use apipact_agent.Executor.Egress.{
  egress_verdict, Ip, EgressPolicy, Reason, Verdict, allowed, denied,
}
use apipact_agent.Executor.Errors.{is_blocked, classify, classify-blocked_iff, GoError}
use apipact_agent.Executor.Dial.{
  denial, after_dial, dial_ips, candidates, dial_resolved, guarded_dial, Net, Dialed,
}

abbrev pub is_allowed : EgressPolicy → Ip → Bool
is_allowed p ip = elim (egress_verdict p ip) [ allowed ↦ true | denied r ↦ false ]

-- The candidates that the policy allows, in order.
abbrev pub allowed_of : EgressPolicy → List Ip → List Ip
allowed_of p [] = []
allowed_of p (ip ∷ ips) = if is_allowed p ip then ip ∷ allowed_of p ips else allowed_of p ips

abbrev pub IsAllowed : EgressPolicy → Ip → Type 0
IsAllowed p ip = egress_verdict p ip ≡ allowed

Verdict-cases : (v : Verdict) → (v ≡ allowed) ⊎ ((r : Reason) × (v ≡ denied r))
Verdict-cases allowed = inl refl
Verdict-cases (denied r) = inr (r, refl)

module _ (net : Net) (p : EgressPolicy) where
  -- The addresses dialed are the first allowed candidates, all of them if the dial fails; a
  -- connection is one that the dialer opened to the last of them.
  pub record Tried (port : String) (ips : List Ip) (d : Dialed net p) : Type 0 where
    pub rest : List Ip
    pub splits : d.tried ++ rest ≡ allowed_of p ips
    pub sound : All (IsAllowed p) d.tried
    pub exhausted : is_ok d.result ≡ false → rest ≡ []

  after_dial-Tried :
      (port : String) (ip : Ip) (ips : List Ip) (next : Option GoError → net.World → Dialed net p)
      (r : Result GoError net.Conn × net.World)
      → egress_verdict p ip ≡ allowed
      → ((e : Option GoError) (w : net.World) → Tried port ips (next e w))
      → Tried port (ip ∷ ips) (after_dial net p ip next r)
  unfolding after_dial
  after_dial-Tried port ip ips next (ok c, w) h k = record {
    rest = allowed_of p ips;
    splits = ground arith;
    sound = (h, tt);
    exhausted = λ e. cc;
  }
  after_dial-Tried port ip ips next (err e, w) h k =
      let t = k (some e) w in
      record {
        rest = t.rest;
        splits = ground (arith, t.splits);
        sound = (h, t.sound);
        exhausted = t.exhausted;
      }

  dial_ips-Tried :
      (host port : String) (ips : List Ip) (last : Option GoError) (w : net.World)
      → Tried port ips (dial_ips net p host port ips last w)
  unfolding dial_ips
  dial_ips-Tried host port [] last w = record {
    rest = [];
    splits = refl;
    sound = tt;
    exhausted = λ e. refl;
  }
  dial_ips-Tried host port (ip ∷ ips) last w = elim (Verdict-cases (egress_verdict p ip)) [
    | inl h ↦
        rw (h, dial_ips)
          (after_dial-Tried port ip ips _ (net.dial_context w ip port) h
            (dial_ips-Tried host port ips))
    | inr (r, h) ↦
        let t = dial_ips-Tried host port ips (some (denial net p ip r)) w in
        rw (h, dial_ips)
          (record {
            rest = t.rest;
            splits = t.splits ∙ ground arith;
            sound = t.sound;
            exhausted = t.exhausted;
          })
  ]

  -- A connection that a dial returns is one that the dialer opened to an allowed address.
  pub record Vetted (port : String) (c : net.Conn) : Type 0 where
    pub ip : Ip
    pub before : net.World
    pub after : net.World
    pub vetted : egress_verdict p ip ≡ allowed
    pub opened : net.dial_context before ip port ≡ (ok c, after)

  after_dial-Vetted :
      (port : String) (ip : Ip) (next : Option GoError → net.World → Dialed net p) (w₀ : net.World)
      (r : Result GoError net.Conn × net.World) {c : net.Conn}
      → net.dial_context w₀ ip port ≡ r
      → egress_verdict p ip ≡ allowed
      → ((e : Option GoError) (w : net.World) → (next e w).result ≡ ok c → Vetted port c)
      → (after_dial net p ip next r).result ≡ ok c
      → Vetted port c
  unfolding after_dial
  after_dial-Vetted port ip next w₀ (ok c', w) {c} opened h k e = record {
    ip = ip;
    before = w₀;
    after = w;
    vetted = h;
    opened = opened ∙ ground arith;
  }
  after_dial-Vetted port ip next w₀ (err x, w) opened h k e = k (some x) w e

  dial_ips-Vetted :
      (host port : String) (ips : List Ip) (last : Option GoError) (w : net.World) {c : net.Conn}
      → (dial_ips net p host port ips last w).result ≡ ok c
      → Vetted port c
  unfolding dial_ips
  dial_ips-Vetted host port [] last w e = absurd (ground arith)
  dial_ips-Vetted host port (ip ∷ ips) last w e = elim (Verdict-cases (egress_verdict p ip)) [
    | inl h ↦
        after_dial-Vetted port ip _ w (net.dial_context w ip port) refl h
          (λ x w'. dial_ips-Vetted host port ips x w') (rw (h, dial_ips) at e)
    | inr (r, h) ↦ dial_ips-Vetted host port ips _ w (rw (h, dial_ips) at e)
  ]

  -- A dial that ended with a denial, and without touching the network.
  abbrev pub Denied : net.World → Dialed net p → Type 0
  Denied w d =
      (e : GoError) × (d ≡ record { result = err e; tried = []; world = w })
      × ((classify e).kind ≡ ErrKind.blocked)

  dial_ips-Denied_after :
      (host port : String) (ips : List Ip) (e : GoError) (w : net.World)
      → any is_blocked e.layers ≡ true
      → All (λ i. is_allowed p i ≡ false) ips
      → Denied w (dial_ips net p host port ips (some e) w)
  unfolding dial_ips
  dial_ips-Denied_after host port [] e w b h = (e, refl, (classify-blocked_iff e).0 b)
  dial_ips-Denied_after host port (ip ∷ ips) e w b (h, hs) =
      elim (Verdict-cases (egress_verdict p ip)) [
        | inl a ↦ absurd (ground arith)
        | inr (r, d) ↦
            rw (d, dial_ips) (dial_ips-Denied_after host port ips (denial net p ip r) w refl hs)
      ]

  dial_ips-Denied :
      (host port : String) (ip : Ip) (ips : List Ip) (last : Option GoError) (w : net.World)
      → All (λ i. is_allowed p i ≡ false) (ip ∷ ips)
      → Denied w (dial_ips net p host port (ip ∷ ips) last w)
  unfolding dial_ips
  dial_ips-Denied host port ip ips last w (h, hs) = elim (Verdict-cases (egress_verdict p ip)) [
    | inl a ↦ absurd (ground arith)
    | inr (r, d) ↦
        rw (d, dial_ips) (dial_ips-Denied_after host port ips (denial net p ip r) w refl hs)
  ]

  -- Whatever the resolver and the dialer do, every address that a dial connects to is allowed.
  pub guarded_dial_sound :
      (w : net.World) (addr : String) → All (IsAllowed p) (guarded_dial net p w addr).tried
  unfolding guarded_dial
  guarded_dial_sound w addr = elim (Result-cases (net.split_host_port addr)) [
    | inr (e, h) ↦ rw (h, guarded_dial) tt
    | inl ((host, port), h) ↦ rw (h, guarded_dial) (resolved host port (candidates net p w host))
  ]
    where
      resolved :
          (host port : String) (r : Result GoError (List Ip) × net.World)
          → All (IsAllowed p) (dial_resolved net p host port r).tried
      resolved host port (ok ips, w') = (dial_ips-Tried host port ips none w').sound
      resolved host port (err e, w') = tt

  -- A dial that fails although the name was resolved has tried every allowed candidate, in the
  -- order of the resolver's answer.
  guarded_dial_exhausts :
      (w w' : net.World) (addr host port : String) (ips : List Ip)
      → net.split_host_port addr ≡ ok (host, port)
      → candidates net p w host ≡ (ok ips, w')
      → is_ok (guarded_dial net p w addr).result ≡ false
      → (guarded_dial net p w addr).tried ≡ allowed_of p ips
  unfolding guarded_dial
  guarded_dial_exhausts w w' addr host port ips a b h =
      rw (a, guarded_dial, b)
        (let t = dial_ips-Tried host port ips none w' in
          sym (append-nil _)
          ∙ ap (λ r. (dial_ips net p host port ips none w').tried ++ r)
              (sym (t.exhausted (rw (a, guarded_dial, b) at h)))
          ∙ t.splits)

  -- If the policy denies every candidate, the dial fails without connecting anywhere, and its error
  -- is reported as "blocked".
  guarded_dial-Denied :
      (w w' : net.World) (addr host port : String) (ip : Ip) (ips : List Ip)
      → net.split_host_port addr ≡ ok (host, port)
      → candidates net p w host ≡ (ok (ip ∷ ips), w')
      → All (λ i. is_allowed p i ≡ false) (ip ∷ ips)
      → Denied w' (guarded_dial net p w addr)
  unfolding guarded_dial
  guarded_dial-Denied w w' addr host port ip ips a b h =
      rw (a, guarded_dial, b) (dial_ips-Denied host port ip ips none w' h)

  -- A connection that a dial returns was opened by the dialer to an address that the policy allows,
  -- and to the port that was asked for.
  guarded_dial-Vetted :
      (w w' : net.World) (addr host port : String) (ips : List Ip) {c : net.Conn}
      → net.split_host_port addr ≡ ok (host, port)
      → candidates net p w host ≡ (ok ips, w')
      → (guarded_dial net p w addr).result ≡ ok c
      → Vetted port c
  unfolding guarded_dial
  guarded_dial-Vetted w w' addr host port ips a b h =
      dial_ips-Vetted host port ips none w' (rw (a, guarded_dial, b) at h)
