-- ===== src/Engine/Flows/Listening.antt =====
-- src/include/machnet_engine.h, `ProcessControlRequests`: the request to listen.
use mathlib.Core.Path.{subst}
use machnet.Base.{
  ℕ, ◌<◌, ◌^◌, ◌≡◌, refl, sym, ap, ◌∙◌, Bool, true, false, not, ◌&&◌, ◌||◌, Option, none, some,
  List, ◌∷◌, inl, inr, arith, Bool-cases, Option-cases, ◌==◌, ==_iff, if◌then◌else◌,
}
use machnet.Base.Maps.{find, insert, contains, nat_eq, pair_eq, find-insert}
use machnet.Engine.Ports.{is_local_ipv4_address, register_listener}
use machnet.Engine.Ports.Shared.{port_free, IsSized}
use machnet.Engine.Ports.Listeners.{register_listener-Registers}
use machnet.Engine.Ports.Reserved.{port_free_local}
use machnet.Engine.Flows.{key_eq, FlowOps, Table, Common, EngineEnv}
use machnet.Engine.Flows.Control.{emit_completion, listen_on}

-- The channel that listens at a port of an address
abbrev pub heard_in : {F : Type 0} → Table F → ℕ → ℕ → Option ℕ
heard_in t ip port = elim (find ip t.listeners) [
  | none ↦ none
  | some listeners_on_ip ↦ find port listeners_on_ip
]

abbrev pub is_some : Option ℕ → Bool
is_some none = false
is_some (some n) = true

module _ {F P M : Type 0} (ops : FlowOps F P M) (env : EngineEnv) (channel id ip port : ℕ) where
  -- Whether a request to listen is granted: the engine knows the address, no channel listens there, and
  -- the port is free at it, which it only is at a local address.
  abbrev pub grants : Common × Table F → Bool
  grants (c, t) =
      contains ip t.listeners && not (is_some (heard_in t ip port)) && port_free c.shared ip port

  -- Whether the channel has the listener already, which fails the CHECK of `AddListener`
  abbrev pub has_listener : Common × Table F → Bool
  has_listener s = contains (channel, (ip, port)) s.0.channel_listeners

  -- The state after a request that is granted or not
  abbrev pub Listened : Bool → Common × Table F → Common × Table F → Type 0
  Listened ok s r =
      (r.0.completions ≡ (
        if ok && has_listener s
        then s.0.completions
        else (channel, record { id = id; success = ok; flow = none }) ∷ s.0.completions))
      × (r.0.aborted ≡ (s.0.aborted || (ok && has_listener s)))
      × ((a p : ℕ)
          → heard_in r.1 a p
            ≡ (if ok && (ip == a && port == p) then some channel else heard_in s.1 a p))
      × ((a q : ℕ)
          → port_free r.0.shared a q
            ≡ (port_free s.0.shared a q && not (ok && (ip == a && q == port))))
      × (r.1.store ≡ s.1.store)
      × (r.1.active ≡ s.1.active)

  module _ (c : Common) (t : Table F) (size : IsSized c.shared) (small : port < 2 ^ 16) where
    and_true : (b : Bool) → b ≡ (b && true)
    and_true true = refl
    and_true false = refl

    or_false : (b : Bool) → b ≡ (b || false)
    or_false true = refl
    or_false false = refl

    or_true : (b : Bool) → true ≡ (b || true)
    or_true true = refl
    or_true false = refl

    refused : Listened false (c, t) (emit_completion channel id false c, t)
    refused = (
      refl,
      or_false c.aborted,
      λ a p. refl,
      λ a q. and_true (port_free c.shared a q),
      refl,
      refl,
    )

    -- The listener could not be registered: its port is taken.
    taken :
        port_free c.shared ip port ≡ false
        → Listened false
            (c, t)
            (
              emit_completion channel id false
                  (record c { shared = (register_listener ip port env.rx_queue_id c.shared).1 }),
              t,
            )
    taken busy =
        let (_, ports, _, _, _) =
          register_listener-Registers ip port env.rx_queue_id c.shared size small in
        (refl, or_false c.aborted, λ a p. refl, λ a q. ports a q ∙ without a q, refl, refl)
      where
        without :
            (a q : ℕ)
            → (port_free c.shared a q && not (ip == a && q == port))
              ≡ (port_free c.shared a q && true)
        without a q = elim (Bool-cases (ip == a && q == port)) [
          | inl same ↦
              let addrs : ip ≡ a = ground (arith, same) in
              let ports : q ≡ port = ground (arith, same) in
              let closed : port_free c.shared a q ≡ false =
                ap (port_free c.shared a) ports
                ∙ sym (ap (λ x. port_free c.shared x port) addrs)
                ∙ busy in
              rw (same, closed) refl
          | inr differ ↦ rw differ refl
        ]

    -- What is done for a request that is granted
    abbrev registered_state : List (ℕ × ℕ) → Bool → Common × Table F
    registered_state l known =
        let shared' = (register_listener ip port env.rx_queue_id c.shared).1 in
        let t' = record t { listeners = insert ip (insert port channel l) t.listeners } in
        if known then (record c { shared = shared'; aborted = true }, t') else (
          emit_completion channel id true (record c {
            shared = shared';
            channel_listeners = insert (channel, (ip, port)) true c.channel_listeners;
          }),
          t',
        )

    grant :
        (l : List (ℕ × ℕ))
        → find ip t.listeners ≡ some l
        → Listened true (c, t) (registered_state l (has_listener (c, t)))
    grant l there =
        let (_, ports, _, _, _) =
          register_listener-Registers ip port env.rx_queue_id c.shared size small in
        elim (Bool-cases (contains (channel, (ip, port)) c.channel_listeners)) [
          | inl known ↦ rw known (refl, or_true c.aborted, listening, ports, refl, refl)
          | inr new ↦ rw new (refl, or_false c.aborted, listening, ports, refl, refl)
        ]
      where
        listening :
            (a p : ℕ)
            → elim (find a (insert ip (insert port channel l) t.listeners)) [
              | none ↦ none
              | some m ↦ find p m
            ]
              ≡ (if ip == a && port == p then some channel else heard_in t a p)
        listening a p =
            ap (λ x. elim x [ none ↦ none | some m ↦ find p m ])
              (find-insert ip a (insert port channel l) t.listeners)
            ∙ elim (Bool-cases (ip == a)) [
              | inl at ↦
                  let here : ip ≡ a = (==_iff ip a).0 at in
                  let was : find a t.listeners ≡ some l =
                    sym (ap (λ x. find x t.listeners) here) ∙ there in
                  let heard : heard_in t a p ≡ find p l =
                    ap (λ x. elim x [ none ↦ none | some m ↦ find p m ]) was in
                  rw at (
                    find-insert port p channel l
                    ∙ ap (λ x. if port == p then some channel else x) (sym heard))
              | inr apart ↦ rw apart refl
            ]

    -- The answer to a request for an address that the engine knows
    abbrev answer : List (ℕ × ℕ) → Bool → Bool → Bool → Common × Table F
    answer l is_local heard registered =
        let shared' = (register_listener ip port env.rx_queue_id c.shared).1 in
        let known = contains (channel, (ip, port)) c.channel_listeners in
        if not is_local
        then (emit_completion channel id false c, t)
        else if heard
        then (emit_completion channel id false c, t)
        else if not registered
        then (emit_completion channel id false (record c { shared = shared' }), t)
        else registered_state l known

    answer-Listened :
        (l : List (ℕ × ℕ))
        → find ip t.listeners ≡ some l
        → (is_local heard registered : Bool) → port_free c.shared ip port ≡ registered
        → (registered ≡ true → is_local ≡ true)
        → Listened (not heard && registered) (c, t) (answer l is_local heard registered)
    answer-Listened l there false heard true p local = absurd (cc (local refl))
    answer-Listened l there false true false p local = refused
    answer-Listened l there false false false p local = refused
    answer-Listened l there true true registered p local = refused
    answer-Listened l there true false false p local = taken p
    answer-Listened l there true false true p local = grant l there

    unknown_address :
        find ip t.listeners ≡ none
        → listen_on ops env channel id ip port (c, t) ≡ (emit_completion channel id false c, t)
    unfolding listen_on
    unknown_address e = rw (e, listen_on) refl

    known_address :
        (l : List (ℕ × ℕ))
        → find ip t.listeners ≡ some l
        → listen_on ops env channel id ip port (c, t)
          ≡ answer l
              (is_local_ipv4_address ip c.shared)
              (contains port l)
              (register_listener ip port env.rx_queue_id c.shared).0
    unfolding listen_on
    known_address l e = rw (e, listen_on) refl

    known_grants :
        (l : List (ℕ × ℕ))
        → find ip t.listeners ≡ some l
        → (not (contains port l) && (register_listener ip port env.rx_queue_id c.shared).0)
          ≡ grants (c, t)
    known_grants l e =
        let (registered, _, _, _, _) =
          register_listener-Registers ip port env.rx_queue_id c.shared size small in
        ap (λ b. not (contains port l) && b) registered
        ∙ sym (
            ap
              (λ x.
                elim x [ none ↦ false | some v ↦ true ]
                && not (is_some (elim x [ none ↦ none | some m ↦ find port m ]))
                && port_free c.shared ip port)
              e)

    -- Where the bitmaps have no slots beyond port 65535 and the port is one of them: a request to listen
    -- is answered once, with success exactly if it is granted, but for one case: a granted one of a
    -- channel that has this listener in its own list already ends the process, and no other one does. A
    -- granted one makes the channel the listener at the port of the address and takes that port; any
    -- other listener and any other port stay, and so do all of them if the request is not granted. The
    -- flows stay.
    pub listen_on-Listened :
        Listened (grants (c, t)) (c, t) (listen_on ops env channel id ip port (c, t))
    listen_on-Listened = elim (Option-cases (find ip t.listeners)) [
      | inl unknown ↦
          let denied : false ≡ grants (c, t) = sym (
            ap
              (λ x.
                elim x [ none ↦ false | some v ↦ true ]
                && not (is_some (elim x [ none ↦ none | some m ↦ find port m ]))
                && port_free c.shared ip port)
              unknown) in
          subst (λ b. Listened b (c, t) (listen_on ops env channel id ip port (c, t))) denied
            (subst (Listened false (c, t)) (sym (unknown_address unknown)) refused)
      | inr (l, there) ↦
          let (registered, _, _, _, _) =
            register_listener-Registers ip port env.rx_queue_id c.shared size small in
          subst (λ b. Listened b (c, t) (listen_on ops env channel id ip port (c, t)))
            (known_grants l there)
            (subst (Listened _ (c, t)) (sym (known_address l there)) (
              answer-Listened l there (is_local_ipv4_address ip c.shared) (contains port l)
                (register_listener ip port env.rx_queue_id c.shared).0 (sym registered)
                (λ ok. port_free_local c.shared ip port (sym registered ∙ ok))))
    ]
