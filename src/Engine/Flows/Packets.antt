-- ===== src/Engine/Flows/Packets.antt =====
-- src/include/machnet_engine.h, `process_rx_ipv4` after the headers: which flow gets a packet.
use mathlib.Core.Path.{subst}
use machnet.Base.{
  ℕ, ◌≡◌, refl, sym, ap, ◌∙◌, Bool, true, false, not, ◌&&◌, Option, none, some, inl, inr, arith,
  Bool-cases, Option-cases, ◌==◌, ==_iff, if◌then◌else◌,
}
use machnet.Base.Maps.{find, contains, nat_eq, beq_self}
use machnet.Engine.Flows.{
  Key, key_eq, same_key, FlowOps, Owned, Table, Common, call_flow, create_flow, process_packet,
}
use machnet.Engine.Flows.Valid.{Valid}
use machnet.Engine.Flows.Calls.{call_flow-Called, create_flow-Made}

module _ {F P M : Type 0} (ops : FlowOps F P M) (key : Key) (packet : P) where
  -- The channel that listens where a packet is going
  abbrev pub heard_by : Table F → Option ℕ
  heard_by t = elim (find key.local_addr t.listeners) [
    | none ↦ none
    | some listeners_on_ip ↦ find key.local_port listeners_on_ip
  ]

  -- The flow that a packet makes, where `found` is the flow of its key and `heard` the channel that
  -- listens: a SYN that no flow has makes one where there is a listener.
  abbrev pub made_from : Option ℕ → Option ℕ → Bool → ℕ → Option (Owned F)
  made_from (some id) heard syn n = none
  made_from none none syn n = none
  made_from none (some channel) false n = none
  made_from none (some channel) true n = some (record {
    key = key;
    channel = channel;
    request = none;
    flow = ops.input_packet packet (ops.accept (ops.new n));
  })

  abbrev pub made_by : Table F → Option (Owned F)
  made_by t = made_from (find key t.active) (heard_by t) (ops.is_syn packet) t.next

  -- Whether the flow of a key is at an iterator
  abbrev pub is_at : Option ℕ → ℕ → Bool
  is_at none i = false
  is_at (some id) i = id == i

  abbrev pub is_made : Option (Owned F) → Bool
  is_made none = false
  is_made (some o) = true

  -- What becomes of a table by a packet
  abbrev pub DeliveredAs :
      Option ℕ → Option (Owned F) → Common × Table F → Common × Table F → Type 0
  DeliveredAs found made s r =
      Valid r.1
      × (r.0.aborted ≡ s.0.aborted)
      × ((i : ℕ) (o : Owned F)
          → find i s.1.store ≡ some o
          → find i r.1.store
            ≡ some
                (if is_at found i then record o { flow = ops.input_packet packet o.flow } else o))
      × ((k : Key)
          → find k r.1.active
            ≡ (if is_made made && same_key key k then some s.1.next else find k s.1.active))
      × (find s.1.next r.1.store ≡ made)

  module _ (c : Common) (t : Table F) (v : Valid t) where
    nothing_at_next : find t.next t.store ≡ none
    nothing_at_next = elim (Option-cases (find t.next t.store)) [
      | inl nothing ↦ nothing
      | inr (o, there) ↦ absurd (omega (arith, v.fresh t.next o there))
    ]

    dropped : DeliveredAs none none (c, t) (c, t)
    dropped = (v, refl, λ i o there. there, λ k. refl, nothing_at_next)

    delivered :
        (id : ℕ)
        → find key t.active ≡ some id
        → DeliveredAs (some id) none (c, t) (call_flow ops (ops.input_packet packet) id (c, t))
    delivered id e =
        let (o, there, named) = v.owned key id e in
        let (valid, ran, active, store) =
          call_flow-Called ops (ops.input_packet packet) id o (c, t) v there in
        let older : (id == t.next) ≡ false = ground (arith, v.fresh id o there) in
        (
          valid,
          ran,
          λ i p at. store i ∙ called id i o p there at,
          active,
          store t.next ∙ rw older nothing_at_next,
        )
      where
        called :
            (id i : ℕ) (o p : Owned F)
            → find id t.store ≡ some o
            → find i t.store ≡ some p
            → (if id == i
                then some (record o { flow = ops.input_packet packet o.flow })
                else find i t.store)
              ≡ some (if id == i then record p { flow = ops.input_packet packet p.flow } else p)
        called id i o p there at = elim (Bool-cases (id == i)) [
          | inl same ↦
              let eq : id ≡ i = (==_iff id i).0 same in
              let objects : some o ≡ some p = sym there ∙ ap (λ j. find j t.store) eq ∙ at in
              let found : o ≡ p = cc objects in
              rw same (
                ap (λ (x : Owned F). some (record x { flow = ops.input_packet packet x.flow }))
                  found)
          | inr apart ↦ rw apart at
        ]

    made :
        (channel : ℕ)
        → find key t.active ≡ none
        → DeliveredAs none
            (made_from none (some channel) true t.next)
            (c, t)
            (call_flow ops
              (λ f. ops.input_packet packet (ops.accept f))
              t.next
              (c, create_flow ops key channel none t))
    made channel missing =
        let (valid, ran, active, store) =
          create_flow-Made ops (λ f. ops.input_packet packet (ops.accept f)) key channel none c t
            v in
        let open_key : contains key t.active ≡ false =
          ap (λ x. elim x [ none ↦ false | some w ↦ true ]) missing in
        (
          valid,
          ran,
          λ i o there.
              let older : (t.next == i) ≡ false = ground (arith, v.fresh i o there) in
              store i ∙ rw older there,
          λ k. active k ∙ rw open_key refl,
          store t.next ∙ rw (beq_self t.next) refl,
        )

    -- The outcome of a packet by what was found
    abbrev Outcome : Option ℕ → Option ℕ → Bool → Common × Table F → Type 0
    Outcome found heard syn r = DeliveredAs found (made_from found heard syn t.next) (c, t) r

    abbrev passive : ℕ → Common × Table F
    passive channel =
        call_flow ops (λ f. ops.input_packet packet (ops.accept f)) t.next
          (c, create_flow ops key channel none t)

    hit :
        (id : ℕ)
        → find key t.active ≡ some id
        → process_packet ops key packet (c, t) ≡ call_flow ops (ops.input_packet packet) id (c, t)
    unfolding process_packet
    hit id e = rw (e, process_packet) refl

    nobody_there :
        find key t.active ≡ none → heard_by t ≡ none → process_packet ops key packet (c, t) ≡ (c, t)
    unfolding process_packet
    nobody_there e h = elim (Option-cases (find key.local_addr t.listeners)) [
      | inl nobody ↦ rw (e, process_packet, nobody) refl
      | inr (l, there) ↦
          let closed : find key.local_port l ≡ none =
            sym (ap (λ x. elim x [ none ↦ none | some m ↦ find key.local_port m ]) there) ∙ h in
          rw (e, process_packet, there, closed) refl
    ]

    listener_there :
        (channel : ℕ)
        → find key t.active ≡ none
        → heard_by t ≡ some channel
        → process_packet ops key packet (c, t)
          ≡ (if not (ops.is_syn packet) then (c, t) else passive channel)
    unfolding process_packet
    listener_there channel e h = elim (Option-cases (find key.local_addr t.listeners)) [
      | inl nobody ↦
          absurd (
            cc (sym (ap (λ x. elim x [ none ↦ none | some m ↦ find key.local_port m ]) nobody) ∙ h))
      | inr (l, there) ↦
          let opened : find key.local_port l ≡ some channel =
            sym (ap (λ x. elim x [ none ↦ none | some m ↦ find key.local_port m ]) there) ∙ h in
          rw (e, process_packet, there, opened) refl
    ]

    by_syn :
        (syn : Bool) (channel : ℕ)
        → find key t.active ≡ none
        → Outcome none (some channel) syn (if not syn then (c, t) else passive channel)
    by_syn true channel missing = made channel missing
    by_syn false channel missing = dropped

    -- The outcome, by what was found and what the code does for it
    outcome :
        {found heard : Option ℕ} {r : Common × Table F}
        → find key t.active ≡ found
        → heard_by t ≡ heard
        → process_packet ops key packet (c, t) ≡ r
        → Outcome found heard (ops.is_syn packet) r
        → Outcome
            (find key t.active)
            (heard_by t)
            (ops.is_syn packet)
            (process_packet ops key packet (c, t))
    outcome {found} {heard} {r} e h p done =
        subst (λ x. Outcome (find key t.active) (heard_by t) (ops.is_syn packet) x) (sym p)
          (subst (λ x. Outcome x (heard_by t) (ops.is_syn packet) r) (sym e)
            (subst (λ x. Outcome found x (ops.is_syn packet) r) (sym h) done))

    -- On a table whose map and channels agree, a packet goes to the flow of its key and to no other.
    -- If no flow has the key, a SYN for a port with a listener makes one, in the listener's channel,
    -- which gets the packet, and any other packet is dropped. No iterator of a flow that is gone is
    -- used, and map and channels agree after it.
    pub process_packet-Delivered :
        DeliveredAs (find key t.active) (made_by t) (c, t) (process_packet ops key packet (c, t))
    process_packet-Delivered = elim (Option-cases (find key t.active)) [
      | inr (id, e) ↦ outcome e refl (hit id e) (delivered id e)
      | inl missing ↦ elim (Option-cases (heard_by t)) [
        | inl nobody ↦ outcome missing nobody (nobody_there missing nobody) dropped
        | inr (channel, heard) ↦
            outcome missing heard (listener_there channel missing heard)
              (by_syn (ops.is_syn packet) channel missing)
      ]
    ]
