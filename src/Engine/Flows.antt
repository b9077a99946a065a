-- ===== src/Engine/Flows.antt =====
-- src/include/machnet_engine.h, class MachnetEngine: the tables of flows, listeners and requests of one
-- protocol, and what the engine does with them. The source has this code twice, for UDP and for TCP.
pub mod Control
pub mod Valid
pub mod Check
pub mod Checks
pub mod Calls
pub mod Packets
pub mod Listening
pub mod Removal
pub mod Dropping
pub mod Leaving
use machnet.Base.{
  ℕ, ◌+◌, ◌-◌, ◌*◌, ◌/◌, ◌%◌, ◌^◌, ◌≡◌, ◌↔◌, refl, ap, arith, Bool, true, false, not, ◌&&◌, ◌||◌,
  Option, none, some, List, [], ◌∷◌, ◌++◌, map, length, take, ltb, ◌==◌, ==_iff, if◌then◌else◌,
}
use machnet.Base.Maps.{Eq, find, insert, erase, contains, emplace, nat_eq, pair_eq}
use machnet.Engine.Ports.{
  SharedState, is_local_ipv4_address, src_port_alloc, src_port_release, register_listener,
}
use machnet.Engine.Arp.{ArpHandler, get_l2_addr}

-- src/include/flow_key.h
pub record Key : Type 0 where
  pub local_addr : ℕ
  pub local_port : ℕ
  pub remote_addr : ℕ
  pub remote_port : ℕ

abbrev pub same_key : Key → Key → Bool
same_key a b =
    a.local_addr == b.local_addr
    && a.local_port == b.local_port
    && (a.remote_addr == b.remote_addr && a.remote_port == b.remote_port)

pub same_key_iff : (a b : Key) → (same_key a b ≡ true) ↔ (a ≡ b)
same_key_iff a b = (λ h. ground (arith, h), λ h. ground (arith, h))

instance abbrev pub key_eq : Eq Key
key_eq = record { beq = same_key; beq_iff = same_key_iff }

-- What the engine calls of a flow. `new` takes the number of flows made before; `accept` is
-- `StartPassiveOpen`, which a UDP flow has not; `callbacks` is the log of the calls of its callback.
pub record FlowOps (F P M : Type 0) : Type 0 where
  pub new : ℕ → F
  pub initiate_handshake : F → F
  pub accept : F → F
  pub input_packet : P → F → F
  pub output_message : M → F → F
  pub periodic_check : F → Bool × F
  pub shut_down : F → F
  pub callbacks : F → List Bool
  pub is_syn : P → Bool

-- A flow object, in the list of its channel. `request` is the id that its callback holds; the callback
-- of a flow that a packet made does nothing.
pub record Owned (F : Type 0) : Type 0 where
  pub key : Key
  pub channel : ℕ
  pub request : Option ℕ
  pub flow : F

-- A request to create a flow, with the tick at which it came.
pub record Pending : Type 0 where
  pub timestamp : ℕ
  pub id : ℕ
  pub channel : ℕ
  pub src_addr : ℕ
  pub dst_addr : ℕ
  pub dst_port : ℕ

-- `store` has the flow objects of all channels under the iterators to them, `active` is the map from
-- keys to iterators, and `listeners` maps addresses to maps from ports to channels.
pub record Table (F : Type 0) : Type 0 where
  pub store : List (ℕ × Owned F)
  pub next : ℕ
  pub active : List (Key × ℕ)
  pub listeners : List (ℕ × List (ℕ × ℕ))
  pub pending : List Pending

-- An entry of a completion queue; `flow` is set by the callback of a flow.
pub record Completion : Type 0 where
  pub id : ℕ
  pub success : Bool
  pub flow : Option Key

-- What the two protocols share. `completions` logs the entries for the queues of the channels, newest
-- first; `aborted` says that a CHECK failed, or that an iterator was used whose flow is gone.
pub record Common : Type 0 where
  pub shared : SharedState
  pub arp : ArpHandler
  pub completions : List (ℕ × Completion)
  pub channel_listeners : List ((ℕ × (ℕ × ℕ)) × Bool)
  pub periodic_ticks : ℕ
  pub aborted : Bool

-- The queue of the engine, the packets of the ARP handler, and of DPDK and the driver the hash of the
-- reversed addresses and the queue of a hash.
pub record EngineEnv : Type 0 where
  pub rx_queue_id : ℕ
  pub packet_alloc : ℕ → Bool
  pub reversed_rss_hash : ℕ → ℕ → ℕ → ℕ → ℕ
  pub rss_rx_queue : ℕ → ℕ

abbrev pub emit : ℕ → Completion → Common → Common
emit channel resp c = record c { completions = (channel, resp) ∷ c.completions }

-- The flow object at an iterator is destroyed, if it is of a channel.
unfoldable pub drop_flow : {F : Type 0} → ℕ → ℕ → List (ℕ × Owned F) → List (ℕ × Owned F)
drop_flow channel id store = elim (find id store) [
  | none ↦ store
  | some o ↦ if o.channel == channel then erase id store else store
]

unfoldable pub drop_flows :
    {F : Type 0} → ℕ → List (ℕ × Owned F) → List (ℕ × Owned F) → List (ℕ × Owned F)
drop_flows channel [] store = store
drop_flows channel ((id, _) ∷ others) store = drop_flow channel id (drop_flows channel others store)

-- The end of a channel
abbrev pub drop_channel : {F : Type 0} → ℕ → Table F → Table F
drop_channel channel t = record t { store = drop_flows channel t.store t.store }

module _ {F P M : Type 0} (ops : FlowOps F P M) where
  -- `application_callback`, for each call that the flow has made
  abbrev pub run_callbacks : Owned F → F → Common → Common
  run_callbacks o g c = elim o.request [
    | none ↦ c
    | some id ↦
        let calls =
          take (length (ops.callbacks g) - length (ops.callbacks o.flow)) (ops.callbacks g) in
        record c {
          completions =
              map (λ ok. (o.channel, record { id = id; success = ok; flow = some o.key })) calls
              ++ c.completions;
        }
  ]

  -- A call of a method of the flow at an iterator.
  unfoldable pub call_flow : (F → F) → ℕ → Common × Table F → Common × Table F
  call_flow method id (c, t) = elim (find id t.store) [
    | none ↦ (record c { aborted = true }, t)
    | some o ↦
        let g = method o.flow in
        (run_callbacks o g c, record t { store = insert id (record o { flow = g }) t.store })
  ]

  -- `CreateFlow` of a channel, and the entry of the map.
  unfoldable pub create_flow : Key → ℕ → Option ℕ → Table F → Table F
  create_flow key channel request t = record t {
    store =
        (t.next, record { key = key; channel = channel; request = request; flow = ops.new t.next })
        ∷ t.store;
    next = t.next + 1;
    active = emplace key t.next t.active;
  }

  -- One round of `HandleRTO`
  unfoldable pub check_one : Key → ℕ → Common × Table F → Common × Table F
  check_one key id (c, t) = elim (find id t.store) [
    | none ↦ (record c { aborted = true }, t)
    | some o ↦
        let (is_active, g) = ops.periodic_check o.flow in
        let c' = run_callbacks o g c in
        if is_active
        then (c', record t { store = insert id (record o { flow = g }) t.store })
        else (
          record c' { shared = src_port_release o.key.local_addr o.key.local_port c'.shared },
          record t { store = erase id t.store; active = erase key t.active },
        )
  ]

  unfoldable pub check_all : List (Key × ℕ) → Common × Table F → Common × Table F
  check_all [] s = s
  check_all ((key, id) ∷ rest) s = check_all rest (check_one key id s)

  -- `HandleRTO`
  abbrev pub handle_rto : Common × Table F → Common × Table F
  handle_rto s = check_all s.1.active s

  -- A packet with the key that it has for its receiver; `process_rx_ipv4` after the header.
  unfoldable pub process_packet : Key → P → Common × Table F → Common × Table F
  process_packet key packet (c, t) = elim (find key t.active) [
    | some id ↦ call_flow (ops.input_packet packet) id (c, t)
    | none ↦ elim (find key.local_addr t.listeners) [
      | none ↦ (c, t)
      | some listeners_on_ip ↦ elim (find key.local_port listeners_on_ip) [
        | none ↦ (c, t)
        | some channel ↦
            if not (ops.is_syn packet)
            then (c, t)
            else call_flow (λ f. ops.input_packet packet (ops.accept f)) t.next
                (c, create_flow key channel none t)
      ]
    ]
  ]
