-- ===== src/Engine/Protocols.antt =====
-- src/include/machnet_engine.h: the engine with the tables of both protocols, and the flows that they hold.
mod Kinds
mod Messages
mod Requests
mod Loop
mod Runs
mod Tests
use machnet.Base.{
  ℕ, ◌+◌, ◌-◌, ◌%◌, ◌^◌, Bool, true, false, not, ◌&&◌, ◌||◌, Option, none, some, List, [], ◌∷◌,
  ◌++◌, map, ltb, ◌==◌, if◌then◌else◌,
}
use machnet.Base.Maps.{find}
use machnet.Engine.Flows.{
  Key, key_eq, FlowOps, Pending, Table, Common, EngineEnv, call_flow, handle_rto, process_packet,
  drop_channel,
}
use machnet.Engine.Flows.Control.{listen_on, request_flow, try_requests, asks}
use machnet.Engine.Ports.{SharedState}
use machnet.Engine.Arp.{ArpHeader, ArpHandler, is_member, process_arp_packet}
use machnet.Engine.Flows.Removal.{drop_listener, remove_flows}

abbrev pub pending_of : ℕ → ℕ → ℕ → ℕ → ℕ → ℕ → Pending
pending_of ticks id channel src dst port = record {
  timestamp = ticks;
  id = id;
  channel = channel;
  src_addr = src;
  dst_addr = dst;
  dst_port = port;
}

-- `channels` are those that the engine serves.
pub record Engine (F G : Type 0) : Type 0 where
  pub channels : List ℕ
  pub common : Common
  pub udp : Table F
  pub tcp : Table G

-- A control request
pub data CtrlRequest : Type 0 where
  op_create_flow : (id src_ip dst_ip dst_port : ℕ) → CtrlRequest
  op_destroy_flow : (id : ℕ) → CtrlRequest
  op_listen : (id ip port : ℕ) → CtrlRequest
  op_tcp_create_flow : (id src_ip dst_ip dst_port : ℕ) → CtrlRequest
  op_tcp_destroy_flow : (id : ℕ) → CtrlRequest
  op_tcp_listen : (id ip port : ℕ) → CtrlRequest
  unknown : (opcode : ℕ) → CtrlRequest

-- What waits for the slow timer: requests by their channel, and channels
pub record Tasks : Type 0 where
  pub requests : List (ℕ × CtrlRequest)
  pub added : List ℕ
  pub removed : List ℕ

abbrev pub erase_first : ℕ → List ℕ → List ℕ
erase_first a [] = []
erase_first a (b ∷ bs) = if b == a then bs else b ∷ erase_first a bs

-- Whether a channel listens at a port, and at one of any address
abbrev pub hears_on_ip : ℕ → List (ℕ × ℕ) → Bool
hears_on_ip channel [] = false
hears_on_ip channel ((_, listener) ∷ ls) = listener == channel || hears_on_ip channel ls

abbrev pub hears : ℕ → List (ℕ × List (ℕ × ℕ)) → Bool
hears channel [] = false
hears channel ((_, on_ip) ∷ ls) = hears_on_ip channel on_ip || hears channel ls

-- A packet of a batch; `other_packet` is one of any other protocol, which neither a flow nor the ARP
-- handler gets.
pub data RxPacket (P Q : Type 0) : Type 0 where
  udp_packet : Key → P → RxPacket P Q
  tcp_packet : Key → Q → RxPacket P Q
  arp_packet : ArpHeader → RxPacket P Q
  other_packet : RxPacket P Q

-- A message by its key, as a flow of either kind reads it
pub record TxMessage (M N : Type 0) : Type 0 where
  pub flow : Key
  pub for_udp : M
  pub for_tcp : N

-- What the constructor makes of the local addresses
abbrev pub new_table : {F : Type 0} → List ℕ → Table F
new_table addrs = record {
  store = [];
  next = 0;
  active = [];
  listeners = map (λ addr. (addr, [])) addrs;
  pending = [];
}

abbrev pub new_engine : {F G : Type 0} → List ℕ → SharedState → ArpHandler → Engine F G
new_engine channels shared arp = record {
  channels = channels;
  common = record {
    shared = shared;
    arp = arp;
    completions = [];
    channel_listeners = [];
    periodic_ticks = 0;
    aborted = false;
  };
  udp = new_table (map (λ entry. entry.0) shared.ipv4_port_bitmap);
  tcp = new_table (map (λ entry. entry.0) shared.ipv4_port_bitmap);
}

module _ {F P M G Q N : Type 0} (udp : FlowOps F P M) (tcp : FlowOps G Q N) where
  abbrev pub with_udp : Engine F G → Common × Table F → Engine F G
  with_udp e r = record e { common = r.0; udp = r.1 }

  abbrev pub with_tcp : Engine F G → Common × Table G → Engine F G
  with_tcp e r = record e { common = r.0; tcp = r.1 }

  -- `process_msg`, with the key that the message names and the message as each kind of flow reads it
  unfoldable pub process_msg : Key → M → N → Engine F G → Engine F G
  process_msg key msg tcp_msg e = elim (find key e.udp.active) [
    | some id ↦ with_udp e (call_flow udp (udp.output_message msg) id (e.common, e.udp))
    | none ↦ elim (find key e.tcp.active) [
      | some id ↦ with_tcp e (call_flow tcp (tcp.output_message tcp_msg) id (e.common, e.tcp))
      | none ↦ e
    ]
  ]

  -- `HandleRTO` of both protocols
  abbrev pub check_flows : Engine F G → Engine F G
  check_flows e =
      let e' = with_udp e (handle_rto udp (e.common, e.udp)) in
      with_tcp e' (handle_rto tcp (e'.common, e'.tcp))

  -- The channels that the engine serves or that listen hold on, and so do those that requests name.
  abbrev pub serves : Engine F G → ℕ → Bool
  serves e channel =
      is_member channel e.channels || hears channel e.udp.listeners || hears channel e.tcp.listeners

  abbrev pub is_held : Engine F G → ℕ → Bool
  is_held e channel = serves e channel || asks channel e.udp.pending || asks channel e.tcp.pending

  -- The channels of a list that nothing of the engine holds are destroyed with their flows.
  unfoldable pub drop_unheld : List ℕ → Engine F G → Engine F G
  drop_unheld [] e = e
  drop_unheld (channel ∷ channels) e =
      let e' = drop_unheld channels e in
      if is_held e' channel
      then e'
      else record e' { udp = drop_channel channel e'.udp; tcp = drop_channel channel e'.tcp }

  -- The channels that have flows
  abbrev pub owners : Engine F G → List ℕ
  owners e =
      map (λ entry. entry.1.channel) e.udp.store ++ map (λ entry. entry.1.channel) e.tcp.store

  -- The loops of `ProcessControlRequests` over the pending requests of both protocols
  unfoldable pub try_pending : EngineEnv → Engine F G → Engine F G
  try_pending env e =
      let in_udp : ℕ → Bool = λ channel. serves e channel || asks channel e.tcp.pending in
      let e1 = with_udp e (try_requests udp env in_udp e.udp.pending [] (e.common, e.udp)) in
      let e2 = drop_unheld (owners e1) e1 in
      let in_tcp : ℕ → Bool = λ channel. serves e2 channel || asks channel e2.udp.pending in
      let e3 = with_tcp e2 (try_requests tcp env in_tcp e2.tcp.pending [] (e2.common, e2.tcp)) in
      drop_unheld (owners e3) e3

  -- A control request of a channel; the tick is that of its arrival.
  unfoldable pub process_request : EngineEnv → ℕ → CtrlRequest → Engine F G → Engine F G
  process_request env channel (CtrlRequest.op_create_flow id src dst port) e = with_udp e (
      request_flow udp (pending_of e.common.periodic_ticks id channel src dst port)
        (e.common, e.udp))
  process_request env channel (CtrlRequest.op_listen id ip port) e =
      with_udp e (listen_on udp env channel id ip port (e.common, e.udp))
  process_request env channel (CtrlRequest.op_tcp_create_flow id src dst port) e = with_tcp e (
      request_flow tcp (pending_of e.common.periodic_ticks id channel src dst port)
        (e.common, e.tcp))
  process_request env channel (CtrlRequest.op_tcp_listen id ip port) e =
      with_tcp e (listen_on tcp env channel id ip port (e.common, e.tcp))
  process_request env channel _ e = e

  -- Those of the channels that the engine serves, by channel
  unfoldable pub process_requests : EngineEnv → List (ℕ × CtrlRequest) → Engine F G → Engine F G
  process_requests env [] e = e
  process_requests env ((channel, req) ∷ reqs) e =
      process_requests env reqs
        (if is_member channel e.channels then process_request env channel req e else e)

  -- A listener of a channel that leaves
  unfoldable pub remove_listener : ℕ → ℕ → Engine F G → Engine F G
  remove_listener ip port e = elim (drop_listener ip port (e.common, e.udp)) [
    | some r ↦ with_udp e r
    | none ↦ elim (drop_listener ip port (e.common, e.tcp)) [ some r ↦ with_tcp e r | none ↦ e ]
  ]

  -- Those of the channel in a list of listeners
  unfoldable pub remove_listeners : ℕ → List ((ℕ × (ℕ × ℕ)) × Bool) → Engine F G → Engine F G
  remove_listeners channel [] e = e
  remove_listeners channel (((owner, (ip, port)), _) ∷ ls) e =
      remove_listeners channel ls (if owner == channel then remove_listener ip port e else e)

  unfoldable pub remove_channel : ℕ → Engine F G → Engine F G
  remove_channel channel e =
      let e1 = remove_listeners channel e.common.channel_listeners e in
      let e2 = with_udp e1 (remove_flows udp channel e1.udp.store (e1.common, e1.udp)) in
      let e3 = with_tcp e2 (remove_flows tcp channel e2.tcp.store (e2.common, e2.tcp)) in
      if is_member channel e.channels
      then record e3 { channels = erase_first channel e.channels }
      else e

  unfoldable pub remove_channels : List ℕ → Engine F G → Engine F G
  remove_channels [] e = e
  remove_channels (channel ∷ channels) e = remove_channels channels (remove_channel channel e)

  -- `ChannelsUpdate`, with the channels to be added and removed; what is removed is held up to its end.
  unfoldable pub channels_update : List ℕ → List ℕ → Engine F G → Engine F G
  channels_update added removed e =
      let e' = remove_channels removed (record e { channels = e.channels ++ added }) in
      drop_unheld (owners e') e'

  -- `PeriodicProcess`, with the control requests and the channels to be added and removed
  unfoldable pub periodic_process : EngineEnv → Tasks → Engine F G → Engine F G
  periodic_process env tasks e =
      let ticked = record e {
        common = record e.common { periodic_ticks = (e.common.periodic_ticks + 1) % 2 ^ 64 };
      } in
      channels_update tasks.added tasks.removed
        (try_pending env (process_requests env tasks.requests (check_flows ticked)))

  unfoldable pub process_rx_packet : EngineEnv → RxPacket P Q → Engine F G → Engine F G
  process_rx_packet env (RxPacket.udp_packet key p) e =
      with_udp e (process_packet udp key p (e.common, e.udp))
  process_rx_packet env (RxPacket.tcp_packet key p) e =
      with_tcp e (process_packet tcp key p (e.common, e.tcp))
  process_rx_packet env (RxPacket.arp_packet header) e = record e {
    common = record e.common { arp = process_arp_packet env.packet_alloc header e.common.arp };
  }
  process_rx_packet env RxPacket.other_packet e = e

  unfoldable pub process_rx_batch : EngineEnv → List (RxPacket P Q) → Engine F G → Engine F G
  process_rx_batch env [] e = e
  process_rx_batch env (p ∷ ps) e = process_rx_batch env ps (process_rx_packet env p e)

  unfoldable pub process_messages : List (TxMessage M N) → Engine F G → Engine F G
  process_messages [] e = e
  process_messages (m ∷ ms) e = process_messages ms (process_msg m.flow m.for_udp m.for_tcp e)

  -- `Run`, with the tasks of the slow timer if it is due
  unfoldable pub run_cycle :
      EngineEnv
      → Option Tasks
      → List (RxPacket P Q)
      → List (TxMessage M N)
      → Engine F G
      → Engine F G
  run_cycle env due ps ms e =
      process_messages ms (
        process_rx_batch env ps (elim due [ none ↦ e | some tasks ↦ periodic_process env tasks e ]))
