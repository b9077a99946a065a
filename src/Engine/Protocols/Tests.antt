-- ===== src/Engine/Protocols/Tests.antt =====
-- Inputs of the theorems on the tables of flows, with flows of both protocols, and runs of the functions.
use machnet.Base.{
  ℕ, ◌+◌, ◌≡◌, refl, true, false, none, some, List, [], ◌∷◌, arith, map, ◌==◌, if◌then◌else◌,
}
use machnet.Base.Maps.{find, insert, erase, emplace, nat_eq}
use machnet.Tcp.Deframe.{Channel}
use machnet.Tcp.Flow.{Segment, TcpFlow, new_flow}
use machnet.Udp.TxTracking.{TxMsgBuf}
use machnet.Tcp.Connection.{TxBuf}
use machnet.Udp.Flow.{
  NetFlags, UdpPacket, UdpEnv, UdpFlow, new_udp_flow, machnet_magic, send_control,
}
use machnet.Udp.Pcb.{get_snd_nxt, new_pcb, advance_rcv_nxt}
use machnet.Udp.Receive.{open_flow, check_flow, receive_packet, input_flags, input_syn}
use machnet.Engine.Ports.{
  take_port, src_port_release, release_port, SharedState, all_free, new_shared_state,
  is_local_ipv4_address, register_listener,
}
use machnet.Engine.Arp.{is_member}
use machnet.Engine.Ports.Shared.{port_free}
use machnet.Engine.Ports.Steps.{new-IsFresh}
use machnet.Engine.Flows.{
  Key, key_eq, FlowOps, Owned, Table, Common, EngineEnv, drop_channel, create_flow, handle_rto,
  check_all, check_one, process_packet, call_flow,
}
use machnet.Engine.Flows.Control.{listen_on, try_requests}
use machnet.Engine.Flows.Valid.{Valid, Valid-add}
use machnet.Engine.Flows.Check.{checked}
use machnet.Engine.Flows.Checks.{handle_rto_lem}
use machnet.Engine.Flows.Packets.{DeliveredAs, made_by, process_packet-Delivered}
use machnet.Engine.Flows.Removal.{remove_flows}
use machnet.Engine.Flows.Leaving.{has_flow, drop_channel-remove_flows}
use machnet.Engine.Flows.Listening.{Listened, grants, listen_on-Listened}
use machnet.Engine.Protocols.Kinds.{udp_ops, tcp_ops}
use machnet.Engine.Protocols.{
  Engine, process_msg, CtrlRequest, RxPacket, Tasks, new_engine, run_cycle, periodic_process,
  process_rx_batch, process_rx_packet, process_requests, process_request, process_messages,
  try_pending, channels_update, remove_channels, drop_unheld,
}
use machnet.Base.Bits.{land}
use machnet.Base.Bit.{lor, bit}
use machnet.Seq.{seq_eq}
use machnet.Engine.Protocols.Messages.{GivenTo, process_msg-GivenTo}
use machnet.Engine.Protocols.Requests.{Grown}
use machnet.Engine.Protocols.Loop.{those_waiting, try_requests_settles}

abbrev channel : Channel
channel = record { msgbuf_alloc = λ _. true; enqueue = λ _. true; usable_buf_size = 100 }

abbrev udp_env : UdpEnv
udp_env = record {
  packet_alloc = λ _. true;
  packet_bulk_alloc = λ _. true;
  msgbuf_bulk_free = λ _. true;
  batch_room = 32;
  frame_room = 1400;
  channel = channel;
}

abbrev udp : FlowOps UdpFlow UdpPacket (List TxMsgBuf)
udp = udp_ops udp_env

abbrev tcp : FlowOps TcpFlow Segment (ℕ × List TxBuf)
tcp = tcp_ops (record { packet_alloc = λ _. true; channel = channel }) (λ n. 1000 + n)

abbrev env : EngineEnv
env = record {
  rx_queue_id = 0;
  packet_alloc = λ _. true;
  reversed_rss_hash = λ a b p q. a + b + p + q;
  rss_rx_queue = λ h. 0;
}

-- An engine of one address, 1, that knows the neighbour 2.
abbrev shared : SharedState
shared = record { ipv4_port_bitmap = (1, all_free ∷ []) ∷ []; listeners_to_rxq = [] }

shared_made : new_shared_state (1 ∷ []) ≡ some shared
unfolding new_shared_state find insert
shared_made = refl

abbrev common : Common
common = record {
  shared = shared;
  arp = record {
    local_l2addr = 0xa1;
    local_ip_addrs = 1 ∷ [];
    arp_table = (2, 0xb2) ∷ [];
    tx = [];
    packet_allocs = 0;
    aborted = false;
  };
  completions = [];
  channel_listeners = [];
  periodic_ticks = 9;
  aborted = false;
}

abbrev key : Key
key = record { local_addr = 1; local_port = 80; remote_addr = 2; remote_port = 4000 }

abbrev other_key : Key
other_key = record key { remote_port = 4001 }

-- A table where channel 7 listens at port 80, with requests of the ticks 5 and 8.
abbrev empty_table : {F : Type 0} → Table F
empty_table = record {
  store = [];
  next = 0;
  active = [];
  listeners = (1, (80, 7) ∷ []) ∷ [];
  pending =
      record { timestamp = 5; id = 41; channel = 7; src_addr = 1; dst_addr = 2; dst_port = 90 }
      ∷ record { timestamp = 8; id = 42; channel = 7; src_addr = 1; dst_addr = 3; dst_port = 90 }
      ∷ [];
}

empty-Valid : {F : Type 0} → Valid {F = F} empty_table
unfolding find
empty-Valid = record {
  owned = λ k id e. absurd (cc e);
  fresh = λ id o e. absurd (cc e);
  distinct = tt;
}

abbrev of_channel : {F : Type 0} → F → Owned F
of_channel f = record { key = key; channel = 7; request = none; flow = f }

abbrev table_of : {F : Type 0} → F → Table F
table_of f = record empty_table {
  store = (0, of_channel f) ∷ [];
  next = 1;
  active = emplace key 0 [];
}

table-Valid : {F : Type 0} (f : F) → Valid (table_of f)
table-Valid f = Valid-add empty_table (of_channel f) empty-Valid

-- A flow that has asked for a connection, and one of TCP
abbrev asking : UdpFlow
asking = open_flow udp_env new_udp_flow

abbrev table : Table UdpFlow
table = table_of asking

abbrev tcp_table : Table TcpFlow
tcp_table = table_of (new_flow 1000)

mapped : find key table.active ≡ some 0
unfolding find insert
mapped = refl

stored : find 0 table.store ≡ some (of_channel asking)
unfolding find
stored = refl

handle_rto_lem_example :
    let (c', t') = handle_rto udp (common, table) in
    Valid t'
    × (c'.aborted ≡ common.aborted)
    × (find key t'.active ≡ (if (udp.periodic_check asking).0 then some 0 else none))
    × (find 0 t'.store ≡ checked udp (of_channel asking))
handle_rto_lem_example =
    handle_rto_lem udp common table key 0 (of_channel asking) (table-Valid asking) mapped stored

abbrev syn : UdpPacket
syn = record {
  magic = machnet_magic;
  net_flags = NetFlags.syn;
  last = false;
  seqno = 0;
  ackno = 0;
  sack_bitmap = [];
  sack_bitmap_count = 0;
  payload = [];
}

process_packet-Delivered_example :
    DeliveredAs udp other_key syn
      (find other_key table.active)
      (made_by udp other_key syn table)
      (common, table)
      (process_packet udp other_key syn (common, table))
process_packet-Delivered_example =
    process_packet-Delivered udp other_key syn common table (table-Valid asking)

-- The SYN has made a flow beside the first.
second_flow : find other_key (process_packet udp other_key syn (common, table)).1.active ≡ some 1
unfolding process_packet find insert call_flow create_flow
second_flow = refl

drop_channel-remove_flows_example :
    let u = drop_channel 7 (remove_flows udp 7 table.store (common, table)).1 in
    Valid u
    × ((k : Key)
        → find k u.active ≡ (if has_flow 7 k table.store then none else find k table.active))
    × ((i : ℕ) (o : Owned UdpFlow) → find i u.store ≡ some o → (o.channel == 7) ≡ false)
drop_channel-remove_flows_example =
    drop_channel-remove_flows udp 7 common table (table-Valid asking)

listen_on-Listened_example :
    Listened udp env 7 3 1 81
      (grants udp env 7 3 1 81 (common, table))
      (common, table)
      (listen_on udp env 7 3 1 81 (common, table))
listen_on-Listened_example =
    listen_on-Listened udp env 7 3 1 81 common table (new-IsFresh (1 ∷ []) shared shared_made).0
      (omega arith)

abbrev engine : Engine UdpFlow TcpFlow
engine = record { channels = 7 ∷ []; common = common; udp = table; tcp = tcp_table }

process_msg-GivenTo_example :
    GivenTo udp tcp []
      (2, [])
      (find key engine.udp.active)
      (find key engine.tcp.active)
      engine
      (process_msg udp tcp key [] (2, []) engine)
process_msg-GivenTo_example =
    process_msg-GivenTo udp tcp key [] (2, []) engine (table-Valid asking)
      (table-Valid (new_flow 1000))

try_requests_settles_example :
    let r = try_requests udp env (λ ch. ch == 7) table.pending [] (common, table) in
    Grown (common, table) r × (r.1.pending ≡ those_waiting 9 ((2, 0xb2) ∷ []) table.pending)
try_requests_settles_example =
    try_requests_settles udp env (λ ch. ch == 7) common table (table-Valid asking)
      (refl, (refl, tt))

-- The second of the two requests stays: the address 3 is not known.
one_waits : map (λ r. r.id) (those_waiting 9 ((2, 0xb2) ∷ []) table.pending) ≡ 42 ∷ []
unfolding find
one_waits = refl

-- Channel 7 listens at port 82 for UDP, a flow comes and is reset, and the slow timer runs twice.
abbrev new : Engine UdpFlow TcpFlow
new = new_engine (7 ∷ []) shared common.arp

abbrev listen_tasks : Tasks
listen_tasks = record {
  requests = (7, CtrlRequest.op_listen 3 1 82) ∷ [];
  added = [];
  removed = [];
}

abbrev tcp_listen_tasks : Tasks
tcp_listen_tasks = record {
  requests = (7, CtrlRequest.op_tcp_listen 4 1 82) ∷ [];
  added = [];
  removed = [];
}

abbrev near : Key
near = record { local_addr = 1; local_port = 82; remote_addr = 2; remote_port = 4000 }

abbrev rst : UdpPacket
rst = record syn { net_flags = NetFlags.rst; seqno = 1 }

abbrev heard : Engine UdpFlow TcpFlow
heard =
    run_cycle udp tcp env (some listen_tasks)
      (RxPacket.udp_packet near syn ∷ RxPacket.udp_packet near rst ∷ []) [] new

abbrev swept : Engine UdpFlow TcpFlow
swept =
    run_cycle udp tcp env (some (record { requests = []; added = []; removed = [] })) [] [] heard

-- The port of the listener is free after the flow has gone.
listens_at_free_port : port_free swept.common.shared 1 82 ≡ true
unfolding run_cycle periodic_process process_messages process_rx_batch process_rx_packet
    process_packet process_requests process_request listen_on register_listener take_port
    is_local_ipv4_address find insert check_all check_one try_pending try_requests channels_update
    drop_unheld remove_channels is_member call_flow create_flow src_port_release release_port erase
    receive_packet input_flags input_syn check_flow get_snd_nxt send_control new_udp_flow new_pcb
    land lor seq_eq advance_rcv_nxt bit
listens_at_free_port = refl

-- The channel may then listen there for TCP, which fails the CHECK of its listeners.
listens_twice : (run_cycle udp tcp env (some tcp_listen_tasks) [] [] swept).common.aborted ≡ true
unfolding run_cycle periodic_process process_messages process_rx_batch process_rx_packet
    process_packet process_requests process_request listen_on register_listener take_port
    is_local_ipv4_address find insert check_all check_one try_pending try_requests channels_update
    drop_unheld remove_channels is_member call_flow create_flow src_port_release release_port erase
    receive_packet input_flags input_syn check_flow get_snd_nxt send_control new_udp_flow new_pcb
    land lor seq_eq advance_rcv_nxt bit
listens_twice = refl

-- Channel 7 listens at port 82, a SYN makes a flow there, the timer runs, and the channel leaves.
abbrev opened_table : Common × Table UdpFlow
opened_table =
    handle_rto udp (process_packet udp near syn (listen_on udp env 7 3 1 82 (common, new.udp)))

one_flow : find near opened_table.1.active ≡ some 0
unfolding process_packet listen_on find insert register_listener take_port is_local_ipv4_address
    call_flow create_flow check_all check_one receive_packet input_flags input_syn check_flow
    get_snd_nxt send_control new_udp_flow new_pcb land lor seq_eq advance_rcv_nxt bit
one_flow = refl
