-- ===== src/Udp/Flow.antt =====
-- src/include/flow.h, `Flow`: the sending side of a UDP flow. The Ethernet, IP and UDP headers are
-- constants of the flow and are left out of the packets.
use machnet.Base.{
  ℕ, zero, suc, ◌+◌, ◌-◌, ◌^◌, min, Bool, true, false, none, some, List, [], ◌∷◌, take, length, ltb,
  ◌==◌, if◌then◌else◌,
}
use machnet.Tcp.Deframe.{Channel}
use machnet.Udp.Pcb.{Pcb, new_pcb, effective_wnd, get_snd_nxt, rto_disabled, rto_enable}
use machnet.Udp.RxTracking.{RxTracking, new_rx_tracking}
use machnet.Udp.TxTracking.{
  TxMsgBuf, TxTracking, new_tx_tracking, append, get_and_update_oldest_unsent,
}

pub data FlowState : Type 0 where
  closed : FlowState
  syn_sent : FlowState
  syn_received : FlowState
  established : FlowState

-- MachnetPktHdr::MachnetFlags; `other` is any other byte.
pub data NetFlags : Type 0 where
  data_packet : NetFlags
  syn : NetFlags
  ack : NetFlags
  syn_ack : NetFlags
  rst : NetFlags
  other : NetFlags

-- A packet with its Machnet header. A data packet leaves the bitmap as the memory had it; the model
-- has it empty.
pub record UdpPacket : Type 0 where
  pub magic : ℕ
  pub net_flags : NetFlags
  pub last : Bool
  pub seqno : ℕ
  pub ackno : ℕ
  pub sack_bitmap : List ℕ
  pub sack_bitmap_count : ℕ
  pub payload : List ℕ

-- The answers of the packet pool to the k-th `PacketAlloc` and `PacketBulkAlloc`, that of the channel to
-- the release of sent buffers after which k are released, the room of a batch,
-- the bytes of payload that a frame holds, and the channel.
pub record UdpEnv : Type 0 where
  pub packet_alloc : ℕ → Bool
  pub packet_bulk_alloc : ℕ → Bool
  pub msgbuf_bulk_free : ℕ → Bool
  pub batch_room : ℕ
  pub frame_room : ℕ
  pub channel : Channel

-- `tx` and `callbacks` log the packets sent and the flags given to the callback, newest first.
pub record UdpFlow : Type 0 where
  pub state : FlowState
  pub pcb : Pcb
  pub tx_tracking : TxTracking
  pub rx_tracking : RxTracking
  pub tx : List UdpPacket
  pub callbacks : List Bool
  pub packet_allocs : ℕ
  pub bulk_allocs : ℕ
  pub aborted : Bool

unfoldable pub new_udp_flow : UdpFlow
new_udp_flow = record {
  state = FlowState.closed;
  pcb = new_pcb;
  tx_tracking = new_tx_tracking;
  rx_tracking = new_rx_tracking;
  tx = [];
  callbacks = [];
  packet_allocs = 0;
  bulk_allocs = 0;
  aborted = false;
}

abbrev pub machnet_magic : ℕ
machnet_magic = 0x4e53

-- PrepareMachnetHdr: the first four words of the bitmap go into the header.
abbrev pub control_packet : ℕ → NetFlags → Pcb → UdpPacket
control_packet seqno flags p = record {
  magic = machnet_magic;
  net_flags = flags;
  last = false;
  seqno = seqno;
  ackno = p.rcv_nxt;
  sack_bitmap = take 4 p.sack_bitmap;
  sack_bitmap_count = p.sack_bitmap_count;
  payload = [];
}

abbrev pub data_packet_of : TxMsgBuf → ℕ → UdpPacket
data_packet_of b seqno = record {
  magic = machnet_magic;
  net_flags = NetFlags.data_packet;
  last = b.last;
  seqno = seqno;
  ackno = 2 ^ 32 - 1;
  sack_bitmap = [];
  sack_bitmap_count = 0;
  payload = b.bytes;
}

module _ (env : UdpEnv) where
  -- SendControlPacket, with the CHECK of the allocation.
  unfoldable pub send_control : ℕ → NetFlags → UdpFlow → UdpFlow
  send_control seqno flags f =
      if env.packet_alloc f.packet_allocs
      then record f {
        tx = control_packet seqno flags f.pcb ∷ f.tx;
        packet_allocs = f.packet_allocs + 1;
      }
      else record f { packet_allocs = f.packet_allocs + 1; aborted = true }

  -- PrepareDataPacket and SendPackets, with the CHECK of the size of the frame.
  unfoldable pub send_data : TxMsgBuf → ℕ → UdpFlow → UdpFlow
  send_data b seqno f =
      if ltb env.frame_room (length b.bytes)
      then record f { aborted = true }
      else record f { tx = data_packet_of b seqno ∷ f.tx }

  -- The packets of a batch: as many unsent buffers, each with the next number.
  unfoldable pub fill_batch : ℕ → UdpFlow → UdpFlow
  unfolding send_data get_snd_nxt
  fill_batch zero f = f
  fill_batch (suc n) f = elim (get_and_update_oldest_unsent f.tx_tracking) [
    | none ↦ f
    | some (b, t) ↦
        let (seqno, p) = get_snd_nxt f.pcb in
        fill_batch n (send_data b seqno (record f { tx_tracking = t; pcb = p }))
  ]

  -- The `do ... while`. Each round takes a packet or more off `remaining`, which is fuel enough. False
  -- if a batch could not be allocated.
  unfoldable pub transmit_loop : ℕ → ℕ → UdpFlow → Bool × UdpFlow
  transmit_loop zero remaining f = (true, f)
  transmit_loop (suc fuel) remaining f =
      let cnt = min remaining env.batch_room in
      let f' = record f { bulk_allocs = f.bulk_allocs + 1 } in
      let rest = transmit_loop fuel (remaining - cnt) (fill_batch cnt f') in
      if remaining == 0
      then (true, f)
      else if env.packet_bulk_alloc f.bulk_allocs
      then rest
      else (false, f')

  unfoldable pub transmit_packets : UdpFlow → UdpFlow
  transmit_packets f =
      let remaining = min (effective_wnd f.pcb) f.tx_tracking.num_unsent_msgbufs in
      let (sent, f') = transmit_loop remaining remaining f in
      if remaining == 0
      then f
      else if sent
      then (if rto_disabled f'.pcb then record f' { pcb = rto_enable f'.pcb } else f')
      else f'

  -- `OutputMessage` of the buffers of a message.
  unfoldable pub send_message : List TxMsgBuf → UdpFlow → UdpFlow
  send_message msg f =
      transmit_packets
        (record f { tx_tracking = append env.channel.usable_buf_size msg f.tx_tracking })
