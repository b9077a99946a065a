-- ===== src/Udp/Receive.antt =====
-- src/include/flow.h, `Flow`: acknowledgements, retransmission, `InputPacket` and `PeriodicCheck`.
use machnet.Base.{
  ℕ, zero, suc, ◌+◌, ◌-◌, ◌/◌, ◌%◌, ◌^◌, Bool, true, false, ◌&&◌, none, some, List, [], ◌∷◌, drop,
  get_or, ltb, leb, ◌==◌, if◌then◌else◌, add32, sub32,
}
use machnet.Seq.{seq_lt, seq_gt, seq_eq}
use machnet.Udp.Pcb.{
  rexmit_threshold, get_snd_nxt, advance_rcv_nxt, rto_disabled, rto_disable, rto_reset, rto_advance,
  rto_expired, rto_maybe_reset, max_rexmits_reached,
}
use machnet.Udp.RxTracking.{DataPacket, consume}
use machnet.Udp.TxTracking.{TxMsgBuf, receive_acks}
use machnet.Udp.Flow.{
  FlowState, NetFlags, UdpPacket, UdpEnv, UdpFlow, machnet_magic, send_control, send_data,
  transmit_packets,
}

-- The search of the SACK bitmap for the hole to fill: at a packet, no hole, or past the four words of
-- the header, where the source reads on in the packet.
pub data Hole : Type 0 where
  hole : ℕ → TxMsgBuf → Hole
  no_hole : Hole
  past_bitmap : Hole

-- The bit at an index: eight bits of a word count, and the words count from the last.
abbrev pub sack_bit : List ℕ → ℕ → ℕ
sack_bit bitmap index = get_or bitmap (3 - index / 8) 0 / 2 ^ (index % 8) % 2

-- The `while`. The index rises in each round and ends at 32, so fuel for 33 rounds is enough.
unfoldable pub find_hole : ℕ → List ℕ → ℕ → ℕ → ℕ → List TxMsgBuf → Hole
find_hole zero bitmap index count holes_to_skip msgbufs = past_bitmap
find_hole (suc fuel) bitmap index count holes_to_skip msgbufs =
    let missing = sack_bit bitmap index == 0 in
    let rest =
      find_hole fuel bitmap (index + 1) (if missing then count else count - 1)
        (if missing then holes_to_skip - 1 else holes_to_skip) (drop 1 msgbufs) in
    if count == 0
    then no_hole
    else if leb 32 index
    then past_bitmap
    else if missing && holes_to_skip == 0
    then elim msgbufs [ [] ↦ past_bitmap | b ∷ bs ↦ hole index b ]
    else rest

module _ (env : UdpEnv) where
  -- PacketAlloc with its CHECK, and a data packet; a null buffer ends the process too.
  unfoldable pub resend : List TxMsgBuf → ℕ → UdpFlow → UdpFlow
  unfolding send_data
  resend msgbufs seqno f =
      let f' = record f { packet_allocs = f.packet_allocs + 1 } in
      if env.packet_alloc f.packet_allocs
      then elim msgbufs [ [] ↦ record f' { aborted = true } | b ∷ bs ↦ send_data env b seqno f' ]
      else record f' { aborted = true }

  unfoldable pub fast_retransmit : UdpFlow → UdpFlow
  fast_retransmit f =
      let f' = resend f.tx_tracking.unacked f.pcb.snd_una f in
      record f' {
        pcb = record (rto_reset f'.pcb) { fast_rexmits = (f'.pcb.fast_rexmits + 1) % 2 ^ 16 };
      }

  unfoldable pub rto_resend : FlowState → UdpFlow → UdpFlow
  rto_resend FlowState.established f = resend f.tx_tracking.unacked f.pcb.snd_una f
  rto_resend FlowState.syn_received f = send_control env f.pcb.snd_una NetFlags.syn_ack f
  rto_resend FlowState.syn_sent f = send_control env f.pcb.snd_una NetFlags.syn f
  rto_resend FlowState.closed f = f

  unfoldable pub rto_retransmit : UdpFlow → UdpFlow
  rto_retransmit f =
      let f' = rto_resend f.state f in
      record f' {
        pcb = record (rto_reset f'.pcb) { rto_rexmits = (f'.pcb.rto_rexmits + 1) % 2 ^ 16 };
      }

  -- An acknowledgement beyond the third of the same number: the next hole is filled, or else new
  -- packets may go out.
  unfoldable pub fill_hole : UdpPacket → UdpFlow → UdpFlow
  unfolding add32 find_hole
  fill_hole k f =
      elim (find_hole 33 k.sack_bitmap 0 k.sack_bitmap_count
        (f.pcb.duplicate_acks - rexmit_threshold) f.tx_tracking.unacked) [
          | hole index b ↦
              let f' = resend (b ∷ []) (add32 f.pcb.snd_una index) f in
              record f' { pcb = rto_reset f'.pcb }
          | no_hole ↦ transmit_packets env f
          | past_bitmap ↦ record f { aborted = true }
        ]

  unfoldable pub duplicate_ack : UdpPacket → UdpFlow → UdpFlow
  duplicate_ack k f =
      let p = record f.pcb {
        duplicate_acks = (f.pcb.duplicate_acks + 1) % 2 ^ 16;
        snd_ooo_acks = k.sack_bitmap_count;
      } in
      let f' = record f { pcb = p } in
      if ltb p.duplicate_acks rexmit_threshold
      then transmit_packets env f'
      else if p.duplicate_acks == rexmit_threshold
      then transmit_packets env (fast_retransmit f')
      else fill_hole k f'

  abbrev pub is_syn_received : FlowState → Bool
  is_syn_received FlowState.syn_received = true
  is_syn_received _ = false

  -- An acknowledgement of new packets; that of the SYN-ACK opens the flow.
  unfoldable pub new_ack : ℕ → UdpFlow → UdpFlow
  unfolding sub32
  new_ack ackno f =
      let opening = is_syn_received f.state in
      let acked = sub32 ackno f.pcb.snd_una in
      let p = record f.pcb {
        snd_una = ackno;
        duplicate_acks = 0;
        snd_ooo_acks = 0;
        rto_rexmits = 0;
      } in
      elim (receive_acks env.msgbuf_bulk_free 0 (if opening then acked - 1 else acked)
        f.tx_tracking) [
          | none ↦ record f { aborted = true }
          | some t ↦ transmit_packets env (record f {
            state = if opening then FlowState.established else f.state;
            tx_tracking = t;
            pcb = rto_maybe_reset p;
          })
        ]

  unfoldable pub process_ack : UdpPacket → UdpFlow → UdpFlow
  process_ack k f =
      if seq_lt k.ackno f.pcb.snd_una
      then f
      else if seq_eq k.ackno f.pcb.snd_una
      then duplicate_ack k f
      else if seq_gt k.ackno f.pcb.snd_nxt
      then transmit_packets env f
      else new_ack k.ackno f

  unfoldable pub input_syn : FlowState → UdpPacket → UdpFlow → UdpFlow
  input_syn FlowState.closed k f =
      let (seqno, p) = get_snd_nxt (advance_rcv_nxt (record f.pcb { rcv_nxt = k.seqno })) in
      record (send_control env seqno NetFlags.syn_ack (record f { pcb = p })) {
        state = FlowState.syn_received;
      }
  input_syn FlowState.syn_received k f = send_control env f.pcb.snd_una NetFlags.syn_ack f
  input_syn _ k f = f

  abbrev pub send_flow_ack : UdpFlow → UdpFlow
  send_flow_ack f = send_control env f.pcb.snd_nxt NetFlags.ack f

  unfoldable pub input_syn_ack : FlowState → UdpPacket → UdpFlow → UdpFlow
  unfolding add32
  input_syn_ack FlowState.syn_sent k f =
      let p = record f.pcb { snd_una = add32 f.pcb.snd_una 1; rcv_nxt = k.seqno } in
      if k.ackno == f.pcb.snd_nxt
      then send_flow_ack (record f {
        pcb = rto_maybe_reset (advance_rcv_nxt p);
        state = FlowState.established;
        callbacks = true ∷ f.callbacks;
      })
      else f
  input_syn_ack FlowState.established k f = if k.ackno == f.pcb.snd_nxt then send_flow_ack f else f
  input_syn_ack _ k f = f

  unfoldable pub input_data : FlowState → UdpPacket → UdpFlow → UdpFlow
  input_data FlowState.established k f =
      let packet : DataPacket = record { seqno = k.seqno; last = k.last; payload = k.payload } in
      let (consumed, (p, r)) = consume env.channel packet (f.pcb, f.rx_tracking) in
      let f' = record f { pcb = p; rx_tracking = r } in if consumed then send_flow_ack f' else f'
  input_data _ k f = f

  unfoldable pub input_flags : NetFlags → UdpPacket → UdpFlow → UdpFlow
  input_flags NetFlags.syn k f = input_syn f.state k f
  input_flags NetFlags.syn_ack k f = input_syn_ack f.state k f
  input_flags NetFlags.rst k f =
      if seq_eq k.seqno f.pcb.rcv_nxt then record f { state = FlowState.closed } else f
  input_flags NetFlags.ack k f = process_ack k f
  input_flags NetFlags.data_packet k f = input_data f.state k f
  input_flags NetFlags.other k f = f

  -- `InputPacket`
  unfoldable pub receive_packet : UdpPacket → UdpFlow → UdpFlow
  receive_packet k f = if k.magic == machnet_magic then input_flags k.net_flags k f else f

  abbrev pub is_closed_flow : FlowState → Bool
  is_closed_flow FlowState.closed = true
  is_closed_flow _ = false

  abbrev pub is_syn_sent : FlowState → Bool
  is_syn_sent FlowState.syn_sent = true
  is_syn_sent _ = false

  -- `InitiateHandshake`
  unfoldable pub open_flow : UdpFlow → UdpFlow
  open_flow f =
      let (seqno, p) = get_snd_nxt f.pcb in
      let f' = send_control env seqno NetFlags.syn (record f { pcb = p }) in
      if is_closed_flow f.state
      then record f' { pcb = rto_reset f'.pcb; state = FlowState.syn_sent }
      else record f { aborted = true }

  -- `ShutDown`
  unfoldable pub close_flow : UdpFlow → UdpFlow
  close_flow f =
      let p = rto_disable f.pcb in
      if is_closed_flow f.state
      then f
      else record (send_control env p.snd_nxt NetFlags.rst (record f { pcb = p })) {
        state = FlowState.closed;
      }

  -- `PeriodicCheck`; false as the first part: the engine removes the flow.
  unfoldable pub check_flow : UdpFlow → Bool × UdpFlow
  check_flow f =
      let f' = record f { pcb = rto_advance f.pcb } in
      if is_closed_flow f.state
      then (false, f)
      else if rto_disabled f.pcb
      then (true, f)
      else if max_rexmits_reached f'.pcb
      then (
        false,
        if is_syn_sent f.state then record f' { callbacks = false ∷ f'.callbacks } else f',
      )
      else if rto_expired f'.pcb
      then (true, rto_retransmit f')
      else (true, f')
