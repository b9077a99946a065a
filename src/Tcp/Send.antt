-- ===== src/Tcp/Send.antt =====
-- src/include/tcp_flow.h, the sending side: control packets, data segments, the window-gated pump,
-- retransmission, and what an acknowledgement removes. The Ethernet and IP headers and the checksum
-- are constants of the flow or the work of the device, and are left out of `Packet`.
pub mod Pump
pub mod Window
pub mod Acks
pub mod Rest
use machnet.Base.{
  ℕ, zero, suc, ◌+◌, ◌%◌, ◌/◌, ◌^◌, min, Bool, true, false, not, ◌&&◌, ◌||◌, List, [], ◌∷◌, length,
  take, drop, ltb, ◌==◌, if◌then◌else◌, add32, sub32,
}
use machnet.Seq.{seq_lt, seq_leq, seq_gt}
use machnet.Tcp.Flow.{State, Env, TcpFlow, Packet, Flags, no_flags, ack_flag, default_mss}

-- Kind 2, length 4, and the MSS in network order.
abbrev pub mss_option : ℕ → List ℕ
mss_option mss = 2 ∷ 4 ∷ (mss / 2 ^ 8 % 256) ∷ (mss % 256) ∷ []

unfoldable pub snd_buffered_end_seq : TcpFlow → ℕ
snd_buffered_end_seq f = add32 f.snd_una (length f.snd_buf % 2 ^ 32)

unfoldable pub bytes_in_flight : TcpFlow → ℕ
bytes_in_flight f = sub32 f.snd_nxt f.snd_una

unfoldable pub fin_outstanding : TcpFlow → Bool
fin_outstanding f = f.fin_sent && seq_lt f.snd_una (add32 f.snd_fin_seq 1)

abbrev pub effective_mss : TcpFlow → ℕ
effective_mss f = min f.peer_mss default_mss

unfoldable pub arm_timer : ℕ → TcpFlow → TcpFlow
unfolding bytes_in_flight fin_outstanding
arm_timer data_end f =
    let pending = ltb 0 (bytes_in_flight f) || fin_outstanding f || seq_lt f.snd_nxt data_end in
    if pending && not f.rto_active
    then record f { rto_active = true; rto_remaining = f.rto_ticks }
    else f

abbrev pub may_send_data : State → Bool
may_send_data State.established = true
may_send_data State.close_wait = true
may_send_data State.fin_wait1 = true
may_send_data State.last_ack = true
may_send_data _ = false

unfoldable pub advance_snd_una : ℕ → TcpFlow → TcpFlow
unfolding fin_outstanding
advance_snd_una ack f =
    let acked = sub32 ack f.snd_una in
    let f' = record f {
      snd_buf = drop (min acked (length f.snd_buf)) f.snd_buf;
      snd_una = ack;
      retransmit_count = 0;
    } in
    if seq_gt ack f.snd_una && seq_leq ack f.snd_nxt
    then (if f'.snd_una == f'.snd_nxt && length f'.snd_buf == 0 && not (fin_outstanding f')
        then record f' { rto_active = false }
        else record f' { rto_remaining = f'.rto_ticks })
    else f

module _ (env : Env) where
  -- PacketAlloc, SendPackets: the next answer of the pool, with the packet sent if there is one.
  unfoldable pub send_packet : TcpFlow → Packet → Bool × TcpFlow
  send_packet f p =
      if env.packet_alloc f.packet_allocs
      then (true, record f { tx = p ∷ f.tx; packet_allocs = f.packet_allocs + 1 })
      else (false, record f { packet_allocs = f.packet_allocs + 1 })

  -- CHECK_NOTNULL of the allocation.
  unfoldable pub send_or_abort : TcpFlow → Packet → TcpFlow
  unfolding send_packet
  send_or_abort f p =
      let (sent, f') = send_packet f p in if sent then f' else record f' { aborted = true }

  unfoldable pub send_control_packet : ℕ → ℕ → Flags → TcpFlow → TcpFlow
  unfolding send_or_abort
  send_control_packet seq ack flags f = send_or_abort f (record {
    seq = seq;
    ack = ack;
    flags = flags;
    window = f.rcv_wnd;
    mss_option = [];
    payload = [];
  })

  unfoldable pub send_control_packet_with_mss : ℕ → ℕ → Flags → ℕ → TcpFlow → TcpFlow
  unfolding send_or_abort
  send_control_packet_with_mss seq ack flags mss f = send_or_abort f (record {
    seq = seq;
    ack = ack;
    flags = flags;
    window = f.rcv_wnd;
    mss_option = mss_option mss;
    payload = [];
  })

  unfoldable pub send_syn : TcpFlow → TcpFlow
  unfolding send_control_packet_with_mss
  send_syn f =
      let f' =
        send_control_packet_with_mss f.snd_isn 0 (record no_flags { syn = true }) default_mss f in
      record f' { snd_nxt = add32 f'.snd_isn 1 }

  unfoldable pub send_syn_ack : TcpFlow → TcpFlow
  unfolding send_control_packet_with_mss
  send_syn_ack f =
      let flags = record ack_flag { syn = true } in
      let f' = send_control_packet_with_mss f.snd_isn f.rcv_nxt flags default_mss f in
      record f' { snd_nxt = add32 f'.snd_isn 1 }

  unfoldable pub send_ack : TcpFlow → TcpFlow
  unfolding send_control_packet
  send_ack f = send_control_packet f.snd_nxt f.rcv_nxt ack_flag f

  unfoldable pub send_rst : TcpFlow → TcpFlow
  unfolding send_control_packet
  send_rst f = send_control_packet f.snd_nxt 0 (record no_flags { rst = true }) f

  -- The payload is copied from the buffer at the offset of `seq`.
  unfoldable pub send_data_segment : ℕ → ℕ → TcpFlow → Bool × TcpFlow
  unfolding send_packet
  send_data_segment seq len f = send_packet f (record {
    seq = seq;
    ack = f.rcv_nxt;
    flags = record ack_flag { psh = true };
    window = f.rcv_wnd;
    mss_option = [];
    payload = take len (drop (sub32 seq f.snd_una) f.snd_buf);
  })

  unfoldable pub send_fin_segment : TcpFlow → Bool × TcpFlow
  unfolding send_packet
  send_fin_segment f = send_packet f (record {
    seq = f.snd_nxt;
    ack = f.rcv_nxt;
    flags = record ack_flag { fin = true };
    window = f.rcv_wnd;
    mss_option = [];
    payload = [];
  })

  -- The `while` of PumpSend. Each round sends a byte or more, so fuel for the buffer is enough.
  unfoldable pub send_segments : ℕ → ℕ → ℕ → ℕ → TcpFlow → TcpFlow
  send_segments zero data_end win_edge eff_mss f = f
  send_segments (suc fuel) data_end win_edge eff_mss f =
      let to_win = sub32 win_edge f.snd_nxt in
      let to_end = sub32 data_end f.snd_nxt in
      let seg_len = min (min to_win to_end) eff_mss in
      let (sent, f') = send_data_segment f.snd_nxt seg_len f in
      let rest =
        send_segments fuel data_end win_edge eff_mss
          (record f' { snd_nxt = add32 f'.snd_nxt seg_len }) in
      if seq_lt f.snd_nxt data_end && seq_lt f.snd_nxt win_edge
      then (if sent then rest else f')
      else f

  unfoldable pub send_pending_fin : ℕ → TcpFlow → TcpFlow
  unfolding send_fin_segment
  send_pending_fin data_end f =
      let (sent, f') = send_fin_segment f in
      if f.fin_pending && not f.fin_sent && f.snd_nxt == data_end
      then (if sent
          then record f' { snd_fin_seq = f'.snd_nxt; snd_nxt = add32 f'.snd_nxt 1; fin_sent = true }
          else f')
      else f

  unfoldable pub pump_send : TcpFlow → TcpFlow
  pump_send f =
      let data_end = snd_buffered_end_seq f in
      let win_edge = add32 f.snd_una f.snd_wnd in
      if may_send_data f.state
      then arm_timer data_end (
          send_pending_fin data_end
            (send_segments (length f.snd_buf) data_end win_edge (effective_mss f) f))
      else f

  unfoldable pub retransmit_unacked : TcpFlow → TcpFlow
  retransmit_unacked f = pump_send (record f { snd_nxt = f.snd_una; fin_sent = false })

  unfoldable pub send_zero_window_probe : TcpFlow → TcpFlow
  unfolding send_data_segment snd_buffered_end_seq
  send_zero_window_probe f =
      if seq_lt f.snd_nxt (snd_buffered_end_seq f) then (send_data_segment f.snd_nxt 1 f).1 else f
