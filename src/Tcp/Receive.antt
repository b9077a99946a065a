-- ===== src/Tcp/Receive.antt =====
-- src/include/tcp_flow.h: `InputPacket` and the handlers of the states of a connection.
use machnet.Base.{
  ℕ, ◌+◌, ◌-◌, ◌%◌, ◌^◌, Bool, true, false, not, ◌&&◌, ◌||◌, ◌∷◌, take, drop, ltb, ◌==◌,
  if◌then◌else◌, add32, sub32,
}
use machnet.Seq.{seq_lt, seq_leq, seq_gt}
use machnet.Tcp.Deframe.{consume_payload}
use machnet.Tcp.Flow.{State, Env, TcpFlow, Segment, tcp_size, ipv4_size, time_wait_ticks}
use machnet.Tcp.Send.{send_syn_ack, send_ack, send_rst, fin_outstanding, pump_send, advance_snd_una}
use machnet.Tcp.Options.{parse_tcp_options}

-- The payload length by IP total_length.
abbrev pub payload_len : Segment → ℕ
payload_len p = p.ip_total_len - ipv4_size - p.header_length

module _ (env : Env) where
  -- Hand `len` bytes after the first `skip` to the reassembly, and move `rcv_nxt` past them.
  unfoldable pub consume_at : ℕ → ℕ → Segment → TcpFlow → TcpFlow
  consume_at skip len p f = record f {
    rx = consume_payload env.channel f.rx (take len (drop skip p.bytes));
    rcv_nxt = add32 f.rcv_nxt (len % 2 ^ 32);
  }

  unfoldable pub process_in_order_payload : Segment → TcpFlow → Bool × TcpFlow
  unfolding consume_at
  process_in_order_payload p f =
      let len = payload_len p in
      let seg_end = add32 p.seq (len % 2 ^ 32) in
      let overlap = sub32 f.rcv_nxt p.seq in
      if len == 0
      then (false, f)
      else if p.seq == f.rcv_nxt
      then (true, consume_at 0 len p f)
      else if seq_leq p.seq f.rcv_nxt && seq_gt seg_end f.rcv_nxt
      then (true, consume_at overlap (len - overlap) p f)
      else (false, f)

  unfoldable pub handle_listen : Segment → TcpFlow → TcpFlow
  handle_listen p f =
      let f1 = parse_tcp_options p.options p.header_length f in
      let f2 = send_syn_ack env (record f1 { rcv_nxt = add32 p.seq 1 }) in
      if p.flags.syn
      then record f2 { state = State.syn_received; rto_active = true; rto_remaining = f2.rto_ticks }
      else f

  unfoldable pub complete_handshake : Segment → TcpFlow → TcpFlow
  complete_handshake p f =
      let f1 = record f { rcv_nxt = add32 p.seq 1; snd_una = p.ack; snd_wnd = p.window } in
      let f2 = send_ack env (parse_tcp_options p.options p.header_length f1) in
      record f2 {
        state = State.established;
        rto_active = false;
        retransmit_count = 0;
        callbacks = true ∷ f2.callbacks;
      }

  unfoldable pub simultaneous_open : Segment → TcpFlow → TcpFlow
  simultaneous_open p f =
      let f1 = parse_tcp_options p.options p.header_length f in
      let f2 = send_syn_ack env (record f1 { rcv_nxt = add32 p.seq 1 }) in
      record f2 { state = State.syn_received }

  unfoldable pub handle_syn_sent : Segment → TcpFlow → TcpFlow
  handle_syn_sent p f =
      if p.flags.syn && p.flags.ack
      then (if p.ack == f.snd_nxt then complete_handshake p f else f)
      else if p.flags.syn
      then simultaneous_open p f
      else f

  -- An ACK for data that was consumed, and for data that was not: the code answers either way.
  unfoldable pub take_payload : Segment → TcpFlow → TcpFlow
  unfolding process_in_order_payload
  take_payload p f =
      if ltb 0 (payload_len p) then send_ack env (process_in_order_payload p f).1 else f

  unfoldable pub handle_syn_received : Segment → TcpFlow → TcpFlow
  unfolding process_in_order_payload
  handle_syn_received p f =
      let f1 = record f {
        state = State.established;
        snd_una = p.ack;
        snd_wnd = p.window;
        rto_active = false;
        retransmit_count = 0;
      } in
      let (consumed, f2) = process_in_order_payload p f1 in
      if p.flags.ack && p.ack == f.snd_nxt then (if consumed then send_ack env f2 else f2) else f

  unfoldable pub take_ack : Segment → TcpFlow → TcpFlow
  take_ack p f = if p.flags.ack then advance_snd_una p.ack f else f

  abbrev pub fin_seq : Segment → ℕ
  fin_seq p = add32 p.seq (payload_len p % 2 ^ 32)

  -- The FIN of an established connection.
  unfoldable pub take_fin : Segment → TcpFlow → TcpFlow
  take_fin p f =
      if p.flags.fin
      then (if fin_seq p == f.rcv_nxt
          then record (send_ack env (record f { rcv_nxt = add32 f.rcv_nxt 1 })) {
            state = State.close_wait;
          }
          else if seq_lt (fin_seq p) f.rcv_nxt
          then send_ack env f
          else f)
      else f

  unfoldable pub handle_established : Segment → TcpFlow → TcpFlow
  handle_established p f =
      let f1 = take_ack p f in
      let f2 = if p.flags.ack then record f1 { snd_wnd = p.window } else f1 in
      if p.flags.syn then send_ack env f else take_fin p (take_payload p f2)

  -- The FIN of a connection that this side has closed already.
  unfoldable pub take_last_fin : Segment → TcpFlow → TcpFlow
  take_last_fin p f =
      let f1 = if fin_seq p == f.rcv_nxt then record f { rcv_nxt = add32 f.rcv_nxt 1 } else f in
      record (send_ack env f1) { state = State.time_wait; time_wait_remaining = time_wait_ticks }

  unfoldable pub handle_fin_wait1 : Segment → TcpFlow → TcpFlow
  handle_fin_wait1 p f =
      let f1 = take_payload p (take_ack p f) in
      let our_fin_acked = f1.fin_sent && not (fin_outstanding f1) in
      if p.flags.fin
      then take_last_fin p f1
      else if our_fin_acked
      then record f1 { state = State.fin_wait2 }
      else f1

  unfoldable pub handle_fin_wait2 : Segment → TcpFlow → TcpFlow
  handle_fin_wait2 p f = let f1 = take_payload p f in if p.flags.fin then take_last_fin p f1 else f1

  unfoldable pub handle_last_ack : Segment → TcpFlow → TcpFlow
  handle_last_ack p f =
      if p.flags.ack then record (advance_snd_una p.ack f) { state = State.closed } else f

  -- The `switch` of InputPacket.
  unfoldable pub dispatch : State → Segment → TcpFlow → TcpFlow
  dispatch State.listen p f = handle_listen p f
  dispatch State.syn_sent p f = handle_syn_sent p f
  dispatch State.syn_received p f = handle_syn_received p f
  dispatch State.established p f = handle_established p f
  dispatch State.fin_wait1 p f = handle_fin_wait1 p f
  dispatch State.fin_wait2 p f = handle_fin_wait2 p f
  dispatch State.close_wait p f = take_ack p f
  dispatch State.last_ack p f = handle_last_ack p f
  dispatch State.time_wait p f = f
  dispatch State.closed p f = if p.flags.rst then f else send_rst env f

  unfoldable pub input_packet : Segment → TcpFlow → TcpFlow
  input_packet p f =
      if ltb p.header_length tcp_size || ltb 60 p.header_length
      then f
      else if ltb p.ip_total_len (ipv4_size + p.header_length)
      then f
      else if p.flags.rst
      then record f { state = State.closed }
      else pump_send env (dispatch f.state p f)
