-- ===== src/Tcp/Connection.antt =====
-- src/include/tcp_flow.h: opening and closing a connection, the messages that the application sends,
-- and the periodic check.
use machnet.Base.{
  ℕ, ◌+◌, ◌-◌, ◌%◌, ◌^◌, min, Bool, true, false, not, ◌&&◌, List, [], ◌∷◌, ◌++◌, length, take, ltb,
  ◌==◌, if◌then◌else◌, htobe32,
}
use machnet.Seq.{seq_lt}
use machnet.Tcp.Deframe.{msg_len_prefix_size}
use machnet.Tcp.Flow.{State, Env, TcpFlow, max_send_buf, max_retransmissions}
use machnet.Tcp.Send.{
  send_syn, send_syn_ack, send_rst, snd_buffered_end_seq, pump_send, retransmit_unacked,
  send_zero_window_probe,
}

-- A buffer of a message of the application, by its index: `linked` is is_sg() || has_chain(). The
-- chain of a message is the list of its buffers by their `next` indices.
pub record TxBuf : Type 0 where
  pub index : ℕ
  pub linked : Bool
  pub bytes : List ℕ

-- The buffers of the chain that the flow reaches: it goes on from linked buffers only.
unfoldable pub reached : List TxBuf → List TxBuf
reached [] = []
reached (b ∷ bs) = b ∷ (if b.linked then reached bs else [])

-- Their indices, put before those given back so far.
unfoldable pub log_indices : List TxBuf → List ℕ → List ℕ
log_indices [] freed = freed
log_indices (b ∷ bs) freed = log_indices bs (b.index ∷ freed)

-- `FreeMsgBufChain`
unfoldable pub free_chain : List TxBuf → TcpFlow → TcpFlow
unfolding reached log_indices
free_chain chain f = record f { freed = log_indices (reached chain) f.freed }

-- The loop that copies the payload, with the bytes that are missing of the declared length.
unfoldable pub copy_chain : ℕ → List TxBuf → List ℕ
copy_chain missing [] = []
copy_chain missing (b ∷ bs) =
    let n = min (length b.bytes) missing in
    let rest = copy_chain (missing - n) bs in
    if missing == 0 then [] else take n b.bytes ++ (if b.linked then rest else [])

abbrev pub may_send_message : State → Bool
may_send_message State.established = true
may_send_message State.close_wait = true
may_send_message _ = false

abbrev pub is_closed : State → Bool
is_closed State.closed = true
is_closed _ = false

module _ (env : Env) where
  unfoldable pub initiate_handshake : TcpFlow → TcpFlow
  initiate_handshake f =
      let f1 = send_syn env f in
      let f2 = record f1 {
        state = State.syn_sent;
        rto_active = true;
        rto_remaining = f1.rto_ticks;
      } in
      if is_closed f.state then f2 else record f { aborted = true }

  unfoldable pub start_passive_open : TcpFlow → TcpFlow
  start_passive_open f =
      if is_closed f.state then record f { state = State.listen } else record f { aborted = true }

  -- The state that a close leads to, if the connection is open.
  abbrev pub closing_state : State → State
  closing_state State.established = State.fin_wait1
  closing_state _ = State.last_ack

  unfoldable pub shut_down : TcpFlow → TcpFlow
  shut_down f =
      if may_send_message f.state
      then pump_send env (record f { fin_pending = true; state = closing_state f.state })
      else record (send_rst env f) { state = State.closed; rto_active = false }

  unfoldable pub output_message : ℕ → List TxBuf → TcpFlow → TcpFlow
  unfolding htobe32
  output_message msg_len chain f =
      let framed_len = (msg_len_prefix_size + msg_len) % 2 ^ 32 in
      let copied = copy_chain msg_len chain in
      let buf = f.snd_buf ++ (htobe32 msg_len ++ copied) in
      if may_send_message f.state
      then (if ltb max_send_buf (length f.snd_buf + framed_len)
          then free_chain chain f
          else if length copied == msg_len
          then pump_send env (free_chain chain (record f { snd_buf = buf }))
          else free_chain chain f)
      else free_chain chain f

  -- The zero-window probe, or go-back-N.
  unfoldable pub retransmit_data : TcpFlow → TcpFlow
  retransmit_data f =
      if f.snd_wnd == 0 && seq_lt f.snd_nxt (snd_buffered_end_seq f)
      then send_zero_window_probe env f
      else retransmit_unacked env f

  unfoldable pub retransmit : State → TcpFlow → TcpFlow
  retransmit State.syn_sent f = send_syn env f
  retransmit State.syn_received f = send_syn_ack env f
  retransmit State.established f = retransmit_data f
  retransmit State.close_wait f = retransmit_data f
  retransmit State.fin_wait1 f = retransmit_data f
  retransmit State.last_ack f = retransmit_data f
  retransmit _ f = f

  -- The timer of an open or opening connection.
  unfoldable pub check_timer : TcpFlow → Bool × TcpFlow
  check_timer f =
      let count = (f.retransmit_count + 1) % 2 ^ 32 in
      let f1 = record f { retransmit_count = count } in
      let f2 = retransmit f1.state f1 in
      if not f.rto_active
      then (true, f)
      else if ltb 0 f.rto_remaining
      then (true, record f { rto_remaining = f.rto_remaining - 1 })
      else if ltb max_retransmissions count
      then (false, record f1 { callbacks = false ∷ f1.callbacks; state = State.closed })
      else (true, record f2 { rto_remaining = f2.rto_ticks })

  unfoldable pub check_time_wait : TcpFlow → Bool × TcpFlow
  check_time_wait f =
      if ltb 0 f.time_wait_remaining
      then (true, record f { time_wait_remaining = f.time_wait_remaining - 1 })
      else (false, record f { state = State.closed })

  -- The `switch` of PeriodicCheck.
  unfoldable pub check_at : State → TcpFlow → Bool × TcpFlow
  check_at State.closed f = (false, f)
  check_at State.time_wait f = check_time_wait f
  check_at _ f = check_timer f

  -- False as the first part: the engine removes the flow.
  unfoldable pub periodic_check : TcpFlow → Bool × TcpFlow
  periodic_check f = check_at f.state f
