-- ===== src/Tcp/Send/Rest.antt =====
-- What the sending side leaves alone: all but `snd_nxt`, the FIN, the timer, and the packets sent.
use machnet.Base.{
  ℕ, zero, suc, ◌≡◌, refl, ◌∙◌, Bool, true, false, ◌&&◌, arith, List, length, min, add32, sub32,
  if◌then◌else◌,
}
use machnet.Seq.{seq_lt}
use machnet.Tcp.Deframe.{Reassembly}
use machnet.Tcp.Flow.{Env, TcpFlow, State}
use machnet.Tcp.Send.{
  send_segments, send_data_segment, send_pending_fin, arm_timer, pump_send, snd_buffered_end_seq,
  effective_mss, may_send_data,
}

pub record Rest : Type 0 where
  pub state : State
  pub una : ℕ
  pub isn : ℕ
  pub buf : List ℕ
  pub fin_pending : Bool
  pub rcv_nxt : ℕ
  pub snd_wnd : ℕ
  pub retransmit_count : ℕ
  pub time_wait_remaining : ℕ
  pub rto_ticks : ℕ
  pub rx : Reassembly
  pub callbacks : List Bool
  pub freed : List ℕ

unfoldable pub rest_of : TcpFlow → Rest
rest_of f = record {
  state = f.state;
  una = f.snd_una;
  isn = f.snd_isn;
  buf = f.snd_buf;
  fin_pending = f.fin_pending;
  rcv_nxt = f.rcv_nxt;
  snd_wnd = f.snd_wnd;
  retransmit_count = f.retransmit_count;
  time_wait_remaining = f.time_wait_remaining;
  rto_ticks = f.rto_ticks;
  rx = f.rx;
  callbacks = f.callbacks;
  freed = f.freed;
}

pub rest_of-if :
    (b : Bool) (f g h : TcpFlow)
    → rest_of f ≡ rest_of h
    → rest_of g ≡ rest_of h
    → rest_of (if b then f else g) ≡ rest_of h
rest_of-if true f g h p q = p
rest_of-if false f g h p q = q

abbrev pub seg_len : ℕ → ℕ → ℕ → TcpFlow → ℕ
seg_len d w m f = min (min (sub32 w f.snd_nxt) (sub32 d f.snd_nxt)) m

module _ (env : Env) where
  rest_of-send_data_segment :
      (seq len : ℕ) (f : TcpFlow) → rest_of (send_data_segment env seq len f).1 ≡ rest_of f
  unfolding send_data_segment rest_of
  rest_of-send_data_segment seq len f = ground arith

  rest_of-send_segments :
      (fuel d w m : ℕ) (f : TcpFlow) → rest_of (send_segments env fuel d w m f) ≡ rest_of f
  unfolding send_segments rest_of
  rest_of-send_segments zero d w m f = refl
  rest_of-send_segments (suc fuel) d w m f =
      let (sent, g) = send_data_segment env f.snd_nxt (seg_len d w m f) f in
      let next = record g { snd_nxt = add32 g.snd_nxt (seg_len d w m f) } in
      let kept = rest_of-send_data_segment f.snd_nxt (seg_len d w m f) f in
      rest_of-if (seq_lt f.snd_nxt d && seq_lt f.snd_nxt w) _ f f
        (rest_of-if sent (send_segments env fuel d w m next) g f
          (rest_of-send_segments fuel d w m next ∙ kept) kept)
        refl

  rest_of-send_pending_fin : (d : ℕ) (f : TcpFlow) → rest_of (send_pending_fin env d f) ≡ rest_of f
  unfolding send_pending_fin rest_of
  rest_of-send_pending_fin d f = ground arith

  rest_of-arm_timer : (d : ℕ) (f : TcpFlow) → rest_of (arm_timer d f) ≡ rest_of f
  unfolding arm_timer rest_of
  rest_of-arm_timer d f = ground arith

  pub rest_of-pump_send : (f : TcpFlow) → rest_of (pump_send env f) ≡ rest_of f
  unfolding pump_send
  rest_of-pump_send f =
      let d = snd_buffered_end_seq f in
      let w = add32 f.snd_una f.snd_wnd in
      let g = send_segments env (length f.snd_buf) d w (effective_mss f) f in
      let h = send_pending_fin env d g in
      rest_of-if (may_send_data f.state) (arm_timer d h) f f
        (rest_of-arm_timer d h
          ∙ rest_of-send_pending_fin d g
          ∙ rest_of-send_segments (length f.snd_buf) d w (effective_mss f) f)
        refl
