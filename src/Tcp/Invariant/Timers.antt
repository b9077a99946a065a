-- ===== src/Tcp/Invariant/Timers.antt =====
-- The invariant through `PeriodicCheck`: retransmission, the timers, and the opening calls.
use machnet.Base.{
  ℕ, ◌+◌, ◌-◌, ◌%◌, ◌<◌, ◌^◌, ◌≡◌, refl, sym, ◌∙◌, false, not, ◌&&◌, arith, ltb, ◌==◌,
}
use machnet.Seq.Order.{add32-zero}
use machnet.Seq.{seq_lt}
use machnet.Tcp.Flow.{Env, TcpFlow, State, new_flow, max_retransmissions}
use machnet.Tcp.Send.{
  send_syn, send_syn_ack, snd_buffered_end_seq, retransmit_unacked, send_zero_window_probe,
}
use machnet.Tcp.Send.Window.{InWindow, InWindow-if, retransmit_unacked-InWindow}
use machnet.Tcp.Connection.{
  initiate_handshake, start_passive_open, retransmit_data, retransmit, check_timer, check_time_wait,
  check_at, periodic_check,
}
use machnet.Tcp.Invariant.Keeps.{
  Inv, Inv-SoundAt, Inv-if_result, sender-Inv, SoundAt, Open, Opening, sender, sender-InWindow,
  sender-Opening, Opening-send_syn, Opening-send_syn_ack,
}
use machnet.Tcp.Invariant.Pumping.{pump_send_keeps}

new_flow-Opening : (isn : ℕ) → isn < 2 ^ 32 → Opening 0 (new_flow isn)
unfolding new_flow
new_flow-Opening isn h = record {
  isn_word = h;
  at_start = refl;
  used = sym (add32-zero isn h);
  empty = refl;
  window = omega arith;
  mss = omega arith;
  unsent_fin = refl;
  unwanted_fin = refl;
}

module _ (env : Env) where
  sender-send_zero_window_probe : (f : TcpFlow) → sender f ≡ sender (send_zero_window_probe env f)
  unfolding send_zero_window_probe
  sender-send_zero_window_probe f = ground arith

  retransmit_data-InWindow : (f : TcpFlow) → InWindow f → InWindow (retransmit_data env f)
  unfolding retransmit_data
  retransmit_data-InWindow f w =
      InWindow-if (f.snd_wnd == 0 && seq_lt f.snd_nxt (snd_buffered_end_seq f)) _ _
        (sender-InWindow f (send_zero_window_probe env f) (sender-send_zero_window_probe f) w)
        (retransmit_unacked-InWindow env f w)

  retransmit_data_keeps :
      (f : TcpFlow)
      → ((retransmit_data env f).state ≡ f.state)
        × ((retransmit_data env f).fin_pending ≡ f.fin_pending)
  unfolding retransmit_data send_zero_window_probe retransmit_unacked
  retransmit_data_keeps f =
      ground (arith, pump_send_keeps env (record f { snd_nxt = f.snd_una; fin_sent = false }))

  retransmit_data-Open : (f : TcpFlow) → Open f → Open (retransmit_data env f)
  retransmit_data-Open f o = (retransmit_data-InWindow f o.0, (retransmit_data_keeps f).1 ∙ o.1)

  -- The retransmission of each state leaves the state sound.
  retransmit-SoundAt : (s : State) (f : TcpFlow) → SoundAt s f → SoundAt s (retransmit env s f)
  unfolding retransmit
  retransmit-SoundAt State.closed f h = tt
  retransmit-SoundAt State.listen f h = h
  retransmit-SoundAt State.syn_sent f h = Opening-send_syn env 1 f h
  retransmit-SoundAt State.syn_received f h = Opening-send_syn_ack env 1 f h
  retransmit-SoundAt State.established f h = retransmit_data-Open f h
  retransmit-SoundAt State.close_wait f h = retransmit_data-Open f h
  retransmit-SoundAt State.fin_wait1 f h = retransmit_data-InWindow f h
  retransmit-SoundAt State.fin_wait2 f h = h
  retransmit-SoundAt State.last_ack f h = retransmit_data-InWindow f h
  retransmit-SoundAt State.time_wait f h = h

  retransmit_state : (s : State) (f : TcpFlow) → (retransmit env s f).state ≡ f.state
  unfolding retransmit send_syn send_syn_ack
  retransmit_state State.closed f = refl
  retransmit_state State.listen f = refl
  retransmit_state State.syn_sent f = ground arith
  retransmit_state State.syn_received f = ground arith
  retransmit_state State.established f = (retransmit_data_keeps f).0
  retransmit_state State.close_wait f = (retransmit_data_keeps f).0
  retransmit_state State.fin_wait1 f = (retransmit_data_keeps f).0
  retransmit_state State.fin_wait2 f = refl
  retransmit_state State.last_ack f = (retransmit_data_keeps f).0
  retransmit_state State.time_wait f = refl

  check_timer-Inv : (f : TcpFlow) → Inv f → Inv (check_timer env f).1
  unfolding check_timer
  check_timer-Inv f i =
      let f1 = record f { retransmit_count = (f.retransmit_count + 1) % 2 ^ 32 } in
      let f2 = retransmit env f1.state f1 in
      let kept =
        Inv-SoundAt f1.state f2 (retransmit_state f1.state f1)
          (retransmit-SoundAt f1.state f1 (sender-Inv f f1 refl refl i)) in
      Inv-if_result (not f.rto_active) _ _ (λ _. i)
        (λ _.
          Inv-if_result (ltb 0 f.rto_remaining) _ _
            (λ _. sender-Inv f (record f { rto_remaining = f.rto_remaining - 1 }) refl refl i)
            (λ _.
              Inv-if_result (ltb max_retransmissions f1.retransmit_count) _ _ (λ _. tt)
                (λ _. sender-Inv f2 (record f2 { rto_remaining = f2.rto_ticks }) refl refl kept)))

  check_time_wait-Inv : (f : TcpFlow) → Inv f → Inv (check_time_wait env f).1
  unfolding check_time_wait
  check_time_wait-Inv f i =
      Inv-if_result (ltb 0 f.time_wait_remaining) _ _
        (λ _.
          sender-Inv f (record f { time_wait_remaining = f.time_wait_remaining - 1 }) refl refl i)
        (λ _. tt)

  check_at-Inv : (s : State) (f : TcpFlow) → Inv f → Inv (check_at env s f).1
  unfolding check_at
  check_at-Inv State.closed f i = i
  check_at-Inv State.time_wait f i = check_time_wait-Inv f i
  check_at-Inv State.listen f i = check_timer-Inv f i
  check_at-Inv State.syn_sent f i = check_timer-Inv f i
  check_at-Inv State.syn_received f i = check_timer-Inv f i
  check_at-Inv State.established f i = check_timer-Inv f i
  check_at-Inv State.close_wait f i = check_timer-Inv f i
  check_at-Inv State.fin_wait1 f i = check_timer-Inv f i
  check_at-Inv State.fin_wait2 f i = check_timer-Inv f i
  check_at-Inv State.last_ack f i = check_timer-Inv f i

  pub periodic_check-Inv : (f : TcpFlow) → Inv f → Inv (periodic_check env f).1
  unfolding periodic_check
  periodic_check-Inv f i = check_at-Inv f.state f i

  pub initiate_handshake-Inv :
      (isn : ℕ) → isn < 2 ^ 32 → Inv (initiate_handshake env (new_flow isn))
  unfolding initiate_handshake new_flow
  initiate_handshake-Inv isn h =
      Inv-SoundAt State.syn_sent (initiate_handshake env (new_flow isn)) refl (
        sender-Opening 1 (sender (send_syn env (new_flow isn)))
          (initiate_handshake env (new_flow isn)) refl
          (Opening-send_syn env 0 (new_flow isn) (new_flow-Opening isn h)))

  pub start_passive_open-Inv :
      (isn : ℕ) → isn < 2 ^ 32 → Inv (start_passive_open env (new_flow isn))
  unfolding start_passive_open new_flow
  start_passive_open-Inv isn h = new_flow-Opening isn h
