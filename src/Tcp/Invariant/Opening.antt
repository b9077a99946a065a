-- ===== src/Tcp/Invariant/Opening.antt =====
-- The invariant through the handlers of a connection that is opening.
use mathlib.Core.Bool.{true≢false}
use machnet.Seq.Order.{add32-zero}
use machnet.Base.{
  ==_iff, length, ◌<◌, ◌^◌, ◌≡◌, sym, ◌∙◌, ap, Bool, true, false, ◌&&◌, arith, Bool-cases, inl, inr,
  ◌==◌, add32,
}
use machnet.Tcp.Flow.{Env, TcpFlow, State, Segment}
use machnet.Tcp.Send.{send_ack}
use machnet.Tcp.Send.Window.{InWindow}
use machnet.Tcp.Options.{parse_tcp_options}
use machnet.Tcp.Receive.{
  process_in_order_payload, handle_listen, complete_handshake, simultaneous_open, handle_syn_sent,
  handle_syn_received,
}
use machnet.Tcp.Invariant.Keeps.{
  Inv, Inv-if, Open, sender-Open, Inv-SoundAt, Opening, sender-send_ack, state-send_ack,
  sender-process_in_order_payload, state-process_in_order_payload, Opening-send_syn_ack,
}
use machnet.Tcp.Invariant.Pumping.{
  parse_tcp_options-Opening, parse_tcp_options-InWindow, parse_tcp_options_keeps,
}

and-snd : (a b : Bool) → (a && b) ≡ true → b ≡ true
and-snd a b h = ground arith

-- The header's fields are 32 and 16 bits wide.
pub record IsWire (p : Segment) : Type 0 where
  pub seq_word : p.seq < 2 ^ 32
  pub ack_word : p.ack < 2 ^ 32
  pub window_word : p.window < 2 ^ 16

module _ (env : Env) (p : Segment) (wire : IsWire p) where
  pub handle_listen-Inv :
      (f : TcpFlow) → f.state ≡ State.listen → Opening 0 f → Inv (handle_listen env p f)
  unfolding handle_listen
  handle_listen-Inv f e o = elim (Bool-cases p.flags.syn) [
    | inr plain ↦ rw plain (Inv-SoundAt State.listen f e o)
    | inl syn ↦
        let f1 = parse_tcp_options p.options p.header_length f in
        rw syn (
          Opening-send_syn_ack env 0 (record f1 { rcv_nxt = add32 p.seq 1 })
            (parse_tcp_options-Opening 0 p.options p.header_length f o))
  ]

  simultaneous_open-Inv : (f : TcpFlow) → Opening 1 f → Inv (simultaneous_open env p f)
  unfolding simultaneous_open
  simultaneous_open-Inv f o =
      let f1 = parse_tcp_options p.options p.header_length f in
      Opening-send_syn_ack env 1 (record f1 { rcv_nxt = add32 p.seq 1 })
        (parse_tcp_options-Opening 1 p.options p.header_length f o)

  -- Once the SYN is acknowledged nothing is in flight.
  Opening-InWindow :
      (f : TcpFlow)
      → Opening 1 f
      → p.ack ≡ f.snd_nxt
      → InWindow (record f { snd_una = p.ack; snd_wnd = p.window })
  Opening-InWindow f o a = record {
    off = 0;
    una_word = wire.ack_word;
    next_seq = sym a ∙ sym (add32-zero p.ack wire.ack_word);
    buffered = omega (arith, ap length o.empty);
    window = wire.window_word;
    mss = o.mss;
    unsent_fin = λ h. omega arith;
    sent_fin = λ h. absurd (true≢false (sym h ∙ o.unsent_fin));
    wanted_fin = λ h. absurd (true≢false (sym h ∙ o.unsent_fin));
  }

  complete_handshake-Inv :
      (f : TcpFlow) → Opening 1 f → p.ack ≡ f.snd_nxt → Inv (complete_handshake env p f)
  unfolding complete_handshake
  complete_handshake-Inv f o a =
      let f1 = record f { rcv_nxt = add32 p.seq 1; snd_una = p.ack; snd_wnd = p.window } in
      let f2 = parse_tcp_options p.options p.header_length f1 in
      sender-Open f2 (send_ack env f2) (sender-send_ack env f2) (
        parse_tcp_options-InWindow p.options p.header_length f1 (Opening-InWindow f o a),
        parse_tcp_options_keeps p.options p.header_length f1 ∙ o.unwanted_fin,
      )

  pub handle_syn_sent-Inv :
      (f : TcpFlow) → f.state ≡ State.syn_sent → Opening 1 f → Inv (handle_syn_sent env p f)
  unfolding handle_syn_sent
  handle_syn_sent-Inv f e o =
      let stays = Inv-SoundAt State.syn_sent f e o in
      Inv-if (p.flags.syn && p.flags.ack) _ _
        (λ _.
          Inv-if (p.ack == f.snd_nxt) _ _
            (λ a. complete_handshake-Inv f o ((==_iff p.ack f.snd_nxt).0 a)) (λ _. stays))
        (λ _. Inv-if p.flags.syn _ _ (λ _. simultaneous_open-Inv f o) (λ _. stays))

  pub handle_syn_received-Inv :
      (f : TcpFlow) → f.state ≡ State.syn_received → Opening 1 f → Inv (handle_syn_received env p f)
  unfolding handle_syn_received
  handle_syn_received-Inv f e o = elim (Bool-cases (p.flags.ack && p.ack == f.snd_nxt)) [
    | inr other ↦ rw other (Inv-SoundAt State.syn_received f e o)
    | inl done ↦
        let f1 = record f {
          state = State.established;
          snd_una = p.ack;
          snd_wnd = p.window;
          rto_active = false;
          retransmit_count = 0;
        } in
        let (consumed, f2) = process_in_order_payload env p f1 in
        let acked = (==_iff p.ack f.snd_nxt).0 (and-snd _ _ done) in
        let o1 : Open f1 = (Opening-InWindow f o acked, o.unwanted_fin) in
        let o2 = sender-Open f1 f2 (sender-process_in_order_payload env p f1) o1 in
        let e2 = state-process_in_order_payload env p f1 in
        rw done (
          Inv-if consumed (send_ack env f2) f2
            (λ _.
              Inv-SoundAt State.established (send_ack env f2) (state-send_ack env f2 ∙ e2)
                (sender-Open f2 (send_ack env f2) (sender-send_ack env f2) o2))
            (λ _. Inv-SoundAt State.established f2 e2 o2))
  ]
