-- ===== src/Tcp/Invariant/Closing.antt =====
-- The invariant through the handlers of a connection that is open or closing.
use machnet.Base.{◌≡◌, refl, ◌∙◌, Bool, true, false, not, ◌&&◌, arith, ◌==◌, if◌then◌else◌, add32}
use machnet.Seq.{seq_lt}
use machnet.Tcp.Flow.{Env, TcpFlow, State, Segment}
use machnet.Tcp.Send.{send_ack, fin_outstanding}
use machnet.Tcp.Send.Window.{InWindow, InWindow-if}
use machnet.Tcp.Send.Acks.{advance_snd_una-InWindow}
use machnet.Tcp.Receive.{
  fin_seq, take_payload, take_ack, take_fin, handle_established, take_last_fin, handle_fin_wait1,
  handle_fin_wait2, handle_last_ack,
}
use machnet.Tcp.Invariant.Keeps.{
  Inv, Inv-if, Open, sender-Open, Inv-SoundAt, sender-InWindow, sender-send_ack, state-send_ack,
  sender-take_payload, state-take_payload, sender-take_last_fin,
}
use machnet.Tcp.Invariant.Opening.{IsWire}
use machnet.Tcp.Invariant.Pumping.{advance_snd_una_keeps}

Open-if : (b : Bool) (f g : TcpFlow) → Open f → Open g → Open (if b then f else g)
Open-if true f g v w = v
Open-if false f g v w = w

module _ (env : Env) (p : Segment) (wire : IsWire p) where
  take_ack-InWindow : (f : TcpFlow) → InWindow f → InWindow (take_ack env p f)
  unfolding take_ack
  take_ack-InWindow f w =
      InWindow-if p.flags.ack _ f (advance_snd_una-InWindow p.ack f w wire.ack_word) w

  take_ack_keeps :
      (f : TcpFlow)
      → ((take_ack env p f).state ≡ f.state) × ((take_ack env p f).fin_pending ≡ f.fin_pending)
  unfolding take_ack
  take_ack_keeps f = ground (arith, advance_snd_una_keeps p.ack f)

  Open-take_ack : (f : TcpFlow) → Open f → Open (take_ack env p f)
  Open-take_ack f o = (take_ack-InWindow f o.0, (take_ack_keeps f).1 ∙ o.1)

  InWindow-wnd : (f : TcpFlow) → InWindow f → InWindow (record f { snd_wnd = p.window })
  InWindow-wnd f w = record {
    off = w.off;
    una_word = w.una_word;
    next_seq = w.next_seq;
    buffered = w.buffered;
    window = wire.window_word;
    mss = w.mss;
    unsent_fin = w.unsent_fin;
    sent_fin = w.sent_fin;
    wanted_fin = w.wanted_fin;
  }

  take_fin-Inv : (f : TcpFlow) → f.state ≡ State.established → Open f → Inv (take_fin env p f)
  unfolding take_fin
  take_fin-Inv f e o =
      let next = record f { rcv_nxt = add32 f.rcv_nxt 1 } in
      let stays = Inv-SoundAt State.established f e o in
      Inv-if p.flags.fin _ _
        (λ _.
          Inv-if (fin_seq env p == f.rcv_nxt) _ _
            (λ _. sender-Open next (send_ack env next) (sender-send_ack env next) o)
            (λ _.
              Inv-if (seq_lt (fin_seq env p) f.rcv_nxt) _ _
                (λ _.
                  Inv-SoundAt State.established (send_ack env f) (state-send_ack env f ∙ e)
                    (sender-Open f (send_ack env f) (sender-send_ack env f) o))
                (λ _. stays)))
        (λ _. stays)

  pub handle_established-Inv :
      (f : TcpFlow) → f.state ≡ State.established → Open f → Inv (handle_established env p f)
  unfolding handle_established
  handle_established-Inv f e o =
      let f1 = take_ack env p f in
      let f2 = if p.flags.ack then record f1 { snd_wnd = p.window } else f1 in
      let o1 = Open-take_ack f o in
      let o2 : Open f2 = Open-if p.flags.ack _ _ (InWindow-wnd f1 o1.0, o1.1) o1 in
      let e2 : f2.state ≡ State.established = ground (arith, (take_ack_keeps f).0, e) in
      let f3 = take_payload env p f2 in
      Inv-if p.flags.syn _ _
        (λ _.
          Inv-SoundAt State.established (send_ack env f) (state-send_ack env f ∙ e)
            (sender-Open f (send_ack env f) (sender-send_ack env f) o))
        (λ _.
          take_fin-Inv f3 (state-take_payload env p f2 ∙ e2)
            (sender-Open f2 f3 (sender-take_payload env p f2) o2))

  pub take_ack-Inv : (f : TcpFlow) → f.state ≡ State.close_wait → Open f → Inv (take_ack env p f)
  take_ack-Inv f e o = Inv-SoundAt State.close_wait _ ((take_ack_keeps f).0 ∙ e) (Open-take_ack f o)

  take_last_fin_state : (f : TcpFlow) → (take_last_fin env p f).state ≡ State.time_wait
  unfolding take_last_fin
  take_last_fin_state f = refl

  take_last_fin-Inv : (f : TcpFlow) → InWindow f → Inv (take_last_fin env p f)
  take_last_fin-Inv f w =
      Inv-SoundAt State.time_wait (take_last_fin env p f) (take_last_fin_state f)
        (sender-InWindow f (take_last_fin env p f) (sender-take_last_fin env p f) w)

  pub handle_fin_wait1-Inv :
      (f : TcpFlow) → f.state ≡ State.fin_wait1 → InWindow f → Inv (handle_fin_wait1 env p f)
  unfolding handle_fin_wait1
  handle_fin_wait1-Inv f e w =
      let f0 = take_ack env p f in
      let f1 = take_payload env p f0 in
      let w1 = sender-InWindow f0 f1 (sender-take_payload env p f0) (take_ack-InWindow f w) in
      Inv-if p.flags.fin _ _ (λ _. take_last_fin-Inv f1 w1)
        (λ _.
          Inv-if (f1.fin_sent && not (fin_outstanding f1)) _ _ (λ _. w1)
            (λ _.
              Inv-SoundAt State.fin_wait1 f1
                (state-take_payload env p f0 ∙ (take_ack_keeps f).0 ∙ e) w1))

  pub handle_fin_wait2-Inv :
      (f : TcpFlow) → f.state ≡ State.fin_wait2 → InWindow f → Inv (handle_fin_wait2 env p f)
  unfolding handle_fin_wait2
  handle_fin_wait2-Inv f e w =
      let f1 = take_payload env p f in
      let w1 = sender-InWindow f f1 (sender-take_payload env p f) w in
      Inv-if p.flags.fin _ _ (λ _. take_last_fin-Inv f1 w1)
        (λ _. Inv-SoundAt State.fin_wait2 f1 (state-take_payload env p f ∙ e) w1)

  pub handle_last_ack-Inv :
      (f : TcpFlow) → f.state ≡ State.last_ack → InWindow f → Inv (handle_last_ack env p f)
  unfolding handle_last_ack
  handle_last_ack-Inv f e w =
      Inv-if p.flags.ack _ _ (λ _. tt) (λ _. Inv-SoundAt State.last_ack f e w)
