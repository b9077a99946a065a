-- ===== src/Tcp/Invariant/Messages.antt =====
-- The invariant through `OutputMessage`, `ShutDown`, and the timers.
use mathlib.Core.Path.{transport}
use machnet.Base.{
  ◌%◌, ℕ, ◌+◌, ◌<◌, ◌≤◌, ◌^◌, ◌≡◌, refl, sym, ◌∙◌, true, false, arith, Bool-cases, inl, inr, List,
  ◌++◌, length, ltb, ◌==◌, htobe32, length-append, ==_iff, ltb-ge,
}
use mathlib.Core.Bool.{true≢false}
use machnet.Tcp.Flow.{Env, TcpFlow, State, max_send_buf}
use machnet.Tcp.Send.Window.{InWindow}
use machnet.Tcp.Connection.{
  TxBuf, free_chain, copy_chain, may_send_message, closing_state, shut_down, output_message,
}
use machnet.Tcp.Invariant.Keeps.{Inv, Inv-if, sender-Inv, SoundAt, Open}
use machnet.Tcp.Invariant.Pumping.{Inv-pump_send}

unsent : (f : TcpFlow) → Open f → f.fin_sent ≡ false
unsent f o = elim (Bool-cases f.fin_sent) [
  | inl sent ↦ absurd (true≢false (sym (o.0.wanted_fin sent) ∙ o.1))
  | inr not_sent ↦ not_sent
]

-- Bytes are added only while no FIN was sent, so they take no number that is in use.
Open-buffer :
    (f : TcpFlow) (extra : List ℕ)
    → Open f
    → length (f.snd_buf ++ extra) ≤ max_send_buf
    → Open (record f { snd_buf = f.snd_buf ++ extra })
Open-buffer f extra o h =
    let w = o.0 in
    (
      record {
        off = w.off;
        una_word = w.una_word;
        next_seq = w.next_seq;
        buffered = h;
        window = w.window;
        mss = w.mss;
        unsent_fin = λ no_fin. omega (arith, w.unsent_fin no_fin, length-append f.snd_buf extra);
        sent_fin = λ fin. absurd (true≢false (sym fin ∙ unsent f o));
        wanted_fin = w.wanted_fin;
      },
      o.1,
    )

-- The states in which a message is accepted are the open ones.
SoundAt-Open : (s : State) (f : TcpFlow) → may_send_message s ≡ true → SoundAt s f ≡ Open f
SoundAt-Open State.established f m = refl
SoundAt-Open State.close_wait f m = refl
SoundAt-Open State.closed f m = absurd (true≢false (sym m))
SoundAt-Open State.listen f m = absurd (true≢false (sym m))
SoundAt-Open State.syn_sent f m = absurd (true≢false (sym m))
SoundAt-Open State.syn_received f m = absurd (true≢false (sym m))
SoundAt-Open State.fin_wait1 f m = absurd (true≢false (sym m))
SoundAt-Open State.fin_wait2 f m = absurd (true≢false (sym m))
SoundAt-Open State.last_ack f m = absurd (true≢false (sym m))
SoundAt-Open State.time_wait f m = absurd (true≢false (sym m))

Inv-Open : (f : TcpFlow) → may_send_message f.state ≡ true → Inv f → Open f
Inv-Open f m i = transport (SoundAt-Open f.state f m) i

Open-Inv : (f : TcpFlow) → may_send_message f.state ≡ true → Open f → Inv f
Open-Inv f m o = transport (sym (SoundAt-Open f.state f m)) o

module _ (env : Env) where
  pub output_message-Inv :
      (len : ℕ) (chain : List TxBuf) (f : TcpFlow)
      → 4 + len < 2 ^ 32
      → Inv f
      → Inv (output_message env len chain f)
  unfolding output_message free_chain htobe32
  output_message-Inv len chain f h i =
      let framed = (4 + len) % 2 ^ 32 in
      let dropped = sender-Inv f (free_chain chain f) refl refl i in
      let extra = htobe32 len ++ copy_chain len chain in
      Inv-if (may_send_message f.state) _ _
        (λ m.
          Inv-if (ltb max_send_buf (length f.snd_buf + framed)) _ _ (λ _. dropped)
            (λ fits.
              Inv-if (length (copy_chain len chain) == len) _ _
                (λ whole.
                  Inv-pump_send env (free_chain chain (record f { snd_buf = f.snd_buf ++ extra })) (
                    Open-Inv _ m (
                      Open-buffer f extra (Inv-Open f m i) (
                        omega (
                          arith,
                          h,
                          ltb-ge max_send_buf (length f.snd_buf + framed) fits,
                          (==_iff (length (copy_chain len chain)) len).0 whole,
                          length-append f.snd_buf extra,
                        )))))
                (λ _. dropped)))
        (λ _. dropped)

  InWindow-closing : (f : TcpFlow) → InWindow f → InWindow (record f { fin_pending = true })
  InWindow-closing f w = record {
    off = w.off;
    una_word = w.una_word;
    next_seq = w.next_seq;
    buffered = w.buffered;
    window = w.window;
    mss = w.mss;
    unsent_fin = w.unsent_fin;
    sent_fin = w.sent_fin;
    wanted_fin = λ _. refl;
  }

  closing-Inv :
      (f : TcpFlow) (s : State)
      → InWindow (record f { fin_pending = true; state = closing_state env s })
      → Inv (record f { fin_pending = true; state = closing_state env s })
  closing-Inv f State.established w = w
  closing-Inv f State.close_wait w = w
  closing-Inv f State.closed w = w
  closing-Inv f State.listen w = w
  closing-Inv f State.syn_sent w = w
  closing-Inv f State.syn_received w = w
  closing-Inv f State.fin_wait1 w = w
  closing-Inv f State.fin_wait2 w = w
  closing-Inv f State.last_ack w = w
  closing-Inv f State.time_wait w = w

  pub shut_down-Inv : (f : TcpFlow) → Inv f → Inv (shut_down env f)
  unfolding shut_down
  shut_down-Inv f i =
      Inv-if (may_send_message f.state) _ _
        (λ m. Inv-pump_send env _ (closing-Inv f f.state (InWindow-closing f (Inv-Open f m i).0)))
        (λ _. tt)
