-- ===== src/Tcp/Invariant/Events.antt =====
-- The events that the engine passes to a flow, and the invariant over a whole run of them.
use machnet.Base.{ℕ, ◌+◌, ◌<◌, ◌^◌, ◌≡◌, refl, List, [], ◌∷◌, ltb, ◌||◌, ◌∙◌}
use machnet.Tcp.Flow.{Env, TcpFlow, State, Segment, new_flow, tcp_size, ipv4_size}
use machnet.Tcp.Send.{send_rst}
use machnet.Tcp.Receive.{dispatch, input_packet}
use machnet.Tcp.Connection.{
  TxBuf, shut_down, output_message, periodic_check, initiate_handshake, start_passive_open,
}
use machnet.Tcp.Invariant.Keeps.{Inv, Inv-SoundAt, Inv-if, SoundAt, state-send_rst}
use machnet.Tcp.Invariant.Pumping.{Inv-pump_send}
use machnet.Tcp.Invariant.Opening.{
  IsWire, handle_listen-Inv, handle_syn_sent-Inv, handle_syn_received-Inv,
}
use machnet.Tcp.Invariant.Closing.{
  handle_established-Inv, handle_fin_wait1-Inv, handle_fin_wait2-Inv, handle_last_ack-Inv,
  take_ack-Inv,
}
use machnet.Tcp.Invariant.Messages.{output_message-Inv, shut_down-Inv}
use machnet.Tcp.Invariant.Timers.{
  periodic_check-Inv, initiate_handshake-Inv, start_passive_open-Inv,
}

-- What the engine does with a flow that is open.
pub data Event : Type 0 where
  packet : Segment → Event
  message : ℕ → List TxBuf → Event
  close : Event
  tick : Event

-- The fields of a packet have the widths of the header's, and the frame of a message has a 32-bit
-- length.
abbrev pub Fits : Event → Type 0
Fits (Event.packet p) = IsWire p
Fits (Event.message len chain) = 4 + len < 2 ^ 32
Fits Event.close = Unit {0}
Fits Event.tick = Unit {0}

abbrev pub AllFit : List Event → Type 0
AllFit [] = Unit {0}
AllFit (e ∷ es) = Fits e × AllFit es

module _ (env : Env) where
  abbrev pub step : Event → TcpFlow → TcpFlow
  step (Event.packet p) f = input_packet env p f
  step (Event.message len chain) f = output_message env len chain f
  step Event.close f = shut_down env f
  step Event.tick f = (periodic_check env f).1

  abbrev pub run : List Event → TcpFlow → TcpFlow
  run [] f = f
  run (e ∷ es) f = run es (step e f)

  dispatch-Inv :
      (p : Segment) (s : State) (f : TcpFlow)
      → IsWire p
      → f.state ≡ s
      → SoundAt s f
      → Inv (dispatch env s p f)
  unfolding dispatch
  dispatch-Inv p State.closed f w e h =
      Inv-if p.flags.rst _ _ (λ _. Inv-SoundAt State.closed f e tt)
        (λ _. Inv-SoundAt State.closed (send_rst env f) (state-send_rst env f ∙ e) tt)
  dispatch-Inv p State.listen f w e h = handle_listen-Inv env p w f e h
  dispatch-Inv p State.syn_sent f w e h = handle_syn_sent-Inv env p w f e h
  dispatch-Inv p State.syn_received f w e h = handle_syn_received-Inv env p w f e h
  dispatch-Inv p State.established f w e h = handle_established-Inv env p w f e h
  dispatch-Inv p State.fin_wait1 f w e h = handle_fin_wait1-Inv env p w f e h
  dispatch-Inv p State.fin_wait2 f w e h = handle_fin_wait2-Inv env p w f e h
  dispatch-Inv p State.close_wait f w e h = take_ack-Inv env p w f e h
  dispatch-Inv p State.last_ack f w e h = handle_last_ack-Inv env p w f e h
  dispatch-Inv p State.time_wait f w e h = Inv-SoundAt State.time_wait f e h

  input_packet-Inv : (p : Segment) (f : TcpFlow) → IsWire p → Inv f → Inv (input_packet env p f)
  unfolding input_packet
  input_packet-Inv p f w i =
      Inv-if (ltb p.header_length tcp_size || ltb 60 p.header_length) _ _ (λ _. i)
        (λ _.
          Inv-if (ltb p.ip_total_len (ipv4_size + p.header_length)) _ _ (λ _. i)
            (λ _.
              Inv-if p.flags.rst _ _ (λ _. tt)
                (λ _.
                  Inv-pump_send env (dispatch env f.state p f)
                    (dispatch-Inv p f.state f w refl i))))

  -- Every event keeps the invariant of the sequence space, whatever the packet pool answers: a packet
  -- whose fields have the header's widths (also one that is malformed, old, duplicated, out of order,
  -- or acknowledges what was not sent), a message with a 32-bit frame length (also one whose buffers do
  -- not hold its declared length), a close, and a tick of the timer.
  pub step-Inv : (e : Event) (f : TcpFlow) → Fits e → Inv f → Inv (step e f)
  step-Inv (Event.packet p) f w i = input_packet-Inv p f w i
  step-Inv (Event.message len chain) f w i = output_message-Inv env len chain f w i
  step-Inv Event.close f w i = shut_down-Inv env f i
  step-Inv Event.tick f w i = periodic_check-Inv env f i

  run-Inv : (es : List Event) (f : TcpFlow) → AllFit es → Inv f → Inv (run es f)
  run-Inv [] f a i = i
  run-Inv (e ∷ es) f a i = run-Inv es (step e f) a.1 (step-Inv e f a.0 i)

  -- A flow that was opened from either side is in the invariant after any sequence of packets, messages, closes and ticks: once
  -- the connection stands, `snd_nxt` is inside the buffered bytes, or one past them where the FIN was
  -- sent.
  pub opened-run-Inv :
      (isn : ℕ) (es : List Event)
      → isn < 2 ^ 32
      → AllFit es
      → Inv (run es (initiate_handshake env (new_flow isn)))
        × Inv (run es (start_passive_open env (new_flow isn)))
  opened-run-Inv isn es h a = (
    run-Inv es (initiate_handshake env (new_flow isn)) a (initiate_handshake-Inv env isn h),
    run-Inv es (start_passive_open env (new_flow isn)) a (start_passive_open-Inv env isn h),
  )
