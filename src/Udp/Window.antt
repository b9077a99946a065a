-- ===== src/Udp/Window.antt =====
-- src/include/cc.h, `effective_wnd`, and src/include/flow.h, `TransmitPackets`: what a flow has in
-- flight.
use machnet.Base.{
  ℕ, ◌+◌, ◌-◌, ◌<◌, ◌≤◌, ◌^◌, min, ◌≡◌, ap, ◌∙◌, true, arith, List, length, ltb, if◌then◌else◌,
  add32, sub32,
}
use machnet.Udp.Pcb.{Pcb, effective_wnd}
use machnet.Udp.TxTracking.{TxMsgBuf}
use machnet.Udp.Flow.{UdpEnv, UdpFlow, transmit_packets}
use machnet.Udp.Batches.{Sent, CanSend}
use machnet.Udp.Transmit.{transmit_packets-Sent}

-- The packets that were sent and not acknowledged, in order or out of it.
unfoldable pub in_flight : Pcb → ℕ
in_flight p = sub32 (sub32 p.snd_nxt p.snd_una) p.snd_ooo_acks

sub32-window :
    (c x : ℕ) → c < 2 ^ 32 → x < 2 ^ 32 → (if ltb c (sub32 c x) then 0 else sub32 c x) ≡ c - x
unfolding sub32
sub32-window c x h k = ground (arith, h, k)

sub32_small : (a b : ℕ) → sub32 a b < 2 ^ 32
unfolding sub32
sub32_small a b = omega arith

in_flight_small : (p : Pcb) → in_flight p < 2 ^ 32
unfolding in_flight
in_flight_small p = sub32_small (sub32 p.snd_nxt p.snd_una) p.snd_ooo_acks

effective_wnd_room : (p : Pcb) → p.cwnd < 2 ^ 32 → effective_wnd p ≡ p.cwnd - in_flight p
unfolding effective_wnd in_flight
effective_wnd_room p h =
    sub32-window p.cwnd _ h (sub32_small (sub32 p.snd_nxt p.snd_una) p.snd_ooo_acks)

in_flight-add32 :
    (s una ooo n : ℕ)
    → s < 2 ^ 32
    → una < 2 ^ 32
    → ooo < 2 ^ 32
    → sub32 (sub32 s una) ooo + n < 2 ^ 32
    → sub32 (sub32 (add32 s n) una) ooo ≡ sub32 (sub32 s una) ooo + n
unfolding sub32 add32
in_flight-add32 s una ooo n h i j k = omega (arith, h, i, j, k)

module _ (env : UdpEnv) where
  Sent-in_flight :
      (n : ℕ) (f g : UdpFlow)
      → f.pcb.snd_nxt < 2 ^ 32
      → f.pcb.snd_una < 2 ^ 32
      → f.pcb.snd_ooo_acks < 2 ^ 32
      → in_flight f.pcb + n < 2 ^ 32
      → Sent env n f g
      → in_flight g.pcb ≡ in_flight f.pcb + n
  unfolding in_flight
  Sent-in_flight n f g w i j h s =
      rw (s.next_seq, s.una, s.ooo)
        (in_flight-add32 f.pcb.snd_nxt f.pcb.snd_una f.pcb.snd_ooo_acks n w i j h)

  -- While batches can be allocated, `TransmitPackets` fills the window and never exceeds it: what is in
  -- flight grows by the free part of the congestion window, or by all unsent buffers where those are
  -- fewer, and what exceeds the congestion window stays as it was, 0 for a flow within it. It does so
  -- across the wrap of the numbers too, where the counters are 32-bit words, the count of unsent
  -- buffers does not exceed them, a batch has room, and every buffer fits a frame.
  pub transmit_packets-in_flight :
      (us : List TxMsgBuf) (f : UdpFlow)
      → ((i : ℕ) → env.packet_bulk_alloc i ≡ true)
      → 0 < env.batch_room
      → CanSend env us f
      → f.tx_tracking.num_unsent_msgbufs ≤ length us
      → f.pcb.cwnd < 2 ^ 32
      → f.pcb.snd_una < 2 ^ 32
      → f.pcb.snd_ooo_acks < 2 ^ 32
      → let g = transmit_packets env f in
        let n = f.tx_tracking.num_unsent_msgbufs in
        (in_flight g.pcb ≡ in_flight f.pcb + min (f.pcb.cwnd - in_flight f.pcb) n)
        × (in_flight g.pcb - g.pcb.cwnd ≡ in_flight f.pcb - f.pcb.cwnd)
  transmit_packets-in_flight us f allocates room c few w i j =
      let s = transmit_packets-Sent env allocates room us f c few in
      let wnd = effective_wnd_room f.pcb w in
      let small : in_flight f.pcb < 2 ^ 32 = in_flight_small f.pcb in
      let grown =
        Sent-in_flight (min (effective_wnd f.pcb) f.tx_tracking.num_unsent_msgbufs) f
          (transmit_packets env f) c.number i j (omega (arith, wnd, small, w)) s in
      (
        grown ∙ ap (λ k. in_flight f.pcb + min k f.tx_tracking.num_unsent_msgbufs) wnd,
        omega (arith, grown, wnd, s.room),
      )
