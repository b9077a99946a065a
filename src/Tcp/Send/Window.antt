-- ===== src/Tcp/Send/Window.antt =====
-- The sequence space of the sender, and that the functions of the sending side keep it sound.
use machnet.Base.{
  ◌++◌, ℕ, ◌+◌, ◌<◌, ◌≤◌, ◌^◌, ◌%◌, ◌≡◌, sym, ap, ◌∙◌, ◌⊎◌, min, inl, inr, Bool, true, false, not,
  ◌&&◌, List, arith, length, ◌==◌, if◌then◌else◌, add32, sub32, Bool-cases,
}
use machnet.Seq.Order.{sub32-add32, add32_assoc, add32-zero}
use machnet.Tcp.Flow.{Packet, Env, TcpFlow, max_send_buf, default_mss}
use machnet.Tcp.Send.{
  send_segments, snd_buffered_end_seq, send_pending_fin, send_fin_segment, send_packet, arm_timer,
  pump_send, effective_mss, may_send_data, retransmit_unacked,
}
use machnet.Tcp.Send.Pump.{Run, Pumped, CanPump, send_segments-Pumped}

-- `snd_nxt` stands `off` numbers after `snd_una`: inside the buffered bytes, or one past them where
-- the FIN was sent, whose number is then the one after the last buffered byte. Once the FIN is
-- acknowledged nothing is buffered and nothing is in flight.
pub record IsSound (una nxt : ℕ) (buf : List ℕ) (wnd peer_mss : ℕ) (fin_sent fin_pending : Bool)
    (fin_seq : ℕ) : Type 0 where
  pub off : ℕ
  pub una_word : una < 2 ^ 32
  pub next_seq : nxt ≡ add32 una off
  pub buffered : length buf ≤ max_send_buf
  pub window : wnd < 2 ^ 16
  pub mss : 0 < peer_mss
  pub unsent_fin : fin_sent ≡ false → off ≤ length buf
  pub sent_fin :
      fin_sent ≡ true
      → ((off ≡ length buf + 1) × (fin_seq ≡ add32 una (length buf)))
        ⊎ ((off ≡ 0) × (length buf ≡ 0) × (add32 fin_seq 1 ≡ una))
  pub wanted_fin : fin_sent ≡ true → fin_pending ≡ true

abbrev pub InWindow : TcpFlow → Type 0
InWindow f =
    IsSound f.snd_una f.snd_nxt f.snd_buf f.snd_wnd f.peer_mss f.fin_sent f.fin_pending
      f.snd_fin_seq

pub off-le : (f : TcpFlow) (w : InWindow f) → w.off ≤ length f.snd_buf + 1
off-le f w = elim (Bool-cases f.fin_sent) [
  | inl sent ↦ omega (arith, w.sent_fin sent)
  | inr unsent ↦ omega (arith, w.unsent_fin unsent)
]

add32_cancel :
    (base i j : ℕ) → base < 2 ^ 32 → i < 2 ^ 32 → j < 2 ^ 32 → add32 base i ≡ add32 base j → i ≡ j
add32_cancel base i j hb hi hj e =
    omega (arith, sub32-add32 base i hb hi, sub32-add32 base j hb hj, ap (λ n. sub32 n base) e)

pub data_end-eq :
    (f : TcpFlow) → InWindow f → snd_buffered_end_seq f ≡ add32 f.snd_una (length f.snd_buf)
unfolding snd_buffered_end_seq
data_end-eq f w = ap (add32 f.snd_una) (omega (arith, w.buffered))

InWindow-CanPump : (f : TcpFlow) (w : InWindow f) → CanPump f w.off
InWindow-CanPump f w = record {
  una_word = w.una_word;
  next_seq = w.next_seq;
  offset = omega (arith, off-le f w, w.buffered);
  buffered = omega (arith, w.buffered);
  window = omega (arith, w.window);
}

pub InWindow-if :
    (b : Bool) (f g : TcpFlow) → InWindow f → InWindow g → InWindow (if b then f else g)
InWindow-if true f g v w = v
InWindow-if false f g v w = w

arm_timer-InWindow : (f : TcpFlow) (d : ℕ) → InWindow f → InWindow (arm_timer d f)
unfolding arm_timer
arm_timer-InWindow f d w = InWindow-if _ _ _ w w

fin_InWindow :
    (f : TcpFlow) (w : InWindow f)
    → f.fin_pending ≡ true
    → f.fin_sent ≡ false
    → f.snd_nxt ≡ snd_buffered_end_seq f
    → IsSound f.snd_una
        (add32 f.snd_nxt 1)
        f.snd_buf
        f.snd_wnd
        f.peer_mss
        true
        f.fin_pending
        f.snd_nxt
fin_InWindow f w pending unsent at_end = record {
  off = w.off + 1;
  una_word = w.una_word;
  next_seq = ap (λ n. add32 n 1) w.next_seq ∙ add32_assoc f.snd_una w.off 1;
  buffered = w.buffered;
  window = w.window;
  mss = w.mss;
  unsent_fin = λ h. cc;
  sent_fin = λ h. inl (ap (λ n. n + 1) all_sent, w.next_seq ∙ ap (add32 f.snd_una) all_sent);
  wanted_fin = λ h. pending;
}
  where
    all_sent : w.off ≡ length f.snd_buf
    all_sent =
        add32_cancel f.snd_una w.off (length f.snd_buf) w.una_word
          (omega (arith, off-le f w, w.buffered)) (omega (arith, w.buffered))
          (sym w.next_seq ∙ at_end ∙ data_end-eq f w)

send_pending_fin-InWindow :
    (env : Env) (d : ℕ) (f : TcpFlow)
    → d ≡ snd_buffered_end_seq f
    → InWindow f
    → InWindow (send_pending_fin env d f)
unfolding send_pending_fin send_fin_segment send_packet
send_pending_fin-InWindow env d f e w =
    elim (Bool-cases (f.fin_pending && not f.fin_sent && f.snd_nxt == d)) [
      | inr no_fin ↦ rw no_fin w
      | inl sends ↦ elim (Bool-cases (env.packet_alloc f.packet_allocs)) [
        | inr fails ↦ rw (sends, fails) w
        | inl gets ↦
            rw (sends, gets) (fin_InWindow f w (ground arith) (ground arith) (ground arith))
      ]
    ]

Pumped-InWindow :
    {mss : ℕ} (env : Env) (f f1 : TcpFlow) (w : InWindow f)
    → Pumped mss env f w.off f1
    → InWindow f1
Pumped-InWindow env f f1 w p = rw p.same_rest (record {
  off = p.upto;
  una_word = w.una_word;
  next_seq = p.next_seq;
  buffered = w.buffered;
  window = w.window;
  mss = w.mss;
  unsent_fin = λ h. omega (arith, p.within, w.unsent_fin h);
  sent_fin = λ h. ground (arith, p.within, p.forward, w.sent_fin h);
  wanted_fin = w.wanted_fin;
})

-- The segments do not move the end of the buffered data.
data_end_Pumped :
    (env : Env) (f f1 : TcpFlow) {mss o : ℕ}
    → Pumped mss env f o f1
    → snd_buffered_end_seq f ≡ snd_buffered_end_seq f1
unfolding snd_buffered_end_seq
data_end_Pumped env f f1 p = sym (ap (λ g. add32 g.snd_una (length g.snd_buf % 2 ^ 32)) p.same_rest)

pub segments : Env → TcpFlow → TcpFlow
segments env f =
    send_segments env (length f.snd_buf) (snd_buffered_end_seq f) (add32 f.snd_una f.snd_wnd)
      (effective_mss f) f

pub segments-Pumped :
    (env : Env) (f : TcpFlow) (w : InWindow f)
    → Pumped (min f.peer_mss default_mss) env f w.off (segments env f)
unfolding segments
segments-Pumped env f w =
    send_segments-Pumped env (effective_mss f) (omega (arith, w.mss)) (length f.snd_buf) f w.off
      (InWindow-CanPump f w) (omega arith)

-- The loop of `PumpSend` over a sound sequence space, while the pool has packets, appends to the
-- packets sent a run of segments that carry the buffered bytes from `snd_nxt` on, in order, each byte
-- once and at its sequence number, none longer than the segment size that the peer announced nor than
-- `default_mss`, and moves `snd_nxt` past them: to
-- the end of the buffer or the edge of the peer's window, whichever is first, and past neither unless
-- `snd_nxt` was there already.
pub segments_fill_window :
    (env : Env) (f : TcpFlow) (w : InWindow f)
    → ((k : ℕ) → env.packet_alloc k ≡ true)
    → (upto : ℕ) × (sent : List Packet) × Run
        (min f.peer_mss default_mss)
        f.snd_una
        f.snd_buf
        w.off
        upto
        sent
      × ((segments env f).tx ≡ sent ++ f.tx)
      × ((segments env f).snd_nxt ≡ add32 f.snd_una upto)
      × ((length f.snd_buf ≤ upto) ⊎ (f.snd_wnd ≤ upto))
      × ((upto ≡ w.off) ⊎ ((upto ≤ length f.snd_buf) × (upto ≤ f.snd_wnd)))
segments_fill_window env f w allocates =
    let p = segments-Pumped env f w in
    (p.upto, p.sent, p.run, p.logged, p.next_seq, p.drained allocates, p.within)

-- `PumpSend` keeps the sequence space sound.
pub pump_send-InWindow : (env : Env) (f : TcpFlow) → InWindow f → InWindow (pump_send env f)
unfolding pump_send segments
pump_send-InWindow env f w =
    let p = segments-Pumped env f w in
    InWindow-if (may_send_data f.state) _ f
      (arm_timer-InWindow _ _ (
        send_pending_fin-InWindow env _ _ (data_end_Pumped env f (segments env f) p)
          (Pumped-InWindow env f (segments env f) w p)))
      w

pub retransmit_unacked-InWindow :
    (env : Env) (f : TcpFlow) → InWindow f → InWindow (retransmit_unacked env f)
unfolding retransmit_unacked
retransmit_unacked-InWindow env f w = pump_send-InWindow env _ (record {
  off = 0;
  una_word = w.una_word;
  next_seq = sym (add32-zero f.snd_una w.una_word);
  buffered = w.buffered;
  window = w.window;
  mss = w.mss;
  unsent_fin = λ h. omega arith;
  sent_fin = λ h. cc;
  wanted_fin = λ h. cc;
})
