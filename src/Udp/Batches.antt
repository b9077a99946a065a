-- ===== src/Udp/Batches.antt =====
-- src/include/flow.h, the batches of `TransmitPackets`: the buffers of a flow go out in order, each
-- with the next number.
use machnet.Base.{
  ℕ, zero, suc, ◌<◌, ◌≤◌, ◌^◌, ◌≡◌, refl, ap, ◌∙◌, false, arith, List, [], ◌∷◌, length, take, drop,
  ltb, add32, sub32,
}
use machnet.Seq.Order.{add32_assoc, add32-lt, sub32-lt}
use machnet.Udp.Pcb.{get_snd_nxt}
use machnet.Udp.TxTracking.{TxMsgBuf, get_and_update_oldest_unsent}
use machnet.Udp.Flow.{UdpPacket, UdpEnv, UdpFlow, data_packet_of, send_data, fill_batch}

-- The packets of the buffers `bs` with the numbers from `seqno` on, onto those sent before.
abbrev pub numbered : ℕ → List TxMsgBuf → List UdpPacket → List UdpPacket
numbered seqno [] log = log
numbered seqno (b ∷ bs) log = numbered (add32 seqno 1) bs (data_packet_of b seqno ∷ log)

-- Every buffer fits a frame.
abbrev pub AllFitFrame : ℕ → List TxMsgBuf → Type 0
AllFitFrame room [] = Unit {0}
AllFitFrame room (b ∷ bs) = (length b.bytes ≤ room) × AllFitFrame room bs

sub32-zero : (a : ℕ) → a < 2 ^ 32 → a ≡ sub32 a 0
unfolding sub32
sub32-zero a h = omega (arith, h)

add32-nothing : (a : ℕ) → a < 2 ^ 32 → a ≡ add32 a 0
unfolding add32
add32-nothing a h = omega (arith, h)

-- Counting down one at a time.
sub32-suc : (a n : ℕ) → n < 2 ^ 32 → sub32 (sub32 a 1) n ≡ sub32 a (suc n)
unfolding sub32
sub32-suc a n h = omega (arith, h)

module _ (env : UdpEnv) where
  -- `g` is `f` after the first `n` unsent buffers went out.
  pub record Sent (n : ℕ) (f g : UdpFlow) : Type 0 where
    pub logged : g.tx ≡ numbered f.pcb.snd_nxt (take n f.tx_tracking.unsent) f.tx
    pub left : g.tx_tracking.unsent ≡ drop n f.tx_tracking.unsent
    pub tracked : g.tx_tracking.unacked ≡ f.tx_tracking.unacked
    pub counted : g.tx_tracking.num_unsent_msgbufs ≡ sub32 f.tx_tracking.num_unsent_msgbufs n
    pub next_seq : g.pcb.snd_nxt ≡ add32 f.pcb.snd_nxt n
    pub una : g.pcb.snd_una ≡ f.pcb.snd_una
    pub ooo : g.pcb.snd_ooo_acks ≡ f.pcb.snd_ooo_acks
    pub room : g.pcb.cwnd ≡ f.pcb.cwnd
    pub runs : g.aborted ≡ f.aborted

  -- Buffers that `f` still has to send.
  pub record CanSend (us : List TxMsgBuf) (f : UdpFlow) : Type 0 where
    pub unsent : f.tx_tracking.unsent ≡ us
    pub counter : f.tx_tracking.num_unsent_msgbufs < 2 ^ 32
    pub number : f.pcb.snd_nxt < 2 ^ 32
    pub few : length us < 2 ^ 32
    pub fit : AllFitFrame env.frame_room us

  -- `f` after one buffer.
  sent_one : TxMsgBuf → List TxMsgBuf → UdpFlow → UdpFlow
  sent_one b us f = record f {
    tx_tracking = record f.tx_tracking {
      unsent = us;
      num_unsent_msgbufs = sub32 f.tx_tracking.num_unsent_msgbufs 1;
    };
    pcb = record f.pcb { snd_nxt = add32 f.pcb.snd_nxt 1 };
    tx = data_packet_of b f.pcb.snd_nxt ∷ f.tx;
  }

  fill_batch-sent_one :
      (n : ℕ) (b : TxMsgBuf) (us : List TxMsgBuf) (f : UdpFlow)
      → f.tx_tracking.unsent ≡ b ∷ us
      → length b.bytes ≤ env.frame_room
      → fill_batch env (suc n) f ≡ fill_batch env n (sent_one b us f)
  unfolding fill_batch get_and_update_oldest_unsent get_snd_nxt send_data sent_one
  fill_batch-sent_one n b us f e fits = rw (e, not_more (length b.bytes) env.frame_room fits) refl
    where
      not_more : (i j : ℕ) → i ≤ j → ltb j i ≡ false
      not_more i j h = ground arith

  -- A batch takes the first `n` unsent buffers off the queue and sends them in order, each with the next
  -- number of the flow, while every buffer fits a frame and the counters are 32-bit words: the buffers
  -- stay tracked until they are acknowledged, and no check fails that had not failed before.
  pub fill_batch-Sent :
      (n : ℕ) (us : List TxMsgBuf) (f : UdpFlow)
      → n ≤ length us
      → CanSend us f
      → Sent n f (fill_batch env n f)
  unfolding fill_batch sent_one
  fill_batch-Sent zero us f h c = record {
    logged = refl;
    left = refl;
    tracked = refl;
    counted = sub32-zero f.tx_tracking.num_unsent_msgbufs c.counter;
    next_seq = add32-nothing f.pcb.snd_nxt c.number;
    una = refl;
    ooo = refl;
    room = refl;
    runs = refl;
  }
  fill_batch-Sent (suc n) [] f h c = absurd (omega (arith, h))
  fill_batch-Sent (suc n) (b ∷ us) f h c =
      let f' = sent_one b us f in
      let c' : CanSend us f' = record {
        unsent = refl;
        counter = sub32-lt f.tx_tracking.num_unsent_msgbufs 1;
        number = add32-lt f.pcb.snd_nxt 1;
        few = omega (arith, c.few);
        fit = c.fit.1;
      } in
      let s = fill_batch-Sent n us f' (omega (arith, h)) c' in
      rw (fill_batch-sent_one n b us f c.unsent c.fit.0) (record {
        logged = rw c.unsent s.logged;
        left = rw c.unsent s.left;
        tracked = s.tracked;
        counted =
            s.counted ∙ sub32-suc f.tx_tracking.num_unsent_msgbufs n (omega (arith, c.few, h));
        next_seq =
            s.next_seq ∙ add32_assoc f.pcb.snd_nxt 1 n ∙ ap (add32 f.pcb.snd_nxt) (omega arith);
        una = s.una;
        ooo = s.ooo;
        room = s.room;
        runs = s.runs;
      })
