-- ===== src/Udp/Transmit.antt =====
-- src/include/flow.h, `TransmitPackets`: the flow sends as many buffers as its window has room for.
use mathlib.Core.Path.{subst}
use machnet.Base.{
  ℕ, zero, suc, ◌+◌, ◌-◌, ◌<◌, ◌≤◌, ◌^◌, min, ◌≡◌, refl, sym, ap, ◌∙◌, Bool, true, false,
  Bool-cases, inl, inr, arith, List, [], ◌∷◌, length, take, drop, ◌==◌, ==_iff, if◌then◌else◌,
  add32, sub32, length-drop,
}
use machnet.Seq.Order.{add32_assoc, add32-lt, sub32-lt, add32-zero}
use machnet.Udp.Pcb.{effective_wnd, rto_disabled, rto_enable}
use machnet.Udp.TxTracking.{TxMsgBuf}
use machnet.Udp.Flow.{
  UdpPacket, UdpEnv, UdpFlow, data_packet_of, fill_batch, transmit_loop, transmit_packets,
}
use machnet.Udp.Batches.{numbered, AllFitFrame, Sent, CanSend, fill_batch-Sent}

take_nil : (n : ℕ) → [] ≡ take {A = TxMsgBuf} n []
take_nil zero = refl
take_nil (suc n) = refl

drop_nil : (n : ℕ) → [] ≡ drop {A = TxMsgBuf} n []
drop_nil zero = refl
drop_nil (suc n) = refl

numbered-numbered :
    (m n seqno : ℕ) (us : List TxMsgBuf) (log : List UdpPacket)
    → seqno < 2 ^ 32
    → numbered (add32 seqno m) (take n (drop m us)) (numbered seqno (take m us) log)
      ≡ numbered seqno (take (m + n) us) log
numbered-numbered zero n seqno us log w = rw (add32-zero seqno w, zero_plus n) refl
  where
    zero_plus : (n : ℕ) → 0 + n ≡ n
    zero_plus n = omega arith
numbered-numbered (suc m) zero seqno [] log w =
    ap (λ t. numbered seqno t log) (take_nil (suc m + 0))
numbered-numbered (suc m) (suc n) seqno [] log w =
    ap (λ t. numbered seqno t log) (take_nil (suc m + suc n))
numbered-numbered (suc m) n seqno (b ∷ us) log w =
    rw (suc_plus m n, sym (one_more seqno m))
      (numbered-numbered m n (add32 seqno 1) us (data_packet_of b seqno ∷ log) (add32-lt seqno 1))
  where
    suc_plus : (m n : ℕ) → suc m + n ≡ suc (m + n)
    suc_plus m n = omega arith

    one_more : (s m : ℕ) → add32 (add32 s 1) m ≡ add32 s (suc m)
    one_more s m = add32_assoc s 1 m ∙ ap (add32 s) (omega arith)

drop-drop : (m n : ℕ) (us : List TxMsgBuf) → drop n (drop m us) ≡ drop (m + n) us
drop-drop zero n us = ap (λ k. drop k us) (omega arith)
drop-drop (suc m) zero [] = drop_nil (suc m + 0)
drop-drop (suc m) (suc n) [] = drop_nil (suc m + suc n)
drop-drop (suc m) n (b ∷ us) = rw (suc_plus m n) (drop-drop m n us)
  where
    suc_plus : (m n : ℕ) → suc m + n ≡ suc (m + n)
    suc_plus m n = omega arith

AllFitFrame-drop :
    (room m : ℕ) (us : List TxMsgBuf) → AllFitFrame room us → AllFitFrame room (drop m us)
AllFitFrame-drop room zero us h = h
AllFitFrame-drop room (suc m) [] h = tt
AllFitFrame-drop room (suc m) (b ∷ us) h = AllFitFrame-drop room m us h.1

sub32-sub32 : (a m n : ℕ) → m + n < 2 ^ 32 → sub32 (sub32 a m) n ≡ sub32 a (m + n)
unfolding sub32
sub32-sub32 a m n h = omega (arith, h)

module _ (env : UdpEnv) where
  Sent-trans :
      (m n : ℕ) (f g h : UdpFlow)
      → m + n < 2 ^ 32
      → f.pcb.snd_nxt < 2 ^ 32
      → Sent env m f g
      → Sent env n g h
      → Sent env (m + n) f h
  Sent-trans m n f g h small w s t = record {
    logged =
        rw (s.next_seq, s.left, s.logged) at t.logged
        ∙ numbered-numbered m n f.pcb.snd_nxt f.tx_tracking.unsent f.tx w;
    left = t.left ∙ ap (drop n) s.left ∙ drop-drop m n f.tx_tracking.unsent;
    tracked = t.tracked ∙ s.tracked;
    counted =
        t.counted
        ∙ ap (λ a. sub32 a n) s.counted
        ∙ sub32-sub32 f.tx_tracking.num_unsent_msgbufs m n small;
    next_seq = t.next_seq ∙ ap (λ a. add32 a n) s.next_seq ∙ add32_assoc f.pcb.snd_nxt m n;
    una = t.una ∙ s.una;
    ooo = t.ooo ∙ s.ooo;
    room = t.room ∙ s.room;
    runs = t.runs ∙ s.runs;
  }

  CanSend-Sent :
      (n : ℕ) (us : List TxMsgBuf) (f g : UdpFlow)
      → CanSend env us f
      → Sent env n f g
      → CanSend env (drop n us) g
  CanSend-Sent n us f g c s = record {
    unsent = s.left ∙ ap (drop n) c.unsent;
    counter = rw s.counted (sub32-lt f.tx_tracking.num_unsent_msgbufs n);
    number = rw s.next_seq (add32-lt f.pcb.snd_nxt n);
    few = omega (arith, c.few, length-drop n us);
    fit = AllFitFrame-drop env.frame_room n us c.fit;
  }

  Sent-nothing : (us : List TxMsgBuf) (f : UdpFlow) → CanSend env us f → Sent env 0 f f
  Sent-nothing us f c = unfold fill_batch in fill_batch-Sent env 0 us f (omega arith) c

  -- The number of the batch is not what a flow has sent.
  Sent-next_batch :
      (n : ℕ) (f g : UdpFlow) (i : ℕ) → Sent env n (record f { bulk_allocs = i }) g → Sent env n f g
  Sent-next_batch n f g i s = record {
    logged = s.logged;
    left = s.left;
    tracked = s.tracked;
    counted = s.counted;
    next_seq = s.next_seq;
    una = s.una;
    ooo = s.ooo;
    room = s.room;
    runs = s.runs;
  }

  CanSend-next_batch :
      (us : List TxMsgBuf) (f : UdpFlow) (i : ℕ)
      → CanSend env us f
      → CanSend env us (record f { bulk_allocs = i })
  CanSend-next_batch us f i c = record {
    unsent = c.unsent;
    counter = c.counter;
    number = c.number;
    few = c.few;
    fit = c.fit;
  }

  Sent-if :
      (n : ℕ) (f : UdpFlow) (b : Bool) (g h : UdpFlow)
      → (b ≡ true → Sent env n f g)
      → (b ≡ false → Sent env n f h)
      → Sent env n f (if b then g else h)
  Sent-if n f true g h s t = s refl
  Sent-if n f false g h s t = t refl

  Sent-timer :
      (n : ℕ) (f g : UdpFlow) → Sent env n f g → Sent env n f (record g { pcb = rto_enable g.pcb })
  Sent-timer n f g s = record {
    logged = s.logged;
    left = s.left;
    tracked = s.tracked;
    counted = s.counted;
    next_seq = s.next_seq;
    una = s.una;
    ooo = s.ooo;
    room = s.room;
    runs = s.runs;
  }

  module _ (allocates : (i : ℕ) → env.packet_bulk_alloc i ≡ true) (room : 0 < env.batch_room) where
    transmit_loop-Sent :
        (fuel remaining : ℕ) (us : List TxMsgBuf) (f : UdpFlow)
        → remaining ≤ fuel
        → remaining ≤ length us
        → CanSend env us f
        → Sent env remaining f (transmit_loop env fuel remaining f).1
          × ((transmit_loop env fuel remaining f).0 ≡ true)
    unfolding transmit_loop
    transmit_loop-Sent zero remaining us f h le c =
        let none : 0 ≡ remaining = omega (arith, h) in
        (subst (λ n. Sent env n f f) none (Sent-nothing us f c), refl)
    transmit_loop-Sent (suc fuel) remaining us f h le c = elim (Bool-cases (remaining == 0)) [
      | inl done ↦
          let none : 0 ≡ remaining = sym ((==_iff remaining 0).0 done) in
          rw done (subst (λ n. Sent env n f f) none (Sent-nothing us f c), refl)
      | inr more ↦
          let cnt = min remaining env.batch_room in
          let f' = record f { bulk_allocs = f.bulk_allocs + 1 } in
          let g = fill_batch env cnt f' in
          let s = Sent-next_batch cnt f g (f.bulk_allocs + 1) (
            fill_batch-Sent env cnt us f' (omega (arith, le))
              (CanSend-next_batch us f (f.bulk_allocs + 1) c)) in
          let pos : 0 < remaining = positive remaining more in
          let rest =
            transmit_loop-Sent fuel (remaining - cnt) (drop cnt us) g (omega (arith, h, pos, room))
              (omega (arith, le, length-drop cnt us)) (CanSend-Sent cnt us f g c s) in
          let whole : cnt + (remaining - cnt) ≡ remaining = omega arith in
          rw (more, allocates f.bulk_allocs)
            (
              subst (λ n. Sent env n f (transmit_loop env fuel (remaining - cnt) g).1) whole
                  (Sent-trans cnt (remaining - cnt) f g _ (omega (arith, le, c.few)) c.number s
                    rest.0),
              rest.1,
            )
    ]
      where
        positive : (n : ℕ) → (n == 0) ≡ false → 0 < n
        positive n h = ground arith

    -- While batches can be allocated, `TransmitPackets` sends the first unsent buffers in order, each
    -- with the next number: as many as the window has room for, or all that are counted if those are
    -- fewer. It does so where the counters are 32-bit words, the count of unsent buffers does not exceed
    -- them, a batch has room, and every buffer fits a frame.
    pub transmit_packets-Sent :
        (us : List TxMsgBuf) (f : UdpFlow)
        → CanSend env us f
        → f.tx_tracking.num_unsent_msgbufs ≤ length us
        → Sent env
            (min (effective_wnd f.pcb) f.tx_tracking.num_unsent_msgbufs)
            f
            (transmit_packets env f)
    unfolding transmit_packets
    transmit_packets-Sent us f c h =
        let n = min (effective_wnd f.pcb) f.tx_tracking.num_unsent_msgbufs in
        let loop = transmit_loop-Sent n n us f (omega arith) (omega (arith, h)) c in
        let (sent, g) = transmit_loop env n n f in
        Sent-if n f (n == 0) f _
          (λ none. subst (λ k. Sent env k f f) (sym ((==_iff n 0).0 none)) (Sent-nothing us f c))
          (λ _.
            Sent-if n f sent _ g
              (λ _.
                Sent-if n f (rto_disabled g.pcb) (record g { pcb = rto_enable g.pcb }) g
                  (λ _. Sent-timer n f g loop.0) (λ _. loop.0))
              (λ _. loop.0))
