-- ===== src/Udp/RxTracking/Order.antt =====
-- The queue of `RXTracking` in the order of its numbers, and the packets that are put in order.
use machnet.Base.{
  ℕ, zero, suc, ◌+◌, ◌<◌, ◌≤◌, ◌^◌, ◌≡◌, refl, ap, ◌∙◌, true, false, Bool-cases, inl, inr, arith,
  List, [], ◌∷◌, ◌++◌, leb, ◌==◌, ==_iff, if◌then◌else◌, add32,
}
use machnet.Tcp.Deframe.{Channel}
use machnet.Udp.Pcb.{Pcb, advance_rcv_nxt, sack_bitmap_shift_right_one}
use machnet.Udp.RxTracking.{
  MsgBuf, DataPacket, ReasmQueueEnt, RxTracking, find_entry, starts_with, link_msgbuf,
  push_in_order, consume,
}

-- Numbers below the wrap.
abbrev pub AllSmall : List ℕ → Type 0
AllSmall [] = Unit {0}
AllSmall (k ∷ ks) = (k + 64 < 2 ^ 32) × AllSmall ks

-- How far the packets of `ks` go that arrive, in among others, in the order of their numbers.
abbrev pub reaches : ℕ → List ℕ → ℕ
reaches c [] = c
reaches c (k ∷ ks) = reaches (if k == c then suc c else c) ks

-- The buffers that the packets with the numbers 0, 1, ... of a flow carry.
module _ (sent : ℕ → MsgBuf) where
  -- The packet with number `k`.
  abbrev pub packet : ℕ → DataPacket
  packet k = record { seqno = k; last = (sent k).last; payload = (sent k).bytes }

  -- The packets with the numbers of `ks`, as they arrive.
  unfoldable pub consume_all : Channel → List ℕ → Pcb × RxTracking → Pcb × RxTracking
  consume_all ch [] s = s
  consume_all ch (k ∷ ks) s = consume_all ch ks (consume ch (packet k) s).1

  -- The open train and the complete messages of the first `n` packets, newest first.
  abbrev pub gathered : ℕ → List MsgBuf × List (List MsgBuf)
  gathered zero = ([], [])
  gathered (suc n) =
      let (train, messages) = gathered n in
      if (sent n).last then ([], (sent n ∷ train) ∷ messages) else (sent n ∷ train, messages)

  -- Packets from `lo` on, their numbers rising, and all below the wrap.
  abbrev pub Queued : ℕ → List ReasmQueueEnt → Type 0
  Queued lo [] = Unit {0}
  Queued lo (e ∷ es) =
      (lo ≤ e.seqno) × (e.seqno + 64 < 2 ^ 32) × (e.msgbuf ≡ sent e.seqno) × Queued (suc e.seqno) es

  -- The first `n` packets were put in order, and later ones are queued.
  pub record InOrder (n : ℕ) (p : Pcb) (r : RxTracking) : Type 0 where
    pub in_range : n + 64 ≤ 2 ^ 32
    pub expects : p.rcv_nxt ≡ n
    pub queued : Queued (suc n) r.reass_q
    pub train : r.cur_msg_train ≡ (gathered n).0
    pub messages : r.delivered ≡ (gathered n).1
    pub runs : r.aborted ≡ false

  unfoldable pub entry : ℕ → ReasmQueueEnt
  entry k = record { msgbuf = sent k; seqno = k }

  pub Queued-weaken : (lo hi : ℕ) (es : List ReasmQueueEnt) → lo ≤ hi → Queued hi es → Queued lo es
  Queued-weaken lo hi [] h q = tt
  Queued-weaken lo hi (e ∷ es) h q = (omega (arith, q.0, h), q.1, q.2, q.3)

  not_yet : (i k : ℕ) → leb k i ≡ true → (i == k) ≡ false → suc k ≤ i
  not_yet i k h e = ground arith

  passed : (k i : ℕ) → leb k i ≡ false → suc i ≤ k
  passed k i h = ground arith

  -- A packet that is not queued goes to its place.
  pub find_entry-Queued :
      (k lo : ℕ) (es : List ReasmQueueEnt)
      → lo ≤ k
      → k + 64 < 2 ^ 32
      → Queued lo es
      → starts_with k (find_entry k es).1 ≡ false
      → Queued lo ((find_entry k es).0 ++ entry k ∷ (find_entry k es).1)
  unfolding find_entry entry
  find_entry-Queued k lo [] h small q s = (h, small, refl, tt)
  find_entry-Queued k lo (e ∷ es) h small q s = elim (Bool-cases (leb k e.seqno)) [
    | inl here ↦ rw here (h, small, refl, (not_yet e.seqno k here (rw here at s), q.1, q.2, q.3))
    | inr later ↦ rw later (
      q.0,
      q.1,
      q.2,
      find_entry-Queued k (suc e.seqno) es (passed k e.seqno later) small q.3 (rw later at s),
    )
  ]

  module _ (ch : Channel) (enqueues : (i : ℕ) → ch.enqueue i ≡ true) where
    pub link_msgbuf-gathered :
        (n : ℕ) (b : MsgBuf) (r : RxTracking)
        → b ≡ sent n
        → r.cur_msg_train ≡ (gathered n).0
        → r.delivered ≡ (gathered n).1
        → let r' = link_msgbuf ch b r in
          (r'.cur_msg_train ≡ (gathered (suc n)).0)
          × (r'.delivered ≡ (gathered (suc n)).1)
          × (r'.aborted ≡ r.aborted)
    unfolding link_msgbuf
    link_msgbuf-gathered n b r e t m = ground (arith, e, t, m, enqueues r.enqueues)

    pub next_expected :
        (n : ℕ) (p : Pcb)
        → p.rcv_nxt ≡ n
        → n + 64 ≤ 2 ^ 32
        → (sack_bitmap_shift_right_one (advance_rcv_nxt p)).rcv_nxt ≡ suc n
    unfolding sack_bitmap_shift_right_one advance_rcv_nxt add32
    next_expected n p e h = omega (arith, e, h)

    beyond : (i x n : ℕ) → (i == x) ≡ false → x ≡ n → n ≤ i → suc n ≤ i
    beyond i x n h e l = ground arith

    pub push_in_order-InOrder :
        (n : ℕ) (es : List ReasmQueueEnt) (p : Pcb) (r : RxTracking)
        → n + 64 ≤ 2 ^ 32
        → p.rcv_nxt ≡ n
        → Queued n es
        → r.cur_msg_train ≡ (gathered n).0
        → r.delivered ≡ (gathered n).1
        → r.aborted ≡ false
        → let (p', r') = push_in_order ch es (p, r) in (m : ℕ) × (n ≤ m) × InOrder m p' r'
    unfolding push_in_order
    push_in_order-InOrder n [] p r range ex q t ms run = (
      n,
      omega arith,
      record { in_range = range; expects = ex; queued = tt; train = t; messages = ms; runs = run },
    )
    push_in_order-InOrder n (e ∷ es) p r range ex q t ms run =
        elim (Bool-cases (e.seqno == p.rcv_nxt)) [
          | inl next ↦
              let here : e.seqno ≡ n = (==_iff e.seqno p.rcv_nxt).0 next ∙ ex in
              let p' = sack_bitmap_shift_right_one (advance_rcv_nxt p) in
              let r' = link_msgbuf ch e.msgbuf r in
              let (train, messages, runs) =
                link_msgbuf-gathered n e.msgbuf r (q.2 ∙ ap sent here) t ms in
              let (m, le, done) =
                push_in_order-InOrder (suc n) es p' r' (omega (arith, q.1, here))
                  (next_expected n p ex range)
                  (Queued-weaken (suc n) (suc e.seqno) es (omega (arith, here)) q.3) train messages
                  (runs ∙ run) in
              rw next (m, omega (arith, le), done)
          | inr gap ↦ rw gap (
            n,
            omega arith,
            record {
              in_range = range;
              expects = ex;
              queued = (beyond e.seqno p.rcv_nxt n gap ex q.0, q.1, q.2, q.3);
              train = t;
              messages = ms;
              runs = run;
            },
          )
        ]
