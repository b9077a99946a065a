-- ===== src/Udp/RxTracking/Runs.antt =====
-- Whatever the order in which the packets of a UDP flow arrive, the application gets the messages in
-- the order of their numbers.
use mathlib.Core.Path.{subst}
use machnet.Base.{
  ℕ, suc, ◌+◌, ◌<◌, ◌≤◌, ◌^◌, ◌≡◌, refl, sym, true, false, Bool-cases, inl, inr, arith, List, [],
  ◌∷◌, length, ◌==◌, ==_iff, if◌then◌else◌,
}
use machnet.Tcp.Deframe.{Channel}
use machnet.Udp.Pcb.{Pcb, new_pcb}
use machnet.Udp.RxTracking.{MsgBuf, RxTracking, new_rx_tracking, consume}
use machnet.Udp.RxTracking.Order.{packet, gathered, InOrder, consume_all, AllSmall, reaches}
use machnet.Udp.RxTracking.Arrival.{InOrderFrom, stays, consume-InOrderFrom, consume_next}

module _ (sent : ℕ → MsgBuf) (ch : Channel) (enqueues : (i : ℕ) → ch.enqueue i ≡ true)
    (fits : (i : ℕ) → length (sent i).bytes ≤ ch.usable_buf_size) where
  consume_all-InOrder :
      (ks : List ℕ) (n : ℕ) (p : Pcb) (r : RxTracking)
      → AllSmall ks
      → InOrder sent n p r
      → InOrderFrom sent ch enqueues fits n (consume_all sent ch ks (p, r))
  unfolding consume_all
  consume_all-InOrder [] n p r small o = stays sent ch enqueues fits n p r o
  consume_all-InOrder (k ∷ ks) n p r small o =
      let (m, le, after) = consume-InOrderFrom sent ch enqueues fits n k p r small.0 o in
      let (p', r') = (consume ch (packet sent k) (p, r)).1 in
      let (last, le', done) = consume_all-InOrder ks m p' r' small.1 after in
      (last, omega (arith, le, le'), done)

  start-InOrder : InOrder sent 0 new_pcb new_rx_tracking
  unfolding new_pcb new_rx_tracking
  start-InOrder = record {
    in_range = omega arith;
    expects = refl;
    queued = tt;
    train = refl;
    messages = refl;
    runs = refl;
  }

  -- Whatever packets of a flow arrive below the wrap of the numbers, in whatever order and however
  -- often, and whichever allocations fail, while the channel takes the messages and the payloads fit
  -- its buffers: the messages
  -- delivered are exactly those that some number of the flow's first packets complete, in order and
  -- once each, the number that is expected next is that of the next packet, and no check fails.
  pub consume_all_orders :
      (ks : List ℕ)
      → AllSmall ks
      → (n : ℕ) × ((consume_all sent ch ks (new_pcb, new_rx_tracking)).0.rcv_nxt ≡ n)
        × ((consume_all sent ch ks (new_pcb, new_rx_tracking)).1.delivered ≡ (gathered sent n).1)
        × ((consume_all sent ch ks (new_pcb, new_rx_tracking)).1.cur_msg_train
            ≡ (gathered sent n).0)
        × ((consume_all sent ch ks (new_pcb, new_rx_tracking)).1.aborted ≡ false)
  consume_all_orders ks small =
      let (n, le, o) = consume_all-InOrder ks 0 new_pcb new_rx_tracking small start-InOrder in
      (n, o.expects, o.messages, o.train, o.runs)

  module _ (allocates : (i : ℕ) → ch.msgbuf_alloc i ≡ true) where
    consume_reaches :
        (c k n : ℕ) (p : Pcb) (r : RxTracking)
        → c ≤ n
        → k + 64 < 2 ^ 32
        → InOrder sent n p r
        → InOrderFrom sent ch enqueues fits
            (if k == c then suc c else c)
            (consume ch (packet sent k) (p, r)).1
    consume_reaches c k n p r le small o = elim (Bool-cases (k == n)) [
      | inl next ↦
          let same : k ≡ n = (==_iff k n).0 next in
          let o' : InOrder sent k p r = subst (λ i. InOrder sent i p r) (sym same) o in
          let (m, past, done) =
            consume_next sent ch enqueues fits k p r small o' (allocates r.allocs) in
          (m, at_most c k n m le same past, done)
      | inr other ↦
          let (m, past, done) = consume-InOrderFrom sent ch enqueues fits n k p r small o in
          (m, still c k n m le other past, done)
    ]
      where
        at_most : (c k n m : ℕ) → c ≤ n → k ≡ n → suc k ≤ m → (if k == c then suc c else c) ≤ m
        at_most c k n m le e past = ground arith

        still : (c k n m : ℕ) → c ≤ n → (k == n) ≡ false → n ≤ m → (if k == c then suc c else c) ≤ m
        still c k n m le e past = ground arith

    consume_all_from :
        (ks : List ℕ) (c n : ℕ) (p : Pcb) (r : RxTracking)
        → c ≤ n
        → AllSmall ks
        → InOrder sent n p r
        → InOrderFrom sent ch enqueues fits (reaches c ks) (consume_all sent ch ks (p, r))
    unfolding consume_all
    consume_all_from [] c n p r le small o = (n, le, o)
    consume_all_from (k ∷ ks) c n p r le small o =
        let (m, past, after) = consume_reaches c k n p r le small.0 o in
        let (p', r') = (consume ch (packet sent k) (p, r)).1 in
        consume_all_from ks (if k == c then suc c else c) m p' r' past small.1 after

    -- While every allocation succeeds, the channel takes the messages and the payloads fit its buffers,
    -- every packet is delivered that arrives after those before it,
    -- whatever arrives in between: if the numbers below `reaches 0 ks` occur in `ks` in this order,
    -- with lost, repeated and early packets among them, at least the messages that these packets
    -- complete are delivered.
    pub consume_all-reaches :
        (ks : List ℕ)
        → AllSmall ks
        → (n : ℕ) × (reaches 0 ks ≤ n)
          × ((consume_all sent ch ks (new_pcb, new_rx_tracking)).1.delivered ≡ (gathered sent n).1)
    consume_all-reaches ks small =
        let (n, le, o) =
          consume_all_from ks 0 0 new_pcb new_rx_tracking (omega arith) small start-InOrder in
        (n, le, o.messages)
