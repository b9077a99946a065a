-- ===== src/Udp/RxTracking/Arrival.antt =====
-- One packet of a UDP flow arrives: `Consume` keeps the order.
use machnet.Base.{
  some, ℕ, suc, ◌+◌, ◌<◌, ◌≤◌, ◌^◌, ◌≡◌, refl, ◌∙◌, Bool, true, false, arith, List, [], ◌∷◌, ◌++◌,
  length, ltb, leb, ◌==◌, ==_iff, if◌then◌else◌, sub32,
}
use machnet.Seq.{seq_lt}
use machnet.Tcp.Deframe.{Channel}
use machnet.Udp.Pcb.{Pcb, sack_bitmap_bit_set}
use machnet.Udp.RxTracking.{
  MsgBuf, ReasmQueueEnt, RxTracking, find_entry, starts_with, link_msgbuf, push_in_order,
  buffer_packet, consume,
}
use machnet.Udp.RxTracking.Order.{
  packet, gathered, Queued, InOrder, entry, Queued-weaken, find_entry-Queued, link_msgbuf-gathered,
  next_expected, push_in_order-InOrder,
}

module _ (sent : ℕ → MsgBuf) (ch : Channel) (enqueues : (i : ℕ) → ch.enqueue i ≡ true)
    (fits : (i : ℕ) → length (sent i).bytes ≤ ch.usable_buf_size) where
  -- What the packets so far left, perhaps further on.
  abbrev pub InOrderFrom : ℕ → Pcb × RxTracking → Type 0
  InOrderFrom n s = (m : ℕ) × (n ≤ m) × InOrder sent m s.0 s.1

  pub stays : (n : ℕ) (p : Pcb) (r : RxTracking) → InOrder sent n p r → InOrderFrom n (p, r)
  stays n p r o = (n, omega arith, o)

  from-if :
      (n : ℕ) (b : Bool) (s t : Bool × (Pcb × RxTracking))
      → (b ≡ true → InOrderFrom n s.1)
      → (b ≡ false → InOrderFrom n t.1)
      → InOrderFrom n (if b then s else t).1
  from-if n true s t x y = x refl
  from-if n false s t x y = y refl

  bit_noted :
      (i : ℕ) (p : Pcb)
      → i < 64
      → (p' : Pcb) × (sack_bitmap_bit_set i p ≡ some p') × (p'.rcv_nxt ≡ p.rcv_nxt)
  unfolding sack_bitmap_bit_set
  bit_noted i p h = rw (low i h) (_, refl, refl)
    where
      low : (i : ℕ) → i < 64 → leb 256 i ≡ false
      low i h = ground arith

  roomy : (n m : ℕ) → m ≤ n → ltb n m ≡ false
  roomy n m le = ground arith

  buffer_packet-InOrder :
      (n k : ℕ) (before rest : List ReasmQueueEnt) (p : Pcb) (r : RxTracking)
      → InOrder sent n p r
      → sub32 k p.rcv_nxt < 64
      → Queued sent n (before ++ entry sent k ∷ rest)
      → InOrderFrom n (buffer_packet ch (packet sent k) before rest (p, r)).1
  unfolding buffer_packet entry
  buffer_packet-InOrder n k before rest p r o near q =
      from-if n (ch.msgbuf_alloc r.allocs) _ _
        (λ _.
          let (p', noted, same) = bit_noted (sub32 k p.rcv_nxt) p near in
          rw (roomy ch.usable_buf_size (length (sent k).bytes) (fits k), noted)
            (push_in_order-InOrder sent ch enqueues n (before ++ entry sent k ∷ rest) p'
              (record r { allocs = r.allocs + 1 }) o.in_range (same ∙ o.expects) q o.train
              o.messages o.runs))
        (λ _. (
          n,
          omega arith,
          record {
            in_range = o.in_range;
            expects = o.expects;
            queued = o.queued;
            train = o.train;
            messages = o.messages;
            runs = o.runs;
          },
        ))

  ahead : (k x n : ℕ) → x ≡ n → n + 64 ≤ 2 ^ 32 → k + 64 < 2 ^ 32 → sub32 k x < 64 → n ≤ k
  unfolding sub32
  ahead k x n e range small near = omega (arith, e, range, small, near)

  pub consume-InOrderFrom :
      (n k : ℕ) (p : Pcb) (r : RxTracking)
      → k + 64 < 2 ^ 32
      → InOrder sent n p r
      → InOrderFrom n (consume ch (packet sent k) (p, r)).1
  unfolding consume entry
  consume-InOrderFrom n k p r small o =
      from-if n (seq_lt k p.rcv_nxt) _ _ (λ _. stays n p r o)
        (λ _.
          from-if n (leb 64 (sub32 k p.rcv_nxt)) _ _ (λ _. stays n p r o)
            (λ near.
              let close : sub32 k p.rcv_nxt < 64 = ground arith in
              let after : n ≤ k = ahead k p.rcv_nxt n o.expects o.in_range small close in
              from-if n (k == p.rcv_nxt) _ _
                (λ next. buffer_packet-InOrder n k [] r.reass_q p r o close (
                  after,
                  small,
                  refl,
                  Queued-weaken sent (suc k) (suc n) r.reass_q
                      (omega (arith, (==_iff k p.rcv_nxt).0 next, o.expects)) o.queued,
                ))
                (λ gap.
                  from-if n (starts_with k (find_entry k r.reass_q).1) _ _ (λ _. stays n p r o)
                    (λ new.
                      buffer_packet-InOrder n k (find_entry k r.reass_q).0
                        (find_entry k r.reass_q).1 p r o close
                        (find_entry-Queued sent k n r.reass_q after small
                          (Queued-weaken sent n (suc n) r.reass_q (omega arith) o.queued) new)))))

  no_distance : (n x : ℕ) → x ≡ n → n + 64 < 2 ^ 32 → sub32 n x ≡ 0
  unfolding sub32
  no_distance n x e h = omega (arith, e, h)

  -- With a buffer for it, the packet that is expected is put in order.
  push_next :
      (n : ℕ) (es : List ReasmQueueEnt) (p : Pcb) (r : RxTracking)
      → n + 64 < 2 ^ 32
      → p.rcv_nxt ≡ n
      → Queued sent (suc n) es
      → r.cur_msg_train ≡ (gathered sent n).0
      → r.delivered ≡ (gathered sent n).1
      → r.aborted ≡ false
      → InOrderFrom (suc n) (push_in_order ch (entry sent n ∷ es) (p, r))
  unfolding push_in_order entry
  push_next n es p r range ex q t ms run =
      let (train, messages, runs) = link_msgbuf-gathered sent ch enqueues n (sent n) r refl t ms in
      rw (same_number n p.rcv_nxt ex) (
        push_in_order-InOrder sent ch enqueues (suc n) es _ (link_msgbuf ch (sent n) r)
          (omega (arith, range)) (next_expected sent ch enqueues n p ex (omega (arith, range))) q
          train messages (runs ∙ run))
    where
      same_number : (n x : ℕ) → x ≡ n → (n == x) ≡ true
      same_number n x e = ground arith

  pub consume_next :
      (n : ℕ) (p : Pcb) (r : RxTracking)
      → n + 64 < 2 ^ 32
      → InOrder sent n p r
      → ch.msgbuf_alloc r.allocs ≡ true
      → InOrderFrom (suc n) (consume ch (packet sent n) (p, r)).1
  unfolding consume buffer_packet entry seq_lt
  consume_next n p r small o alloc =
      let zero_apart = no_distance n p.rcv_nxt o.expects small in
      let (p', noted, same) = bit_noted (sub32 n p.rcv_nxt) p (omega (arith, zero_apart)) in
      rw
        (
          zero_apart,
          same_number n p.rcv_nxt o.expects,
          alloc,
          roomy ch.usable_buf_size (length (sent n).bytes) (fits n),
          rw zero_apart at noted,
        )
        (push_next n r.reass_q p' (record r { allocs = r.allocs + 1 }) small (same ∙ o.expects)
          o.queued o.train o.messages o.runs)
    where
      same_number : (n x : ℕ) → x ≡ n → (n == x) ≡ true
      same_number n x e = ground arith
