-- ===== src/Tcp/Send/Acks.antt =====
-- What an acknowledgement does to the sequence space of the sender.
use mathlib.Core.Bool.{true≢false}
use native.Mathlib.Decide.{dec_lt}
use machnet.Base.{
  ℕ, ◌+◌, ◌-◌, ◌<◌, ◌≤◌, ◌^◌, min, ◌≡◌, sym, ap, ◌∙◌, inl, inr, true, false, zero, suc, [], ◌∷◌,
  refl, List, ◌&&◌, arith, length, drop, leb, ltb, if◌then◌else◌, add32, sub32, Bool-cases,
  length-drop,
}
use machnet.Seq.{seq_gt, seq_leq}
use machnet.Seq.Order.{seq_leq_offsets, add32-sub32, add32_assoc}
use machnet.Tcp.Flow.{TcpFlow}
use machnet.Tcp.Send.{advance_snd_una}
use machnet.Tcp.Send.Window.{InWindow, IsSound, InWindow-if, off-le}

drop_nil : (n : ℕ) → drop {A = ℕ} 0 [] ≡ drop n []
drop_nil zero = refl
drop_nil (suc n) = refl

drop_to_end : (n : ℕ) (xs : List ℕ) → drop (min n (length xs)) xs ≡ drop n xs
drop_to_end n [] = rw none (drop_nil n)
  where
    none : min n 0 ≡ 0
    none = omega arith
drop_to_end zero (x ∷ xs) = rw none refl
  where
    none : min 0 (suc (length xs)) ≡ 0
    none = omega arith
drop_to_end (suc n) (x ∷ xs) = rw one_more (drop_to_end n xs)
  where
    one_more : min (suc n) (suc (length xs)) ≡ suc (min n (length xs))
    one_more = omega arith

module _ (ack : ℕ) (f : TcpFlow) (w : InWindow f) (ack_word : ack < 2 ^ 32) where
  -- How far an acknowledgement lies past `snd_una`.
  acked : ℕ
  acked = sub32 ack f.snd_una

  ack-eq : ack ≡ add32 f.snd_una acked
  unfolding acked
  ack-eq = sym (add32-sub32 f.snd_una ack w.una_word ack_word)

  leq-eq : acked < 2 ^ 31 → seq_leq ack f.snd_nxt ≡ leb acked w.off
  leq-eq small =
      (λ i. seq_leq (ack-eq i) (w.next_seq i))
      ∙ seq_leq_offsets f.snd_una acked w.off w.una_word small
          (omega (arith, off-le f w, w.buffered))

  -- The acknowledgements that are taken are those of sent numbers.
  accepted_iff :
      (seq_gt ack f.snd_una && seq_leq ack f.snd_nxt) ≡ true → (0 < acked) × (acked ≤ w.off)
  unfolding seq_gt acked
  accepted_iff h =
      let small : (0 < sub32 ack f.snd_una) × (sub32 ack f.snd_una < 2 ^ 31) = ground arith in
      (small.0, ground (arith, leq-eq small.1))

  advanced-InWindow :
      0 < acked
      → acked ≤ w.off
      → IsSound ack f.snd_nxt
          (drop (min acked (length f.snd_buf)) f.snd_buf)
          f.snd_wnd
          f.peer_mss
          f.fin_sent
          f.fin_pending
          f.snd_fin_seq
  advanced-InWindow pos in_flight = record {
    off = w.off - acked;
    una_word = ack_word;
    next_seq = w.next_seq ∙ past w.off in_flight;
    buffered = omega (arith, left, w.buffered);
    window = w.window;
    mss = w.mss;
    unsent_fin = λ h. omega (arith, left, w.unsent_fin h, in_flight);
    sent_fin = λ h. elim (dec_lt (length f.snd_buf) acked) [
      | yes all ↦ inr (fin_acked h all)
      | no some_left ↦ inl (fin_left h (omega arith))
    ];
    wanted_fin = w.wanted_fin;
  }
    where
      left :
          length (drop (min acked (length f.snd_buf)) f.snd_buf)
          ≡ length f.snd_buf - min acked (length f.snd_buf)
      left = length-drop (min acked (length f.snd_buf)) f.snd_buf

      past : (n : ℕ) → acked ≤ n → add32 f.snd_una n ≡ add32 ack (n - acked)
      past n h =
          ap (add32 f.snd_una) (omega arith)
          ∙ sym (add32_assoc f.snd_una acked (n - acked))
          ∙ ap (λ a. add32 a (n - acked)) (sym ack-eq)

      fin_left :
          f.fin_sent ≡ true
          → acked ≤ length f.snd_buf
          → (w.off - acked ≡ length (drop (min acked (length f.snd_buf)) f.snd_buf) + 1)
            × (f.snd_fin_seq ≡ add32 ack (length (drop (min acked (length f.snd_buf)) f.snd_buf)))
      fin_left h k = elim (w.sent_fin h) [
        | inr gone ↦ absurd (omega (arith, gone))
        | inl here ↦ (
          omega (arith, here.0, left),
          here.1 ∙ past (length f.snd_buf) k ∙ ap (add32 ack) (omega (arith, left)),
        )
      ]

      fin_acked :
          f.fin_sent ≡ true
          → length f.snd_buf < acked
          → (w.off - acked ≡ 0)
            × (length (drop (min acked (length f.snd_buf)) f.snd_buf) ≡ 0)
            × (add32 f.snd_fin_seq 1 ≡ ack)
      fin_acked h k = elim (w.sent_fin h) [
        | inr gone ↦ absurd (omega (arith, gone))
        | inl here ↦ (
          omega (arith, here.0),
          omega (arith, left),
          ap (λ n. add32 n 1) here.1
              ∙ add32_assoc f.snd_una (length f.snd_buf) 1
              ∙ ap (add32 f.snd_una) (omega (arith, here.0))
              ∙ sym ack-eq,
        )
      ]

  -- An acknowledgement keeps the sequence space sound, also one that covers the FIN.
  pub advance_snd_una-InWindow : InWindow (advance_snd_una ack f)
  unfolding advance_snd_una acked
  advance_snd_una-InWindow = elim (Bool-cases (seq_gt ack f.snd_una && seq_leq ack f.snd_nxt)) [
    | inr old ↦ rw old w
    | inl new ↦
        let (pos, in_flight) = accepted_iff new in
        rw new
          (InWindow-if _ _ _ (advanced-InWindow pos in_flight) (advanced-InWindow pos in_flight))
  ]

  taken_iff :
      0 < sub32 ack f.snd_una
      → sub32 ack f.snd_una ≤ w.off
      → (seq_gt ack f.snd_una && seq_leq ack f.snd_nxt) ≡ true
  unfolding seq_gt acked
  taken_iff pos in_flight =
      let small : sub32 ack f.snd_una < 2 ^ 31 = omega (arith, off-le f w, w.buffered) in
      ground (arith, leq-eq small)

  in_flight_iff :
      (seq_gt ack f.snd_una && seq_leq ack f.snd_nxt) ≡ true
      → (ltb 0 (sub32 ack f.snd_una) && leb (sub32 ack f.snd_una) w.off) ≡ true
  unfolding acked
  in_flight_iff new = ground (arith, accepted_iff new)

  refused :
      (seq_gt ack f.snd_una && seq_leq ack f.snd_nxt) ≡ false
      → (ltb 0 (sub32 ack f.snd_una) && leb (sub32 ack f.snd_una) w.off) ≡ false
  refused old = elim (Bool-cases (ltb 0 (sub32 ack f.snd_una) && leb (sub32 ack f.snd_una) w.off)) [
    | inr outside ↦ outside
    | inl inside ↦
        let pos : 0 < sub32 ack f.snd_una = ground arith in
        let within : sub32 ack f.snd_una ≤ w.off = ground arith in
        absurd (true≢false (sym (taken_iff pos within) ∙ old))
  ]

  -- An acknowledgement of numbers in flight, and no other, moves `snd_una` to it and takes exactly the
  -- acknowledged bytes off the front of the buffer, so that each byte that is left keeps its sequence
  -- number; any other acknowledgement leaves `snd_una` and the buffer, and none moves `snd_nxt`.
  pub advance_snd_una_takes :
      let g = advance_snd_una ack f in
      let n = sub32 ack f.snd_una in
      let in_flight = ltb 0 n && leb n w.off in
      (g.snd_una ≡ (if in_flight then ack else f.snd_una))
      × (g.snd_buf ≡ (if in_flight then drop n f.snd_buf else f.snd_buf))
      × (g.snd_nxt ≡ f.snd_nxt)
  unfolding advance_snd_una
  advance_snd_una_takes = elim (Bool-cases (seq_gt ack f.snd_una && seq_leq ack f.snd_nxt)) [
    | inl new ↦ ground (arith, new, in_flight_iff new, drop_to_end (sub32 ack f.snd_una) f.snd_buf)
    | inr old ↦ ground (arith, old, refused old)
  ]
