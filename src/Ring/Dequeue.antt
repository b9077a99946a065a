-- ===== src/Ring/Dequeue.antt =====
-- src/ext/jring_elem_private.h: what __jring_do_dequeue_elem does to the queue.
use mathlib.Core.Path.{subst}
use native.Mathlib.Nat.{mod-lt, mod-mod}
use machnet.Base.{
  ℕ, ◌+◌, ◌-◌, ◌%◌, ◌^◌, ◌≡◌, ◌≤◌, ◌<◌, refl, sym, ap, ◌∙◌, List, [], false, Bool-cases, inl, inr,
  length, take, drop, ltb, ◌==◌, ==_iff, tests, arith, length-take, length-drop, add32, sub32,
}
use machnet.Base.Bits.{pow_pos, land}
use machnet.Ring.Units.{IsWhole, dequeue_elems_plain}
use machnet.Ring.{
  Jring, JringQueueBehavior, granted, dequeue_elems, move_cons_head, do_dequeue_elem,
}
use machnet.Ring.Circular.{
  Holds, Holds-drop, Holds-take, moved-Holds, copy_out-Holds, copy_out_wraps,
}
use machnet.Ring.Fifo.{IsFifo, Dequeued, granted-le, pow_small, used_counter, advanced, index_lem}

module _ {ℓ} {A : Type ℓ} where
  dequeue_elems_held :
      (r : Jring A) (k h : ℕ) (xs : List A)
      → k < 32
      → r.size ≡ 2 ^ k
      → r.mask ≡ 2 ^ k - 1
      → length xs ≤ r.size
      → Holds r.size r.slots h xs
      → IsWhole r
      → dequeue_elems r (h % 2 ^ 32) (length xs) ≡ xs
  dequeue_elems_held r k h xs lt size mask le held w =
      let p = r.size in
      let n = length xs in
      let at_h = index_lem r k h lt size mask in
      let some_slot : 0 < p = omega (arith, size, pow_pos k) in
      let inside : h % p < p = mod-lt h some_slot in
      let here = moved-Holds p h (h % p) r.slots xs (sym (mod-mod h p)) held in
      let slot : land 32 (h % 2 ^ 32) r.mask < p = omega (arith, at_h, inside) in
      dequeue_elems_plain r w (h % 2 ^ 32) slot n le
      ∙ rw at_h (elim (Bool-cases (ltb (h % p + n) p)) [
        | inl fits ↦ rw fits (copy_out-Holds p (h % p) r.slots xs (omega tests) here)
        | inr wraps ↦
            let full : p ≤ h % p + n = ground (arith, wraps) in
            let k = p - h % p in
            rw wraps (
              copy_out_wraps p (h % p) k (n - k) r.slots xs (omega arith) (omega arith)
                (omega arith) here)
      ])

  move_cons_head_none :
      (r : Jring A) (n : ℕ) (b : JringQueueBehavior) (used : ℕ)
      → sub32 r.prod_tail r.cons_head ≡ used
      → granted b n used ≡ 0
      → move_cons_head r n b ≡ (0, r.cons_head, used, r)
  move_cons_head_none r n b used e g = unfold move_cons_head in rw (e, g)

  move_cons_head_some :
      (r : Jring A) (n : ℕ) (b : JringQueueBehavior) (used m : ℕ)
      → sub32 r.prod_tail r.cons_head ≡ used
      → granted b n used ≡ m
      → (m == 0) ≡ false
      → move_cons_head r n b ≡ (m, r.cons_head, used, record r { cons_head = add32 r.cons_head m })
  move_cons_head_some r n b used m e g nz = unfold move_cons_head in rw (e, g, nz)

  do_dequeue_none :
      (r : Jring A) (n : ℕ) (b : JringQueueBehavior) (used : ℕ)
      → move_cons_head r n b ≡ (0, r.cons_head, used, r)
      → do_dequeue_elem r n b ≡ ([], used, r)
  do_dequeue_none r n b used e = unfold do_dequeue_elem in rw e

  do_dequeue_some :
      (r : Jring A) (n : ℕ) (b : JringQueueBehavior) (used m : ℕ) (moved : Jring A) (objs : List A)
      → move_cons_head r n b ≡ (m, r.cons_head, used, moved)
      → (m == 0) ≡ false
      → dequeue_elems moved r.cons_head m ≡ objs
      → do_dequeue_elem r n b ≡ (objs, used - m, record moved { cons_tail = add32 r.cons_head m })
  do_dequeue_some r n b used m moved objs e nz w = unfold do_dequeue_elem in rw (e, nz, w)

  used_lem : (r : Jring A) (xs : List A) → IsFifo r xs → sub32 r.prod_tail r.cons_head ≡ length xs
  used_lem r xs f =
      let lt : length xs < 2 ^ f.bits = omega (arith, f.bound, f.size) in
      let head = f.consumer_done ∙ f.consumer in
      rw (head, f.producer) (used_counter f.bits f.taken (length xs) lt (pow_small f.bits f.narrow))

  dequeue_some :
      (r : Jring A) (xs : List A) (m : ℕ) (f : IsFifo r xs)
      → m ≤ length xs
      → IsFifo
          (record r { cons_head = add32 r.cons_head m; cons_tail = add32 r.cons_head m })
          (drop m xs)
  dequeue_some r xs m f le =
      let count : length (drop m xs) ≡ length xs - m = length-drop m xs in
      let from : r.cons_head ≡ (f.taken + 0) % 2 ^ 32 =
        omega (arith, f.consumer_done, f.consumer) in
      let whole : f.taken + m + length (drop m xs) ≡ f.taken + length xs = omega arith in
      record {
        bits = f.bits;
        taken = f.taken + m;
        narrow = f.narrow;
        size = f.size;
        mask = f.mask;
        capacity = f.capacity;
        words = f.words;
        slots = f.slots;
        consumer = advanced r.cons_head f.taken 0 m m from (omega arith);
        consumer_done = refl;
        producer = f.producer ∙ ap (λ i. i % 2 ^ 32) (sym whole);
        producer_done = f.producer_done;
        bound = omega (arith, count, f.bound);
        held = Holds-drop r.size f.taken m r.slots xs f.held;
      }

  pub dequeue-Dequeued :
      (r : Jring A) (xs : List A) (n : ℕ) (b : JringQueueBehavior)
      → IsFifo r xs
      → Dequeued r xs (granted b n (length xs)) (do_dequeue_elem r n b)
  dequeue-Dequeued r xs n b f =
      let used = length xs in
      let m = granted b n used in
      elim (Bool-cases (m == 0)) [
        | inl refused ↦
            let e : m ≡ 0 = (==_iff m 0).0 refused in
            let moved = move_cons_head_none r n b used (used_lem r xs f) e in
            subst (Dequeued r xs m) (sym (do_dequeue_none r n b used moved)) (record {
              objects = ap (λ i. take i xs) (sym e);
              remain = omega arith;
              capacity = refl;
              fifo = subst (λ i. IsFifo r (drop i xs)) (sym e) f;
            })
        | inr nz ↦
            let le : m ≤ used = granted-le b n used in
            let moved = move_cons_head_some r n b used m (used_lem r xs f) refl nz in
            let ring = record r { cons_head = add32 r.cons_head m } in
            let out = take m xs in
            let count : length out ≡ m = omega (arith, length-take m xs, le) in
            let small : length out ≤ r.size = omega (arith, count, le, f.bound) in
            let head : r.cons_head ≡ f.taken % 2 ^ 32 = f.consumer_done ∙ f.consumer in
            let read =
              ap (dequeue_elems ring r.cons_head) (sym count)
              ∙ ap (λ p. dequeue_elems ring p (length out)) head
              ∙ dequeue_elems_held ring f.bits f.taken out f.narrow f.size f.mask small
                  (Holds-take r.size f.taken m r.slots xs f.held) f.words in
            subst (Dequeued r xs m)
              (sym (do_dequeue_some r n b used m ring (take m xs) moved nz read))
              (record {
                objects = refl;
                remain = refl;
                capacity = refl;
                fifo = dequeue_some r xs m f le;
              })
      ]
