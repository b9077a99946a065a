-- ===== src/Ring/Enqueue.antt =====
-- src/ext/jring_elem_private.h: what __jring_do_enqueue_elem does to the queue.
use mathlib.Core.Path.{subst}
use mathlib.Core.List.{append-nil}
use native.Mathlib.Nat.{mod-lt, mod-mod}
use machnet.Base.{
  ℕ, ◌+◌, ◌-◌, ◌%◌, ◌^◌, ◌≡◌, ◌≤◌, ◌<◌, refl, sym, ap, ◌∙◌, List, ◌++◌, false, Bool-cases, inl, inr,
  length, take, ltb, ◌==◌, ==_iff, tests, arith, length-take, length-append, add32, sub32,
}
use machnet.Base.Bits.{pow_pos, land}
use machnet.Ring.Units.{IsWhole, enqueue_elems_plain}
use machnet.Ring.{
  Jring, JringQueueBehavior, granted, enqueue_elems, move_prod_head, do_enqueue_elem,
}
use machnet.Ring.Circular.{put, put-Holds, length-put, put_same, copy_in-put, copy_in_wraps}
use machnet.Ring.Fifo.{
  IsFifo, Enqueued, granted-le, granted_asked, pow_small, free_counter, advanced, index_lem,
}

module _ {ℓ} {A : Type ℓ} where
  enqueue_elems-put :
      (r : Jring A) (k h : ℕ) (objs : List A)
      → k < 32
      → r.size ≡ 2 ^ k
      → r.mask ≡ 2 ^ k - 1
      → length objs ≤ r.size
      → IsWhole r
      → enqueue_elems r (h % 2 ^ 32) objs ≡ record r { slots = put r.size r.slots h objs }
  enqueue_elems-put r k h objs lt size mask le w =
      let p = r.size in
      let at_h = index_lem r k h lt size mask in
      let some_slot : 0 < p = omega (arith, size, pow_pos k) in
      let inside : h % p < p = mod-lt h some_slot in
      let round : put p r.slots (h % p) objs ≡ put p r.slots h objs =
        put_same p (h % p) h r.slots objs (mod-mod h p) in
      let slot : land 32 (h % 2 ^ 32) r.mask < p = omega (arith, at_h, inside) in
      enqueue_elems_plain r w (h % 2 ^ 32) slot objs le
      ∙ rw at_h (elim (Bool-cases (ltb (h % p + length objs) p)) [
        | inl fits ↦ rw fits (
            ap (λ i. record r { slots = i })
              (copy_in-put p (h % p) r.slots objs (omega tests) ∙ round))
        | inr wraps ↦
            let full : p ≤ h % p + length objs = ground (arith, wraps) in
            rw wraps (
              ap (λ i. record r { slots = i })
                (copy_in_wraps p (h % p) (p - h % p) r.slots objs (omega arith) (omega arith) le
                  ∙ round))
      ])

  move_prod_head_none :
      (r : Jring A) (n : ℕ) (b : JringQueueBehavior) (free : ℕ)
      → sub32 (add32 r.capacity r.cons_tail) r.prod_head ≡ free
      → granted b n free ≡ 0
      → move_prod_head r n b ≡ (0, r.prod_head, free, r)
  move_prod_head_none r n b free e g = unfold move_prod_head in rw (e, g)

  move_prod_head_some :
      (r : Jring A) (n : ℕ) (b : JringQueueBehavior) (free m : ℕ)
      → sub32 (add32 r.capacity r.cons_tail) r.prod_head ≡ free
      → granted b n free ≡ m
      → (m == 0) ≡ false
      → move_prod_head r n b ≡ (m, r.prod_head, free, record r { prod_head = add32 r.prod_head m })
  move_prod_head_some r n b free m e g nz = unfold move_prod_head in rw (e, g, nz)

  do_enqueue_none :
      (r : Jring A) (objs : List A) (b : JringQueueBehavior) (free : ℕ)
      → move_prod_head r (length objs) b ≡ (0, r.prod_head, free, r)
      → do_enqueue_elem r objs b ≡ (0, free, r)
  do_enqueue_none r objs b free e = unfold do_enqueue_elem in rw e

  do_enqueue_some :
      (r : Jring A) (objs : List A) (b : JringQueueBehavior) (free m : ℕ) (moved written : Jring A)
      → move_prod_head r (length objs) b ≡ (m, r.prod_head, free, moved)
      → (m == 0) ≡ false
      → enqueue_elems moved r.prod_head (take m objs) ≡ written
      → do_enqueue_elem r objs b ≡ (m, free - m, record written { prod_tail = add32 r.prod_head m })
  do_enqueue_some r objs b free m moved written e nz w = unfold do_enqueue_elem in rw (e, nz, w)

  free_lem :
      (r : Jring A) (xs : List A)
      → IsFifo r xs
      → sub32 (add32 r.capacity r.cons_tail) r.prod_head ≡ r.capacity - length xs
  free_lem r xs f =
      let n = length xs in
      let lt : n < 2 ^ f.bits = omega (arith, f.bound, f.size) in
      let c : r.capacity ≡ 2 ^ f.bits - 1 = omega (arith, f.capacity, f.size) in
      let old = f.producer_done ∙ f.producer in
      rw (old, f.consumer, c) (free_counter f.bits f.taken n lt (pow_small f.bits f.narrow))

  enqueue_none :
      (r : Jring A) (xs objs : List A) (m : ℕ)
      → IsFifo r xs
      → m ≡ 0
      → Enqueued r xs objs m (0, r.capacity - length xs, r)
  enqueue_none r xs objs m f e = record {
    number = sym e;
    left = omega arith;
    capacity = refl;
    fifo =
        subst (λ i. IsFifo r (xs ++ take i objs)) (sym e)
          (subst (IsFifo r) (sym (append-nil xs)) f);
  }

  enqueue_some :
      (r : Jring A) (xs objs : List A) (m : ℕ) (f : IsFifo r xs)
      → m ≤ r.capacity - length xs
      → m ≤ length objs
      → IsFifo
          (record r {
            prod_head = add32 r.prod_head m;
            prod_tail = add32 r.prod_head m;
            slots = put r.size r.slots (f.taken + length xs) (take m objs);
          })
          (xs ++ take m objs)
  enqueue_some r xs objs m f le le' =
      let new = take m objs in
      let count : length new ≡ m = omega (arith, length-take m objs) in
      let all : length (xs ++ new) ≡ length xs + m = omega (arith, length-append xs new, count) in
      record {
        bits = f.bits;
        taken = f.taken;
        narrow = f.narrow;
        size = f.size;
        mask = f.mask;
        capacity = f.capacity;
        words = f.words;
        slots = length-put r.size r.slots (f.taken + length xs) new ∙ f.slots;
        consumer = f.consumer;
        consumer_done = f.consumer_done;
        producer =
            advanced r.prod_head f.taken (length xs) m (length (xs ++ new))
              (f.producer_done ∙ f.producer) all;
        producer_done = refl;
        bound = omega (arith, all, le, f.bound, f.capacity);
        held =
            put-Holds r.size f.taken r.slots xs new f.slots
              (omega (arith, count, le, f.bound, f.capacity)) f.held;
      }

  pub enqueue-Enqueued :
      (r : Jring A) (xs objs : List A) (b : JringQueueBehavior)
      → IsFifo r xs
      → Enqueued r xs objs
          (granted b (length objs) (r.capacity - length xs))
          (do_enqueue_elem r objs b)
  enqueue-Enqueued r xs objs b f =
      let free = r.capacity - length xs in
      let m = granted b (length objs) free in
      elim (Bool-cases (m == 0)) [
        | inl refused ↦
            let e : m ≡ 0 = (==_iff m 0).0 refused in
            let moved = move_prod_head_none r (length objs) b free (free_lem r xs f) e in
            subst (Enqueued r xs objs m) (sym (do_enqueue_none r objs b free moved))
              (enqueue_none r xs objs m f e)
        | inr nz ↦
            let h = f.taken + length xs in
            let new = take m objs in
            let le : m ≤ free = granted-le b (length objs) free in
            let asked : m ≤ length objs = granted_asked b (length objs) free in
            let moved = move_prod_head_some r (length objs) b free m (free_lem r xs f) refl nz in
            let ring = record r { prod_head = add32 r.prod_head m } in
            let small : length new ≤ r.size = omega (arith, length-take m objs, le, f.capacity) in
            let old : r.prod_head ≡ h % 2 ^ 32 = f.producer_done ∙ f.producer in
            let written =
              ap (λ p. enqueue_elems ring p new) old
              ∙ enqueue_elems-put ring f.bits h new f.narrow f.size f.mask small f.words in
            subst (Enqueued r xs objs m)
              (sym (
                do_enqueue_some r objs b free m ring
                  (record ring { slots = put r.size r.slots h new }) moved nz written))
              (record {
                number = refl;
                left = refl;
                capacity = refl;
                fifo = enqueue_some r xs objs m f le asked;
              })
      ]
