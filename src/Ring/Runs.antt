-- ===== src/Ring/Runs.antt =====
-- A ring that jring_init has made, under any sequence of operations, against a queue that is a list.
use mathlib.Core.Path.{subst}
use mathlib.Core.Option.{some_inj}
use machnet.Ring.Circular.{Holds}
use machnet.Base.{
  ℕ, ◌+◌, ◌-◌, ◌*◌, ◌%◌, ◌^◌, ◌≡◌, ◌≤◌, ◌<◌, refl, sym, ap, ◌∙◌, List, [], ◌∷◌, ◌++◌, min, none,
  some, true, false, Bool-cases, inl, inr, length, take, drop, ltb, leb, ◌==◌, arith, if◌then◌else◌,
  ◌&&◌, ◌≢◌, sub32,
}
use machnet.Base.Bits.{land, land_mask, land-pred_self, pow_pos}
use native.Mathlib.Nat.{mod-eq_of_lt}
use machnet.Ring.{
  Jring, copy_units, fixed, variable, granted, is_power_of_2, jring_init, jring_enqueue_bulk,
  jring_enqueue_burst, jring_dequeue_bulk, jring_dequeue_burst, jring_count, jring_free_count,
}
use machnet.Ring.Fifo.{IsFifo, Enqueued, Dequeued, used_counter, pow_small}
use machnet.Ring.Enqueue.{enqueue-Enqueued}
use machnet.Ring.Dequeue.{dequeue-Dequeued}

pub data RingOp {ℓ} (A : Type ℓ) : Type ℓ where
  enqueue_bulk : List A → RingOp A
  enqueue_burst : List A → RingOp A
  dequeue_bulk : ℕ → RingOp A
  dequeue_burst : ℕ → RingOp A
  count : RingOp A
  free_count : RingOp A

-- What an operation returns: the number enqueued and the free entries left, the objects dequeued and
-- the entries that remain, or a count.
pub data RingAnswer {ℓ} (A : Type ℓ) : Type ℓ where
  enqueued : ℕ → ℕ → RingAnswer A
  dequeued : List A → ℕ → RingAnswer A
  counted : ℕ → RingAnswer A

zero_and_pos : (a x : ℕ) → (a == 0 && ltb 0 x) ≡ true → (a ≡ 0) × (0 < x)
zero_and_pos a x e = ground arith

is_power_of_2_shape :
    (n : ℕ) → n < 2 ^ 32 → is_power_of_2 n ≡ true → (k : ℕ) × (k < 32) × (n ≡ 2 ^ k)
is_power_of_2_shape n lt e =
    let (bits, pos) = zero_and_pos (land 32 (n - 1) n) n (unfold is_power_of_2 in e) in
    land-pred_self 32 n pos lt bits

room_fixed : (x n c : ℕ) → x ≤ c → granted fixed n (c - x) ≡ (if leb (x + n) c then n else 0)
room_fixed x n c le = ground arith

granted_fixed : (n x : ℕ) → granted fixed n x ≡ (if leb n x then n else 0)
granted_fixed n x = ground arith

granted_variable : (n x : ℕ) → granted variable n x ≡ min n x
granted_variable n x = ground arith

module _ {ℓ} {A : Type ℓ} where
  unfoldable pub enqueue_answer : ℕ × ℕ × Jring A → RingAnswer A × Jring A
  enqueue_answer out = (enqueued (out.0) (out.1), out.2)

  unfoldable pub dequeue_answer : List A × ℕ × Jring A → RingAnswer A × Jring A
  dequeue_answer out = (dequeued (out.0) (out.1), out.2)

  unfoldable pub ring_step : RingOp A → Jring A → RingAnswer A × Jring A
  ring_step (enqueue_bulk objs) r = enqueue_answer (jring_enqueue_bulk r objs)
  ring_step (enqueue_burst objs) r = enqueue_answer (jring_enqueue_burst r objs)
  ring_step (dequeue_bulk n) r = dequeue_answer (jring_dequeue_bulk r n)
  ring_step (dequeue_burst n) r = dequeue_answer (jring_dequeue_burst r n)
  ring_step count r = (counted (jring_count r), r)
  ring_step free_count r = (counted (jring_free_count r), r)

  unfoldable pub put_back : ℕ → ℕ → List A → List A → RingAnswer A × List A
  put_back cap n objs xs = (enqueued n (cap - length xs - n), xs ++ take n objs)

  unfoldable pub take_front : ℕ → List A → RingAnswer A × List A
  take_front n xs = (dequeued (take n xs) (length xs - n), drop n xs)

  -- The queue of at most `cap` elements.
  unfoldable pub queue_step : ℕ → RingOp A → List A → RingAnswer A × List A
  queue_step cap (enqueue_bulk objs) xs =
      put_back cap (if leb (length xs + length objs) cap then length objs else 0) objs xs
  queue_step cap (enqueue_burst objs) xs =
      put_back cap (min (length objs) (cap - length xs)) objs xs
  queue_step cap (dequeue_bulk n) xs = take_front (if leb n (length xs) then n else 0) xs
  queue_step cap (dequeue_burst n) xs = take_front (min n (length xs)) xs
  queue_step cap count xs = (counted (length xs), xs)
  queue_step cap free_count xs = (counted (cap - length xs), xs)

  unfoldable pub ring_run : List (RingOp A) → Jring A → List (RingAnswer A)
  ring_run [] r = []
  ring_run (op ∷ ops) r = (ring_step op r).0 ∷ ring_run ops (ring_step op r).1

  unfoldable pub queue_run : ℕ → List (RingOp A) → List A → List (RingAnswer A)
  queue_run cap [] xs = []
  queue_run cap (op ∷ ops) xs =
      (queue_step cap op xs).0 ∷ queue_run cap ops (queue_step cap op xs).1

  -- A step of the ring and one of the queue answer alike.
  record Matches (r : Jring A) (out : RingAnswer A × Jring A) (want : RingAnswer A × List A)
      : Type ℓ where
    answer : out.0 ≡ want.0
    capacity : out.1.capacity ≡ r.capacity
    fifo : IsFifo (out.1) (want.1)

  enqueue-Matches :
      (r : Jring A) (xs objs : List A) (m n : ℕ) (out : ℕ × ℕ × Jring A)
      → Enqueued r xs objs m out
      → m ≡ n
      → Matches r (enqueue_answer out) (put_back r.capacity n objs xs)
  unfolding enqueue_answer put_back
  enqueue-Matches r xs objs m n out e same =
      subst (λ i. Matches r (enqueue_answer out) (put_back r.capacity i objs xs)) same
        (record { answer = rw (e.number, e.left); capacity = e.capacity; fifo = e.fifo })

  dequeue-Matches :
      (r : Jring A) (xs : List A) (m n : ℕ) (out : List A × ℕ × Jring A)
      → Dequeued r xs m out
      → m ≡ n
      → Matches r (dequeue_answer out) (take_front n xs)
  unfolding dequeue_answer take_front
  dequeue-Matches r xs m n out d same =
      subst (λ i. Matches r (dequeue_answer out) (take_front i xs)) same
        (record { answer = rw (d.objects, d.remain); capacity = d.capacity; fifo = d.fifo })

  fits : (r : Jring A) (xs : List A) → IsFifo r xs → length xs ≤ r.capacity
  fits r xs f = omega (arith, f.bound, f.capacity)

  pub count_lem : (r : Jring A) (xs : List A) → IsFifo r xs → jring_count r ≡ length xs
  count_lem r xs f =
      let n = length xs in
      let used : sub32 r.prod_tail r.cons_tail ≡ n =
        rw (f.consumer, f.producer)
          (used_counter f.bits f.taken n (omega (arith, f.bound, f.size))
            (pow_small f.bits f.narrow)) in
      let below : n < 2 ^ f.bits = omega (arith, f.bound, f.size) in
      let kept : land 32 n r.mask ≡ n =
        ap (land 32 n) f.mask
        ∙ land_mask f.bits 32 n (omega (arith, f.narrow))
        ∙ mod-eq_of_lt below in
      let at_most : ltb r.capacity n ≡ false = ground (arith, fits r xs f) in
      unfold jring_count in rw (used, kept, at_most)

  step-Matches :
      (op : RingOp A) (r : Jring A) (xs : List A)
      → IsFifo r xs
      → Matches r (ring_step op r) (queue_step r.capacity op xs)
  unfolding ring_step queue_step jring_enqueue_bulk jring_enqueue_burst jring_dequeue_bulk
      jring_dequeue_burst jring_free_count
  step-Matches (enqueue_bulk objs) r xs f =
      enqueue-Matches r xs objs _ _ _ (enqueue-Enqueued r xs objs fixed f)
        (room_fixed (length xs) (length objs) r.capacity (fits r xs f))
  step-Matches (enqueue_burst objs) r xs f =
      enqueue-Matches r xs objs _ _ _ (enqueue-Enqueued r xs objs variable f)
        (granted_variable (length objs) (r.capacity - length xs))
  step-Matches (dequeue_bulk n) r xs f =
      dequeue-Matches r xs _ _ _ (dequeue-Dequeued r xs n fixed f) (granted_fixed n (length xs))
  step-Matches (dequeue_burst n) r xs f =
      dequeue-Matches r xs _ _ _ (dequeue-Dequeued r xs n variable f)
        (granted_variable n (length xs))
  step-Matches count r xs f = record {
    answer = ap counted (count_lem r xs f);
    capacity = refl;
    fifo = f;
  }
  step-Matches free_count r xs f = record {
    answer = ap (λ i. counted (r.capacity - i)) (count_lem r xs f);
    capacity = refl;
    fifo = f;
  }

  run_from :
      (ops : List (RingOp A)) (r : Jring A) (xs : List A)
      → IsFifo r xs
      → ring_run ops r ≡ queue_run r.capacity ops xs
  unfolding ring_run queue_run
  run_from [] r xs f = refl
  run_from (op ∷ ops) r xs f =
      let s = step-Matches op r xs f in
      let (_, r') = ring_step op r in
      let (_, xs') = queue_step r.capacity op xs in
      let rest = run_from ops r' xs' s.fifo in rw (s.answer, rest, s.capacity)

  refused : (r : Jring A) → none ≢ some r
  refused r = cc

  abbrev pub made_ring : List A → ℕ → ℕ → Jring A
  made_ring memory n esize = record {
    size = n;
    mask = n - 1;
    capacity = n - 1;
    esize = esize;
    prod_head = 0;
    prod_tail = 0;
    cons_head = 0;
    cons_tail = 0;
    slots = memory;
  }

  init_made :
      (memory : List A) (n esize : ℕ) (r : Jring A)
      → jring_init memory n esize ≡ some r
      → (is_power_of_2 n ≡ true) × (made_ring memory n esize ≡ r)
  init_made memory n esize r e = elim (Bool-cases (is_power_of_2 n)) [
    | inl power ↦ elim (Bool-cases (esize % 4 == 0)) [
      | inl words ↦ (power, some_inj.0 (sym (init_yes power words) ∙ e))
      | inr odd ↦ absurd (refused r (sym (init_odd power odd) ∙ e))
    ]
    | inr other ↦ absurd (refused r (sym (init_other other) ∙ e))
  ]
    where
      init_yes :
          is_power_of_2 n ≡ true
          → (esize % 4 == 0) ≡ true
          → jring_init memory n esize ≡ some (made_ring memory n esize)
      init_yes power words = unfold jring_init in rw (power, words)

      init_odd :
          is_power_of_2 n ≡ true → (esize % 4 == 0) ≡ false → jring_init memory n esize ≡ none
      init_odd power odd = unfold jring_init in rw (power, odd)

      init_other : is_power_of_2 n ≡ false → jring_init memory n esize ≡ none
      init_other other = unfold jring_init in rw other

  pub made-IsFifo :
      (memory : List A) (n esize : ℕ)
      → n < 2 ^ 32
      → length memory ≡ n
      → 0 < copy_units esize
      → n * copy_units esize ≤ 2 ^ 31
      → is_power_of_2 n ≡ true
      → IsFifo (made_ring memory n esize) []
  made-IsFifo memory n esize lt len pos room power =
      let (k, narrow, shape) = is_power_of_2_shape n lt power in
      record {
        bits = k;
        taken = 0;
        narrow = narrow;
        size = shape;
        mask = ap (λ i. i - 1) shape;
        capacity = refl;
        words = (pos, room);
        slots = len;
        consumer = refl;
        consumer_done = refl;
        producer = refl;
        producer_done = refl;
        bound = omega (arith, shape, pow_pos k);
        held = unfold Holds in tt;
      }

  -- Take any memory for as many elements as a 32-bit count says, and a ring that jring_init makes of
  -- it, whose elements are not empty and whose slots make at most 2 ^ 31 of the units that they are
  -- copied in. Whatever bulk and burst operations and counts follow, each of them returns what it returns on a
  -- queue that holds at most count - 1 elements and starts empty, however often the ring's counters
  -- wrap: an enqueue in bulk takes all its objects or none, one in burst as many as have room, and
  -- elements leave in the order in which they came.
  pub ring_run_refines :
      (memory : List A) (n esize : ℕ) (r : Jring A) (ops : List (RingOp A))
      → n < 2 ^ 32
      → length memory ≡ n
      → 0 < copy_units esize
      → n * copy_units esize ≤ 2 ^ 31
      → jring_init memory n esize ≡ some r
      → ring_run ops r ≡ queue_run (n - 1) ops []
  ring_run_refines memory n esize r ops lt len pos room e =
      let (power, made) = init_made memory n esize r e in
      subst (λ i. ring_run ops i ≡ queue_run (n - 1) ops []) made
        (run_from ops (made_ring memory n esize) []
          (made-IsFifo memory n esize lt len pos room power))
