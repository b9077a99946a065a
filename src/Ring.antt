-- ===== src/Ring.antt =====
-- src/ext/jring.h and src/ext/jring_elem_private.h: the ring of fixed-size elements that carries
-- buffer indices and control entries between an application and Machnet.
--
-- One operation runs at a time: a compare-and-swap of a head then succeeds at once, and a wait for a
-- tail finds it at the old head. So the single- and the multi-threaded operation are one definition,
-- and the synchronisation kinds that choose between them are left out. The loops that copy eight,
-- four or two elements in a step are written as the copy of one element after the other.
pub mod Units
pub mod Circular
pub mod Fifo
pub mod Enqueue
pub mod Dequeue
pub mod Runs
mod Tests
use machnet.Base.{
  ℕ, zero, suc, ◌+◌, ◌-◌, ◌*◌, ◌/◌, ◌%◌, ◌^◌, Bool, not, ◌||◌, ◌&&◌, Option, none, some, List, [],
  ◌∷◌, set, ◌++◌, length, get_elem?, take, drop, leb, ltb, ◌==◌, if◌then◌else◌, add32, sub32,
}
use machnet.Base.Bits.{land}

pub data JringQueueBehavior : Type 0 where
  fixed : JringQueueBehavior
  variable : JringQueueBehavior

pub record Jring {ℓ} (A : Type ℓ) : Type ℓ where
  pub size : ℕ
  pub mask : ℕ
  pub capacity : ℕ
  pub esize : ℕ
  pub prod_head : ℕ
  pub prod_tail : ℕ
  pub cons_head : ℕ
  pub cons_tail : ℕ
  pub slots : List A

-- ISPOWEROF2 of a 32-bit number; x - 1 of 0 would wrap, but the second test then fails.
unfoldable pub is_power_of_2 : ℕ → Bool
unfolding land
is_power_of_2 x = land 32 (x - 1) x == 0 && ltb 0 x

abbrev pub ring_sz_mask : ℕ
ring_sz_mask = 0x0fffffff

abbrev pub sizeof_jring : ℕ
sizeof_jring = 320

-- `none` is the error -1. The product of 32-bit numbers wraps before it is added.
unfoldable pub jring_get_buf_ring_size : ℕ → ℕ → Option ℕ
unfolding is_power_of_2
jring_get_buf_ring_size element_size count =
    if not (element_size % 4 == 0)
    then none
    else if not (is_power_of_2 count) || ltb ring_sz_mask count
    then none
    else some ((sizeof_jring + count * element_size % 2 ^ 32 + 63) / 64 * 64)

-- What is left of a request for n elements.
abbrev pub granted : JringQueueBehavior → ℕ → ℕ → ℕ
granted fixed n available = if ltb available n then 0 else n
granted variable n available = if ltb available n then available else n

-- The units that an element is copied in: one of 8 or of 16 bytes, or else words of 4 bytes.
abbrev pub copy_units : ℕ → ℕ
copy_units esize = if esize == 8 || esize == 16 then 1 else esize / 4

module _ {ℓ} {A : Type ℓ} where
  -- The memory that the ring is laid over keeps what it holds; `none` is the error -1.
  unfoldable pub jring_init : List A → ℕ → ℕ → Option (Jring A)
  unfolding is_power_of_2
  jring_init memory count esize =
      if not (is_power_of_2 count)
      then none
      else if not (esize % 4 == 0)
      then none
      else some (record {
        size = count;
        mask = count - 1;
        capacity = count - 1;
        esize = esize;
        prod_head = 0;
        prod_tail = 0;
        cons_head = 0;
        cons_tail = 0;
        slots = memory;
      })

  -- ring[idx++] = obj[i++], to the last object
  unfoldable pub copy_in : List A → ℕ → List A → List A
  copy_in slots idx [] = slots
  copy_in slots idx (o ∷ objs) = copy_in (set slots idx o) (suc idx) objs

  -- A read out of bounds ends the copy.
  abbrev pub read_obj : Option A → List A → List A
  read_obj none rest = []
  read_obj (some o) rest = o ∷ rest

  -- obj[i++] = ring[idx++], n times
  unfoldable pub copy_out : List A → ℕ → ℕ → List A
  copy_out slots idx zero = []
  copy_out slots idx (suc n) = read_obj (get_elem? slots idx) (copy_out slots (suc idx) n)

  -- The dispatch on the size of the elements, with the index, the number of objects and the size in the
  -- units that are copied, as 32-bit numbers. Of a product that wraps, the model has the elements that it
  -- counts; the source then copies words that need not be whole elements.
  unfoldable pub enqueue_elems : Jring A → ℕ → List A → Jring A
  enqueue_elems r prod_head objs =
      let units = copy_units r.esize in
      let idx = land 32 prod_head r.mask * units % 2 ^ 32 in
      let n = length objs * units % 2 ^ 32 in
      let size = r.size * units % 2 ^ 32 in
      let to_end = (size - idx) / units in
      if ltb ((idx + n) % 2 ^ 32) size
      then record r { slots = copy_in r.slots (idx / units) (take (n / units) objs) }
      else record r {
        slots =
            copy_in (copy_in r.slots (idx / units) (take to_end objs)) 0
              (take (n / units - to_end) (drop to_end objs));
      }

  unfoldable pub dequeue_elems : Jring A → ℕ → ℕ → List A
  dequeue_elems r cons_head num =
      let units = copy_units r.esize in
      let idx = land 32 cons_head r.mask * units % 2 ^ 32 in
      let n = num * units % 2 ^ 32 in
      let size = r.size * units % 2 ^ 32 in
      let to_end = (size - idx) / units in
      if ltb ((idx + n) % 2 ^ 32) size
      then copy_out r.slots (idx / units) (n / units)
      else copy_out r.slots (idx / units) to_end ++ copy_out r.slots 0 (n / units - to_end)

  -- The number of objects to enqueue, the old head, the free entries, and the ring with the head
  -- moved.
  unfoldable pub move_prod_head : Jring A → ℕ → JringQueueBehavior → ℕ × ℕ × ℕ × Jring A
  unfolding add32 sub32
  move_prod_head r n behavior =
      let old_head = r.prod_head in
      let free_entries = sub32 (add32 r.capacity r.cons_tail) old_head in
      let n' = granted behavior n free_entries in
      if n' == 0
      then (0, old_head, free_entries, r)
      else (n', old_head, free_entries, record r { prod_head = add32 old_head n' })

  unfoldable pub move_cons_head : Jring A → ℕ → JringQueueBehavior → ℕ × ℕ × ℕ × Jring A
  unfolding add32 sub32
  move_cons_head r n behavior =
      let old_head = r.cons_head in
      let entries = sub32 r.prod_tail old_head in
      let n' = granted behavior n entries in
      if n' == 0
      then (0, old_head, entries, r)
      else (n', old_head, entries, record r { cons_head = add32 old_head n' })

  -- The number of objects enqueued, the free entries that are left, and the ring.
  unfoldable pub do_enqueue_elem : Jring A → List A → JringQueueBehavior → ℕ × ℕ × Jring A
  do_enqueue_elem r objs behavior =
      let (n, prod_head, free_entries, moved) = move_prod_head r (length objs) behavior in
      let written = enqueue_elems moved prod_head (take n objs) in
      if n == 0
      then (0, free_entries, moved)
      else (n, free_entries - n, record written { prod_tail = add32 prod_head n })

  -- The objects dequeued, the entries that remain, and the ring.
  unfoldable pub do_dequeue_elem : Jring A → ℕ → JringQueueBehavior → List A × ℕ × Jring A
  do_dequeue_elem r n behavior =
      let (n', cons_head, entries, moved) = move_cons_head r n behavior in
      let objs = dequeue_elems moved cons_head n' in
      if n' == 0
      then ([], entries, moved)
      else (objs, entries - n', record moved { cons_tail = add32 cons_head n' })

  unfoldable pub jring_enqueue_bulk : Jring A → List A → ℕ × ℕ × Jring A
  jring_enqueue_bulk r objs = do_enqueue_elem r objs fixed

  unfoldable pub jring_enqueue_burst : Jring A → List A → ℕ × ℕ × Jring A
  jring_enqueue_burst r objs = do_enqueue_elem r objs variable

  unfoldable pub jring_dequeue_bulk : Jring A → ℕ → List A × ℕ × Jring A
  jring_dequeue_bulk r n = do_dequeue_elem r n fixed

  unfoldable pub jring_dequeue_burst : Jring A → ℕ → List A × ℕ × Jring A
  jring_dequeue_burst r n = do_dequeue_elem r n variable

  unfoldable pub jring_count : Jring A → ℕ
  unfolding sub32 land
  jring_count r =
      let count = land 32 (sub32 r.prod_tail r.cons_tail) r.mask in
      if ltb r.capacity count then r.capacity else count

  unfoldable pub jring_free_count : Jring A → ℕ
  unfolding jring_count
  jring_free_count r = r.capacity - jring_count r

  unfoldable pub jring_full : Jring A → Bool
  unfolding jring_free_count
  jring_full r = jring_free_count r == 0

  unfoldable pub jring_empty : Jring A → Bool
  jring_empty r = r.cons_tail == r.prod_tail
