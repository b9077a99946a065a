-- ===== src/Ring/Fifo.antt =====
-- The ring as a queue of bounded length, whatever its 32-bit counters have wrapped to.
use mathlib.Core.Path.{subst}
use Prim.Native.Nat.{◌∣◌}
use native.Mathlib.Nat.{mod-mod_of_dvd, dvd_refl, dvd-mul_left_of_dvd, pow-le-pow_right}
use machnet.Base.{
  ℕ, zero, suc, ◌+◌, ◌-◌, ◌*◌, ◌%◌, ◌^◌, ◌≡◌, ◌≤◌, ◌<◌, sym, ap, ◌∙◌, List, ◌++◌, length, take,
  drop, arith, add32, sub32,
}
use machnet.Base.Bits.{land, land_mask, pow_suc}
use machnet.Ring.{Jring, fixed, variable, JringQueueBehavior, granted}
use machnet.Ring.Circular.{Holds}
use machnet.Ring.Units.{IsWhole}

-- The ring holds xs: `taken` elements have been dequeued before, and the counters are those of the
-- elements dequeued and enqueued, in 32 bits.
pub record IsFifo {ℓ} {A : Type ℓ} (r : Jring A) (xs : List A) : Type ℓ where
  pub bits : ℕ
  pub taken : ℕ
  pub narrow : bits < 32
  pub size : r.size ≡ 2 ^ bits
  pub mask : r.mask ≡ 2 ^ bits - 1
  pub capacity : r.capacity ≡ r.size - 1
  pub words : IsWhole r
  pub slots : length r.slots ≡ r.size
  pub consumer : r.cons_tail ≡ taken % 2 ^ 32
  pub consumer_done : r.cons_head ≡ r.cons_tail
  pub producer : r.prod_tail ≡ (taken + length xs) % 2 ^ 32
  pub producer_done : r.prod_head ≡ r.prod_tail
  pub bound : length xs < r.size
  pub held : Holds r.size r.slots taken xs

-- m of the objects follow xs.
pub record Enqueued {ℓ} {A : Type ℓ} (r : Jring A) (xs objs : List A) (m : ℕ)
    (out : ℕ × ℕ × Jring A) : Type ℓ where
  pub number : out.0 ≡ m
  pub left : out.1 ≡ r.capacity - length xs - m
  pub capacity : out.2.capacity ≡ r.capacity
  pub fifo : IsFifo (out.2) (xs ++ take m objs)

-- The first m of xs are taken.
pub record Dequeued {ℓ} {A : Type ℓ} (r : Jring A) (xs : List A) (m : ℕ)
    (out : List A × ℕ × Jring A) : Type ℓ where
  pub objects : out.0 ≡ take m xs
  pub remain : out.1 ≡ length xs - m
  pub capacity : out.2.capacity ≡ r.capacity
  pub fifo : IsFifo (out.2) (drop m xs)

pub granted-le : (b : JringQueueBehavior) (n free : ℕ) → granted b n free ≤ free
granted-le fixed n free = ground arith
granted-le variable n free = ground arith

pub granted_asked : (b : JringQueueBehavior) (n free : ℕ) → granted b n free ≤ n
granted_asked fixed n free = ground arith
granted_asked variable n free = ground arith

pow_dvd : (k m : ℕ) → 2 ^ k ∣ 2 ^ (m + k)
pow_dvd k zero = subst (λ i. 2 ^ k ∣ 2 ^ i) (omega arith) (dvd_refl (2 ^ k))
pow_dvd k (suc m) =
    let once : 2 * 2 ^ (m + k) ≡ 2 ^ (suc m + k) =
      sym (pow_suc (m + k)) ∙ ap (λ i. 2 ^ i) (omega arith) in
    subst (λ i. 2 ^ k ∣ i) once (dvd-mul_left_of_dvd (2 ^ k) (pow_dvd k m) 2)

pub pow_small : (k : ℕ) → k < 32 → 2 ^ k ≤ 2 ^ 31
pow_small k lt = pow-le-pow_right (omega arith) {j = 31} (omega arith)

-- A 32-bit counter and the mask give the slot.
land_counter : (k h : ℕ) → k < 32 → land 32 (h % 2 ^ 32) (2 ^ k - 1) ≡ h % 2 ^ k
land_counter k h lt =
    let whole : 32 - k + k ≡ 32 = omega arith in
    land_mask k 32 (h % 2 ^ 32) (omega arith)
    ∙ mod-mod_of_dvd (2 ^ k) h (subst (λ i. 2 ^ k ∣ 2 ^ i) whole (pow_dvd k (32 - k)))

pub free_counter :
    (k h n : ℕ)
    → n < 2 ^ k
    → 2 ^ k ≤ 2 ^ 31
    → sub32 (add32 (2 ^ k - 1) (h % 2 ^ 32)) ((h + n) % 2 ^ 32) ≡ 2 ^ k - 1 - n
free_counter k h n lt le = unfold sub32 add32 in omega arith

pub used_counter :
    (k h n : ℕ) → n < 2 ^ k → 2 ^ k ≤ 2 ^ 31 → sub32 ((h + n) % 2 ^ 32) (h % 2 ^ 32) ≡ n
used_counter k h n lt le = unfold sub32 in omega arith

pub advanced :
    (p h n m all : ℕ) → p ≡ (h + n) % 2 ^ 32 → all ≡ n + m → add32 p m ≡ (h + all) % 2 ^ 32
advanced p h n m all e e' = unfold add32 in omega arith

module _ {ℓ} {A : Type ℓ} where
  pub index_lem :
      (r : Jring A) (k h : ℕ)
      → k < 32
      → r.size ≡ 2 ^ k
      → r.mask ≡ 2 ^ k - 1
      → land 32 (h % 2 ^ 32) r.mask ≡ h % r.size
  index_lem r k h lt size mask =
      ap (land 32 (h % 2 ^ 32)) mask ∙ land_counter k h lt ∙ ap (λ i. h % i) (sym size)
