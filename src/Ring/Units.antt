-- ===== src/Ring/Units.antt =====
-- src/ext/jring_elem_private.h: the copy in words is a copy of elements, where no product of 32-bit
-- numbers wraps.
use native.Mathlib.Nat.{
  mod-eq_of_lt, mul-le-mul_right, mul-lt-mul_of_pos_right, mul-div_cancel, add-mul,
}
use machnet.Base.{
  ℕ, zero, suc, ◌+◌, ◌-◌, ◌*◌, ◌/◌, ◌%◌, ◌^◌, ◌≡◌, ◌≤◌, ◌<◌, refl, ap, ◌∙◌, Bool-cases, inl, inr,
  List, [], ◌∷◌, ◌++◌, length, take, drop, ltb, arith, if◌then◌else◌, length-drop,
}
use machnet.Base.Bits.{land}
use machnet.Ring.{Jring, copy_units, copy_in, copy_out, enqueue_elems, dequeue_elems}

module _ (u p : ℕ) (pos : 0 < u) (room : p * u ≤ 2 ^ 31) where
  whole : (x : ℕ) → x ≤ p → x * u % 2 ^ 32 ≡ x * u
  whole x le = let small = mul-le-mul_right u le in mod-eq_of_lt (omega (arith, small))

  pub back : (x : ℕ) → x ≤ p → x * u % 2 ^ 32 / u ≡ x
  back x le = ap (λ w. w / u) (whole x le) ∙ mul-div_cancel x pos

  minus : (i : ℕ) → i ≤ p → p * u - i * u ≡ (p - i) * u
  minus i le =
      let parts : p ≡ (p - i) + i = omega arith in
      let sum : p * u ≡ (p - i) * u + i * u = ap (λ x. x * u) parts ∙ add-mul (p - i) i u in
      omega (arith, sum)

  pub gap : (i : ℕ) → i ≤ p → (p * u % 2 ^ 32 - i * u % 2 ^ 32) / u ≡ p - i
  gap i le =
      let plain : p * u % 2 ^ 32 - i * u % 2 ^ 32 ≡ (p - i) * u =
        omega (arith, whole p (omega arith), whole i le, minus i le) in
      ap (λ w. w / u) plain ∙ mul-div_cancel (p - i) pos

  pub test :
      (i n : ℕ)
      → i < p
      → n ≤ p
      → ltb ((i * u % 2 ^ 32 + n * u % 2 ^ 32) % 2 ^ 32) (p * u % 2 ^ 32) ≡ ltb (i + n) p
  test i n lt le =
      let below = mul-lt-mul_of_pos_right lt pos in
      let most = mul-le-mul_right u le in
      let sum = add-mul i n u in
      let left : (i * u % 2 ^ 32 + n * u % 2 ^ 32) % 2 ^ 32 ≡ (i + n) * u =
        omega (arith, whole i (omega arith), whole n le, below, most, sum, room) in
      let right = whole p (omega arith) in
      elim (Bool-cases (ltb (i + n) p)) [
        | inl fits ↦
            let inside : i + n < p = ground (arith, fits) in
            let words = mul-lt-mul_of_pos_right inside pos in
            rw (left, right, fits) (ground (arith, words))
        | inr over ↦
            let outside : p ≤ i + n = ground (arith, over) in
            let words = mul-le-mul_right u outside in rw (left, right, over) (ground (arith, words))
      ]

module _ {ℓ} {A : Type ℓ} where
  -- The units of the elements of a ring, and that its slots have fewer than 32-bit numbers can count
  abbrev pub IsWhole : Jring A → Type 0
  IsWhole r = (0 < copy_units r.esize) × (r.size * copy_units r.esize ≤ 2 ^ 31)

  take_all : (n : ℕ) (xs : List A) → length xs ≤ n → take n xs ≡ xs
  take_all zero [] le = refl
  take_all (suc n) [] le = refl
  take_all zero (x ∷ xs) le = absurd (omega arith)
  take_all (suc n) (x ∷ xs) le = ap (λ l. x ∷ l) (take_all n xs (omega arith))

  module _ (r : Jring A) (w : IsWhole r) (h : ℕ) (inside : land 32 h r.mask < r.size) where
    abbrev idx : ℕ
    idx = land 32 h r.mask

    pub enqueue_elems_plain :
        (objs : List A)
        → length objs ≤ r.size
        → enqueue_elems r h objs ≡ (
            if ltb (idx + length objs) r.size
            then record r { slots = copy_in r.slots idx objs }
            else record r {
              slots =
                  copy_in
                    (copy_in r.slots idx (take (r.size - idx) objs))
                    0
                    (drop (r.size - idx) objs);
            })
    enqueue_elems_plain objs le =
        let u = copy_units r.esize in
        let at = back u r.size w.0 w.1 idx (omega (arith, inside)) in
        let n = back u r.size w.0 w.1 (length objs) le in
        let to_end = gap u r.size w.0 w.1 idx (omega (arith, inside)) in
        let fits = test u r.size w.0 w.1 idx (length objs) inside le in
        let all = take_all (length objs) objs (omega arith) in
        let rest =
          take_all (length objs - (r.size - idx)) (drop (r.size - idx) objs)
            (omega (arith, length-drop (r.size - idx) objs)) in
        unfold enqueue_elems in rw (fits, at, n, to_end, all, rest) refl

    pub dequeue_elems_plain :
        (n : ℕ)
        → n ≤ r.size
        → dequeue_elems r h n ≡ (
            if ltb (idx + n) r.size
            then copy_out r.slots idx n
            else copy_out r.slots idx (r.size - idx) ++ copy_out r.slots 0 (n - (r.size - idx)))
    dequeue_elems_plain n le =
        let u = copy_units r.esize in
        let at = back u r.size w.0 w.1 idx (omega (arith, inside)) in
        let count = back u r.size w.0 w.1 n le in
        let to_end = gap u r.size w.0 w.1 idx (omega (arith, inside)) in
        let fits = test u r.size w.0 w.1 idx n inside le in
        unfold dequeue_elems in rw (fits, at, count, to_end) refl
