-- ===== src/Engine/Ports/Search.antt =====
-- src/include/machnet_engine.h, `SrcPortAlloc`: the loops over the slots of a bitmap.
use mathlib.Core.Path.{subst}
use machnet.Base.{
  ℕ, zero, suc, ◌+◌, ◌-◌, ◌*◌, ◌/◌, ◌<◌, ◌≤◌, ◌≡◌, refl, sym, ap, ◌∙◌, Bool, true, false, not, ◌&&◌,
  Option, none, some, List, ◌++◌, inl, inr, arith, Bool-cases, length, get_or, replicate,
  length-append, length-set, length-replicate, ◌==◌, ==_iff,
}
use machnet.Base.Bit.{bit, bit-zero}
use machnet.Engine.Ports.{find_free_port, search_slots, add_slots, alloc_port, grow, all_free}
use machnet.Engine.Ports.First.{
  IsFirst, IsFirst-after, IsFirst-congr, suits, taken, find_free_port-IsFirst, first_mask,
  unsuited_bit,
}
use machnet.Engine.Ports.Alloc.{is_free-grow, is_port, Took, taken-Took, get_or_inside}

module _ (suitable : ℕ → Bool) where
  -- What a search of the slots from `i` to `j` finds in a bitmap, and what it leaves.
  abbrev Found : List ℕ → ℕ → ℕ → Option ℕ × List ℕ → Type 0
  Found bitmap i j r =
      IsFirst (suits suitable bitmap) (i * 64) (j * 64) r.0 × (r.1 ≡ taken bitmap r.0)

  one_slot :
      (bitmap : List ℕ) (i : ℕ)
      → i < length bitmap
      → i ≤ 1023
      → Found bitmap i (i + 1) (find_free_port suitable 65 all_free bitmap i)
  one_slot bitmap i h le =
      let found =
        find_free_port-IsFirst suitable bitmap i (get_or_inside bitmap i 0 all_free h) 64 0 all_free
          (omega arith) (omega arith) le (first_mask suitable bitmap) in
      let from : i * 64 + 0 ≡ i * 64 = omega arith in
      let upto : i * 64 + 64 ≡ (i + 1) * 64 = omega arith in rw (from, upto) at found

  empty_slot :
      (bitmap : List ℕ) (i q : ℕ)
      → i < length bitmap
      → (get_or bitmap i 0 == 0) ≡ true
      → i * 64 ≤ q
      → q < (i + 1) * 64
      → suits suitable bitmap q ≡ false
  empty_slot bitmap i q h e a b =
      let none : get_or bitmap i 0 ≡ 0 = (==_iff (get_or bitmap i 0) 0).0 e in
      unsuited_bit suitable bitmap i (get_or_inside bitmap i 0 all_free h) q a (omega (arith, b))
        (ap (bit (q - i * 64)) none ∙ bit-zero (q - i * 64))

  first-Found :
      (bitmap : List ℕ) (i mid j : ℕ) (r rest : Option ℕ × List ℕ)
      → i ≤ mid
      → mid ≤ j
      → Found bitmap i mid r
      → Found bitmap mid j rest
      → Found bitmap i j (elim r.0 [ some p ↦ (some p, r.1) | none ↦ rest ])
  first-Found bitmap i mid j (none, b) rest le lt (f, e) (g, d) = (
    IsFirst-after (suits suitable bitmap) (i * 64) (mid * 64) (j * 64) rest.0 (omega arith) f g,
    d,
  )
  first-Found bitmap i mid j (some p, b) rest le lt ((c1, c2, c3, c4), e) found =
      ((c1, omega (arith, c2, lt), c3, c4), e)

  search_slots-Found :
      (n i : ℕ) (bitmap : List ℕ)
      → i + n ≡ length bitmap
      → length bitmap ≤ 1024
      → Found bitmap i (i + n) (search_slots suitable n i bitmap)
  unfolding search_slots
  search_slots-Found zero i bitmap e le = (λ q a b. absurd (omega (arith, a, b)), refl)
  search_slots-Found (suc n) i bitmap e le =
      let (first, left) = search_slots-Found n (i + 1) bitmap (omega (arith, e)) le in
      let next : (i + 1) + n ≡ i + suc n = omega arith in
      let rest = rw next at first in
      let one = one_slot bitmap i (omega (arith, e)) (omega (arith, e, le)) in
      elim (Bool-cases (get_or bitmap i 0 == 0)) [
        | inl full ↦ rw full (
          IsFirst-after (suits suitable bitmap) (i * 64) ((i + 1) * 64) ((i + suc n) * 64) _
              (omega arith) (λ q a b. empty_slot bitmap i q (omega (arith, e)) full a b) rest,
          left,
        )
        | inr partly ↦ rw partly (
            first-Found bitmap i (i + 1) (i + suc n) (find_free_port suitable 65 all_free bitmap i)
              _ (omega arith) (omega arith) one (rest, left))
      ]

  -- The result of an allocation: the first port from `lo` on that is free and suitable, and a bitmap
  -- of legal size without it.
  abbrev pub Allocated : List ℕ → ℕ → ℕ → Option ℕ × List ℕ → Type 0
  Allocated bitmap lo hi r =
      IsFirst (suits suitable bitmap) lo hi r.0
      × Took bitmap r.1 r.0
      × (length r.1 ≤ 1024)
      × ((p : ℕ) → r.0 ≡ some p → p / 64 < length r.1)

  Allocated-grow :
      (bitmap : List ℕ) (n lo hi : ℕ) (r : Option ℕ × List ℕ)
      → Allocated (bitmap ++ replicate n all_free) lo hi r
      → Allocated bitmap lo hi r
  Allocated-grow bitmap n lo hi r (first, took, size, inside) = (
    IsFirst-congr (suits suitable (bitmap ++ replicate n all_free)) (suits suitable bitmap) lo hi
        r.0 (λ q. ap (λ b. b && suitable q) (is_free-grow bitmap n q)) first,
    λ q. took q ∙ ap (λ b. b && not (is_port q r.0)) (is_free-grow bitmap n q),
    size,
    inside,
  )

  Found-Allocated :
      (bitmap : List ℕ) (i j : ℕ) (r : Option ℕ × List ℕ)
      → j ≤ length bitmap
      → length bitmap ≤ 1024
      → Found bitmap i j r
      → Allocated bitmap (i * 64) (j * 64) r
  Found-Allocated bitmap i j (none, b) inside size (first, e) = (
    first,
    λ q. rw e (taken-Took bitmap none (λ p h. absurd (cc h)) q),
    omega (arith, ap length e, size),
    λ p h. absurd (cc h),
  )
  Found-Allocated bitmap i j (some p, b) inside size (first, e) =
      let slot : p / 64 < length bitmap = omega (arith, first.1, inside) in
      let same : length b ≡ length bitmap = ap length e ∙ length-set bitmap (p / 64) _ in
      (
        first,
        λ q. rw e (taken-Took bitmap (some p) (λ r h. omega (arith, slot, some_eq p r h)) q),
        omega (arith, same, size),
        λ r h. omega (arith, slot, same, some_eq p r h),
      )
    where
      some_eq : (p r : ℕ) → some p ≡ some r → p ≡ r
      some_eq p r h = cc h

  -- A search that finds nothing is followed by another.
  Allocated-rest :
      (bitmap : List ℕ) (lo mid hi : ℕ) (r rest : Option ℕ × List ℕ)
      → lo ≤ mid
      → mid ≤ hi
      → Allocated bitmap lo mid r
      → (r.0 ≡ none → Allocated bitmap mid hi rest)
      → Allocated bitmap lo hi (elim r.0 [ some p ↦ (some p, r.1) | none ↦ rest ])
  Allocated-rest bitmap lo mid hi (none, b) rest le lt (first, _, _, _) next =
      let (later, took, size, inside) = next refl in
      (IsFirst-after (suits suitable bitmap) lo mid hi rest.0 le first later, took, size, inside)
  Allocated-rest bitmap lo mid hi (some p, b) rest le lt ((a, below, c, d), took, size, inside)
        next =
      ((a, omega (arith, below, lt), c, d), took, size, inside)

  add_slots-Allocated :
      (n : ℕ) (bitmap : List ℕ)
      → length bitmap + n ≤ 1024
      → Allocated bitmap
          (length bitmap * 64)
          ((length bitmap + n) * 64)
          (add_slots suitable n bitmap)
  unfolding add_slots
  add_slots-Allocated zero bitmap le =
      (λ q a b. absurd (omega (arith, a, b)), λ q. ground arith, omega arith, λ p h. absurd (cc h))
  add_slots-Allocated (suc n) bitmap le =
      let longer = bitmap ++ replicate 1 all_free in
      let size : length longer ≡ length bitmap + 1 = length-append bitmap (replicate 1 all_free) in
      let i = length longer - 1 in
      let one = one_slot longer i (omega (arith, size)) (omega (arith, size, le)) in
      let found =
        Found-Allocated longer i (i + 1) _ (omega (arith, size)) (omega (arith, size, le)) one in
      let from : i * 64 ≡ length bitmap * 64 = omega (arith, size) in
      let upto : (i + 1) * 64 ≡ length longer * 64 = omega (arith, size) in
      let first = rw (from, upto) at found in
      let next = add_slots-Allocated n longer (omega (arith, size, le)) in
      let end : (length longer + n) * 64 ≡ (length bitmap + suc n) * 64 = omega (arith, size) in
      let later = rw end at next in
      Allocated-grow bitmap 1 (length bitmap * 64) ((length bitmap + suc n) * 64) _ (
        Allocated-rest longer (length bitmap * 64) (length longer * 64)
          ((length bitmap + suc n) * 64) (find_free_port suitable 65 all_free longer i) _
          (omega (arith, size)) (omega (arith, size)) first (λ _. later))

  -- `SrcPortAlloc` on a bitmap of legal size.
  pub alloc_port-Allocated :
      (bitmap : List ℕ)
      → length bitmap ≤ 1024
      → Allocated bitmap 1024 65536 (alloc_port suitable bitmap)
  unfolding alloc_port
  alloc_port-Allocated bitmap le =
      let n = 17 - length bitmap in
      let longer = grow 17 bitmap in
      let size : length longer ≡ length bitmap + n =
        length-append bitmap (replicate n all_free)
        ∙ ap (λ k. length bitmap + k) (length-replicate n all_free) in
      let searched = search_slots suitable (length longer - 16) 16 longer in
      let found =
        search_slots-Found (length longer - 16) 16 longer (omega (arith, size))
          (omega (arith, size, le)) in
      let whole : 16 + (length longer - 16) ≡ length longer = omega (arith, size) in
      let first =
        Found-Allocated longer 16 (16 + (length longer - 16)) searched (omega (arith, whole))
          (omega (arith, size, le)) found in
      let next = add_slots-Allocated (1024 - length longer) longer (omega (arith, size, le)) in
      let end : (length longer + (1024 - length longer)) * 64 ≡ 65536 = omega (arith, size, le) in
      let searched_end : (16 + (length longer - 16)) * 64 ≡ length longer * 64 =
        omega (arith, size) in
      Allocated-grow bitmap n 1024 65536 _ (
        Allocated-rest longer 1024 (length longer * 64) 65536 searched _ (omega (arith, size))
          (omega (arith, size, le)) (rw searched_end at first)
          (λ none_found.
            let same : longer ≡ searched.1 = sym (found.1 ∙ ap (taken longer) none_found) in
            subst
              (λ b.
                Allocated longer (length longer * 64) 65536
                  (add_slots suitable (1024 - length b) b))
              same (rw end at next)))
