-- ===== src/Ring/Circular.antt =====
-- src/ext/jring_elem_private.h: the copy to the end of the slots and on from their start is the copy of
-- one element after the other to positions that go round.
use mathlib.Core.Path.{subst}
use mathlib.Core.List.{append-nil, append_assoc}
use native.Mathlib.Nat.{
  mod-eq_of_lt, add-mod_right, mod-lt, mod-add-mod, suc-mod, mod_self, zero-mod,
}
use machnet.Base.{
  ℕ, zero, suc, ◌+◌, ◌-◌, ◌%◌, ◌≡◌, ◌≢◌, ◌≤◌, ◌<◌, refl, sym, ap, ◌∙◌, List, [], ◌∷◌, ◌++◌, some,
  Bool-cases, inl, inr, set, length, get_elem?, take, drop, ltb, tests, arith, length-set,
  length-append, get_elem?-set_self, get_elem?-set_ne,
}
use machnet.Ring.{copy_in, copy_out, read_obj}

-- Positions less than the size apart stand in different slots.
pub mod_distinct : (size h d : ℕ) → 0 < d → d < size → h % size ≢ (h + d) % size
mod_distinct size h d pos lt e =
    let r = h % size in
    let below : r < size = mod-lt h (omega arith) in
    let shift : (h + d) % size ≡ (r + d) % size = sym (mod-add-mod h size d) in
    elim (Bool-cases (ltb (r + d) size)) [
      | inl fits ↦
          let same : (r + d) % size ≡ r + d = mod-eq_of_lt (omega tests) in
          omega (arith, e, shift, same)
      | inr wraps ↦
          let past : size ≤ r + d = ground (arith, wraps) in
          let back : r + d ≡ (r + d - size) + size = omega arith in
          let same : (r + d) % size ≡ r + d - size =
            ap (λ i. i % size) back
            ∙ add-mod_right (r + d - size) size
            ∙ mod-eq_of_lt (omega arith) in
          omega (arith, e, shift, same)
    ]

suc_same : (size p q : ℕ) → p % size ≡ q % size → suc p % size ≡ suc q % size
suc_same size p q e = suc-mod p size ∙ ap (λ i. suc i % size) e ∙ sym (suc-mod q size)

module _ {ℓ} {A : Type ℓ} where
  unfoldable pub put : ℕ → List A → ℕ → List A → List A
  put size slots p [] = slots
  put size slots p (o ∷ objs) = put size (set slots (p % size) o) (suc p) objs

  pub length-put :
      (size : ℕ) (slots : List A) (p : ℕ) (objs : List A)
      → length (put size slots p objs) ≡ length slots
  unfolding put
  length-put size slots p [] = refl
  length-put size slots p (o ∷ objs) =
      length-put size (set slots (p % size) o) (suc p) objs ∙ length-set slots (p % size) o

  pub copy_in-put :
      (size idx : ℕ) (slots objs : List A)
      → idx + length objs ≤ size
      → copy_in slots idx objs ≡ put size slots idx objs
  unfolding copy_in put
  copy_in-put size idx slots [] le = refl
  copy_in-put size idx slots (o ∷ objs) le =
      copy_in-put size (suc idx) (set slots idx o) objs (omega arith)
      ∙ ap (λ i. put size (set slots i o) (suc idx) objs) (sym (mod-eq_of_lt (omega arith)))

  pub put_same :
      (size p q : ℕ) (slots objs : List A)
      → p % size ≡ q % size
      → put size slots p objs ≡ put size slots q objs
  unfolding put
  put_same size p q slots [] e = refl
  put_same size p q slots (o ∷ objs) e =
      ap (λ i. put size (set slots i o) (suc p) objs) e
      ∙ put_same size (suc p) (suc q) (set slots (q % size) o) objs (suc_same size p q e)

  -- Two copies where the objects pass the end of the slots.
  pub copy_in_wraps :
      (size idx k : ℕ) (slots objs : List A)
      → idx + k ≡ size
      → k ≤ length objs
      → length objs ≤ size
      → copy_in (copy_in slots idx (take k objs)) 0 (drop k objs) ≡ put size slots idx objs
  unfolding copy_in put
  copy_in_wraps size idx zero slots objs e le small =
      copy_in-put size 0 slots objs (omega arith)
      ∙ put_same size 0 idx slots objs
          (zero-mod size ∙ sym (mod_self size) ∙ ap (λ i. i % size) (omega arith))
  copy_in_wraps size idx (suc k) slots [] e le small = absurd (omega arith)
  copy_in_wraps size idx (suc k) slots (o ∷ objs) e le small =
      copy_in_wraps size (suc idx) k (set slots idx o) objs (omega arith) (omega arith)
        (omega arith)
      ∙ ap (λ i. put size (set slots i o) (suc idx) objs) (sym (mod-eq_of_lt (omega arith)))

  -- The elements xs stand in the slots from position h on, round the end.
  unfoldable pub Holds : ℕ → List A → ℕ → List A → Type ℓ
  Holds size slots h [] = Unit {ℓ}
  Holds size slots h (x ∷ xs) = (get_elem? slots (h % size) ≡ some x) × Holds size slots (suc h) xs

  pub moved-Holds :
      (size p q : ℕ) (slots xs : List A)
      → p % size ≡ q % size
      → Holds size slots p xs
      → Holds size slots q xs
  unfolding Holds
  moved-Holds size p q slots [] e held = held
  moved-Holds size p q slots (x ∷ xs) e held = (
    ap (get_elem? slots) (sym e) ∙ held.0,
    moved-Holds size (suc p) (suc q) slots xs (suc_same size p q e) held.1,
  )

  copy_out_next :
      (slots : List A) (idx n : ℕ) (o : A) (rest : List A)
      → get_elem? slots idx ≡ some o
      → copy_out slots (suc idx) n ≡ rest
      → copy_out slots idx (suc n) ≡ o ∷ rest
  unfolding copy_out
  copy_out_next slots idx n o rest here next =
      ap (λ i. read_obj i (copy_out slots (suc idx) n)) here ∙ ap (λ i. o ∷ i) next

  pub copy_out-Holds :
      (size idx : ℕ) (slots xs : List A)
      → idx + length xs ≤ size
      → Holds size slots idx xs
      → copy_out slots idx (length xs) ≡ xs
  unfolding copy_out Holds
  copy_out-Holds size idx slots [] le held = refl
  copy_out-Holds size idx slots (x ∷ xs) le held =
      let here : get_elem? slots idx ≡ some x =
        ap (get_elem? slots) (sym (mod-eq_of_lt (omega arith))) ∙ held.0 in
      copy_out_next slots idx (length xs) x xs here
        (copy_out-Holds size (suc idx) slots xs (omega arith) held.1)

  pub copy_out_wraps :
      (size idx k n : ℕ) (slots xs : List A)
      → idx + k ≡ size
      → length xs ≡ k + n
      → n ≤ size
      → Holds size slots idx xs
      → copy_out slots idx k ++ copy_out slots 0 n ≡ xs
  unfolding copy_out Holds
  copy_out_wraps size idx zero n slots xs e len le held =
      let at_end : idx ≡ size = omega arith in
      let start : idx % size ≡ 0 % size =
        ap (λ i. i % size) at_end ∙ mod_self size ∙ sym (zero-mod size) in
      let all : n ≡ length xs = omega arith in
      ap (copy_out slots 0) all
      ∙ copy_out-Holds size 0 slots xs (omega arith) (moved-Holds size idx 0 slots xs start held)
  copy_out_wraps size idx (suc k) n slots [] e len le held = absurd (omega arith)
  copy_out_wraps size idx (suc k) n slots (x ∷ xs) e len le held =
      let here : get_elem? slots idx ≡ some x =
        ap (get_elem? slots) (sym (mod-eq_of_lt (omega arith))) ∙ held.0 in
      let rest = copy_out slots (suc idx) k in
      ap (λ i. i ++ copy_out slots 0 n) (copy_out_next slots idx k x rest here refl)
      ∙ ap (λ i. x ∷ i)
          (copy_out_wraps size (suc idx) k n slots xs (omega arith) (omega arith) le held.1)

  Holds-append :
      (size h : ℕ) (slots xs ys : List A)
      → Holds size slots h xs
      → Holds size slots (h + length xs) ys
      → Holds size slots h (xs ++ ys)
  unfolding Holds
  Holds-append size h slots [] ys held next = subst (λ i. Holds size slots i ys) (omega arith) next
  Holds-append size h slots (x ∷ xs) ys held next = (
    held.0,
    Holds-append size (suc h) slots xs ys held.1
        (subst (λ i. Holds size slots i ys) (omega arith) next),
  )

  Holds-set :
      (size h m : ℕ) (slots xs : List A) (v : A)
      → length xs ≤ m
      → m < size
      → Holds size slots h xs
      → Holds size (set slots ((h + m) % size) v) h xs
  unfolding Holds
  Holds-set size h m slots [] v le lt held = held
  Holds-set size h m slots (x ∷ xs) v le lt held =
      let place : suc h + (m - 1) ≡ h + m = omega arith in
      let other = mod_distinct size h m (omega arith) lt in
      (
        get_elem?-set_ne slots v (λ e. other (sym e)) ∙ held.0,
        subst (λ i. Holds size (set slots (i % size) v) (suc h) xs) place
            (Holds-set size (suc h) (m - 1) slots xs v (omega arith) (omega arith) held.1),
      )

  -- New elements are put behind those that stand in the slots, as long as there is room.
  pub put-Holds :
      (size h : ℕ) (slots xs ys : List A)
      → length slots ≡ size
      → length xs + length ys ≤ size
      → Holds size slots h xs
      → Holds size (put size slots (h + length xs) ys) h (xs ++ ys)
  unfolding put Holds
  put-Holds size h slots xs [] len le held = subst (Holds size slots h) (sym (append-nil xs)) held
  put-Holds size h slots xs (y ∷ ys) len le held =
      let q = h + length xs in
      let some_slot : 0 < size = omega arith in
      let in_range : q % size < size = mod-lt q some_slot in
      let slots' = set slots (q % size) y in
      let here : get_elem? slots' (q % size) ≡ some y =
        get_elem?-set_self slots (q % size) y (omega (arith, in_range)) in
      let kept = Holds-set size h (length xs) slots xs y (omega arith) (omega arith) held in
      let one : Holds size slots' h (xs ++ (y ∷ [])) =
        Holds-append size h slots' xs (y ∷ []) kept (here, tt) in
      let long : length (xs ++ (y ∷ [])) ≡ suc (length xs) =
        omega (arith, length-append xs (y ∷ [])) in
      let all =
        put-Holds size h slots' (xs ++ (y ∷ [])) ys (length-set slots (q % size) y ∙ len)
          (omega arith) one in
      let at_q : h + length (xs ++ (y ∷ [])) ≡ suc q = omega arith in
      subst (λ i. Holds size (put size slots' i ys) h (xs ++ (y ∷ ys))) at_q
        (subst (Holds size (put size slots' (h + length (xs ++ (y ∷ []))) ys) h)
          (append_assoc xs (y ∷ []) ys) all)

  pub Holds-drop :
      (size h n : ℕ) (slots xs : List A)
      → Holds size slots h xs
      → Holds size slots (h + n) (drop n xs)
  unfolding Holds
  Holds-drop size h zero slots xs held = subst (λ i. Holds size slots i xs) (omega arith) held
  Holds-drop size h (suc n) slots [] held = held
  Holds-drop size h (suc n) slots (x ∷ xs) held =
      subst (λ i. Holds size slots i (drop n xs)) (omega arith)
        (Holds-drop size (suc h) n slots xs held.1)

  pub Holds-take :
      (size h n : ℕ) (slots xs : List A) → Holds size slots h xs → Holds size slots h (take n xs)
  unfolding Holds
  Holds-take size h zero slots xs held = tt
  Holds-take size h (suc n) slots [] held = held
  Holds-take size h (suc n) slots (x ∷ xs) held =
      (held.0, Holds-take size (suc h) n slots xs held.1)
