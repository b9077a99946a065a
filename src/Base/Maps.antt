-- ===== src/Base/Maps.antt =====
-- Hash maps as association lists, over keys that have a test of equality.
use Prim.Native.Nat.{ℕ}
use mathlib.Core.Path.{◌≡◌, refl, sym, ◌∙◌, ap}
use mathlib.Core.Logic.{◌↔◌, inl, inr}
use mathlib.Core.Bool.{Bool, true, false, ◌&&◌}
use mathlib.Core.Option.{Option, none, some}
use mathlib.Core.List.{List, [], ◌∷◌}
use native.Mathlib.Omega.{arith}
use machnet.Base.Tests.{◌==◌, ==_iff, if◌then◌else◌, Bool-cases}

pub record Eq {ℓ} (K : Type ℓ) : Type ℓ where
  pub beq : K → K → Bool
  pub beq_iff : (a b : K) → (beq a b ≡ true) ↔ (a ≡ b)

instance abbrev pub nat_eq : Eq ℕ
nat_eq = record { beq = ◌==◌; beq_iff = ==_iff }

module _ {ℓ κ} {A : Type ℓ} {B : Type κ} ⦃e : Eq A⦄ ⦃d : Eq B⦄ where
  abbrev both : A × B → A × B → Bool
  both p q = e.beq p.0 q.0 && d.beq p.1 q.1

  pub both_iff : (p q : A × B) → (both p q ≡ true) ↔ (p ≡ q)
  both_iff p q = (join, split)
    where
      join : (e.beq p.0 q.0 && d.beq p.1 q.1) ≡ true → p ≡ q
      join h = ground (arith, e.beq_iff p.0 q.0, d.beq_iff p.1 q.1, h)

      split : p ≡ q → (e.beq p.0 q.0 && d.beq p.1 q.1) ≡ true
      split h =
          rw ((e.beq_iff p.0 q.0).1 (ap (λ r. r.0) h)) ((d.beq_iff p.1 q.1).1 (ap (λ r. r.1) h))

  instance abbrev pub pair_eq : Eq (A × B)
  pair_eq = record { beq = both; beq_iff = both_iff }

module _ {ℓ} {K : Type ℓ} ⦃e : Eq K⦄ where
  pub beq_self : (a : K) → e.beq a a ≡ true
  beq_self a = (e.beq_iff a a).1 refl

  -- If `k` was found under `i`, it is not found under `j`.
  pub beq_apart : (i j k : K) → e.beq i j ≡ false → e.beq i k ≡ true → e.beq j k ≡ false
  beq_apart i j k h g = elim (Bool-cases (e.beq j k)) [
    | inl same ↦
        let eq : i ≡ j = (e.beq_iff i k).0 g ∙ sym ((e.beq_iff j k).0 same) in
        absurd (cc (sym h ∙ (e.beq_iff i j).1 eq))
    | inr other ↦ other
  ]

module _ {ℓ κ} {K : Type ℓ} {V : Type κ} ⦃e : Eq K⦄ where
  unfoldable pub find : K → List (K × V) → Option V
  find k [] = none
  find k ((j, v) ∷ m) = if e.beq j k then some v else find k m

  -- m[k] = v
  unfoldable pub insert : K → V → List (K × V) → List (K × V)
  insert k v [] = (k, v) ∷ []
  insert k v ((j, w) ∷ m) = if e.beq j k then (k, v) ∷ m else (j, w) ∷ insert k v m

  unfoldable pub erase : K → List (K × V) → List (K × V)
  erase k [] = []
  erase k ((j, w) ∷ m) = if e.beq j k then erase k m else (j, w) ∷ erase k m

  abbrev pub contains : K → List (K × V) → Bool
  contains k m = elim (find k m) [ none ↦ false | some v ↦ true ]

  -- `emplace` and `insert` of a map leave an entry that is there.
  abbrev pub emplace : K → V → List (K × V) → List (K × V)
  emplace k v m = if contains k m then m else insert k v m

  pub find-insert :
      (k j : K) (v : V) (m : List (K × V))
      → find j (insert k v m) ≡ (if e.beq k j then some v else find j m)
  unfolding find insert
  find-insert k j v [] = refl
  find-insert k j v ((i, w) ∷ m) = elim (Bool-cases (e.beq i k)) [
    | inl same ↦ let at : i ≡ k = (e.beq_iff i k).0 same in rw (same, at) (ground arith)
    | inr other ↦ rw other (elim (Bool-cases (e.beq i j)) [
      | inl at ↦ rw (at, beq_apart i k j other at) refl
      | inr apart ↦ rw apart (find-insert k j v m)
    ])
  ]

  pub find-erase :
      (k j : K) (m : List (K × V)) → find j (erase k m) ≡ (if e.beq k j then none else find j m)
  unfolding find erase
  find-erase k j [] = ground arith
  find-erase k j ((i, w) ∷ m) = elim (Bool-cases (e.beq i k)) [
    | inl same ↦
        let at : i ≡ k = (e.beq_iff i k).0 same in rw (same, at) (find-erase k j m ∙ ground arith)
    | inr other ↦ rw other (elim (Bool-cases (e.beq i j)) [
      | inl at ↦ rw (at, beq_apart i k j other at) refl
      | inr apart ↦ rw apart (find-erase k j m)
    ])
  ]

  -- No key has two entries.
  abbrev pub Distinct : List (K × V) → Type κ
  Distinct [] = Unit
  Distinct ((k, v) ∷ m) = (find k m ≡ none) × Distinct m

  pub Distinct-insert : (k : K) (v : V) (m : List (K × V)) → Distinct m → Distinct (insert k v m)
  unfolding find insert
  Distinct-insert k v [] h = (refl, tt)
  Distinct-insert k v ((j, w) ∷ m) (h, d) = elim (Bool-cases (e.beq j k)) [
    | inl same ↦
        let at : j ≡ k = (e.beq_iff j k).0 same in rw same (sym (ap (λ i. find i m) at) ∙ h, d)
    | inr other ↦
        let apart : e.beq k j ≡ false = beq_apart j k j other (beq_self j) in
        rw other (find-insert k j v m ∙ rw apart h, Distinct-insert k v m d)
  ]

  pub Distinct-erase : (k : K) (m : List (K × V)) → Distinct m → Distinct (erase k m)
  unfolding find erase
  Distinct-erase k [] h = tt
  Distinct-erase k ((j, w) ∷ m) (h, d) = elim (Bool-cases (e.beq j k)) [
    | inl same ↦ rw same (Distinct-erase k m d)
    | inr other ↦ rw other (find-erase k j m ∙ none_either (e.beq k j) h, Distinct-erase k m d)
  ]
    where
      none_either : (b : Bool) {o : Option V} → o ≡ none → (if b then none else o) ≡ none
      none_either true h = refl
      none_either false h = h
