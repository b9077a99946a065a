-- ===== src/Engine/Ports/Alloc.antt =====
-- src/include/machnet_engine.h, `SrcPortAlloc` and `SrcPortReleaseLocked` on one bitmap.
use machnet.Base.{
  ℕ, zero, suc, ◌+◌, ◌/◌, ◌%◌, ◌^◌, ◌<◌, ◌≡◌, refl, sym, ap, ◌∙◌, Bool, true, false, not, ◌&&◌,
  ◌||◌, Option, none, some, List, [], ◌∷◌, ◌++◌, inl, inr, arith, Bool-cases, length, get_or, set,
  replicate, ◌==◌, ==_iff, if◌then◌else◌,
}
use machnet.Base.Bit.{bit, bit-land, bit-lor, bit-complement, bit-power, bit_cases, lor, pow-lt}
use machnet.Engine.Ports.{release_port, clear_bit, all_free}
use machnet.Engine.Ports.First.{IsFirst, is_free, taken}

-- The reference: a search of the ports one by one.
unfoldable pub first_port : (ℕ → Bool) → ℕ → ℕ → Option ℕ
first_port test zero lo = none
first_port test (suc n) lo =
    let rest = first_port test n (lo + 1) in if test lo then some lo else rest

pub IsFirst-first_port :
    (test : ℕ → Bool) (n lo : ℕ) (o : Option ℕ)
    → IsFirst test lo (lo + n) o
    → o ≡ first_port test n lo
unfolding first_port
IsFirst-first_port test zero lo none h = refl
IsFirst-first_port test zero lo (some p) (a, b, c, d) = absurd (omega (arith, a, b))
IsFirst-first_port test (suc n) lo none h =
    rw (h lo (omega arith) (omega arith))
      (IsFirst-first_port test n (lo + 1) none (λ q a b. h q (omega arith) (omega arith)))
IsFirst-first_port test (suc n) lo (some p) (a, b, c, d) = elim (Bool-cases (lo == p)) [
  | inl at ↦ let eq : lo ≡ p = (==_iff lo p).0 at in rw eq (rw c refl)
  | inr later ↦
      let lt : lo < p = ground (arith, later, a) in
      rw (d lo (omega arith) lt) (
        IsFirst-first_port test n (lo + 1) (some p)
          (omega (arith, lt), omega (arith, b), c, λ q h i. d q (omega arith) i))
]

pub get_or_inside : (xs : List ℕ) (i d e : ℕ) → i < length xs → get_or xs i d ≡ get_or xs i e
get_or_inside [] i d e h = absurd (omega arith)
get_or_inside (x ∷ xs) zero d e h = refl
get_or_inside (x ∷ xs) (suc i) d e h = get_or_inside xs i d e (omega arith)

get_or-replicate : (n i d : ℕ) → get_or (replicate n d) i d ≡ d
get_or-replicate zero i d = refl
get_or-replicate (suc n) zero d = refl
get_or-replicate (suc n) (suc i) d = get_or-replicate n i d

get_or-grow : (xs : List ℕ) (n i d : ℕ) → get_or (xs ++ replicate n d) i d ≡ get_or xs i d
get_or-grow [] n i d = get_or-replicate n i d
get_or-grow (x ∷ xs) n zero d = refl
get_or-grow (x ∷ xs) n (suc i) d = get_or-grow xs n i d

get_or-set :
    (xs : List ℕ) (i j v d : ℕ)
    → i < length xs
    → get_or (set xs i v) j d ≡ (if i == j then v else get_or xs j d)
get_or-set [] i j v d h = absurd (omega arith)
get_or-set (x ∷ xs) zero zero v d h = refl
get_or-set (x ∷ xs) zero (suc j) v d h = ground arith
get_or-set (x ∷ xs) (suc i) zero v d h = ground arith
get_or-set (x ∷ xs) (suc i) (suc j) v d h = get_or-set xs i j v d (omega arith) ∙ ground arith

-- A bitmap is a set of ports; a larger one is the same set.
pub is_free-grow :
    (bitmap : List ℕ) (n q : ℕ) → is_free (bitmap ++ replicate n all_free) q ≡ is_free bitmap q
is_free-grow bitmap n q = ap (λ w. bit (q % 64) w == 1) (get_or-grow bitmap n (q / 64) all_free)

-- The port of a result
abbrev pub is_port : ℕ → Option ℕ → Bool
is_port q none = false
is_port q (some p) = q == p

-- The free ports of the second bitmap are those of the first without the port of a result.
abbrev pub Took : List ℕ → List ℕ → Option ℕ → Type 0
Took bitmap bitmap' port = (q : ℕ) → is_free bitmap' q ≡ (is_free bitmap q && not (is_port q port))

pub clear_bit_lem :
    (w k b : ℕ) → k < 64 → b < 64 → bit b (clear_bit w k) ≡ (if b == k then 0 else bit b w)
clear_bit_lem w k b h i =
    let cleared = bit-complement 64 b (2 ^ k) i (pow-lt k 64 h) in
    elim (Bool-cases (b == k)) [
      | inl at ↦ rw at (grind (arith, bit-land 64 b w _ i, cleared, bit-power k b, at))
      | inr apart ↦ rw apart (grind (arith, bit-land 64 b w _ i, cleared, bit-power k b, apart))
    ]

pub set_bit_lem : (w k b : ℕ) → b < 64 → bit b (lor 64 w (2 ^ k)) ≡ (if b == k then 1 else bit b w)
set_bit_lem w k b i = elim (Bool-cases (b == k)) [
  | inl at ↦ rw at (grind (arith, bit-lor 64 b w (2 ^ k) i, bit-power k b, at))
  | inr apart ↦
      let word = bit_cases b w in
      rw apart (grind (arith, bit-lor 64 b w (2 ^ k) i, bit-power k b, apart, word))
]

pub is_free-set :
    (bitmap : List ℕ) (slot w q : ℕ)
    → slot < length bitmap
    → is_free (set bitmap slot w) q
      ≡ (if slot == q / 64 then bit (q % 64) w == 1 else is_free bitmap q)
is_free-set bitmap slot w q h =
    ap (λ v. bit (q % 64) v == 1) (get_or-set bitmap slot (q / 64) w all_free h)
    ∙ inside (slot == q / 64)
  where
    inside :
        (b : Bool)
        → (bit (q % 64) (if b then w else get_or bitmap (q / 64) all_free) == 1)
          ≡ (if b then bit (q % 64) w == 1 else is_free bitmap q)
    inside true = refl
    inside false = refl

-- A word is written in the slot of a port: what that does to the set of free ports, if the other bits
-- of the slot stay.
is_free-set-bit :
    (bitmap : List ℕ) (p q w v : ℕ)
    → p / 64 < length bitmap
    → ((b : ℕ) → b < 64 → bit b w ≡ (if b == p % 64 then v else bit b (get_or bitmap (p / 64) 0)))
    → is_free (set bitmap (p / 64) w) q ≡ (if q == p then v == 1 else is_free bitmap q)
is_free-set-bit bitmap p q w v h bits =
    let held = get_or_inside bitmap (p / 64) 0 all_free h in
    let bits_q = bits (q % 64) (omega arith) in
    is_free-set bitmap (p / 64) w q h ∙ elim (Bool-cases (p / 64 == q / 64)) [
      | inl same ↦
          let slot : q / 64 ≡ p / 64 = sym ((==_iff _ _).0 same) in
          rw (same, slot, bits_q, held)
            (elim (Bool-cases (q == p)) [
              | inl at ↦
                  let place : (q % 64 == p % 64) ≡ true = ground (arith, at) in rw (at, place) refl
              | inr apart ↦
                  let place : (q % 64 == p % 64) ≡ false = ground (arith, apart, slot) in
                  rw (apart, place) refl
            ])
      | inr other ↦ let apart : (q == p) ≡ false = ground (arith, other) in rw (other, apart) refl
    ]

pub taken-Took :
    (bitmap : List ℕ) (port : Option ℕ)
    → ((p : ℕ) → port ≡ some p → p / 64 < length bitmap)
    → Took bitmap (taken bitmap port) port
taken-Took bitmap none h q = ground arith
taken-Took bitmap (some p) h q =
    is_free-set-bit bitmap p q (clear_bit (get_or bitmap (p / 64) 0) (p % 64)) 0 (h p refl)
      (λ b i. clear_bit_lem (get_or bitmap (p / 64) 0) (p % 64) b (omega arith) i)
    ∙ ground arith

-- A released port is free, and no other changes.
pub release_port_lem :
    (p q : ℕ) (bitmap : List ℕ)
    → p / 64 < length bitmap
    → is_free (release_port p bitmap) q ≡ (q == p || is_free bitmap q)
unfolding release_port
release_port_lem p q bitmap h =
    is_free-set-bit bitmap p q (lor 64 (get_or bitmap (p / 64) 0) (2 ^ (p % 64))) 1 h
      (λ b i. set_bit_lem (get_or bitmap (p / 64) 0) (p % 64) b i)
    ∙ ground arith
