-- ===== src/Engine/Ports/First.antt =====
-- src/include/machnet_engine.h, `SrcPortAlloc`: the first port that is free and suitable.
use mathlib.Core.Path.{subst}
use machnet.Base.{
  ℕ, zero, suc, ◌+◌, ◌-◌, ◌*◌, ◌/◌, ◌%◌, ◌<◌, ◌≤◌, ◌≡◌, refl, sym, ap, ◌∙◌, Bool, true, false, ◌&&◌,
  Option, none, some, List, inl, inr, ◌⊎◌, arith, Bool-cases, get_or, set, ltb, ◌==◌, ==_iff,
  if◌then◌else◌,
}
use machnet.Base.Bits.{land}
use machnet.Base.Bit.{bit, ffs, bit-land, bit-shift_left, bit-ones, ffs_none, ffs_first, shift_left}
use machnet.Engine.Ports.{find_free_port, clear_bit, all_free, bits_per_slot, src_port_max}

-- The first number from `lo` on and below `hi` that passes a test, or none does.
abbrev pub IsFirst : (ℕ → Bool) → ℕ → ℕ → Option ℕ → Type 0
IsFirst test lo hi none = (q : ℕ) → lo ≤ q → q < hi → test q ≡ false
IsFirst test lo hi (some p) =
    (lo ≤ p) × (p < hi) × (test p ≡ true) × ((q : ℕ) → lo ≤ q → q < p → test q ≡ false)

pub IsFirst-after :
    (test : ℕ → Bool) (lo mid hi : ℕ) (o : Option ℕ)
    → lo ≤ mid
    → ((q : ℕ) → lo ≤ q → q < mid → test q ≡ false)
    → IsFirst test mid hi o
    → IsFirst test lo hi o
IsFirst-after test lo mid hi none le before first = λ q a b. elim (Bool-cases (ltb q mid)) [
  | inl below ↦ before q a (ground (arith, below))
  | inr above ↦ first q (ground (arith, above)) b
]
IsFirst-after test lo mid hi (some p) le before (a, b, c, d) = (
  omega arith,
  b,
  c,
  λ q h k. elim (Bool-cases (ltb q mid)) [
    | inl below ↦ before q h (ground (arith, below))
    | inr above ↦ d q (ground (arith, above)) k
  ],
)

pub IsFirst-congr :
    (t t' : ℕ → Bool) (lo hi : ℕ) (o : Option ℕ)
    → ((q : ℕ) → t q ≡ t' q)
    → IsFirst t lo hi o
    → IsFirst t' lo hi o
IsFirst-congr t t' lo hi none e h = λ q a b. sym (e q) ∙ h q a b
IsFirst-congr t t' lo hi (some p) e (a, b, c, d) =
    (a, b, sym (e p) ∙ c, λ q h i. sym (e q) ∙ d q h i)

-- Whether a port is free in a bitmap; ports past its end are.
abbrev pub is_free : List ℕ → ℕ → Bool
is_free bitmap p = bit (p % bits_per_slot) (get_or bitmap (p / bits_per_slot) all_free) == 1

-- A bitmap after the port was taken from it.
abbrev pub taken : List ℕ → Option ℕ → List ℕ
taken bitmap none = bitmap
taken bitmap (some p) =
    let slot = p / bits_per_slot in
    set bitmap slot (clear_bit (get_or bitmap slot 0) (p % bits_per_slot))

zero_or_more : (n : ℕ) → (n ≡ 0) ⊎ ((p : ℕ) × (n ≡ suc p))
zero_or_more zero = inl refl
zero_or_more (suc p) = inr (p, refl)

module _ (suitable : ℕ → Bool) (bitmap : List ℕ) where
  abbrev pub suits : ℕ → Bool
  suits p = is_free bitmap p && suitable p

  -- The mask leaves the bits from `k` on.
  abbrev Masks : ℕ → ℕ → Type 0
  Masks k mask = (b : ℕ) → b < 64 → bit b mask ≡ (if ltb b k then 0 else 1)

  next_mask : (k : ℕ) → Masks k (shift_left 64 all_free k)
  next_mask k b h = bit-shift_left 64 b k all_free h ∙ tail (Bool-cases (ltb b k))
    where
      tail :
          (ltb b k ≡ true) ⊎ (ltb b k ≡ false)
          → (if ltb b k then 0 else bit (b - k) all_free) ≡ (if ltb b k then 0 else 1)
      tail (inl e) = rw e refl
      tail (inr e) = rw e (bit-ones 64 (b - k) (omega (arith, h)))

  pub first_mask : Masks 0 all_free
  first_mask b h = bit-ones 64 b h ∙ ground arith

  module _ (index : ℕ) (held : get_or bitmap index 0 ≡ get_or bitmap index all_free) where
    abbrev word : ℕ
    word = get_or bitmap index 0

    pub unsuited_bit :
        (q : ℕ)
        → index * 64 ≤ q
        → q < index * 64 + 64
        → bit (q - index * 64) word ≡ 0
        → suits q ≡ false
    unsuited_bit q a b e =
        let slot : q / 64 ≡ index = omega arith in
        let place : q % 64 ≡ q - index * 64 = omega arith in rw (slot, place, sym held, e) refl

    masked : (k mask b : ℕ) → Masks k mask → k ≤ b → b < 64 → bit b (land 64 word mask) ≡ bit b word
    masked k mask b masks le lt =
        let one : bit b mask ≡ 1 = masks b lt ∙ ground (arith, le) in
        bit-land 64 b word mask lt ∙ rw one (omega arith)

    -- Below a bit, all that the mask leaves are clear.
    unsuited_below :
        (k mask p : ℕ)
        → Masks k mask
        → p ≤ 64
        → ((b : ℕ) → b < p → bit b (land 64 word mask) ≡ 0)
        → (q : ℕ) → index * 64 + k ≤ q
        → q < index * 64 + p
        → suits q ≡ false
    unsuited_below k mask p masks le clear q a b = unsuited_bit q (omega arith) (omega arith) (
        sym (masked k mask (q - index * 64) masks (omega arith) (omega arith))
        ∙ clear (q - index * 64) (omega arith))

    masked_set :
        (k mask p : ℕ)
        → Masks k mask
        → p < 64
        → bit p (land 64 word mask) ≡ 1
        → (k ≤ p) × (bit p word ≡ 1)
    masked_set k mask p masks lt e = elim (Bool-cases (ltb p k)) [
      | inl low ↦
          let off : bit p mask ≡ 0 = masks p lt ∙ rw low refl in
          absurd (omega (arith, sym e ∙ bit-land 64 p word mask lt ∙ ap (λ i. bit p word * i) off))
      | inr high ↦
          let le : k ≤ p = ground (arith, high) in (le, sym (masked k mask p masks le lt) ∙ e)
    ]

    found_at :
        (p : ℕ)
        → p < 64
        → bit p word ≡ 1
        → suitable (index * 64 + p) ≡ true
        → suits (index * 64 + p) ≡ true
    found_at p lt e s =
        let slot : (index * 64 + p) / 64 ≡ index = omega arith in
        let place : (index * 64 + p) % 64 ≡ p = omega arith in rw (slot, place, sym held, e, s) refl

    unsuited_upto :
        (lo p : ℕ)
        → suitable (index * 64 + p) ≡ false
        → ((q : ℕ) → lo ≤ q → q < index * 64 + p → suits q ≡ false)
        → (q : ℕ) → lo ≤ q
        → q ≤ index * 64 + p
        → suits q ≡ false
    unsuited_upto lo p bad below q h i = elim (Bool-cases (q == index * 64 + p)) [
      | inl at ↦
          let eq : q ≡ index * 64 + p = (==_iff q (index * 64 + p)).0 at in
          subst (λ r. suits r ≡ false) (sym eq) (and_false (is_free bitmap (index * 64 + p)) bad)
      | inr apart ↦ below q h (ground (arith, apart, i))
    ]
      where
        and_false : (b : Bool) {c : Bool} → c ≡ false → (b && c) ≡ false
        and_false true e = e
        and_false false e = refl

    pub find_free_port-IsFirst :
        (fuel k mask : ℕ)
        → 64 ≤ fuel + k
        → k < 64
        → index ≤ 1023
        → Masks k mask
        → let (port, bitmap') = find_free_port suitable (suc fuel) mask bitmap index in
          IsFirst suits (index * 64 + k) (index * 64 + 64) port × (bitmap' ≡ taken bitmap port)
    unfolding find_free_port
    find_free_port-IsFirst zero k mask enough small le masks = absurd (omega arith)
    find_free_port-IsFirst (suc fuel) k mask enough small le masks =
        elim (zero_or_more (ffs 64 (land 64 word mask))) [
          | inl nothing ↦ rw nothing (
            unsuited_below k mask 64 masks (omega arith)
                (λ b h. ffs_none 64 (land 64 word mask) b nothing h),
            refl,
          )
          | inr (p, found) ↦
              let (lt, one, clear) = ffs_first 64 (land 64 word mask) p found in
              let below = unsuited_below k mask p masks (omega (arith, lt)) clear in
              let (from, free) = masked_set k mask p masks lt one in
              let candidate : index * 64 + suc p - 1 ≡ index * 64 + p = omega arith in
              let legal : ltb src_port_max (index * 64 + p) ≡ false = ground (arith, le, lt) in
              let nonzero : (suc p == 0) ≡ false = ground arith in
              elim (Bool-cases (suitable (index * 64 + p))) [
                | inl good ↦
                    let exponent : suc p - 1 ≡ p = omega arith in
                    let slot : (index * 64 + p) / 64 ≡ index = omega (arith, lt) in
                    let place : (index * 64 + p) % 64 ≡ p = omega (arith, lt) in
                    rw (found, candidate, legal, nonzero, good, exponent, slot, place)
                      (
                        (
                          omega (arith, from),
                          omega (arith, lt),
                          rw (slot, place) at (found_at p lt free good),
                          below,
                        ),
                        refl,
                      )
                | inr bad ↦
                    let upto = unsuited_upto (index * 64 + k) p bad below in
                    elim (Bool-cases (suc p == 64)) [
                      | inl last ↦
                          let top : p ≡ 63 = ground (arith, last) in
                          rw (found, candidate, legal, nonzero, bad, last)
                            (λ q h i. upto q h (omega (arith, top)), refl)
                      | inr more ↦
                          let next : suc p < 64 = ground (arith, more, lt) in
                          let rest =
                            find_free_port-IsFirst fuel (suc p) (shift_left 64 all_free (suc p))
                              (omega (arith, enough, from)) next le (next_mask (suc p)) in
                          rw (found, candidate, legal, nonzero, bad, more)
                            (
                              IsFirst-after suits (index * 64 + k) (index * 64 + suc p)
                                  (index * 64 + 64) _ (omega (arith, from))
                                  (λ q h i. upto q h (omega arith)) rest.0,
                              rest.1,
                            )
                    ]
              ]
        ]
