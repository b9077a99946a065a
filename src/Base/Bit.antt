-- ===== src/Base/Bit.antt =====
-- The bits of an unsigned word, the operators |, ~ and << on words of w bits, and the instruction that
-- finds the first bit that is set.
use Prim.Native.Nat.{ℕ, zero, suc, ◌+◌, ◌-◌, ◌*◌, ◌/◌, ◌%◌, ◌^◌, ◌≤◌, ◌<◌, min}
use mathlib.Core.Path.{◌≡◌, refl, ap, ◌∙◌}
use mathlib.Core.Logic.{◌⊎◌, inl, inr}
use native.Mathlib.Omega.{arith}
use machnet.Base.Tests.{◌==◌, if◌then◌else◌, ltb}
use machnet.Base.Bits.{land, land_bits, even_or_odd, pow_suc, pow_pos, mod_double, land-zero_right}

unfoldable pub bit : ℕ → ℕ → ℕ
bit zero w = w % 2
bit (suc b) w = bit b (w / 2)

-- a | b of the low w bits
unfoldable pub lor : ℕ → ℕ → ℕ → ℕ
lor zero a b = 0
lor (suc w) a b = min 1 (a % 2 + b % 2) + 2 * lor w (a / 2) (b / 2)

-- ~a of w bits, for a word a of w bits
abbrev pub complement : ℕ → ℕ → ℕ
complement w a = 2 ^ w - 1 - a

-- a << k of w bits
abbrev pub shift_left : ℕ → ℕ → ℕ → ℕ
shift_left w a k = a * 2 ^ k % 2 ^ w

-- The index of the lowest bit of w that is set, from 1 on; 0 if there is none.
unfoldable pub ffs : ℕ → ℕ → ℕ
ffs zero a = 0
ffs (suc w) a =
    let above = ffs w (a / 2) in if a % 2 == 1 then 1 else if above == 0 then 0 else above + 1

pub bit_cases : (b w : ℕ) → (bit b w ≡ 0) ⊎ (bit b w ≡ 1)
unfolding bit
bit_cases zero w = even_or_odd w
bit_cases (suc b) w = bit_cases b (w / 2)

pub bit-zero : (b : ℕ) → bit b 0 ≡ 0
unfolding bit
bit-zero zero = omega arith
bit-zero (suc b) = bit-zero b

product_parity :
    (x y r : ℕ)
    → (x ≡ 0) ⊎ (x ≡ 1)
    → y ≤ 1
    → ((x * y + 2 * r) % 2 ≡ x * y) × ((x * y + 2 * r) / 2 ≡ r)
product_parity x y r (inl e) le = rw e (omega arith, omega arith)
product_parity x y r (inr e) le = rw e (omega arith, omega arith)

pub bit-land : (w b x y : ℕ) → b < w → bit b (land w x y) ≡ bit b x * bit b y
unfolding bit land
bit-land zero b x y h = absurd (omega arith)
bit-land (suc w) zero x y h =
    (product_parity (x % 2) (y % 2) (land w (x / 2) (y / 2)) (even_or_odd x) (omega arith)).0
bit-land (suc w) (suc b) x y h =
    ap (bit b)
      (product_parity (x % 2) (y % 2) (land w (x / 2) (y / 2)) (even_or_odd x) (omega arith)).1
    ∙ bit-land w b (x / 2) (y / 2) (omega arith)

pub bit-lor : (w b x y : ℕ) → b < w → bit b (lor w x y) ≡ min 1 (bit b x + bit b y)
unfolding bit lor
bit-lor zero b x y h = absurd (omega arith)
bit-lor (suc w) zero x y h = omega arith
bit-lor (suc w) (suc b) x y h = ap (bit b) (omega arith) ∙ bit-lor w b (x / 2) (y / 2) (omega arith)

pub bit-complement : (w b x : ℕ) → b < w → x < 2 ^ w → bit b (complement w x) ≡ 1 - bit b x
unfolding bit
bit-complement zero b x h lt = absurd (omega arith)
bit-complement (suc w) zero x h lt = omega (arith, pow_suc w, pow_pos w)
bit-complement (suc w) (suc b) x h lt =
    ap (bit b) (omega (arith, pow_suc w, pow_pos w, lt))
    ∙ bit-complement w b (x / 2) (omega arith) (omega (arith, pow_suc w, lt))

pub bit-ones : (w b : ℕ) → b < w → bit b (2 ^ w - 1) ≡ 1
bit-ones w b h =
    ap (bit b) (omega arith) ∙ bit-complement w b 0 h (pow_pos w) ∙ omega (arith, bit-zero b)

bit-mod : (w b a : ℕ) → b < w → bit b (a % 2 ^ w) ≡ bit b a
unfolding bit
bit-mod zero b a h = absurd (omega arith)
bit-mod (suc w) zero a h =
    omega (arith, ap (λ i. a % i) (pow_suc w), mod_double a (2 ^ w) (pow_pos w))
bit-mod (suc w) (suc b) a h =
    ap (bit b) (omega (arith, ap (λ i. a % i) (pow_suc w), mod_double a (2 ^ w) (pow_pos w)))
    ∙ bit-mod w b (a / 2) (omega arith)

double_product : (a k : ℕ) → a * 2 ^ suc k ≡ 2 * (a * 2 ^ k)
double_product a k = grind (arith, pow_suc k)

bit-product : (k b a : ℕ) → bit b (a * 2 ^ k) ≡ (if ltb b k then 0 else bit (b - k) a)
unfolding bit
bit-product zero b a = rw (one_times a) (ground arith)
  where
    one_times : (a : ℕ) → a * 2 ^ 0 ≡ a
    one_times a = omega arith
bit-product (suc k) zero a = grind (arith, double_product a k)
bit-product (suc k) (suc b) a =
    ap (bit b) (omega (arith, double_product a k)) ∙ bit-product k b a ∙ ground arith

pub bit-shift_left :
    (w b k a : ℕ) → b < w → bit b (shift_left w a k) ≡ (if ltb b k then 0 else bit (b - k) a)
bit-shift_left w b k a h = bit-mod w b (a * 2 ^ k) h ∙ bit-product k b a

pub bit-power : (k b : ℕ) → bit b (2 ^ k) ≡ (if b == k then 1 else 0)
unfolding bit
bit-power zero zero = refl
bit-power zero (suc b) = grind (arith, bit-zero b)
bit-power (suc k) zero = grind (arith, pow_suc k)
bit-power (suc k) (suc b) = ap (bit b) (omega (arith, pow_suc k)) ∙ bit-power k b ∙ ground arith

pub pow-lt : (k w : ℕ) → k < w → 2 ^ k < 2 ^ w
pow-lt k zero h = absurd (omega arith)
pow-lt zero (suc w) h = omega (arith, pow_suc w, pow_pos w)
pow-lt (suc k) (suc w) h = omega (arith, pow_suc w, pow_suc k, pow-lt k w (omega arith))

-- The test of one bit.
pub land-power : (w k x : ℕ) → k < w → land w x (2 ^ k) ≡ bit k x * 2 ^ k
unfolding bit
land-power zero k x h = absurd (omega arith)
land-power (suc w) zero x h =
    omega (arith, land_bits w x 1 (x % 2) 1 _ refl refl refl, land-zero_right w (x / 2))
land-power (suc w) (suc k) x h =
    let half : 2 ^ suc k / 2 ≡ 2 ^ k = omega (arith, pow_suc k) in
    let rest = ap (land w (x / 2)) half ∙ land-power w k (x / 2) (omega arith) in
    omega (
      arith,
      land_bits w x (2 ^ suc k) (x % 2) 0 _ refl (omega (arith, pow_suc k)) rest,
      double_product (bit k (x / 2)) k,
    )

-- No bit is set, or the found one is the lowest.
pub ffs_none : (w x b : ℕ) → ffs w x ≡ 0 → b < w → bit b x ≡ 0
unfolding bit ffs
ffs_none zero x b e h = absurd (omega arith)
ffs_none (suc w) x zero e h = ground (arith, e)
ffs_none (suc w) x (suc b) e h = ground (arith, e, ffs_none w (x / 2) b)

pub ffs_first :
    (w x p : ℕ) → ffs w x ≡ suc p → (p < w) × (bit p x ≡ 1) × ((b : ℕ) → b < p → bit b x ≡ 0)
unfolding bit ffs
ffs_first zero x p e = absurd (omega arith)
ffs_first (suc w) x zero e = elim (even_or_odd x) [
  | inl even ↦ ground (arith, e, even)
  | inr odd ↦ (omega arith, odd, λ b h. absurd (omega (arith, h)))
]
ffs_first (suc w) x (suc p) e =
    let even : x % 2 ≡ 0 = ground (arith, e) in
    let above : ffs w (x / 2) ≡ suc p = ground (arith, e) in
    let (lt, found, below) = ffs_first w (x / 2) p above in
    (omega (arith, lt), found, clear even below)
  where
    clear : x % 2 ≡ 0 → ((b : ℕ) → b < p → bit b (x / 2) ≡ 0) → (b : ℕ) → b < suc p → bit b x ≡ 0
    clear even below zero h = even
    clear even below (suc b) h = below b (omega arith)
