-- ===== src/Base/Bits.antt =====
-- The operator & on unsigned integers, and what the code does with it for powers of two.
use Prim.Native.Nat.{ℕ, zero, suc, ◌+◌, ◌-◌, ◌*◌, ◌/◌, ◌%◌, ◌^◌, ◌≤◌, ◌<◌}
use mathlib.Core.Path.{◌≡◌, refl, ap, ◌∙◌}
use mathlib.Core.Logic.{◌⊎◌, inl, inr}
use native.Mathlib.Omega.{arith}
use native.Mathlib.Nat.{pow-succ', mul-add-mod_self_left, mod-eq_of_lt, mod-lt, div-add-mod}

-- a & b of the low w bits
unfoldable pub land : ℕ → ℕ → ℕ → ℕ
land zero a b = 0
land (suc w) a b = a % 2 * (b % 2) + 2 * land w (a / 2) (b / 2)

pub even_or_odd : (n : ℕ) → (n % 2 ≡ 0) ⊎ (n % 2 ≡ 1)
even_or_odd n = omega arith

pub pow_suc : (w : ℕ) → 2 ^ suc w ≡ 2 * 2 ^ w
pow_suc w = pow-succ' 2 w

pub pow_pos : (w : ℕ) → 0 < 2 ^ w
pow_pos zero = omega arith
pow_pos (suc w) = omega (arith, pow_suc w, pow_pos w)

-- One bit of each number, and the rest of the result.
pub land_bits :
    (w a b x y r : ℕ)
    → a % 2 ≡ x
    → b % 2 ≡ y
    → land w (a / 2) (b / 2) ≡ r
    → land (suc w) a b ≡ x * y + 2 * r
unfolding land
land_bits w a b x y r hx hy hr = rw (hx, hy, hr)

land_self : (w x : ℕ) → x < 2 ^ w → land w x x ≡ x
land_self zero x h = unfold land in omega arith
land_self (suc w) x h =
    let half = land_self w (x / 2) (omega (arith, pow_suc w)) in
    elim (even_or_odd x) [
      | inl e ↦ omega (arith, land_bits w x x 0 0 (x / 2) e e half)
      | inr e ↦ omega (arith, land_bits w x x 1 1 (x / 2) e e half)
    ]

pub land-zero_right : (w a : ℕ) → land w a 0 ≡ 0
land-zero_right zero a = unfold land in refl
land-zero_right (suc w) a = elim (even_or_odd a) [
  | inl e ↦ omega (arith, land_bits w a 0 0 0 0 e refl (land-zero_right w (a / 2)))
  | inr e ↦ omega (arith, land_bits w a 0 1 0 0 e refl (land-zero_right w (a / 2)))
]

-- The test of a power of two by its bits.
pub land-pred_self :
    (w x : ℕ) → 0 < x → x < 2 ^ w → land w (x - 1) x ≡ 0 → (k : ℕ) × (k < w) × (x ≡ 2 ^ k)
land-pred_self zero x pos h e = absurd (omega arith)
land-pred_self (suc w) x pos h e = elim (even_or_odd x) [
  | inl even ↦
      let less : (x - 1) / 2 ≡ x / 2 - 1 = omega arith in
      let rest = ap (λ i. land w i (x / 2)) less in
      let halves : land w (x / 2 - 1) (x / 2) ≡ 0 =
        omega (arith, land_bits w (x - 1) x 1 0 _ (omega arith) even rest) in
      let (k, lt, shape) =
        land-pred_self w (x / 2) (omega arith) (omega (arith, pow_suc w)) halves in
      (suc k, omega arith, omega (arith, pow_suc k))
  | inr odd ↦
      let less : (x - 1) / 2 ≡ x / 2 = omega arith in
      let rest = ap (λ i. land w i (x / 2)) less ∙ land_self w (x / 2) (omega (arith, pow_suc w)) in
      (0, omega arith, omega (arith, land_bits w (x - 1) x 0 1 _ (omega arith) odd rest))
]

pub mod_double : (a p : ℕ) → 0 < p → a % (2 * p) ≡ a % 2 + 2 * (a / 2 % p)
mod_double a p pos =
    let q = a / 2 / p in
    let r = a % 2 + 2 * (a / 2 % p) in
    let split : a ≡ 2 * p * q + r = omega (arith, div-add-mod (a / 2) p) in
    ap (λ i. i % (2 * p)) split
    ∙ mul-add-mod_self_left (2 * p) q r
    ∙ mod-eq_of_lt (omega (arith, mod-lt (a / 2) pos))

-- A mask of k ones takes the remainder.
pub land_mask : (k w a : ℕ) → k ≤ w → land w a (2 ^ k - 1) ≡ a % 2 ^ k
land_mask zero w a le = omega (arith, land-zero_right w a)
land_mask (suc k) zero a le = absurd (omega arith)
land_mask (suc k) (suc w) a le =
    let p = 2 ^ k in
    let less : (2 ^ suc k - 1) / 2 ≡ p - 1 = omega (arith, pow_suc k, pow_pos k) in
    let rest = ap (λ i. land w (a / 2) i) less ∙ land_mask k w (a / 2) (omega arith) in
    let odd : (2 ^ suc k - 1) % 2 ≡ 1 = omega (arith, pow_suc k, pow_pos k) in
    let bits = land_bits w a (2 ^ suc k - 1) (a % 2) 1 _ refl odd rest in
    omega (arith, bits, mod_double a p (pow_pos k), ap (λ i. a % i) (pow_suc k))

pub land-le_right : (w a b : ℕ) → land w a b ≤ b
land-le_right zero a b = unfold land in omega arith
land-le_right (suc w) a b =
    let rest = land-le_right w (a / 2) (b / 2) in
    elim (even_or_odd a) [
      | inl e ↦ omega (arith, land_bits w a b 0 (b % 2) (land w (a / 2) (b / 2)) e refl refl)
      | inr e ↦ omega (arith, land_bits w a b 1 (b % 2) (land w (a / 2) (b / 2)) e refl refl)
    ]
