-- ===== src/Base/Words.antt =====
-- Unsigned machine arithmetic with its wrap-around written out, and bytes in network order.
use Prim.Native.Nat.{ℕ, ◌+◌, ◌-◌, ◌*◌, ◌/◌, ◌%◌, ◌^◌}
use mathlib.Core.List.{List, [], ◌∷◌}

abbrev pub u16 : ℕ → ℕ
u16 n = n % 2 ^ 16

abbrev pub u32 : ℕ → ℕ
u32 n = n % 2 ^ 32

-- uint32_t a + b
unfoldable pub add32 : ℕ → ℕ → ℕ
add32 a b = (a + b) % 2 ^ 32

-- uint32_t a - b, for b below 2 ^ 32; `-` on ℕ stops at 0, so the modulus is added first.
unfoldable pub sub32 : ℕ → ℕ → ℕ
sub32 a b = (a + 2 ^ 32 - b) % 2 ^ 32

-- The bytes of htobe32, most significant first.
unfoldable pub htobe32 : ℕ → List ℕ
htobe32 n = (n / 2 ^ 24 % 256) ∷ (n / 2 ^ 16 % 256) ∷ (n / 2 ^ 8 % 256) ∷ (n % 256) ∷ []

-- be16toh of two bytes
unfoldable pub be16toh : ℕ → ℕ → ℕ
be16toh hi lo = hi * 256 + lo
