-- ===== src/Seq/Order.antt =====
-- What the comparisons of sequence numbers mean inside a window of fewer than 2 ^ 31 numbers.
use machnet.Base.{ℕ, ◌+◌, ◌-◌, ◌%◌, ◌^◌, ◌≤◌, ◌<◌, ◌≡◌, arith, ltb, leb, ◌==◌, add32, sub32}
use machnet.Seq.{seq_lt, seq_leq, seq_gt, seq_geq, seq_eq}

-- The distance of a sequence number from a base recovers an offset added to that base.
pub sub32-add32 : (base off : ℕ) → base < 2 ^ 32 → off < 2 ^ 32 → sub32 (add32 base off) base ≡ off
unfolding sub32 add32
sub32-add32 base off hb ho = omega arith

pub add32-sub32 : (base seq : ℕ) → base < 2 ^ 32 → seq < 2 ^ 32 → add32 base (sub32 seq base) ≡ seq
unfolding sub32 add32
add32-sub32 base seq hb hs = omega arith

pub add32-lt : (a b : ℕ) → add32 a b < 2 ^ 32
unfolding add32
add32-lt a b = omega arith

pub sub32-lt : (a b : ℕ) → sub32 a b < 2 ^ 32
unfolding sub32
sub32-lt a b = omega arith

pub add32_assoc : (a b c : ℕ) → add32 (add32 a b) c ≡ add32 a (b + c)
unfolding add32
add32_assoc a b c = omega arith

pub add32-zero : (a : ℕ) → a < 2 ^ 32 → add32 a 0 ≡ a
unfolding add32
add32-zero a h = omega arith

-- The difference of two numbers at offsets from one base, the wrap written out.
pub sub32-add32-add32 :
    (base i j : ℕ)
    → base < 2 ^ 32
    → i < 2 ^ 32
    → j < 2 ^ 32
    → sub32 (add32 base i) (add32 base j) ≡ (i + 2 ^ 32 - j) % 2 ^ 32
unfolding sub32 add32
sub32-add32-add32 base i j hb hi hj = omega arith

-- The same where the first offset is the larger: the distance between the two.
pub sub32_offsets :
    (base i j : ℕ)
    → base < 2 ^ 32
    → i < 2 ^ 32
    → j ≤ i
    → sub32 (add32 base i) (add32 base j) ≡ i - j
sub32_offsets base i j hb hi hj = omega (arith, sub32-add32-add32 base i j hb hi (omega arith))

module _ (base i j : ℕ) (hb : base < 2 ^ 32) (hi : i < 2 ^ 31) (hj : j < 2 ^ 31) where
  pub seq_lt_offsets : seq_lt (add32 base i) (add32 base j) ≡ ltb i j
  unfolding seq_lt
  seq_lt_offsets = ground (arith, sub32-add32-add32 base i j hb (omega arith) (omega arith))

  pub seq_leq_offsets : seq_leq (add32 base i) (add32 base j) ≡ leb i j
  unfolding seq_leq
  seq_leq_offsets = ground (arith, sub32-add32-add32 base i j hb (omega arith) (omega arith))

  pub seq_gt_offsets : seq_gt (add32 base i) (add32 base j) ≡ ltb j i
  unfolding seq_gt
  seq_gt_offsets = ground (arith, sub32-add32-add32 base i j hb (omega arith) (omega arith))

  pub seq_geq_offsets : seq_geq (add32 base i) (add32 base j) ≡ leb j i
  unfolding seq_geq
  seq_geq_offsets = ground (arith, sub32-add32-add32 base i j hb (omega arith) (omega arith))

  pub seq_eq_offsets : seq_eq (add32 base i) (add32 base j) ≡ (i == j)
  unfolding seq_eq
  seq_eq_offsets = ground (arith, sub32-add32-add32 base i j hb (omega arith) (omega arith))

-- Two sequence numbers at offsets below 2 ^ 31 from one 32-bit base, whether or not they wrap,
-- compare by each of the five tests exactly as their offsets do.
pub seq_window :
    (base i j : ℕ)
    → base < 2 ^ 32
    → i < 2 ^ 31
    → j < 2 ^ 31
    → (seq_lt (add32 base i) (add32 base j) ≡ ltb i j)
      × (seq_leq (add32 base i) (add32 base j) ≡ leb i j)
      × (seq_gt (add32 base i) (add32 base j) ≡ ltb j i)
      × (seq_geq (add32 base i) (add32 base j) ≡ leb j i)
      × (seq_eq (add32 base i) (add32 base j) ≡ (i == j))
seq_window base i j hb hi hj = (
  seq_lt_offsets base i j hb hi hj,
  seq_leq_offsets base i j hb hi hj,
  seq_gt_offsets base i j hb hi hj,
  seq_geq_offsets base i j hb hi hj,
  seq_eq_offsets base i j hb hi hj,
)
