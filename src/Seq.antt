-- ===== src/Seq.antt =====
-- src/include/cc.h and src/include/tcp_flow.h: comparisons of 32-bit sequence numbers.
-- A cast of a - b to int32_t is negative exactly when the unsigned difference is 2 ^ 31 or more.
pub mod Order
mod Tests
use machnet.Base.{ℕ, ◌-◌, ◌^◌, Bool, ◌&&◌, ◌||◌, leb, ltb, ◌==◌, sub32}

-- SeqLt, seqno_lt
unfoldable pub seq_lt : ℕ → ℕ → Bool
unfolding sub32
seq_lt a b = leb (2 ^ 31) (sub32 a b)

-- SeqLeq, seqno_le
unfoldable pub seq_leq : ℕ → ℕ → Bool
unfolding sub32
seq_leq a b = sub32 a b == 0 || leb (2 ^ 31) (sub32 a b)

-- SeqGt, seqno_gt
unfoldable pub seq_gt : ℕ → ℕ → Bool
unfolding sub32
seq_gt a b = ltb 0 (sub32 a b) && ltb (sub32 a b) (2 ^ 31)

-- SeqGeq, seqno_ge
unfoldable pub seq_geq : ℕ → ℕ → Bool
unfolding sub32
seq_geq a b = ltb (sub32 a b) (2 ^ 31)

-- seqno_eq
unfoldable pub seq_eq : ℕ → ℕ → Bool
unfolding sub32
seq_eq a b = sub32 a b == 0
