-- ===== src/Seq/Tests.antt =====
-- Inputs of the theorems on sequence numbers.
use machnet.Base.{◌≡◌, refl, true, arith, ltb, leb, ◌==◌, add32}
use machnet.Seq.{seq_lt, seq_leq, seq_gt, seq_geq, seq_eq}
use machnet.Seq.Order.{seq_window}

-- The comparison goes across the wrap.
seq_lt_wraps : seq_lt 0xffff_fff0 5 ≡ true
unfolding seq_lt
seq_lt_wraps = refl

seq_window_example :
    (seq_lt (add32 0xffff_fff0 3) (add32 0xffff_fff0 40) ≡ ltb 3 40)
    × (seq_leq (add32 0xffff_fff0 3) (add32 0xffff_fff0 40) ≡ leb 3 40)
    × (seq_gt (add32 0xffff_fff0 3) (add32 0xffff_fff0 40) ≡ ltb 40 3)
    × (seq_geq (add32 0xffff_fff0 3) (add32 0xffff_fff0 40) ≡ leb 40 3)
    × (seq_eq (add32 0xffff_fff0 3) (add32 0xffff_fff0 40) ≡ (3 == 40))
seq_window_example = seq_window 0xffff_fff0 3 40 (omega arith) (omega arith) (omega arith)
