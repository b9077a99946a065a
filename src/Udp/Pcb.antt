-- ===== src/Udp/Pcb.antt =====
-- src/include/cc.h: the protocol control block of a UDP flow.
use machnet.Base.{
  ℕ, ◌+◌, ◌*◌, ◌/◌, ◌%◌, ◌^◌, Bool, true, false, Option, none, some, List, [], ◌∷◌, set, get_or,
  replicate, ltb, leb, ◌==◌, if◌then◌else◌, add32, sub32,
}

abbrev pub initial_cwnd : ℕ
initial_cwnd = 32

abbrev pub sack_bitmap_size : ℕ
sack_bitmap_size = 256

abbrev pub rexmit_threshold : ℕ
rexmit_threshold = 3

abbrev pub rto_threshold_in_ticks : ℕ
rto_threshold_in_ticks = 3

-- `rto_timer` is `none` where the source has kRtoDisabled, -1. The bitmap is the array of 32 words.
pub record Pcb : Type 0 where
  pub target_delay : ℕ
  pub snd_nxt : ℕ
  pub snd_una : ℕ
  pub snd_ooo_acks : ℕ
  pub rcv_nxt : ℕ
  pub sack_bitmap : List ℕ
  pub sack_bitmap_count : ℕ
  pub cwnd : ℕ
  pub duplicate_acks : ℕ
  pub rto_timer : Option ℕ
  pub fast_rexmits : ℕ
  pub rto_rexmits : ℕ

unfoldable pub new_pcb : Pcb
new_pcb = record {
  target_delay = 0;
  snd_nxt = 0;
  snd_una = 0;
  snd_ooo_acks = 0;
  rcv_nxt = 0;
  sack_bitmap = replicate 32 0;
  sack_bitmap_count = 0;
  cwnd = initial_cwnd;
  duplicate_acks = 0;
  rto_timer = none;
  fast_rexmits = 0;
  rto_rexmits = 0;
}

-- In packets; 0 where the unsigned difference went below 0.
unfoldable pub effective_wnd : Pcb → ℕ
unfolding sub32
effective_wnd p =
    let wnd = sub32 p.cwnd (sub32 (sub32 p.snd_nxt p.snd_una) p.snd_ooo_acks) in
    if ltb p.cwnd wnd then 0 else wnd

-- The number to use, and the block after it.
unfoldable pub get_snd_nxt : Pcb → ℕ × Pcb
unfolding add32
get_snd_nxt p = (p.snd_nxt, record p { snd_nxt = add32 p.snd_nxt 1 })

abbrev pub max_rexmits_reached : Pcb → Bool
max_rexmits_reached p = leb rexmit_threshold p.rto_rexmits

abbrev pub rto_disabled : Pcb → Bool
rto_disabled p = elim p.rto_timer [ none ↦ true | some t ↦ false ]

abbrev pub rto_expired : Pcb → Bool
rto_expired p = elim p.rto_timer [ none ↦ false | some t ↦ leb rto_threshold_in_ticks t ]

unfoldable pub advance_rcv_nxt : Pcb → Pcb
unfolding add32
advance_rcv_nxt p = record p { rcv_nxt = add32 p.rcv_nxt 1 }

abbrev pub rto_enable : Pcb → Pcb
rto_enable p = record p { rto_timer = some 0 }

abbrev pub rto_disable : Pcb → Pcb
rto_disable p = record p { rto_timer = none }

abbrev pub rto_reset : Pcb → Pcb
rto_reset p = rto_enable p

unfoldable pub rto_maybe_reset : Pcb → Pcb
rto_maybe_reset p = if p.snd_una == p.snd_nxt then rto_disable p else rto_reset p

-- -1 + 1 is 0.
unfoldable pub rto_advance : Pcb → Pcb
rto_advance p = record p { rto_timer = elim p.rto_timer [ none ↦ some 0 | some t ↦ some (t + 1) ] }

-- Each word gets the lowest bit of the one before it as its highest.
unfoldable pub shift_words : ℕ → List ℕ → List ℕ
shift_words left [] = []
shift_words left (w ∷ ws) = (w / 2 + left % 2 * 2 ^ 63) ∷ shift_words w ws

unfoldable pub sack_bitmap_shift_right_one : Pcb → Pcb
unfolding shift_words
sack_bitmap_shift_right_one p = record p {
  sack_bitmap = shift_words 0 p.sack_bitmap;
  sack_bitmap_count = (p.sack_bitmap_count + 255) % 256;
}

-- w | (1 << i)
abbrev pub set_bit : ℕ → ℕ → ℕ
set_bit w i = if w / 2 ^ i % 2 == 1 then w else w + 2 ^ i

-- `none` is LOG_IF(FATAL): the process ends. A bucket counts as sizeof(uint64_t), 8, bits.
unfoldable pub sack_bitmap_bit_set : ℕ → Pcb → Option Pcb
sack_bitmap_bit_set index p =
    if leb sack_bitmap_size index
    then none
    else some (record p {
      sack_bitmap =
          set p.sack_bitmap (index / 8) (set_bit (get_or p.sack_bitmap (index / 8) 0) (index % 8));
      sack_bitmap_count = (p.sack_bitmap_count + 1) % 256;
    })
