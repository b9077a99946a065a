-- ===== src/Shm/Layout.antt =====
-- src/ext/machnet_private.h: the size of a channel and the places of its parts.
--
-- The page size is an argument: that of the system, which getpagesize tells, or of a huge page. Sums of
-- sizes are written without the wrap of 64 bits, which the bounds on slots and buffers keep them below.
mod Bounds
mod Tests
use mathlib.Core.Option.{bind}
use machnet.Base.{
  ℕ, zero, suc, ◌+◌, ◌-◌, ◌*◌, ◌/◌, ◌^◌, Bool, not, ◌||◌, Option, none, some, ltb, ◌==◌,
  if◌then◌else◌,
}
use machnet.Base.Bits.{land}
use machnet.Ring.{jring_get_buf_ring_size}

-- IS_POW2, of 64-bit numbers; it holds of 0.
unfoldable pub is_pow2 : ℕ → Bool
is_pow2 x = land 64 x (x - 1) == 0

-- The number of bits of n, of which w are looked at: w less the leading zeros.
unfoldable pub bit_length : ℕ → ℕ → ℕ
bit_length zero n = 0
bit_length (suc w) n = let rest = bit_length w (n / 2) in if n == 0 then 0 else suc rest

-- ROUNDUP_U64_POW2
unfoldable pub roundup_u64_pow2 : ℕ → ℕ
roundup_u64_pow2 x = 2 ^ bit_length 64 (x - 1)

-- ALIGN_TO_BOUNDARY; a & ~b is a less a & b.
unfoldable pub align_to_boundary : ℕ → ℕ → ℕ
align_to_boundary x pagesz = x + pagesz - 1 - land 64 (x + pagesz - 1) (pagesz - 1)

abbrev pub cache_line_size : ℕ
cache_line_size = 64

abbrev pub msgbuf_space_reserved : ℕ
msgbuf_space_reserved = 64

abbrev pub headroom_max : ℕ
headroom_max = 128

abbrev pub sizeof_ctx : ℕ
sizeof_ctx = 832

abbrev pub sizeof_stats : ℕ
sizeof_stats = 64

abbrev pub sizeof_ctrl_entry : ℕ
sizeof_ctrl_entry = 32

abbrev pub sizeof_slot : ℕ
sizeof_slot = 4

abbrev pub ctrl_slot_nr : ℕ
ctrl_slot_nr = 2

-- The size so far and that of a ring; `none` is the error -1.
unfoldable pub add_ring : Option ℕ → Option ℕ → Option ℕ
add_ring none acc = none
add_ring (some size) none = none
add_ring (some size) (some acc) = some (size + acc)

unfoldable pub total_buffer_size : ℕ → ℕ
total_buffer_size buffer_size =
    roundup_u64_pow2 (buffer_size + msgbuf_space_reserved + headroom_max)

-- The end of the rings.
unfoldable pub rings_end : ℕ → ℕ → ℕ → Option ℕ
rings_end machnet_nr app_nr buf_nr =
    add_ring
      (add_ring
        (add_ring
          (add_ring
            (add_ring (some (sizeof_ctx + sizeof_stats))
              (jring_get_buf_ring_size sizeof_ctrl_entry ctrl_slot_nr))
            (jring_get_buf_ring_size sizeof_ctrl_entry ctrl_slot_nr))
          (jring_get_buf_ring_size sizeof_slot machnet_nr))
        (jring_get_buf_ring_size sizeof_slot app_nr))
      (jring_get_buf_ring_size sizeof_slot buf_nr)

unfoldable pub dataplane_calculate_size : ℕ → ℕ → ℕ → ℕ → ℕ → Option ℕ
dataplane_calculate_size machnet_nr app_nr buf_nr buffer_size page =
    if not (is_pow2 machnet_nr) || not (is_pow2 app_nr) || not (is_pow2 buf_nr)
    then none
    else if ltb page buffer_size
    then none
    else bind (rings_end machnet_nr app_nr buf_nr) (λ end. some (
        align_to_boundary
          (align_to_boundary (align_to_boundary end cache_line_size + buf_nr * sizeof_slot) page
            + buf_nr * total_buffer_size buffer_size)
          page))

pub record DataCtx : Type 0 where
  pub stats_ofs : ℕ
  pub ctrl_sq_ring_ofs : ℕ
  pub ctrl_cq_ring_ofs : ℕ
  pub machnet_ring_ofs : ℕ
  pub app_ring_ofs : ℕ
  pub buf_ring_ofs : ℕ
  pub buffer_index_table_ofs : ℕ
  pub buf_pool_ofs : ℕ
  pub buf_pool_mask : ℕ
  pub buf_size : ℕ
  pub buf_mss : ℕ

-- What is added for a ring; -1 is the largest size_t.
abbrev pub ring_bytes : Option ℕ → ℕ
ring_bytes none = 2 ^ 64 - 1
ring_bytes (some size) = size

unfoldable pub dataplane_offsets : ℕ → ℕ → ℕ → ℕ → ℕ → DataCtx
dataplane_offsets machnet_nr app_nr buf_nr buffer_size page =
    let stats = sizeof_ctx in
    let sq = stats + sizeof_stats in
    let cq = sq + ring_bytes (jring_get_buf_ring_size sizeof_ctrl_entry ctrl_slot_nr) in
    let machnet = cq + ring_bytes (jring_get_buf_ring_size sizeof_ctrl_entry ctrl_slot_nr) in
    let app = machnet + ring_bytes (jring_get_buf_ring_size sizeof_slot machnet_nr) in
    let buf = app + ring_bytes (jring_get_buf_ring_size sizeof_slot app_nr) in
    let buf_ring_end = buf + ring_bytes (jring_get_buf_ring_size sizeof_slot buf_nr) in
    let table = align_to_boundary buf_ring_end cache_line_size in
    record {
      stats_ofs = stats;
      ctrl_sq_ring_ofs = sq;
      ctrl_cq_ring_ofs = cq;
      machnet_ring_ofs = machnet;
      app_ring_ofs = app;
      buf_ring_ofs = buf;
      buffer_index_table_ofs = table;
      buf_pool_ofs = align_to_boundary (table + buf_nr * sizeof_slot) page;
      buf_pool_mask = buf_nr - 1;
      buf_size = total_buffer_size buffer_size;
      buf_mss = buffer_size;
    }

-- Where the buffer i starts.
unfoldable pub channel_buf : DataCtx → ℕ → ℕ
channel_buf ctx index = ctx.buf_pool_ofs + index * ctx.buf_size
