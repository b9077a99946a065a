-- ===== src/Shm/Layout/Tests.antt =====
-- Runs of the layout of a channel on concrete inputs.
use mathlib.Core.Option.{bind}
use machnet.Base.{ℕ, ◌+◌, ◌*◌, ◌≤◌, ◌≡◌, refl, some, none, arith}
use machnet.Base.Bits.{land}
use machnet.Ring.{jring_get_buf_ring_size}
use machnet.Shm.Layout.{
  dataplane_calculate_size, dataplane_offsets, channel_buf, ring_bytes, rings_end, add_ring,
  align_to_boundary, total_buffer_size, roundup_u64_pow2, is_pow2, bit_length,
}
use machnet.Shm.Layout.Bounds.{dataplane_offsets_fit}

abbrev size_of_small : ℕ
size_of_small = 12288

small_size : dataplane_calculate_size 8 8 8 500 4096 ≡ some size_of_small
unfolding dataplane_calculate_size bind is_pow2 land rings_end add_ring jring_get_buf_ring_size
    align_to_boundary total_buffer_size roundup_u64_pow2 bit_length
small_size = refl

-- The test for a power of two lets 0 pass, which the ring then refuses.
no_slots : dataplane_calculate_size 0 8 8 500 4096 ≡ none
unfolding dataplane_calculate_size bind is_pow2 land rings_end add_ring jring_get_buf_ring_size
no_slots = refl

dataplane_offsets_fit_example :
    ((dataplane_offsets 8 8 8 500 4096).buf_ring_ofs + ring_bytes (jring_get_buf_ring_size 4 8)
      ≤ (dataplane_offsets 8 8 8 500 4096).buffer_index_table_ofs)
    × ((dataplane_offsets 8 8 8 500 4096).buffer_index_table_ofs + 8 * 4
        ≤ (dataplane_offsets 8 8 8 500 4096).buf_pool_ofs)
    × (channel_buf (dataplane_offsets 8 8 8 500 4096) 7 + (500 + 64 + 128)
        ≤ channel_buf (dataplane_offsets 8 8 8 500 4096) 8)
    × (channel_buf (dataplane_offsets 8 8 8 500 4096) 8 ≤ size_of_small)
dataplane_offsets_fit_example =
    dataplane_offsets_fit 8 8 8 500 4096 size_of_small 7 (omega arith) (omega arith) small_size
      (omega arith)
