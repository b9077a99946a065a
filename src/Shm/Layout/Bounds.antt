-- ===== src/Shm/Layout/Bounds.antt =====
-- src/ext/machnet_private.h: the parts of a channel stand apart from each other and inside its memory.
use mathlib.Core.Option.{bind, some_inj}
use machnet.Base.{
  ℕ, zero, suc, ◌+◌, ◌-◌, ◌*◌, ◌/◌, ◌^◌, ◌≡◌, ◌≢◌, ◌≤◌, ◌<◌, refl, sym, ap, ◌∙◌, true, false, not,
  ◌||◌, Bool-cases, Option-cases, inl, inr, Option, none, some, ltb, ◌==◌, arith,
}
use machnet.Base.Bits.{land-le_right, pow_suc}
use machnet.Ring.{jring_get_buf_ring_size}
use machnet.Shm.Layout.{
  is_pow2, bit_length, roundup_u64_pow2, align_to_boundary, cache_line_size, msgbuf_space_reserved,
  headroom_max, sizeof_ctx, sizeof_stats, sizeof_ctrl_entry, sizeof_slot, ctrl_slot_nr, add_ring,
  ring_bytes, total_buffer_size, rings_end, dataplane_calculate_size, dataplane_offsets,
  channel_buf,
}

align-ge : (x p : ℕ) → 0 < p → x ≤ align_to_boundary x p
align-ge x p pos = unfold align_to_boundary in omega (arith, land-le_right 64 (x + p - 1) (p - 1))

bit_length-lt : (w n : ℕ) → n < 2 ^ w → n < 2 ^ bit_length w n
unfolding bit_length
bit_length-lt zero n lt = lt
bit_length-lt (suc w) n lt = elim (Bool-cases (n == 0)) [
  | inl e ↦ rw e (zero_lem n e)
  | inr e ↦
      let half = bit_length-lt w (n / 2) (omega (arith, pow_suc w)) in
      rw e (omega (arith, half, pow_suc (bit_length w (n / 2))))
]
  where
    zero_lem : (n : ℕ) → (n == 0) ≡ true → n < 2 ^ 0
    zero_lem n e = ground arith

roundup-ge : (x : ℕ) → 0 < x → x < 2 ^ 64 → x ≤ roundup_u64_pow2 x
roundup-ge x pos lt =
    unfold roundup_u64_pow2 in omega (arith, bit_length-lt 64 (x - 1) (omega arith))

no_size : (t : ℕ) → none ≢ some t
no_size t = cc

add_ring-some :
    (o r : Option ℕ) (t : ℕ)
    → add_ring o r ≡ some t
    → (x : ℕ) × (o ≡ some x) × (t ≡ x + ring_bytes r)
unfolding add_ring
add_ring-some none r t e = absurd (no_size t e)
add_ring-some (some x) none t e = absurd (no_size t e)
add_ring-some (some x) (some y) t e = (x, refl, sym (some_inj.0 e))

rings_end_lem :
    (m a b t : ℕ)
    → rings_end m a b ≡ some t
    → t
      ≡ sizeof_ctx
        + sizeof_stats
        + ring_bytes (jring_get_buf_ring_size sizeof_ctrl_entry ctrl_slot_nr)
        + ring_bytes (jring_get_buf_ring_size sizeof_ctrl_entry ctrl_slot_nr)
        + ring_bytes (jring_get_buf_ring_size sizeof_slot m)
        + ring_bytes (jring_get_buf_ring_size sizeof_slot a)
        + ring_bytes (jring_get_buf_ring_size sizeof_slot b)
unfolding rings_end
rings_end_lem m a b t e =
    let (x5, e5, s5) = add_ring-some _ _ t e in
    let (x4, e4, s4) = add_ring-some _ _ x5 e5 in
    let (x3, e3, s3) = add_ring-some _ _ x4 e4 in
    let (x2, e2, s2) = add_ring-some _ _ x3 e3 in
    let (x1, e1, s1) = add_ring-some _ _ x2 e2 in omega (arith, s5, s4, s3, s2, s1, some_inj.0 e1)

size_of : ℕ → ℕ → ℕ → ℕ → ℕ
size_of end b bs page =
    align_to_boundary
      (align_to_boundary (align_to_boundary end cache_line_size + b * sizeof_slot) page
        + b * total_buffer_size bs)
      page

-- A size is returned only from the ends of the rings.
calculated :
    (m a b bs page total : ℕ)
    → dataplane_calculate_size m a b bs page ≡ some total
    → (end : ℕ) × (rings_end m a b ≡ some end) × (total ≡ size_of end b bs page)
calculated m a b bs page total e =
    elim (Bool-cases (not (is_pow2 m) || not (is_pow2 a) || not (is_pow2 b))) [
      | inl odd ↦ absurd (no_size total (sym (odd_call odd) ∙ e))
      | inr even ↦ elim (Bool-cases (ltb page bs)) [
        | inl large ↦ absurd (no_size total (sym (large_call even large) ∙ e))
        | inr fits ↦ elim (Option-cases (rings_end m a b)) [
          | inl failed ↦ absurd (no_size total (sym (failed_call even fits failed) ∙ e))
          | inr (end, found) ↦
              (end, found, sym (some_inj.0 (sym (found_call end even fits found) ∙ e)))
        ]
      ]
    ]
  where
    odd_call :
        (not (is_pow2 m) || not (is_pow2 a) || not (is_pow2 b)) ≡ true
        → dataplane_calculate_size m a b bs page ≡ none
    odd_call odd = unfold dataplane_calculate_size in rw odd

    large_call :
        (not (is_pow2 m) || not (is_pow2 a) || not (is_pow2 b)) ≡ false
        → ltb page bs ≡ true
        → dataplane_calculate_size m a b bs page ≡ none
    large_call even large = unfold dataplane_calculate_size in rw (even, large)

    failed_call :
        (not (is_pow2 m) || not (is_pow2 a) || not (is_pow2 b)) ≡ false
        → ltb page bs ≡ false
        → rings_end m a b ≡ none
        → dataplane_calculate_size m a b bs page ≡ none
    failed_call even fits failed = unfold dataplane_calculate_size bind in rw (even, fits, failed)

    found_call :
        (end : ℕ)
        → (not (is_pow2 m) || not (is_pow2 a) || not (is_pow2 b)) ≡ false
        → ltb page bs ≡ false
        → rings_end m a b ≡ some end
        → dataplane_calculate_size m a b bs page ≡ some (size_of end b bs page)
    found_call end even fits found =
        unfold dataplane_calculate_size bind size_of in rw (even, fits, found)

places :
    (end b page one i rest : ℕ)
    → 0 < page
    → b ≡ suc i + rest
    → (end ≤ align_to_boundary end 64)
      × (align_to_boundary end 64 + b * 4
          ≤ align_to_boundary (align_to_boundary end 64 + b * 4) page)
      × (0 ≤ one)
      × (align_to_boundary (align_to_boundary end 64 + b * 4) page + suc i * one
          ≤ align_to_boundary
              (align_to_boundary (align_to_boundary end 64 + b * 4) page + b * one)
              page)
places end b page one i rest pos e =
    let table = align_to_boundary end 64 in
    let pool = align_to_boundary (table + b * 4) page in
    (
      align-ge end 64 (omega arith),
      align-ge (table + b * 4) page pos,
      omega arith,
      omega (arith, align-ge (pool + b * one) page pos, ap (λ k. k * one) e),
    )

-- Take numbers of slots and a size of buffers for which a size of the channel is returned. The ring of
-- free buffers ends before the index table, the table before the pool of buffers; each of the buffers
-- has room for its header, the headroom and as many bytes as asked for before the next one starts; and
-- the last of them ends inside the size returned.
pub dataplane_offsets_fit :
    (machnet_nr app_nr buf_nr buffer_size page total i : ℕ)
    → 0 < page
    → buffer_size < 2 ^ 63
    → dataplane_calculate_size machnet_nr app_nr buf_nr buffer_size page ≡ some total
    → i < buf_nr
    → ((dataplane_offsets machnet_nr app_nr buf_nr buffer_size page).buf_ring_ofs
          + ring_bytes (jring_get_buf_ring_size sizeof_slot buf_nr)
        ≤ (dataplane_offsets machnet_nr app_nr buf_nr buffer_size page).buffer_index_table_ofs)
      × ((dataplane_offsets machnet_nr app_nr buf_nr buffer_size page).buffer_index_table_ofs
            + buf_nr * sizeof_slot
          ≤ (dataplane_offsets machnet_nr app_nr buf_nr buffer_size page).buf_pool_ofs)
      × (channel_buf (dataplane_offsets machnet_nr app_nr buf_nr buffer_size page) i
            + (buffer_size + msgbuf_space_reserved + headroom_max)
          ≤ channel_buf (dataplane_offsets machnet_nr app_nr buf_nr buffer_size page) (suc i))
      × (channel_buf (dataplane_offsets machnet_nr app_nr buf_nr buffer_size page) (suc i) ≤ total)
unfolding dataplane_offsets channel_buf size_of
dataplane_offsets_fit m a b bs page total i pos small e lt =
    let (end, found, size) = calculated m a b bs page total e in
    let at_end = rings_end_lem m a b end found in
    let last = size ∙ ap (λ x. size_of x b bs page) at_end in
    let one = total_buffer_size bs in
    let enough : bs + 192 ≤ one =
      unfold total_buffer_size in
      omega (arith, roundup-ge (bs + 64 + 128) (omega arith) (omega arith)) in
    let some_left : b ≡ suc i + (b - suc i) = omega arith in
    let (r1, r2, r3, r4) = places _ b page one i (b - suc i) pos some_left in
    (r1, r2, omega (arith, enough), omega (arith, r4, last))
