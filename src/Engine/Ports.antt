-- ===== src/Engine/Ports.antt =====
-- src/include/machnet_engine.h, class MachnetEngineSharedState: the bitmaps of source ports, where a
-- set bit is a free port, and the listeners.
mod First
mod Alloc
mod Search
pub mod Shared
pub mod Listeners
pub mod Release
pub mod Reserved
pub mod Steps
pub mod Restore
mod Tests
use machnet.Base.{
  ℕ, zero, suc, ◌+◌, ◌-◌, ◌*◌, ◌/◌, ◌%◌, ◌^◌, Bool, true, false, Option, none, some, List, [], ◌∷◌,
  ◌++◌, length, get_or, set, replicate, ltb, leb, ◌==◌, if◌then◌else◌,
}
use machnet.Base.Bits.{land}
use machnet.Base.Bit.{lor, ffs, complement, shift_left}
use machnet.Base.Maps.{find, insert, erase, contains, nat_eq, pair_eq}

abbrev pub src_port_min : ℕ
src_port_min = 2 ^ 10

abbrev pub src_port_max : ℕ
src_port_max = 2 ^ 16 - 1

abbrev pub src_port_bitmap_size : ℕ
src_port_bitmap_size = (src_port_max + 1) / 8 / 8

abbrev pub bits_per_slot : ℕ
bits_per_slot = 64

-- ~0ULL
abbrev pub all_free : ℕ
all_free = 2 ^ 64 - 1

-- `resize` to a larger size
abbrev pub grow : ℕ → List ℕ → List ℕ
grow n bitmap = bitmap ++ replicate (n - length bitmap) all_free

abbrev pub clear_bit : ℕ → ℕ → ℕ
clear_bit word k = land 64 word (complement 64 (2 ^ k))

module _ (suitable : ℕ → Bool) where
  -- The `do ... while` of `find_free_port`. The found position rises in each round and ends at 64, so
  -- fuel for 65 rounds is enough.
  unfoldable pub find_free_port : ℕ → ℕ → List ℕ → ℕ → Option ℕ × List ℕ
  find_free_port zero mask bitmap index = (none, bitmap)
  find_free_port (suc fuel) mask bitmap index =
      let word = get_or bitmap index 0 in
      let pos = ffs 64 (land 64 word mask) in
      let candidate_port = index * bits_per_slot + pos - 1 in
      let rest = find_free_port fuel (shift_left 64 all_free pos) bitmap index in
      if pos == 0
      then (none, bitmap)
      else if ltb src_port_max candidate_port
      then (none, bitmap)
      else if suitable candidate_port
      then (some candidate_port, set bitmap index (clear_bit word (pos - 1)))
      else if pos == 64
      then (none, bitmap)
      else rest

  -- The `for` over the slots from `i` on; `n` slots are left.
  unfoldable pub search_slots : ℕ → ℕ → List ℕ → Option ℕ × List ℕ
  search_slots zero i bitmap = (none, bitmap)
  search_slots (suc n) i bitmap =
      let rest = search_slots n (i + 1) bitmap in
      let (port, bitmap') = find_free_port 65 all_free bitmap i in
      if get_or bitmap i 0 == 0
      then rest
      else elim port [ some p ↦ (some p, bitmap') | none ↦ rest ]

  -- The `while` that adds slots; `n` of them can be added.
  unfoldable pub add_slots : ℕ → List ℕ → Option ℕ × List ℕ
  add_slots zero bitmap = (none, bitmap)
  add_slots (suc n) bitmap =
      let longer = bitmap ++ all_free ∷ [] in
      let rest = add_slots n longer in
      let (port, bitmap') = find_free_port 65 all_free longer (length longer - 1) in
      elim port [ some p ↦ (some p, bitmap') | none ↦ rest ]

  -- `SrcPortAlloc` on the bitmap of an address
  unfoldable pub alloc_port : List ℕ → Option ℕ × List ℕ
  alloc_port bitmap =
      let first_valid_slot = src_port_min / bits_per_slot in
      let bitmap1 = grow (first_valid_slot + 1) bitmap in
      let (port, bitmap2) =
        search_slots (length bitmap1 - first_valid_slot) first_valid_slot bitmap1 in
      elim port [
        | some p ↦ (some p, bitmap2)
        | none ↦ add_slots (src_port_bitmap_size - length bitmap2) bitmap2
      ]

-- `SrcPortReleaseLocked` on the bitmap of an address. The write past the end of a bitmap that is too
-- short is left out.
unfoldable pub release_port : ℕ → List ℕ → List ℕ
release_port p bitmap =
    let slot = p / bits_per_slot in
    set bitmap slot (lor 64 (get_or bitmap slot 0) (2 ^ (p % bits_per_slot)))

-- `RegisterListener` on the bitmap of an address: whether the port was free, and the bitmap.
unfoldable pub take_port : ℕ → List ℕ → Bool × List ℕ
take_port p bitmap =
    let slot = p / bits_per_slot in
    let k = p % bits_per_slot in
    let longer = grow (slot + 1) bitmap in
    let word = get_or longer slot 0 in
    if land 64 word (2 ^ k) == 0
    then (false, longer)
    else (true, set longer slot (clear_bit word k))

-- The maps: addresses to bitmaps, and an address with a port to the receive queue of its listener.
pub record SharedState : Type 0 where
  pub ipv4_port_bitmap : List (ℕ × List ℕ)
  pub listeners_to_rxq : List ((ℕ × ℕ) × ℕ)

unfoldable pub is_local_ipv4_address : ℕ → SharedState → Bool
is_local_ipv4_address addr s = contains addr s.ipv4_port_bitmap

unfoldable pub src_port_alloc : (ℕ → Bool) → ℕ → SharedState → Option ℕ × SharedState
src_port_alloc suitable addr s = elim (find addr s.ipv4_port_bitmap) [
  | none ↦ (none, s)
  | some bitmap ↦
      let (port, bitmap') = alloc_port suitable bitmap in
      (port, record s { ipv4_port_bitmap = insert addr bitmap' s.ipv4_port_bitmap })
]

unfoldable pub src_port_release : ℕ → ℕ → SharedState → SharedState
src_port_release addr port s = elim (find addr s.ipv4_port_bitmap) [
  | none ↦ s
  | some bitmap ↦ record s {
    ipv4_port_bitmap = insert addr (release_port port bitmap) s.ipv4_port_bitmap;
  }
]

unfoldable pub register_listener : ℕ → ℕ → ℕ → SharedState → Bool × SharedState
register_listener addr port rx_queue_id s = elim (find addr s.ipv4_port_bitmap) [
  | none ↦ (false, s)
  | some bitmap ↦
      let (free, bitmap') = take_port port bitmap in
      let s' = record s { ipv4_port_bitmap = insert addr bitmap' s.ipv4_port_bitmap } in
      if free
      then (
        true,
        record s' { listeners_to_rxq = insert (addr, port) rx_queue_id s.listeners_to_rxq },
      )
      else (false, s')
]

unfoldable pub unregister_listener : ℕ → ℕ → SharedState → SharedState
unregister_listener addr port s = elim (find (addr, port) s.listeners_to_rxq) [
  | none ↦ s
  | some q ↦
      src_port_release addr port
        (record s { listeners_to_rxq = erase (addr, port) s.listeners_to_rxq })
]

-- The constructor: each address with a bitmap of one slot. The CHECK refuses an address that is given
-- twice; `none` is the end of the process.
unfoldable pub new_shared_state : List ℕ → Option SharedState
new_shared_state [] = some (record { ipv4_port_bitmap = []; listeners_to_rxq = [] })
new_shared_state (addr ∷ addrs) = elim (new_shared_state addrs) [
  | none ↦ none
  | some s ↦
      if contains addr s.ipv4_port_bitmap
      then none
      else some (record s { ipv4_port_bitmap = insert addr (all_free ∷ []) s.ipv4_port_bitmap })
]
