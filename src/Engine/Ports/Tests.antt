-- ===== src/Engine/Ports/Tests.antt =====
-- Inputs of the theorems on the state that engines share, and runs of the functions.
use machnet.Base.{ℕ, ◌%◌, ◌≡◌, refl, Bool, true, not, ◌&&◌, none, some, [], ◌∷◌, arith, ◌==◌}
use machnet.Base.Bits.{land}
use machnet.Base.Bit.{ffs}
use machnet.Base.Maps.{find, insert, nat_eq, pair_eq}
use machnet.Engine.Ports.{
  SharedState, all_free, find_free_port, search_slots, alloc_port, new_shared_state, src_port_alloc,
  src_port_release, register_listener, unregister_listener, is_local_ipv4_address, take_port,
}
use machnet.Engine.Ports.Alloc.{first_port}
use machnet.Engine.Ports.Shared.{port_free, is_port_of, IsSized, src_port_alloc_first}
use machnet.Engine.Ports.Steps.{
  PortStep, PortRun, src_port_alloc_unheard, new-IsFresh, IsFresh-Reserved,
}
use machnet.Engine.Ports.Restore.{release-alloc, unregister-register}

abbrev local_addr : ℕ
local_addr = 0x0a00_0001

abbrev odd : ℕ → Bool
odd p = p % 2 == 1

-- One address, whose bitmap has its first slot only.
abbrev fresh : SharedState
fresh = record { ipv4_port_bitmap = (local_addr, all_free ∷ []) ∷ []; listeners_to_rxq = [] }

fresh_made : new_shared_state (local_addr ∷ []) ≡ some fresh
unfolding new_shared_state find insert
fresh_made = refl

fresh-IsSized : IsSized fresh
fresh-IsSized = (new-IsFresh (local_addr ∷ []) fresh fresh_made).0

first_odd_port : (src_port_alloc odd local_addr fresh).0 ≡ some 1025
unfolding src_port_alloc alloc_port search_slots find_free_port ffs land find insert
first_odd_port = refl

-- A listener on the first port.
abbrev heard : SharedState
heard = (register_listener local_addr 1025 3 fresh).1

next_odd_port : (src_port_alloc odd local_addr heard).0 ≡ some 1027
unfolding src_port_alloc alloc_port search_slots find_free_port ffs land find insert
    register_listener take_port
next_odd_port = refl

src_port_alloc_first_example :
    let (port, s') = src_port_alloc odd local_addr fresh in
    (port ≡ first_port (λ q. port_free fresh local_addr q && odd q) 64512 1024)
    × ((a q : ℕ) → port_free s' a q ≡ (port_free fresh a q && not (is_port_of local_addr a q port)))
    × (s'.listeners_to_rxq ≡ fresh.listeners_to_rxq)
    × ((a : ℕ) → is_local_ipv4_address a s' ≡ is_local_ipv4_address a fresh)
    × IsSized s'
src_port_alloc_first_example = src_port_alloc_first odd local_addr fresh fresh-IsSized

heard_run : PortRun fresh heard
heard_run =
    PortRun.then_step PortRun.start (PortStep.register local_addr 1025 3 fresh (omega arith))

src_port_alloc_unheard_example :
    (find (local_addr, 1027) heard.listeners_to_rxq ≡ none)
    × (is_local_ipv4_address local_addr heard ≡ true)
src_port_alloc_unheard_example =
    src_port_alloc_unheard (local_addr ∷ []) fresh heard odd local_addr 1027 fresh_made heard_run
      next_odd_port

release-alloc_example :
    port_free
      (src_port_release local_addr 1025 (src_port_alloc odd local_addr fresh).1)
      local_addr
      1025
    ≡ port_free fresh local_addr 1025
release-alloc_example =
    release-alloc odd local_addr 1025 fresh fresh-IsSized first_odd_port local_addr 1025

registered : (register_listener local_addr 1025 3 fresh).0 ≡ true
unfolding register_listener take_port find land
registered = refl

unregister-register_example :
    let s' = unregister_listener local_addr 1025 heard in
    (port_free s' local_addr 1025 ≡ port_free fresh local_addr 1025)
    × (find (local_addr, 1025) s'.listeners_to_rxq ≡ find (local_addr, 1025) fresh.listeners_to_rxq)
unregister-register_example =
    unregister-register local_addr 1025 3 fresh
      (IsFresh-Reserved fresh (new-IsFresh (local_addr ∷ []) fresh fresh_made)) (omega arith)
      registered local_addr 1025 (local_addr, 1025)
