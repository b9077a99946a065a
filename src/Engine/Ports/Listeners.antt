-- ===== src/Engine/Ports/Listeners.antt =====
-- src/include/machnet_engine.h, `RegisterListener`.
use mathlib.Core.Path.{subst}
use machnet.Base.{
  ℕ, ◌+◌, ◌-◌, ◌*◌, ◌/◌, ◌%◌, ◌^◌, ◌<◌, ◌≤◌, ◌≡◌, refl, sym, ap, ◌∙◌, Bool, true, false, not, ◌&&◌,
  none, some, List, inl, inr, arith, Bool-cases, Option-cases, length, get_or, replicate,
  length-append, length-set, length-replicate, ◌==◌, ==_iff, if◌then◌else◌,
}
use machnet.Base.Bits.{land, pow_pos}
use machnet.Base.Bit.{bit, bit_cases, land-power}
use machnet.Base.Maps.{find, insert, nat_eq, pair_eq, find-insert}
use machnet.Engine.Ports.{
  take_port, clear_bit, grow, all_free, SharedState, is_local_ipv4_address, register_listener,
}
use machnet.Engine.Ports.First.{is_free}
use machnet.Engine.Ports.Alloc.{is_free-grow, Took, taken-Took, get_or_inside}
use machnet.Engine.Ports.Shared.{
  port_free, IsSized, IsSized-insert, port_free-insert, is_local-insert, port_free_there,
  port_free_missing, port_free-kept,
}

-- `RegisterListener` takes the port if it is free.
abbrev Takes : ℕ → List ℕ → Bool × List ℕ → Type 0
Takes p bitmap r = (r.0 ≡ is_free bitmap p) × Took bitmap r.1 (some p) × (length r.1 ≤ 1024)

take_port-Takes :
    (p : ℕ) (bitmap : List ℕ)
    → length bitmap ≤ 1024
    → p < 2 ^ 16
    → Takes p bitmap (take_port p bitmap)
unfolding take_port
take_port-Takes p bitmap le small =
    let n = p / 64 + 1 - length bitmap in
    let longer = grow (p / 64 + 1) bitmap in
    let size : length longer ≡ length bitmap + n =
      length-append bitmap (replicate n all_free)
      ∙ ap (λ k. length bitmap + k) (length-replicate n all_free) in
    let inside : p / 64 < length longer = omega (arith, size) in
    let word = get_or longer (p / 64) 0 in
    let tested = land-power 64 (p % 64) word (omega arith) in
    let same : (q : ℕ) → is_free longer q ≡ is_free bitmap q = is_free-grow bitmap n in
    let free : (bit (p % 64) word == 1) ≡ is_free bitmap p =
      ap (λ w. bit (p % 64) w == 1) (get_or_inside longer (p / 64) 0 all_free inside) ∙ same p in
    elim (bit_cases (p % 64) word) [
      | inl used ↦
          let zero_word : (land 64 word (2 ^ (p % 64)) == 0) ≡ true =
            ground (arith, tested ∙ ap (λ b. b * 2 ^ (p % 64)) used) in
          let busy : is_free bitmap p ≡ false = sym free ∙ ap (λ b. b == 1) used in
          rw zero_word
            (sym busy, λ q. same q ∙ without p q bitmap busy, omega (arith, size, le, small))
      | inr open_bit ↦
          let nonzero : (land 64 word (2 ^ (p % 64)) == 0) ≡ false =
            ground (arith, tested ∙ ap (λ b. b * 2 ^ (p % 64)) open_bit, pow_pos (p % 64)) in
          let idle : is_free bitmap p ≡ true = sym free ∙ ap (λ b. b == 1) open_bit in
          rw nonzero (
            sym idle,
            λ q.
                taken-Took longer (some p)
                  (λ r h. subst (λ k. k / 64 < length longer) (cc h) inside) q
                ∙ ap (λ b. b && not (q == p)) (same q),
            omega (arith, length-set longer (p / 64) (clear_bit word (p % 64)), size, le, small),
          )
    ]
  where
    without :
        (p q : ℕ) (bitmap : List ℕ)
        → is_free bitmap p ≡ false
        → is_free bitmap q ≡ (is_free bitmap q && not (q == p))
    without p q bitmap busy = elim (Bool-cases (q == p)) [
      | inl at ↦
          let eq : q ≡ p = (==_iff q p).0 at in
          let closed : is_free bitmap q ≡ false = ap (is_free bitmap) eq ∙ busy in
          rw (at, closed) refl
      | inr apart ↦ rw apart (ground arith)
    ]

module _ (addr port rxq : ℕ) (s : SharedState) where
  -- The state after a registration
  abbrev pub Registers : Bool × SharedState → Type 0
  Registers r =
      (r.0 ≡ port_free s addr port)
      × ((a q : ℕ) → port_free r.1 a q ≡ (port_free s a q && not (addr == a && q == port)))
      × ((k : ℕ × ℕ)
          → find k r.1.listeners_to_rxq
            ≡ (if r.0 && pair_eq.beq (addr, port) k then some rxq else find k s.listeners_to_rxq))
      × ((a : ℕ) → is_local_ipv4_address a r.1 ≡ is_local_ipv4_address a s)
      × IsSized r.1

  abbrev after_take : Bool × List ℕ → Bool × SharedState
  after_take (free, bitmap') =
      let s' = record s { ipv4_port_bitmap = insert addr bitmap' s.ipv4_port_bitmap } in
      if free
      then (true, record s' { listeners_to_rxq = insert (addr, port) rxq s.listeners_to_rxq })
      else (false, s')

  register_missing :
      find addr s.ipv4_port_bitmap ≡ none → register_listener addr port rxq s ≡ (false, s)
  unfolding register_listener
  register_missing e = rw (e, register_listener) refl

  register_there :
      (bitmap : List ℕ)
      → find addr s.ipv4_port_bitmap ≡ some bitmap
      → register_listener addr port rxq s ≡ after_take (take_port port bitmap)
  unfolding register_listener
  register_there bitmap e = rw (e, register_listener) refl

  is_local_there :
      (a : ℕ) (bitmap bitmap' : List ℕ)
      → find addr s.ipv4_port_bitmap ≡ some bitmap
      → (ls : List ((ℕ × ℕ) × ℕ))
      → is_local_ipv4_address a (record {
        ipv4_port_bitmap = insert addr bitmap' s.ipv4_port_bitmap;
        listeners_to_rxq = ls;
      })
        ≡ is_local_ipv4_address a s
  unfolding is_local_ipv4_address
  is_local_there a bitmap bitmap' there ls = is_local-insert s addr a bitmap bitmap' there

  after_take-Registers :
      (bitmap : List ℕ)
      → IsSized s
      → find addr s.ipv4_port_bitmap ≡ some bitmap
      → (r : Bool × List ℕ) → Takes port bitmap r
      → Registers (after_take r)
  after_take-Registers bitmap h there (true, bitmap') (ok, took, size) = (
    ok ∙ sym (port_free_there addr s bitmap port there),
    λ a q.
        port_free-insert s addr a q bitmap'
        ∙ port_free-kept addr s bitmap bitmap' (some port) there took a q,
    λ k. find-insert (addr, port) k rxq s.listeners_to_rxq,
    λ a. is_local_there a bitmap bitmap' there (insert (addr, port) rxq s.listeners_to_rxq),
    record { sized = (IsSized-insert s addr bitmap' h size).sized },
  )
  after_take-Registers bitmap h there (false, bitmap') (ok, took, size) = (
    ok ∙ sym (port_free_there addr s bitmap port there),
    λ a q.
        port_free-insert s addr a q bitmap'
        ∙ port_free-kept addr s bitmap bitmap' (some port) there took a q,
    λ k. refl,
    λ a. is_local_there a bitmap bitmap' there s.listeners_to_rxq,
    IsSized-insert s addr bitmap' h size,
  )

  unchanged :
      find addr s.ipv4_port_bitmap ≡ none
      → (a q : ℕ) → port_free s a q ≡ (port_free s a q && not (addr == a && q == port))
  unchanged missing a q = elim (Bool-cases (addr == a)) [
    | inl at ↦
        let here : addr ≡ a = (==_iff addr a).0 at in
        let closed = sym (ap (λ x. port_free s x q) here) ∙ port_free_missing addr s q missing in
        rw closed refl
    | inr apart ↦ rw apart (ground arith)
  ]

  pub register_listener-Registers :
      IsSized s → port < 2 ^ 16 → Registers (register_listener addr port rxq s)
  register_listener-Registers h small = elim (Option-cases (find addr s.ipv4_port_bitmap)) [
    | inl missing ↦
        subst Registers (sym (register_missing missing))
          (sym (port_free_missing addr s port missing), unchanged missing, λ k. refl, λ a. refl, h)
    | inr (bitmap, there) ↦ subst Registers (sym (register_there bitmap there)) (
        after_take-Registers bitmap h there (take_port port bitmap)
          (take_port-Takes port bitmap (h.sized addr bitmap there) small))
  ]
