-- ===== src/Engine/Ports/Release.antt =====
-- src/include/machnet_engine.h, `SrcPortRelease` and `UnregisterListener`.
use mathlib.Core.Path.{subst}
use machnet.Base.{
  ℕ, zero, suc, ◌/◌, ◌%◌, ◌<◌, ◌≤◌, ◌≡◌, refl, sym, ap, ◌∙◌, Bool, true, false, ◌&&◌, ◌||◌, none,
  some, List, [], ◌∷◌, inl, inr, arith, Bool-cases, Option-cases, length, get_or, length-set, ltb,
  ◌==◌, ==_iff, if◌then◌else◌,
}
use machnet.Base.Bit.{bit, bit-ones}
use machnet.Base.Maps.{find, insert, nat_eq, pair_eq}
use machnet.Engine.Ports.{
  release_port, all_free, SharedState, is_local_ipv4_address, src_port_release,
}
use machnet.Engine.Ports.First.{is_free}
use machnet.Engine.Ports.Alloc.{release_port_lem}
use machnet.Engine.Ports.Shared.{
  port_free, IsSized, IsSized-insert, port_free-insert, is_local-insert, port_free_there,
}

get_or_outside : (xs : List ℕ) (i d : ℕ) → length xs ≤ i → get_or xs i d ≡ d
get_or_outside [] i d h = refl
get_or_outside (x ∷ xs) zero d h = absurd (omega arith)
get_or_outside (x ∷ xs) (suc i) d h = get_or_outside xs i d (omega arith)

-- A port that is not free at a local address stands in a slot of the bitmap.
busy_slot : (bitmap : List ℕ) (p : ℕ) → is_free bitmap p ≡ false → p / 64 < length bitmap
busy_slot bitmap p e = elim (Bool-cases (ltb (p / 64) (length bitmap))) [
  | inl inside ↦ ground (arith, inside)
  | inr outside ↦
      let past = get_or_outside bitmap (p / 64) all_free (ground (arith, outside)) in
      let one = ap (bit (p % 64)) past ∙ bit-ones 64 (p % 64) (omega arith) in
      let open_port : is_free bitmap p ≡ true = ap (λ b. b == 1) one in
      absurd (cc (sym e ∙ open_port))
]

length-release_port : (p : ℕ) (bitmap : List ℕ) → length (release_port p bitmap) ≡ length bitmap
unfolding release_port
length-release_port p bitmap = length-set bitmap (p / 64) _

module _ (addr port : ℕ) (s : SharedState) where
  src_port_release_there :
      (bitmap : List ℕ)
      → find addr s.ipv4_port_bitmap ≡ some bitmap
      → src_port_release addr port s
        ≡ record s { ipv4_port_bitmap = insert addr (release_port port bitmap) s.ipv4_port_bitmap }
  unfolding src_port_release
  src_port_release_there bitmap e = rw (e, src_port_release) refl

  abbrev pub Releases : SharedState → Type 0
  Releases r =
      ((a q : ℕ) → port_free r a q ≡ (port_free s a q || (addr == a && q == port)))
      × (r.listeners_to_rxq ≡ s.listeners_to_rxq)
      × ((a : ℕ) → is_local_ipv4_address a r ≡ is_local_ipv4_address a s)
      × IsSized r

  freed :
      (bitmap : List ℕ)
      → find addr s.ipv4_port_bitmap ≡ some bitmap
      → port / 64 < length bitmap
      → (a q : ℕ)
      → (if addr == a then is_free (release_port port bitmap) q else port_free s a q)
        ≡ (port_free s a q || (addr == a && q == port))
  freed bitmap there inside a q = elim (Bool-cases (addr == a)) [
    | inl at ↦
        let here : addr ≡ a = (==_iff addr a).0 at in
        let free = sym (ap (λ x. port_free s x q) here) ∙ port_free_there addr s bitmap q there in
        rw (at, free)
          (release_port_lem port q bitmap inside ∙ or_comm (q == port) (is_free bitmap q))
    | inr apart ↦ rw apart (ground arith)
  ]
    where
      or_comm : (a b : Bool) → (a || b) ≡ (b || a)
      or_comm true true = refl
      or_comm true false = refl
      or_comm false true = refl
      or_comm false false = refl

  -- A port that was taken is free after its release, and no other changes.
  pub src_port_release-Releases :
      is_local_ipv4_address addr s ≡ true
      → IsSized s
      → port_free s addr port ≡ false
      → Releases (src_port_release addr port s)
  unfolding is_local_ipv4_address
  src_port_release-Releases local h busy = elim (Option-cases (find addr s.ipv4_port_bitmap)) [
    | inl missing ↦
        absurd (cc (sym local ∙ ap (λ o. elim o [ none ↦ false | some v ↦ true ]) missing))
    | inr (bitmap, there) ↦
        let inside =
          busy_slot bitmap port (sym (port_free_there addr s bitmap port there) ∙ busy) in
        subst Releases (sym (src_port_release_there bitmap there)) (
          λ a q.
              port_free-insert s addr a q (release_port port bitmap)
              ∙ freed bitmap there inside a q,
          refl,
          λ a. is_local-insert s addr a bitmap (release_port port bitmap) there,
          IsSized-insert s addr (release_port port bitmap) h
              (omega (arith, length-release_port port bitmap, h.sized addr bitmap there)),
        )
  ]
