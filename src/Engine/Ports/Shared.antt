-- ===== src/Engine/Ports/Shared.antt =====
-- src/include/machnet_engine.h, class MachnetEngineSharedState: which ports are free after each
-- operation.
use mathlib.Core.Path.{subst}
use machnet.Base.{
  ℕ, ◌≤◌, ◌≡◌, refl, sym, ap, ◌∙◌, Bool, true, false, not, ◌&&◌, Option, none, some, List, ◌⊎◌, inl,
  inr, arith, Bool-cases, Option-cases, length, ◌==◌, ==_iff, if◌then◌else◌,
}
use machnet.Base.Maps.{find, insert, nat_eq, pair_eq, find-insert}
use machnet.Engine.Ports.{alloc_port, SharedState, is_local_ipv4_address, src_port_alloc}
use machnet.Engine.Ports.First.{IsFirst-congr, is_free, suits}
use machnet.Engine.Ports.Alloc.{first_port, IsFirst-first_port, is_port, Took}
use machnet.Engine.Ports.Search.{alloc_port-Allocated}

-- Whether a port of an address can be given away; none of an address that is not local can.
abbrev pub port_free : SharedState → ℕ → ℕ → Bool
port_free s addr q = elim (find addr s.ipv4_port_bitmap) [
  | none ↦ false
  | some bitmap ↦ is_free bitmap q
]

-- The bitmaps have no slots beyond port 65535.
pub record IsSized (s : SharedState) : Type 0 where
  pub sized :
      (addr : ℕ) (bitmap : List ℕ)
      → find addr s.ipv4_port_bitmap ≡ some bitmap
      → length bitmap ≤ 1024

first_port-none :
    (test : ℕ → Bool) (n lo : ℕ) → ((q : ℕ) → test q ≡ false) → none ≡ first_port test n lo
first_port-none test n lo h = IsFirst-first_port test n lo none (λ q _ _. h q)

pub port_free-insert :
    (s : SharedState) (addr a q : ℕ) (bitmap : List ℕ)
    → port_free (record s { ipv4_port_bitmap = insert addr bitmap s.ipv4_port_bitmap }) a q
      ≡ (if addr == a then is_free bitmap q else port_free s a q)
port_free-insert s addr a q bitmap =
    ap (λ o. elim o [ none ↦ false | some b ↦ is_free b q ])
      (find-insert addr a bitmap s.ipv4_port_bitmap)
    ∙ split (addr == a)
  where
    split :
        (b : Bool)
        → (elim (if b then some bitmap else find a s.ipv4_port_bitmap) [
          | none ↦ false
          | some b ↦ is_free b q
        ])
          ≡ (if b then is_free bitmap q else port_free s a q)
    split true = refl
    split false = refl

pub IsSized-insert :
    (s : SharedState) (addr : ℕ) (bitmap : List ℕ)
    → IsSized s
    → length bitmap ≤ 1024
    → IsSized (record s { ipv4_port_bitmap = insert addr bitmap s.ipv4_port_bitmap })
IsSized-insert s addr bitmap h le = record {
  sized = λ a b e.
      at a b (Bool-cases (addr == a)) (sym (find-insert addr a bitmap s.ipv4_port_bitmap) ∙ e);
}
  where
    at :
        (a : ℕ) (b : List ℕ)
        → (addr == a ≡ true) ⊎ (addr == a ≡ false)
        → (if addr == a then some bitmap else find a s.ipv4_port_bitmap) ≡ some b
        → length b ≤ 1024
    at a b (inl e) g =
        let same : some bitmap ≡ some b = rw e at g in subst (λ c. length c ≤ 1024) (cc same) le
    at a b (inr e) g = h.sized a b (rw e at g)

-- A write to the bitmap of a local address leaves which addresses are local.
pub is_local-insert :
    (s : SharedState) (addr a : ℕ) (bitmap bitmap' : List ℕ)
    → find addr s.ipv4_port_bitmap ≡ some bitmap
    → is_local_ipv4_address a
        (record s { ipv4_port_bitmap = insert addr bitmap' s.ipv4_port_bitmap })
      ≡ is_local_ipv4_address a s
unfolding is_local_ipv4_address
is_local-insert s addr a bitmap bitmap' there =
    ap (λ o. elim o [ none ↦ false | some v ↦ true ])
      (find-insert addr a bitmap' s.ipv4_port_bitmap)
    ∙ elim (Bool-cases (addr == a)) [
      | inl at ↦
          let here : addr ≡ a = (==_iff addr a).0 at in
          let was = sym (ap (λ x. find x s.ipv4_port_bitmap) here) ∙ there in
          rw at (sym (ap (λ o. elim o [ none ↦ false | some v ↦ true ]) was))
      | inr apart ↦ rw apart refl
    ]

-- The ports of a result at an address
abbrev pub is_port_of : ℕ → ℕ → ℕ → Option ℕ → Bool
is_port_of addr a q port = addr == a && is_port q port

module _ (addr : ℕ) (s : SharedState) where
  pub port_free_there :
      (bitmap : List ℕ) (q : ℕ)
      → find addr s.ipv4_port_bitmap ≡ some bitmap
      → port_free s addr q ≡ is_free bitmap q
  port_free_there bitmap q e = ap (λ o. elim o [ none ↦ false | some b ↦ is_free b q ]) e

  pub port_free_missing : (q : ℕ) → find addr s.ipv4_port_bitmap ≡ none → port_free s addr q ≡ false
  port_free_missing q e = ap (λ o. elim o [ none ↦ false | some b ↦ is_free b q ]) e

  pub port_free-kept :
      (bitmap bitmap' : List ℕ) (port : Option ℕ)
      → find addr s.ipv4_port_bitmap ≡ some bitmap
      → Took bitmap bitmap' port
      → (a q : ℕ)
      → (if addr == a then is_free bitmap' q else port_free s a q)
        ≡ (port_free s a q && not (is_port_of addr a q port))
  port_free-kept bitmap bitmap' port there took a q = elim (Bool-cases (addr == a)) [
    | inl at ↦
        let here : addr ≡ a = (==_iff addr a).0 at in
        let free = sym (port_free_there bitmap q there) ∙ ap (λ x. port_free s x q) here in
        rw at (took q ∙ ap (λ b. b && not (is_port q port)) free)
    | inr apart ↦ rw apart (and_true (port_free s a q))
  ]
    where
      and_true : (b : Bool) → b ≡ (b && true)
      and_true true = refl
      and_true false = refl

module _ (suitable : ℕ → Bool) (addr : ℕ) (s : SharedState) where
  src_port_alloc_missing :
      find addr s.ipv4_port_bitmap ≡ none → src_port_alloc suitable addr s ≡ (none, s)
  unfolding src_port_alloc
  src_port_alloc_missing e = rw (e, src_port_alloc) refl

  src_port_alloc_there :
      (bitmap : List ℕ)
      → find addr s.ipv4_port_bitmap ≡ some bitmap
      → src_port_alloc suitable addr s ≡ (
        (alloc_port suitable bitmap).0,
        record s {
          ipv4_port_bitmap = insert addr (alloc_port suitable bitmap).1 s.ipv4_port_bitmap;
        },
      )
  unfolding src_port_alloc
  src_port_alloc_there bitmap e = rw (e, src_port_alloc) refl

  abbrev GivesFirst : Option ℕ × SharedState → Type 0
  GivesFirst r =
      (r.0 ≡ first_port (λ q. port_free s addr q && suitable q) 64512 1024)
      × ((a q : ℕ) → port_free r.1 a q ≡ (port_free s a q && not (is_port_of addr a q r.0)))
      × (r.1.listeners_to_rxq ≡ s.listeners_to_rxq)
      × ((a : ℕ) → is_local_ipv4_address a r.1 ≡ is_local_ipv4_address a s)
      × IsSized r.1

  gives_first : IsSized s → GivesFirst (src_port_alloc suitable addr s)
  gives_first h = elim (Option-cases (find addr s.ipv4_port_bitmap)) [
    | inl missing ↦ subst GivesFirst (sym (src_port_alloc_missing missing)) (
      first_port-none _ 64512 1024
          (λ q. ap (λ b. b && suitable q) (port_free_missing addr s q missing)),
      λ a q. ground arith,
      refl,
      λ a. refl,
      h,
    )
    | inr (bitmap, there) ↦
        let (first, took, size, inside) =
          alloc_port-Allocated suitable bitmap (h.sized addr bitmap there) in
        let (port, bitmap') = alloc_port suitable bitmap in
        subst GivesFirst (sym (src_port_alloc_there bitmap there)) (
          IsFirst-first_port _ 64512 1024 port (
              IsFirst-congr (suits suitable bitmap) _ 1024 65536 port
                (λ q. ap (λ b. b && suitable q) (sym (port_free_there addr s bitmap q there)))
                first),
          λ a q.
              port_free-insert s addr a q bitmap'
              ∙ port_free-kept addr s bitmap bitmap' port there took a q,
          refl,
          λ a. is_local-insert s addr a bitmap bitmap' there,
          IsSized-insert s addr bitmap' h size,
        )
  ]

-- `SrcPortAlloc` gives the first port from 1024 on that is free at the address and suitable, as a
-- search of all the ports one by one does, or none if no port is; it takes that port from the free
-- ones of the address, and leaves every other port, the other addresses and the listeners. The bitmaps
-- have no slots beyond port 65535, before and after.
pub src_port_alloc_first :
    (suitable : ℕ → Bool) (addr : ℕ) (s : SharedState)
    → IsSized s
    → let (port, s') = src_port_alloc suitable addr s in
      (port ≡ first_port (λ q. port_free s addr q && suitable q) 64512 1024)
      × ((a q : ℕ) → port_free s' a q ≡ (port_free s a q && not (is_port_of addr a q port)))
      × (s'.listeners_to_rxq ≡ s.listeners_to_rxq)
      × ((a : ℕ) → is_local_ipv4_address a s' ≡ is_local_ipv4_address a s)
      × IsSized s'
src_port_alloc_first suitable addr s h = gives_first suitable addr s h
