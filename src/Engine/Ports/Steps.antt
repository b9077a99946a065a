-- ===== src/Engine/Ports/Steps.antt =====
-- src/include/machnet_engine.h, class MachnetEngineSharedState: runs of its operations.
use mathlib.Core.Path.{subst}
use machnet.Base.{
  ℕ, zero, suc, ◌+◌, ◌^◌, ◌<◌, ◌≡◌, refl, sym, ap, ◌∙◌, Bool, true, false, ◌&&◌, none, some, List,
  [], ◌∷◌, ◌⊎◌, inl, inr, arith, Bool-cases, Option-cases, if◌then◌else◌,
}
use machnet.Base.Maps.{find, insert, erase, contains, nat_eq, pair_eq, beq_self, find-erase}
use machnet.Engine.Ports.{
  all_free, SharedState, is_local_ipv4_address, new_shared_state, src_port_alloc, src_port_release,
  register_listener, unregister_listener,
}
use machnet.Engine.Ports.Alloc.{first_port}
use machnet.Engine.Ports.Shared.{port_free, IsSized, IsSized-insert, src_port_alloc_first}
use machnet.Engine.Ports.Reserved.{
  Reserved, Reserved-fewer, port_free_local, alloc-Reserved, release-Reserved, register-Reserved,
}

-- A step of the shared state: what the engines do with it. A release of a port that no listener has
-- is that of a flow which was given the port.
pub data PortStep : SharedState → SharedState → Type 0 where
  alloc :
      (suitable : ℕ → Bool) (addr : ℕ) (s : SharedState)
      → PortStep s (src_port_alloc suitable addr s).1
  register :
      (addr port rxq : ℕ) (s : SharedState)
      → port < 2 ^ 16
      → PortStep s (register_listener addr port rxq s).1
  unregister : (addr port : ℕ) (s : SharedState) → PortStep s (unregister_listener addr port s)
  release :
      (addr port : ℕ) (s : SharedState)
      → is_local_ipv4_address addr s ≡ true
      → port_free s addr port ≡ false
      → find (addr, port) s.listeners_to_rxq ≡ none
      → PortStep s (src_port_release addr port s)

pub data PortRun (s : SharedState) : SharedState → Type 0 where
  start : PortRun s s
  then_step : {t u : SharedState} → PortRun s t → PortStep t u → PortRun s u

unregister-Reserved :
    (addr port : ℕ) (s : SharedState) → Reserved s → Reserved (unregister_listener addr port s)
unfolding unregister_listener is_local_ipv4_address
unregister-Reserved addr port s h = elim (Option-cases (find (addr, port) s.listeners_to_rxq)) [
  | inl missing ↦ subst Reserved (sym (unheard missing)) h
  | inr (rxq, there) ↦
      let without = record s { listeners_to_rxq = erase (addr, port) s.listeners_to_rxq } in
      let fewer = Reserved-fewer s h without (record { sized = h.size.sized }) (λ a. refl) left in
      subst Reserved (sym (heard rxq there)) (
        release-Reserved without fewer addr port (h.at_local addr port rxq there)
          (h.busy addr port rxq there) gone)
]
  where
    unheard : find (addr, port) s.listeners_to_rxq ≡ none → unregister_listener addr port s ≡ s
    unheard e = rw (e, unregister_listener) refl

    heard :
        (rxq : ℕ)
        → find (addr, port) s.listeners_to_rxq ≡ some rxq
        → unregister_listener addr port s
          ≡ src_port_release addr port
              (record s { listeners_to_rxq = erase (addr, port) s.listeners_to_rxq })
    heard rxq e = rw (e, unregister_listener) refl

    left :
        (a p r : ℕ)
        → find (a, p) (erase (addr, port) s.listeners_to_rxq) ≡ some r
        → (find (a, p) s.listeners_to_rxq ≡ some r)
          × (port_free s a p ≡ false → port_free s a p ≡ false)
    left a p r e =
        let e' = sym (find-erase (addr, port) (a, p) s.listeners_to_rxq) ∙ e in
        (either (pair_eq.beq (addr, port) (a, p)) e', λ b. b)
      where
        either :
            (b : Bool)
            → (if b then none else find (a, p) s.listeners_to_rxq) ≡ some r
            → find (a, p) s.listeners_to_rxq ≡ some r
        either true e = absurd (cc e)
        either false e = e

    gone : find (addr, port) (erase (addr, port) s.listeners_to_rxq) ≡ none
    gone =
        find-erase (addr, port) (addr, port) s.listeners_to_rxq
        ∙ rw (beq_self {K = ℕ × ℕ} (addr, port)) refl

step-Reserved : {s t : SharedState} → PortStep s t → Reserved s → Reserved t
step-Reserved (alloc suitable addr s) h = alloc-Reserved s h suitable addr
step-Reserved (register addr port rxq s small) h = register-Reserved s h addr port rxq small
step-Reserved (unregister addr port s) h = unregister-Reserved addr port s h
step-Reserved (release addr port s local busy unheard) h =
    release-Reserved s h addr port local busy unheard

run-Reserved : {s t : SharedState} → Reserved s → PortRun s t → Reserved t
run-Reserved h start = h
run-Reserved h (then_step r st) = step-Reserved st (run-Reserved h r)

-- A state without listeners, with bitmaps of legal size
abbrev pub IsFresh : SharedState → Type 0
IsFresh s = IsSized s × (s.listeners_to_rxq ≡ [])

pub new-IsFresh : (addrs : List ℕ) (s : SharedState) → new_shared_state addrs ≡ some s → IsFresh s
unfolding new_shared_state find
new-IsFresh [] s e =
    let empty : SharedState = record { ipv4_port_bitmap = []; listeners_to_rxq = [] } in
    let same : empty ≡ s = cc e in
    subst IsFresh same (record { sized = λ addr bitmap h. absurd (cc h) }, refl)
new-IsFresh (addr ∷ addrs) s e = elim (Option-cases (new_shared_state addrs)) [
  | inl refused ↦ absurd (cc (rw refused at e))
  | inr (t, made) ↦
      let (size, fresh) = new-IsFresh addrs t made in
      let e' = rw made at e in
      elim (Bool-cases (contains addr t.ipv4_port_bitmap)) [
        | inl twice ↦ absurd (cc (rw twice at e'))
        | inr once ↦
            let bitmap = all_free ∷ [] in
            let u = record t { ipv4_port_bitmap = insert addr bitmap t.ipv4_port_bitmap } in
            let same : some u ≡ some s = rw once at e' in
            let eq : u ≡ s = cc same in
            subst IsFresh eq (IsSized-insert t addr bitmap size (omega arith), fresh)
      ]
]

pub IsFresh-Reserved : (s : SharedState) → IsFresh s → Reserved s
unfolding find
IsFresh-Reserved s (size, fresh) = record {
  size = size;
  at_local = λ addr port rxq e. absurd (nobody addr port rxq e);
  busy = λ addr port rxq e. absurd (nobody addr port rxq e);
}
  where
    nobody : (addr port rxq : ℕ) → find (addr, port) s.listeners_to_rxq ≡ some rxq → ⊥
    nobody addr port rxq e = cc (sym e ∙ ap (find (addr, port)) fresh)

pub first_port_free : (test : ℕ → Bool) (n lo p : ℕ) → first_port test n lo ≡ some p → test p ≡ true
unfolding first_port
first_port_free test zero lo p e = absurd (cc e)
first_port_free test (suc n) lo p e = elim (Bool-cases (test lo)) [
  | inl good ↦ let same : some lo ≡ some p = rw good at e in ap test (sym (cc same)) ∙ good
  | inr bad ↦ first_port_free test n (lo + 1) p (rw bad at e)
]

-- However the engines allocate and release ports for their flows and register and unregister
-- listeners, from the state that the constructor makes, a port that is given to a flow is at a local
-- address and has no listener, as long as a flow releases only a port that was given away and that no
-- listener has.
pub src_port_alloc_unheard :
    (addrs : List ℕ) (s t : SharedState) (suitable : ℕ → Bool) (addr port : ℕ)
    → new_shared_state addrs ≡ some s
    → PortRun s t
    → (src_port_alloc suitable addr t).0 ≡ some port
    → (find (addr, port) t.listeners_to_rxq ≡ none) × (is_local_ipv4_address addr t ≡ true)
src_port_alloc_unheard addrs s t suitable addr port made run given =
    let h = run-Reserved (IsFresh-Reserved s (new-IsFresh addrs s made)) run in
    let first = (src_port_alloc_first suitable addr t h.size).0 in
    let test = first_port_free _ 64512 1024 port (sym first ∙ given) in
    let free = and_left (port_free t addr port) (suitable port) test in
    (
      unheard h free (Option-cases (find (addr, port) t.listeners_to_rxq)),
      port_free_local t addr port free,
    )
  where
    and_left : (b c : Bool) → (b && c) ≡ true → b ≡ true
    and_left true c e = refl
    and_left false c e = e

    unheard :
        Reserved t
        → port_free t addr port ≡ true
        → (find (addr, port) t.listeners_to_rxq ≡ none)
          ⊎ ((r : ℕ) × (find (addr, port) t.listeners_to_rxq ≡ some r))
        → find (addr, port) t.listeners_to_rxq ≡ none
    unheard h free (inl nobody) = nobody
    unheard h free (inr (r, there)) = absurd (cc (sym free ∙ h.busy addr port r there))
