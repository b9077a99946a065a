-- ===== src/Engine/Ports/Reserved.antt =====
-- src/include/machnet_engine.h, class MachnetEngineSharedState: the ports of listeners stay taken.
use machnet.Base.{
  ℕ, ◌^◌, ◌<◌, ◌≡◌, refl, sym, ap, ◌∙◌, Bool, true, false, not, ◌&&◌, none, some, List, ◌⊎◌, inl,
  inr, arith, Bool-cases, Option-cases, ◌==◌, if◌then◌else◌,
}
use machnet.Base.Maps.{find, nat_eq, pair_eq, both_iff}
use machnet.Engine.Ports.{
  SharedState, is_local_ipv4_address, src_port_alloc, src_port_release, register_listener,
}
use machnet.Engine.Ports.Shared.{
  port_free, IsSized, is_port_of, src_port_alloc_first, port_free_missing,
}
use machnet.Engine.Ports.Listeners.{register_listener-Registers}
use machnet.Engine.Ports.Release.{src_port_release-Releases}

-- Every listener stands at a local address, and its port is not free there.
pub record Reserved (s : SharedState) : Type 0 where
  pub size : IsSized s
  pub at_local :
      (addr port rxq : ℕ)
      → find (addr, port) s.listeners_to_rxq ≡ some rxq
      → is_local_ipv4_address addr s ≡ true
  pub busy :
      (addr port rxq : ℕ)
      → find (addr, port) s.listeners_to_rxq ≡ some rxq
      → port_free s addr port ≡ false

-- An entry stands at another key than one that has none.
apart :
    (addr port a p rxq : ℕ) (ls : List ((ℕ × ℕ) × ℕ))
    → find (addr, port) ls ≡ none
    → find (a, p) ls ≡ some rxq
    → (addr == a && p == port) ≡ false
apart addr port a p rxq ls e g = elim (Bool-cases (addr == a && p == port)) [
  | inl same ↦
      let addrs : addr ≡ a = ground (arith, same) in
      let ports : p ≡ port = ground (arith, same) in
      absurd
        (cc (sym g ∙ ap (λ q. find (a, q) ls) ports ∙ sym (ap (λ x. find (x, port) ls) addrs) ∙ e))
  | inr differ ↦ differ
]

pub port_free_local :
    (s : SharedState) (addr port : ℕ)
    → port_free s addr port ≡ true
    → is_local_ipv4_address addr s ≡ true
unfolding is_local_ipv4_address
port_free_local s addr port free = elim (Option-cases (find addr s.ipv4_port_bitmap)) [
  | inl missing ↦ absurd (cc (sym free ∙ port_free_missing addr s port missing))
  | inr (bitmap, there) ↦ ap (λ o. elim o [ none ↦ false | some v ↦ true ]) there
]

module _ (s : SharedState) (h : Reserved s) where
  -- A state with the listeners of `s` or fewer, in which no more ports are free at those.
  pub Reserved-fewer :
      (t : SharedState)
      → IsSized t
      → ((a : ℕ) → is_local_ipv4_address a t ≡ is_local_ipv4_address a s)
      → ((addr port rxq : ℕ)
          → find (addr, port) t.listeners_to_rxq ≡ some rxq
          → (find (addr, port) s.listeners_to_rxq ≡ some rxq)
            × (port_free s addr port ≡ false → port_free t addr port ≡ false))
      → Reserved t
  Reserved-fewer t size local was = record {
    size = size;
    at_local = λ addr port rxq e. local addr ∙ h.at_local addr port rxq (was addr port rxq e).0;
    busy =
        λ addr port rxq e. (was addr port rxq e).1 (h.busy addr port rxq (was addr port rxq e).0);
  }

  pub alloc-Reserved :
      (suitable : ℕ → Bool) (addr : ℕ) → Reserved (src_port_alloc suitable addr s).1
  alloc-Reserved suitable addr =
      let (first, ports, listeners, local, size) = src_port_alloc_first suitable addr s h.size in
      Reserved-fewer (src_port_alloc suitable addr s).1 size local (λ a p rxq e. (
        sym (ap (find (a, p)) listeners) ∙ e,
        λ busy.
            ports a p
            ∙ ap (λ b. b && not (is_port_of addr a p (src_port_alloc suitable addr s).0)) busy,
      ))

  pub release-Reserved :
      (addr port : ℕ)
      → is_local_ipv4_address addr s ≡ true
      → port_free s addr port ≡ false
      → find (addr, port) s.listeners_to_rxq ≡ none
      → Reserved (src_port_release addr port s)
  release-Reserved addr port local busy unheard =
      let (ports, listeners, locals, size) =
        src_port_release-Releases addr port s local h.size busy in
      Reserved-fewer (src_port_release addr port s) size locals (λ a p rxq e.
        let was = sym (ap (find (a, p)) listeners) ∙ e in
        (
          was,
          λ closed.
              ports a p ∙ rw (closed, apart addr port a p rxq s.listeners_to_rxq unheard was) refl,
        ))

  pub register-Reserved :
      (addr port rxq : ℕ) → port < 2 ^ 16 → Reserved (register_listener addr port rxq s).1
  register-Reserved addr port rxq small =
      let (ok, ports, listeners, locals, size) =
        register_listener-Registers addr port rxq s h.size small in
      record {
        size = size;
        at_local = λ a p r e.
            locals a
            ∙ new_local a p r _ ok (Bool-cases (pair_eq.beq (addr, port) (a, p)))
                (sym (listeners (a, p)) ∙ e);
        busy = λ a p r e.
            ports a p
            ∙ new_busy a p r _ (Bool-cases (pair_eq.beq (addr, port) (a, p)))
                (sym (listeners (a, p)) ∙ e);
      }
    where
      otherwise :
          (a p r : ℕ) (ok : Bool)
          → (if ok && pair_eq.beq (addr, port) (a, p)
              then some rxq
              else find (a, p) s.listeners_to_rxq)
            ≡ some r
          → pair_eq.beq (addr, port) (a, p) ≡ false
          → find (a, p) s.listeners_to_rxq ≡ some r
      otherwise a p r true e other = rw other at e
      otherwise a p r false e other = e

      new_local :
          (a p r : ℕ) (ok : Bool)
          → ok ≡ port_free s addr port
          → (pair_eq.beq (addr, port) (a, p) ≡ true) ⊎ (pair_eq.beq (addr, port) (a, p) ≡ false)
          → (if ok && pair_eq.beq (addr, port) (a, p)
              then some rxq
              else find (a, p) s.listeners_to_rxq)
            ≡ some r
          → is_local_ipv4_address a s ≡ true
      new_local a p r ok free (inr other) e = h.at_local a p r (otherwise a p r ok e other)
      new_local a p r false free (inl same) e = h.at_local a p r e
      new_local a p r true free (inl same) e =
          let addrs : addr ≡ a = ap (λ k. k.0) ((both_iff (addr, port) (a, p)).0 same) in
          sym (ap (λ x. is_local_ipv4_address x s) addrs) ∙ port_free_local s addr port (sym free)

      new_busy :
          (a p r : ℕ) (ok : Bool)
          → (pair_eq.beq (addr, port) (a, p) ≡ true) ⊎ (pair_eq.beq (addr, port) (a, p) ≡ false)
          → (if ok && pair_eq.beq (addr, port) (a, p)
              then some rxq
              else find (a, p) s.listeners_to_rxq)
            ≡ some r
          → (port_free s a p && not (addr == a && p == port)) ≡ false
      new_busy a p r ok (inr other) e = rw (h.busy a p r (otherwise a p r ok e other)) refl
      new_busy a p r ok (inl same) e =
          let key = (both_iff (addr, port) (a, p)).0 same in
          let addrs : addr ≡ a = ap (λ k. k.0) key in
          let ports : port ≡ p = ap (λ k. k.1) key in ground (arith, addrs, ports)
