-- ===== src/Engine/Ports/Restore.antt =====
-- src/include/machnet_engine.h, class MachnetEngineSharedState: what is given back is as it was.
use machnet.Base.{
  ℕ, ◌^◌, ◌<◌, ◌≡◌, refl, sym, ap, ◌∙◌, Bool, true, false, not, ◌&&◌, ◌||◌, Option, none, some, inl,
  inr, arith, Bool-cases, Option-cases, ◌==◌, ==_iff, if◌then◌else◌,
}
use machnet.Base.Maps.{find, erase, nat_eq, pair_eq, both_iff, beq_self, find-erase}
use machnet.Engine.Ports.{
  SharedState, is_local_ipv4_address, src_port_alloc, src_port_release, register_listener,
  unregister_listener,
}
use machnet.Engine.Ports.Alloc.{is_port}
use machnet.Engine.Ports.Shared.{port_free, IsSized, src_port_alloc_first}
use machnet.Engine.Ports.Listeners.{register_listener-Registers}
use machnet.Engine.Ports.Release.{src_port_release-Releases}
use machnet.Engine.Ports.Reserved.{Reserved, port_free_local}
use machnet.Engine.Ports.Steps.{first_port_free}

-- A port that was free is taken and given back.
restored :
    (s : SharedState) (addr port a q : ℕ)
    → port_free s addr port ≡ true
    → ((port_free s a q && not (addr == a && q == port)) || (addr == a && q == port))
      ≡ port_free s a q
restored s addr port a q free = elim (Bool-cases (addr == a && q == port)) [
  | inl same ↦
      let addrs : addr ≡ a = ground (arith, same) in
      let ports : q ≡ port = ground (arith, same) in
      let was : port_free s a q ≡ true =
        ap (port_free s a) ports ∙ sym (ap (λ x. port_free s x port) addrs) ∙ free in
      rw (same, was) refl
  | inr differ ↦ rw differ (kept_port (port_free s a q))
]
  where
    kept_port : (b : Bool) → (b && true || false) ≡ b
    kept_port true = refl
    kept_port false = refl

taken_is_busy : (b : Bool) (addr port : ℕ) → (b && not (addr == addr && port == port)) ≡ false
taken_is_busy b addr port = rw ((==_iff addr addr).1 refl, (==_iff port port).1 refl) (ground arith)

-- Where the bitmaps have no slots beyond port 65535: a port that `SrcPortAlloc` gave and that
-- `SrcPortRelease` took back leaves the free ports of every address as they were.
pub release-alloc :
    (suitable : ℕ → Bool) (addr port : ℕ) (s : SharedState)
    → IsSized s
    → (src_port_alloc suitable addr s).0 ≡ some port
    → (a q : ℕ)
    → port_free (src_port_release addr port (src_port_alloc suitable addr s).1) a q
      ≡ port_free s a q
release-alloc suitable addr port s h given a q =
    let (first, ports, listeners, locals, size) = src_port_alloc_first suitable addr s h in
    let s' = (src_port_alloc suitable addr s).1 in
    let test = first_port_free _ 64512 1024 port (sym first ∙ given) in
    let free = and_left (port_free s addr port) (suitable port) test in
    let after =
      λ (x r : ℕ). ports x r ∙ ap (λ o. port_free s x r && not (addr == x && is_port r o)) given in
    let local = locals addr ∙ port_free_local s addr port free in
    let busy = after addr port ∙ taken_is_busy (port_free s addr port) addr port in
    let freed = (src_port_release-Releases addr port s' local size busy).0 in
    freed a q ∙ ap (λ b. b || (addr == a && q == port)) (after a q) ∙ restored s addr port a q free
  where
    and_left : (b c : Bool) → (b && c) ≡ true → b ≡ true
    and_left true c e = refl
    and_left false c e = e

module _ (addr port rxq : ℕ) (s : SharedState) (h : Reserved s) (small : port < 2 ^ 16) where
  unheard_before : port_free s addr port ≡ true → find (addr, port) s.listeners_to_rxq ≡ none
  unheard_before free = elim (Option-cases (find (addr, port) s.listeners_to_rxq)) [
    | inl nobody ↦ nobody
    | inr (r, there) ↦ absurd (cc (sym free ∙ h.busy addr port r there))
  ]

  put_back :
      (k : ℕ × ℕ) (now : Option ℕ) {ok : Bool}
      → ok ≡ true
      → now ≡ (if ok && pair_eq.beq (addr, port) k then some rxq else find k s.listeners_to_rxq)
      → port_free s addr port ≡ true
      → (if pair_eq.beq (addr, port) k then none else now) ≡ find k s.listeners_to_rxq
  put_back k now done e free = elim (Bool-cases (pair_eq.beq (addr, port) k)) [
    | inl same ↦
        let key = (both_iff (addr, port) k).0 same in
        rw same (sym (unheard_before free) ∙ ap (λ j. find j s.listeners_to_rxq) key)
    | inr other ↦ rw other (e ∙ rw (done, other) refl)
  ]

  -- Where every listener stands at a local address and at a port that is taken, the bitmaps have no slots
  -- beyond port 65535 and the port is one of them: a registered listener that is unregistered leaves the
  -- free ports and the listeners as they were.
  pub unregister-register :
      (register_listener addr port rxq s).0 ≡ true
      → (a q : ℕ) (k : ℕ × ℕ)
      → let s' = unregister_listener addr port (register_listener addr port rxq s).1 in
        (port_free s' a q ≡ port_free s a q)
        × (find k s'.listeners_to_rxq ≡ find k s.listeners_to_rxq)
  unfolding is_local_ipv4_address unregister_listener
  unregister-register done a q k =
      let (ok, ports, listeners, locals, size) =
        register_listener-Registers addr port rxq s h.size small in
      let r = (register_listener addr port rxq s).1 in
      let free = sym ok ∙ done in
      let without = record r { listeners_to_rxq = erase (addr, port) r.listeners_to_rxq } in
      let key : pair_eq.beq (addr, port) (addr, port) ≡ true = beq_self {K = ℕ × ℕ} (addr, port) in
      let there : find (addr, port) r.listeners_to_rxq ≡ some rxq =
        listeners (addr, port) ∙ rw (done, key) refl in
      let step : unregister_listener addr port r ≡ src_port_release addr port without =
        rw (there, unregister_listener) refl in
      let local = locals addr ∙ port_free_local s addr port free in
      let busy = ports addr port ∙ taken_is_busy (port_free s addr port) addr port in
      let (freed, same, _, _) =
        src_port_release-Releases addr port without local (record { sized = size.sized }) busy in
      (
        ap (λ u. port_free u a q) step
            ∙ freed a q
            ∙ ap (λ b. b || (addr == a && q == port)) (ports a q)
            ∙ restored s addr port a q free,
        ap (λ u. find k u.listeners_to_rxq) step
            ∙ ap (find k) same
            ∙ find-erase (addr, port) k r.listeners_to_rxq
            ∙ put_back k _ done (listeners k) free,
      )
