-- ===== src/Engine/Protocols/Messages.antt =====
-- src/include/machnet_engine.h, `process_msg`: which flow gets a message of an application.
use mathlib.Core.Path.{subst}
use machnet.Base.{
  ℕ, ◌≡◌, refl, sym, ap, ◌∙◌, Bool, false, Option, none, some, inl, inr, Bool-cases, Option-cases,
  ◌==◌, ==_iff, if◌then◌else◌,
}
use machnet.Base.Maps.{find, nat_eq}
use machnet.Engine.Flows.{Key, key_eq, FlowOps, Owned, Table, Common, call_flow}
use machnet.Engine.Flows.Valid.{Valid}
use machnet.Engine.Flows.Calls.{call_flow-Called}
use machnet.Engine.Protocols.{Engine, process_msg, with_udp, with_tcp}

-- Whether the flow that a map gives is at an iterator
abbrev pub is_for : Option ℕ → ℕ → Bool
is_for none i = false
is_for (some id) i = id == i

-- The flow of TCP that gets a message, where none of UDP does
abbrev pub otherwise : Option ℕ → Option ℕ → Option ℕ
otherwise none there = there
otherwise (some id) there = none

-- What becomes of a table when the flow at `target` is given a message
abbrev pub Given : {F P M : Type 0} → FlowOps F P M → M → Option ℕ → Table F → Table F → Type 0
Given ops msg target t t' =
    Valid t'
    × ((k : Key) → find k t'.active ≡ find k t.active)
    × ((i : ℕ) (o : Owned _)
        → find i t.store ≡ some o
        → find i t'.store
          ≡ some (if is_for target i then record o { flow = ops.output_message msg o.flow } else o))

Given-none :
    {F P M : Type 0} (ops : FlowOps F P M) (msg : M) (t : Table F)
    → Valid t
    → Given ops msg none t t
Given-none ops msg t v = (v, λ k. refl, λ i o there. there)

Given-some :
    {F P M : Type 0} (ops : FlowOps F P M) (msg : M) (key : Key) (id : ℕ) (c : Common) (t : Table F)
    → Valid t
    → find key t.active ≡ some id
    → Given ops msg (some id) t (call_flow ops (ops.output_message msg) id (c, t)).1
      × ((call_flow ops (ops.output_message msg) id (c, t)).0.aborted ≡ c.aborted)
Given-some {F} {P} {M} ops msg key id c t v e =
    let (o, there, named) = v.owned key id e in
    let (valid, ran, active, store) =
      call_flow-Called ops (ops.output_message msg) id o (c, t) v there in
    ((valid, active, λ i p at. store i ∙ called id i o p there at), ran)
  where
    called :
        (id i : ℕ) (o p : Owned F)
        → find id t.store ≡ some o
        → find i t.store ≡ some p
        → (if id == i
            then some (record o { flow = ops.output_message msg o.flow })
            else find i t.store)
          ≡ some (if id == i then record p { flow = ops.output_message msg p.flow } else p)
    called id i o p there at = elim (Bool-cases (id == i)) [
      | inl same ↦
          let eq : id ≡ i = (==_iff id i).0 same in
          let objects : some o ≡ some p = sym there ∙ ap (λ j. find j t.store) eq ∙ at in
          let found : o ≡ p = cc objects in
          rw same
            (ap (λ (x : Owned F). some (record x { flow = ops.output_message msg x.flow })) found)
      | inr apart ↦ rw apart at
    ]

module _ {F P M G Q N : Type 0} (udp : FlowOps F P M) (tcp : FlowOps G Q N) where
  -- What becomes of the engine when a message is for the flows at `u` and `w`
  abbrev pub GivenTo : M → N → Option ℕ → Option ℕ → Engine F G → Engine F G → Type 0
  GivenTo msg tcp_msg u w e r =
      Given udp msg u e.udp r.udp
      × Given tcp tcp_msg (otherwise u w) e.tcp r.tcp
      × (r.common.aborted ≡ e.common.aborted)

  module _ (key : Key) (msg : M) (tcp_msg : N) (e : Engine F G) (v : Valid e.udp)
      (w : Valid e.tcp) where
    to_udp :
        (id : ℕ)
        → find key e.udp.active ≡ some id
        → process_msg udp tcp key msg tcp_msg e
          ≡ with_udp udp tcp e (call_flow udp (udp.output_message msg) id (e.common, e.udp))
    unfolding process_msg
    to_udp id at = rw (at, process_msg) refl

    to_tcp :
        (id : ℕ)
        → find key e.udp.active ≡ none
        → find key e.tcp.active ≡ some id
        → process_msg udp tcp key msg tcp_msg e
          ≡ with_tcp udp tcp e (call_flow tcp (tcp.output_message tcp_msg) id (e.common, e.tcp))
    unfolding process_msg
    to_tcp id away at = rw (away, process_msg, at) refl

    to_nobody :
        find key e.udp.active ≡ none
        → find key e.tcp.active ≡ none
        → process_msg udp tcp key msg tcp_msg e ≡ e
    unfolding process_msg
    to_nobody away gone = rw (away, process_msg, gone) refl

    -- The outcome, by what was found and what the code does for it
    outcome :
        {u x : Option ℕ} {r : Engine F G}
        → find key e.udp.active ≡ u
        → find key e.tcp.active ≡ x
        → process_msg udp tcp key msg tcp_msg e ≡ r
        → GivenTo msg tcp_msg u x e r
        → GivenTo msg tcp_msg
            (find key e.udp.active)
            (find key e.tcp.active)
            e
            (process_msg udp tcp key msg tcp_msg e)
    outcome {u} {x} {r} at there done given =
        subst (GivenTo msg tcp_msg (find key e.udp.active) (find key e.tcp.active) e) (sym done) (
          subst (λ y. GivenTo msg tcp_msg y (find key e.tcp.active) e r) (sym at)
            (subst (λ y. GivenTo msg tcp_msg u y e r) (sym there) given))

    -- On tables whose maps and channels agree, a message goes to the UDP flow of its key, or to the TCP
    -- flow of its key if UDP has none, and to no other flow; if neither has one, no flow gets it. The
    -- maps of active flows stay, no iterator of a flow that is gone is used, and maps and channels agree
    -- after it.
    pub process_msg-GivenTo :
        GivenTo msg tcp_msg
          (find key e.udp.active)
          (find key e.tcp.active)
          e
          (process_msg udp tcp key msg tcp_msg e)
    process_msg-GivenTo = elim (Option-cases (find key e.udp.active)) [
      | inr (id, at) ↦
          let (given, ran) = Given-some udp msg key id e.common e.udp v at in
          outcome at refl (to_udp id at) (given, Given-none tcp tcp_msg e.tcp w, ran)
      | inl away ↦ elim (Option-cases (find key e.tcp.active)) [
        | inr (id, at) ↦
            let (given, ran) = Given-some tcp tcp_msg key id e.common e.tcp w at in
            outcome away at (to_tcp id away at) (Given-none udp msg e.udp v, given, ran)
        | inl gone ↦
            outcome away gone (to_nobody away gone)
              (Given-none udp msg e.udp v, Given-none tcp tcp_msg e.tcp w, refl)
      ]
    ]
