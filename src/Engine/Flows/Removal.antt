-- ===== src/Engine/Flows/Removal.antt =====
-- src/include/machnet_engine.h, `ChannelsUpdate`: the listeners and flows of a channel that leaves.
use mathlib.Core.Path.{subst}
use machnet.Base.{
  ℕ, ◌≡◌, sym, ◌∙◌, true, false, Option, none, some, List, [], ◌∷◌, ◌⊎◌, inl, inr, Bool-cases,
  Option-cases, ◌==◌, if◌then◌else◌,
}
use machnet.Base.Maps.{find, insert, erase, contains, nat_eq, find-erase, Distinct-erase}
use machnet.Engine.Ports.{src_port_release, unregister_listener}
use machnet.Engine.Flows.{Key, key_eq, same_key, FlowOps, Owned, Table, Common, call_flow}
use machnet.Engine.Flows.Valid.{Valid}
use machnet.Engine.Flows.Calls.{call_flow-Called}

-- The listener at a port of an address, if the table has it, is unregistered.
unfoldable pub drop_listener : {F : Type 0} → ℕ → ℕ → Common × Table F → Option (Common × Table F)
drop_listener ip port (c, t) = elim (find ip t.listeners) [
  | none ↦ none
  | some listeners_for_ip ↦
      if contains port listeners_for_ip
      then some (
        record c { shared = unregister_listener ip port c.shared },
        record t { listeners = insert ip (erase port listeners_for_ip) t.listeners },
      )
      else none
]

pub drop_listener-Valid :
    {F : Type 0} (ip port : ℕ) (s r : Common × Table F)
    → Valid s.1
    → drop_listener ip port s ≡ some r
    → Valid r.1
unfolding drop_listener
drop_listener-Valid ip port (c, t) r v e = elim (Option-cases (find ip t.listeners)) [
  | inl gone ↦ let no : none ≡ some r = rw (gone, drop_listener) at e in absurd (cc no)
  | inr (ls, there) ↦ elim (Bool-cases (contains port ls)) [
    | inl inside ↦
        let is : some (
          record c { shared = unregister_listener ip port c.shared },
          record t { listeners = insert ip (erase port ls) t.listeners },
        )
            ≡ some r =
          rw (there, drop_listener, inside) at e in
        subst (λ x. Valid x.1) (some_eq is)
          (record { owned = v.owned; fresh = v.fresh; distinct = v.distinct })
    | inr outside ↦
        let no : none ≡ some r = rw (there, drop_listener, outside) at e in absurd (cc no)
  ]
]
  where
    some_eq : {A : Type 0} {x y : A} → some x ≡ some y → x ≡ y
    some_eq e = cc e

module _ {F P M : Type 0} (ops : FlowOps F P M) where
  unfoldable pub remove_flow : Key → ℕ → Common × Table F → Common × Table F
  remove_flow key id (c, t) =
      let released = record c {
        shared = src_port_release key.local_addr key.local_port c.shared;
      } in
      let (c', t') = call_flow ops ops.shut_down id (released, t) in
      if contains key t.active then (c', record t' { active = erase key t'.active }) else (c, t)

  -- The flows of a channel, the oldest first
  unfoldable pub remove_flows : ℕ → List (ℕ × Owned F) → Common × Table F → Common × Table F
  remove_flows channel [] s = s
  remove_flows channel ((id, o) ∷ newer) s =
      let s' = remove_flows channel newer s in
      if o.channel == channel then remove_flow o.key id s' else s'

  Valid-forget :
      (t : Table F) (key : Key) → Valid t → Valid (record t { active = erase key t.active })
  Valid-forget t key v = record {
    owned = λ k id e.
        v.owned k id
          (before k id (Bool-cases (same_key key k)) (sym (find-erase key k t.active) ∙ e));
    fresh = v.fresh;
    distinct = Distinct-erase key t.active v.distinct;
  }
    where
      before :
          (k : Key) (id : ℕ)
          → (same_key key k ≡ true) ⊎ (same_key key k ≡ false)
          → (if same_key key k then none else find k t.active) ≡ some id
          → find k t.active ≡ some id
      before k id (inl same) e = let no : none ≡ some id = rw same at e in absurd (cc no)
      before k id (inr other) e = rw other at e

  call_flow-Valid :
      (method : F → F) (id : ℕ) (s : Common × Table F)
      → Valid s.1
      → Valid (call_flow ops method id s).1
  unfolding call_flow
  call_flow-Valid method id (c, t) v = elim (Option-cases (find id t.store)) [
    | inl nothing ↦ rw (nothing, call_flow) v
    | inr (o, there) ↦ (call_flow-Called ops method id o (c, t) v there).0
  ]

  remove_flow-Valid :
      (key : Key) (id : ℕ) (s : Common × Table F) → Valid s.1 → Valid (remove_flow key id s).1
  unfolding remove_flow
  remove_flow-Valid key id (c, t) v = elim (Bool-cases (contains key t.active)) [
    | inl there ↦ rw there (Valid-forget _ key (call_flow-Valid ops.shut_down id _ v))
    | inr gone ↦ rw gone v
  ]

  pub remove_flows-Valid :
      (channel : ℕ) (flows : List (ℕ × Owned F)) (s : Common × Table F)
      → Valid s.1
      → Valid (remove_flows channel flows s).1
  unfolding remove_flows
  remove_flows-Valid channel [] s v = v
  remove_flows-Valid channel ((id, o) ∷ newer) s v =
      let w = remove_flows-Valid channel newer s v in
      elim (Bool-cases (o.channel == channel)) [
        | inl its ↦ rw its (remove_flow-Valid o.key id _ w)
        | inr other ↦ rw other w
      ]
