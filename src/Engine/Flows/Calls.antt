-- ===== src/Engine/Flows/Calls.antt =====
-- src/include/machnet_engine.h: calls of the flows in a table, and flows that are made.
use mathlib.Core.Path.{subst}
use machnet.Base.{
  ℕ, ◌≡◌, refl, sym, ◌∙◌, Bool, true, false, not, ◌&&◌, Option, some, List, inl, inr, Bool-cases,
  ◌==◌, if◌then◌else◌,
}
use machnet.Base.Maps.{find, insert, contains, emplace, nat_eq, find-insert, beq_self}
use machnet.Engine.Flows.{
  Key, key_eq, same_key, FlowOps, Owned, Table, Common, call_flow, create_flow, run_callbacks,
}
use machnet.Engine.Flows.Valid.{Valid, Valid-write, Valid-add}
use machnet.Engine.Flows.Check.{run_callbacks_aborted}

module _ {F P M : Type 0} (ops : FlowOps F P M) where
  -- A table in which a method of the flow `o` at `id` was called
  abbrev pub Called : (F → F) → ℕ → Owned F → Common × Table F → Common × Table F → Type 0
  Called method id o s r =
      Valid r.1
      × (r.0.aborted ≡ s.0.aborted)
      × ((k : Key) → find k r.1.active ≡ find k s.1.active)
      × ((i : ℕ)
          → find i r.1.store
            ≡ (if id == i then some (record o { flow = method o.flow }) else find i s.1.store))

  pub call_flow-Called :
      (method : F → F) (id : ℕ) (o : Owned F) (s : Common × Table F)
      → Valid s.1
      → find id s.1.store ≡ some o
      → Called method id o s (call_flow ops method id s)
  unfolding call_flow
  call_flow-Called method id o (c, t) v there =
      let o' = record o { flow = method o.flow } in
      let called : call_flow ops method id (c, t)
          ≡ (run_callbacks ops o (method o.flow) c, record t { store = insert id o' t.store }) =
        rw (there, call_flow) refl in
      subst (Called method id o (c, t)) (sym called) (
        Valid-write t id o o' v there refl,
        run_callbacks_aborted ops o (method o.flow) c,
        λ k. refl,
        λ i. find-insert id i o' t.store,
      )

  -- A table in which a flow was made and a method of it called
  abbrev pub Made : (F → F) → Owned F → Common × Table F → Common × Table F → Type 0
  Made method o s r =
      Valid r.1
      × (r.0.aborted ≡ s.0.aborted)
      × ((k : Key)
          → find k r.1.active ≡ (
              if not (contains o.key s.1.active) && same_key o.key k
              then some s.1.next
              else find k s.1.active))
      × ((i : ℕ)
          → find i r.1.store ≡ (
              if s.1.next == i then some (record o { flow = method o.flow }) else find i s.1.store))

  pub create_flow-Made :
      (method : F → F) (key : Key) (channel : ℕ) (request : Option ℕ) (c : Common) (t : Table F)
      → Valid t
      → let o : Owned F = record {
        key = key;
        channel = channel;
        request = request;
        flow = ops.new t.next;
      } in
        Made method o
          (c, t)
          (call_flow ops method t.next (c, create_flow ops key channel request t))
  unfolding create_flow find
  create_flow-Made method key channel request c t v =
      let o : Owned F = record {
        key = key;
        channel = channel;
        request = request;
        flow = ops.new t.next;
      } in
      let t1 = create_flow ops key channel request t in
      let here : find t.next t1.store ≡ some o = rw (beq_self t.next) refl in
      let (valid, ran, active, store) =
        call_flow-Called method t.next o (c, t1) (Valid-add t o v) here in
      (
        valid,
        ran,
        λ k. active k ∙ emplaced key k t.next t.active,
        λ i. store i ∙ again (t.next == i) _ _ _,
      )
    where
      emplaced :
          (key k : Key) (id : ℕ) (m : List (Key × ℕ))
          → find k (emplace key id m)
            ≡ (if not (contains key m) && same_key key k then some id else find k m)
      emplaced key k id m = elim (Bool-cases (contains key m)) [
        | inl taken ↦ rw taken refl
        | inr open_key ↦ rw open_key (find-insert key k id m)
      ]

      again :
          (b : Bool) (x y z : Option (Owned F))
          → (if b then x else (if b then y else z)) ≡ (if b then x else z)
      again true x y z = refl
      again false x y z = refl
