-- ===== src/Engine/Flows/Check.antt =====
-- src/include/machnet_engine.h, `HandleRTO`: one check.
use mathlib.Core.Path.{subst}
use machnet.Base.{
  ℕ, ◌≡◌, refl, sym, ap, ◌∙◌, Bool, Option, none, some, inl, inr, arith, Bool-cases, ◌==◌,
  if◌then◌else◌,
}
use machnet.Base.Maps.{find, insert, erase, nat_eq, find-insert, find-erase}
use machnet.Engine.Ports.{src_port_release}
use machnet.Engine.Flows.{
  Key, key_eq, same_key, same_key_iff, FlowOps, Owned, Table, Common, check_one, run_callbacks,
}
use machnet.Engine.Flows.Valid.{Valid, Valid-write, Valid-remove}

module _ {F P M : Type 0} (ops : FlowOps F P M) where
  pub run_callbacks_aborted :
      (o : Owned F) (g : F) (c : Common) → (run_callbacks ops o g c).aborted ≡ c.aborted
  run_callbacks_aborted o g c = ground arith

  -- What a flow of the table becomes by a check
  abbrev pub checked : Owned F → Option (Owned F)
  checked o =
      let (is_active, g) = ops.periodic_check o.flow in
      if is_active then some (record o { flow = g }) else none

  abbrev pub stays : Owned F → Bool
  stays o = (ops.periodic_check o.flow).0

  -- A table in which the flow at `id` was checked
  abbrev pub OneChecked : Key → ℕ → Owned F → Common × Table F → Common × Table F → Type 0
  OneChecked key id o s r =
      Valid r.1
      × (r.0.aborted ≡ s.0.aborted)
      × ((k : Key)
          → find k r.1.active
            ≡ (if same_key key k then (if stays o then some id else none) else find k s.1.active))
      × ((i : ℕ) → find i r.1.store ≡ (if id == i then checked o else find i s.1.store))

  pub check_one-OneChecked :
      (key : Key) (id : ℕ) (o : Owned F) (c : Common) (t : Table F)
      → Valid t
      → find key t.active ≡ some id
      → find id t.store ≡ some o
      → OneChecked key id o (c, t) (check_one ops key id (c, t))
  unfolding check_one
  check_one-OneChecked key id o c t v mapped there = elim (Bool-cases (stays o)) [
    | inl active ↦
        let g = (ops.periodic_check o.flow).1 in
        let o' = record o { flow = g } in
        let stepped : check_one ops key id (c, t)
            ≡ (run_callbacks ops o g c, record t { store = insert id o' t.store }) =
          rw (there, check_one, active) refl in
        subst (OneChecked key id o (c, t)) (sym stepped) (
          Valid-write t id o o' v there refl,
          run_callbacks_aborted o g c,
          λ k. rw active (kept k),
          λ i. rw active (find-insert id i o' t.store),
        )
    | inr done ↦
        let g = (ops.periodic_check o.flow).1 in
        let c' = run_callbacks ops o g c in
        let stepped : check_one ops key id (c, t) ≡ (
          record c' { shared = src_port_release o.key.local_addr o.key.local_port c'.shared },
          record t { store = erase id t.store; active = erase key t.active },
        ) =
          rw (there, check_one, done) refl in
        subst (OneChecked key id o (c, t)) (sym stepped) (
          Valid-remove t key id o v mapped there,
          run_callbacks_aborted o g c,
          λ k. rw done (find-erase key k t.active),
          λ i. rw done (find-erase id i t.store),
        )
  ]
    where
      kept : (k : Key) → find k t.active ≡ (if same_key key k then some id else find k t.active)
      kept k = elim (Bool-cases (same_key key k)) [
        | inl same ↦
            let eq : key ≡ k = (same_key_iff key k).0 same in
            rw same (sym (ap (λ j. find j t.active) eq) ∙ mapped)
        | inr other ↦ rw other refl
      ]
