-- ===== src/Engine/Flows/Checks.antt =====
-- src/include/machnet_engine.h, `HandleRTO`: every flow is checked once, and those that are done leave.
use mathlib.Core.Path.{subst}
use machnet.Base.{
  ℕ, ◌≡◌, refl, sym, ap, ◌∙◌, Bool, true, false, not, ◌&&◌, none, some, List, [], ◌∷◌, inl, inr,
  Bool-cases, ◌==◌, ==_iff, if◌then◌else◌,
}
use machnet.Base.Maps.{find, contains, nat_eq, Distinct, beq_self}
use machnet.Engine.Flows.{
  Key, key_eq, same_key, same_key_iff, FlowOps, Owned, Table, Common, check_one, check_all,
  handle_rto,
}
use machnet.Engine.Flows.Valid.{Valid}
use machnet.Engine.Flows.Check.{checked, stays, OneChecked, check_one-OneChecked}

module _ {F P M : Type 0} (ops : FlowOps F P M) where
  -- A table in which the flows of some entries were checked. What is absent stays absent.
  abbrev pub AllChecked : List (Key × ℕ) → Common × Table F → Common × Table F → Type 0
  AllChecked es s r =
      Valid r.1
      × (r.0.aborted ≡ s.0.aborted)
      × ((k : Key) (i : ℕ) (o : Owned F)
          → find k s.1.active ≡ some i
          → find i s.1.store ≡ some o
          → (find k r.1.active ≡ (if contains k es && not (stays ops o) then none else some i))
            × (find i r.1.store ≡ (if contains k es then checked ops o else some o)))
      × ((k : Key) → find k s.1.active ≡ none → find k r.1.active ≡ none)
      × ((i : ℕ) → find i s.1.store ≡ none → find i r.1.store ≡ none)

  -- Another key than one that has no entry
  other_key :
      (key k : Key) (i : ℕ) (es : List (Key × ℕ))
      → find key es ≡ none
      → find k es ≡ some i
      → same_key key k ≡ false
  other_key key k i es e g = elim (Bool-cases (same_key key k)) [
    | inl same ↦
        let eq : key ≡ k = (same_key_iff key k).0 same in
        absurd (cc (sym e ∙ ap (λ j. find j es) eq ∙ g))
    | inr other ↦ other
  ]

  other_id :
      (t : Table F) (key k : Key) (id i : ℕ) (o p : Owned F)
      → same_key key k ≡ false
      → find id t.store ≡ some o
      → o.key ≡ key
      → find i t.store ≡ some p
      → p.key ≡ k
      → (id == i) ≡ false
  other_id t key k id i o p other at named at' named' = elim (Bool-cases (id == i)) [
    | inl one ↦
        let eq : id ≡ i = (==_iff id i).0 one in
        let objects : some o ≡ some p = sym at ∙ ap (λ j. find j t.store) eq ∙ at' in
        let keys : key ≡ k = sym named ∙ key_of objects ∙ named' in
        absurd (cc (sym other ∙ (same_key_iff key k).1 keys))
    | inr apart ↦ apart
  ]
    where
      key_of : some o ≡ some p → o.key ≡ p.key
      key_of e = cc e

  -- What is left of the flow `o` at `k` and `i`, checked or not
  abbrev Left : Common × Table F → Key → ℕ → Owned F → Bool → Type 0
  Left r k i o done =
      (find k r.1.active ≡ (if done && not (stays ops o) then none else some i))
      × (find i r.1.store ≡ (if done then checked ops o else some o))

  head_contains :
      (key k : Key) (id : ℕ) (es : List (Key × ℕ))
      → same_key key k ≡ true
      → true ≡ contains k ((key, id) ∷ es)
  unfolding find
  head_contains key k id es same =
      sym (ap (λ b. elim (if b then some id else find k es) [ none ↦ false | some v ↦ true ]) same)

  tail_contains :
      (key k : Key) (id : ℕ) (es : List (Key × ℕ))
      → same_key key k ≡ false
      → contains k es ≡ contains k ((key, id) ∷ es)
  unfolding find
  tail_contains key k id es other =
      sym (ap (λ b. elim (if b then some id else find k es) [ none ↦ false | some v ↦ true ]) other)

  module _ (key : Key) (id : ℕ) (es : List (Key × ℕ)) (s s1 r : Common × Table F) (o : Owned F)
      (v : Valid s.1) (alone : find key es ≡ none) (mapped : find key s.1.active ≡ some id)
      (there : find id s.1.store ≡ some o) (one : OneChecked ops key id o s s1)
      (all : AllChecked es s1 r) where
    first-Left : Left r key id o true
    first-Left = elim (Bool-cases (stays ops o)) [
      | inl active ↦
          let g = (ops.periodic_check o.flow).1 in
          let o' : Owned F = record o { flow = g } in
          let at_key = one.2 key ∙ rw (beq_self key, active) refl in
          let at_id : find id s1.1.store ≡ some o' = one.3 id ∙ rw (beq_self id, active) refl in
          let outside : contains key es ≡ false =
            ap (λ x. elim x [ none ↦ false | some w ↦ true ]) alone in
          let (mapped', there') = all.2 key id o' at_key at_id in
          rw active (mapped' ∙ rw outside refl, there' ∙ rw outside refl)
      | inr done ↦ rw done (
        all.3 key (one.2 key ∙ rw (beq_self key, done) refl),
        all.4 id (one.3 id ∙ rw (beq_self id, done) refl),
      )
    ]

    each-Left :
        (k : Key) (i : ℕ) (p : Owned F)
        → find k s.1.active ≡ some i
        → find i s.1.store ≡ some p
        → Left r k i p (contains k ((key, id) ∷ es))
    each-Left k i p m a = elim (Bool-cases (same_key key k)) [
      | inl same ↦
          let at : key ≡ k = (same_key_iff key k).0 same in
          let ids : some id ≡ some i = sym mapped ∙ ap (λ j. find j s.1.active) at ∙ m in
          let eq : id ≡ i = some_eq ids in
          let objects : some o ≡ some p = sym there ∙ ap (λ j. find j s.1.store) eq ∙ a in
          let found : o ≡ p = some_owned objects in
          subst (Left r k i p) (head_contains key k id es same) (
            subst (λ x. Left r x i p true) at
              (subst (λ x. Left r key x p true) eq
                (subst (λ x. Left r key id x true) found first-Left)))
      | inr other ↦
          let (q, at, named) = v.owned k i m in
          let (q', at', named') = v.owned key id mapped in
          let apart = other_id s.1 key k id i q' q other at' named' at named in
          subst (Left r k i p) (tail_contains key k id es other)
            (all.2 k i p (one.2 k ∙ rw other m) (one.3 i ∙ rw apart a))
    ]
      where
        some_eq : {x y : ℕ} → some x ≡ some y → x ≡ y
        some_eq e = cc e

        some_owned : {x y : Owned F} → some x ≡ some y → x ≡ y
        some_owned e = cc e

    all_checked : AllChecked ((key, id) ∷ es) s r
    all_checked = (
      all.0,
      all.1 ∙ one.1,
      each-Left,
      λ k e. all.3 k (one.2 k ∙ absent_key k e),
      λ i e. all.4 i (one.3 i ∙ absent_id i e),
    )
      where
        absent_key :
            (k : Key)
            → find k s.1.active ≡ none
            → (if same_key key k
                then (if stays ops o then some id else none)
                else find k s.1.active)
              ≡ none
        absent_key k e = elim (Bool-cases (same_key key k)) [
          | inl same ↦
              let at : key ≡ k = (same_key_iff key k).0 same in
              absurd (cc (sym e ∙ sym (ap (λ j. find j s.1.active) at) ∙ mapped))
          | inr other ↦ rw other e
        ]

        absent_id :
            (i : ℕ)
            → find i s.1.store ≡ none
            → (if id == i then checked ops o else find i s.1.store) ≡ none
        absent_id i e = elim (Bool-cases (id == i)) [
          | inl same ↦
              let at : id ≡ i = (==_iff id i).0 same in
              absurd (cc (sym e ∙ sym (ap (λ j. find j s.1.store) at) ∙ there))
          | inr other ↦ rw other e
        ]

  pub check_all-AllChecked :
      (es : List (Key × ℕ)) (s : Common × Table F)
      → Valid s.1
      → Distinct es
      → ((k : Key) (i : ℕ) → find k es ≡ some i → find k s.1.active ≡ some i)
      → AllChecked es s (check_all ops es s)
  unfolding check_all find
  check_all-AllChecked [] s v d h =
      (v, refl, λ k i o mapped there. (mapped, there), λ k e. e, λ i e. e)
  check_all-AllChecked ((key, id) ∷ es) (c, t) v (alone, d) h =
      let mapped = h key id (rw (beq_self key) refl) in
      let (o, there, named) = v.owned key id mapped in
      let one = check_one-OneChecked ops key id o c t v mapped there in
      let s1 = check_one ops key id (c, t) in
      let all = check_all-AllChecked es s1 one.0 d (λ k i e.
        let other = other_key key k i es alone e in one.2 k ∙ rw other (h k i (rw other e))) in
      all_checked key id es (c, t) s1 (check_all ops es s1) o v alone mapped there one all

  -- On a table whose map and channels agree, `HandleRTO` uses no iterator of a flow that is gone, and
  -- map and channels agree after it. Every active flow is checked once: one that goes on stays under its
  -- key, as the check left it, and one that is done is removed from the map and from its channel.
  pub handle_rto_lem :
      (c : Common) (t : Table F) (key : Key) (id : ℕ) (o : Owned F)
      → Valid t
      → find key t.active ≡ some id
      → find id t.store ≡ some o
      → let (c', t') = handle_rto ops (c, t) in
        Valid t'
        × (c'.aborted ≡ c.aborted)
        × (find key t'.active ≡ (if (ops.periodic_check o.flow).0 then some id else none))
        × (find id t'.store ≡ checked ops o)
  handle_rto_lem c t key id o v mapped there =
      let (valid, ran, each, _, _) =
        check_all-AllChecked t.active (c, t) v v.distinct (λ k i e. e) in
      let (active, kept) = each key id o mapped there in
      let inside : contains key t.active ≡ true =
        ap (λ x. elim x [ none ↦ false | some w ↦ true ]) mapped in
      (valid, ran, active ∙ rw inside (flip (stays ops o)), kept ∙ rw inside refl)
    where
      flip : (b : Bool) → (if not b then none else some id) ≡ (if b then some id else none)
      flip true = refl
      flip false = refl
