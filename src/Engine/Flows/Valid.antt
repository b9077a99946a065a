-- ===== src/Engine/Flows/Valid.antt =====
-- src/include/machnet_engine.h: the map of active flows and the lists of the channels agree.
use mathlib.Core.Path.{subst}
use machnet.Base.{
  ℕ, ◌+◌, ◌<◌, ◌≡◌, refl, sym, ap, ◌∙◌, true, false, none, some, ◌∷◌, ◌⊎◌, inl, inr, arith,
  Bool-cases, ◌==◌, ==_iff, if◌then◌else◌,
}
use machnet.Base.Maps.{
  find, insert, erase, contains, emplace, nat_eq, find-insert, find-erase, Distinct,
  Distinct-insert, Distinct-erase,
}
use machnet.Engine.Flows.{Key, key_eq, same_key, same_key_iff, Owned, Table}

module _ {F : Type 0} where
  -- Every iterator of the map is that of a flow with the map's key, the map has each key once, and no
  -- iterator is one that is still to be given out.
  pub record Valid (t : Table F) : Type 0 where
    pub owned :
        (k : Key) (id : ℕ)
        → find k t.active ≡ some id
        → (o : Owned F) × (find id t.store ≡ some o) × (o.key ≡ k)
    pub fresh : (id : ℕ) (o : Owned F) → find id t.store ≡ some o → id < t.next
    pub distinct : Distinct t.active

  -- An object that is written back under its key
  pub Valid-write :
      (t : Table F) (id : ℕ) (o o' : Owned F)
      → Valid t
      → find id t.store ≡ some o
      → o'.key ≡ o.key
      → Valid (record t { store = insert id o' t.store })
  Valid-write t id o o' v there same = record {
    owned = λ k i e.
        let (p, at, named) = v.owned k i e in write_at k i p at named (Bool-cases (id == i));
    fresh = λ i p e. fresh_at i p (Bool-cases (id == i)) (sym (find-insert id i o' t.store) ∙ e);
    distinct = v.distinct;
  }
    where
      write_at :
          (k : Key) (i : ℕ) (p : Owned F)
          → find i t.store ≡ some p
          → p.key ≡ k
          → (id == i ≡ true) ⊎ (id == i ≡ false)
          → (q : Owned F) × (find i (insert id o' t.store) ≡ some q) × (q.key ≡ k)
      write_at k i p at named (inl e) =
          let eq : id ≡ i = (==_iff id i).0 e in
          let one : some o ≡ some p = sym there ∙ ap (λ j. find j t.store) eq ∙ at in
          let keys : o.key ≡ p.key = ap (λ q. q.key) (some_eq one) in
          (o', find-insert id i o' t.store ∙ rw e refl, same ∙ keys ∙ named)
        where
          some_eq : {a b : Owned F} → some a ≡ some b → a ≡ b
          some_eq e = cc e
      write_at k i p at named (inr e) = (p, find-insert id i o' t.store ∙ rw e at, named)

      fresh_at :
          (i : ℕ) (p : Owned F)
          → (id == i ≡ true) ⊎ (id == i ≡ false)
          → (if id == i then some o' else find i t.store) ≡ some p
          → i < t.next
      fresh_at i p (inl e) g = subst (λ j. j < t.next) ((==_iff id i).0 e) (v.fresh id o there)
      fresh_at i p (inr e) g = v.fresh i p (rw e at g)

  -- A flow that is made, under a key that may be in the map already.
  pub Valid-add :
      (t : Table F) (o : Owned F)
      → Valid t
      → Valid (record t {
        store = (t.next, o) ∷ t.store;
        next = t.next + 1;
        active = emplace o.key t.next t.active;
      })
  unfolding find
  Valid-add t o v = elim (Bool-cases (contains o.key t.active)) [
    | inl taken ↦ rw taken (record {
      owned = λ k i e. let (p, at, named) = v.owned k i e in (p, older i p at, named);
      fresh = fresh_at;
      distinct = v.distinct;
    })
    | inr open_key ↦ rw open_key (record {
      owned = λ k i e.
          added k i (Bool-cases (same_key o.key k)) (sym (find-insert o.key k t.next t.active) ∙ e);
      fresh = fresh_at;
      distinct = Distinct-insert o.key t.next t.active v.distinct;
    })
  ]
    where
      older :
          (i : ℕ) (p : Owned F)
          → find i t.store ≡ some p
          → (if t.next == i then some o else find i t.store) ≡ some p
      older i p at =
          let lt = v.fresh i p at in
          let apart : (t.next == i) ≡ false = ground (arith, lt) in rw apart at

      fresh_at :
          (i : ℕ) (p : Owned F)
          → (if t.next == i then some o else find i t.store) ≡ some p
          → i < t.next + 1
      fresh_at i p e = elim (Bool-cases (t.next == i)) [
        | inl at ↦ ground (arith, at)
        | inr apart ↦ omega (arith, v.fresh i p (rw apart at e))
      ]

      added :
          (k : Key) (i : ℕ)
          → (same_key o.key k ≡ true) ⊎ (same_key o.key k ≡ false)
          → (if same_key o.key k then some t.next else find k t.active) ≡ some i
          → (p : Owned F) × ((if t.next == i then some o else find i t.store) ≡ some p)
            × (p.key ≡ k)
      added k i (inl same) e =
          let eq : some t.next ≡ some i = rw same at e in
          let at : (t.next == i) ≡ true = ground (arith, eq) in
          (o, rw at refl, (same_key_iff o.key k).0 same)
      added k i (inr other) e =
          let (p, at, named) = v.owned k i (rw other at e) in (p, older i p at, named)

  -- A flow that is removed with its entry
  pub Valid-remove :
      (t : Table F) (key : Key) (id : ℕ) (o : Owned F)
      → Valid t
      → find key t.active ≡ some id
      → find id t.store ≡ some o
      → Valid (record t { store = erase id t.store; active = erase key t.active })
  Valid-remove t key id o v mapped there = record {
    owned = λ k i e. left k i (Bool-cases (same_key key k)) (sym (find-erase key k t.active) ∙ e);
    fresh =
        λ i p e. v.fresh i p (still i p (Bool-cases (id == i)) (sym (find-erase id i t.store) ∙ e));
    distinct = Distinct-erase key t.active v.distinct;
  }
    where
      still :
          (i : ℕ) (p : Owned F)
          → (id == i ≡ true) ⊎ (id == i ≡ false)
          → (if id == i then none else find i t.store) ≡ some p
          → find i t.store ≡ some p
      still i p (inl at) e = absurd (cc (rw at at e))
      still i p (inr apart) e = rw apart at e

      left :
          (k : Key) (i : ℕ)
          → (same_key key k ≡ true) ⊎ (same_key key k ≡ false)
          → (if same_key key k then none else find k t.active) ≡ some i
          → (p : Owned F) × (find i (erase id t.store) ≡ some p) × (p.key ≡ k)
      left k i (inl same) e = absurd (cc (rw same at e))
      left k i (inr other) e =
          let (p, at, named) = v.owned k i (rw other at e) in
          let (q, at_key, is_key) = v.owned key id mapped in
          elim (Bool-cases (id == i)) [
            | inl one ↦
                let eq : id ≡ i = (==_iff id i).0 one in
                let objects : some q ≡ some p = sym at_key ∙ ap (λ j. find j t.store) eq ∙ at in
                let keys : key ≡ k = sym is_key ∙ key_of objects ∙ named in
                absurd (cc (sym other ∙ (same_key_iff key k).1 keys))
            | inr apart ↦ (p, find-erase id i t.store ∙ rw apart at, named)
          ]
        where
          key_of : {a b : Owned F} → some a ≡ some b → a.key ≡ b.key
          key_of e = cc e
