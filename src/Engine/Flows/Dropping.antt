-- ===== src/Engine/Flows/Dropping.antt =====
-- src/include/machnet_engine.h: the flows that are destroyed with a channel.
use machnet.Base.{
  ℕ, ◌≡◌, refl, sym, ap, ◌∙◌, true, false, none, some, List, [], ◌∷◌, ◌⊎◌, inl, inr, Bool-cases,
  Option-cases, ◌==◌, if◌then◌else◌,
}
use machnet.Base.Maps.{find, erase, nat_eq, find-erase, beq_self}
use machnet.Engine.Flows.{Owned, drop_flow, drop_flows}

module _ {F : Type 0} where
  -- A store without the object at an iterator, where that is one of the channel
  record Culled (channel id : ℕ) (s u : List (ℕ × Owned F)) : Type 0 where
    less : (i : ℕ) (o : Owned F) → find i u ≡ some o → find i s ≡ some o
    others :
        (i : ℕ) (o : Owned F)
        → find i s ≡ some o
        → (o.channel == channel) ≡ false
        → find i u ≡ some o
    none_there : (o : Owned F) → find id u ≡ some o → (o.channel == channel) ≡ false

  drop_flow-Culled :
      (channel id : ℕ) (store : List (ℕ × Owned F))
      → Culled channel id store (drop_flow channel id store)
  unfolding drop_flow
  drop_flow-Culled channel id store = elim (Option-cases (find id store)) [
    | inl nothing ↦
        rw (nothing, drop_flow)
          (record {
            less = λ i p e. e;
            others = λ i p e other. e;
            none_there = λ p e. absurd (cc (sym nothing ∙ e));
          })
    | inr (q, there) ↦ elim (Bool-cases (q.channel == channel)) [
      | inl its ↦
          rw (there, drop_flow, its)
            (record {
              less = λ i p e. less i p (Bool-cases (id == i)) (sym (find-erase id i _) ∙ e);
              others = λ i p e other.
                  find-erase id i _ ∙ rw (apart i p q there its e other (Bool-cases (id == i))) e;
              none_there = λ p e. absurd (cc (sym none_itself ∙ e));
            })
      | inr other ↦
          rw (there, drop_flow, other)
            (record {
              less = λ i p e. e;
              others = λ i p e not_its. e;
              none_there = λ p e.
                  let is : some q ≡ some p = sym there ∙ e in
                  let channels : q.channel ≡ p.channel = channel_of is in rw channels at other;
            })
    ]
  ]
    where
      channel_of : {a b : Owned F} → some a ≡ some b → a.channel ≡ b.channel
      channel_of e = cc e

      none_itself : find id (erase id store) ≡ none
      none_itself = find-erase id id store ∙ rw (beq_self id) refl

      less :
          (i : ℕ) (p : Owned F)
          → (id == i ≡ true) ⊎ (id == i ≡ false)
          → (if id == i then none else find i store) ≡ some p
          → find i store ≡ some p
      less i p (inl at) e = absurd (cc (rw at at e))
      less i p (inr apart) e = rw apart at e

      apart :
          (i : ℕ) (p q : Owned F)
          → find id store ≡ some q
          → (q.channel == channel) ≡ true
          → find i store ≡ some p
          → (p.channel == channel) ≡ false
          → (id == i ≡ true) ⊎ (id == i ≡ false)
          → (id == i) ≡ false
      apart i p q there its e other (inr differ) = differ
      apart i p q there its e other (inl at) =
          let eq : id ≡ i = (nat_eq.beq_iff id i).0 at in
          let is : some q ≡ some p = sym there ∙ ap (λ j. find j store) eq ∙ e in
          let channels : q.channel ≡ p.channel = channel_of is in
          let both : (p.channel == channel) ≡ true = rw channels at its in
          absurd (cc (sym other ∙ both))

  -- What is left of a store
  pub record Dropped (channel : ℕ) (os s u : List (ℕ × Owned F)) : Type 0 where
    pub left : (i : ℕ) (o : Owned F) → find i u ≡ some o → find i s ≡ some o
    pub others :
        (i : ℕ) (o : Owned F)
        → find i s ≡ some o
        → (o.channel == channel) ≡ false
        → find i u ≡ some o
    pub cleared :
        (i : ℕ) (o p : Owned F)
        → find i os ≡ some p
        → find i u ≡ some o
        → (o.channel == channel) ≡ false

  pub drop_flows-Dropped :
      (channel : ℕ) (os store : List (ℕ × Owned F))
      → Dropped channel os store (drop_flows channel os store)
  unfolding drop_flows find
  drop_flows-Dropped channel [] store = record {
    left = λ i o e. e;
    others = λ i o e other. e;
    cleared = λ i o p none_is e. absurd (cc none_is);
  }
  drop_flows-Dropped channel ((id, o) ∷ os) store =
      let rest = drop_flows-Dropped channel os store in
      let culled = drop_flow-Culled channel id (drop_flows channel os store) in
      record {
        left = λ i p e. rest.left i p (culled.less i p e);
        others = λ i p e other. culled.others i p (rest.others i p e other) other;
        cleared = λ i p q e there. clear rest culled i p q e there (Bool-cases (id == i));
      }
    where
      clear :
          Dropped channel os store (drop_flows channel os store)
          → Culled channel id
              (drop_flows channel os store)
              (drop_flows channel ((id, o) ∷ os) store)
          → (i : ℕ) (p q : Owned F) → (if id == i then some o else find i os) ≡ some q
          → find i (drop_flows channel ((id, o) ∷ os) store) ≡ some p
          → (id == i ≡ true) ⊎ (id == i ≡ false)
          → (p.channel == channel) ≡ false
      clear rest culled i p q e there (inl at) =
          let eq : id ≡ i = (nat_eq.beq_iff id i).0 at in
          culled.none_there p
            (ap (λ j. find j (drop_flows channel ((id, o) ∷ os) store)) eq ∙ there)
      clear rest culled i p q e there (inr apart) =
          rest.cleared i p q (rw apart at e) (culled.less i p there)
