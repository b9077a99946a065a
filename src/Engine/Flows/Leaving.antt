-- ===== src/Engine/Flows/Leaving.antt =====
-- src/include/machnet_engine.h, `ChannelsUpdate`: the flows of a channel that leaves, and their end.
use machnet.Base.{
  ℕ, ◌≡◌, refl, sym, ap, ◌∙◌, Bool, true, false, ◌&&◌, ◌||◌, none, some, arith, List, [], ◌∷◌, ◌⊎◌,
  inl, inr, Bool-cases, Option-cases, ◌==◌, if◌then◌else◌,
}
use machnet.Base.Maps.{find, contains, nat_eq, find-insert, find-erase}
use machnet.Engine.Ports.{src_port_release}
use machnet.Engine.Flows.{
  Key, key_eq, same_key, same_key_iff, FlowOps, Owned, Table, Common, call_flow, drop_channel,
}
use machnet.Engine.Flows.Dropping.{drop_flows-Dropped}
use machnet.Engine.Flows.Valid.{Valid}
use machnet.Engine.Flows.Removal.{remove_flow, remove_flows, remove_flows-Valid}

-- Whether a list of flow objects has one of a channel under a key
abbrev pub has_flow : {F : Type 0} → ℕ → Key → List (ℕ × Owned F) → Bool
has_flow channel k [] = false
has_flow channel k ((_, o) ∷ os) =
    (o.channel == channel && same_key o.key k) || has_flow channel k os

module _ {F : Type 0} where
  has_flow-found :
      (channel i : ℕ) (p : Owned F) (os : List (ℕ × Owned F))
      → find i os ≡ some p
      → (p.channel == channel) ≡ true
      → has_flow channel p.key os ≡ true
  unfolding find
  has_flow-found channel i p [] e its = absurd (cc e)
  has_flow-found channel i p ((id, o) ∷ os) e its = elim (Bool-cases (id == i)) [
    | inl at ↦
        let is : o ≡ p = some_eq (rw at at e) in
        let key : same_key o.key p.key ≡ true = (same_key_iff o.key p.key).1 (ap (λ q. q.key) is) in
        let channel_is : o.channel ≡ p.channel = ap (λ q. q.channel) is in
        rw (channel_is, its, key) refl
    | inr apart ↦
        let behind = has_flow-found channel i p os (rw apart at e) its in ground (arith, behind)
  ]
    where
      some_eq : {a b : Owned F} → some a ≡ some b → a ≡ b
      some_eq e = cc e

module _ {F P M : Type 0} (ops : FlowOps F P M) where
  -- Each object of `u` is in `t` with its key and channel.
  abbrev Within : Table F → Table F → Type 0
  Within t u =
      (i : ℕ) (o : Owned F)
      → find i u.store ≡ some o
      → (p : Owned F) × (find i t.store ≡ some p) × (p.key ≡ o.key) × (p.channel ≡ o.channel)

  Within-then : (t u w : Table F) → Within t u → Within u w → Within t w
  Within-then t u w a b i o e =
      let (p, at, key, channel) = b i o e in
      let (q, at', key', channel') = a i p at in (q, at', key' ∙ key, channel' ∙ channel)

  call_flow-Within :
      (method : F → F) (id : ℕ) (c : Common) (t : Table F)
      → Within t (call_flow ops method id (c, t)).1
        × ((call_flow ops method id (c, t)).1.active ≡ t.active)
  unfolding call_flow
  call_flow-Within method id c t = elim (Option-cases (find id t.store)) [
    | inl nothing ↦ rw (nothing, call_flow) (λ i o e. (o, e, refl, refl), refl)
    | inr (o, there) ↦
        rw (there, call_flow)
          (
            λ i p e.
                written o there i p (Bool-cases (id == i))
                  (sym (find-insert id i (record o { flow = method o.flow }) t.store) ∙ e),
            refl,
          )
  ]
    where
      written :
          (o : Owned F)
          → find id t.store ≡ some o
          → (i : ℕ) (p : Owned F) → (id == i ≡ true) ⊎ (id == i ≡ false)
          → (if id == i then some (record o { flow = method o.flow }) else find i t.store) ≡ some p
          → (q : Owned F) × (find i t.store ≡ some q) × (q.key ≡ p.key) × (q.channel ≡ p.channel)
      written o there i p (inl at) e =
          let is : some (record o { flow = method o.flow }) ≡ some p = rw at at e in
          let eq : id ≡ i = (nat_eq.beq_iff id i).0 at in
          let p_is : record o { flow = method o.flow } ≡ p = some_eq is in
          (
            o,
            sym (ap (λ j. find j t.store) eq) ∙ there,
            ap (λ q. q.key) p_is,
            ap (λ q. q.channel) p_is,
          )
        where
          some_eq : {a b : Owned F} → some a ≡ some b → a ≡ b
          some_eq e = cc e
      written o there i p (inr apart) e = (p, rw apart at e, refl, refl)

  -- The key of a flow that is removed has no entry, and every other key the entry that it had.
  remove_flow-Within :
      (key : Key) (id : ℕ) (s : Common × Table F)
      → Within s.1 (remove_flow ops key id s).1
        × ((k : Key)
            → find k (remove_flow ops key id s).1.active
              ≡ (if same_key key k then none else find k s.1.active))
  unfolding remove_flow
  remove_flow-Within key id (c, t) = elim (Option-cases (find key t.active)) [
    | inl nothing ↦
        rw (contains, nothing)
          (λ i o e. (o, e, refl, refl), λ k. missing k nothing (Bool-cases (same_key key k)))
    | inr (i, there) ↦
        let called =
          call_flow-Within ops.shut_down id
            (record c { shared = src_port_release key.local_addr key.local_port c.shared }) t in
        rw (contains, there)
          (
            called.0,
            λ k. find-erase key k _ ∙ ap (λ m. if same_key key k then none else find k m) called.1,
          )
  ]
    where
      missing :
          (k : Key)
          → find key t.active ≡ none
          → (same_key key k ≡ true) ⊎ (same_key key k ≡ false)
          → find k t.active ≡ (if same_key key k then none else find k t.active)
      missing k nothing (inl same) =
          rw same (sym (ap (λ j. find j t.active) ((same_key_iff key k).0 same)) ∙ nothing)
      missing k nothing (inr other) = rw other refl

  remove_flows-Within :
      (channel : ℕ) (flows : List (ℕ × Owned F)) (s : Common × Table F)
      → Within s.1 (remove_flows ops channel flows s).1
        × ((k : Key)
            → find k (remove_flows ops channel flows s).1.active
              ≡ (if has_flow channel k flows then none else find k s.1.active))
  unfolding remove_flows
  remove_flows-Within channel [] s = (λ i o e. (o, e, refl, refl), λ k. refl)
  remove_flows-Within channel ((id, o) ∷ newer) s =
      let (within, entries) = remove_flows-Within channel newer s in
      let s' = remove_flows ops channel newer s in
      elim (Bool-cases (o.channel == channel)) [
        | inl its ↦
            let (within', entries') = remove_flow-Within o.key id s' in
            rw its (
              Within-then s.1 s'.1 (remove_flow ops o.key id s').1 within within',
              λ k. entries' k ∙ rw (entries k) (ground arith),
            )
        | inr other ↦ rw other (within, entries)
      ]

  -- On a table whose map and channels agree, where the flows of a channel are removed and then destroyed
  -- with it, exactly the keys of its flows lose their entries, no flow of the channel is left, and map
  -- and channels agree after it.
  pub drop_channel-remove_flows :
      (channel : ℕ) (c : Common) (t : Table F)
      → Valid t
      → let u = drop_channel channel (remove_flows ops channel t.store (c, t)).1 in
        Valid u
        × ((k : Key)
            → find k u.active ≡ (if has_flow channel k t.store then none else find k t.active))
        × ((i : ℕ) (o : Owned F) → find i u.store ≡ some o → (o.channel == channel) ≡ false)
  drop_channel-remove_flows channel c t v =
      let r = (remove_flows ops channel t.store (c, t)).1 in
      let w = remove_flows-Valid ops channel t.store (c, t) v in
      let (within, entries) = remove_flows-Within channel t.store (c, t) in
      let dropped = drop_flows-Dropped channel r.store r.store in
      (
        record {
          owned = λ k i e.
              let (o, there, named) = w.owned k i e in
              (
                o,
                dropped.others i o there (
                    stranger k i o within entries e there named
                      (Bool-cases (o.channel == channel))),
                named,
              );
          fresh = λ i o e. w.fresh i o (dropped.left i o e);
          distinct = w.distinct;
        },
        entries,
        λ i o e. dropped.cleared i o o (dropped.left i o e) e,
      )
    where
      -- A flow that still has an entry is of another channel.
      stranger :
          (k : Key) (i : ℕ) (o : Owned F)
          → Within t (remove_flows ops channel t.store (c, t)).1
          → ((j : Key)
              → find j (remove_flows ops channel t.store (c, t)).1.active
                ≡ (if has_flow channel j t.store then none else find j t.active))
          → find k (remove_flows ops channel t.store (c, t)).1.active ≡ some i
          → find i (remove_flows ops channel t.store (c, t)).1.store ≡ some o
          → o.key ≡ k
          → (o.channel == channel ≡ true) ⊎ (o.channel == channel ≡ false)
          → (o.channel == channel) ≡ false
      stranger k i o within entries e there named (inr other) = other
      stranger k i o within entries e there named (inl its) =
          let (p, before, key, of_channel) = within i o there in
          let mine : (p.channel == channel) ≡ true = rw of_channel its in
          let found : has_flow channel p.key t.store ≡ true =
            has_flow-found channel i p t.store before mine in
          let at_k : has_flow channel k t.store ≡ true =
            ap (λ j. has_flow channel j t.store) (sym (key ∙ named)) ∙ found in
          let none_there : find k (remove_flows ops channel t.store (c, t)).1.active ≡ none =
            entries k ∙ rw at_k refl in
          absurd (cc (sym none_there ∙ e))
