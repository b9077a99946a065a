-- ===== src/Engine/Protocols/Requests.antt =====
-- src/include/machnet_engine.h, `ProcessControlRequests`: one pending request.
use mathlib.Core.Path.{subst}
use machnet.Base.{
  ℕ, ◌+◌, ◌-◌, ◌%◌, ◌^◌, ◌≡◌, refl, sym, ap, ◌∙◌, Bool, true, false, not, ◌&&◌, none, some, List,
  inl, inr, arith, Bool-cases, Option-cases, ltb, ◌==◌, if◌then◌else◌,
}
use machnet.Base.Maps.{find, contains, nat_eq}
use machnet.Engine.Ports.{src_port_alloc}
use machnet.Engine.Arp.{get_l2_addr, request_l2_addr, send_frame}
use machnet.Engine.Flows.{
  Key, key_eq, same_key, same_key_iff, FlowOps, Owned, Pending, Table, Common, EngineEnv, call_flow,
  create_flow,
}
use machnet.Engine.Flows.Control.{rss_suits, try_request, pending_request_timeout_slow_ticks}
use machnet.Engine.Flows.Valid.{Valid}
use machnet.Engine.Flows.Calls.{create_flow-Made}

-- Whether a request is too old at a tick
abbrev pub is_late : ℕ → Pending → Bool
is_late ticks r = ltb pending_request_timeout_slow_ticks ((ticks + 2 ^ 64 - r.timestamp) % 2 ^ 64)

-- Whether a request stays in the list: it is not too old, and the address of the other side is not known.
abbrev pub waits : ℕ → List (ℕ × ℕ) → Pending → Bool
waits ticks arp_table r = not (is_late ticks r) && not (contains r.dst_addr arp_table)

-- A state in which flows may have been made, and all else of the flows is as it was
abbrev pub Grown : {F : Type 0} → Common × Table F → Common × Table F → Type 0
Grown s r =
    Valid r.1
    × (r.0.aborted ≡ s.0.aborted)
    × (r.0.periodic_ticks ≡ s.0.periodic_ticks)
    × (r.0.arp.arp_table ≡ s.0.arp.arp_table)
    × ((k : Key) (i : ℕ) → find k s.1.active ≡ some i → find k r.1.active ≡ some i)
    × ((i : ℕ) (o : Owned _) → find i s.1.store ≡ some o → find i r.1.store ≡ some o)

module _ {F P M : Type 0} (ops : FlowOps F P M) (env : EngineEnv) where
  abbrev pub Tried : Pending → Common × Table F → Bool × (Common × Table F) → Type 0
  Tried r s (stays, s') = (stays ≡ waits s.0.periodic_ticks s.0.arp.arp_table r) × Grown s s'

  module _ (r : Pending) (c : Common) (t : Table F) (v : Valid t) where
    abbrev asked : Common
    asked = record c { arp = (get_l2_addr env.packet_alloc r.src_addr r.dst_addr c.arp).1 }

    abbrev given : Common
    given = record asked { shared = (src_port_alloc (rss_suits env r) r.src_addr c.shared).1 }

    abbrev key_at : ℕ → Key
    key_at p = record {
      local_addr = r.src_addr;
      local_port = p;
      remote_addr = r.dst_addr;
      remote_port = r.dst_port;
    }

    abbrev opened : ℕ → Common × Table F
    opened p =
        call_flow ops ops.initiate_handshake t.next
          (given, create_flow ops (key_at p) r.channel (some r.id) t)

    -- A look-up teaches nothing, and gives what the table has.
    known_address :
        (get_l2_addr env.packet_alloc r.src_addr r.dst_addr c.arp).0
        ≡ find r.dst_addr c.arp.arp_table
    unfolding get_l2_addr
    known_address = elim (Option-cases (find r.dst_addr c.arp.arp_table)) [
      | inl missing ↦ rw (missing, get_l2_addr) refl
      | inr (l2, there) ↦ rw (there, get_l2_addr) refl
    ]

    same_table : asked.arp.arp_table ≡ c.arp.arp_table
    unfolding get_l2_addr request_l2_addr send_frame
    same_table = elim (Option-cases (find r.dst_addr c.arp.arp_table)) [
      | inl missing ↦ elim (Bool-cases (env.packet_alloc c.arp.packet_allocs)) [
        | inl gets ↦ rw (missing, get_l2_addr, gets) refl
        | inr fails ↦ rw (missing, get_l2_addr, fails) refl
      ]
      | inr (l2, there) ↦ rw (there, get_l2_addr) refl
    ]

    late_request :
        is_late c.periodic_ticks r ≡ true → try_request ops env r (c, t) ≡ (false, (c, t))
    unfolding try_request
    late_request late = rw (late, try_request) refl

    unresolved :
        is_late c.periodic_ticks r ≡ false
        → (get_l2_addr env.packet_alloc r.src_addr r.dst_addr c.arp).0 ≡ none
        → try_request ops env r (c, t) ≡ (true, (asked, t))
    unfolding try_request
    unresolved early unknown = rw (early, try_request, unknown) refl

    no_port :
        (addr : ℕ)
        → is_late c.periodic_ticks r ≡ false
        → (get_l2_addr env.packet_alloc r.src_addr r.dst_addr c.arp).0 ≡ some addr
        → (src_port_alloc (rss_suits env r) r.src_addr c.shared).0 ≡ none
        → try_request ops env r (c, t) ≡ (false, (given, t))
    unfolding try_request
    no_port addr early known full = rw (early, try_request, known, full) refl

    flow_made :
        (addr p : ℕ)
        → is_late c.periodic_ticks r ≡ false
        → (get_l2_addr env.packet_alloc r.src_addr r.dst_addr c.arp).0 ≡ some addr
        → (src_port_alloc (rss_suits env r) r.src_addr c.shared).0 ≡ some p
        → try_request ops env r (c, t) ≡ (false, opened p)
    unfolding try_request
    flow_made addr p early known port = rw (early, try_request, known, port) refl

    unmade :
        (a : Common)
        → a.aborted ≡ c.aborted
        → a.periodic_ticks ≡ c.periodic_ticks
        → a.arp.arp_table ≡ c.arp.arp_table
        → Grown (c, t) (a, t)
    unmade a ran ticks table = (v, ran, ticks, table, λ k i e. e, λ i o e. e)

    call_flow_clock :
        (method : F → F) (id : ℕ) (a : Common) (u : Table F)
        → ((call_flow ops method id (a, u)).0.periodic_ticks ≡ a.periodic_ticks)
          × ((call_flow ops method id (a, u)).0.arp ≡ a.arp)
    unfolding call_flow
    call_flow_clock method id a u = elim (Option-cases (find id u.store)) [
      | inl nothing ↦ (rw (nothing, call_flow) refl, rw (nothing, call_flow) refl)
      | inr (o, there) ↦
          (rw (there, call_flow) (ground arith), rw (there, call_flow) (ground arith))
    ]

    opened-Grown : (p : ℕ) → Grown (c, t) (opened p)
    opened-Grown p =
        let (valid, ran, active, store) =
          create_flow-Made ops ops.initiate_handshake (key_at p) r.channel (some r.id) given t v in
        let clock =
          call_flow_clock ops.initiate_handshake t.next given
            (create_flow ops (key_at p) r.channel (some r.id) t) in
        (
          valid,
          ran,
          clock.0,
          ap (λ a. a.arp_table) clock.1 ∙ same_table,
          λ k i e. active k ∙ kept (key_at p) k i e,
          λ i o e.
              let older : (t.next == i) ≡ false = ground (arith, v.fresh i o e) in
              store i ∙ rw older e,
        )
      where
        kept :
            (key k : Key) (i : ℕ)
            → find k t.active ≡ some i
            → (if not (contains key t.active) && same_key key k
                then some t.next
                else find k t.active)
              ≡ some i
        kept key k i e = elim (Bool-cases (same_key key k)) [
          | inl same ↦
              let at : key ≡ k = (same_key_iff key k).0 same in
              let taken : contains key t.active ≡ true =
                ap (λ x. elim x [ none ↦ false | some w ↦ true ])
                  (ap (λ j. find j t.active) at ∙ e) in
              rw taken e
          | inr other ↦ rw other (ground (arith, e))
        ]

    -- Whether the request stays, by what is known of it
    late_goes : is_late c.periodic_ticks r ≡ true → false ≡ waits c.periodic_ticks c.arp.arp_table r
    late_goes late = rw late refl

    unknown_stays :
        is_late c.periodic_ticks r ≡ false
        → (get_l2_addr env.packet_alloc r.src_addr r.dst_addr c.arp).0 ≡ none
        → true ≡ waits c.periodic_ticks c.arp.arp_table r
    unknown_stays early unknown =
        let missing : find r.dst_addr c.arp.arp_table ≡ none = sym known_address ∙ unknown in
        rw (early, contains, missing) refl

    known_goes :
        (addr : ℕ)
        → is_late c.periodic_ticks r ≡ false
        → (get_l2_addr env.packet_alloc r.src_addr r.dst_addr c.arp).0 ≡ some addr
        → false ≡ waits c.periodic_ticks c.arp.arp_table r
    known_goes addr early known =
        let there : find r.dst_addr c.arp.arp_table ≡ some addr = sym known_address ∙ known in
        rw (early, contains, there) refl

    pub try_request-Tried : Tried r (c, t) (try_request ops env r (c, t))
    try_request-Tried = elim (Bool-cases (is_late c.periodic_ticks r)) [
      | inl late ↦
          subst (Tried r (c, t)) (sym (late_request late)) (late_goes late, unmade c refl refl refl)
      | inr early ↦
          elim (Option-cases (get_l2_addr env.packet_alloc r.src_addr r.dst_addr c.arp).0) [
            | inl unknown ↦
                subst (Tried r (c, t)) (sym (unresolved early unknown))
                  (unknown_stays early unknown, unmade asked refl refl same_table)
            | inr (addr, known) ↦
                elim (Option-cases (src_port_alloc (rss_suits env r) r.src_addr c.shared).0) [
                  | inl full ↦
                      subst (Tried r (c, t)) (sym (no_port addr early known full))
                        (known_goes addr early known, unmade given refl refl same_table)
                  | inr (p, port) ↦
                      subst (Tried r (c, t)) (sym (flow_made addr p early known port))
                        (known_goes addr early known, opened-Grown p)
                ]
          ]
    ]
