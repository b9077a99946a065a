-- ===== src/Engine/Protocols/Loop.antt =====
-- src/include/machnet_engine.h, `ProcessControlRequests`: the loop over the pending requests.
use mathlib.Core.List.{append-nil, append_assoc}
use machnet.Base.{
  ℕ, ◌≡◌, refl, sym, ◌∙◌, Bool, true, false, ◌||◌, List, [], ◌∷◌, ◌++◌, if◌then◌else◌,
}
use machnet.Base.Maps.{nat_eq}
use machnet.Engine.Flows.{key_eq, FlowOps, Pending, Table, Common, EngineEnv, drop_channel}
use machnet.Engine.Flows.Control.{asks, try_request, try_requests}
use machnet.Engine.Flows.Valid.{Valid}
use machnet.Engine.Protocols.Requests.{waits, Grown, Tried, try_request-Tried}

-- The requests of a list that stay, in its order
abbrev pub those_waiting : ℕ → List (ℕ × ℕ) → List Pending → List Pending
those_waiting ticks arp_table [] = []
those_waiting ticks arp_table (r ∷ rs) =
    let rest = those_waiting ticks arp_table rs in
    if waits ticks arp_table r then r ∷ rest else rest

-- Something else than the requests holds the channel of each.
abbrev pub AllHeld : (ℕ → Bool) → List Pending → Type 0
AllHeld alive [] = Unit
AllHeld alive (r ∷ rs) = (alive r.channel ≡ true) × AllHeld alive rs

-- A table with the requests that stay, otherwise the same
Grown-pending :
    {F : Type 0} (c : Common) (t : Table F) (kept : List Pending)
    → Valid t
    → Grown (c, t) (c, record t { pending = kept })
Grown-pending c t kept v = (
  record { owned = v.owned; fresh = v.fresh; distinct = v.distinct },
  refl,
  refl,
  refl,
  λ k i e. e,
  λ i o e. e,
)

Grown-then : {F : Type 0} (s s1 r : Common × Table F) → Grown s s1 → Grown s1 r → Grown s r
Grown-then s s1 r (v, ran, ticks, known, active, store)
      (v', ran', ticks', known', active', store') =
    (
      v',
      ran' ∙ ran,
      ticks' ∙ ticks,
      known' ∙ known,
      λ k i e. active' k i (active k i e),
      λ i o e. store' i o (store i o e),
    )

module _ {F P M : Type 0} (ops : FlowOps F P M) (env : EngineEnv) (alive : ℕ → Bool) where
  -- The loop over `rs` with the requests `kept` before
  abbrev AllTried : List Pending → List Pending → Common × Table F → Common × Table F → Type 0
  AllTried rs kept s r =
      Grown s r × (r.1.pending ≡ kept ++ those_waiting s.0.periodic_ticks s.0.arp.arp_table rs)

  -- The rest of the loop after a request that stays or goes
  after :
      (r : Pending) (rs kept : List Pending) (s s1 : Common × Table F) (stays : Bool)
      → alive r.channel ≡ true
      → Tried ops env r s (stays, s1)
      → ((kept' : List Pending) → AllTried rs kept' s1 (try_requests ops env alive rs kept' s1))
      → AllTried (r ∷ rs) kept s (
          try_requests ops env alive rs (if stays then kept ++ r ∷ [] else kept) (
            if stays || (alive r.channel || asks r.channel rs || asks r.channel kept)
            then s1
            else (s1.0, drop_channel r.channel s1.1)))
  after r rs kept s s1 true held (stays, grown) rest =
      let (more, left) = rest (kept ++ r ∷ []) in
      (
        Grown-then s s1 (try_requests ops env alive rs (kept ++ r ∷ []) s1) grown more,
        rw (sym stays, left, append_assoc kept (r ∷ []), grown.2, grown.3) refl,
      )
  after r rs kept s s1 false held (goes, grown) rest =
      let (more, left) = rest kept in
      rw held (
        Grown-then s s1 (try_requests ops env alive rs kept s1) grown more,
        rw (sym goes, left, grown.2, grown.3) refl,
      )

  try_requests-AllTried :
      (rs kept : List Pending) (c : Common) (t : Table F)
      → Valid t
      → AllHeld alive rs
      → AllTried rs kept (c, t) (try_requests ops env alive rs kept (c, t))
  unfolding try_requests
  try_requests-AllTried [] kept c t v held = (Grown-pending c t kept v, sym (append-nil kept))
  try_requests-AllTried (r ∷ rs) kept c t v (here, there) =
      let tried = try_request-Tried ops env r c t v in
      let (stays, s1) = try_request ops env r (c, t) in
      after r rs kept (c, t) s1 stays here tried
        (λ kept'. try_requests-AllTried rs kept' s1.0 s1.1 tried.1.0 there)

  -- On a table whose map and channels agree, where something else than its pending requests holds the
  -- channel of each of them, the loop over these requests leaves exactly those that have not waited for
  -- more than three ticks and whose destination the ARP table has not, in their order. It may make
  -- flows, but the flows before stay as they were and under their keys, no iterator of a flow that is
  -- gone is used, the ARP table stays as it was, and map and channels agree after it.
  pub try_requests_settles :
      (c : Common) (t : Table F)
      → Valid t
      → AllHeld alive t.pending
      → let r = try_requests ops env alive t.pending [] (c, t) in
        Grown (c, t) r × (r.1.pending ≡ those_waiting c.periodic_ticks c.arp.arp_table t.pending)
  try_requests_settles c t v held = try_requests-AllTried t.pending [] c t v held
