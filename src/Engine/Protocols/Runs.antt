-- ===== src/Engine/Protocols/Runs.antt =====
-- src/include/machnet_engine.h: the table of one protocol in the course of the engine's life.
use machnet.Base.{ℕ, ◌≡◌, Bool, some, List, []}
use machnet.Base.Maps.{find, nat_eq, pair_eq}
use machnet.Engine.Flows.{
  Key, key_eq, FlowOps, Pending, Table, Common, EngineEnv, call_flow, handle_rto, process_packet,
  drop_channel,
}
use machnet.Engine.Flows.Control.{listen_on, request_flow, try_requests}
use machnet.Engine.Flows.Valid.{Valid}
use machnet.Engine.Flows.Removal.{drop_listener, remove_flows}
use machnet.Engine.Protocols.{new_table}
use machnet.Engine.Protocols.Loop.{AllHeld}

module _ {F P M : Type 0} (ops : FlowOps F P M) (env : EngineEnv) where
  -- The tables that are reached from a new one, with what is common to both protocols, which the other
  -- one may change at any time. `departed` is a channel that leaves while a request holds it, and `left`
  -- one that nothing holds. When pending requests are handled, something else holds their channels.
  pub data Reached (addrs : List ℕ) : Common × Table F → Type 0 where
    start : (c : Common) → Reached addrs (c, new_table addrs)
    elsewhere :
        {c : Common} {t : Table F} (c' : Common) → Reached addrs (c, t) → Reached addrs (c', t)
    packet :
        {s : Common × Table F} (key : Key) (p : P)
        → Reached addrs s
        → Reached addrs (process_packet ops key p s)
    message :
        {s : Common × Table F} (key : Key) (id : ℕ) (msg : M)
        → find key s.1.active ≡ some id
        → Reached addrs s
        → Reached addrs (call_flow ops (ops.output_message msg) id s)
    timer : {s : Common × Table F} → Reached addrs s → Reached addrs (handle_rto ops s)
    listens :
        {s : Common × Table F} (channel id ip port : ℕ)
        → Reached addrs s
        → Reached addrs (listen_on ops env channel id ip port s)
    requests :
        {s : Common × Table F} (r : Pending)
        → Reached addrs s
        → Reached addrs (request_flow ops r s)
    pending :
        {s : Common × Table F} (alive : ℕ → Bool)
        → AllHeld alive s.1.pending
        → Reached addrs s
        → Reached addrs (try_requests ops env alive s.1.pending [] s)
    unlistens :
        {s : Common × Table F} (ip port : ℕ) (r : Common × Table F)
        → drop_listener ip port s ≡ some r
        → Reached addrs s
        → Reached addrs r
    departed :
        {s : Common × Table F} (channel : ℕ)
        → Reached addrs s
        → Reached addrs (remove_flows ops channel s.1.store s)
    left :
        {s : Common × Table F} (channel : ℕ)
        → Reached addrs s
        → Reached addrs (
          (remove_flows ops channel s.1.store s).0,
          drop_channel channel (remove_flows ops channel s.1.store s).1,
        )
