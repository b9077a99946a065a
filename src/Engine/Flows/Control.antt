-- ===== src/Engine/Flows/Control.antt =====
-- src/include/machnet_engine.h, `ProcessControlRequests`: requests to listen and to create flows.
use machnet.Base.{
  ℕ, ◌+◌, ◌-◌, ◌*◌, ◌/◌, ◌%◌, ◌^◌, Bool, true, false, not, ◌&&◌, ◌||◌, none, some, List, [], ◌∷◌,
  ◌++◌, ltb, ◌==◌, if◌then◌else◌,
}
use machnet.Base.Maps.{find, insert, contains, nat_eq, pair_eq}
use machnet.Engine.Ports.{is_local_ipv4_address, src_port_alloc, register_listener}
use machnet.Engine.Arp.{get_l2_addr}
use machnet.Engine.Flows.{
  Key, key_eq, FlowOps, Pending, Table, Common, EngineEnv, emit, call_flow, create_flow,
  drop_channel,
}

abbrev pub pending_request_timeout_slow_ticks : ℕ
pending_request_timeout_slow_ticks = 3

-- `emit_completion`
abbrev pub emit_completion : ℕ → ℕ → Bool → Common → Common
emit_completion channel id success c =
    emit channel (record { id = id; success = success; flow = none }) c

-- __builtin_bswap32
abbrev pub bswap32 : ℕ → ℕ
bswap32 h = h % 256 * 2 ^ 24 + h / 2 ^ 8 % 256 * 2 ^ 16 + h / 2 ^ 16 % 256 * 2 ^ 8 + h / 2 ^ 24

module _ (env : EngineEnv) where
  -- `rss_lambda`: both hashes land on the queue of the engine.
  abbrev pub rss_suits : Pending → ℕ → Bool
  rss_suits r port =
      let hash = env.reversed_rss_hash r.src_addr r.dst_addr r.dst_port port in
      env.rss_rx_queue hash == env.rx_queue_id && env.rss_rx_queue (bswap32 hash) == env.rx_queue_id

-- Whether a request of a channel is in a list
abbrev pub asks : ℕ → List Pending → Bool
asks channel [] = false
asks channel (r ∷ rs) = r.channel == channel || asks channel rs

module _ {F P M : Type 0} (ops : FlowOps F P M) where
  -- MACHNET_CTRL_OP_LISTEN. The CHECK of `AddListener` fails where the channel has the listener.
  unfoldable pub listen_on : EngineEnv → ℕ → ℕ → ℕ → ℕ → Common × Table F → Common × Table F
  listen_on env channel id ip port (c, t) = elim (find ip t.listeners) [
    | none ↦ (emit_completion channel id false c, t)
    | some listeners_on_ip ↦
        let (registered, shared') = register_listener ip port env.rx_queue_id c.shared in
        let known = contains (channel, (ip, port)) c.channel_listeners in
        let t' = record t {
          listeners = insert ip (insert port channel listeners_on_ip) t.listeners;
        } in
        if not (is_local_ipv4_address ip c.shared)
        then (emit_completion channel id false c, t)
        else if contains port listeners_on_ip
        then (emit_completion channel id false c, t)
        else if not registered
        then (emit_completion channel id false (record c { shared = shared' }), t)
        else if known
        then (record c { shared = shared'; aborted = true }, t')
        else (
          emit_completion channel id true (record c {
            shared = shared';
            channel_listeners = insert (channel, (ip, port)) true c.channel_listeners;
          }),
          t',
        )
  ]

  -- MACHNET_CTRL_OP_CREATE_FLOW
  unfoldable pub request_flow : Pending → Common × Table F → Common × Table F
  request_flow r (c, t) =
      if not (is_local_ipv4_address r.src_addr c.shared)
      then (emit_completion r.channel r.id false c, t)
      else (c, record t { pending = t.pending ++ r ∷ [] })

  -- One round of the loop over the pending requests; true if the request stays.
  unfoldable pub try_request : EngineEnv → Pending → Common × Table F → Bool × (Common × Table F)
  try_request env r (c, t) =
      let waited = (c.periodic_ticks + 2 ^ 64 - r.timestamp) % 2 ^ 64 in
      let (l2, arp') = get_l2_addr env.packet_alloc r.src_addr r.dst_addr c.arp in
      let (port, shared') = src_port_alloc (rss_suits env r) r.src_addr c.shared in
      let asked = record c { arp = arp' } in
      let given = record asked { shared = shared' } in
      if ltb pending_request_timeout_slow_ticks waited then (false, (c, t)) else elim l2 [
        | none ↦ (true, (asked, t))
        | some addr ↦ elim port [
          | none ↦ (false, (given, t))
          | some p ↦
              let key : Key = record {
                local_addr = r.src_addr;
                local_port = p;
                remote_addr = r.dst_addr;
                remote_port = r.dst_port;
              } in
              (
                false,
                call_flow ops ops.initiate_handshake t.next
                    (given, create_flow ops key r.channel (some r.id) t),
              )
        ]
      ]

  -- The loop; the requests that stay are those that the table has at its end. The entry of a request holds
  -- its channel: when it is erased and nothing else does, the channel goes with its flows. `alive` are the
  -- channels that something else than the requests of this table holds.
  unfoldable pub try_requests :
      EngineEnv → (ℕ → Bool) → List Pending → List Pending → Common × Table F → Common × Table F
  try_requests env alive [] kept (c, t) = (c, record t { pending = kept })
  try_requests env alive (r ∷ rs) kept s =
      let (stays, s') = try_request env r s in
      let held = alive r.channel || asks r.channel rs || asks r.channel kept in
      try_requests env alive rs (if stays then kept ++ r ∷ [] else kept)
        (if stays || held then s' else (s'.0, drop_channel r.channel s'.1))
