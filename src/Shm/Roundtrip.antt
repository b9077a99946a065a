-- ===== src/Shm/Roundtrip.antt =====
-- src/ext/machnet.c: a message from machnet_sendmsg to machnet_recv.
use mathlib.Core.Path.{subst}
use machnet.Base.{
  ℕ, suc, ◌+◌, ◌-◌, ◌^◌, ◌≡◌, ◌≤◌, ◌<◌, sym, ap, ◌∙◌, true, some, List, [], ◌∷◌, length, take, leb,
  if◌then◌else◌, arith,
}
use machnet.Ring.{
  Jring, fixed, variable, granted, jring_enqueue_bulk, jring_dequeue_burst, do_enqueue_elem,
  do_dequeue_elem,
}
use machnet.Ring.Fifo.{IsFifo}
use machnet.Ring.Enqueue.{enqueue-Enqueued}
use machnet.Ring.Dequeue.{dequeue-Dequeued}
use machnet.Shm.{ChannelCtx, app_ring_dequeue, machnet_ring_enqueue}
use machnet.Shm.Cache.{machnet_buffers_alloc}
use machnet.Shm.Accounts.{Accounts}
use machnet.Shm.Cached.{is_given}
use machnet.Shm.Send.{MachnetMsgHdr, Ret, buffers_nr, msg_max_len, machnet_sendmsg}
use machnet.Shm.Send.Linked.{joined, Headers}
use machnet.Shm.Send.Delivery.{Sent, machnet_sendmsg_delivers}
use machnet.Shm.Receive.{message, failed, machnet_recv}
use machnet.Shm.Receive.Delivery.{machnet_recvmsg_returns}

-- What stands between the calls: the front of the ring of the application goes to the ring of Machnet.
unfoldable pub pass_on : ChannelCtx → ChannelCtx
pass_on ctx =
    let (indices, after) = app_ring_dequeue ctx 1 in (machnet_ring_enqueue after indices).1

module _ (all : ℕ → ℕ) (total : ℕ) (once : (i : ℕ) → all i ≤ 1) where
  pass_on-returns :
      (h : MachnetMsgHdr) (held : List ℕ) (other : Jring ℕ) (fuel len : ℕ) (out : Ret × ChannelCtx)
      → Sent all total once h held [] other out
      → IsFifo other []
      → 0 < other.capacity
      → length (joined h.msg_iov) ≤ len
      → suc (length (joined h.msg_iov)) < fuel
      → len < 2 ^ 32
      → (after : ChannelCtx) × (machnet_recv fuel len (pass_on (out.1))
          ≡ some (message (joined h.msg_iov) h.flow_info, after))
        × Accounts all total after held
  unfolding pass_on app_ring_dequeue machnet_ring_enqueue machnet_recv jring_dequeue_burst
      jring_enqueue_bulk
  pass_on-returns h held other fuel len out s f room le lt narrow =
      let ctx = out.1 in
      let bytes = joined h.msg_iov in
      let d = dequeue-Dequeued ctx.app_ring (s.first ∷ []) 1 variable s.ring in
      let front : (do_dequeue_elem ctx.app_ring 1 variable).0 ≡ s.first ∷ [] = d.objects in
      let e = enqueue-Enqueued other [] (s.first ∷ []) fixed f in
      let one : granted fixed 1 (other.capacity - 0) ≡ 1 = ground (arith, room) in
      let queued : IsFifo (do_enqueue_elem other (s.first ∷ []) fixed).2 (s.first ∷ []) =
        subst (λ n. IsFifo (do_enqueue_elem other (s.first ∷ []) fixed).2 (take n (s.first ∷ [])))
          one e.fifo in
      let queued' : IsFifo (pass_on ctx).machnet_ring (s.first ∷ []) =
        subst
          (λ r.
            IsFifo (do_enqueue_elem r (do_dequeue_elem ctx.app_ring 1 variable).0 fixed).2
              (s.first ∷ []))
          (sym s.other_ring)
          (subst (λ is. IsFifo (do_enqueue_elem other is fixed).2 (s.first ∷ [])) (sym front)
            queued) in
      let a = s.accounts in
      let (after, result, acc) =
        machnet_recvmsg_returns all total held (pass_on ctx) (len ∷ []) fuel s.first s.others bytes
          [] queued' s.message
          (record {
            pool = a.pool;
            fifo = a.fifo;
            small = a.small;
            counts = a.counts;
            whole = a.whole;
            room = a.room;
            runs = a.runs;
          })
          (omega (arith, lt)) (narrow, tt) in
      let fits : leb (length bytes) (len + 0) ≡ true = ground (arith, le) in
      (
        after,
        result
            ∙ ap (λ b. some ((if b then message bytes (ctx.bufs s.first).flow else failed), after))
                fits
            ∙ ap (λ x. some (message bytes x, after)) s.flow_set,
        acc,
      )

  -- A message of 1 byte to 8 MB goes through the channel whole. Take a channel as for
  -- machnet_sendmsg, both of whose rings are empty, and whose pool or cache has the buffers. If the index
  -- that machnet_sendmsg leaves in the ring of the application is put in the ring of Machnet, then
  -- machnet_recv with a buffer of fewer than 2 ^ 32 bytes, as long as the message at least, returns the bytes and the flow that were
  -- sent, however the sender had cut them in segments, and every buffer is free again.
  pub machnet_recv-machnet_sendmsg :
      (ctx : ChannelCtx) (h : MachnetMsgHdr) (held : List ℕ) (fuel len : ℕ)
      → 0 < ctx.buf_mss
      → ctx.buf_mss < 2 ^ 31
      → Headers ctx.buf_mss ctx.bufs
      → Accounts all total ctx held
      → IsFifo ctx.app_ring []
      → 0 < ctx.app_ring.capacity
      → IsFifo ctx.machnet_ring []
      → 0 < ctx.machnet_ring.capacity
      → 0 < h.msg_size
      → h.msg_size ≤ msg_max_len
      → h.msg_size ≡ length (joined h.msg_iov)
      → is_given ((machnet_buffers_alloc ctx (buffers_nr h ctx.buf_mss)).0) ≡ true
      → h.msg_size ≤ len
      → suc h.msg_size < fuel
      → len < 2 ^ 32
      → (after : ChannelCtx) × (machnet_recv fuel len (pass_on (machnet_sendmsg ctx h).1)
          ≡ some (message (joined h.msg_iov) h.flow_info, after))
        × Accounts all total after held
  machnet_recv-machnet_sendmsg ctx h held fuel len pos lt headers acc f room f' room' some_bytes le
        size is_some fits enough narrow =
      pass_on-returns h held ctx.machnet_ring fuel len (machnet_sendmsg ctx h)
        (machnet_sendmsg_delivers all total once ctx h held [] pos lt headers acc f room some_bytes
          le size is_some)
        f' room' (omega (arith, size, fits)) (omega (arith, size, enough)) narrow
