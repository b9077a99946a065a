-- ===== src/Shm/Send/Delivery.antt =====
-- src/ext/machnet.c: machnet_sendmsg from the allocation of its buffers to the ring of the application.
use mathlib.Core.Path.{subst}
use machnet.Base.{
  ℕ, zero, suc, ◌+◌, ◌-◌, ◌*◌, ◌/◌, ◌%◌, ◌^◌, ◌≡◌, ◌≢◌, ◌≤◌, ◌<◌, refl, sym, ap, ◌∙◌, true, false,
  ◌||◌, Option, none, some, List, [], ◌∷◌, ◌++◌, length, take, get_or, ltb, ◌==◌, ==_iff, arith,
  length-append,
}
use native.Mathlib.Nat.{div-add-mod, mod-lt}
use machnet.Ring.{Jring, fixed, granted, jring_enqueue_bulk, do_enqueue_elem}
use machnet.Ring.Fifo.{IsFifo}
use machnet.Ring.Enqueue.{enqueue-Enqueued}
use machnet.Shm.{ChannelCtx, MachnetMsgBuf, app_ring_enqueue}
use machnet.Shm.Cache.{machnet_buffers_alloc}
use machnet.Shm.Accounts.{occurrences, occurrences-append, Accounts}
use machnet.Shm.Allocation.{machnet_buffers_alloc_conserves}
use machnet.Shm.Cached.{given, is_given}
use machnet.Shm.Send.{
  MachnetMsgHdr, Ret, ok, Gather, no_bytes, buffers_nr, msg_max_len, mark_first, mark_last,
  send_first, send_gathered, send_allocated, machnet_sendmsg,
}
use machnet.Shm.Send.Linked.{joined, Linked, Headers, Gathered, set_buf_same, length-Linked}
use machnet.Shm.Send.Gathering.{segments_Gathered}
use machnet.Shm.Send.Chain.{Message, gathered-Message}
use machnet.Shm.Send.Kept.{alloc-Kept}

-- The number of buffers is that of the bytes, rounded up.
round_up :
    (size mss : ℕ)
    → 0 < mss
    → 0 < size
    → (n : ℕ) × ((size + mss - 1) / mss ≡ suc n) × (n * mss < size) × (size ≤ suc n * mss)
round_up size mss pos some_bytes =
    let q = (size + mss - 1) / mss in
    let split : mss * q + (size + mss - 1) % mss ≡ size + mss - 1 =
      div-add-mod (size + mss - 1) mss in
    let rest : (size + mss - 1) % mss < mss = mod-lt (size + mss - 1) pos in
    by_quotient q refl split rest
  where
    by_quotient :
        (k : ℕ)
        → (size + mss - 1) / mss ≡ k
        → mss * k + (size + mss - 1) % mss ≡ size + mss - 1
        → (size + mss - 1) % mss < mss
        → (n : ℕ) × ((size + mss - 1) / mss ≡ suc n) × (n * mss < size) × (size ≤ suc n * mss)
    by_quotient zero e split rest = absurd (omega arith)
    by_quotient (suc n) e split rest = (n, e, omega arith, omega arith)

pub start_Gathered :
    (mss i : ℕ) (ks : List ℕ) (bufs : ℕ → MachnetMsgBuf)
    → Headers mss bufs
    → Gathered mss (i ∷ ks) (no_bytes bufs) []
start_Gathered mss i ks bufs h = record {
  before = [];
  i = i;
  after = ks;
  full = [];
  here = [];
  shape = refl;
  cur = refl;
  linked = unfold Linked in refl;
  bytes = refl;
  small = omega arith;
  copied = refl;
  headers = h;
  fresh = λ e. refl;
  filled = λ e. absurd (not_false e);
}
  where
    not_false : true ≢ false
    not_false = cc

-- All the buffers of the table are used, and the last of them is not empty.
last_buffer :
    (mss : ℕ) (table : List ℕ) (g : Gather) (done : List ℕ) (n : ℕ)
    → length table ≡ suc n
    → n * mss < length done
    → (a : Gathered mss table g done) → (a.after ≡ []) × (0 < length a.here)
last_buffer mss table g done n count more a =
    let all = ap length a.shape ∙ length-append a.before (a.i ∷ a.after) in
    let so_far = ap length a.bytes ∙ length-append a.full a.here in
    let full = length-Linked g.bufs mss a.before a.i a.full a.linked in
    go a.after (length a.before) (length a.here) (length done) (omega arith) (omega arith) a.small
      more
  where
    go :
        (after : List ℕ) (k here all : ℕ)
        → suc n ≡ k + suc (length after)
        → all ≡ k * mss + here
        → here ≤ mss
        → n * mss < all
        → (after ≡ []) × (0 < here)
    go [] k here all e e' le lt =
        let same : n ≡ k = omega arith in (refl, omega (arith, ap (λ x. x * mss) same))
    go (j ∷ later) k here all e e' le lt =
        let same : n ≡ k + 1 + length later = omega arith in
        absurd (omega (arith, ap (λ x. x * mss) same))

module _ (all : ℕ → ℕ) (total : ℕ) (once : (i : ℕ) → all i ≤ 1) where
  -- What is known after a message has been sent.
  pub record Sent (h : MachnetMsgHdr) (held queue : List ℕ) (other : Jring ℕ)
      (out : Ret × ChannelCtx) : Type 0 where
    pub first : ℕ
    pub others : List ℕ
    pub returned : out.0 ≡ ok
    pub accounts : Accounts all total (out.1) (first ∷ others ++ held)
    pub ring : IsFifo (out.1.app_ring) (queue ++ (first ∷ []))
    pub message : Message (out.1.bufs) first others (joined h.msg_iov)
    pub length_set : (out.1.bufs first).msg_len ≡ h.msg_size
    pub flow_set : (out.1.bufs first).flow ≡ h.flow_info
    pub other_ring : out.1.machnet_ring ≡ other

  send_first-Sent :
      (h : MachnetMsgHdr) (held queue : List ℕ) (i : ℕ) (ks : List ℕ) (ctx : ChannelCtx)
      → Accounts all total ctx (i ∷ ks ++ held)
      → IsFifo ctx.app_ring queue
      → length queue < ctx.app_ring.capacity
      → Message ctx.bufs i ks (joined h.msg_iov)
      → (ctx.bufs i).msg_len ≡ h.msg_size
      → (ctx.bufs i).flow ≡ h.flow_info
      → Sent h held queue ctx.machnet_ring (send_first i ctx)
  send_first-Sent h held queue i ks ctx a f room m len flow =
      let e = enqueue-Enqueued ctx.app_ring queue (i ∷ []) fixed f in
      let one : granted fixed 1 (ctx.app_ring.capacity - length queue) ≡ 1 =
        grants_one (ctx.app_ring.capacity - length queue) (omega arith) in
      let sent : (jring_enqueue_bulk ctx.app_ring (i ∷ [])).0 ≡ 1 =
        unfold jring_enqueue_bulk in e.number ∙ one in
      subst (Sent h held queue ctx.machnet_ring) (sym (sent_call i ctx sent)) (record {
        first = i;
        others = ks;
        returned = refl;
        accounts = record {
          pool = a.pool;
          fifo = a.fifo;
          small = a.small;
          counts = a.counts;
          whole = a.whole;
          room = a.room;
          runs = a.runs;
        };
        ring =
            unfold jring_enqueue_bulk in
            subst
              (λ k.
                IsFifo (do_enqueue_elem ctx.app_ring (i ∷ []) fixed).2 (queue ++ take k (i ∷ [])))
              one e.fifo;
        message = m;
        length_set = len;
        flow_set = flow;
        other_ring = refl;
      })
    where
      grants_one : (x : ℕ) → 0 < x → granted fixed 1 x ≡ 1
      grants_one x some_room = ground arith

      sent_call :
          (i : ℕ) (ctx : ChannelCtx)
          → (jring_enqueue_bulk ctx.app_ring (i ∷ [])).0 ≡ 1
          → send_first i ctx
            ≡ (ok, record ctx { app_ring = (jring_enqueue_bulk ctx.app_ring (i ∷ [])).2 })
      sent_call i ctx sent = unfold send_first app_ring_enqueue in rw sent

  gathered-Sent :
      (h : MachnetMsgHdr) (held queue table : List ℕ) (g : Gather) (ctx : ChannelCtx)
      → Accounts all total ctx (table ++ held)
      → IsFifo ctx.app_ring queue
      → length queue < ctx.app_ring.capacity
      → (mss : ℕ) → 0 < mss
      → (n : ℕ) → length table ≡ suc n
      → n * mss < h.msg_size
      → h.msg_size ≡ length (joined h.msg_iov)
      → Gathered mss table g (joined h.msg_iov)
      → Sent h held queue ctx.machnet_ring (send_gathered h table ctx (some g))
  gathered-Sent h held queue table g ctx acc f room mss pos n count more size a =
      let here = last_buffer mss table g (joined h.msg_iov) n count (omega (arith, size)) a in
      let few = λ (i : ℕ). at_most_once i table held ctx acc in
      let (i, ks, e, m) =
        gathered-Message mss table g (joined h.msg_iov) h pos few a here.0 here.1 in
      let first : get_or table 0 0 ≡ i = ap (λ t. get_or t 0 0) e in
      let last = get_or table (length table - 1) 0 in
      let marked = mark_first (get_or table 0 0) last h (mark_last last g.bufs) in
      let head = first_mark (get_or table 0 0) last h (mark_last last g.bufs) in
      let all_copied : (g.total_bytes_copied == h.msg_size) ≡ true =
        (==_iff g.total_bytes_copied h.msg_size).1 (a.copied ∙ sym size) in
      subst (Sent h held queue ctx.machnet_ring)
        (sym (
          gathered_call table g ctx all_copied
          ∙ ap (λ k. send_first k (record ctx { bufs = marked })) first))
        (send_first-Sent h held queue i ks (record ctx { bufs = marked })
          (record {
            pool = acc.pool;
            fifo = acc.fifo;
            small = acc.small;
            counts = λ j.
                ap
                  (λ t.
                    occurrences j acc.pool
                    + occurrences j ctx.app_buffer_cache
                    + occurrences j (t ++ held))
                  (sym e)
                ∙ acc.counts j;
            whole =
                ap (λ t. length acc.pool + length ctx.app_buffer_cache + length (t ++ held)) (sym e)
                ∙ acc.whole;
            room = acc.room;
            runs = acc.runs;
          })
          f room m (subst (λ k. (marked k).msg_len ≡ h.msg_size) first head.0)
          (subst (λ k. (marked k).flow ≡ h.flow_info) first head.1))
    where
      at_most_once :
          (i : ℕ) (table held : List ℕ) (ctx : ChannelCtx)
          → Accounts all total ctx (table ++ held)
          → occurrences i table ≤ 1
      at_most_once i table held ctx acc =
          omega (arith, acc.counts i, once i, occurrences-append i table held)

      first_mark :
          (i l : ℕ) (h : MachnetMsgHdr) (bufs : ℕ → MachnetMsgBuf)
          → ((mark_first i l h bufs i).msg_len ≡ h.msg_size)
            × ((mark_first i l h bufs i).flow ≡ h.flow_info)
      first_mark i l h bufs =
          unfold mark_first in
          (ap (λ b. b.msg_len) (set_buf_same bufs i _), ap (λ b. b.flow) (set_buf_same bufs i _))

      gathered_call :
          (table : List ℕ) (g : Gather) (ctx : ChannelCtx)
          → (g.total_bytes_copied == h.msg_size) ≡ true
          → send_gathered h table ctx (some g)
            ≡ send_first (get_or table 0 0) (record ctx {
              bufs =
                  mark_first
                    (get_or table 0 0)
                    (get_or table (length table - 1) 0)
                    h
                    (mark_last (get_or table (length table - 1) 0) g.bufs);
            })
      gathered_call table g ctx all_copied = unfold send_gathered in rw all_copied

  allocated-Sent :
      (h : MachnetMsgHdr) (held queue : List ℕ) (mss : ℕ) (out : Option (List ℕ) × ChannelCtx)
      → 0 < mss
      → mss < 2 ^ 31
      → 0 < h.msg_size
      → h.msg_size ≡ length (joined h.msg_iov)
      → is_given (out.0) ≡ true
      → ((t : List ℕ) → out.0 ≡ some t → length t ≡ buffers_nr h mss)
      → Accounts all total (out.1) (given (out.0) ++ held)
      → Headers mss (out.1.bufs)
      → IsFifo (out.1.app_ring) queue
      → length queue < out.1.app_ring.capacity
      → Sent h held queue (out.1.machnet_ring) (send_allocated h out)
  unfolding send_allocated
  allocated-Sent h held queue mss (none, ctx) pos lt some_bytes size is_some number acc headers f
        room =
      absurd (no_table is_some)
    where
      no_table : false ≢ true
      no_table = cc
  allocated-Sent h held queue mss (some [], ctx) pos lt some_bytes size is_some number acc headers f
        room =
      absurd (omega (arith, number [] refl, (round_up h.msg_size mss pos some_bytes).1))
  allocated-Sent h held queue mss (some (i ∷ ks), ctx) pos lt some_bytes size is_some number acc
        headers f room =
      let (n, count, more, enough) = round_up h.msg_size mss pos some_bytes in
      let nr = number (i ∷ ks) refl ∙ count in
      let (g, e, a) =
        segments_Gathered mss (i ∷ ks) lt pos
          (λ j. omega (arith, acc.counts j, once j, occurrences-append j (i ∷ ks) held)) h.msg_iov
          (no_bytes ctx.bufs) [] (start_Gathered mss i ks ctx.bufs headers)
          (omega (arith, size, enough, ap (λ k. k * mss) nr)) in
      subst (λ o. Sent h held queue ctx.machnet_ring (send_gathered h (i ∷ ks) ctx o)) (sym e)
        (gathered-Sent h held queue (i ∷ ks) g ctx acc f room mss pos n nr more size a)

  -- Take a channel whose buffers are counted, each once, with their headers as its creation left them,
  -- and a message of 1 byte to 8 MB whose size is that of its segments, however the segments cut it and
  -- also where some of them are empty. If its buffers can be allocated and the ring of the application
  -- has room, machnet_sendmsg returns 0; the index of a first buffer is behind those in the ring; from
  -- that buffer on the chain holds exactly the bytes of the message, and the first buffer its size and
  -- flow; every buffer of the channel is in the pool, in the cache, in the chain or where it was.
  pub machnet_sendmsg_delivers :
      (ctx : ChannelCtx) (h : MachnetMsgHdr) (held queue : List ℕ)
      → 0 < ctx.buf_mss
      → ctx.buf_mss < 2 ^ 31
      → Headers ctx.buf_mss ctx.bufs
      → Accounts all total ctx held
      → IsFifo ctx.app_ring queue
      → length queue < ctx.app_ring.capacity
      → 0 < h.msg_size
      → h.msg_size ≤ msg_max_len
      → h.msg_size ≡ length (joined h.msg_iov)
      → is_given ((machnet_buffers_alloc ctx (buffers_nr h ctx.buf_mss)).0) ≡ true
      → Sent h held queue ctx.machnet_ring (machnet_sendmsg ctx h)
  machnet_sendmsg_delivers ctx h held queue pos lt headers acc f room some_bytes le size is_some =
      let nr = buffers_nr h ctx.buf_mss in
      let k = alloc-Kept ctx nr in
      let (acc', number, _) = machnet_buffers_alloc_conserves all total nr held ctx acc in
      let out = machnet_buffers_alloc ctx nr in
      subst (Sent h held queue ctx.machnet_ring) (sym (call ctx h some_bytes le)) (
        subst (λ r. Sent h held queue r (send_allocated h out)) k.machnet_ring
          (allocated-Sent h held queue ctx.buf_mss (machnet_buffers_alloc ctx nr) pos lt some_bytes
            size is_some number acc' (k.headers ctx.buf_mss headers)
            (subst (λ r. IsFifo r queue) (sym k.app_ring) f)
            (subst (λ r. length queue < r.capacity) (sym k.app_ring) room)))
    where
      fits : (n : ℕ) → 0 < n → n ≤ msg_max_len → (ltb msg_max_len n || n == 0) ≡ false
      fits n some_bytes le = ground arith

      call :
          (ctx : ChannelCtx) (h : MachnetMsgHdr)
          → 0 < h.msg_size
          → h.msg_size ≤ msg_max_len
          → machnet_sendmsg ctx h
            ≡ send_allocated h (machnet_buffers_alloc ctx (buffers_nr h ctx.buf_mss))
      call ctx h some_bytes le = unfold machnet_sendmsg in rw (fits h.msg_size some_bytes le)
