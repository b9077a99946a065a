-- ===== src/Shm/Send.antt =====
-- src/ext/machnet.c: machnet_send, machnet_sendmsg and machnet_sendmmsg.
pub mod Linked
pub mod Turns
pub mod Steps
pub mod Gathering
pub mod Chain
pub mod Kept
pub mod Delivery
use machnet.Base.{
  ℕ, zero, suc, ◌+◌, ◌-◌, ◌*◌, ◌/◌, ◌%◌, ◌^◌, min, not, Bool, true, false, ◌&&◌, ◌||◌, Option, none,
  some, List, [], ◌∷◌, ◌++◌, length, take, drop, get_elem?, get_or, ltb, leb, ◌==◌, if◌then◌else◌,
}
use machnet.Shm.{
  MachnetFlow, MachnetMsgBuf, ChannelCtx, msgbuf_magic, buf_init, buf_tailroom, buf_append,
  app_ring_enqueue,
}
use mathlib.Core.Option.{bind}
use machnet.Shm.Cache.{machnet_buffers_alloc}

abbrev pub msg_max_len : ℕ
msg_max_len = 8 * 2 ^ 20

-- A segment is the list of its bytes; of the flags the code takes the request of a delivery note.
pub record MachnetMsgHdr : Type 0 where
  pub notify_delivery : Bool
  pub msg_size : ℕ
  pub flow_info : MachnetFlow
  pub msg_iov : List (List ℕ)

-- What a call returns: 0, -1, or nothing, since the process has aborted.
pub data Ret : Type 0 where
  ok : Ret
  error : Ret
  abort : Ret

-- The state of the loop that gathers the segments.
pub record Gather : Type 0 where
  pub bufs : ℕ → MachnetMsgBuf
  pub buffer_cur_index : ℕ
  pub new_buffer : Bool
  pub total_bytes_copied : ℕ

unfoldable pub set_buf : (ℕ → MachnetMsgBuf) → ℕ → MachnetMsgBuf → (ℕ → MachnetMsgBuf)
set_buf bufs i b = λ j. if j == i then b else bufs j

abbrev pub is_nil : List ℕ → Bool
is_nil [] = true
is_nil (x ∷ xs) = false

unfoldable pub link_next :
    Option ℕ → List ℕ → ℕ → MachnetMsgBuf → ℕ → Gather → Option (List ℕ × Gather)
link_next none rest i b n g = none
link_next (some j) rest i b n g = some (
  rest,
  record {
    bufs = set_buf g.bufs i (record b { next = j });
    buffer_cur_index = suc g.buffer_cur_index;
    new_buffer = true;
    total_bytes_copied = g.total_bytes_copied + n;
  },
)

-- After the copy of n bytes to the buffer i: on to the next buffer where this one is full and bytes of
-- the segment are left. `none` where the table ends there, which an assert rules out.
unfoldable pub next_buffer :
    List ℕ → List ℕ → ℕ → MachnetMsgBuf → ℕ → Gather → Option (List ℕ × Gather)
unfolding link_next
next_buffer table rest i b n g =
    if buf_tailroom b == 0 && not (is_nil rest)
    then link_next (get_elem? table (suc g.buffer_cur_index)) rest i b n g
    else some (
      rest,
      record {
        bufs = set_buf g.bufs i b;
        buffer_cur_index = g.buffer_cur_index;
        new_buffer = false;
        total_bytes_copied = g.total_bytes_copied + n;
      },
    )

unfoldable pub appended :
    Option MachnetMsgBuf → List ℕ → List ℕ → ℕ → ℕ → Gather → Option (List ℕ × Gather)
appended none table rest i n g = none
appended (some b) table rest i n g = next_buffer table rest i (record b { sg = true }) n g

unfoldable pub on_buffer : Option ℕ → List ℕ → List ℕ → Gather → Option (List ℕ × Gather)
on_buffer none table seg g = none
on_buffer (some i) table seg g =
    let b = if g.new_buffer then buf_init (g.bufs i) else g.bufs i in
    let n = min (length seg) (buf_tailroom b) in
    if not (b.magic == msgbuf_magic)
    then none
    else appended (buf_append b (take n seg)) table (drop n seg) i n g

-- One turn of the inner loop: what is left of the segment. `none` where the process aborts.
unfoldable pub gather_step : List ℕ → List ℕ → Gather → Option (List ℕ × Gather)
gather_step table seg g = on_buffer (get_elem? table g.buffer_cur_index) table seg g

-- The inner loop, on fuel; `none` also where the fuel runs out.
unfoldable pub gather_segment : ℕ → List ℕ → List ℕ → Gather → Option Gather
gather_segment n table [] g = some g
gather_segment zero table (x ∷ seg) g = none
gather_segment (suc n) table (x ∷ seg) g =
    bind (gather_step table (x ∷ seg) g) (λ p. gather_segment n table (p.0) (p.1))

-- A turn that does not copy is followed by one that does: one turn for each byte and one more are enough.
unfoldable pub gather_segments : List ℕ → List (List ℕ) → Gather → Option Gather
gather_segments table [] g = some g
gather_segments table (seg ∷ iov) g =
    bind (gather_segment (suc (length seg)) table seg g) (λ g'. gather_segments table iov g')

unfoldable pub mark_last : ℕ → (ℕ → MachnetMsgBuf) → (ℕ → MachnetMsgBuf)
mark_last i bufs = set_buf bufs i (record (bufs i) { fin = true; sg = false })

unfoldable pub mark_first : ℕ → ℕ → MachnetMsgHdr → (ℕ → MachnetMsgBuf) → (ℕ → MachnetMsgBuf)
mark_first i l h bufs = set_buf bufs i (record (bufs i) {
  syn = true;
  notify_delivery = (bufs i).notify_delivery || h.notify_delivery;
  flow = h.flow_info;
  msg_len = h.msg_size;
  last = l;
})

abbrev pub no_bytes : (ℕ → MachnetMsgBuf) → Gather
no_bytes bufs = record {
  bufs = bufs;
  buffer_cur_index = 0;
  new_buffer = true;
  total_bytes_copied = 0;
}

-- The first index goes to the ring of the application. Where the ring is full, the buffers stay with
-- the call that fails.
unfoldable pub send_first : ℕ → ChannelCtx → Ret × ChannelCtx
send_first i ctx =
    let (sent, after) = app_ring_enqueue ctx (i ∷ []) in
    if sent == 1 then (ok, after) else (error, after)

unfoldable pub send_gathered :
    MachnetMsgHdr → List ℕ → ChannelCtx → Option Gather → Ret × ChannelCtx
send_gathered h table ctx none = (abort, record ctx { aborted = true })
send_gathered h table ctx (some g) =
    let first = get_or table 0 0 in
    let last = get_or table (length table - 1) 0 in
    let marked = mark_first first last h (mark_last last g.bufs) in
    if not (g.total_bytes_copied == h.msg_size)
    then (abort, record ctx { aborted = true })
    else send_first first (record ctx { bufs = marked })

unfoldable pub send_allocated : MachnetMsgHdr → Option (List ℕ) × ChannelCtx → Ret × ChannelCtx
send_allocated h (none, ctx) = (error, ctx)
send_allocated h (some table, ctx) =
    send_gathered h table ctx (gather_segments table h.msg_iov (no_bytes ctx.bufs))

abbrev pub buffers_nr : MachnetMsgHdr → ℕ → ℕ
buffers_nr h mss = (h.msg_size + mss - 1) / mss

unfoldable pub machnet_sendmsg : ChannelCtx → MachnetMsgHdr → Ret × ChannelCtx
machnet_sendmsg ctx h =
    if ltb msg_max_len h.msg_size || h.msg_size == 0
    then (error, ctx)
    else send_allocated h (machnet_buffers_alloc ctx (buffers_nr h ctx.buf_mss))

-- One segment and no flags; the length is taken modulo 2 ^ 32, for the message and in the loop over the
-- segment.
unfoldable pub machnet_send : ChannelCtx → MachnetFlow → List ℕ → Ret × ChannelCtx
machnet_send ctx flow bytes = machnet_sendmsg ctx (record {
  notify_delivery = false;
  msg_size = length bytes % 2 ^ 32;
  flow_info = flow;
  msg_iov = take (length bytes % 2 ^ 32) bytes ∷ [];
})

-- The number of messages sent before the first that is not; none of them after an abort.
unfoldable pub machnet_sendmmsg : ChannelCtx → List MachnetMsgHdr → ℕ × ChannelCtx
machnet_sendmmsg ctx [] = (0, ctx)
machnet_sendmmsg ctx (h ∷ hs) =
    let (ret, after) = machnet_sendmsg ctx h in
    let (sent, end) = machnet_sendmmsg after hs in
    elim ret [ ok ↦ (suc sent, end) | error ↦ (0, after) | abort ↦ (0, after) ]
