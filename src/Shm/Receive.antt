-- ===== src/Shm/Receive.antt =====
-- src/ext/machnet.c: machnet_recv and machnet_recvmsg.
--
-- The segments that the caller offers are the list of their lengths, from the one in use on. What is
-- copied is one list of bytes: a segment is left only when it is full, so that the k-th of the bytes
-- stands at the k-th place of the segments laid end to end.
pub mod Loop
pub mod Turns
pub mod Delivery
use mathlib.Core.Option.{bind}
use machnet.Base.{
  ℕ, zero, suc, ◌+◌, ◌-◌, ◌%◌, ◌^◌, min, not, Bool, true, false, Option, none, some, List, [], ◌∷◌,
  ◌++◌, length, take, drop, leb, ◌==◌, if◌then◌else◌, add32,
}
use machnet.Shm.{MachnetFlow, MachnetMsgBuf, ChannelCtx, machnet_ring_dequeue}
use machnet.Shm.Cache.{machnet_buffers_release}

abbrev pub buffer_batch_size : ℕ
buffer_batch_size = 16

-- What a call returns: 0, 1 with the bytes and the flow, or -1.
pub data Received : Type 0 where
  no_message : Received
  message : List ℕ → MachnetFlow → Received
  failed : Received

-- The state of the loop that copies the buffers; `used` is the batch of buffers to release.
pub record Copy : Type 0 where
  pub ctx : ChannelCtx
  pub buffer_index : ℕ
  pub buf_data_ofs : ℕ
  pub iov : List ℕ
  pub seg_data_ofs : ℕ
  pub copied : List ℕ
  pub used : List ℕ

unfoldable pub release_batch : Copy → Copy
release_batch c =
    if length c.used == buffer_batch_size
    then record c { ctx = machnet_buffers_release c.ctx c.used; used = [] }
    else c

-- The buffer has been copied to its end: it is marked for release, and the next follows, if any.
unfoldable pub leave_buffer : Copy → Copy
unfolding release_batch
leave_buffer c =
    let b = c.ctx.bufs c.buffer_index in
    let marked = record c { used = c.used ++ (c.buffer_index ∷ []) } in
    release_batch
      (if b.sg then record marked { buffer_index = b.next; buf_data_ofs = 0 } else marked)

-- One copy from the buffer to a segment of seg_len bytes, of which `rest` are those behind it. What is
-- left of the segment is taken modulo 2 ^ 32.
unfoldable pub copy_bytes : ℕ → List ℕ → Copy → Copy
unfolding add32
copy_bytes seg_len rest c =
    let b = c.ctx.bufs c.buffer_index in
    let n = min ((seg_len - c.seg_data_ofs) % 2 ^ 32) (length b.payload - c.buf_data_ofs) in
    let ofs = c.buf_data_ofs + n in
    let seg = add32 c.seg_data_ofs n in
    let after = record c {
      buf_data_ofs = ofs;
      copied = c.copied ++ take n (drop c.buf_data_ofs b.payload);
      iov = if seg == seg_len then rest else c.iov;
      seg_data_ofs = if seg == seg_len then 0 else seg;
    } in
    if ofs == length b.payload then leave_buffer after else after

unfoldable pub copy_turn : ℕ → List ℕ → Copy → Copy
copy_turn seg_len rest c =
    if seg_len == 0 then record c { iov = rest } else copy_bytes seg_len rest c

-- The release of what is left of the chain after a failure, on fuel.
unfoldable pub release_chain : ℕ → Copy → Option ChannelCtx
release_chain zero c = none
release_chain (suc n) c =
    let b = c.ctx.bufs c.buffer_index in
    let marked = record c { used = c.used ++ (c.buffer_index ∷ []) } in
    let go_on = release_chain n (release_batch (record marked { buffer_index = b.next })) in
    if b.sg then go_on else some (machnet_buffers_release marked.ctx marked.used)

unfoldable pub give_up : Option ChannelCtx → Option (Received × ChannelCtx)
give_up none = none
give_up (some ctx) = some (failed, ctx)

-- With the segment in use, or without one.
unfoldable pub with_segment :
    List ℕ
    → Option (Received × ChannelCtx)
    → (ℕ → List ℕ → Option (Received × ChannelCtx))
    → Option (Received × ChannelCtx)
with_segment [] out_of_room next = out_of_room
with_segment (seg_len ∷ rest) out_of_room next = next seg_len rest

-- The loop, on fuel; `none` where the fuel runs out.
unfoldable pub copy_message : ℕ → MachnetFlow → Copy → Option (Received × ChannelCtx)
copy_message zero flow c = none
copy_message (suc n) flow c =
    let go_on =
      with_segment c.iov (give_up (release_chain n c))
        (λ seg_len rest. copy_message n flow (copy_turn seg_len rest c)) in
    if leb (length (c.ctx.bufs c.buffer_index).payload) c.buf_data_ofs
    then some (message c.copied flow, machnet_buffers_release c.ctx c.used)
    else go_on

unfoldable pub start_copy : ℕ → List ℕ → ChannelCtx → Copy
start_copy i iov ctx = record {
  ctx = ctx;
  buffer_index = i;
  buf_data_ofs = 0;
  iov = iov;
  seg_data_ofs = 0;
  copied = [];
  used = [];
}

unfoldable pub copy_first : ℕ → List ℕ → List ℕ → ChannelCtx → Option (Received × ChannelCtx)
copy_first fuel iov [] ctx = some (no_message, ctx)
copy_first fuel iov (i ∷ _) ctx = copy_message fuel (ctx.bufs i).flow (start_copy i iov ctx)

unfoldable pub machnet_recvmsg : ℕ → List ℕ → ChannelCtx → Option (Received × ChannelCtx)
machnet_recvmsg fuel iov ctx =
    let (indices, after) = machnet_ring_dequeue ctx 1 in copy_first fuel iov indices after

-- One segment.
unfoldable pub machnet_recv : ℕ → ℕ → ChannelCtx → Option (Received × ChannelCtx)
machnet_recv fuel len ctx = machnet_recvmsg fuel (len ∷ []) ctx
