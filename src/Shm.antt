-- ===== src/Shm.antt =====
-- src/ext/machnet_common.h: the shared-memory channel between an application and Machnet.
--
-- The buffers stand in a function of their index; of a buffer's bytes only those are kept that start at
-- its data offset, so that `data_len` is their number. The cache of the application is the list of its
-- first `count` indices, the last of them first, since both ends of a call work there; what the array
-- holds behind them is never read.
pub mod Cache
pub mod Accounts
pub mod Bulk
pub mod Cached
pub mod Allocation
pub mod Release
pub mod Send
pub mod Receive
pub mod Roundtrip
pub mod Layout
mod Tests
use machnet.Base.{
  ℕ, ◌+◌, ◌-◌, ◌*◌, ◌^◌, Bool, true, false, Option, none, some, List, [], ◌∷◌, ◌++◌, length, ltb,
  leb, ◌==◌, if◌then◌else◌, sub32,
}
use machnet.Ring.{Jring, jring_enqueue_bulk, jring_dequeue_bulk, jring_dequeue_burst, jring_count}

abbrev pub num_cached_bufs : ℕ
num_cached_bufs = 64

abbrev pub msgbuf_headroom_max : ℕ
msgbuf_headroom_max = 128

abbrev pub msgbuf_magic : ℕ
msgbuf_magic = 0xb6b6b6b6

pub record MachnetFlow : Type 0 where
  pub src_ip : ℕ
  pub dst_ip : ℕ
  pub src_port : ℕ
  pub dst_port : ℕ

-- The flags are those that the code sets or reads.
pub record MachnetMsgBuf : Type 0 where
  pub magic : ℕ
  pub size : ℕ
  pub syn : Bool
  pub sg : Bool
  pub fin : Bool
  pub notify_delivery : Bool
  pub flow : MachnetFlow
  pub msg_len : ℕ
  pub payload : List ℕ
  pub data_ofs : ℕ
  pub next : ℕ
  pub last : ℕ

abbrev pub no_flow : MachnetFlow
no_flow = record { src_ip = 0; dst_ip = 0; src_port = 0; dst_port = 0 }

unfoldable pub buf_init : MachnetMsgBuf → MachnetMsgBuf
buf_init b = record b {
  syn = false;
  sg = false;
  fin = false;
  notify_delivery = false;
  flow = no_flow;
  msg_len = 0;
  payload = [];
  data_ofs = msgbuf_headroom_max;
  next = 2 ^ 32 - 1;
  last = 2 ^ 32 - 1;
}

abbrev pub buf_headroom : MachnetMsgBuf → ℕ
buf_headroom b = b.data_ofs

-- Unsigned: the difference wraps where the data reach past the size.
unfoldable pub buf_tailroom : MachnetMsgBuf → ℕ
unfolding sub32
buf_tailroom b = sub32 (sub32 b.size b.data_ofs) (length b.payload)

-- `none` is NULL; the bytes are those that the caller writes into the area it gets.
unfoldable pub buf_prepend : MachnetMsgBuf → List ℕ → Option MachnetMsgBuf
buf_prepend b bytes =
    if ltb (buf_headroom b) (length bytes)
    then none
    else some (record b { payload = bytes ++ b.payload; data_ofs = b.data_ofs - length bytes })

unfoldable pub buf_append : MachnetMsgBuf → List ℕ → Option MachnetMsgBuf
buf_append b bytes =
    if ltb (buf_tailroom b) (length bytes)
    then none
    else some (record b { payload = b.payload ++ bytes })

pub record ChannelCtx : Type 0 where
  pub buf_mss : ℕ
  pub buf_ring : Jring ℕ
  pub app_ring : Jring ℕ
  pub machnet_ring : Jring ℕ
  pub app_buffer_cache : List ℕ
  pub bufs : ℕ → MachnetMsgBuf
  pub aborted : Bool

unfoldable pub init_bufs : List ℕ → (ℕ → MachnetMsgBuf) → (ℕ → MachnetMsgBuf)
init_bufs [] bufs = bufs
init_bufs (i ∷ is) bufs = init_bufs is (λ j. if j == i then buf_init (bufs i) else bufs j)

-- All n buffers, initialised, or none.
unfoldable pub buf_alloc_bulk : ChannelCtx → ℕ → List ℕ × ChannelCtx
buf_alloc_bulk ctx n =
    let (indices, _, ring) = jring_dequeue_bulk ctx.buf_ring n in
    (indices, record ctx { buf_ring = ring; bufs = init_bufs indices ctx.bufs })

-- The number of buffers freed, all or none.
unfoldable pub buf_free_bulk : ChannelCtx → List ℕ → ℕ × ChannelCtx
buf_free_bulk ctx indices =
    let (freed, _, ring) = jring_enqueue_bulk ctx.buf_ring indices in
    (freed, record ctx { buf_ring = ring })

unfoldable pub buffers_avail : ChannelCtx → ℕ
buffers_avail ctx = length ctx.app_buffer_cache + jring_count ctx.buf_ring

unfoldable pub app_ring_enqueue : ChannelCtx → List ℕ → ℕ × ChannelCtx
app_ring_enqueue ctx indices =
    let (sent, _, ring) = jring_enqueue_bulk ctx.app_ring indices in
    (sent, record ctx { app_ring = ring })

unfoldable pub app_ring_dequeue : ChannelCtx → ℕ → List ℕ × ChannelCtx
app_ring_dequeue ctx n =
    let (indices, _, ring) = jring_dequeue_burst ctx.app_ring n in
    (indices, record ctx { app_ring = ring })

unfoldable pub app_ring_pending : ChannelCtx → ℕ
app_ring_pending ctx = jring_count ctx.app_ring

unfoldable pub machnet_ring_enqueue : ChannelCtx → List ℕ → ℕ × ChannelCtx
machnet_ring_enqueue ctx indices =
    let (sent, _, ring) = jring_enqueue_bulk ctx.machnet_ring indices in
    (sent, record ctx { machnet_ring = ring })

unfoldable pub machnet_ring_dequeue : ChannelCtx → ℕ → List ℕ × ChannelCtx
machnet_ring_dequeue ctx n =
    let (indices, _, ring) = jring_dequeue_burst ctx.machnet_ring n in
    (indices, record ctx { machnet_ring = ring })
