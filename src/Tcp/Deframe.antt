-- ===== src/Tcp/Deframe.antt =====
-- src/include/tcp_flow.h, `ConsumePayload`: the received byte stream is cut into messages by their
-- 4-byte length prefixes, and each message is gathered in a train of message buffers of the channel.
-- The channel answers for its allocations and enqueues through `Channel`. The addresses that the
-- first buffer of a train also gets are constants of the flow and are left out.
pub mod Stream
pub mod Train
pub mod Fill
pub mod Payload
pub mod Rounds
pub mod Messages
use machnet.Base.{
  ℕ, zero, suc, ◌+◌, ◌-◌, ◌*◌, ◌^◌, min, Bool, true, false, ◌||◌, Option, none, some, List, [], ◌∷◌,
  ◌++◌, length, take, drop, ltb, leb, ◌==◌, if◌then◌else◌,
}

abbrev pub msg_len_prefix_size : ℕ
msg_len_prefix_size = 4

-- MACHNET_MSG_MAX_LEN, (8 * MB)
abbrev pub msg_max_len : ℕ
msg_max_len = 2 ^ 23

-- A message buffer under construction: the flags SYN, SG and FIN, `msg_len`, and the data.
pub record RxBuf : Type 0 where
  pub syn : Bool
  pub sg : Bool
  pub fin : Bool
  pub msg_length : ℕ
  pub bytes : List ℕ

-- What the channel answers to the k-th `MsgBufAlloc` and to the k-th `EnqueueMessages`, and the
-- bytes that a buffer can hold (`GetUsableBufSize`).
pub record Channel : Type 0 where
  pub msgbuf_alloc : ℕ → Bool
  pub enqueue : ℕ → Bool
  pub usable_buf_size : ℕ

-- The reassembly fields of the flow. `len_buf` holds `rx_len_buf_[0 .. rx_len_buf_offset_)`. The
-- train stands newest buffer first; with `has_cur` the newest is `rx_cur_msgbuf_`, else that is null.
-- The last four count the calls of the channel and log what went to the application and what was
-- freed, newest first.
pub record Reassembly : Type 0 where
  pub len_buf : List ℕ
  pub buf_offset : ℕ
  pub pending_msg_len : ℕ
  pub has_cur : Bool
  pub train : List RxBuf
  pub allocs : ℕ
  pub enqueues : ℕ
  pub delivered : List (List RxBuf)
  pub freed : List (List RxBuf)

abbrev pub init : Reassembly
init = record {
  len_buf = [];
  buf_offset = 0;
  pending_msg_len = 0;
  has_cur = false;
  train = [];
  allocs = 0;
  enqueues = 0;
  delivered = [];
  freed = [];
}

-- The inner `while` of phase 1: the prefix read so far, and the data left.
unfoldable pub read_prefix : List ℕ → List ℕ → List ℕ × List ℕ
read_prefix lb [] = (lb, [])
read_prefix lb (b ∷ bs) =
    if ltb (length lb) msg_len_prefix_size then read_prefix (lb ++ b ∷ []) bs else (lb, b ∷ bs)

-- be32toh of the bytes read
unfoldable pub be_value : ℕ → List ℕ → ℕ
be_value acc [] = acc
be_value acc (b ∷ bs) = be_value (acc * 256 + b) bs

-- A buffer that `MsgBufAlloc` returned, set up and linked to the train.
abbrev pub fresh_buf : ℕ → List RxBuf → RxBuf
fresh_buf len [] = record { syn = true; sg = false; fin = false; msg_length = len; bytes = [] }
fresh_buf len (_ ∷ _) = record { syn = false; sg = true; fin = false; msg_length = 0; bytes = [] }

-- Bytes in the newest buffer, its SG flag, and an append to it.
abbrev pub cur_length : List RxBuf → ℕ
cur_length [] = 0
cur_length (b ∷ bs) = length b.bytes

abbrev pub mark_sg : List RxBuf → List RxBuf
mark_sg [] = []
mark_sg (b ∷ bs) = record b { sg = true } ∷ bs

abbrev pub append_cur : List RxBuf → List ℕ → List RxBuf
append_cur [] data_bytes = []
append_cur (b ∷ bs) data_bytes = record b { bytes = b.bytes ++ data_bytes } ∷ bs

abbrev pub mark_last : List RxBuf → List RxBuf
mark_last [] = []
mark_last (b ∷ bs) = record b { sg = false; fin = true } ∷ bs

-- `FreeMsgBufChain` of the partial train, if there is one.
abbrev pub free_train : List RxBuf → List (List RxBuf) → List (List RxBuf)
free_train [] freed = freed
free_train (b ∷ bs) freed = (b ∷ bs) ∷ freed

pub data Round : Type 0 where
  stop : Reassembly → Round
  next : Reassembly → List ℕ → Round

module _ (ch : Channel) where
  -- "Need a new MsgBuf?": `none` if the allocation failed.
  unfoldable pub ensure_cur : Reassembly → Option Reassembly
  ensure_cur r =
      if r.has_cur
      then some r
      else if ch.msgbuf_alloc r.allocs
      then some (record r {
        allocs = r.allocs + 1;
        has_cur = true;
        train = fresh_buf r.pending_msg_len r.train ∷ r.train;
      })
      else none

  -- The reset after a failed allocation.
  unfoldable pub drop_message : Reassembly → Reassembly
  drop_message r = record r {
    allocs = r.allocs + 1;
    pending_msg_len = 0;
    buf_offset = 0;
    has_cur = false;
    train = [];
    freed = free_train r.train r.freed;
  }

  -- The rest of one round of the inner `while` of phase 2, with a current buffer: a full one is
  -- marked SG and left, else a chunk is copied. With the data not yet consumed.
  unfoldable pub copy_chunk : Reassembly → List ℕ → Reassembly × List ℕ
  copy_chunk r todo =
      let room = ch.usable_buf_size - cur_length r.train in
      let chunk = min (length todo) room in
      if room == 0
      then (record r { train = mark_sg r.train; has_cur = false }, todo)
      else (record r { train = append_cur r.train (take chunk todo) }, drop chunk todo)

  -- The inner `while` of phase 2 on the `to_consume` bytes: `next` when they are consumed.
  unfoldable pub fill : ℕ → Reassembly → List ℕ → Round
  fill zero r todo = next r todo
  fill (suc fuel) r [] = next r []
  fill (suc fuel) r (b ∷ bs) = elim (ensure_cur r) [
    | none ↦ stop (drop_message r)
    | some r' ↦ let (r'', todo) = copy_chunk r' (b ∷ bs) in fill fuel r'' todo
  ]

  -- "Deliver to application", and the reset for the next message.
  unfoldable pub deliver : Reassembly → Reassembly
  deliver r =
      let done = if r.has_cur then mark_last r.train else r.train in
      record r {
        pending_msg_len = 0;
        buf_offset = 0;
        has_cur = false;
        train = [];
        enqueues = elim r.train [ [] ↦ r.enqueues | _ ∷ _ ↦ r.enqueues + 1 ];
        delivered = elim r.train [
          | [] ↦ r.delivered
          | _ ∷ _ ↦ if ch.enqueue r.enqueues then done ∷ r.delivered else r.delivered
        ];
        freed = elim r.train [
          | [] ↦ r.freed
          | _ ∷ _ ↦ if ch.enqueue r.enqueues then r.freed else done ∷ r.freed
        ];
      }

  -- What follows the inner `while`: the offset moves on, and a complete message is delivered.
  unfoldable pub finish : Reassembly → ℕ → List ℕ → Round
  finish r consumed rest =
      let r' = record r { buf_offset = r.buf_offset + consumed } in
      next (if leb r'.pending_msg_len r'.buf_offset then deliver r' else r') rest

  -- Phase 2 and the check for a complete message.
  unfoldable pub copy_payload : Reassembly → List ℕ → Round
  copy_payload r input =
      let n = min (r.pending_msg_len - r.buf_offset) (length input) in
      elim (fill (2 * n + 1) r (take n input)) [
        | stop r' ↦ stop r'
        | next r' _ ↦ finish r' n (drop n input)
      ]

  -- Phase 1 with a complete prefix: the announced length is checked.
  unfoldable pub start_message : Reassembly → ℕ → List ℕ → Round
  start_message r len rest =
      if len == 0 || ltb msg_max_len len
      then stop (record r { pending_msg_len = 0; buf_offset = 0; len_buf = [] })
      else copy_payload (record r { pending_msg_len = len; buf_offset = 0; len_buf = [] }) rest

  -- One round of the outer `while`.
  unfoldable pub consume_round : Reassembly → List ℕ → Round
  consume_round r input =
      let (lb, rest) = read_prefix r.len_buf input in
      if r.pending_msg_len == 0
      then (if ltb (length lb) msg_len_prefix_size
          then stop (record r { len_buf = lb })
          else start_message r (be_value 0 lb) rest)
      else copy_payload r input

  unfoldable pub consume_loop : ℕ → Reassembly → List ℕ → Reassembly
  consume_loop zero r input = r
  consume_loop (suc fuel) r [] = r
  consume_loop (suc fuel) r (b ∷ bs) = elim (consume_round r (b ∷ bs)) [
    | stop r' ↦ r'
    | next r' rest ↦ consume_loop fuel r' rest
  ]

  -- `ConsumePayload(data, len)`. Every round consumes a byte, so `len` rounds are enough.
  unfoldable pub consume_payload : Reassembly → List ℕ → Reassembly
  consume_payload r input = consume_loop (length input) r input
