-- ===== src/Udp/RxTracking.antt =====
-- src/include/flow.h, `RXTracking`: packets are put in order and become messages. The channel answers
-- for its allocations and enqueues through `Channel`. The addresses of the flow, which every buffer
-- gets, are left out.
pub mod Order
pub mod Arrival
pub mod Runs
use machnet.Base.{
  ℕ, ◌+◌, Bool, true, false, Option, none, some, List, [], ◌∷◌, ◌++◌, length, ltb, leb, ◌==◌,
  if◌then◌else◌, sub32,
}
use machnet.Seq.{seq_lt}
use machnet.Tcp.Deframe.{Channel}
use machnet.Udp.Pcb.{Pcb, advance_rcv_nxt, sack_bitmap_shift_right_one, sack_bitmap_bit_set}

-- sizeof(sizeof(MachnetPktHdr::sack_bitmap)) * 8, with sizeof(size_t) 8
abbrev pub reassembly_max_seqno_distance : ℕ
reassembly_max_seqno_distance = 64

-- A buffer: `last` is is_last() of the flags that the packet carried.
pub record MsgBuf : Type 0 where
  pub last : Bool
  pub bytes : List ℕ

-- A data packet as `Consume` reads it.
pub record DataPacket : Type 0 where
  pub seqno : ℕ
  pub last : Bool
  pub payload : List ℕ

-- reasm_queue_ent_t
pub record ReasmQueueEnt : Type 0 where
  pub msgbuf : MsgBuf
  pub seqno : ℕ

-- The train stands newest buffer first, null where empty. `delivered` logs the trains given to the
-- application, newest first; `aborted` says that a CHECK or a LOG(FATAL) ended
-- the process.
pub record RxTracking : Type 0 where
  pub reass_q : List ReasmQueueEnt
  pub cur_msg_train : List MsgBuf
  pub delivered : List (List MsgBuf)
  pub allocs : ℕ
  pub enqueues : ℕ
  pub aborted : Bool

unfoldable pub new_rx_tracking : RxTracking
new_rx_tracking = record {
  reass_q = [];
  cur_msg_train = [];
  delivered = [];
  allocs = 0;
  enqueues = 0;
  aborted = false;
}

-- std::find_if: the entries before the first one whose number is `seqno` or more, and the rest.
unfoldable pub find_entry : ℕ → List ReasmQueueEnt → List ReasmQueueEnt × List ReasmQueueEnt
find_entry seqno [] = ([], [])
find_entry seqno (e ∷ es) =
    let (before, rest) = find_entry seqno es in
    if leb seqno e.seqno then ([], e ∷ es) else (e ∷ before, rest)

abbrev pub starts_with : ℕ → List ReasmQueueEnt → Bool
starts_with seqno [] = false
starts_with seqno (e ∷ es) = e.seqno == seqno

module _ (ch : Channel) where
  -- The end of a round of the loop: link the buffer, and deliver a complete message.
  unfoldable pub link_msgbuf : MsgBuf → RxTracking → RxTracking
  link_msgbuf b r =
      let train = b ∷ r.cur_msg_train in
      if b.last
      then record r {
        cur_msg_train = [];
        enqueues = r.enqueues + 1;
        delivered = if ch.enqueue r.enqueues then train ∷ r.delivered else r.delivered;
        aborted = if ch.enqueue r.enqueues then r.aborted else true;
      }
      else record r { cur_msg_train = train }

  -- PushInOrderMsgbufsToShmTrain, on the queue.
  unfoldable pub push_in_order : List ReasmQueueEnt → Pcb × RxTracking → Pcb × RxTracking
  push_in_order [] (p, r) = (p, record r { reass_q = [] })
  push_in_order (e ∷ es) (p, r) =
      let rest =
        push_in_order es
          (sack_bitmap_shift_right_one (advance_rcv_nxt p), link_msgbuf e.msgbuf r) in
      if e.seqno == p.rcv_nxt then rest else (p, record r { reass_q = e ∷ es })

  -- `Consume` from the allocation on, with the place of the packet in the queue. The CHECK fails where the
  -- buffer has no room for the payload.
  unfoldable pub buffer_packet :
      DataPacket
      → List ReasmQueueEnt
      → List ReasmQueueEnt
      → Pcb × RxTracking
      → Bool × (Pcb × RxTracking)
  buffer_packet k before rest (p, r) =
      let e : ReasmQueueEnt = record {
        msgbuf = record { last = k.last; bytes = k.payload };
        seqno = k.seqno;
      } in
      let r' = record r { allocs = r.allocs + 1 } in
      if ch.msgbuf_alloc r.allocs
      then if ltb ch.usable_buf_size (length k.payload)
        then (true, (p, record r' { aborted = true }))
        else elim (sack_bitmap_bit_set (sub32 k.seqno p.rcv_nxt) p) [
          | none ↦ (true, (p, record r' { aborted = true }))
          | some p' ↦ (true, push_in_order (before ++ e ∷ rest) (p', r'))
        ]
      else (false, (p, r'))

  -- `Consume`; true is the return of 0.
  unfoldable pub consume : DataPacket → Pcb × RxTracking → Bool × (Pcb × RxTracking)
  unfolding sub32
  consume k (p, r) =
      let (before, rest) = find_entry k.seqno r.reass_q in
      if seq_lt k.seqno p.rcv_nxt
      then (true, (p, r))
      else if leb reassembly_max_seqno_distance (sub32 k.seqno p.rcv_nxt)
      then (true, (p, r))
      else if k.seqno == p.rcv_nxt
      then buffer_packet k [] r.reass_q (p, r)
      else if starts_with k.seqno rest
      then (true, (p, r))
      else buffer_packet k before rest (p, r)
