-- ===== src/Udp/TxTracking.antt =====
-- src/include/flow.h, `TXTracking`: the buffers of the messages that a UDP flow sends.
use machnet.Base.{
  ℕ, zero, suc, ◌+◌, ◌-◌, ◌/◌, Bool, not, ◌&&◌, Option, none, some, List, [], ◌∷◌, ◌++◌, length,
  ◌==◌, if◌then◌else◌, add32, sub32,
}

-- A buffer: is_last(), the bytes, and msg_length(), which the first buffer of a message has.
pub record TxMsgBuf : Type 0 where
  pub last : Bool
  pub bytes : List ℕ
  pub msg_length : ℕ

-- The three pointers as the chain from `oldest_unacked_msgbuf_` to `last_msgbuf_`, and the part of it
-- from `oldest_unsent_msgbuf_` on; a null pointer is an empty list. `freed` logs the buffers given
-- back, newest first.
pub record TxTracking : Type 0 where
  pub unacked : List TxMsgBuf
  pub unsent : List TxMsgBuf
  pub num_unsent_msgbufs : ℕ
  pub num_tracked_msgbufs : ℕ
  pub freed : List TxMsgBuf

unfoldable pub new_tx_tracking : TxTracking
new_tx_tracking = record {
  unacked = [];
  unsent = [];
  num_unsent_msgbufs = 0;
  num_tracked_msgbufs = 0;
  freed = [];
}

abbrev pub max_burst : ℕ
max_burst = 64

-- `none` where the source follows a null pointer or the CHECK of MsgBufBulkFree fails. `batch` buffers
-- wait in `to_free`; `bulk_free k` is the answer to the release after which k buffers are released.
unfoldable pub receive_acks : (ℕ → Bool) → ℕ → ℕ → TxTracking → Option TxTracking
unfolding sub32
receive_acks bulk_free batch zero t = if bulk_free (length t.freed) then some t else none
receive_acks bulk_free batch (suc n) t = elim t.unacked [
  | [] ↦ none
  | b ∷ bs ↦
      let t' = record t {
        unacked = bs;
        num_tracked_msgbufs = sub32 t.num_tracked_msgbufs 1;
        freed = b ∷ t.freed;
      } in
      let full = batch + 1 == max_burst in
      let rest = receive_acks bulk_free (if full then 0 else batch + 1) n t' in
      if full && not (bulk_free (length t'.freed)) then none else rest
]

-- The number of buffers that a message of a length takes.
abbrev pub msg_buffers_nr : ℕ → ℕ → ℕ
msg_buffers_nr size len = (len + size - 1) / size

abbrev pub first_msg_length : List TxMsgBuf → ℕ
first_msg_length [] = 0
first_msg_length (b ∷ bs) = b.msg_length

-- `Append` of the buffers of a message, for buffers of `size` bytes.
unfoldable pub append : ℕ → List TxMsgBuf → TxTracking → TxTracking
unfolding add32
append size msg t = record t {
  unacked = t.unacked ++ msg;
  unsent = t.unsent ++ msg;
  num_unsent_msgbufs = add32 t.num_unsent_msgbufs (msg_buffers_nr size (first_msg_length msg));
  num_tracked_msgbufs = add32 t.num_tracked_msgbufs (msg_buffers_nr size (first_msg_length msg));
}

unfoldable pub get_and_update_oldest_unsent : TxTracking → Option (TxMsgBuf × TxTracking)
unfolding sub32
get_and_update_oldest_unsent t = elim t.unsent [
  | [] ↦ none
  | b ∷ bs ↦ some (b, record t { unsent = bs; num_unsent_msgbufs = sub32 t.num_unsent_msgbufs 1 })
]
