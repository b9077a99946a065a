-- ===== src/Tcp/Deframe/Rounds.antt =====
-- The outer loop of `ConsumePayload`, with a channel that serves every call: it reads what
-- the byte reader reads, and leaves the reassembly fields in a valid state.
use machnet.Base.{
  ℕ, zero, suc, ◌-◌, ◌<◌, ◌≤◌, min, ◌≡◌, ◌≢◌, refl, sym, ◌∙◌, Bool, true, false, some, List, [],
  ◌∷◌, ◌++◌, map, arith, length, ltb, if◌then◌else◌, length-drop,
}
use native.Mathlib.Decide.{ℕ_discrete, dec_lt}
use machnet.Tcp.Deframe.{
  msg_len_prefix_size, RxBuf, Channel, Reassembly, Round, stop, next, copy_payload, start_message,
  consume_round, consume_loop, consume_payload, read_prefix, be_value,
}
use machnet.Tcp.Deframe.Stream.{
  View, view, bytes_of, read_bytes, opened, bad_length, read_bytes_prefix, ◌>>=◌,
}
use machnet.Tcp.Deframe.Train.{IsOpen}
use machnet.Tcp.Deframe.Payload.{IsValid, taken, copy_payload-Reads}

IsOpen-nil :
    (room len len' : ℕ) (c : Bool) (t : List RxBuf)
    → IsOpen room len c t
    → t ≡ []
    → IsOpen room len' c t
IsOpen-nil room len len' false [] o e = tt
IsOpen-nil room len len' true [] o e = absurd o
IsOpen-nil room len len' c (b ∷ bs) o e = cc

length-read_prefix : (lb input : List ℕ) → length (read_prefix lb input).1 ≤ length input
unfolding read_prefix
length-read_prefix lb [] = omega arith
length-read_prefix lb (b ∷ bs) = ground (arith, length-read_prefix (lb ++ b ∷ []) bs)

-- An incomplete prefix takes at least one byte.
length-read_prefix_cons :
    (lb : List ℕ) (b : ℕ) (bs : List ℕ)
    → length lb < msg_len_prefix_size
    → length (read_prefix lb (b ∷ bs)).1 ≤ length bs
unfolding read_prefix
length-read_prefix_cons lb b bs h = ground (arith, length-read_prefix (lb ++ b ∷ []) bs)

module _ (ch : Channel) (allocates : (k : ℕ) → ch.msgbuf_alloc k ≡ true)
    (enqueues : (k : ℕ) → ch.enqueue k ≡ true) (holds_some : 0 < ch.usable_buf_size) where
  open ch use {usable_buf_size}

  -- One round of the outer loop on a byte string that the reader accepts.
  data RoundReads (r : Reassembly) (input : List ℕ) (w : View) : Round → Type 0 where
    goes_on :
        {r' : Reassembly} {rest : List ℕ}
        → IsValid usable_buf_size r'
        → length rest < length input
        → read_bytes (view r') rest ≡ some w
        → RoundReads r input w (next r' rest)
    ends :
        {r' : Reassembly}
        → IsValid usable_buf_size r'
        → view r' ≡ w
        → RoundReads r input w (stop r')

  module _ (r : Reassembly) (b : ℕ) (bs : List ℕ) (w : View) (v : IsValid usable_buf_size r) where
    open_Reads :
        (e : read_bytes (view r) (b ∷ bs) ≡ some w)
        → r.pending_msg_len ≢ 0
        → RoundReads r (b ∷ bs) w (consume_round ch r (b ∷ bs))
    unfolding consume_round taken
    open_Reads e open_msg =
        let (r', c, reads) =
          copy_payload-Reads ch allocates enqueues holds_some r (b ∷ bs) v open_msg in
        let enters : consume_round ch r (b ∷ bs) ≡ copy_payload ch r (b ∷ bs) = ground arith in
        let k = min (r.pending_msg_len - r.buf_offset) (length (b ∷ bs)) in
        rw (enters ∙ c) (
          goes_on reads.valid (omega (arith, (v.inside open_msg).1, length-drop k (b ∷ bs)))
            (sym reads.same_reading ∙ e))

    module _ (lb rest : List ℕ) (reads_prefix : read_prefix r.len_buf (b ∷ bs) ≡ (lb, rest))
        (shorter : length rest ≤ length bs) (idle : r.pending_msg_len ≡ 0)
        (reading : read_bytes (view r) (b ∷ bs) ≡ (
          if ltb (length lb) msg_len_prefix_size
          then some (record (view r) { prefix = lb })
          else (opened (map bytes_of r.delivered) (be_value 0 lb) >>= λ u. read_bytes u rest)))
        (e : read_bytes (view r) (b ∷ bs) ≡ some w) where
      short_Reads :
          length lb < msg_len_prefix_size → RoundReads r (b ∷ bs) w (consume_round ch r (b ∷ bs))
      unfolding consume_round
      short_Reads h =
          let stops : consume_round ch r (b ∷ bs) ≡ stop (record r { len_buf = lb }) =
            rw (reads_prefix, consume_round) (ground arith) in
          rw stops (
            ends
              (record {
                offset = v.offset;
                idle = v.idle;
                inside = λ h'. absurd (h' idle);
                short = h;
                within = v.within;
                is_open = v.is_open;
              })
              (ground (arith, reading, e)))

      full_Reads :
          msg_len_prefix_size ≤ length lb
          → bad_length (be_value 0 lb) ≡ false
          → RoundReads r (b ∷ bs) w (consume_round ch r (b ∷ bs))
      unfolding consume_round start_message bad_length opened taken
      full_Reads h good =
          let (r', c, reads) =
            copy_payload-Reads ch allocates enqueues holds_some opening rest opening-IsValid
              nonzero in
          let enters : consume_round ch r (b ∷ bs) ≡ copy_payload ch opening rest =
            rw (reads_prefix, consume_round) (ground arith) in
          let k = min (opening.pending_msg_len - opening.buf_offset) (length rest) in
          let opens : read_bytes (view opening) rest ≡ some w = ground (arith, reading, e, empty) in
          rw (enters ∙ c) (
            goes_on reads.valid (omega (arith, shorter, length-drop k rest))
              (sym reads.same_reading ∙ opens))
        where
          opening : Reassembly
          opening = record r { pending_msg_len = be_value 0 lb; buf_offset = 0; len_buf = [] }

          empty : r.train ≡ []
          empty = v.idle idle

          nonzero : be_value 0 lb ≢ 0
          nonzero = ground arith

          opening-IsValid : IsValid usable_buf_size opening
          opening-IsValid = record {
            offset = rw empty refl;
            idle = λ z. empty;
            inside = λ z. (refl, omega (arith, nonzero));
            short = omega arith;
            within = ground arith;
            is_open = IsOpen-nil _ _ _ r.has_cur r.train v.is_open empty;
          }

  round-Reads :
      (r : Reassembly) (b : ℕ) (bs : List ℕ) (w : View)
      → IsValid usable_buf_size r
      → read_bytes (view r) (b ∷ bs) ≡ some w
      → RoundReads r (b ∷ bs) w (consume_round ch r (b ∷ bs))
  round-Reads r b bs w v e = elim (ℕ_discrete r.pending_msg_len 0) [
    | no open_msg ↦ open_Reads r b bs w v e open_msg
    | yes idle ↦ elim (dec_lt (length lb) msg_len_prefix_size) [
      | yes short ↦ short_Reads r b bs w v lb rest refl shorter idle (reading idle) e short
      | no full ↦
          full_Reads r b bs w v lb rest refl shorter idle (reading idle) e (omega arith)
            (good idle (omega arith))
    ]
  ]
    where
      lb : List ℕ
      lb = (read_prefix r.len_buf (b ∷ bs)).0

      rest : List ℕ
      rest = (read_prefix r.len_buf (b ∷ bs)).1

      shorter : length rest ≤ length bs
      shorter = length-read_prefix_cons r.len_buf b bs v.short

      reading :
          r.pending_msg_len ≡ 0
          → read_bytes (view r) (b ∷ bs) ≡ (
              if ltb (length lb) msg_len_prefix_size
              then some (record (view r) { prefix = lb })
              else (opened (map bytes_of r.delivered) (be_value 0 lb) >>= λ u. read_bytes u rest))
      reading idle =
          rw (v.idle idle, idle)
            (read_bytes_prefix r.len_buf (b ∷ bs) (map bytes_of r.delivered) v.short)

      good :
          r.pending_msg_len ≡ 0
          → msg_len_prefix_size ≤ length lb
          → bad_length (be_value 0 lb) ≡ false
      good idle full = unfold opened in ground (arith, reading idle, e)

  module _ (w : View) (fuel : ℕ) where
    LoopReads : ℕ → Type 0
    LoopReads n =
        (r : Reassembly) (input : List ℕ)
        → IsValid usable_buf_size r
        → length input ≤ n
        → read_bytes (view r) input ≡ some w
        → IsValid usable_buf_size (consume_loop ch n r input)
          × (view (consume_loop ch n r input) ≡ w)

    after_round :
        {rd : Round} (r : Reassembly) (b : ℕ) (bs : List ℕ)
        → LoopReads fuel
        → length (b ∷ bs) ≤ suc fuel
        → consume_round ch r (b ∷ bs) ≡ rd
        → RoundReads r (b ∷ bs) w rd
        → IsValid usable_buf_size (consume_loop ch (suc fuel) r (b ∷ bs))
          × (view (consume_loop ch (suc fuel) r (b ∷ bs)) ≡ w)
    unfolding consume_loop LoopReads
    after_round r b bs ih h c (goes_on {r'} {rest} v shorter e) =
        rw (c, consume_loop) (ih r' rest v (omega arith) e)
    after_round r b bs ih h c (ends v e) = rw (c, consume_loop) (v, e)

  loop-Reads : (fuel : ℕ) (w : View) → LoopReads w fuel fuel
  unfolding LoopReads consume_loop
  loop-Reads zero w r [] v h e = (v, unfold read_bytes in cc)
  loop-Reads zero w r (b ∷ bs) v h e = absurd (omega arith)
  loop-Reads (suc fuel) w r [] v h e = (v, unfold read_bytes in cc)
  loop-Reads (suc fuel) w r (b ∷ bs) v h e =
      after_round w fuel r b bs (loop-Reads fuel w) h refl (round-Reads r b bs w v e)

  -- `ConsumePayload` over a channel that serves every call, from a valid state and on bytes that the
  -- byte-wise reader of frames accepts, ends in a valid state that shows exactly what that reader
  -- shows: the same prefix, open message and delivered messages.
  pub consume_payload_refines :
      (r : Reassembly) (input : List ℕ) (w : View)
      → IsValid usable_buf_size r
      → read_bytes (view r) input ≡ some w
      → IsValid usable_buf_size (consume_payload ch r input)
        × (view (consume_payload ch r input) ≡ w)
  unfolding consume_payload LoopReads
  consume_payload_refines r input w v e = loop-Reads (length input) w r input v (omega arith) e
