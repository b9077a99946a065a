-- ===== src/Tcp/Deframe/Payload.antt =====
-- Phase 2 of `ConsumePayload`, with a channel that serves every call: it reads what the byte reader
-- reads, and leaves the reassembly fields in a valid state.
use machnet.Base.{
  ℕ, zero, suc, ◌+◌, ◌-◌, ◌*◌, ◌<◌, ◌≤◌, min, ◌≡◌, ◌≢◌, refl, sym, ap, ◌∙◌, inl, inr, true, some,
  List, [], ◌∷◌, ◌++◌, map, arith, length, take, drop, leb, if◌then◌else◌, length-append,
  length-take, Bool-cases,
}
use machnet.Tcp.Deframe.{
  msg_len_prefix_size, msg_max_len, RxBuf, Channel, Reassembly, next, mark_last, finish, deliver,
  copy_payload,
}
use machnet.Tcp.Deframe.Stream.{view, bytes_of, read_bytes, read_bytes_payload}
use machnet.Tcp.Deframe.Train.{IsOpen, Fills}
use machnet.Tcp.Deframe.Fill.{fill-Fills}

pub record IsValid (room : ℕ) (r : Reassembly) : Type 0 where
  pub offset : r.buf_offset ≡ length (bytes_of r.train)
  pub idle : r.pending_msg_len ≡ 0 → r.train ≡ []
  pub inside : r.pending_msg_len ≢ 0 → (r.len_buf ≡ []) × (r.buf_offset < r.pending_msg_len)
  pub short : length r.len_buf < msg_len_prefix_size
  pub within : r.pending_msg_len ≤ msg_max_len
  pub is_open : IsOpen room r.pending_msg_len r.has_cur r.train

drop_all : {A : Type 0} (n : ℕ) (xs : List A) → length xs ≤ n → drop n xs ≡ []
drop_all zero [] h = refl
drop_all zero (x ∷ xs) h = absurd (omega arith)
drop_all (suc n) [] h = refl
drop_all (suc n) (x ∷ xs) h = drop_all n xs (omega arith)

bytes_of-mark_last : (t : List RxBuf) → bytes_of (mark_last t) ≡ bytes_of t
bytes_of-mark_last [] = refl
bytes_of-mark_last (b ∷ bs) = refl

module _ (ch : Channel) (allocates : (k : ℕ) → ch.msgbuf_alloc k ≡ true)
    (enqueues : (k : ℕ) → ch.enqueue k ≡ true) (holds_some : 0 < ch.usable_buf_size) where
  open ch use {usable_buf_size}

  view-deliver :
      (t : List RxBuf) (r : Reassembly)
      → r.train ≡ t
      → 0 < length (bytes_of t)
      → view (deliver ch r) ≡ record {
        prefix = r.len_buf;
        pending = 0;
        payload = [];
        messages = bytes_of t ∷ map bytes_of r.delivered;
      }
  unfolding deliver
  view-deliver [] r e pos = absurd (omega arith)
  view-deliver (b ∷ bs) r e pos = ground (arith, enqueues r.enqueues, bytes_of-mark_last (b ∷ bs))

  deliver-IsValid : (r : Reassembly) → r.len_buf ≡ [] → IsValid usable_buf_size (deliver ch r)
  unfolding deliver
  deliver-IsValid r e = record {
    offset = refl;
    idle = λ _. refl;
    inside = λ h. absurd (h refl);
    short = rw e (omega arith);
    within = omega arith;
    is_open = tt;
  }

  -- What a round leaves: the byte reader goes on from there over the rest.
  pub record Reads (r : Reassembly) (input : List ℕ) (r' : Reassembly) (rest : List ℕ)
      : Type 0 where
    pub valid : IsValid usable_buf_size r'
    pub same_reading : read_bytes (view r) input ≡ read_bytes (view r') rest

  module _ (r : Reassembly) (input : List ℕ) (v : IsValid usable_buf_size r)
      (open_msg : r.pending_msg_len ≢ 0) where
    unfoldable pub taken : ℕ
    taken = min (r.pending_msg_len - r.buf_offset) (length input)

    taken-le : taken ≤ length input
    unfolding taken
    taken-le = omega arith

    short_input : r.buf_offset + taken < r.pending_msg_len → length input ≤ taken
    unfolding taken
    short_input h = omega (arith, (v.inside open_msg).1)

    -- The reader on the bytes that the round takes.
    reading : read_bytes (view r) input ≡ (
        if leb r.pending_msg_len (r.buf_offset + taken)
        then read_bytes
            (record {
              prefix = [];
              pending = 0;
              payload = [];
              messages = (bytes_of r.train ++ take taken input) ∷ map bytes_of r.delivered;
            })
            (drop taken input)
        else some (record {
          prefix = [];
          pending = r.pending_msg_len;
          payload = bytes_of r.train ++ take taken input;
          messages = map bytes_of r.delivered;
        }))
    unfolding taken
    reading =
        rw (v.offset, (v.inside open_msg).0)
          (read_bytes_payload r.pending_msg_len (bytes_of r.train) input (map bytes_of r.delivered)
            (omega (arith, (v.inside open_msg).1, v.offset)))

    finish-Reads :
        (r1 : Reassembly)
        → Fills usable_buf_size r (take taken input) r1
        → (r' : Reassembly) × (finish ch r1 taken (drop taken input) ≡ next r' (drop taken input))
          × Reads r input r' (drop taken input)
    unfolding finish
    finish-Reads r1 f = elim (Bool-cases (leb r.pending_msg_len (r.buf_offset + taken))) [
      | inl full ↦ (
        deliver ch moved,
        ground arith,
        record {
          valid = deliver-IsValid moved empty_prefix;
          same_reading = ground (arith, reading, shown (ground (arith, r_open)));
        },
      )
      | inr more ↦ (
        moved,
        ground arith,
        record {
          valid = record {
            offset = omega (arith, size, f.same_offset);
            idle = λ h. absurd (open_msg (sym f.same_pending ∙ h));
            inside = λ _. (empty_prefix, ground arith);
            short = rw empty_prefix (omega arith);
            within = rw f.same_pending v.within;
            is_open = rw f.same_pending f.is_open;
          };
          same_reading =
              rw (rest_empty (ground arith))
                (unfold read_bytes in ground (arith, reading, f.added));
        },
      )
    ]
      where
        moved : Reassembly
        moved = record r1 { buf_offset = r1.buf_offset + taken }

        empty_prefix : r1.len_buf ≡ []
        empty_prefix = f.same_prefix ∙ (v.inside open_msg).0

        r_open : r.buf_offset < r.pending_msg_len
        r_open = (v.inside open_msg).1

        size : length (bytes_of r1.train) ≡ r.buf_offset + taken
        size = omega (
          arith,
          ap length f.added,
          length-append (bytes_of r.train) (take taken input),
          length-take taken input,
          v.offset,
          taken-le,
        )

        shown :
            0 < r.buf_offset + taken
            → view (deliver ch moved) ≡ record {
              prefix = r1.len_buf;
              pending = 0;
              payload = [];
              messages = bytes_of r1.train ∷ map bytes_of r1.delivered;
            }
        shown h = view-deliver r1.train moved refl (omega (arith, size))

        rest_empty : r.buf_offset + taken < r.pending_msg_len → drop taken input ≡ []
        rest_empty h = drop_all taken input (short_input h)

    pub copy_payload-Reads :
        (r' : Reassembly) × (copy_payload ch r input ≡ next r' (drop taken input))
        × Reads r input r' (drop taken input)
    unfolding copy_payload taken
    copy_payload-Reads =
        let (r1, e, f) =
          fill-Fills ch allocates holds_some (2 * taken + 1) r (take taken input) v.is_open
            (omega (arith, length-take taken input)) in
        let (r', g, reads) = finish-Reads r1 f in (r', rw (e, copy_payload) g, reads)
