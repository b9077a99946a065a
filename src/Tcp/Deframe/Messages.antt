-- ===== src/Tcp/Deframe/Messages.antt =====
-- Messages framed by `OutputMessage` and read back by `ConsumePayload`.
use machnet.Base.{
  ℕ, ◌-◌, ◌<◌, ◌≤◌, ◌^◌, min, ◌≡◌, refl, sym, ap, ◌∙◌, true, some, List, [], ◌∷◌, ◌++◌, arith,
  length, take, drop, htobe32, length-append, Option-cases, inl, inr,
}
use machnet.Tcp.Deframe.{
  msg_max_len, Channel, Reassembly, init, read_prefix, be_value, consume_payload,
}
use machnet.Tcp.Deframe.Stream.{
  View, view, read_bytes, opened, bad_length, read_bytes_prefix, read_bytes_payload,
  read_prefix_full, read_bytes-append, ◌>>=◌,
}
use machnet.Tcp.Deframe.Payload.{IsValid}
use machnet.Tcp.Deframe.Rounds.{consume_payload_refines}

-- What `OutputMessage` puts into the stream for one message.
unfoldable pub frame : List ℕ → List ℕ
unfolding htobe32
frame m = htobe32 (length m) ++ m

unfoldable pub frames : List (List ℕ) → List ℕ
frames [] = []
frames (m ∷ ms) = frame m ++ frames ms

-- Messages that can be sent: not empty, and of at most MACHNET_MSG_MAX_LEN bytes.
abbrev pub AllSendable : List (List ℕ) → Type 0
AllSendable [] = Unit {0}
AllSendable (m ∷ ms) = (0 < length m) × (length m ≤ msg_max_len) × AllSendable ms

abbrev pub between : List (List ℕ) → View
between log = record { prefix = []; pending = 0; payload = []; messages = log }

be_value-htobe32 : (n : ℕ) → n < 2 ^ 32 → be_value 0 (htobe32 n) ≡ n
unfolding be_value htobe32
be_value-htobe32 n h = omega arith

take-append : (xs ys : List ℕ) → take (length xs) (xs ++ ys) ≡ xs
take-append [] ys = refl
take-append (x ∷ xs) ys = ap (λ t. x ∷ t) (take-append xs ys)

drop-append : (xs ys : List ℕ) → drop (length xs) (xs ++ ys) ≡ ys
drop-append [] ys = refl
drop-append (x ∷ xs) ys = drop-append xs ys

-- The byte reader takes one frame off the stream and delivers its message.
read_bytes-frame :
    (m rest : List ℕ) (log : List (List ℕ))
    → 0 < length m
    → length m ≤ msg_max_len
    → read_bytes (between log) (frame m ++ rest) ≡ read_bytes (between (m ∷ log)) rest
unfolding bad_length opened
read_bytes-frame m rest log pos small =
    header ∙ rw (be_value-htobe32 (length m) (omega arith)) (opens ∙ body)
  where
    splits : read_prefix [] (frame m ++ rest) ≡ (htobe32 (length m), m ++ rest)
    splits =
        unfold frame read_prefix in read_prefix_full (htobe32 (length m)) (m ++ rest) (omega arith)

    header :
        read_bytes (between log) (frame m ++ rest)
        ≡ (opened log (be_value 0 (htobe32 (length m))) >>= λ v. read_bytes v (m ++ rest))
    header =
        unfold htobe32 in rw splits at (read_bytes_prefix [] (frame m ++ rest) log (omega arith))

    started : View
    started = record { prefix = []; pending = length m; payload = []; messages = log }

    opens :
        (opened log (length m) >>= λ v. read_bytes v (m ++ rest)) ≡ read_bytes started (m ++ rest)
    opens = ground arith

    k-eq : min (length m - 0) (length (m ++ rest)) ≡ length m
    k-eq = omega (arith, length-append m rest)

    body : read_bytes started (m ++ rest) ≡ read_bytes (between (m ∷ log)) rest
    body =
        rw (k-eq, take-append m rest, drop-append m rest) at
          (read_bytes_payload (length m) [] (m ++ rest) log pos)
        ∙ ground arith

-- The messages `ms` delivered one after the other onto `log`, which stands newest first.
abbrev pub onto : List (List ℕ) → List (List ℕ) → List (List ℕ)
onto [] log = log
onto (m ∷ ms) log = onto ms (m ∷ log)

read_bytes-frames :
    (ms log : List (List ℕ))
    → AllSendable ms
    → read_bytes (between log) (frames ms) ≡ some (between (onto ms log))
unfolding frames read_bytes
read_bytes-frames [] log ok = refl
read_bytes-frames (m ∷ ms) log ok =
    read_bytes-frame m (frames ms) log ok.0 ok.1 ∙ read_bytes-frames ms (m ∷ log) ok.2

-- Segments as they arrive, one `ConsumePayload` each.
unfoldable pub consume_segments : Channel → Reassembly → List (List ℕ) → Reassembly
consume_segments ch r [] = r
consume_segments ch r (s ∷ ss) = consume_segments ch (consume_payload ch r s) ss

unfoldable pub stream_of : List (List ℕ) → List ℕ
stream_of [] = []
stream_of (s ∷ ss) = s ++ stream_of ss

pub init-IsValid : (room : ℕ) → IsValid room init
init-IsValid room = record {
  offset = refl;
  idle = λ _. refl;
  inside = λ h. absurd (h refl);
  short = omega arith;
  within = omega arith;
  is_open = tt;
}

module _ (ch : Channel) (allocates : (k : ℕ) → ch.msgbuf_alloc k ≡ true)
    (enqueues : (k : ℕ) → ch.enqueue k ≡ true) (holds_some : 0 < ch.usable_buf_size) where
  -- The reader accepts every part of a stream that it accepts.
  segments_refine :
      (r : Reassembly) (ss : List (List ℕ)) (w : View)
      → IsValid ch.usable_buf_size r
      → read_bytes (view r) (stream_of ss) ≡ some w
      → view (consume_segments ch r ss) ≡ w
  unfolding consume_segments stream_of
  segments_refine r [] w v e = unfold read_bytes in cc
  segments_refine r (s ∷ ss) w v e = elim (Option-cases (read_bytes (view r) s)) [
    | inl fails ↦ cc (read_bytes-append (view r) s (stream_of ss))
    | inr (u, reads) ↦
        let (v', shows) = consume_payload_refines ch allocates enqueues holds_some r s u v reads in
        segments_refine (consume_payload ch r s) ss w v'
          (rw shows (sym (rw reads at (read_bytes-append (view r) s (stream_of ss))) ∙ e))
  ]

  -- However the stream of the frames of sendable messages is cut into segments, `ConsumePayload` on
  -- the segments in turn, from the initial state and over a channel that serves every call, delivers
  -- exactly those messages, in order, and ends between two messages.
  pub frames_roundtrip :
      (ms ss : List (List ℕ))
      → AllSendable ms
      → stream_of ss ≡ frames ms
      → view (consume_segments ch init ss) ≡ between (onto ms [])
  frames_roundtrip ms ss ok e =
      segments_refine init ss (between (onto ms [])) (init-IsValid ch.usable_buf_size)
        (rw e (read_bytes-frames ms [] ok))
