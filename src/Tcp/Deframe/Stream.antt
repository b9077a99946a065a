-- ===== src/Tcp/Deframe/Stream.antt =====
-- The framing of messages as a machine that reads one byte at a time, for `ConsumePayload` to meet.
use mathlib.Core.List.{append-nil, append_assoc}
use machnet.Base.{
  ℕ, suc, ◌+◌, ◌-◌, ◌<◌, ◌≤◌, min, ◌≡◌, refl, inl, inr, Bool, ◌||◌, Option, none, some, List, [],
  ◌∷◌, ◌++◌, map, arith, length, take, drop, ltb, leb, ◌==◌, if◌then◌else◌, length-append,
  Option-cases,
}
use machnet.Tcp.Deframe.{msg_len_prefix_size, msg_max_len, RxBuf, Reassembly, read_prefix, be_value}

-- What a train holds, oldest byte first.
abbrev pub bytes_of : List RxBuf → List ℕ
bytes_of [] = []
bytes_of (b ∷ bs) = bytes_of bs ++ b.bytes

-- The prefix read so far, the length of the open message (0 if none is), its bytes so far, and the
-- messages delivered, newest first.
pub record View : Type 0 where
  pub prefix : List ℕ
  pub pending : ℕ
  pub payload : List ℕ
  pub messages : List (List ℕ)

abbrev pub view : Reassembly → View
view r = record {
  prefix = r.len_buf;
  pending = r.pending_msg_len;
  payload = bytes_of r.train;
  messages = map bytes_of r.delivered;
}

unfoldable pub bad_length : ℕ → Bool
bad_length n = n == 0 || ltb msg_max_len n

-- A complete prefix opens a message, or is refused.
unfoldable pub opened : List (List ℕ) → ℕ → Option View
unfolding bad_length
opened log n =
    if bad_length n
    then none
    else some (record { prefix = []; pending = n; payload = []; messages = log })

unfoldable pub read_byte : View → ℕ → Option View
unfolding opened
read_byte v b =
    let lb = v.prefix ++ b ∷ [] in
    let p = v.payload ++ b ∷ [] in
    if v.pending == 0
    then (if ltb (length lb) msg_len_prefix_size
        then some (record v { prefix = lb })
        else opened v.messages (be_value 0 lb))
    else if length p == v.pending
    then some (record { prefix = []; pending = 0; payload = []; messages = p ∷ v.messages })
    else some (record v { payload = p })

unfoldable pub read_bytes : View → List ℕ → Option View
read_bytes v [] = some v
read_bytes v (b ∷ bs) = elim (read_byte v b) [ none ↦ none | some v' ↦ read_bytes v' bs ]

infixl 5 ◌>>=◌
abbrev pub ◌>>=◌ {ℓ κ} : {A : Type ℓ} {B : Type κ} → Option A → (A → Option B) → Option B
none >>= f = none
some a >>= f = f a

-- Reading is a fold over the bytes: where the stream is cut makes no difference.
pub read_bytes-append :
    (v : View) (xs ys : List ℕ)
    → read_bytes v (xs ++ ys) ≡ (read_bytes v xs >>= λ w. read_bytes w ys)
unfolding read_bytes
read_bytes-append v [] ys = refl
read_bytes-append v (b ∷ xs) ys = elim (Option-cases (read_byte v b)) [
  | inl e ↦ rw (e, read_bytes)
  | inr (w, e) ↦ rw (e, read_bytes) (read_bytes-append w xs ys)
]

pub read_prefix_full :
    (lb input : List ℕ) → msg_len_prefix_size ≤ length lb → read_prefix lb input ≡ (lb, input)
unfolding read_prefix
read_prefix_full lb [] h = refl
read_prefix_full lb (b ∷ bs) h = ground arith

-- Between messages: the reader takes the bytes that `read_prefix` takes.
pub read_bytes_prefix :
    (lb input : List ℕ) (log : List (List ℕ))
    → length lb < msg_len_prefix_size
    → let (lb', rest) = read_prefix lb input in
      read_bytes (record { prefix = lb; pending = 0; payload = []; messages = log }) input ≡ (
        if ltb (length lb') msg_len_prefix_size
        then some (record { prefix = lb'; pending = 0; payload = []; messages = log })
        else (opened log (be_value 0 lb') >>= λ v. read_bytes v rest))
unfolding read_prefix read_bytes read_byte
read_bytes_prefix lb [] log h = ground arith
read_bytes_prefix lb (b ∷ bs) log h = ground (
  arith,
  length-append lb (b ∷ []),
  read_prefix_full (lb ++ b ∷ []) bs,
  read_bytes_prefix (lb ++ b ∷ []) bs log,
)

-- Inside a message: the reader takes what is missing of it, or all that there is.
pub read_bytes_payload :
    (n : ℕ) (p input : List ℕ) (log : List (List ℕ))
    → length p < n
    → let k = min (n - length p) (length input) in
      read_bytes (record { prefix = []; pending = n; payload = p; messages = log }) input ≡ (
        if leb n (length p + k)
        then read_bytes
            (record {
              prefix = [];
              pending = 0;
              payload = [];
              messages = (p ++ take k input) ∷ log;
            })
            (drop k input)
        else some
            (record { prefix = []; pending = n; payload = p ++ take k input; messages = log }))
unfolding read_bytes read_byte
read_bytes_payload n p [] log h =
    let e : min (n - length p) 0 ≡ 0 = omega arith in rw (e, append-nil) (ground arith)
read_bytes_payload n p (b ∷ bs) log h =
    let e : min (n - length p) (suc (length bs)) ≡ suc (min (n - suc (length p)) (length bs)) =
      omega arith in
    rw e (
      ground (
        arith,
        length-append p (b ∷ []),
        append_assoc p (b ∷ []) (take (min (n - suc (length p)) (length bs)) bs),
        read_bytes_payload n (p ++ b ∷ []) bs log,
      ))
