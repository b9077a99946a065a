-- ===== src/Tcp/Messages.antt =====
-- src/include/tcp_flow.h, `OutputMessage`: what becomes of a message of the application.
use machnet.Base.{
  ℕ, zero, suc, ◌+◌, ◌-◌, ◌<◌, ◌^◌, min, ◌≡◌, refl, ◌∙◌, ap, Bool, true, false, arith, List, [],
  ◌∷◌, ◌++◌, length, leb, ◌==◌, ◌&&◌, if◌then◌else◌, take, length-take, htobe32,
}
use machnet.Tcp.Flow.{Env, TcpFlow, max_send_buf}
use machnet.Tcp.Send.Rest.{rest_of, rest_of-pump_send}
use machnet.Tcp.Connection.{
  TxBuf, reached, log_indices, free_chain, copy_chain, may_send_message, output_message,
}

-- The bytes of the buffers that the flow reaches.
abbrev pub bytes_of_chain : List TxBuf → List ℕ
bytes_of_chain [] = []
bytes_of_chain (b ∷ bs) = b.bytes ++ (if b.linked then bytes_of_chain bs else [])

-- A message is accepted if the connection is open, its frame fits the send buffer, and its buffers hold
-- its declared length.
abbrev pub accepted : ℕ → List TxBuf → TcpFlow → Bool
accepted len chain f =
    may_send_message f.state
    && leb (length f.snd_buf + (4 + len)) max_send_buf
    && leb len (length (bytes_of_chain chain))

take_append :
    (n : ℕ) (xs ys : List ℕ)
    → take (min (length xs) n) xs ++ take (n - min (length xs) n) ys ≡ take n (xs ++ ys)
take_append n [] ys = rw (none_before, none_left) refl
  where
    none_before : min 0 n ≡ 0
    none_before = omega arith

    none_left : n - 0 ≡ n
    none_left = omega arith
take_append zero (x ∷ xs) ys = rw none_before refl
  where
    none_before : min (suc (length xs)) 0 ≡ 0
    none_before = omega arith
take_append (suc n) (x ∷ xs) ys = rw (one_more, one_less) (ap (λ t. x ∷ t) (take_append n xs ys))
  where
    one_more : min (suc (length xs)) (suc n) ≡ suc (min (length xs) n)
    one_more = omega arith

    one_less : suc n - suc (min (length xs) n) ≡ n - min (length xs) n
    one_less = omega arith

take_none : (n : ℕ) → [] ≡ take {A = ℕ} n []
take_none zero = refl
take_none (suc n) = refl

-- A buffer's part of the message, and the rest of it.
copy_link :
    (n : ℕ) (xs copied ys : List ℕ)
    → copied ≡ take (n - min (length xs) n) ys
    → (if n == 0 then [] else take (min (length xs) n) xs ++ copied) ≡ take n (xs ++ ys)
copy_link zero xs copied ys e = refl
copy_link (suc n) xs copied ys e =
    rw positive (ap (λ t. take (min (length xs) (suc n)) xs ++ t) e ∙ take_append (suc n) xs ys)
  where
    positive : (suc n == 0) ≡ false
    positive = ground arith

link_bytes :
    (n : ℕ) (b : Bool) (bs : List TxBuf)
    → copy_chain n bs ≡ take n (bytes_of_chain bs)
    → (if b then copy_chain n bs else []) ≡ take n (if b then bytes_of_chain bs else [])
link_bytes n true bs e = e
link_bytes n false bs e = take_none n

copy_chain-take : (n : ℕ) (chain : List TxBuf) → copy_chain n chain ≡ take n (bytes_of_chain chain)
unfolding copy_chain
copy_chain-take n [] = take_none n
copy_chain-take n (b ∷ bs) =
    let left = n - min (length b.bytes) n in
    copy_link n b.bytes _ _ (link_bytes left b.linked bs (copy_chain-take left bs))

module _ (env : Env) (len : ℕ) (chain : List TxBuf) (f : TcpFlow) (small : 4 + len < 2 ^ 32) where
  -- An accepted message leaves its frame, the four bytes of its length in network order and its first
  -- `len` bytes, at the end of the send buffer; one that is not accepted leaves the buffer as it was.
  -- Either way every buffer of the chain is given back once, and the state of the connection stays.
  pub output_message-frames :
      let g = output_message env len chain f in
      (g.snd_buf ≡ (
        if accepted len chain f
        then f.snd_buf ++ (htobe32 len ++ take len (bytes_of_chain chain))
        else f.snd_buf))
      × (g.freed ≡ log_indices (reached chain) f.freed)
      × (g.state ≡ f.state)
  unfolding output_message free_chain rest_of
  output_message-frames =
      let sent = record f { snd_buf = f.snd_buf ++ (htobe32 len ++ copy_chain len chain) } in
      let pumped = rest_of-pump_send env (free_chain chain sent) in
      let same_buf = ap (λ r. r.buf) pumped in
      let same_freed = ap (λ r. r.freed) pumped in
      let same_state = ap (λ r. r.state) pumped in
      ground (
        arith,
        same_buf,
        same_freed,
        same_state,
        small,
        copy_chain-take len chain,
        length-take len (bytes_of_chain chain),
      )
