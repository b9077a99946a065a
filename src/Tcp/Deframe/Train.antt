-- ===== src/Tcp/Deframe/Train.antt =====
-- The shape of a train of message buffers while a message is gathered in it.
use machnet.Base.{ℕ, ◌≤◌, ◌≡◌, refl, Bool, true, false, List, [], ◌∷◌, ◌++◌, length, if◌then◌else◌}
use machnet.Tcp.Deframe.{RxBuf, Reassembly, fresh_buf}
use machnet.Tcp.Deframe.Stream.{bytes_of}

abbrev pub is_nil {ℓ} : {A : Type ℓ} → List A → Bool
is_nil [] = true
is_nil (x ∷ xs) = false

-- A buffer before the newest: full, linked on by SG, and first exactly if nothing stands before it.
abbrev pub IsFirstOr : ℕ → RxBuf → List RxBuf → Type 0
IsFirstOr len b bs = (b.syn ≡ is_nil bs) × (b.msg_length ≡ (if is_nil bs then len else 0))

abbrev pub IsSealed : ℕ → ℕ → List RxBuf → Type 0
IsSealed room len [] = Unit {0}
IsSealed room len (b ∷ bs) =
    (b.sg ≡ true)
    × (b.fin ≡ false)
    × (length b.bytes ≡ room)
    × IsFirstOr len b bs
    × IsSealed room len bs

-- A train that is being filled, with or without a current buffer.
abbrev pub IsOpen : ℕ → ℕ → Bool → List RxBuf → Type 0
IsOpen room len false bs = IsSealed room len bs
IsOpen room len true [] = ⊥
IsOpen room len true (b ∷ bs) =
    (b.fin ≡ false) × (length b.bytes ≤ room) × IsFirstOr len b bs × IsSealed room len bs

-- `r` with the bytes `todo` added to its train, and no other change that the stream can see.
pub record Fills (room : ℕ) (r : Reassembly) (todo : List ℕ) (r' : Reassembly) : Type 0 where
  pub added : bytes_of r'.train ≡ bytes_of r.train ++ todo
  pub is_open : IsOpen room r.pending_msg_len r'.has_cur r'.train
  pub same_prefix : r'.len_buf ≡ r.len_buf
  pub same_offset : r'.buf_offset ≡ r.buf_offset
  pub same_pending : r'.pending_msg_len ≡ r.pending_msg_len
  pub same_enqueues : r'.enqueues ≡ r.enqueues
  pub same_delivered : r'.delivered ≡ r.delivered
  pub same_freed : r'.freed ≡ r.freed

pub fresh_buf_lem :
    (len : ℕ) (t : List RxBuf)
    → ((fresh_buf len t).bytes ≡ [])
      × ((fresh_buf len t).fin ≡ false)
      × IsFirstOr len (fresh_buf len t) t
fresh_buf_lem len [] = (refl, refl, (refl, refl))
fresh_buf_lem len (x ∷ xs) = (refl, refl, (refl, refl))
