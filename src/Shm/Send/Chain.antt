-- ===== src/Shm/Send/Chain.antt =====
-- src/ext/machnet.c: what the receiver of a message finds in its chain of buffers.
use mathlib.Core.Path.{subst}
use mathlib.Core.List.{append-nil, append_assoc}
use machnet.Base.{
  ℕ, ◌-◌, ◌≡◌, ◌≤◌, ◌<◌, refl, sym, ap, ◌∙◌, Bool, true, false, List, [], ◌∷◌, ◌++◌, length, get_or,
  ◌==◌, ==_iff, if◌then◌else◌, arith, length-append,
}
use machnet.Shm.{MachnetMsgBuf}
use machnet.Shm.Accounts.{occurrences}
use machnet.Shm.Send.{MachnetMsgHdr, Gather, set_buf, mark_last, mark_first}
use machnet.Shm.Send.Linked.{Linked, set_buf_same, Linked-set, Gathered, not_before}

-- The buffer i and those behind it, which are ks, hold the bytes; every buffer but the last says that
-- there is another, and none is empty.
unfoldable pub Message : (ℕ → MachnetMsgBuf) → ℕ → List ℕ → List ℕ → Type 0
Message bufs i [] bytes =
    ((bufs i).sg ≡ false) × ((bufs i).payload ≡ bytes) × (0 < length (bufs i).payload)
Message bufs i (k ∷ ks) bytes =
    (rest : List ℕ) × ((bufs i).sg ≡ true)
    × ((bufs i).next ≡ k)
    × (bytes ≡ (bufs i).payload ++ rest)
    × (0 < length (bufs i).payload)
    × Message bufs k ks rest

pub Message-nonempty :
    (bufs : ℕ → MachnetMsgBuf) (i : ℕ) (ks bytes : List ℕ)
    → Message bufs i ks bytes
    → 0 < length (bufs i).payload
unfolding Message
Message-nonempty bufs i [] bytes m = m.2
Message-nonempty bufs i (k ∷ ks) bytes m = m.4

-- Full buffers and a last one are a message.
Linked-Message :
    (bufs : ℕ → MachnetMsgBuf) (mss k : ℕ) (ks : List ℕ) (l : ℕ) (full here : List ℕ)
    → 0 < mss
    → Linked bufs mss (k ∷ ks) l full
    → Message bufs l [] here
    → Message bufs k (ks ++ (l ∷ [])) (full ++ here)
unfolding Linked Message
Linked-Message bufs mss k [] l full here pos w m = (
  here,
  w.1,
  w.2,
  ap (λ x. x ++ here) (w.4 ∙ ap (λ x. (bufs k).payload ++ x) w.5 ∙ append-nil (bufs k).payload),
  omega (arith, w.3),
  m,
)
Linked-Message bufs mss k (k' ∷ ks) l full here pos w m = (
  w.0 ++ here,
  w.1,
  w.2,
  ap (λ x. x ++ here) w.4 ∙ append_assoc (bufs k).payload (w.0) here,
  omega (arith, w.3),
  Linked-Message bufs mss k' ks l (w.0) here pos w.5 m,
)

-- Marks of the first buffer change nothing that the chain is read by.
record Same (x y : MachnetMsgBuf) : Type 0 where
  sg : y.sg ≡ x.sg
  next : y.next ≡ x.next
  payload : y.payload ≡ x.payload

Message-Same :
    (bufs bufs' : ℕ → MachnetMsgBuf) (i : ℕ) (ks bytes : List ℕ)
    → ((j : ℕ) → Same (bufs j) (bufs' j))
    → Message bufs i ks bytes
    → Message bufs' i ks bytes
unfolding Message
Message-Same bufs bufs' i [] bytes same m =
    let s = same i in (s.sg ∙ m.0, s.payload ∙ m.1, subst (λ x. 0 < length x) (sym s.payload) m.2)
Message-Same bufs bufs' i (k ∷ ks) bytes same m =
    let s = same i in
    (
      m.0,
      s.sg ∙ m.1,
      s.next ∙ m.2,
      m.3 ∙ ap (λ x. x ++ m.0) (sym s.payload),
      subst (λ x. 0 < length x) (sym s.payload) m.4,
      Message-Same bufs bufs' k ks (m.0) same m.5,
    )

marked_Same :
    (bufs : ℕ → MachnetMsgBuf) (i j : ℕ) (b : MachnetMsgBuf)
    → Same (bufs i) b
    → Same (bufs j) (set_buf bufs i b j)
marked_Same bufs i j b s = unfold set_buf in choose (j == i) refl
  where
    choose : (t : Bool) → (j == i) ≡ t → Same (bufs j) (if t then b else bufs j)
    choose true e = subst (λ k. Same (bufs k) b) (sym ((==_iff j i).0 e)) s
    choose false e = record { sg = refl; next = refl; payload = refl }

pub mark_first-Message :
    (bufs : ℕ → MachnetMsgBuf) (i l : ℕ) (h : MachnetMsgHdr) (f : ℕ) (ks bytes : List ℕ)
    → Message bufs f ks bytes
    → Message (mark_first i l h bufs) f ks bytes
unfolding mark_first
mark_first-Message bufs i l h f ks bytes m =
    Message-Same bufs _ f ks bytes
      (λ j. marked_Same bufs i j _ (record { sg = refl; next = refl; payload = refl })) m

get_or-end : (xs : List ℕ) (i : ℕ) → get_or (xs ++ (i ∷ [])) (length xs) 0 ≡ i
get_or-end [] i = refl
get_or-end (x ∷ xs) i = get_or-end xs i

get_or-last : (xs : List ℕ) (i : ℕ) → get_or (xs ++ (i ∷ [])) (length (xs ++ (i ∷ [])) - 1) 0 ≡ i
get_or-last xs i =
    let at : length (xs ++ (i ∷ [])) - 1 ≡ length xs = omega (arith, length-append xs (i ∷ [])) in
    ap (λ k. get_or (xs ++ (i ∷ [])) k 0) at ∙ get_or-end xs i

from_first :
    (mss : ℕ) (before : List ℕ) (i : ℕ) (full here : List ℕ) (bufs : ℕ → MachnetMsgBuf)
    → 0 < mss
    → Linked bufs mss before i full
    → Message bufs i [] here
    → (k : ℕ) × (ks : List ℕ) × (before ++ (i ∷ []) ≡ k ∷ ks) × Message bufs k ks (full ++ here)
unfolding Linked
from_first mss [] i full here bufs pos l m =
    (i, [], refl, subst (λ x. Message bufs i [] (x ++ here)) (sym l) m)
from_first mss (k ∷ before) i full here bufs pos l m =
    (k, before ++ (i ∷ []), refl, Linked-Message bufs mss k before i full here pos l m)

-- The chain as the marks leave it, where the last bytes went to the last buffer of the table.
pub gathered-Message :
    (mss : ℕ) (table : List ℕ) (g : Gather) (done : List ℕ) (h : MachnetMsgHdr)
    → 0 < mss
    → ((i : ℕ) → occurrences i table ≤ 1)
    → (a : Gathered mss table g done) → a.after ≡ []
    → 0 < length a.here
    → (i : ℕ) × (ks : List ℕ) × (table ≡ i ∷ ks)
      × Message
          (mark_first
            (get_or table 0 0)
            (get_or table (length table - 1) 0)
            h
            (mark_last (get_or table (length table - 1) 0) g.bufs))
          i
          ks
          done
gathered-Message mss table g done h pos once a no_more some_bytes =
    let shape = a.shape ∙ ap (λ x. a.before ++ (a.i ∷ x)) no_more in
    let i = a.i in
    let last : get_or table (length table - 1) 0 ≡ i =
      ap (λ t. get_or t (length t - 1) 0) shape ∙ get_or-last a.before i in
    let old = old_buffer g.new_buffer refl in
    let (f, sg) = a.filled old in
    let marked = record (g.bufs i) { fin = true; sg = false } in
    let bufs = set_buf g.bufs i marked in
    let here_now = set_buf_same g.bufs i marked in
    let kept =
      Linked-set g.bufs mss a.before i a.full i marked
        (not_before table once a.before i a.after a.shape) a.linked in
    let end : Message bufs i [] a.here =
      unfold Message in
      (
        ap (λ x. x.sg) here_now,
        ap (λ x. x.payload) here_now ∙ f.payload,
        subst (λ x. 0 < length x) (sym (ap (λ x. x.payload) here_now ∙ f.payload)) some_bytes,
      ) in
    let (k, ks, e, m) = from_first mss a.before i a.full a.here bufs pos kept end in
    (
      k,
      ks,
      shape ∙ e,
      mark_first-Message _ (get_or table 0 0) (get_or table (length table - 1) 0) h k ks done (
          subst (λ l. Message (mark_last l g.bufs) k ks done) (sym last)
            (unfold mark_last in (subst (Message bufs k ks) (sym a.bytes) m))),
    )
  where
    old_buffer : (b : Bool) → g.new_buffer ≡ b → g.new_buffer ≡ false
    old_buffer true e = absurd (omega (arith, ap length (a.fresh e)))
    old_buffer false e = e
