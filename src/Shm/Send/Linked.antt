-- ===== src/Shm/Send/Linked.antt =====
-- src/ext/machnet.c: the chain of buffers that machnet_sendmsg builds.
use mathlib.Core.List.{append-nil, append_assoc}
use machnet.Base.{
  ℕ, ◌+◌, ◌*◌, ◌≡◌, ◌≢◌, ◌≤◌, refl, sym, ap, ◌∙◌, Bool, true, false, List, [], ◌∷◌, ◌++◌, length,
  ◌==◌, if◌then◌else◌, arith, length-append,
}
use machnet.Shm.{MachnetMsgBuf, msgbuf_magic}
use machnet.Shm.Accounts.{occurrences, occurrences-append, occurrences_cons}
use machnet.Shm.Send.{Gather, set_buf}

-- The bytes of all segments.
abbrev pub joined : List (List ℕ) → List ℕ
joined [] = []
joined (seg ∷ iov) = seg ++ joined iov

abbrev pub head_or : List ℕ → ℕ → ℕ
head_or [] d = d
head_or (x ∷ xs) d = x

-- The buffers ks are full, each points to the one behind it and the last of them to nxt, and they hold
-- the bytes in this order.
unfoldable pub Linked : (ℕ → MachnetMsgBuf) → ℕ → List ℕ → ℕ → List ℕ → Type 0
Linked bufs mss [] nxt bytes = bytes ≡ []
Linked bufs mss (k ∷ ks) nxt bytes =
    (rest : List ℕ) × ((bufs k).sg ≡ true)
    × ((bufs k).next ≡ head_or ks nxt)
    × (length (bufs k).payload ≡ mss)
    × (bytes ≡ (bufs k).payload ++ rest)
    × Linked bufs mss ks nxt rest

pub set_buf_same : (bufs : ℕ → MachnetMsgBuf) (i : ℕ) (b : MachnetMsgBuf) → set_buf bufs i b i ≡ b
unfolding set_buf
set_buf_same bufs i b = rw (the_same i) refl
  where
    the_same : (i : ℕ) → (i == i) ≡ true
    the_same i = ground arith

pub set_buf_other :
    (bufs : ℕ → MachnetMsgBuf) (i j : ℕ) (b : MachnetMsgBuf) → j ≢ i → set_buf bufs i b j ≡ bufs j
unfolding set_buf
set_buf_other bufs i j b ne = rw (differ i j ne) refl
  where
    differ : (i j : ℕ) → j ≢ i → (j == i) ≡ false
    differ i j ne = ground arith

absent_head :
    (i k : ℕ) (ks : List ℕ) → occurrences i (k ∷ ks) ≡ 0 → (k ≢ i) × (occurrences i ks ≡ 0)
absent_head i k ks e = ground (arith, occurrences_cons i k ks)

pub Linked-set :
    (bufs : ℕ → MachnetMsgBuf) (mss : ℕ) (ks : List ℕ) (nxt : ℕ) (bytes : List ℕ) (i : ℕ)
    (b : MachnetMsgBuf)
    → occurrences i ks ≡ 0
    → Linked bufs mss ks nxt bytes
    → Linked (set_buf bufs i b) mss ks nxt bytes
unfolding Linked
Linked-set bufs mss [] nxt bytes i b e l = l
Linked-set bufs mss (k ∷ ks) nxt bytes i b e l =
    let (ne, e') = absent_head i k ks e in
    let same = set_buf_other bufs i k b ne in
    (
      l.0,
      ap (λ x. x.sg) same ∙ l.1,
      ap (λ x. x.next) same ∙ l.2,
      ap (λ x. length x.payload) same ∙ l.3,
      l.4 ∙ ap (λ x. x.payload ++ l.0) (sym same),
      Linked-set bufs mss ks nxt (l.0) i b e' l.5,
    )

head_or-append : (ks : List ℕ) (i d : ℕ) → head_or (ks ++ (i ∷ [])) d ≡ head_or ks i
head_or-append [] i d = refl
head_or-append (k ∷ ks) i d = refl

pub Linked-append :
    (bufs : ℕ → MachnetMsgBuf) (mss : ℕ) (ks : List ℕ) (i nxt : ℕ) (bytes here : List ℕ)
    → Linked bufs mss ks i bytes
    → (bufs i).sg ≡ true
    → (bufs i).next ≡ nxt
    → (bufs i).payload ≡ here
    → length here ≡ mss
    → Linked bufs mss (ks ++ (i ∷ [])) nxt (bytes ++ here)
unfolding Linked
Linked-append bufs mss [] i nxt bytes here l sg next holds full = (
  [],
  sg,
  next,
  ap length holds ∙ full,
  ap (λ x. x ++ here) l ∙ sym (append-nil here) ∙ ap (λ x. x ++ []) (sym holds),
  refl,
)
Linked-append bufs mss (k ∷ ks) i nxt bytes here l sg next holds full = (
  l.0 ++ here,
  l.1,
  l.2 ∙ sym (head_or-append ks i nxt),
  l.3,
  ap (λ x. x ++ here) l.4 ∙ append_assoc (bufs k).payload (l.0) here,
  Linked-append bufs mss ks i nxt (l.0) here l.5 sg next holds full,
)

pub length-Linked :
    (bufs : ℕ → MachnetMsgBuf) (mss : ℕ) (ks : List ℕ) (nxt : ℕ) (bytes : List ℕ)
    → Linked bufs mss ks nxt bytes
    → length bytes ≡ length ks * mss
unfolding Linked
length-Linked bufs mss [] nxt bytes l = omega (arith, ap length l)
length-Linked bufs mss (k ∷ ks) nxt bytes l = omega (
  arith,
  ap length l.4,
  length-append (bufs k).payload (l.0),
  l.3,
  length-Linked bufs mss ks nxt (l.0) l.5,
)

-- The headers of the buffers, which only the creation of the channel writes.
pub record Headers (mss : ℕ) (bufs : ℕ → MachnetMsgBuf) : Type 0 where
  pub magic : (j : ℕ) → (bufs j).magic ≡ msgbuf_magic
  pub size : (j : ℕ) → (bufs j).size ≡ mss + 128

set_buf_field :
    (f : MachnetMsgBuf → ℕ) (v : ℕ) (bufs : ℕ → MachnetMsgBuf) (i j : ℕ) (b : MachnetMsgBuf)
    → f b ≡ v
    → f (bufs j) ≡ v
    → f (set_buf bufs i b j) ≡ v
unfolding set_buf
set_buf_field f v bufs i j b new old = pick (j == i)
  where
    pick : (t : Bool) → f (if t then b else bufs j) ≡ v
    pick true = new
    pick false = old

pub Headers-set :
    (mss : ℕ) (bufs : ℕ → MachnetMsgBuf) (i : ℕ) (b : MachnetMsgBuf)
    → Headers mss bufs
    → b.magic ≡ msgbuf_magic
    → b.size ≡ mss + 128
    → Headers mss (set_buf bufs i b)
Headers-set mss bufs i b h m s = record {
  magic = λ j. set_buf_field (λ x. x.magic) msgbuf_magic bufs i j b m (h.magic j);
  size = λ j. set_buf_field (λ x. x.size) (mss + 128) bufs i j b s (h.size j);
}

-- A buffer that holds xs.
pub record Filled (mss : ℕ) (xs : List ℕ) (b : MachnetMsgBuf) : Type 0 where
  pub magic : b.magic ≡ msgbuf_magic
  pub size : b.size ≡ mss + 128
  pub ofs : b.data_ofs ≡ 128
  pub payload : b.payload ≡ xs

-- The bytes `done` stand in the buffers of the table up to the current one.
pub record Gathered (mss : ℕ) (table : List ℕ) (g : Gather) (done : List ℕ) : Type 0 where
  pub before : List ℕ
  pub i : ℕ
  pub after : List ℕ
  pub full : List ℕ
  pub here : List ℕ
  pub shape : table ≡ before ++ (i ∷ after)
  pub cur : g.buffer_cur_index ≡ length before
  pub linked : Linked g.bufs mss before i full
  pub bytes : done ≡ full ++ here
  pub small : length here ≤ mss
  pub copied : g.total_bytes_copied ≡ length done
  pub headers : Headers mss g.bufs
  pub fresh : g.new_buffer ≡ true → here ≡ []
  pub filled : g.new_buffer ≡ false → Filled mss here (g.bufs i) × ((g.bufs i).sg ≡ true)

pub not_before :
    (table : List ℕ)
    → ((i : ℕ) → occurrences i table ≤ 1)
    → (before : List ℕ) (i : ℕ) (after : List ℕ) → table ≡ before ++ (i ∷ after)
    → occurrences i before ≡ 0
not_before table once before i after shape =
    let e = ap (occurrences i) shape ∙ occurrences-append i before (i ∷ after) in
    ground (arith, once i, e, occurrences_cons i i after)
