-- ===== src/Shm/Send/Turns.antt =====
-- src/ext/machnet.c: how a turn of the gathering loop of machnet_sendmsg ends.
use mathlib.Core.Path.{subst}
use mathlib.Core.List.{append-nil, append_assoc}
use machnet.Base.{
  ℕ, suc, ◌+◌, ◌-◌, ◌^◌, ◌≡◌, ◌≢◌, ◌≤◌, ◌<◌, refl, sym, ap, ◌∙◌, min, Bool, true, false, Option,
  some, List, [], ◌∷◌, ◌++◌, length, take, drop, get_elem?, ◌==◌, if◌then◌else◌, arith,
  length-append, length-take, length-drop, take-append-drop, sub32,
}
use machnet.Shm.{MachnetMsgBuf, buf_tailroom}
use machnet.Shm.Accounts.{occurrences}
use machnet.Shm.Send.{Gather, set_buf, is_nil, link_next}
use machnet.Shm.Send.Linked.{
  set_buf_same, Linked-set, Linked-append, Headers-set, not_before, Filled, Gathered,
}

not_true : false ≢ true
not_true = cc

-- A turn copies no byte only to a buffer that is full.
abbrev pub weight : Gather → ℕ
weight g = if g.new_buffer then 0 else 1

pub record Turn (mss : ℕ) (table seg : List ℕ) (g : Gather) (done : List ℕ)
    (out : Option (List ℕ × Gather)) : Type 0 where
  pub rest : List ℕ
  pub taken : List ℕ
  pub after : Gather
  pub result : out ≡ some (rest, after)
  pub split : seg ≡ taken ++ rest
  pub gathered : Gathered mss table after (done ++ taken)
  pub progress : 0 < length rest → length rest + weight after < length seg + weight g

pub tailroom_lem :
    (mss : ℕ) (xs : List ℕ) (b : MachnetMsgBuf)
    → mss < 2 ^ 31
    → length xs ≤ mss
    → Filled mss xs b
    → buf_tailroom b ≡ mss - length xs
tailroom_lem mss xs b lt le f =
    let n : length b.payload ≡ length xs = ap length f.payload in
    unfold buf_tailroom sub32 in rw (f.size, f.ofs, n) (omega arith)

get_elem?-middle :
    (xs : List ℕ) (i j : ℕ) (ys : List ℕ)
    → get_elem? (xs ++ (i ∷ j ∷ ys)) (suc (length xs)) ≡ some j
get_elem?-middle [] i j ys = refl
get_elem?-middle (x ∷ xs) i j ys = get_elem?-middle xs i j ys

pub get_elem?-here :
    (xs : List ℕ) (i : ℕ) (ys : List ℕ) → get_elem? (xs ++ (i ∷ ys)) (length xs) ≡ some i
get_elem?-here [] i ys = refl
get_elem?-here (x ∷ xs) i ys = get_elem?-here xs i ys

pub is_nil_iff : (xs : List ℕ) → is_nil xs ≡ (length xs == 0)
is_nil_iff [] = refl
is_nil_iff (x ∷ xs) = ground arith

less :
    (k len n m h : ℕ) (b : Bool)
    → (b ≡ true → h ≡ 0)
    → k ≡ len - n
    → 0 < k
    → n ≡ m - h
    → 0 < m
    → k + 0 < len + (if b then 0 else 1)
less k len n m h true f e some_left full pos = omega (arith, f refl)
less k len n m h false f e some_left full pos = omega arith

module _ (mss : ℕ) (table : List ℕ) (lt : mss < 2 ^ 31) (pos : 0 < mss)
    (once : (i : ℕ) → occurrences i table ≤ 1) where
  -- The current buffer after the copy, where the turn stays with it.
  pub stay_Turn :
      (seg : List ℕ) (g : Gather) (done : List ℕ) (b : MachnetMsgBuf) (n : ℕ)
      (a : Gathered mss table g done)
      → Filled mss (a.here ++ take n seg) b
      → b.sg ≡ true
      → n ≡ min (length seg) (mss - length a.here)
      → (0 < length (drop n seg) → n < mss - length a.here)
      → Turn mss table seg g done (
          some (
            drop n seg,
            record {
              bufs = set_buf g.bufs a.i b;
              buffer_cur_index = g.buffer_cur_index;
              new_buffer = false;
              total_bytes_copied = g.total_bytes_copied + n;
            },
          ))
  stay_Turn seg g done b n a f sg least not_full =
      let count : length (take n seg) ≡ n = omega (arith, length-take n seg, least) in
      record {
        rest = drop n seg;
        taken = take n seg;
        after = _;
        result = refl;
        split = sym (take-append-drop n seg);
        gathered = record {
          before = a.before;
          i = a.i;
          after = a.after;
          full = a.full;
          here = a.here ++ take n seg;
          shape = a.shape;
          cur = a.cur;
          linked =
              Linked-set g.bufs mss a.before a.i a.full a.i b
                (not_before table once a.before a.i a.after a.shape) a.linked;
          bytes = ap (λ x. x ++ take n seg) a.bytes ∙ append_assoc a.full a.here (take n seg);
          small = omega (arith, length-append a.here (take n seg), count, least, a.small);
          copied = omega (arith, a.copied, length-append done (take n seg), count);
          headers = Headers-set mss g.bufs a.i b a.headers f.magic f.size;
          fresh = λ e. absurd (not_true e);
          filled = λ e. (
            subst (Filled mss (a.here ++ take n seg)) (sym (set_buf_same g.bufs a.i b)) f,
            ap (λ x. x.sg) (set_buf_same g.bufs a.i b) ∙ sg,
          );
        };
        progress =
            λ some_left. absurd (omega (arith, not_full some_left, length-drop n seg, least));
      }

  -- The turn goes on to the next buffer of the table.
  pub advance_Turn :
      (seg : List ℕ) (g : Gather) (done : List ℕ) (b : MachnetMsgBuf) (n j : ℕ) (later : List ℕ)
      (a : Gathered mss table g done)
      → Filled mss (a.here ++ take n seg) b
      → b.sg ≡ true
      → n ≡ min (length seg) (mss - length a.here)
      → n ≡ mss - length a.here
      → a.after ≡ j ∷ later
      → Turn mss table seg g done
          (link_next (get_elem? table (suc g.buffer_cur_index)) (drop n seg) a.i b n g)
  unfolding link_next
  advance_Turn seg g done b n j later a f sg least full e =
      let count : length (take n seg) ≡ n = omega (arith, length-take n seg, least) in
      let here' = a.here ++ take n seg in
      let long : length here' ≡ mss =
        omega (arith, length-append a.here (take n seg), count, full, a.small) in
      let shape : table ≡ a.before ++ (a.i ∷ j ∷ later) =
        a.shape ∙ ap (λ x. a.before ++ (a.i ∷ x)) e in
      let found : get_elem? table (suc g.buffer_cur_index) ≡ some j =
        ap (λ k. get_elem? table (suc k)) a.cur
        ∙ ap (λ t. get_elem? t (suc (length a.before))) shape
        ∙ get_elem?-middle a.before a.i j later in
      let written = record b { next = j } in
      let here_now = set_buf_same g.bufs a.i written in
      let kept =
        Linked-set g.bufs mss a.before a.i a.full a.i written
          (not_before table once a.before a.i a.after a.shape) a.linked in
      record {
        rest = drop n seg;
        taken = take n seg;
        after = record {
          bufs = set_buf g.bufs a.i written;
          buffer_cur_index = suc g.buffer_cur_index;
          new_buffer = true;
          total_bytes_copied = g.total_bytes_copied + n;
        };
        result = ap (λ o. link_next o (drop n seg) a.i b n g) found;
        split = sym (take-append-drop n seg);
        gathered = record {
          before = a.before ++ (a.i ∷ []);
          i = j;
          after = later;
          full = a.full ++ here';
          here = [];
          shape = shape ∙ sym (append_assoc a.before (a.i ∷ []) (j ∷ later));
          cur = omega (arith, a.cur, length-append a.before (a.i ∷ []));
          linked =
              Linked-append (set_buf g.bufs a.i written) mss a.before a.i j a.full here' kept
                (ap (λ x. x.sg) here_now ∙ sg) (ap (λ x. x.next) here_now)
                (ap (λ x. x.payload) here_now ∙ f.payload) long;
          bytes =
              ap (λ x. x ++ take n seg) a.bytes
              ∙ append_assoc a.full a.here (take n seg)
              ∙ sym (append-nil (a.full ++ here'));
          small = omega arith;
          copied = omega (arith, a.copied, length-append done (take n seg), count);
          headers = Headers-set mss g.bufs a.i written a.headers f.magic f.size;
          fresh = λ e. refl;
          filled = λ e. absurd (not_true (sym e));
        };
        progress = λ some_left.
            less (length (drop n seg)) (length seg) n mss (length a.here) g.new_buffer
              (λ new. ap length (a.fresh new)) (length-drop n seg) some_left full pos;
      }
