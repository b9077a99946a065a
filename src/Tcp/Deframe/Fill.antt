-- ===== src/Tcp/Deframe/Fill.antt =====
-- The inner loop of `ConsumePayload` with a channel whose allocations succeed: the bytes land in the
-- train in order, and the flags and links of the train stay those of an open message.
use mathlib.Core.List.{append-nil, append_assoc}
use machnet.Base.{
  ℕ, zero, suc, ◌+◌, ◌-◌, ◌*◌, ◌<◌, ◌≤◌, min, ◌≡◌, refl, sym, ap, ◌∙◌, Bool, true, false, some,
  List, [], ◌∷◌, ◌++◌, arith, length, take, drop, ◌==◌, if◌then◌else◌, take-append-drop,
  length-take, length-drop, length-append,
}
use native.Mathlib.Decide.{dec_lt}
use machnet.Tcp.Deframe.{
  RxBuf, Channel, Reassembly, next, fresh_buf, mark_sg, append_cur, ensure_cur, copy_chunk, fill,
}
use machnet.Tcp.Deframe.Stream.{bytes_of}
use machnet.Tcp.Deframe.Train.{IsSealed, IsFirstOr, IsOpen, Fills, fresh_buf_lem}

abbrev is_full : ℕ → Bool → List RxBuf → ℕ
is_full room true (b ∷ bs) = if length b.bytes == room then 1 else 0
is_full room _ _ = 0

module _ (ch : Channel) (allocates : (k : ℕ) → ch.msgbuf_alloc k ≡ true)
    (holds_some : 0 < ch.usable_buf_size) where
  open ch use {usable_buf_size}

  open_measure : Bool → List RxBuf → List ℕ → ℕ
  open_measure c t todo = 2 * length todo + is_full usable_buf_size c t

  -- One round: some of the bytes go into the train, and the measure of what is left falls.
  record Advances (r : Reassembly) (todo : List ℕ) : Type 0 where
    current : Reassembly
    after : Reassembly
    done : List ℕ
    rest : List ℕ
    allocated : ensure_cur ch r ≡ some current
    copied : copy_chunk ch current todo ≡ (after, rest)
    split : done ++ rest ≡ todo
    fills : Fills usable_buf_size r done after
    falls : open_measure after.has_cur after.train rest < open_measure r.has_cur r.train todo

  advance_copy :
      (r : Reassembly) (x : RxBuf) (xs : List RxBuf) (b : ℕ) (bs : List ℕ)
      → r.has_cur ≡ true
      → r.train ≡ x ∷ xs
      → IsOpen usable_buf_size r.pending_msg_len true (x ∷ xs)
      → length x.bytes < usable_buf_size
      → Advances r (b ∷ bs)
  unfolding ensure_cur copy_chunk open_measure
  advance_copy r x xs b bs hc ht o room =
      let todo : List ℕ = b ∷ bs in
      let k = min (length todo) (usable_buf_size - length x.bytes) in
      record {
        current = r;
        after = record r { train = append_cur r.train (take k todo) };
        done = take k todo;
        rest = drop k todo;
        allocated = ground arith;
        copied = ground arith;
        split = take-append-drop k todo;
        fills = record {
          added = rw ht (sym (append_assoc (bytes_of xs) x.bytes (take k todo)));
          is_open = ground (arith, length-append x.bytes (take k todo), length-take k todo);
          same_prefix = refl;
          same_offset = refl;
          same_pending = refl;
          same_enqueues = refl;
          same_delivered = refl;
          same_freed = refl;
        };
        falls = ground (arith, length-drop k todo);
      }

  advance_full :
      (r : Reassembly) (x : RxBuf) (xs : List RxBuf) (b : ℕ) (bs : List ℕ)
      → r.has_cur ≡ true
      → r.train ≡ x ∷ xs
      → IsOpen usable_buf_size r.pending_msg_len true (x ∷ xs)
      → length x.bytes ≡ usable_buf_size
      → Advances r (b ∷ bs)
  unfolding ensure_cur copy_chunk open_measure
  advance_full r x xs b bs hc ht o full = record {
    current = r;
    after = record r { train = mark_sg r.train; has_cur = false };
    done = [];
    rest = b ∷ bs;
    allocated = ground arith;
    copied = ground arith;
    split = refl;
    fills = record {
      added = rw (ht, append-nil) refl;
      is_open = ground arith;
      same_prefix = refl;
      same_offset = refl;
      same_pending = refl;
      same_enqueues = refl;
      same_delivered = refl;
      same_freed = refl;
    };
    falls = ground arith;
  }

  advance_alloc :
      (r : Reassembly) (b : ℕ) (bs : List ℕ)
      → r.has_cur ≡ false
      → IsSealed usable_buf_size r.pending_msg_len r.train
      → Advances r (b ∷ bs)
  unfolding ensure_cur copy_chunk open_measure
  advance_alloc r b bs hc o = record {
    current = current;
    after = a.after;
    done = a.done;
    rest = a.rest;
    allocated = ground (arith, allocates r.allocs);
    copied = ground (arith, a.allocated, a.copied);
    split = a.split;
    fills = record {
      added =
          a.fills.added ∙ ap (λ t. t ++ a.done) (rw fresh_facts.0 (append-nil (bytes_of r.train)));
      is_open = a.fills.is_open;
      same_prefix = a.fills.same_prefix;
      same_offset = a.fills.same_offset;
      same_pending = a.fills.same_pending;
      same_enqueues = a.fills.same_enqueues;
      same_delivered = a.fills.same_delivered;
      same_freed = a.fills.same_freed;
    };
    falls = ground (arith, a.falls, fresh_facts);
  }
    where
      fresh : RxBuf
      fresh = fresh_buf r.pending_msg_len r.train

      fresh_facts :
          (fresh.bytes ≡ []) × (fresh.fin ≡ false) × IsFirstOr r.pending_msg_len fresh r.train
      fresh_facts = fresh_buf_lem r.pending_msg_len r.train

      current : Reassembly
      current = record r { allocs = r.allocs + 1; has_cur = true; train = fresh ∷ r.train }

      a : Advances current (b ∷ bs)
      a =
          advance_copy current fresh r.train b bs refl refl (ground (arith, fresh_facts, o))
            (ground (arith, fresh_facts))

  advance :
      (c : Bool) (t : List RxBuf) (r : Reassembly) (b : ℕ) (bs : List ℕ)
      → r.has_cur ≡ c
      → r.train ≡ t
      → IsOpen usable_buf_size r.pending_msg_len c t
      → Advances r (b ∷ bs)
  advance false t r b bs hc ht o = advance_alloc r b bs hc (rw ht o)
  advance true [] r b bs hc ht o = absurd o
  advance true (x ∷ xs) r b bs hc ht o = elim (dec_lt (length x.bytes) usable_buf_size) [
    | yes p ↦ advance_copy r x xs b bs hc ht o p
    | no p ↦ advance_full r x xs b bs hc ht o (omega (arith, o.1))
  ]

  Fills-trans :
      {r r' r'' : Reassembly} (xs ys : List ℕ)
      → Fills usable_buf_size r xs r'
      → Fills usable_buf_size r' ys r''
      → Fills usable_buf_size r (xs ++ ys) r''
  Fills-trans {r} xs ys f g = record {
    added = g.added ∙ ap (λ t. t ++ ys) f.added ∙ append_assoc (bytes_of r.train) xs ys;
    is_open = rw (sym f.same_pending) g.is_open;
    same_prefix = g.same_prefix ∙ f.same_prefix;
    same_offset = g.same_offset ∙ f.same_offset;
    same_pending = g.same_pending ∙ f.same_pending;
    same_enqueues = g.same_enqueues ∙ f.same_enqueues;
    same_delivered = g.same_delivered ∙ f.same_delivered;
    same_freed = g.same_freed ∙ f.same_freed;
  }

  Fills-refl :
      (r : Reassembly)
      → IsOpen usable_buf_size r.pending_msg_len r.has_cur r.train
      → Fills usable_buf_size r [] r
  Fills-refl r o = record {
    added = sym (append-nil (bytes_of r.train));
    is_open = o;
    same_prefix = refl;
    same_offset = refl;
    same_pending = refl;
    same_enqueues = refl;
    same_delivered = refl;
    same_freed = refl;
  }

  fill_measured :
      (fuel : ℕ) (r : Reassembly) (todo : List ℕ)
      → IsOpen usable_buf_size r.pending_msg_len r.has_cur r.train
      → open_measure r.has_cur r.train todo ≤ fuel
      → (r' : Reassembly) × (fill ch fuel r todo ≡ next r' []) × Fills usable_buf_size r todo r'
  unfolding fill open_measure
  fill_measured zero r [] o m = (r, refl, Fills-refl r o)
  fill_measured zero r (b ∷ bs) o m = absurd (omega arith)
  fill_measured (suc fuel) r [] o m = (r, refl, Fills-refl r o)
  fill_measured (suc fuel) r (b ∷ bs) o m =
      let a = advance r.has_cur r.train r b bs refl refl o in
      let falls : open_measure a.after.has_cur a.after.train a.rest ≤ fuel =
        omega (arith, a.falls) in
      let is_open : IsOpen usable_buf_size a.after.pending_msg_len a.after.has_cur a.after.train =
        rw a.fills.same_pending a.fills.is_open in
      let (r', e, f) = fill_measured fuel a.after a.rest is_open falls in
      (
        r',
        rw (a.allocated, fill) (rw (a.copied, fill) e),
        rw (sym a.split) (Fills-trans a.done a.rest a.fills f),
      )

  is_full-le : (c : Bool) (t : List RxBuf) → is_full usable_buf_size c t ≤ 1
  is_full-le true (b ∷ bs) = ground arith
  is_full-le true [] = omega arith
  is_full-le false t = omega arith

  -- With fuel for two rounds a byte and one more, `fill` takes all the bytes.
  pub fill-Fills :
      (fuel : ℕ) (r : Reassembly) (todo : List ℕ)
      → IsOpen usable_buf_size r.pending_msg_len r.has_cur r.train
      → 2 * length todo + 1 ≤ fuel
      → (r' : Reassembly) × (fill ch fuel r todo ≡ next r' []) × Fills usable_buf_size r todo r'
  unfolding open_measure
  fill-Fills fuel r todo o m =
      fill_measured fuel r todo o (omega (arith, is_full-le r.has_cur r.train))
