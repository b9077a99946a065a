-- ===== src/Shm/Bulk.antt =====
-- src/ext/machnet.c: no buffer is lost or doubled in an allocation in bulk and in a refill of the cache.
use machnet.Base.{
  ℕ, ◌+◌, ◌≡◌, ◌≤◌, refl, ap, ◌∙◌, Bool, true, false, Bool-cases, inl, inr, List, [], ◌++◌, length,
  take, drop, min, leb, ◌==◌, ==_iff, if◌then◌else◌, arith, length-append, length-take, length-drop,
}
use machnet.Ring.{fixed, granted, jring_dequeue_bulk}
use machnet.Ring.Fifo.{granted-le}
use machnet.Ring.Dequeue.{dequeue-Dequeued}
use machnet.Shm.{ChannelCtx, buf_alloc_bulk}
use machnet.Shm.Cache.{reversed, refill}
use machnet.Shm.Accounts.{
  occurrences, occurrences-append, occurrences-reversed, occurrences-split, length-reversed,
  occurrences_nil, occurrences-empty, Accounts,
}

taken_counts :
    (i m : ℕ) (pool got out : List ℕ) (c n : ℕ)
    → out ≡ take m pool
    → occurrences i pool + c + occurrences i got ≡ n
    → occurrences i (drop m pool) + c + occurrences i (out ++ got) ≡ n
taken_counts i m pool got out c n e h =
    omega (arith, ap (occurrences i) e, occurrences-split i m pool, occurrences-append i out got)

taken_whole :
    (m : ℕ) (pool got out : List ℕ) (c n : ℕ)
    → m ≤ length pool
    → out ≡ take m pool
    → length pool + c + length got ≡ n
    → length (drop m pool) + c + length (out ++ got) ≡ n
taken_whole m pool got out c n le e h =
    omega (arith, ap length e, length-take m pool, length-drop m pool, length-append out got)

taken_number :
    (n : ℕ) (pool out : List ℕ)
    → out ≡ take (granted fixed n (length pool)) pool
    → length out ≡ (if leb n (length pool) then n else 0)
taken_number n pool out e =
    let m = granted fixed n (length pool) in
    let count : length out ≡ min m (length pool) = ap length e ∙ length-take m pool in
    count ∙ least n (length pool)
  where
    least : (n x : ℕ) → min (granted fixed n x) x ≡ (if leb n x then n else 0)
    least n x = ground arith

few_lem : (n p k : ℕ) → k ≡ (if leb n p then n else 0) → k ≤ n
few_lem n p k e = ground arith

module _ (all : ℕ → ℕ) (total : ℕ) where
  -- A bulk allocation takes all n buffers where the pool has them, and none otherwise.
  pub record Allocated (ctx : ChannelCtx) (got : List ℕ) (n pooled : ℕ) (out : List ℕ × ChannelCtx)
      : Type 0 where
    pub accounts : Accounts all total (out.1) (out.0 ++ got)
    pub number : length (out.0) ≡ (if leb n pooled then n else 0)
    pub cache : out.1.app_buffer_cache ≡ ctx.app_buffer_cache

  pub alloc-Allocated :
      (ctx : ChannelCtx) (got : List ℕ) (n : ℕ) (a : Accounts all total ctx got)
      → Allocated ctx got n (length a.pool) (buf_alloc_bulk ctx n)
  unfolding buf_alloc_bulk jring_dequeue_bulk
  alloc-Allocated ctx got n a =
      let m = granted fixed n (length a.pool) in
      let le : m ≤ length a.pool = granted-le fixed n (length a.pool) in
      let d = dequeue-Dequeued ctx.buf_ring a.pool n fixed a.fifo in
      record {
        accounts = record {
          pool = drop m a.pool;
          fifo = d.fifo;
          small = a.small;
          counts = λ i. taken_counts i m a.pool got _ _ (all i) d.objects (a.counts i);
          whole = taken_whole m a.pool got _ _ total le d.objects a.whole;
          room = omega (arith, a.room, d.capacity);
          runs = a.runs;
        };
        number = taken_number n a.pool _ d.objects;
        cache = refl;
      }

  Accounts-if :
      (b : Bool) (x y : ChannelCtx) (got : List ℕ)
      → (b ≡ true → Accounts all total x got)
      → (b ≡ false → Accounts all total y got)
      → Accounts all total (if b then x else y) got
  Accounts-if true x y got f g = f refl
  Accounts-if false x y got f g = g refl

  -- Buffers that a bulk allocation has taken go to an empty cache.
  cached :
      (ctx : ChannelCtx) (got : List ℕ) (n pooled : ℕ) (out : List ℕ × ChannelCtx)
      → n ≤ 64
      → Allocated ctx got n pooled out
      → length ctx.app_buffer_cache ≡ 0
      → Accounts all total (record out.1 { app_buffer_cache = reversed (out.0) [] }) got
  cached ctx got n pooled out le s empty =
      let a = s.accounts in
      let none_left : length (out.1.app_buffer_cache) ≡ 0 = ap length s.cache ∙ empty in
      let moved = length-reversed (out.0) [] in
      let few : length (out.0) ≤ n = few_lem n pooled (length (out.0)) s.number in
      record {
        pool = a.pool;
        fifo = a.fifo;
        small = omega (arith, moved, few);
        counts = λ i. omega (
          arith,
          a.counts i,
          occurrences-empty i (out.1.app_buffer_cache) none_left,
          occurrences-reversed i (out.0) [],
          occurrences-append i (out.0) got,
          occurrences_nil i,
        );
        whole = omega (arith, a.whole, none_left, moved, length-append (out.0) got);
        room = a.room;
        runs = a.runs;
      }

  pub refill-Accounts :
      (ctx : ChannelCtx) (got : List ℕ)
      → Accounts all total ctx got
      → Accounts all total (refill ctx) got
  unfolding refill
  refill-Accounts ctx got a =
      let s = alloc-Allocated ctx got 64 a in
      Accounts-if (length ctx.app_buffer_cache == 0) _ ctx got
        (λ empty.
          cached ctx got 64 (length a.pool) (buf_alloc_bulk ctx 64) (omega arith) s
            ((==_iff (length ctx.app_buffer_cache) 0).0 empty))
        (λ some_left. a)

  pub length-refill :
      (ctx : ChannelCtx) (got : List ℕ) (c p : ℕ) (a : Accounts all total ctx got)
      → length ctx.app_buffer_cache ≡ c
      → p + c + length got ≡ total
      → length (refill ctx).app_buffer_cache ≡ (if c == 0 then (if leb 64 p then 64 else 0) else c)
  length-refill ctx got c p a hc hp = elim (Bool-cases (length ctx.app_buffer_cache == 0)) [
    | inl empty ↦
        let s = alloc-Allocated ctx got 64 a in
        let none_left : length ctx.app_buffer_cache ≡ 0 =
          (==_iff (length ctx.app_buffer_cache) 0).0 empty in
        let pooled : length a.pool ≡ p = omega (arith, a.whole) in
        let (indices, _) = buf_alloc_bulk ctx 64 in
        let moved : length (reversed indices []) ≡ length indices =
          omega (arith, length-reversed indices []) in
        unfold refill in
        rw empty (moved ∙ s.number ∙ when_empty c p (length a.pool) (omega arith) pooled)
    | inr left ↦ unfold refill in rw left (hc ∙ when_left c p (rw hc at left))
  ]
    where
      when_empty :
          (c p pooled : ℕ)
          → c ≡ 0
          → pooled ≡ p
          → (if leb 64 pooled then 64 else 0) ≡ (if c == 0 then (if leb 64 p then 64 else 0) else c)
      when_empty c p pooled e e' = ground arith

      when_left :
          (c p : ℕ) → (c == 0) ≡ false → c ≡ (if c == 0 then (if leb 64 p then 64 else 0) else c)
      when_left c p e = ground arith
