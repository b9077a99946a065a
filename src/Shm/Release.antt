-- ===== src/Shm/Release.antt =====
-- src/ext/machnet.c: no buffer is lost or doubled on the way back to the application's cache and the
-- pool.
use mathlib.Core.Path.{subst}
use machnet.Base.{
  ℕ, zero, suc, ◌+◌, ◌-◌, ◌≡◌, ◌≢◌, not, ◌≤◌, ◌<◌, refl, sym, ap, ◌∙◌, Bool, true, false,
  Bool-cases, inl, inr, List, [], ◌∷◌, ◌++◌, length, take, drop, ◌==◌, ==_iff, if◌then◌else◌, arith,
  length-append, length-take, length-drop,
}
use machnet.Ring.{fixed, granted, jring_enqueue_bulk}
use machnet.Ring.Enqueue.{enqueue-Enqueued}
use machnet.Shm.{ChannelCtx, num_cached_bufs, buf_free_bulk}
use machnet.Shm.Cache.{reversed, free_half, make_room, machnet_buffers_release}
use machnet.Shm.Accounts.{
  occurrences, occurrences-append, occurrences-reversed, occurrences-split, length-reversed,
  occurrences_cons, occurrences_nil, occurrences-empty, Accounts,
}

not_equal : (n : ℕ) → n ≢ 64 → (n == 64) ≡ false
not_equal n ne = ground arith

module _ (all : ℕ → ℕ) (total : ℕ) where
  -- The ring of the pool has room for what the channel's buffers are fewer than.
  free-Accounts :
      (ctx : ChannelCtx) (got : List ℕ)
      → length ctx.app_buffer_cache ≡ 64
      → Accounts all total ctx got
      → Accounts all total (free_half ctx) got × (length (free_half ctx).app_buffer_cache ≡ 32)
  free-Accounts ctx got full a =
      let cache = ctx.app_buffer_cache in
      let freed = reversed (take 32 cache) [] in
      let number : length freed ≡ 32 =
        omega (arith, length-reversed (take 32 cache) [], length-take 32 cache) in
      let fits : length a.pool + 32 ≤ ctx.buf_ring.capacity = omega (arith, a.whole, a.room) in
      let m = granted fixed (length freed) (ctx.buf_ring.capacity - length a.pool) in
      let all_freed : m ≡ 32 = granted_all (length freed) _ number (omega arith) in
      let e = enqueue-Enqueued ctx.buf_ring a.pool freed fixed a.fifo in
      let dropped : (jring_enqueue_bulk ctx.buf_ring freed).0 ≡ 32 =
        unfold jring_enqueue_bulk in e.number ∙ all_freed in
      let old = drop (jring_enqueue_bulk ctx.buf_ring freed).0 cache in
      let shorter : old ≡ drop 32 cache = ap (λ n. drop n cache) dropped in
      let left : length old ≡ 32 = ap length shorter ∙ omega (arith, length-drop 32 cache) in
      let new = length-append a.pool (take m freed) in
      let rest : length (drop m freed) ≡ 0 = omega (arith, length-drop m freed) in
      subst (λ c. Accounts all total c got × (length c.app_buffer_cache ≡ 32))
        (sym (half_freed ctx full))
        (
          record {
            pool = a.pool ++ take m freed;
            fifo = unfold jring_enqueue_bulk in e.fifo;
            small = omega arith;
            counts = λ i. omega (
              arith,
              a.counts i,
              occurrences-append i a.pool (take m freed),
              occurrences-split i m freed,
              occurrences-empty i (drop m freed) rest,
              occurrences-reversed i (take 32 cache) [],
              occurrences_nil i,
              occurrences-split i 32 cache,
              ap (occurrences i) shorter,
            );
            whole = omega (arith, a.whole, new, length-take m freed);
            room = unfold jring_enqueue_bulk in omega (arith, a.room, e.capacity);
            runs = a.runs;
          },
          left,
        )
    where
      granted_all : (n x : ℕ) → n ≡ 32 → 32 ≤ x → granted fixed n x ≡ 32
      granted_all n x e le = ground arith

      half_freed :
          (ctx : ChannelCtx)
          → length ctx.app_buffer_cache ≡ 64
          → free_half ctx ≡ record ctx {
            buf_ring =
                (jring_enqueue_bulk ctx.buf_ring (reversed (take 32 ctx.app_buffer_cache) [])).2;
            app_buffer_cache =
                drop
                  (jring_enqueue_bulk ctx.buf_ring (reversed (take 32 ctx.app_buffer_cache) [])).0
                  ctx.app_buffer_cache;
          }
      half_freed ctx full = unfold free_half buf_free_bulk in rw full

  stays :
      (retries : ℕ) (ctx : ChannelCtx)
      → length ctx.app_buffer_cache ≢ 64
      → make_room retries ctx ≡ ctx
  stays zero ctx ne = unfold make_room in rw (not_equal (length ctx.app_buffer_cache) ne)
  stays (suc retries) ctx ne = unfold make_room in rw (not_equal (length ctx.app_buffer_cache) ne)

  make_room-Accounts :
      (ctx : ChannelCtx) (got : List ℕ)
      → Accounts all total ctx got
      → Accounts all total (make_room 5 ctx) got × (length (make_room 5 ctx).app_buffer_cache < 64)
  make_room-Accounts ctx got a = elim (Bool-cases (length ctx.app_buffer_cache == 64)) [
    | inl full ↦
        let (after, half) =
          free-Accounts ctx got ((==_iff (length ctx.app_buffer_cache) 64).0 full) a in
        let same : make_room 5 ctx ≡ free_half ctx =
          full_room ctx full ∙ stays 4 (free_half ctx) (λ e. absurd (omega arith)) in
        subst (λ c. Accounts all total c got × (length c.app_buffer_cache < 64)) (sym same)
          (after, omega arith)
    | inr room ↦
        let ne = λ (e : length ctx.app_buffer_cache ≡ 64). absurd (ground (arith, room, e)) in
        subst (λ c. Accounts all total c got × (length c.app_buffer_cache < 64))
          (sym (stays 5 ctx ne)) (a, below (length ctx.app_buffer_cache) a.small room)
  ]
    where
      full_room :
          (ctx : ChannelCtx)
          → (length ctx.app_buffer_cache == 64) ≡ true
          → make_room 5 ctx ≡ make_room 4 (free_half ctx)
      full_room ctx full = unfold make_room in rw full

      below : (n : ℕ) → n ≤ 64 → (n == 64) ≡ false → n < 64
      below n le e = ground arith

  goes_on :
      (b : Bool) (x y : ChannelCtx) (got : List ℕ)
      → b ≡ false
      → Accounts all total y got
      → Accounts all total (if b then x else y) got
  goes_on b x y got e a = rw e a

  put_one :
      (i : ℕ) (got : List ℕ) (ctx : ChannelCtx)
      → length ctx.app_buffer_cache < 64
      → Accounts all total ctx (i ∷ got)
      → Accounts all total (record ctx { app_buffer_cache = i ∷ ctx.app_buffer_cache }) got
  put_one i got ctx lt a = record {
    pool = a.pool;
    fifo = a.fifo;
    small = omega arith;
    counts = λ j.
        omega
          (arith, a.counts j, occurrences_cons j i got, occurrences_cons j i ctx.app_buffer_cache);
    whole = omega (arith, a.whole);
    room = a.room;
    runs = a.runs;
  }

  -- Take a channel whose buffers are counted in the pool, in the cache, with the caller and with others.
  -- Whatever buffers of its own the caller releases, the counts of the pool, of the cache and of the
  -- others then add up to the same for every buffer: those released are in the pool or the cache, and no
  -- buffer is lost or doubled. The cache holds at most 64, and the code never aborts.
  pub machnet_buffers_release-Accounts :
      (is held : List ℕ) (ctx : ChannelCtx)
      → Accounts all total ctx (is ++ held)
      → Accounts all total (machnet_buffers_release ctx is) held
  unfolding machnet_buffers_release
  machnet_buffers_release-Accounts [] held ctx a = a
  machnet_buffers_release-Accounts (i ∷ is) held ctx a =
      let (ready, less) = make_room-Accounts ctx (i ∷ is ++ held) a in
      let kept = put_one i (is ++ held) (make_room 5 ctx) less ready in
      goes_on (make_room 5 ctx).aborted (make_room 5 ctx) _ held ready.runs
        (machnet_buffers_release-Accounts is held _ kept)

bufs-if :
    (b : Bool) (x y ctx : ChannelCtx)
    → x.bufs ≡ ctx.bufs
    → y.bufs ≡ ctx.bufs
    → (if b then x else y).bufs ≡ ctx.bufs
bufs-if true x y ctx e e' = e
bufs-if false x y ctx e e' = e'

make_room-bufs : (retries : ℕ) (ctx : ChannelCtx) → (make_room retries ctx).bufs ≡ ctx.bufs
unfolding make_room free_half buf_free_bulk
make_room-bufs zero ctx =
    let after = free_half ctx in
    let full = length after.app_buffer_cache == num_cached_bufs in
    let stopped = record after { aborted = true } in
    bufs-if (not (length ctx.app_buffer_cache == num_cached_bufs)) ctx
      (if full then stopped else after) ctx refl (bufs-if full stopped after ctx refl refl)
make_room-bufs (suc retries) ctx =
    bufs-if (length ctx.app_buffer_cache == num_cached_bufs) (make_room retries (free_half ctx)) ctx
      ctx (make_room-bufs retries (free_half ctx)) refl

pub machnet_buffers_release-bufs :
    (ctx : ChannelCtx) (is : List ℕ) → (machnet_buffers_release ctx is).bufs ≡ ctx.bufs
unfolding machnet_buffers_release
machnet_buffers_release-bufs ctx [] = refl
machnet_buffers_release-bufs ctx (i ∷ is) =
    let ready = make_room 5 ctx in
    let kept = record ready { app_buffer_cache = i ∷ ready.app_buffer_cache } in
    bufs-if ready.aborted ready (machnet_buffers_release kept is) ctx (make_room-bufs 5 ctx)
      (machnet_buffers_release-bufs kept is ∙ make_room-bufs 5 ctx)
