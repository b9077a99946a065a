-- ===== src/Shm/Cache.antt =====
-- src/ext/machnet.c: the allocation and the release of buffers through the application's cache.
use machnet.Base.{
  ℕ, zero, suc, ◌/◌, true, not, Option, none, some, List, [], ◌∷◌, ◌++◌, length, take, drop, ltb,
  ◌==◌, if◌then◌else◌,
}
use machnet.Shm.{ChannelCtx, num_cached_bufs, buf_alloc_bulk, buf_free_bulk}

unfoldable pub reversed : List ℕ → List ℕ → List ℕ
reversed [] acc = acc
reversed (x ∷ xs) acc = reversed xs (x ∷ acc)

unfoldable pub refill : ChannelCtx → ChannelCtx
refill ctx =
    let (indices, filled) = buf_alloc_bulk ctx num_cached_bufs in
    if length ctx.app_buffer_cache == 0
    then record filled { app_buffer_cache = reversed indices [] }
    else ctx

-- The top of the cache, or the way back where there is none: the partial allocation goes to the cache.
unfoldable pub take_cached :
    List ℕ
    → List ℕ
    → ChannelCtx
    → (ℕ → ChannelCtx → Option (List ℕ) × ChannelCtx)
    → Option (List ℕ) × ChannelCtx
take_cached [] got ctx next = (none, record ctx { app_buffer_cache = reversed got [] })
take_cached (i ∷ rest) got ctx next = next i (record ctx { app_buffer_cache = rest })

-- The buffers taken so far are `got`; `none` is NULL.
unfoldable pub alloc_from_cache : ℕ → List ℕ → ChannelCtx → Option (List ℕ) × ChannelCtx
alloc_from_cache zero got ctx = (some got, ctx)
alloc_from_cache (suc n) got ctx =
    let ready = refill ctx in
    take_cached ready.app_buffer_cache got ready
      (λ i rest. alloc_from_cache n (got ++ (i ∷ [])) rest)

unfoldable pub machnet_buffers_alloc : ChannelCtx → ℕ → Option (List ℕ) × ChannelCtx
machnet_buffers_alloc ctx cnt =
    let (indices, after) = buf_alloc_bulk ctx cnt in
    if ltb num_cached_bufs cnt
    then (if length indices == cnt then (some indices, after) else (none, after))
    else alloc_from_cache cnt [] ctx

-- One attempt to free the newer half of a full cache.
unfoldable pub free_half : ChannelCtx → ChannelCtx
free_half ctx =
    let half = length ctx.app_buffer_cache / 2 in
    let (freed, after) = buf_free_bulk ctx (reversed (take half ctx.app_buffer_cache) []) in
    record after { app_buffer_cache = drop freed ctx.app_buffer_cache }

-- The wait while the cache is full; the attempt after the last retry aborts.
unfoldable pub make_room : ℕ → ChannelCtx → ChannelCtx
make_room zero ctx =
    let after = free_half ctx in
    if not (length ctx.app_buffer_cache == num_cached_bufs)
    then ctx
    else if length after.app_buffer_cache == num_cached_bufs
    then record after { aborted = true }
    else after
make_room (suc retries) ctx =
    let again = make_room retries (free_half ctx) in
    if length ctx.app_buffer_cache == num_cached_bufs then again else ctx

unfoldable pub machnet_buffers_release : ChannelCtx → List ℕ → ChannelCtx
machnet_buffers_release ctx [] = ctx
machnet_buffers_release ctx (i ∷ is) =
    let ready = make_room 5 ctx in
    let kept = record ready { app_buffer_cache = i ∷ ready.app_buffer_cache } in
    if ready.aborted then ready else machnet_buffers_release kept is
