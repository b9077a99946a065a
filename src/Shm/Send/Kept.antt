-- ===== src/Shm/Send/Kept.antt =====
-- src/ext/machnet.c: what an allocation of buffers leaves alone.
use machnet.Base.{
  ℕ, zero, suc, ◌≡◌, refl, ◌∙◌, Bool, true, false, Option, none, some, List, [], ◌∷◌, ◌++◌, length,
  ltb, ◌==◌, if◌then◌else◌,
}
use machnet.Shm.{ChannelCtx, MachnetMsgBuf, init_bufs, buf_init, buf_alloc_bulk}
use machnet.Shm.Cache.{refill, take_cached, alloc_from_cache, machnet_buffers_alloc}
use machnet.Shm.Send.{set_buf}
use machnet.Shm.Send.Linked.{Headers, Headers-set}

init_bufs-Headers :
    (mss : ℕ) (is : List ℕ) (bufs : ℕ → MachnetMsgBuf)
    → Headers mss bufs
    → Headers mss (init_bufs is bufs)
unfolding init_bufs set_buf buf_init
init_bufs-Headers mss [] bufs h = h
init_bufs-Headers mss (i ∷ is) bufs h =
    init_bufs-Headers mss is (set_buf bufs i (buf_init (bufs i)))
      (Headers-set mss bufs i (buf_init (bufs i)) h (h.magic i) (h.size i))

pub record Kept (x y : ChannelCtx) : Type 0 where
  pub headers : (mss : ℕ) → Headers mss x.bufs → Headers mss y.bufs
  pub app_ring : y.app_ring ≡ x.app_ring
  pub machnet_ring : y.machnet_ring ≡ x.machnet_ring

self-Kept : (x : ChannelCtx) → Kept x x
self-Kept x = record { headers = λ mss h. h; app_ring = refl; machnet_ring = refl }

twice-Kept : (x y z : ChannelCtx) → Kept x y → Kept y z → Kept x z
twice-Kept x y z a b = record {
  headers = λ mss h. b.headers mss (a.headers mss h);
  app_ring = b.app_ring ∙ a.app_ring;
  machnet_ring = b.machnet_ring ∙ a.machnet_ring;
}

bulk-Kept : (ctx : ChannelCtx) (n : ℕ) → Kept ctx (buf_alloc_bulk ctx n).1
unfolding buf_alloc_bulk
bulk-Kept ctx n = record {
  headers = λ mss h. init_bufs-Headers mss _ ctx.bufs h;
  app_ring = refl;
  machnet_ring = refl;
}

Kept-if : (b : Bool) (x y z : ChannelCtx) → Kept x y → Kept x z → Kept x (if b then y else z)
Kept-if true x y z a c = a
Kept-if false x y z a c = c

refill-Kept : (ctx : ChannelCtx) → Kept ctx (refill ctx)
unfolding refill
refill-Kept ctx =
    let k = bulk-Kept ctx 64 in
    Kept-if (length ctx.app_buffer_cache == 0) ctx _ ctx
      (record { headers = k.headers; app_ring = k.app_ring; machnet_ring = k.machnet_ring })
      (self-Kept ctx)

take_cached-Kept :
    (cache got : List ℕ) (x ctx : ChannelCtx) (next : ℕ → ChannelCtx → Option (List ℕ) × ChannelCtx)
    → Kept x ctx
    → ((i : ℕ) (y : ChannelCtx) → Kept x y → Kept x (next i y).1)
    → Kept x (take_cached cache got ctx next).1
unfolding take_cached
take_cached-Kept [] got x ctx next k go = record {
  headers = k.headers;
  app_ring = k.app_ring;
  machnet_ring = k.machnet_ring;
}
take_cached-Kept (i ∷ rest) got x ctx next k go =
    go i _ (record { headers = k.headers; app_ring = k.app_ring; machnet_ring = k.machnet_ring })

cache-Kept : (n : ℕ) (got : List ℕ) (ctx : ChannelCtx) → Kept ctx (alloc_from_cache n got ctx).1
unfolding alloc_from_cache
cache-Kept zero got ctx = self-Kept ctx
cache-Kept (suc n) got ctx =
    take_cached-Kept (refill ctx).app_buffer_cache got ctx (refill ctx) _ (refill-Kept ctx)
      (λ i y k. twice-Kept ctx y _ k (cache-Kept n (got ++ (i ∷ [])) y))

pair-if :
    (b : Bool) (ctx : ChannelCtx) (p q : Option (List ℕ) × ChannelCtx)
    → Kept ctx (p.1)
    → Kept ctx (q.1)
    → Kept ctx ((if b then p else q).1)
pair-if true ctx p q a c = a
pair-if false ctx p q a c = c

pub alloc-Kept : (ctx : ChannelCtx) (n : ℕ) → Kept ctx (machnet_buffers_alloc ctx n).1
unfolding machnet_buffers_alloc
alloc-Kept ctx n =
    let k = bulk-Kept ctx n in
    pair-if (ltb 64 n) ctx _ _ (pair-if _ ctx (some _, _) (none, _) k k) (cache-Kept n [] ctx)
