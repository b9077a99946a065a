-- ===== src/Shm/Allocation.antt =====
-- src/ext/machnet.c: no buffer is lost or doubled on the way from the pool and the application's cache
-- to the caller.
use mathlib.Core.Path.{subst}
use mathlib.Core.Option.{some_inj}
use machnet.Base.{
  ℕ, ◌≡◌, ◌||◌, ◌≤◌, refl, sym, ap, ◌∙◌, true, false, Bool-cases, inl, inr, Option, none, some,
  List, [], ◌∷◌, ◌++◌, length, ltb, leb, ◌==◌, ==_iff, if◌then◌else◌, arith,
}
use machnet.Ring.Runs.{count_lem}
use machnet.Ring.{jring_count}
use machnet.Shm.{ChannelCtx, buf_alloc_bulk}
use machnet.Shm.Cache.{alloc_from_cache, machnet_buffers_alloc}
use machnet.Shm.Accounts.{Accounts}
use machnet.Shm.Bulk.{Allocated, alloc-Allocated}
use machnet.Shm.Cached.{not_given, given, is_given, alloc_from_cache-Served}

module _ (all : ℕ → ℕ) (total : ℕ) where
  abbrev Outcome : ℕ → List ℕ → ChannelCtx → Option (List ℕ) × ChannelCtx → Type 0
  Outcome cnt held ctx out =
      Accounts all total (out.1) (given (out.0) ++ held)
      × ((g : List ℕ) → out.0 ≡ some g → length g ≡ cnt)
      × (is_given (out.0) ≡ (
          if ltb 64 cnt
          then leb cnt (jring_count ctx.buf_ring)
          else leb cnt (length ctx.app_buffer_cache) || leb 64 (jring_count ctx.buf_ring)))

  large-Outcome :
      (cnt : ℕ) (held : List ℕ) (ctx : ChannelCtx) (indices : List ℕ) (after : ChannelCtx)
      → ltb 64 cnt ≡ true
      → Allocated all total ctx held cnt (jring_count ctx.buf_ring) (indices, after)
      → Outcome cnt held ctx
          (if length indices == cnt then (some indices, after) else (none, after))
  large-Outcome cnt held ctx indices after large s = elim (Bool-cases (length indices == cnt)) [
    | inl all_given ↦ rw all_given (
      s.accounts,
      (λ g e. exactly indices g e ∙ (==_iff (length indices) cnt).0 all_given),
      rw large (enough cnt (length indices) (jring_count ctx.buf_ring) large all_given s.number),
    )
    | inr not_all ↦
        let none_given =
          nothing cnt (length indices) (jring_count ctx.buf_ring) large not_all s.number in
        rw not_all (
          subst (λ xs. Accounts all total after (xs ++ held)) (nil_lem indices none_given.0)
              s.accounts,
          (λ g e. absurd (not_given g e)),
          rw large none_given.1,
        )
  ]
    where
      exactly : (xs ys : List ℕ) → some xs ≡ some ys → length ys ≡ length xs
      exactly xs ys e = ap length (sym (some_inj.0 e))

      enough :
          (n k p : ℕ)
          → ltb 64 n ≡ true
          → (k == n) ≡ true
          → k ≡ (if leb n p then n else 0)
          → true ≡ leb n p
      enough n k p large e e' = ground arith

      nothing :
          (n k p : ℕ)
          → ltb 64 n ≡ true
          → (k == n) ≡ false
          → k ≡ (if leb n p then n else 0)
          → (k ≡ 0) × (false ≡ leb n p)
      nothing n k p large e e' = ground arith

      nil_lem : (xs : List ℕ) → length xs ≡ 0 → xs ≡ []
      nil_lem [] e = refl
      nil_lem (x ∷ xs) e = absurd (omega arith)

  -- Take a channel whose buffers are counted, with c of them in the application's cache and p in the
  -- pool, and whatever buffers others hold. An allocation of cnt buffers returns exactly cnt or none;
  -- afterwards every buffer is as often in the pool, in the cache, with the caller or with the others as
  -- before. It returns none exactly when more than 64 are asked for and the pool has fewer, or when at
  -- most 64 are asked for and the cache has fewer and the pool fewer than 64.
  pub machnet_buffers_alloc_conserves :
      (cnt : ℕ) (held : List ℕ) (ctx : ChannelCtx)
      → Accounts all total ctx held
      → Accounts all total
          ((machnet_buffers_alloc ctx cnt).1)
          (given ((machnet_buffers_alloc ctx cnt).0) ++ held)
        × ((g : List ℕ) → (machnet_buffers_alloc ctx cnt).0 ≡ some g → length g ≡ cnt)
        × (is_given ((machnet_buffers_alloc ctx cnt).0) ≡ (
            if ltb 64 cnt
            then leb cnt (jring_count ctx.buf_ring)
            else leb cnt (length ctx.app_buffer_cache) || leb 64 (jring_count ctx.buf_ring)))
  machnet_buffers_alloc_conserves cnt held ctx a =
      let counted = count_lem ctx.buf_ring a.pool a.fifo in
      elim (Bool-cases (ltb 64 cnt)) [
        | inl large ↦
            let s = alloc-Allocated all total ctx held cnt a in
            let s' =
              subst (λ p. Allocated all total ctx held cnt p (buf_alloc_bulk ctx cnt)) (sym counted)
                s in
            let (indices, after) = buf_alloc_bulk ctx cnt in
            subst (Outcome cnt held ctx) (sym (large_call ctx cnt large))
              (large-Outcome cnt held ctx indices after large s')
        | inr small ↦
            let p = jring_count ctx.buf_ring in
            let le : cnt ≤ 64 = ground (arith, small) in
            let s =
              alloc_from_cache-Served all total cnt [] held ctx (length ctx.app_buffer_cache) p
                (omega arith) a refl (omega (arith, a.whole, counted)) in
            subst (Outcome cnt held ctx) (sym (small_call ctx cnt small))
              (s.accounts, (λ g e. omega (arith, s.number g e)), rw small s.served)
      ]
    where
      large_call :
          (ctx : ChannelCtx) (cnt : ℕ)
          → ltb 64 cnt ≡ true
          → machnet_buffers_alloc ctx cnt ≡ (
              if length (buf_alloc_bulk ctx cnt).0 == cnt
              then (some (buf_alloc_bulk ctx cnt).0, (buf_alloc_bulk ctx cnt).1)
              else (none, (buf_alloc_bulk ctx cnt).1))
      large_call ctx cnt large = unfold machnet_buffers_alloc in rw large

      small_call :
          (ctx : ChannelCtx) (cnt : ℕ)
          → ltb 64 cnt ≡ false
          → machnet_buffers_alloc ctx cnt ≡ alloc_from_cache cnt [] ctx
      small_call ctx cnt small = unfold machnet_buffers_alloc in rw small
