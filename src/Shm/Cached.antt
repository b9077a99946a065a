-- ===== src/Shm/Cached.antt =====
-- src/ext/machnet.c: no buffer is lost or doubled in an allocation from the application's cache.
use mathlib.Core.Path.{subst}
use mathlib.Core.Option.{some_inj}
use machnet.Base.{
  ℕ, zero, suc, ◌+◌, ◌-◌, ◌≡◌, ◌≢◌, ◌⊎◌, ◌||◌, ◌≤◌, ◌<◌, refl, sym, ap, ◌∙◌, Bool, true, false, inl,
  inr, Option, none, some, List, [], ◌∷◌, ◌++◌, length, leb, ◌==◌, if◌then◌else◌, arith,
  length-append,
}
use machnet.Shm.{ChannelCtx}
use machnet.Shm.Cache.{reversed, refill, take_cached, alloc_from_cache}
use machnet.Shm.Accounts.{
  occurrences, occurrences-append, occurrences-reversed, length-reversed, occurrences_cons,
  occurrences_nil, occurrences-empty, Accounts,
}
use machnet.Shm.Bulk.{refill-Accounts, length-refill}

pub List-cases : (xs : List ℕ) → (xs ≡ []) ⊎ ((i : ℕ) × (rest : List ℕ) × (xs ≡ i ∷ rest))
List-cases [] = inl refl
List-cases (i ∷ rest) = inr (i, rest, refl)

pub not_given : (g : List ℕ) → none ≢ some g
not_given g = cc

fails :
    (n c p : ℕ)
    → (if c == 0 then (if leb 64 p then 64 else 0) else c) ≡ 0
    → false ≡ (leb (suc n) c || leb 64 p)
fails n c p e = ground arith

goes_on :
    (n c p c' p' : ℕ)
    → n < 64
    → suc c' ≡ (if c == 0 then (if leb 64 p then 64 else 0) else c)
    → p' + suc c' ≡ p + c
    → (leb n c' || leb 64 p') ≡ (leb (suc n) c || leb 64 p)
goes_on n c p c' p' lt e e' = ground arith

abbrev pub is_given : Option (List ℕ) → Bool
is_given none = false
is_given (some g) = true

abbrev pub given : Option (List ℕ) → List ℕ
given none = []
given (some g) = g

module _ (all : ℕ → ℕ) (total : ℕ) where
  -- What an allocation gives: all the buffers asked for or none, and nothing is lost; it fails exactly
  -- where neither the cache has enough buffers nor the pool the 64 of a refill.
  pub record Served (got held : List ℕ) (n c p : ℕ) (out : Option (List ℕ) × ChannelCtx)
      : Type 0 where
    pub accounts : Accounts all total (out.1) (given (out.0) ++ held)
    pub number : (g : List ℕ) → out.0 ≡ some g → length g ≡ length got + n
    pub served : is_given (out.0) ≡ (leb n c || leb 64 p)

  -- A partial allocation goes back to the empty cache.
  put_back :
      (ctx : ChannelCtx) (got held : List ℕ)
      → length got ≤ 64
      → ctx.app_buffer_cache ≡ []
      → Accounts all total ctx (got ++ held)
      → Accounts all total (record ctx { app_buffer_cache = reversed got [] }) held
  put_back ctx got held le empty a =
      let none_left : length ctx.app_buffer_cache ≡ 0 = ap length empty in
      let moved = length-reversed got [] in
      record {
        pool = a.pool;
        fifo = a.fifo;
        small = omega (arith, moved);
        counts = λ i. omega (
          arith,
          a.counts i,
          occurrences-empty i ctx.app_buffer_cache none_left,
          occurrences-reversed i got [],
          occurrences-append i got held,
          occurrences_nil i,
        );
        whole = omega (arith, a.whole, none_left, moved, length-append got held);
        room = a.room;
        runs = a.runs;
      }

  take_top :
      (ctx : ChannelCtx) (got held : List ℕ) (i : ℕ) (rest : List ℕ)
      → ctx.app_buffer_cache ≡ i ∷ rest
      → Accounts all total ctx (got ++ held)
      → Accounts all total (record ctx { app_buffer_cache = rest }) (got ++ (i ∷ []) ++ held)
  take_top ctx got held i rest e a =
      let count = ap length e in
      record {
        pool = a.pool;
        fifo = a.fifo;
        small = omega (arith, a.small, count);
        counts = λ j. omega (
          arith,
          a.counts j,
          ap (occurrences j) e,
          occurrences_cons j i rest,
          occurrences-append j (got ++ (i ∷ [])) held,
          occurrences-append j got (i ∷ []),
          occurrences_cons j i [],
          occurrences_nil j,
          occurrences-append j got held,
        );
        whole = omega (
          arith,
          a.whole,
          count,
          length-append got held,
          length-append (got ++ (i ∷ [])) held,
          length-append got (i ∷ []),
        );
        room = a.room;
        runs = a.runs;
      }

  pub alloc_from_cache-Served :
      (n : ℕ) (got held : List ℕ) (ctx : ChannelCtx) (c p : ℕ)
      → length got + n ≤ 64
      → Accounts all total ctx (got ++ held)
      → length ctx.app_buffer_cache ≡ c
      → p + c + length (got ++ held) ≡ total
      → Served got held n c p (alloc_from_cache n got ctx)
  unfolding alloc_from_cache take_cached
  alloc_from_cache-Served zero got held ctx c p le a hc hp = record {
    accounts = a;
    number = λ g e. omega (arith, ap length (some_inj.0 e));
    served = ground arith;
  }
  alloc_from_cache-Served (suc n) got held ctx c p le a hc hp =
      let ready = refill ctx in
      let a' = refill-Accounts all total ctx (got ++ held) a in
      let c' = length-refill all total ctx (got ++ held) c p a hc hp in
      let next = λ (i : ℕ) (rest : ChannelCtx). alloc_from_cache n (got ++ (i ∷ [])) rest in
      elim (List-cases ready.app_buffer_cache) [
        | inl empty ↦
            subst (λ xs. Served got held (suc n) c p (take_cached xs got ready next)) (sym empty)
              (record {
                accounts = put_back ready got held (omega arith) empty a';
                number = λ g e. absurd (not_given g e);
                served = fails n c p (sym c' ∙ ap length empty);
              })
        | inr (i, rest, e) ↦
            let longer = length-append (got ++ (i ∷ [])) held in
            let one = length-append got (i ∷ []) in
            let both = length-append got held in
            let count = ap length e in
            let p' = total - (length rest + length (got ++ (i ∷ []) ++ held)) in
            let s =
              alloc_from_cache-Served n (got ++ (i ∷ [])) held
                (record ready { app_buffer_cache = rest }) (length rest) p' (omega arith)
                (take_top ready got held i rest e a') refl
                (omega (arith, (take_top ready got held i rest e a').whole)) in
            subst (λ xs. Served got held (suc n) c p (take_cached xs got ready next)) (sym e)
              (record {
                accounts = s.accounts;
                number = λ g e. omega (arith, s.number g e);
                served =
                    s.served
                    ∙ goes_on n c p (length rest) p' (omega arith) (omega arith) (omega arith);
              })
      ]
