-- ===== src/Shm/Accounts.antt =====
-- src/ext/machnet_common.h and src/ext/machnet.c: where the buffers of a channel are.
use machnet.Base.{
  ℕ, ◌+◌, ◌≡◌, ◌≤◌, refl, sym, ap, ◌∙◌, false, List, [], ◌∷◌, ◌++◌, length, take, drop, ◌==◌,
  if◌then◌else◌, arith, take-append-drop,
}
use machnet.Ring.Fifo.{IsFifo}
use machnet.Shm.{ChannelCtx}
use machnet.Shm.Cache.{reversed}

-- How often i is among the indices.
unfoldable pub occurrences : ℕ → List ℕ → ℕ
occurrences i [] = 0
occurrences i (x ∷ xs) = (if x == i then 1 else 0) + occurrences i xs

pub occurrences-append :
    (i : ℕ) (xs ys : List ℕ) → occurrences i (xs ++ ys) ≡ occurrences i xs + occurrences i ys
unfolding occurrences
occurrences-append i [] ys = omega arith
occurrences-append i (x ∷ xs) ys = omega (arith, occurrences-append i xs ys)

pub occurrences-reversed :
    (i : ℕ) (xs acc : List ℕ)
    → occurrences i (reversed xs acc) ≡ occurrences i xs + occurrences i acc
unfolding occurrences reversed
occurrences-reversed i [] acc = omega arith
occurrences-reversed i (x ∷ xs) acc = omega (arith, occurrences-reversed i xs (x ∷ acc))

pub occurrences-split :
    (i n : ℕ) (xs : List ℕ)
    → occurrences i (take n xs) + occurrences i (drop n xs) ≡ occurrences i xs
occurrences-split i n xs =
    sym (occurrences-append i (take n xs) (drop n xs)) ∙ ap (occurrences i) (take-append-drop n xs)

pub length-reversed : (xs acc : List ℕ) → length (reversed xs acc) ≡ length xs + length acc
unfolding reversed
length-reversed [] acc = omega arith
length-reversed (x ∷ xs) acc = omega (arith, length-reversed xs (x ∷ acc))

pub occurrences_cons :
    (i x : ℕ) (xs : List ℕ) → occurrences i (x ∷ xs) ≡ (if x == i then 1 else 0) + occurrences i xs
unfolding occurrences
occurrences_cons i x xs = refl

pub occurrences_nil : (i : ℕ) → occurrences i [] ≡ 0
unfolding occurrences
occurrences_nil i = refl

pub occurrences-empty : (i : ℕ) (xs : List ℕ) → length xs ≡ 0 → occurrences i xs ≡ 0
occurrences-empty i [] e = occurrences_nil i
occurrences-empty i (x ∷ xs) e = absurd (omega arith)

-- The indices that `all` counts, `total` of them, are those of the pool, of the cache and of `got`; the
-- ring of the pool has room for all of them, and no call has aborted.
pub record Accounts (all : ℕ → ℕ) (total : ℕ) (ctx : ChannelCtx) (got : List ℕ) : Type 0 where
  pub pool : List ℕ
  pub fifo : IsFifo ctx.buf_ring pool
  pub small : length ctx.app_buffer_cache ≤ 64
  pub counts :
      (i : ℕ) → occurrences i pool + occurrences i ctx.app_buffer_cache + occurrences i got ≡ all i
  pub whole : length pool + length ctx.app_buffer_cache + length got ≡ total
  pub room : total ≤ ctx.buf_ring.capacity
  pub runs : ctx.aborted ≡ false
