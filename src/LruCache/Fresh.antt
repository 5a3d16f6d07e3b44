-- ===== src/LruCache/Fresh.antt =====
-- The constructor of lru_cache.h, `clear` and `get_all_keys`.
use vaedb.Common.{ℕ, ◌≡◌, refl, ap, List, [], ◌∷◌, map, arith}
use vaedb.Common.Map.{lookup}
use vaedb.LruCache.{Node, LruCache, init, clear, get_all_keys}
use vaedb.LruCache.Invariant.{total, addr_of, IsValid}
use vaedb.LruCache.Evict.{view, pair}

-- The constructor's cache and the cleared cache are valid and empty.
module _ {K D : Type 0} (dec : Discrete K) (sizefn : D → ℕ) where
  pub init-IsValid :
      (size : ℕ) → IsValid dec sizefn (init size) × (view (init {K = K} {D = D} size) ≡ [])
  unfolding init total addr_of lookup
  init-IsValid size = (
    record {
      linked = record {
        below = tt;
        distinct = tt;
        agrees = λ k. refl;
        sized = refl;
        word = omega arith;
      };
      bounded = omega arith;
    },
    refl,
  )

  pub clear-IsValid :
      (c : LruCache K D)
      → IsValid dec sizefn c
      → IsValid dec sizefn (clear c) × (view (clear c) ≡ []) × ((clear c).max_size ≡ c.max_size)
  unfolding clear total addr_of lookup
  clear-IsValid c v = (
    record {
      linked = record {
        below = tt;
        distinct = tt;
        agrees = λ k. refl;
        sized = refl;
        word = omega arith;
      };
      bounded = omega arith;
    },
    refl,
    refl,
  )

  -- `get_all_keys` lists the keys of the view in its order.
  pub get_all_keys-view : (c : LruCache K D) → get_all_keys c ≡ map (λ e. e.0) (view c)
  unfolding get_all_keys
  get_all_keys-view c = keys c.list
    where
      keys : (l : List (Node K D)) → map (λ n. n.first) l ≡ map (λ e. e.0) (map pair l)
      keys [] = refl
      keys (n ∷ ns) = ap (◌∷◌ n.first) (keys ns)
