-- ===== src/LruCache/Limits.antt =====
-- How full lru_cache.h lets a cache become.
use vaedb.Common.{
  ℕ, ◌+◌, ◌≤◌, ◌<◌, ◌≡◌, refl, sym, ap, ◌∙◌, none, some, List, ◌∷◌, arith, leb, Bool-cases, inl,
  inr, if_pos, if◌then◌else◌,
}
use vaedb.Common.Map.{lookup, erase}
use vaedb.LruCache.{LruCache, ulong, insert}
use vaedb.LruCache.Invariant.{IsValid}
use vaedb.LruCache.Evict.{view, weight, fit, weight-fit}
use vaedb.LruCache.Shrink.{weighs}
use vaedb.LruCache.Insert.{insert-Refines}

module _ {K D : Type 0} (dec : Discrete K) (sizefn : D → ℕ) where
  lookup-fit :
      (m : ℕ) (key : K) (d : D) (l : List (K × D))
      → lookup dec key (fit sizefn m ((key, d) ∷ l)) ≡ (if leb (sizefn d) m then some d else none)
  unfolding fit lookup
  lookup-fit m key d l = elim (Bool-cases (leb (sizefn d) m)) [
    | inl e ↦ rw e (if_pos (dec key key) refl _ _)
    | inr e ↦ rw e refl
  ]

  -- After an insertion into a valid cache `_curr_size` is the sum of the sizes of its entries and at most
  -- `_max_size`. The new entry is found if it is no larger than `_max_size` by itself; otherwise it has been
  -- evicted again. The size of the new entry and `_max_size` together do not wrap.
  pub insert-le :
      (c : LruCache K D) (key : K) (d : D)
      → c.max_size + sizefn d < ulong
      → IsValid dec sizefn c
      → (c' : LruCache K D) × (insert dec sizefn key d c ≡ some c')
        × (c'.curr_size ≡ weight sizefn (view c'))
        × (c'.curr_size ≤ c.max_size)
        × (lookup dec key (view c') ≡ (if leb (sizefn d) c.max_size then some d else none))
  unfolding fit
  insert-le c key d w v =
      let (c', done, v', viewed, limit) = insert-Refines dec sizefn c key d w v in
      let sum = weighs dec sizefn c' v'.linked in
      let light : weight sizefn (view c') ≤ c.max_size =
        rw viewed (weight-fit sizefn c.max_size ((key, d) ∷ erase dec key (view c))) in
      (
        c',
        done,
        sym sum,
        omega (arith, sum, light),
        ap (lookup dec key) viewed ∙ lookup-fit c.max_size key d (erase dec key (view c)),
      )
