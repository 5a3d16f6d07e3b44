-- ===== src/LruCache/Shrink.antt =====
-- The loop of `insert` in lru_cache.h: `while (_curr_size > _max_size)`.
use mathlib.Core.List.{map-append}
use vaedb.Common.{
  ℕ, zero, suc, ◌+◌, ◌≤◌, ◌<◌, ◌≡◌, refl, sym, ap, ◌∙◌, some, List, [], ◌∷◌, ◌++◌, map, dec_lt,
  arith, length, length-append, length-map,
}
use vaedb.LruCache.{Node, LruCache, unlink, last, remove_iter, shrink}
use vaedb.LruCache.Invariant.{total, IsLinked, addr_of-deref}
use vaedb.LruCache.Evict.{
  view, pair, weight, fit, weight-view, fit_whole, fit_snoc, view-unlink, last-deref, last_exists,
}
use vaedb.LruCache.Refine.{Holds, remove_iter-Holds}

module _ {K D : Type 0} (dec : Discrete K) (sizefn : D → ℕ) where
  -- The round that drops the last pair.
  drop_last :
      (c : LruCache K D)
      → c.max_size < c.curr_size
      → IsLinked dec sizefn c
      → (n : Node K D) × (c' : LruCache K D) × (last c.list ≡ some n)
        × (remove_iter dec sizefn n.first c ≡ some c')
        × Holds dec sizefn c.max_size (view c') c'
        × (view c ≡ view c' ++ pair n ∷ [])
  unfolding total
  drop_last c h v =
      let nonempty : 0 < length c.list = positive c.list (omega (arith, v.sized)) in
      let (n, at) = last_exists c.list nonempty in
      let (e, split) = last-deref dec c.list at v.distinct in
      let (found, _) = addr_of-deref dec n.addr c.list e v.distinct in
      let (c', done, holds) =
        remove_iter-Holds dec sizefn c n.first {a = n.addr} (v.agrees n.first ∙ found) v in
      let rest : view c' ≡ map pair (unlink n.addr c.list) =
        holds.viewed ∙ sym (view-unlink dec n.addr c.list e v.distinct) in
      (
        n,
        c',
        at,
        done,
        record { linked = holds.linked; viewed = refl; limit = holds.limit },
        rw rest (ap (map pair) split ∙ map-append pair (unlink n.addr c.list) (n ∷ [])),
      )
    where
      positive : (l : List (Node K D)) → 0 < total sizefn l → 0 < length l
      positive [] p = p
      positive (m ∷ ms) p = omega arith

  shrink_over :
      (fuel : ℕ) (c c1 : LruCache K D) (n : Node K D)
      → c.max_size < c.curr_size
      → last c.list ≡ some n
      → remove_iter dec sizefn n.first c ≡ some c1
      → shrink dec sizefn (suc fuel) c ≡ shrink dec sizefn fuel c1
  unfolding shrink
  shrink_over fuel c c1 n h e f = ground arith

  shrink_done :
      (fuel : ℕ) (c : LruCache K D)
      → c.curr_size ≤ c.max_size
      → shrink dec sizefn (suc fuel) c ≡ some c
  unfolding shrink
  shrink_done fuel c h = ground arith

  pub weighs : (c : LruCache K D) → IsLinked dec sizefn c → weight sizefn (view c) ≡ c.curr_size
  weighs c v = weight-view sizefn c.list ∙ sym v.sized

  fit_over :
      (c : LruCache K D) (l : List (K × D)) (e : K × D)
      → view c ≡ l ++ e ∷ []
      → c.max_size < c.curr_size
      → IsLinked dec sizefn c
      → fit sizefn c.max_size l ≡ fit sizefn c.max_size (view c)
  fit_over c l e split h v =
      let heavy : weight sizefn (l ++ e ∷ []) ≡ c.curr_size =
        ap (weight sizefn) (sym split) ∙ weighs c v in
      sym (fit_snoc sizefn c.max_size l e (omega (arith, heavy)))
      ∙ ap (fit sizefn c.max_size) (sym split)

  -- The loop of `insert` ends, faults nowhere, and keeps the longest prefix that fits.
  pub shrink-Holds :
      (fuel : ℕ) (c : LruCache K D)
      → length c.list < fuel
      → IsLinked dec sizefn c
      → (c' : LruCache K D) × (shrink dec sizefn fuel c ≡ some c')
        × Holds dec sizefn c.max_size (fit sizefn c.max_size (view c)) c'
  shrink-Holds zero c h v = absurd (omega arith)
  shrink-Holds (suc fuel) c h v = elim (dec_lt c.max_size c.curr_size) [
    | yes over ↦
        let (n, c1, at, done, holds, split) = drop_last c over v in
        let shorter : length (view c) ≡ length (view c1) + 1 =
          ap length split ∙ length-append (view c1) (pair n ∷ []) in
        let (c', ended, held) =
          shrink-Holds fuel c1
            (omega (arith, shorter, length-map pair c.list, length-map pair c1.list))
            holds.linked in
        (
          c',
          shrink_over fuel c c1 n over at done ∙ ended,
          record {
            linked = held.linked;
            viewed =
                held.viewed
                ∙ ap (λ m. fit sizefn m (view c1)) holds.limit
                ∙ fit_over c (view c1) (pair n) split over v;
            limit = held.limit ∙ holds.limit;
          },
        )
    | no fits ↦
        let light : c.curr_size ≤ c.max_size = omega arith in
        (
          c,
          shrink_done fuel c light,
          record {
            linked = v;
            viewed = sym (fit_whole sizefn c.max_size (view c) (omega (arith, weighs c v)));
            limit = refl;
          },
        )
  ]
