-- ===== src/LruCache/Insert.antt =====
-- `insert` of lru_cache.h: the key's old pair goes, the new one comes to the front, and pairs leave
-- at the back until the sizes fit.
use vaedb.Common.{
  ℕ, suc, ◌+◌, ◌≤◌, ◌<◌, ◌≡◌, refl, sym, ap, ◌∙◌, none, some, List, [], ◌∷◌, map, arith, length,
  Option-cases, inl, inr, if_pos,
}
use vaedb.Common.Map.{lookup, erase, lookup-erase}
use vaedb.LruCache.{Node, LruCache, ulong, add_ulong, replace, push_front, index_insert, insert}
use vaedb.LruCache.Invariant.{total, Below-suc, deref-fresh, addr_of, IsLinked, IsValid}
use vaedb.LruCache.Evict.{view, pair, weight, fit, weight-fit, erase-view_absent}
use vaedb.LruCache.Refine.{Holds, promote, absent, remove_iter-Holds, touch_iter-Holds}
use vaedb.LruCache.Shrink.{shrink-Holds, weighs}

module _ {K D : Type 0} (dec : Discrete K) where
  erase-erase : (k : K) (l : List (K × D)) → erase dec k (erase dec k l) ≡ erase dec k l
  unfolding erase
  erase-erase k [] = refl
  erase-erase k ((j, d) ∷ l) = ground (arith, erase-erase k l)

  erase-promote : (k : K) (l : List (K × D)) → erase dec k (promote dec k l) ≡ erase dec k l
  unfolding promote erase
  erase-promote k l = ground (arith, erase-erase k l)

  pub weight-erase-le :
      (sizefn : D → ℕ) (k : K) (l : List (K × D)) → weight sizefn (erase dec k l) ≤ weight sizefn l
  unfolding erase weight
  weight-erase-le sizefn k [] = omega arith
  weight-erase-le sizefn k ((j, d) ∷ l) = ground (arith, weight-erase-le sizefn k l)

  addr_of_missed :
      (k : K) (l : List (Node K D)) → lookup dec k (map pair l) ≡ none → addr_of dec k l ≡ none
  unfolding addr_of lookup
  addr_of_missed k [] h = refl
  addr_of_missed k (n ∷ ns) h = ground (arith, addr_of_missed k ns)

module _ {K D : Type 0} (dec : Discrete K) (sizefn : D → ℕ) where
  -- The head of `insert` leaves the cache without the key.
  replace-Holds :
      (c : LruCache K D) (key : K)
      → IsLinked dec sizefn c
      → (c' : LruCache K D) × (replace dec sizefn key c ≡ some c')
        × Holds dec sizefn c.max_size (erase dec key (view c)) c'
  unfolding replace promote
  replace-Holds c key v =
      let (c1, touched, h, same, _) = touch_iter-Holds dec sizefn c key v in
      elim (Option-cases (lookup dec key c.index)) [
        | inl miss ↦
            let (gone, missed) = absent dec sizefn c key miss v in
            (
              c1,
              rw touched (rw miss),
              record {
                linked = h.linked;
                viewed =
                    h.viewed ∙ rw (missed, promote) (sym (erase-view_absent dec key c.list gone));
                limit = h.limit;
              },
            )
        | inr (a, hit) ↦
            let (c', done, held) =
              remove_iter-Holds dec sizefn c1 key {a = a} (ap (lookup dec key) same ∙ hit)
                h.linked in
            (
              c',
              rw (touched, hit) done,
              record {
                linked = held.linked;
                viewed = held.viewed ∙ ap (erase dec key) h.viewed ∙ erase-promote dec key (view c);
                limit = held.limit ∙ h.limit;
              },
            )
      ]

  -- A new pair in front of a cache that has no such key.
  push_front-Holds :
      (c : LruCache K D) (key : K) (d : D)
      → addr_of dec key c.list ≡ none
      → c.curr_size + sizefn d < ulong
      → IsLinked dec sizefn c
      → Holds dec sizefn c.max_size ((key, d) ∷ view c) (push_front dec sizefn key d c)
  unfolding push_front add_ulong index_insert addr_of total lookup
  push_front-Holds c key d h w v = record {
    linked = record {
      below = (omega arith, Below-suc c.next_addr c.list v.below);
      distinct = (h, deref-fresh c.next_addr c.list v.below, v.distinct);
      agrees = λ k. ground (arith, v.agrees key, v.agrees k);
      sized = omega (arith, v.sized);
      word = omega arith;
    };
    viewed = refl;
    limit = refl;
  }

  -- `insert` neither faults nor runs out of rounds. It leaves the new pair in front of the other
  -- pairs in their order, cut to the longest prefix whose sizes sum to at most `_max_size`.
  pub insert-Refines :
      (c : LruCache K D) (key : K) (d : D)
      → c.max_size + sizefn d < ulong
      → IsValid dec sizefn c
      → (c' : LruCache K D) × (insert dec sizefn key d c ≡ some c')
        × IsValid dec sizefn c'
        × (view c' ≡ fit sizefn c.max_size ((key, d) ∷ erase dec key (view c)))
        × (c'.max_size ≡ c.max_size)
  unfolding insert
  insert-Refines c key d w v =
      let (c1, done, h) = replace-Holds c key v.linked in
      let gone : lookup dec key (view c1) ≡ none =
        rw (h.viewed, lookup-erase) (if_pos (dec key key) refl _ _) in
      let light : weight sizefn (view c1) ≤ weight sizefn (view c) =
        rw h.viewed (weight-erase-le dec sizefn key (view c)) in
      let fits : c1.curr_size + sizefn d < ulong =
        omega
          (arith, light, weighs dec sizefn c v.linked, weighs dec sizefn c1 h.linked, v.bounded) in
      let h2 = push_front-Holds c1 key d (addr_of_missed dec key c1.list gone) fits h.linked in
      let c2 = push_front dec sizefn key d c1 in
      let (c', ended, held) =
        shrink-Holds dec sizefn (suc (length c2.list)) c2 (omega arith) h2.linked in
      let limit : c2.max_size ≡ c.max_size = h2.limit ∙ h.limit in
      let viewed : view c' ≡ fit sizefn c.max_size ((key, d) ∷ erase dec key (view c)) =
        held.viewed
        ∙ ap (λ m. fit sizefn m (view c2)) limit
        ∙ ap (λ l. fit sizefn c.max_size l) (h2.viewed ∙ ap (◌∷◌ (key, d)) h.viewed) in
      let small : c'.curr_size ≤ c.max_size =
        rw (← weighs dec sizefn c' held.linked, viewed)
          (weight-fit sizefn c.max_size ((key, d) ∷ erase dec key (view c))) in
      let kept : c'.max_size ≡ c.max_size = held.limit ∙ limit in
      (
        c',
        rw done ended,
        record { linked = held.linked; bounded = omega (arith, small, kept) },
        viewed,
        kept,
      )
