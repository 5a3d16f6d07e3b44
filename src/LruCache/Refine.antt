-- ===== src/LruCache/Refine.antt =====
-- Each operation of `LRUCache` against its specification on the view.
use vaedb.Common.{
  ℕ, ◌+◌, ◌-◌, ◌%◌, if_pos, ◌≡◌, refl, sym, ap, ◌∙◌, none, some, List, ◌∷◌, inl, inr, arith,
  Option-cases,
}
use vaedb.Common.Map.{lookup, erase, lookup-erase}
use vaedb.LruCache.{
  Node, LruCache, ulong, sub_ulong, deref, unlink, splice_front, touch_iter, remove_iter,
}
use vaedb.LruCache.Invariant.{
  total, Below-deref, Below-unlink, total-unlink, addr_of, IsLinked, deref-addr_of, addr_of-deref,
  addr_of-unlink, Distinct-unlink, deref-unlink_self,
}
use vaedb.LruCache.Evict.{view, lookup-view_hit, lookup-view_miss, view-unlink}

module _ {K D : Type 0} (dec : Discrete K) where
  -- `touch` on the view: the key's pair moves to the front.
  unfoldable pub promote : K → List (K × D) → List (K × D)
  promote key l = elim (lookup dec key l) [ none ↦ l | some d ↦ (key, d) ∷ erase dec key l ]

module _ {K D : Type 0} (dec : Discrete K) (sizefn : D → ℕ) where
  -- A node that is reached moves to the front: the links stay whole.
  front-IsLinked :
      (c : LruCache K D) (a : ℕ) {n : Node K D}
      → deref a c.list ≡ some n
      → IsLinked dec sizefn c
      → IsLinked dec sizefn (record c { list = n ∷ unlink a c.list })
  unfolding addr_of total
  front-IsLinked c a {n} e v =
      let (found, at) = addr_of-deref dec a c.list e v.distinct in
      record {
        below =
            (Below-deref c.next_addr a c.list e v.below, Below-unlink c.next_addr a c.list v.below);
        distinct = (
          addr_of-unlink dec a n.first c.list e v.distinct ∙ if_pos (dec n.first n.first) refl _ _,
          rw at (deref-unlink_self dec a c.list v.distinct),
          Distinct-unlink dec a c.list v.distinct,
        );
        agrees = λ k. ground (arith, v.agrees k, addr_of-unlink dec a k c.list e v.distinct);
        sized = omega (arith, v.sized, total-unlink sizefn a c.list e);
        word = v.word;
      }

  -- What the index finds is a node of the list, with the key's data.
  pub reach :
      (c : LruCache K D) (key : K) {a : ℕ}
      → lookup dec key c.index ≡ some a
      → IsLinked dec sizefn c
      → (n : Node K D) × (deref a c.list ≡ some n)
        × (n.first ≡ key)
        × (n.addr ≡ a)
        × (lookup dec key (view c) ≡ some n.second)
  reach c key {a} h v =
      let found : addr_of dec key c.list ≡ some a = sym (v.agrees key) ∙ h in
      let (n, e, f, g) = deref-addr_of dec key c.list found v.distinct in
      (n, e, f, g, lookup-view_hit dec key a c.list found e v.distinct)

  -- What the index does not find is not in the list.
  pub absent :
      (c : LruCache K D) (key : K)
      → lookup dec key c.index ≡ none
      → IsLinked dec sizefn c
      → (addr_of dec key c.list ≡ none) × (lookup dec key (view c) ≡ none)
  absent c key h v =
      let missing : addr_of dec key c.list ≡ none = sym (v.agrees key) ∙ h in
      (missing, lookup-view_miss dec key c.list missing)

  -- A cache with whole links, whose pairs are `l` and whose limit is `m`.
  pub record Holds (m : ℕ) (l : List (K × D)) (c : LruCache K D) : Type 0 where
    pub linked : IsLinked dec sizefn c
    pub viewed : view c ≡ l
    pub limit : c.max_size ≡ m

  -- `_remove` of a key that is there.
  pub remove_iter-Holds :
      (c : LruCache K D) (key : K) {a : ℕ}
      → lookup dec key c.index ≡ some a
      → IsLinked dec sizefn c
      → (c' : LruCache K D) × (remove_iter dec sizefn key c ≡ some c')
        × Holds c.max_size (erase dec key (view c)) c'
  unfolding remove_iter sub_ulong
  remove_iter-Holds c key {a} h v =
      let (n, e, f, _, _) = reach c key {a = a} h v in
      let size : total sizefn (unlink a c.list) + sizefn n.second ≡ total sizefn c.list =
        total-unlink sizefn a c.list e in
      (
        record c {
          curr_size = (c.curr_size + ulong - sizefn n.second) % ulong;
          list = unlink a c.list;
          index = erase dec key c.index;
        },
        rw (h, remove_iter, e),
        record {
          linked = record {
            below = Below-unlink c.next_addr a c.list v.below;
            distinct = Distinct-unlink dec a c.list v.distinct;
            agrees = λ k. ground (
              arith,
              v.agrees k,
              lookup-erase dec key k c.index,
              addr_of-unlink dec a k c.list e v.distinct,
            );
            sized = omega (arith, v.sized, v.word);
            word = omega (arith, v.word);
          };
          viewed = view-unlink dec a c.list e v.distinct ∙ ap (λ k. erase dec k (view c)) f;
          limit = refl;
        },
      )

  -- The cache with the node of a key in front.
  pub front-Holds :
      (c : LruCache K D) (key : K) {a : ℕ}
      → lookup dec key c.index ≡ some a
      → IsLinked dec sizefn c
      → (n : Node K D) × (deref a c.list ≡ some n)
        × (n.addr ≡ a)
        × (lookup dec key (view c) ≡ some n.second)
        × Holds c.max_size (promote dec key (view c)) (record c { list = n ∷ unlink a c.list })
  unfolding promote
  front-Holds c key {a} hit v =
      let (n, e, f, g, found) = reach c key {a = a} hit v in
      (
        n,
        e,
        g,
        found,
        record {
          linked = front-IsLinked c a e v;
          viewed = ground (arith, found, f, view-unlink dec a c.list e v.distinct);
          limit = refl;
        },
      )

  -- `_touch` moves the pair of the key to the front, and returns the iterator of the key.
  pub touch_iter-Holds :
      (c : LruCache K D) (key : K)
      → IsLinked dec sizefn c
      → (c' : LruCache K D) × (touch_iter dec key c ≡ some (c', lookup dec key c.index))
        × Holds c.max_size (promote dec key (view c)) c'
        × (c'.index ≡ c.index)
        × (c'.curr_size ≡ c.curr_size)
  unfolding touch_iter splice_front promote
  touch_iter-Holds c key v = elim (Option-cases (lookup dec key c.index)) [
    | inl miss ↦ (
      c,
      ground arith,
      record { linked = v; viewed = ground (arith, absent c key miss v); limit = refl },
      refl,
      refl,
    )
    | inr (a, hit) ↦
        let (n, e, _, _, holds) = front-Holds c key {a = a} hit v in
        (record c { list = n ∷ unlink a c.list }, ground (arith, e), holds, refl, refl)
  ]
