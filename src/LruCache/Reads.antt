-- ===== src/LruCache/Reads.antt =====
-- The lookups of lru_cache.h, `touch` and `remove`, and the counting cache.
use mathlib.Core.Option
use vaedb.Common.{
  ℕ, zero, suc, ◌-◌, ◌≡◌, refl, sym, ap, ◌∙◌, Bool, true, false, none, some, List, [], ◌∷◌, arith,
  take, Option-cases, inl, inr, ◌↔◌, ◌≢◌, if◌then◌else◌,
}
use vaedb.Common.Map.{lookup, erase}
use vaedb.LruCache.{
  Node, LruCache, deref, unlink, splice_front, exists, touch_iter, touch, fetch_ptr, fetch,
  fetch_into, remove,
}
use vaedb.LruCache.Invariant.{IsValid}
use vaedb.LruCache.Evict.{view, weight, fit, erase-view_absent}
use vaedb.LruCache.Refine.{
  Holds, promote, front-Holds, reach, absent, remove_iter-Holds, touch_iter-Holds,
}
use vaedb.LruCache.Shrink.{weighs}
use vaedb.LruCache.Insert.{weight-erase-le}

-- With every size 1 the longest prefix that fits is the first `m` pairs.
pub fit-count : {K D : Type 0} (m : ℕ) (l : List (K × D)) → fit (λ _. 1) m l ≡ take m l
unfolding fit
fit-count zero [] = refl
fit-count (suc m) [] = refl
fit-count zero ((k, d) ∷ l) = refl
fit-count (suc m) ((k, d) ∷ l) =
    let rest : fit (λ _. 1) (suc m - 1) l ≡ take m l =
      ap (λ n. fit (λ _. 1) n l) (omega arith) ∙ fit-count m l in
    ground (arith, rest)

module _ {K D : Type 0} (dec : Discrete K) where
  -- What `fetch` leaves: the pairs as they were, or the key's pair in front if it was touched.
  abbrev pub after_fetch : K → Bool → List (K × D) → List (K × D)
  after_fetch key touched l = if touched then promote dec key l else l

module _ {K D : Type 0} (dec : Discrete K) (sizefn : D → ℕ) where
  promote_missed : (key : K) (l : List (K × D)) → lookup dec key l ≡ none → l ≡ promote dec key l
  unfolding promote
  promote_missed key l h = ground arith

  touched-IsValid :
      (c c' : LruCache K D) (l : List (K × D))
      → Holds dec sizefn c.max_size l c'
      → c'.curr_size ≡ c.curr_size
      → IsValid dec sizefn c
      → IsValid dec sizefn c'
  touched-IsValid c c' l h e v = record {
    linked = h.linked;
    bounded = omega (arith, h.limit, v.bounded);
  }

  -- `touch` moves the key's pair to the front, and changes nothing if the key is not there.
  pub touch-Refines :
      (c : LruCache K D) (key : K)
      → IsValid dec sizefn c
      → (c' : LruCache K D) × (touch dec key c ≡ some c')
        × IsValid dec sizefn c'
        × (view c' ≡ promote dec key (view c))
  unfolding touch
  touch-Refines c key v =
      let (c', done, h, _, same) = touch_iter-Holds dec sizefn c key v.linked in
      (c', rw done, touched-IsValid c c' (promote dec key (view c)) h same v, h.viewed)

  -- `fetch` reads the key's data, `Data()` if there is none, and reorders only if it is told to.
  pub fetch-Refines :
      (c : LruCache K D) (empty : D) (key : K) (touch_data : Bool)
      → IsValid dec sizefn c
      → (c' : LruCache K D) × (fetch dec empty key touch_data c
          ≡ some (c', Option.get_or (lookup dec key (view c)) empty))
        × IsValid dec sizefn c'
        × (view c' ≡ after_fetch dec key touch_data (view c))
  unfolding fetch
  fetch-Refines c empty key false v = elim (Option-cases (lookup dec key c.index)) [
    | inl miss ↦
        let (_, missed) = absent dec sizefn c key miss v.linked in
        (c, ground (arith, missed), v, refl)
    | inr (a, hit) ↦
        let (n, e, _, _, found) = reach dec sizefn c key {a = a} hit v.linked in
        (c, ground (arith, e, found), v, refl)
  ]
  fetch-Refines c empty key true v =
      let (c', done, valid, viewed) = touch-Refines c key v in
      elim (Option-cases (lookup dec key c.index)) [
        | inl miss ↦
            let (_, missed) = absent dec sizefn c key miss v.linked in
            (c, ground (arith, missed), v, promote_missed key (view c) missed)
        | inr (a, hit) ↦
            let (n, e, _, _, found) = reach dec sizefn c key {a = a} hit v.linked in
            (c', ground (arith, e, found, done), valid, viewed)
      ]

  fetch_into_hit :
      (c : LruCache K D) (key : K) (touch_data : Bool) (a : ℕ) (n : Node K D)
      → lookup dec key c.index ≡ some a
      → deref a c.list ≡ some n
      → n.addr ≡ a
      → lookup dec key (view c) ≡ some n.second
      → Holds dec sizefn c.max_size
          (promote dec key (view c))
          (record c { list = n ∷ unlink a c.list })
      → IsValid dec sizefn c
      → (c' : LruCache K D) × (fetch_into dec key touch_data c ≡ some (c', lookup dec key (view c)))
        × IsValid dec sizefn c'
        × (view c' ≡ after_fetch dec key touch_data (view c))
  unfolding fetch_into splice_front deref
  fetch_into_hit c key false a n hit e g found holds v = (c, ground (arith, e), v, refl)
  fetch_into_hit c key true a n hit e g found holds v = (
    record c { list = n ∷ unlink a c.list },
    ground (arith, e),
    touched-IsValid c (record c { list = n ∷ unlink a c.list }) (promote dec key (view c)) holds
        refl v,
    holds.viewed,
  )

  -- `fetch` into a variable fills it in exactly if the key is there, and reorders as `fetch` does.
  pub fetch_into-Refines :
      (c : LruCache K D) (key : K) (touch_data : Bool)
      → IsValid dec sizefn c
      → (c' : LruCache K D) × (fetch_into dec key touch_data c ≡ some (c', lookup dec key (view c)))
        × IsValid dec sizefn c'
        × (view c' ≡ after_fetch dec key touch_data (view c))
  unfolding fetch_into splice_front deref
  fetch_into-Refines c key touch_data v = elim (Option-cases (lookup dec key c.index)) [
    | inl miss ↦
        let (_, missed) = absent dec sizefn c key miss v.linked in
        (c, ground (arith, missed), v, ground (arith, promote_missed key (view c) missed))
    | inr (a, hit) ↦
        let (n, e, g, found, holds) = front-Holds dec sizefn c key {a = a} hit v.linked in
        fetch_into_hit c key touch_data a n hit e g found holds v
  ]

  -- `fetch_ptr` touches the key whatever its parameter `touch` says.
  pub fetch_ptr-Refines :
      (c : LruCache K D) (key : K) (touched : Bool)
      → IsValid dec sizefn c
      → (c' : LruCache K D) × (fetch_ptr dec key touched c ≡ some (c', lookup dec key (view c)))
        × IsValid dec sizefn c'
        × (view c' ≡ promote dec key (view c))
  unfolding fetch_ptr touch touch_iter splice_front deref
  fetch_ptr-Refines c key touched v = elim (Option-cases (lookup dec key c.index)) [
    | inl miss ↦
        let (_, missed) = absent dec sizefn c key miss v.linked in
        (c, ground (arith, missed), v, promote_missed key (view c) missed)
    | inr (a, hit) ↦
        let (n, e, g, found, holds) = front-Holds dec sizefn c key {a = a} hit v.linked in
        (
          record c { list = n ∷ unlink a c.list },
          ground (arith, e, g, found),
          touched-IsValid c (record c { list = n ∷ unlink a c.list }) (promote dec key (view c))
              holds refl v,
          holds.viewed,
        )
  ]

  -- `remove` takes out the key's pair, and leaves the order of the others.
  pub remove-Refines :
      (c : LruCache K D) (key : K)
      → IsValid dec sizefn c
      → (c' : LruCache K D) × (remove dec sizefn key c ≡ some c')
        × IsValid dec sizefn c'
        × (view c' ≡ erase dec key (view c))
  unfolding remove
  remove-Refines c key v = elim (Option-cases (lookup dec key c.index)) [
    | inl miss ↦
        let (gone, _) = absent dec sizefn c key miss v.linked in
        (c, ground arith, v, sym (erase-view_absent dec key c.list gone))
    | inr (a, hit) ↦
        let (c', done, h) = remove_iter-Holds dec sizefn c key {a = a} hit v.linked in
        (
          c',
          ground (arith, done),
          record {
            linked = h.linked;
            bounded = omega (
              arith,
              h.limit,
              v.bounded,
              weighs dec sizefn c v.linked,
              weighs dec sizefn c' h.linked,
              ap (weight sizefn) h.viewed,
              weight-erase-le dec sizefn key (view c),
            );
          },
          h.viewed,
        )
  ]

  -- `exists` says whether the view has the key.
  pub exists-lookup :
      (c : LruCache K D) (key : K)
      → IsValid dec sizefn c
      → (exists dec key c ≡ true) ↔ (lookup dec key (view c) ≢ none)
  unfolding exists
  exists-lookup c key v = elim (Option-cases (lookup dec key c.index)) [
    | inl miss ↦ let (_, missed) = absent dec sizefn c key miss v.linked in ground (arith, missed)
    | inr (a, hit) ↦
        let (n, e, _, _, found) = reach dec sizefn c key {a = a} hit v.linked in
        ground (arith, found)
  ]
