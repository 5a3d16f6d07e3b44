-- ===== src/LruCache/Evict.antt =====
-- The abstract view of an `LRUCache`, the pairs from the most to the least recent, and the round of
-- the loop in `insert` that drops the last of them.
use vaedb.Common.{
  ℕ, ◌+◌, ◌-◌, ◌≤◌, ◌<◌, ◌≡◌, refl, none, some, List, [], ◌∷◌, ◌++◌, map, arith, length,
  if◌then◌else◌, leb,
}
use vaedb.Common.Map.{lookup, erase}
use vaedb.LruCache.{Node, LruCache, deref, unlink, last}
use vaedb.LruCache.Invariant.{total, addr_of, Distinct, addr_of-deref, deref-addr_of}

module _ {K D : Type 0} where
  abbrev pub pair : Node K D → K × D
  pair n = (n.first, n.second)

  abbrev pub view : LruCache K D → List (K × D)
  view c = map pair c.list

  unfoldable pub weight : (D → ℕ) → List (K × D) → ℕ
  weight sizefn [] = 0
  weight sizefn ((k, d) ∷ l) = sizefn d + weight sizefn l

  -- The longest prefix that weighs at most `m`.
  unfoldable pub fit : (D → ℕ) → ℕ → List (K × D) → List (K × D)
  fit sizefn m [] = []
  fit sizefn m ((k, d) ∷ l) = if leb (sizefn d) m then (k, d) ∷ fit sizefn (m - sizefn d) l else []

  pub weight-view :
      (sizefn : D → ℕ) (l : List (Node K D)) → weight sizefn (map pair l) ≡ total sizefn l
  unfolding weight total
  weight-view sizefn [] = refl
  weight-view sizefn (n ∷ ns) = omega (arith, weight-view sizefn ns)

  pub fit_whole :
      (sizefn : D → ℕ) (m : ℕ) (l : List (K × D)) → weight sizefn l ≤ m → fit sizefn m l ≡ l
  unfolding fit weight
  fit_whole sizefn m [] h = refl
  fit_whole sizefn m ((k, d) ∷ l) h = ground (arith, fit_whole sizefn (m - sizefn d) l)

  -- While the whole weighs too much, its last pair is of no account.
  pub fit_snoc :
      (sizefn : D → ℕ) (m : ℕ) (l : List (K × D)) (e : K × D)
      → m < weight sizefn (l ++ e ∷ [])
      → fit sizefn m (l ++ e ∷ []) ≡ fit sizefn m l
  unfolding fit weight
  fit_snoc sizefn m [] e h = ground arith
  fit_snoc sizefn m ((k, d) ∷ l) e h = ground (arith, fit_snoc sizefn (m - sizefn d) l e)

  -- What a fitted list weighs.
  pub weight-fit : (sizefn : D → ℕ) (m : ℕ) (l : List (K × D)) → weight sizefn (fit sizefn m l) ≤ m
  unfolding fit weight
  weight-fit sizefn m [] = omega arith
  weight-fit sizefn m ((k, d) ∷ l) = ground (arith, weight-fit sizefn (m - sizefn d) l)

  pub last_exists : (l : List (Node K D)) → 0 < length l → (n : Node K D) × (last l ≡ some n)
  unfolding last
  last_exists [] h = absurd (omega arith)
  last_exists (m ∷ []) h = (m, refl)
  last_exists (m ∷ p ∷ ms) h = last_exists (p ∷ ms) (omega arith)

  pub length-unlink :
      (a : ℕ) (l : List (Node K D)) {n : Node K D}
      → deref a l ≡ some n
      → length (unlink a l) + 1 ≡ length l
  unfolding deref unlink
  length-unlink a [] h = cc
  length-unlink a (m ∷ ms) {n} h = ground (arith, length-unlink a ms {n = n})

module _ {K D : Type 0} (dec : Discrete K) where
  pub lookup-view_hit :
      (k : K) (a : ℕ) (l : List (Node K D)) {n : Node K D}
      → addr_of dec k l ≡ some a
      → deref a l ≡ some n
      → Distinct dec l
      → lookup dec k (map pair l) ≡ some n.second
  unfolding addr_of deref lookup
  lookup-view_hit k a [] h e d = cc
  lookup-view_hit k a (m ∷ ms) {n} h e d =
      ground (arith, lookup-view_hit k a ms {n = n}, deref-addr_of dec k ms {a = a})

  pub lookup-view_miss :
      (k : K) (l : List (Node K D)) → addr_of dec k l ≡ none → lookup dec k (map pair l) ≡ none
  unfolding addr_of lookup
  lookup-view_miss k [] h = refl
  lookup-view_miss k (m ∷ ms) h = ground (arith, lookup-view_miss k ms)

  pub erase-view_absent :
      (k : K) (l : List (Node K D)) → addr_of dec k l ≡ none → erase dec k (map pair l) ≡ map pair l
  unfolding addr_of erase
  erase-view_absent k [] h = refl
  erase-view_absent k (m ∷ ms) h = ground (arith, erase-view_absent k ms)

  pub view-unlink :
      (a : ℕ) (l : List (Node K D)) {n : Node K D}
      → deref a l ≡ some n
      → Distinct dec l
      → map pair (unlink a l) ≡ erase dec n.first (map pair l)
  unfolding deref unlink erase
  view-unlink a [] h d = cc
  view-unlink a (m ∷ ms) {n} h d = ground (
    arith,
    view-unlink a ms {n = n},
    erase-view_absent n.first ms,
    addr_of-deref dec a ms {n = n},
  )

  -- The last node is reached by its own address, and the list without it is the rest.
  pub last-deref :
      (l : List (Node K D)) {n : Node K D}
      → last l ≡ some n
      → Distinct dec l
      → (deref n.addr l ≡ some n) × (l ≡ unlink n.addr l ++ n ∷ [])
  unfolding last deref unlink
  last-deref [] h d = cc
  last-deref (m ∷ []) {n} h d = ground arith
  last-deref (m ∷ p ∷ ms) {n} h d = ground (arith, last-deref (p ∷ ms) {n = n})
