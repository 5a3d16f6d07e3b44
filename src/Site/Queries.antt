-- ===== src/Site/Queries.antt =====
-- `fetch_query` of site.cpp: the queries of a site behind the cache of lru_cache.h.
use mathlib.Core.Option
use vaedb.Common.{
  ℕ, zero, suc, ◌+◌, ◌<◌, ◌≡◌, refl, sym, ap, ◌∙◌, false, Option, none, some, List, [], ◌∷◌, take,
  Option-cases, if_pos, if_neg, arith, inl, inr,
}
use vaedb.Common.Map.{lookup, erase, lookup-erase}
use vaedb.Common.Outcome.{Outcome, done, undefined, ◌>>=◌, done-injective}
use vaedb.LruCache.{LruCache, ulong, deref, fetch, insert}
use vaedb.LruCache.Invariant.{IsValid}
use vaedb.LruCache.Evict.{view}
use vaedb.LruCache.Insert.{insert-Refines}
use vaedb.LruCache.Reads.{fetch-Refines, fit-count}

-- A fault of the cache is undefined behaviour.
abbrev pub sound {ℓ} : {A : Type ℓ} → Option A → Outcome A
sound none = undefined
sound (some a) = done a

-- Every entry counts 1.
abbrev pub one {ℓ} : {A : Type ℓ} → A → ℕ
one a = 1

lookup-take :
    {K D : Type 0} (dec : Discrete K) (k : K) (v : D) (n : ℕ) (l : List (K × D))
    → lookup dec k (take n l) ≡ some v
    → lookup dec k l ≡ some v
unfolding lookup
lookup-take dec k v zero [] h = h
lookup-take dec k v zero (e ∷ l) h = absurd (cc)
lookup-take dec k v (suc n) [] h = h
lookup-take dec k v (suc n) ((j, w) ∷ l) h = ground (arith, lookup-take dec k v n l)

module _ {K Q : Type 0} (dec : Discrete K) (run : K → Outcome Q) where
  -- `run` is the constructor of `Query`, which may throw; a null pointer is `none`.
  unfoldable pub fetch_query : K → LruCache K (Option Q) → Outcome (LruCache K (Option Q) × Q)
  fetch_query key c = sound (fetch dec none key false c) >>= λ (c', p_query). elim p_query [
    | some q ↦ done (c', q)
    | none ↦ run key >>= λ q. sound (insert dec one key (some q) c') >>= λ c''. done (c'', q)
  ]

  -- The cache holds what the queries would find.
  abbrev pub IsCoherent : LruCache K (Option Q) → Type 0
  IsCoherent c =
      (k : K) (p : Option Q)
      → lookup dec k (view c) ≡ some p
      → (q : Q) × (p ≡ some q) × (run k ≡ done q)

  added-IsCoherent :
      (c c' : LruCache K (Option Q)) (key : K) (q : Q) (n : ℕ)
      → IsCoherent c
      → run key ≡ done q
      → view c' ≡ take n ((key, some q) ∷ erase dec key (view c))
      → IsCoherent c'
  unfolding lookup
  added-IsCoherent c c' key q n coherent found e k p h =
      let whole =
        lookup-take dec k p n ((key, some q) ∷ erase dec key (view c))
          (ap (lookup dec k) (sym e) ∙ h) in
      elim (dec key k) [
        | yes same ↦
            let first = sym (if_pos (dec key k) same _ _) ∙ whole in
            let p_ : some q ≡ p = cc in (q, sym p_, ap run (sym same) ∙ found)
        | no other ↦
            let behind = sym (if_neg (dec key k) other _ _) ∙ whole in
            let old : lookup dec k (view c) ≡ some p =
              sym (lookup-erase dec key k (view c) ∙ if_neg (dec key k) other _ _) ∙ behind in
            coherent k p old
      ]

  fetch_query_hit :
      (key : K) (c c1 : LruCache K (Option Q)) (q : Q)
      → fetch dec none key false c ≡ some (c1, some q)
      → fetch_query key c ≡ done (c1, q)
  unfolding fetch_query
  fetch_query_hit key c c1 q f = rw (f, fetch_query) refl

  fetch_query_miss :
      (key : K) (c c1 c2 : LruCache K (Option Q)) (q : Q)
      → fetch dec none key false c ≡ some (c1, none)
      → run key ≡ done q
      → insert dec one key (some q) c1 ≡ some c2
      → fetch_query key c ≡ done (c2, q)
  unfolding fetch_query
  fetch_query_miss key c c1 c2 q f r i = rw (f, fetch_query, r, i) refl

  fetch_untouched :
      (key : K) (c c1 : LruCache K (Option Q)) (p : Option Q)
      → fetch dec none key false c ≡ some (c1, p)
      → c1 ≡ c
  unfolding fetch
  fetch_untouched key c c1 p f = elim (Option-cases (lookup dec key c.index)) [
    | inl e ↦ ground (arith, e)
    | inr (a, e) ↦ elim (Option-cases (deref a c.list)) [
      | inl miss ↦ ground (arith, e, miss)
      | inr (n, hit) ↦ ground (arith, e, hit)
    ]
  ]

  -- What the cache holds after a query: as before if it had it, and otherwise the query in front of
  -- the others, of which the oldest may fall out.
  unfoldable pub after_query : K → Q → LruCache K (Option Q) → List (K × Option Q)
  after_query key q c = elim (lookup dec key (view c)) [
    | none ↦ take c.max_size ((key, some q) ∷ erase dec key (view c))
    | some p ↦ view c
  ]

  -- On a valid cache that holds only what queries found, `fetch_query` answers what the query finds,
  -- whether or not the cache has it, and leaves such a cache. A query that the cache has moves nothing
  -- in it; a new one comes to the front, and the oldest insertions fall out behind `_max_size`.
  pub fetch_query-IsCoherent :
      (key : K) (q : Q) (c : LruCache K (Option Q))
      → c.max_size + 1 < ulong
      → IsValid dec one c
      → IsCoherent c
      → run key ≡ done q
      → (c' : LruCache K (Option Q)) × (fetch_query key c ≡ done (c', q))
        × IsValid dec one c'
        × IsCoherent c'
        × (view c' ≡ after_query key q c)
  unfolding after_query
  fetch_query-IsCoherent key q c w v coherent r =
      let (c1, f, v1, same) = fetch-Refines dec one c none key false v in
      let still : c1 ≡ c = fetch_untouched key c c1 _ f in
      let fetched : fetch dec none key false c
          ≡ some (c, Option.get_or (lookup dec key (view c)) none) =
        f
        ∙ ap (λ (x : LruCache K (Option Q)). some (x, Option.get_or (lookup dec key (view c)) none))
            still in
      elim (Option-cases (lookup dec key (view c))) [
        | inl e ↦
            let (c2, i, v2, viewed, _) = insert-Refines dec one c key (some q) w v in
            let cut = viewed ∙ fit-count c.max_size ((key, some q) ∷ erase dec key (view c)) in
            let missed : fetch dec none key false c ≡ some (c, none) = rw e at fetched in
            (
              c2,
              fetch_query_miss key c c c2 q missed r i,
              v2,
              added-IsCoherent c c2 key q c.max_size coherent r cut,
              rw (e, after_query) cut,
            )
        | inr (p, e) ↦
            let (q', is, found) = coherent key p e in
            let agree : q' ≡ q = done-injective (sym found ∙ r) in
            let hit : fetch dec none key false c ≡ some (c, some q) =
              (rw (e, is) at fetched) ∙ ap (λ (x : Q). some (c, some x)) agree in
            (c, fetch_query_hit key c c q hit, v, coherent, rw (e, after_query) refl)
      ]
