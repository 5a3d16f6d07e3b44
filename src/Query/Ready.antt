-- ===== src/Query/Ready.antt =====
-- What a caller of query.cpp may rely on once the constructor has returned.
use vaedb.Common.{
  ℕ, zero, suc, ◌<◌, ◌≡◌, refl, Bool, true, false, Option, none, some, List, [], ◌∷◌, Bytes, codes,
  length, get_elem?, arith, Bool-cases, Option-cases, inl, inr, ◌==◌, if◌then◌else◌, is_empty, drop,
  subst,
}
use vaedb.Common.Outcome.{Outcome, done, >>=-eq-done, done-injective}
use vaedb.Query.{
  XPathResult, no_context, failed, nodeset, other_type, Source, Query, get_size, get_node, node_at,
  result, count, same_node, find_node, without_root, run_raw_query, run_query,
}
use vaedb.Query.Resolve.{
  Patterns, Resolution, missing, whole, under, resolve_permalink, run_rewritten, under_id, run_id,
  run_permalink, new_query,
}

-- The size is set, and there is a node at each place below it.
abbrev pub IsReady : Query → Type 0
IsReady query =
    (n : ℕ) × (get_size query ≡ done n) × ((i : ℕ) → i < n → (m : ℕ) × (get_node query i ≡ done m))

get_elem?-lt : {A : Type 0} (l : List A) (i : ℕ) → i < length l → (a : A) × (get_elem? l i ≡ some a)
get_elem?-lt [] i h = absurd (omega arith)
get_elem?-lt (x ∷ l) zero h = (x, refl)
get_elem?-lt (x ∷ l) (suc i) h = get_elem?-lt l i (omega arith)

node_at-lt :
    (found : Option (List ℕ)) (i : ℕ) → i < count found → (m : ℕ) × (node_at found i ≡ done m)
unfolding node_at
node_at-lt none i h = absurd (omega arith)
node_at-lt (some nodes) i h = let (m, e) = get_elem?-lt nodes i h in (m, rw (e, node_at) refl)

counted-IsReady :
    (found : Option (List ℕ))
    → IsReady (record { size = some (count found); xpath_obj = some found })
unfolding get_size get_node
counted-IsReady found = (count found, refl, node_at-lt found)

pub result-IsReady : (n : Option ℕ) → IsReady (result n)
unfolding result
result-IsReady none = counted-IsReady (some [])
result-IsReady (some n) = counted-IsReady (some (n ∷ []))

module _ (source : Source) where
  open source use {root_node, evaluate, contexts}

  unless_root-IsReady :
      (b : Bool) (query : Query) → IsReady query → IsReady (if b then result none else query)
  unless_root-IsReady true query h = result-IsReady none
  unless_root-IsReady false query h = h

  without_root-IsReady :
      (found : Option (List ℕ)) (query : Query)
      → without_root source found ≡ done query
      → IsReady query
  unfolding without_root
  without_root-IsReady found query h = elim (Bool-cases (count found == 0)) [
    | inl e ↦ subst IsReady (done-injective (rw e at h)) (counted-IsReady found)
    | inr e ↦
        let (n, _, h') =
          >>=-eq-done (get_node (record { size = some (count found); xpath_obj = some found }) 0) _
            (rw e at h) in
        subst IsReady (done-injective h')
          (unless_root-IsReady (same_node n root_node) _ (counted-IsReady found))
  ]

  -- A raw query that returns is ready.
  pub run_raw_query-IsReady :
      (node : Option ℕ) (q shown : Bytes) (query : Query)
      → run_raw_query source node q shown ≡ done query
      → IsReady query
  unfolding run_raw_query
  run_raw_query-IsReady node q shown query h = from (evaluate node q) refl
    where
      from : (r : XPathResult) → evaluate node q ≡ r → IsReady query
      from no_context e = absurd (cc (rw (e, run_raw_query) at h))
      from failed e = absurd (cc (rw (e, run_raw_query) at h))
      from (nodeset found) e = without_root-IsReady found query (rw (e, run_raw_query) at h)
      from other_type e = absurd (cc (rw (e, run_raw_query) at h))

  run_query-IsReady :
      (context : Option ℕ) (q shown : Bytes) (query : Query)
      → run_query source context q shown ≡ done query
      → IsReady query
  unfolding run_query
  run_query-IsReady none q shown query h = run_raw_query-IsReady root_node q shown query h
  run_query-IsReady (some c) q shown query h =
      run_raw_query-IsReady (some (contexts c).node) q shown query h

module _ (patterns : Patterns) (source : Source) where
  open patterns use {full_match1, full_match2, replace, atoi}

  run_rewritten-IsReady :
      (fuel : ℕ) (q : Bytes) (context : Option ℕ) (t : Bytes) (query : Query)
      → run_rewritten patterns source fuel q context t ≡ done query
      → IsReady query
  unfolding run_rewritten
  run_rewritten-IsReady fuel q context t query h =
      let (u, _, ran) = >>=-eq-done _ (λ u. run_query source context u q) h in
      run_query-IsReady source context u q query ran

  under_id-IsReady :
      (fuel : ℕ) (q : Bytes) (found : Query) (rest : Bytes) (query : Query)
      → IsReady found
      → under_id patterns source fuel q found rest ≡ done query
      → IsReady query
  unfolding under_id
  under_id-IsReady fuel q found rest query ready h =
      let (size, _, h1) = >>=-eq-done (get_size found) _ h in
      elim (Bool-cases (size == 0)) [
        | inl e ↦ subst IsReady (done-injective (rw e at h1)) ready
        | inr e ↦ elim (Bool-cases (is_empty rest)) [
          | inl e' ↦ subst IsReady (done-injective (rw (e, e') at h1)) ready
          | inr e' ↦
              let (n, _, h2) = >>=-eq-done (get_node found 0) _ (rw (e, e') at h1) in
              run_rewritten-IsReady fuel q _ (drop 1 rest) query h2
        ]
      ]

  run_id-IsReady :
      (fuel : ℕ) (q : Bytes) (context : Option ℕ) (t : Bytes) (query : Query)
      → run_id patterns source fuel q context t ≡ done query
      → IsReady query
  unfolding run_id find_node
  run_id-IsReady fuel q context t query h =
      elim (Option-cases (full_match2 (codes "([0-9]+)(/.*|)") t)) [
        | inl e ↦ run_rewritten-IsReady fuel q context t query (rw (e, run_id) at h)
        | inr ((id, rest), e) ↦
            under_id-IsReady fuel q (find_node source (atoi id)) rest query (result-IsReady _)
              (rw (e, run_id) at h)
      ]

  run_permalink-IsReady :
      (fuel : ℕ) (q : Bytes) (context : Option ℕ) (t : Bytes) (query : Query)
      → run_permalink patterns source fuel q context t ≡ done query
      → IsReady query
  unfolding run_permalink
  run_permalink-IsReady fuel q context t query h =
      elim (Option-cases (full_match1 (codes "permalink/(.*)") t)) [
        | inl e ↦ run_id-IsReady fuel q context t query (rw (e, run_permalink) at h)
        | inr (permalink, e) ↦
            resolved permalink (resolve_permalink patterns source permalink) refl
              (rw (e, run_permalink) at h)
      ]
    where
      resolved :
          (permalink : Bytes) (r : Resolution)
          → resolve_permalink patterns source permalink ≡ r
          → (elim r as (λ _. Outcome Query) [
            | missing ↦ done (result none)
            | whole node ↦ done (result (some node))
            | under context' rest ↦ run_id patterns source fuel q context' rest
          ])
            ≡ done query
          → IsReady query
      resolved permalink missing e h = subst IsReady (done-injective h) (result-IsReady none)
      resolved permalink (whole node) e h =
          subst IsReady (done-injective h) (result-IsReady (some node))
      resolved permalink (under context' rest) e h = run_id-IsReady fuel q context' rest query h

  -- A query whose constructor returns, by whichever of its paths, has its size set, and it has a node at
  -- each place below the size.
  pub new_query-IsReady :
      (fuel : ℕ) (context : Option ℕ) (q : Bytes) (query : Query)
      → new_query patterns source fuel context q ≡ done query
      → IsReady query
  unfolding new_query
  new_query-IsReady fuel context q query h = elim (Option-cases (replace (codes "^/") [] q)) [
    | inl e ↦ run_permalink-IsReady fuel q context q query (rw (e, new_query) at h)
    | inr (t, e) ↦ run_permalink-IsReady fuel q none t query (rw (e, new_query) at h)
  ]
