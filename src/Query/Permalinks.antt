-- ===== src/Query/Permalinks.antt =====
-- The loop of query.cpp over the prefixes of a permalink.
use vaedb.Common.{
  ℕ, zero, suc, ◌<◌, ◌≤◌, ◌≡◌, refl, ap, ◌∙◌, Option, none, some, List, [], Bytes, codes, length,
  drop, arith, Bool-cases, Option-cases, inl, inr, ◌⊎◌, ◌==◌, if◌then◌else◌,
}
use vaedb.Common.Outcome.{Outcome, done}
use vaedb.Query.{Source, Query, result}
use vaedb.Query.Resolve.{
  Patterns, Resolution, missing, prefix_at, private_of, resolved, permalink_loop, resolve_permalink,
  run_id, run_permalink, new_query,
}

module _ (patterns : Patterns) (source : Source) where
  open patterns use {full_match1, replace, split, join}

  -- No prefix from more than `i` up to `n` parts is known.
  abbrev pub IsUnknown : List Bytes → ℕ → ℕ → Type 0
  IsUnknown parts i n = (j : ℕ) → i < j → j ≤ n → prefix_at patterns source parts j ≡ none

  abbrev Longest : List Bytes → ℕ → Resolution → Type 0
  Longest parts n r =
      (IsUnknown parts 0 n × (r ≡ missing))
      ⊎ ((i : ℕ) × (node : ℕ) × (0 < i)
          × (i ≤ n)
          × (prefix_at patterns source parts i ≡ some node)
          × IsUnknown parts i n
          × (r ≡ resolved patterns source parts i node))

  further :
      (parts : List Bytes) (i n : ℕ)
      → prefix_at patterns source parts (suc n) ≡ none
      → IsUnknown parts i n
      → IsUnknown parts i (suc n)
  further parts i n e h j above below = elim (Bool-cases (j == suc n)) [
    | inl same ↦
        let there : j ≡ suc n = ground (arith, same) in
        ap (prefix_at patterns source parts) there ∙ e
    | inr other ↦ h j above (ground (arith, other))
  ]

  permalink_loop-Longest :
      (parts : List Bytes) (n : ℕ) → Longest parts n (permalink_loop patterns source parts n)
  unfolding permalink_loop
  permalink_loop-Longest parts zero =
      inl (λ (j : ℕ) above below. absurd (omega (arith, above, below)), refl)
  permalink_loop-Longest parts (suc n) =
      elim (Option-cases (prefix_at patterns source parts (suc n))) [
        | inl e ↦ elim (permalink_loop-Longest parts n) [
          | inl (unknown, r) ↦ inl (further parts 0 n e unknown, rw (e, permalink_loop) r)
          | inr (i, node, positive, within, found, unknown, r) ↦ inr (
            i,
            node,
            positive,
            omega (arith, within),
            found,
            further parts i n e unknown,
            rw (e, permalink_loop) r,
          )
        ]
        | inr (node, e) ↦ inr (
          suc n,
          node,
          omega arith,
          omega arith,
          e,
          λ (j : ℕ) above below. absurd (omega (arith, above, below)),
          rw (e, permalink_loop) refl,
        )
      ]

  -- What the longest known prefix, of `i` parts, makes of the query.
  unfoldable pub answer_at : ℕ → Bytes → List Bytes → ℕ → ℕ → Outcome Query
  answer_at fuel q parts i node =
      if i == length parts
      then done (result (some node))
      else run_id patterns source fuel q (private_of patterns source node)
          (join (drop i parts) (codes "/"))

  answer_resolved :
      (fuel : ℕ) (context : Option ℕ) (q t permalink : Bytes) (i node : ℕ)
      → full_match1 (codes "permalink/(.*)") t ≡ some permalink
      → resolve_permalink patterns source permalink
        ≡ resolved patterns source (split permalink (codes "/")) i node
      → run_permalink patterns source fuel q context t
        ≡ answer_at fuel q (split permalink (codes "/")) i node
  unfolding run_permalink resolved answer_at
  answer_resolved fuel context q t permalink i node e r =
      elim (Bool-cases (i == length (split permalink (codes "/")))) [
        | inl same ↦ rw (e, run_permalink, r, same) refl
        | inr other ↦ rw (e, run_permalink, r, other) refl
      ]

  -- A permalink is resolved by the longest prefix of its parts that the site knows. If no prefix is known
  -- the query finds nothing; if all the parts together are known it finds that node; otherwise it goes on
  -- with the other parts under the context of the prefix's node. The query given has no slash in front,
  -- and the expression of a permalink matches it.
  pub new_query-longest :
      (fuel : ℕ) (context : Option ℕ) (q permalink : Bytes)
      → replace (codes "^/") [] q ≡ none
      → full_match1 (codes "permalink/(.*)") q ≡ some permalink
      → let parts = split permalink (codes "/") in
        (IsUnknown parts 0 (length parts)
          × (new_query patterns source fuel context q ≡ done (result none)))
        ⊎ ((i : ℕ) × (node : ℕ) × (0 < i)
            × (i ≤ length parts)
            × (prefix_at patterns source parts i ≡ some node)
            × IsUnknown parts i (length parts)
            × (new_query patterns source fuel context q ≡ answer_at fuel q parts i node))
  unfolding new_query run_permalink resolve_permalink
  new_query-longest fuel context q permalink no_slash matched =
      let parts = split permalink (codes "/") in
      elim (permalink_loop-Longest parts (length parts)) [
        | inl (unknown, r) ↦ inl (unknown, rw (no_slash, new_query, matched, run_permalink, r) refl)
        | inr (i, node, positive, within, found, unknown, r) ↦ inr (
          i,
          node,
          positive,
          within,
          found,
          unknown,
          rw (no_slash, new_query) (answer_resolved fuel context q q permalink i node matched r),
        )
      ]
