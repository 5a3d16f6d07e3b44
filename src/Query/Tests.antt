-- ===== src/Query/Tests.antt =====
-- Runs of query.cpp.
use vaedb.Common.{
  ℕ, sym, ap, ◌∙◌, ◌<◌, ◌≤◌, ◌≡◌, refl, none, some, List, [], ◌∷◌, Bytes, codes, arith, ◌⊎◌,
  Bytes-discrete, ℕ_discrete, is_empty, inl, inr, eqb, Bool-cases, Option-cases, true, ◌==◌, ◌&&◌,
  ◌++◌,
}
use vaedb.Common.Int.{ℤ_discrete}
use vaedb.Common.Map.{lookup}
use vaedb.Common.Outcome.{done}
use vaedb.Response.Filter.{to_lower}
use vaedb.Context.{get_node_name}
use vaedb.Query.{
  Query, get_size, get_node, node_at, result, same_node, find_node, without_root, run_raw_query,
  run_query,
}
use vaedb.Query.Resolve.{
  starts_with, strstr, same_caseless, replace_while, rewrite_part, checked_part, rewrite_parts,
  rewrite_predicates, mark_first, mark_id, private_of, prefix_at, resolved, permalink_loop,
  resolve_permalink, sibling, run_rewritten, under_id, run_id, run_permalink, new_query,
}
use vaedb.Query.Ready.{IsReady, new_query-IsReady}
use vaedb.Query.Permalinks.{IsUnknown, answer_at, new_query-longest}
use vaedb.Query.Replacing.{PcreLaws, expand}
use vaedb.Query.Rewriting.{Settles, rewrite_predicates-Settles}
use vaedb.Query.Quotes.{Quoted, rewrite_predicates-Quoted}
use vaedb.Query.Samples.{
  sample_patterns, sample_source, replace_id, digits, behind, is_digit, first_of,
}

abbrev two_nodes : Query
two_nodes = record { size = some 2; xpath_obj = some (some (3 ∷ 6 ∷ [])) }

title_run :
    new_query sample_patterns sample_source 3 none (codes "permalink/news/title") ≡ done two_nodes
unfolding lookup eqb Bytes-discrete Bool-cases ℤ_discrete ℕ_discrete is_empty to_lower get_size
    get_node node_at result same_node find_node without_root run_raw_query run_query starts_with
    strstr same_caseless replace_while rewrite_part checked_part rewrite_parts rewrite_predicates
    mark_first mark_id private_of prefix_at resolved permalink_loop resolve_permalink sibling
    run_rewritten under_id run_id run_permalink new_query get_node_name answer_at
title_run = refl

id_run : new_query sample_patterns sample_source 3 none (codes "/12/title") ≡ done two_nodes
unfolding lookup eqb Bytes-discrete Bool-cases ℤ_discrete ℕ_discrete is_empty to_lower get_size
    get_node node_at result same_node find_node without_root run_raw_query run_query starts_with
    strstr same_caseless replace_while rewrite_part checked_part rewrite_parts rewrite_predicates
    mark_first mark_id private_of prefix_at resolved permalink_loop resolve_permalink sibling
    run_rewritten under_id run_id run_permalink new_query get_node_name answer_at
id_run = refl

rewriting_run :
    rewrite_predicates sample_patterns 3 (codes "news/12[a='b//c']")
    ≡ done (codes "news[@id='12'][a='b//c']")
unfolding lookup eqb Bytes-discrete Bool-cases ℤ_discrete ℕ_discrete is_empty to_lower get_size
    get_node node_at result same_node find_node without_root run_raw_query run_query starts_with
    strstr same_caseless replace_while rewrite_part checked_part rewrite_parts rewrite_predicates
    mark_first mark_id private_of prefix_at resolved permalink_loop resolve_permalink sibling
    run_rewritten under_id run_id run_permalink new_query get_node_name answer_at
rewriting_run = refl

new_query-IsReady_example : IsReady two_nodes
new_query-IsReady_example =
    new_query-IsReady sample_patterns sample_source 3 none (codes "permalink/news/title") two_nodes
      title_run

abbrev news_parts : List Bytes
news_parts = codes "news" ∷ codes "title" ∷ []

new_query-longest_example :
    (IsUnknown sample_patterns sample_source news_parts 0 2
      × (new_query sample_patterns sample_source 3 none (codes "permalink/news/title")
          ≡ done (result none)))
    ⊎ ((i : ℕ) × (node : ℕ) × (0 < i)
        × (i ≤ 2)
        × (prefix_at sample_patterns sample_source news_parts i ≡ some node)
        × IsUnknown sample_patterns sample_source news_parts i 2
        × (new_query sample_patterns sample_source 3 none (codes "permalink/news/title")
            ≡ answer_at sample_patterns sample_source 3
                (codes "permalink/news/title")
                news_parts
                i
                node))
unfolding eqb starts_with
new_query-longest_example =
    new_query-longest sample_patterns sample_source 3 none (codes "permalink/news/title")
      (codes "news/title") refl refl

rewrite_predicates-Quoted_example :
    (later : List Bytes) × Quoted true
      (sample_patterns.split (codes "news/12[a='b//c']") (codes "'"))
      later
    × (codes "news[@id='12'][a='b//c']" ≡ sample_patterns.join later (codes "'"))
rewrite_predicates-Quoted_example =
    rewrite_predicates-Quoted sample_patterns 3 (codes "news/12[a='b//c']")
      (codes "news[@id='12'][a='b//c']") rewriting_run

digits-behind : (s : Bytes) → digits s ++ behind s ≡ s
digits-behind [] = refl
digits-behind (c ∷ s) = elim (Bool-cases (is_digit c)) [
  | inl e ↦ rw e (ap (λ (l : Bytes). c ∷ l) (digits-behind s))
  | inr e ↦ rw e refl
]

-- A match of "/([0-9]+)" and what takes its place.
replace_id-match :
    (rewrite s t : Bytes)
    → replace_id rewrite s ≡ some t
    → (before id after : Bytes) × (s ≡ before ++ b'/' ∷ (id ++ after))
      × (t ≡ before ++ (expand rewrite (id ∷ []) ++ after))
replace_id-match rewrite [] t h = absurd (cc)
replace_id-match rewrite (c ∷ s) t h = elim (Bool-cases ((c == b'/') && is_digit (first_of s))) [
  | inl e ↦
      let made : expand rewrite (digits s ∷ []) ++ behind s ≡ t = cc (rw e at h) in
      let slash : c ≡ b'/' = ground (arith, e) in
      ([], digits s, behind s, rw (slash, digits-behind s) refl, sym made)
  | inr e ↦ elim (Option-cases (replace_id rewrite s)) [
    | inl none_ ↦ absurd (cc (rw (e, none_) at h))
    | inr (u, some_) ↦
        let made : c ∷ u ≡ t = cc (rw (e, some_) at h) in
        let (before, id, after, is, js) = replace_id-match rewrite s u some_ in
        (
          c ∷ before,
          id,
          after,
          ap (λ (l : Bytes). c ∷ l) is,
          sym made ∙ ap (λ (l : Bytes). c ∷ l) js,
        )
  ]
]

sample_laws : PcreLaws sample_patterns.replace
unfolding eqb
sample_laws = record {
  ids = λ rewrite s t h. replace_id-match rewrite s t h;
  opened = λ rewrite s t h. absurd (cc);
  behind_word = λ rewrite s t h. absurd (cc);
  before_word = λ rewrite s t h. absurd (cc);
  closed = λ rewrite s t h. absurd (cc);
}

rewrite_predicates-Settles_example :
    Settles (λ fuel. rewrite_predicates sample_patterns fuel (codes "news/12[a='b//c']"))
rewrite_predicates-Settles_example =
    rewrite_predicates-Settles sample_patterns sample_laws (codes "news/12[a='b//c']")
