-- ===== src/Query/Resolve.antt =====
-- The constructor of `Query` in query.cpp that answers a query: permalinks, ids, `prev()` and `next()`, and the
-- predicates that it rewrites for XPath.
use vaedb.Common.{
  ℕ, zero, suc, Bool, true, false, Option, none, some, List, [], ◌∷◌, ◌++◌, Bytes, codes, length,
  take, drop, not, is_empty, Bytes-discrete, ◌==◌, if◌then◌else◌,
}
use vaedb.Common.Int.{ℤ}
use vaedb.Common.Map.{lookup}
use vaedb.Common.Outcome.{Outcome, done, thrown, undefined, query_error, ◌>>=◌}
use vaedb.Context.{get_node_name}
use vaedb.Query.{Source, Query, result, get_size, get_node, find_node, run_query}
use vaedb.Response.Filter.{to_lower}

-- pcrecpp, boost and the C library. A call of `RE::FullMatch` gives the groups that it stores, and one of
-- `RE::Replace` the new text; `none` is no match.
pub record Patterns : Type 0 where
  pub full_match1 : Bytes → Bytes → Option Bytes
  pub full_match2 : Bytes → Bytes → Option (Bytes × Bytes)
  pub replace : Bytes → Bytes → Bytes → Option Bytes
  pub split : Bytes → Bytes → List Bytes
  pub join : List Bytes → Bytes → Bytes
  pub atoi : Bytes → ℤ

-- `strstr(s, t) != NULL`
unfoldable pub starts_with : Bytes → Bytes → Bool
starts_with [] hay = true
starts_with (d ∷ needle) [] = false
starts_with (d ∷ needle) (c ∷ hay) = if c == d then starts_with needle hay else false

unfoldable pub strstr : Bytes → Bytes → Bool
strstr [] needle = starts_with needle []
strstr (c ∷ hay) needle = if starts_with needle (c ∷ hay) then true else strstr hay needle

-- `!strcasecmp(s, t)`
unfoldable pub same_caseless : Bytes → Bytes → Bool
same_caseless [] [] = true
same_caseless [] (d ∷ t) = false
same_caseless (c ∷ s) [] = false
same_caseless (c ∷ s) (d ∷ t) = if to_lower c == to_lower d then same_caseless s t else false

-- Where a permalink leads: nowhere, to a node, or to the rest of the query under the context behind
-- `_private`, which may be NULL.
pub data Resolution : Type 0 where
  missing : Resolution
  whole : ℕ → Resolution
  under : Option ℕ → Bytes → Resolution

-- The five replacements of the loop over the parts, in order.
abbrev pub rewrites : List (Bytes × Bytes)
rewrites =
    (codes "/([0-9]+)", codes "[@id='\\1']")
    ∷ (codes "\\[([_a-z])([a-z0-9_/]+)([^(a-z0-9_/])", codes "[\\1\\2/text()\\3")
    ∷ (codes " (or|and) ([_a-z])([a-z0-9_/]+)([^(a-z0-9_/])", codes " \\1 \\2\\3/text()\\4")
    ∷ (codes "([^@])([_a-z])([0-9a-z_/]+) (or|and) ", codes "\\1\\2\\3/text() \\4 ")
    ∷ (codes "([^@])([_a-z])([0-9a-z_/]+)\\]", codes "\\1\\2\\3/text()]")
    ∷ []

module _ (patterns : Patterns) where
  open patterns use {full_match1, full_match2, replace, split, join, atoi}

  -- `while (RE.Replace(…)) { }` with `fuel` rounds at most; a loop that does not end is undefined.
  unfoldable pub replace_while : ℕ → Bytes → Bytes → Bytes → Outcome Bytes
  replace_while zero pattern rewrite s = undefined
  replace_while (suc fuel) pattern rewrite s = elim (replace pattern rewrite s) [
    | none ↦ done s
    | some t ↦ replace_while fuel pattern rewrite t
  ]

  unfoldable pub rewrite_part : ℕ → List (Bytes × Bytes) → Bytes → Outcome Bytes
  rewrite_part fuel [] s = done s
  rewrite_part fuel ((pattern, rewrite) ∷ rest) s =
      replace_while fuel pattern rewrite s >>= rewrite_part fuel rest

  unfoldable pub checked_part : ℕ → Bytes → Outcome Bytes
  checked_part fuel s = rewrite_part fuel rewrites s >>= λ t.
      if strstr t (codes "//")
      then thrown (query_error (codes "Double-slashes are not supported in Vae queries."))
      else done t

  -- The parts outside of the quotes are those at even places.
  unfoldable pub rewrite_parts : ℕ → Bool → List Bytes → Outcome (List Bytes)
  rewrite_parts fuel even [] = done []
  rewrite_parts fuel even (s ∷ rest) = (if even then checked_part fuel s else done s) >>= λ t.
      rewrite_parts fuel (not even) rest >>= λ later. done (t ∷ later)

  unfoldable pub rewrite_predicates : ℕ → Bytes → Outcome Bytes
  rewrite_predicates fuel query =
      rewrite_parts fuel true (split query (codes "'")) >>= λ parts. done (join parts (codes "'"))

  -- `[@id!='']` at the first part; `queryParts[0]` of no parts is undefined.
  unfoldable pub mark_first : Bytes → List Bytes → Outcome Bytes
  mark_first query [] = undefined
  mark_first query (first ∷ rest) =
      if strstr first (codes ".")
      then done query
      else done (join ((first ++ codes "[@id!='']") ∷ rest) (codes "/"))

  unfoldable pub mark_id : Bytes → Outcome Bytes
  mark_id query =
      let marked = mark_first query (split query (codes "/")) in
      if strstr query (codes "/")
      then (if strstr query (codes "[") then done query else marked)
      else done query

  module _ (source : Source) where
    open source use {permalinks, memory, contexts}

    unfoldable pub private_of : ℕ → Option ℕ
    private_of n = (memory n).private

    unfoldable pub prefix_at : List Bytes → ℕ → Option ℕ
    prefix_at parts i = lookup Bytes-discrete (join (take i parts) (codes "/")) permalinks

    -- What a prefix of `i` parts that is known leads to.
    unfoldable pub resolved : List Bytes → ℕ → ℕ → Resolution
    resolved parts i node =
        if i == length parts
        then whole node
        else under (private_of node) (join (drop i parts) (codes "/"))

    -- The loop from `i` down to 0.
    unfoldable pub permalink_loop : List Bytes → ℕ → Resolution
    permalink_loop parts zero = missing
    permalink_loop parts (suc i) = elim (prefix_at parts (suc i)) [
      | none ↦ permalink_loop parts i
      | some node ↦ resolved parts (suc i) node
    ]

    unfoldable pub resolve_permalink : Bytes → Resolution
    resolve_permalink permalink =
        let parts = split permalink (codes "/") in permalink_loop parts (length parts)

    -- `prev()` or `next()`: the axis with the name of the context's node.
    unfoldable pub sibling : Bytes → Bytes → Bytes → Option ℕ → Bytes → Outcome Bytes
    sibling call axis message context query =
        let named : Option Bytes = elim context [
          | none ↦ none
          | some c ↦ get_node_name memory (contexts c)
        ] in
        let replaced : Outcome Bytes = elim named [
          | none ↦ thrown (query_error message)
          | some name ↦ done (axis ++ (name ++ codes "[1]"))
        ] in
        if same_caseless call query then replaced else done query

    -- From `prev()` to the end, with `q` for the messages.
    unfoldable pub run_rewritten : ℕ → Bytes → Option ℕ → Bytes → Outcome Query
    run_rewritten fuel q context query =
        sibling (codes "prev()") (codes "preceding-sibling::")
          (codes "You cannot use PREV() outside of a context.") context query
        >>= sibling (codes "next()") (codes "following-sibling::")
            (codes "You cannot use NEXT() outside of a context.") context
        >>= rewrite_predicates fuel
        >>= mark_id
        >>= λ t. run_query source context t q

    -- An id with a rest goes on under its node's context.
    unfoldable pub under_id : ℕ → Bytes → Query → Bytes → Outcome Query
    under_id fuel q found rest = get_size found >>= λ size.
        let below : Outcome Query =
          get_node found 0 >>= λ n. run_rewritten fuel q (private_of n) (drop 1 rest) in
        if size == 0 then done found else (if is_empty rest then done found else below)

    unfoldable pub run_id : ℕ → Bytes → Option ℕ → Bytes → Outcome Query
    run_id fuel q context query = elim (full_match2 (codes "([0-9]+)(/.*|)") query) [
      | none ↦ run_rewritten fuel q context query
      | some (id, rest) ↦ under_id fuel q (find_node source (atoi id)) rest
    ]

    unfoldable pub run_permalink : ℕ → Bytes → Option ℕ → Bytes → Outcome Query
    run_permalink fuel q context query = elim (full_match1 (codes "permalink/(.*)") query) [
      | none ↦ run_id fuel q context query
      | some permalink ↦ elim (resolve_permalink permalink) [
        | missing ↦ done (result none)
        | whole node ↦ done (result (some node))
        | under context' rest ↦ run_id fuel q context' rest
      ]
    ]

    -- `Query(site, context, q)`: a slash in front drops the context.
    unfoldable pub new_query : ℕ → Option ℕ → Bytes → Outcome Query
    new_query fuel context q = elim (replace (codes "^/") [] q) [
      | none ↦ run_permalink fuel q context q
      | some query ↦ run_permalink fuel q none query
    ]
