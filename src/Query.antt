-- ===== src/Query.antt =====
-- query.h and the parts of query.cpp that run XPath and read its results.
pub mod Resolve
pub mod Ready
pub mod Permalinks
pub mod Replacing
pub mod Rewriting
pub mod Quotes
pub mod Samples
mod Tests
use vaedb.Common.{
  ℕ, ◌+◌, ◌≡◌, Bool, true, false, Option, none, some, List, [], ◌∷◌, ◌++◌, Bytes, codes, length,
  get_elem?, ◌==◌, if◌then◌else◌,
}
use vaedb.Common.Int.{ℤ, ℤ_discrete}
use vaedb.Common.Map.{lookup}
use vaedb.Common.Outcome.{Outcome, done, thrown, undefined, query_error, internal_error, ◌>>=◌}
use vaedb.Xml.Cells.{Cell, first_text, has_property}
use vaedb.Context.{Context, get_structure_id}

-- What `xmlXPathNewContext` and `xmlXPathEvalExpression` give: no context, NULL, a set of nodes, which may
-- be NULL, or an object of another type.
pub data XPathResult : Type 0 where
  no_context failed : XPathResult
  nodeset : Option (List ℕ) → XPathResult
  other_type : XPathResult

-- What a query reads of its site: the maps, the two roots, which are NULL until they are found, the cells of
-- the document, the contexts behind `_private`, and libxml2's evaluation under a node or NULL.
pub record Source : Type 0 where
  pub permalinks : List (Bytes × ℕ)
  pub nodes : List (ℤ × ℕ)
  pub root_node : Option ℕ
  pub root_design_node : Option ℕ
  pub memory : ℕ → Cell
  pub contexts : ℕ → Context
  pub evaluate : Option ℕ → Bytes → XPathResult

-- `size`, which is `none` before it is set, and `xpathObj` with its nodes.
pub record Query : Type 0 where
  pub size : Option ℕ
  pub xpath_obj : Option (Option (List ℕ))

-- `Query(Site *)`
abbrev pub fresh_query : Query
fresh_query = record { size = none; xpath_obj = none }

unfoldable pub get_size : Query → Outcome ℕ
get_size query = elim query.size [ none ↦ undefined | some n ↦ done n ]

-- `xpathObj->nodesetval->nodeTab[i]`
unfoldable pub node_at : Option (List ℕ) → ℕ → Outcome ℕ
node_at none i = undefined
node_at (some nodes) i = elim (get_elem? nodes i) [ none ↦ undefined | some n ↦ done n ]

unfoldable pub get_node : Query → ℕ → Outcome ℕ
get_node query i = elim query.xpath_obj [ none ↦ undefined | some nodes ↦ node_at nodes i ]

-- `result`; the allocations succeed.
unfoldable pub result : Option ℕ → Query
result none = record { size = some 0; xpath_obj = some (some []) }
result (some n) = record { size = some 1; xpath_obj = some (some (n ∷ [])) }

abbrev pub count : Option (List ℕ) → ℕ
count none = 0
count (some nodes) = length nodes

-- Two pointers, of which the second may be NULL.
unfoldable pub same_node : ℕ → Option ℕ → Bool
same_node n none = false
same_node n (some m) = n == m

module _ (source : Source) where
  open source use {permalinks, nodes, root_node, root_design_node, memory, contexts, evaluate}

  -- `find`
  unfoldable pub find_node : ℤ → Query
  find_node id = result (lookup ℤ_discrete id nodes)

  unfoldable pub get_single_data : Query → Outcome Bytes
  get_single_data query = get_size query >>= λ size.
      let rest = get_node query 0 >>= λ n. done (first_text memory (memory n).children) in
      if size == 0 then done [] else rest

  -- `singleData`: one node that has no id.
  unfoldable pub single_data : Query → Outcome Bool
  single_data query = get_size query >>= λ size.
      let rest = get_node query 0 >>= λ n.
      done (if has_property (codes "id") (memory n).properties then false else true) in
      if size == 1 then rest else done false

  -- The end of `runRawQuery`: the root as first result makes it an empty one.
  unfoldable pub without_root : Option (List ℕ) → Outcome Query
  without_root found =
      let whole : Query = record { size = some (count found); xpath_obj = some found } in
      let tested =
        get_node whole 0 >>= λ n. done (if same_node n root_node then result none else whole) in
      if count found == 0 then done whole else tested

  unfoldable pub run_raw_query : Option ℕ → Bytes → Bytes → Outcome Query
  run_raw_query node q display_query = elim (evaluate node q) [
    | no_context ↦ thrown (internal_error (codes "could not create libxml2 XPath Context"))
    | failed ↦ thrown (
        query_error
          (codes "could not evaluate XPath expression: '" ++ (display_query ++ codes "'")))
    | nodeset found ↦ without_root found
    | other_type ↦
        thrown (internal_error (codes "libxml2 returned something other than a nodeset?!"))
  ]

  unfoldable pub run_query : Option ℕ → Bytes → Bytes → Outcome Query
  run_query none q display_query = run_raw_query root_node q display_query
  run_query (some c) q display_query = run_raw_query (some (contexts c).node) q display_query

  module _ (int_text : ℤ → Bytes) where
    -- `"/website/design//*[@id=" << id << "]"`
    unfoldable pub design_path : ℤ → Bytes
    design_path id = codes "/website/design//*[@id=" ++ (int_text id ++ codes "]")

    unfoldable pub design_node : Option ℕ → Outcome (Option ℕ)
    design_node none = done root_design_node
    design_node (some c) = get_structure_id (contexts c) >>= λ id.
        run_raw_query none (design_path id) (design_path id) >>= λ query.
        get_node query 0 >>= λ n. done (some n)

    unfoldable pub run_design_query : Option ℕ → Bytes → Outcome Query
    run_design_query context query = design_node context >>= λ node. run_raw_query node query query
