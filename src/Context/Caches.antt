-- ===== src/Context/Caches.antt =====
-- `getCount`, `getData` and `populateData` of context.cpp, with the caches of a context.
use vaedb.Common.{
  ℕ, Bool, true, false, Option, none, some, List, [], ◌∷◌, Bytes, codes, is_empty, Bytes-discrete,
  if◌then◌else◌,
}
use vaedb.Common.Map.{lookup, assign}
use vaedb.Common.Outcome.{Outcome, done, thrown, undefined, internal_error, ◌>>=◌}
use vaedb.Xml.Cells.{Cell, element_node, text_node, other_node}
use vaedb.Query.{Source, get_size, get_single_data}
use vaedb.Query.Resolve.{Patterns, new_query}

-- The members that change. `own_data` is `data`.
pub record Caches : Type 0 where
  pub cached_counts : List (Bytes × ℕ)
  pub cached_queries : List (Bytes × Bytes)
  pub own_data : List (Bytes × Bytes)
  pub data_populated : Bool

-- A context as it is constructed.
abbrev pub no_caches : Caches
no_caches = record {
  cached_counts = [];
  cached_queries = [];
  own_data = [];
  data_populated = false;
}

module _ (memory : ℕ → Cell) where
  -- The loop over the children of a child: the last text, or "(collection)" at the first other node.
  unfoldable pub content_loop : List ℕ → Option Bytes → Option Bytes
  content_loop [] content = content
  content_loop (child2 ∷ rest) content = elim (memory child2).node_type [
    | element_node ↦ some (codes "(collection)")
    | text_node ↦ content_loop rest (some (memory child2).content)
    | other_node ↦ some (codes "(collection)")
  ]

  -- `data[child->name] = content`, if both are there.
  unfoldable pub put_content :
      Option Bytes → Option Bytes → List (Bytes × Bytes) → List (Bytes × Bytes)
  put_content none content m = m
  put_content (some name) none m = m
  put_content (some name) (some content) m = assign Bytes-discrete name content m

  unfoldable pub populate_child : ℕ → List (Bytes × Bytes) → List (Bytes × Bytes)
  populate_child child m = elim (memory child).node_type [
    | element_node ↦ put_content (memory child).name (content_loop (memory child).children none) m
    | text_node ↦ m
    | other_node ↦ m
  ]

  unfoldable pub populate_loop : List ℕ → List (Bytes × Bytes) → List (Bytes × Bytes)
  populate_loop [] m = m
  populate_loop (child ∷ rest) m = populate_loop rest (populate_child child m)

  -- `populateData` on the children of the context's node.
  unfoldable pub populate_data : List ℕ → Caches → Caches
  populate_data children k =
      if k.data_populated
      then k
      else record k { own_data = populate_loop children k.own_data; data_populated = true }

-- The calls on the context `c`, whose constructor of `Query` has `fuel` rounds for each rewriting.
module _ (patterns : Patterns) (source : Source) (fuel : ℕ) (c : ℕ) where
  open source use {memory, contexts}

  abbrev pub node_children : List ℕ
  node_children = (memory (contexts c).node).children

  -- What the query under this context counts, and its first text.
  unfoldable pub count_of : Bytes → Outcome ℕ
  count_of query = new_query patterns source fuel (some c) query >>= get_size

  unfoldable pub text_found : Bytes → Outcome Bytes
  text_found query = new_query patterns source fuel (some c) query >>= get_single_data source

  unfoldable pub keep_count : Bytes → Caches → Outcome ℕ → Caches
  keep_count query k (done n) = record k {
    cached_counts = assign Bytes-discrete query n k.cached_counts;
  }
  keep_count query k (thrown e) = k
  keep_count query k undefined = k

  -- A call that throws keeps what it has changed before.
  unfoldable pub get_count : Bytes → Caches → Caches × Outcome ℕ
  get_count query k = elim (lookup Bytes-discrete query k.cached_counts) [
    | some n ↦ (k, done n)
    | none ↦ (keep_count query k (count_of query), count_of query)
  ]

  unfoldable pub keep_text : Bytes → Caches → Outcome Bytes → Caches
  keep_text query k (done s) = record k {
    cached_queries = assign Bytes-discrete query s k.cached_queries;
  }
  keep_text query k (thrown e) = k
  keep_text query k undefined = k

  -- `getData(query)` behind `populateData`.
  unfoldable pub read_data : Bytes → Caches → Caches × Outcome Bytes
  read_data query k =
      if is_empty query
      then (k, thrown (internal_error (codes "Empty query passed to Context::getData")))
      else elim (lookup Bytes-discrete query k.own_data) [
        | some s ↦ (k, done s)
        | none ↦ elim (lookup Bytes-discrete query k.cached_queries) [
          | some s ↦ (k, done s)
          | none ↦ (keep_text query k (text_found query), text_found query)
        ]
      ]

  unfoldable pub get_text : Bytes → Caches → Caches × Outcome Bytes
  get_text query k = read_data query (populate_data memory node_children k)

  -- `getData()`
  unfoldable pub get_all : Caches → Caches × List (Bytes × Bytes)
  get_all k = let k' = populate_data memory node_children k in (k', k'.own_data)
