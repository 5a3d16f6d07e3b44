-- ===== src/Response/Found.antt =====
-- From a query to its response: `fetch_query` of site.cpp over the constructor of query.cpp, and `query` of
-- response.cpp on the nodes that it finds.
use vaedb.Common.{
  map, length-map, ℕ, zero, suc, ◌+◌, ◌≤◌, ◌<◌, ◌≡◌, refl, sym, ap, ◌∙◌, Option, none, List, [],
  ◌∷◌, length, Bytes, arith,
}
use vaedb.Common.Machine.{Floats}
use vaedb.Common.Outcome.{Outcome, done, ◌>>=◌, bind_at, done-injective}
use vaedb.Util.{Doubles}
use vaedb.Xml.{XmlNode}
use vaedb.LruCache.{LruCache, ulong}
use vaedb.LruCache.Invariant.{IsValid}
use vaedb.Query.{Source, Query, get_size, get_node}
use vaedb.Query.Resolve.{Patterns, new_query}
use vaedb.Query.Ready.{IsReady, new_query-IsReady}
use vaedb.Site.Keys.{LruKey, LruKey-discrete}
use vaedb.Site.Queries.{one, fetch_query, IsCoherent, fetch_query-IsCoherent}
use vaedb.Response.Select.{Contexts, Algorithms, present}
use vaedb.Response.Build.{query_of, new_response}
use vaedb.Response.Parse.{Texts, parse_options, respond-parse_options}

-- The nodes from number `i` on, as the loops over `getNode` read them.
unfoldable pub read_nodes : ℕ → ℕ → Query → Outcome (List ℕ)
read_nodes zero i query = done []
read_nodes (suc rounds) i query =
    get_node query i >>= λ n. read_nodes rounds (suc i) query >>= λ rest. done (n ∷ rest)

unfoldable pub nodes_of_query : Query → Outcome (List ℕ)
nodes_of_query query = get_size query >>= λ n. read_nodes n 0 query

read_nodes-length :
    (query : Query) (n rounds i : ℕ)
    → ((j : ℕ) → j < n → (m : ℕ) × (get_node query j ≡ done m))
    → rounds + i ≡ n
    → (ns : List ℕ) × (read_nodes rounds i query ≡ done ns) × (length ns ≡ rounds)
unfolding read_nodes
read_nodes-length query n zero i there h = ([], refl, refl)
read_nodes-length query n (suc rounds) i there h =
    let (m, e) = there i (omega (arith, h)) in
    let (ns, later, size) = read_nodes-length query n rounds (suc i) there (omega (arith, h)) in
    (m ∷ ns, rw (e, later) refl, ap suc size)

-- A query that is ready has as many nodes as its size says.
nodes_of_query-length :
    (query : Query)
    → IsReady query
    → (ns : List ℕ) × (nodes_of_query query ≡ done ns) × (get_size query ≡ done (length ns))
unfolding nodes_of_query
nodes_of_query-length query (n, sized, there) =
    let (ns, found, size) = read_nodes-length query n n 0 there (omega arith) in
    (
      ns,
      bind_at (get_size query) (λ n. read_nodes n 0 query) n sized ∙ found,
      sized ∙ ap done (sym size),
    )

-- `tree` is the tree of libxml2 at a node.
module _ (patterns : Patterns) (source : Source) (fuel : ℕ) (tree : ℕ → XmlNode) where
  unfoldable pub run_key : LruKey → Outcome Query
  run_key (context, q) = new_query patterns source fuel context q

  -- `site->fetch_query({context, q})` with the nodes of its result.
  unfoldable pub nodes_of :
      LruCache LruKey (Option Query) → Bytes → Option ℕ → Outcome (List XmlNode)
  nodes_of c q context = fetch_query LruKey-discrete run_key (context, q) c >>= λ (c', query).
      nodes_of_query query >>= λ ns. done (map tree ns)

  module _ (texts : Texts) (contexts : Contexts) (doubles : Doubles) (algorithms : Algorithms)
      (floats : Floats) where
    -- A response without options and without a parent, on a valid cache that holds what queries find: if
    -- the constructor of the query returns, the response is made; its only result has the contexts of the
    -- nodes of the query in their order, and the size of the query as its total. The size is at most the
    -- limit of a page.
    pub new_response-found :
        (c : LruCache LruKey (Option Query)) (q : Bytes) (query : Query) (n : ℕ)
        → c.max_size + 1 < ulong
        → IsValid LruKey-discrete one c
        → IsCoherent LruKey-discrete run_key c
        → new_query patterns source fuel none q ≡ done query
        → get_size query ≡ done n
        → n ≤ 99999999
        → (ns : List ℕ) × (nodes_of_query query ≡ done ns)
          × (length ns ≡ n)
          × (new_response contexts doubles algorithms floats
                (nodes_of c q)
                (parse_options texts [])
                none
              ≡ done (record { contexts = present (map tree ns); total = n } ∷ []))
    unfolding run_key nodes_of query_of new_response
    new_response-found c q query n w v coherent ran sized few =
        let (ns, found, size) =
          nodes_of_query-length query (new_query-IsReady patterns source fuel none q query ran) in
        let count : length ns ≡ n = done-injective (sym size ∙ sized) in
        let (c', fetched, _, _, _) =
          fetch_query-IsCoherent LruKey-discrete run_key (none, q) query c w v coherent ran in
        let trees : nodes_of c q none ≡ done (map tree ns) =
          bind_at (fetch_query LruKey-discrete run_key (none, q) c) _ (c', query) fetched
          ∙ bind_at (nodes_of_query query) (λ (l : List ℕ). done (map tree l)) ns found in
        let total : length (map tree ns) ≡ n = length-map tree ns ∙ count in
        let answer =
          (respond-parse_options texts contexts doubles algorithms floats (map tree ns)).0
            (omega (arith, total, few)) in
        (
          ns,
          found,
          count,
          rw trees (
              rw (answer, new_response, query_of)
                (ap (λ (m : ℕ). done (record { contexts = present (map tree ns); total = m } ∷ []))
                  total)),
        )
