-- ===== src/Site.antt =====
-- The constructor of `Site`, `loadXmlDoc` and `validateSecretKey` of site.cpp.
pub mod Secrets
pub mod Keys
pub mod Queries
pub mod Loaded
pub mod Samples
pub mod Structures
mod Tests
use vaedb.Common.{
  ℕ, zero, suc, ◌+◌, ◌≡◌, Bool, true, false, Option, none, some, List, [], ◌∷◌, ◌++◌, map, Bytes,
  codes, any, eqb, ◌==◌, if◌then◌else◌,
}
use vaedb.Common.Int.{ℤ, pos, negsuc}
use vaedb.Common.Outcome.{Outcome, done, thrown, undefined, internal_error, ◌>>=◌}
use vaedb.Xml.Cells.{Cell, other_node}
use vaedb.Context.{Structure, Context}
use vaedb.Context.Build.{FeedNodes, end, Building, build_roots}
use vaedb.Context.Associations.{Heap, LibXml, Graph, initialize_all}
use vaedb.Query.{XPathResult, Source, Query, get_size, get_node, get_single_data, run_raw_query}
use vaedb.Site.Structures.{structure_from_structure_id}

-- A document that libxml2 has parsed: its cells, the tree below a node, the pointers, and what XPath finds. The
-- contexts change neither the design part nor the generation, so these are found as they are parsed.
pub record Feed : Type 0 where
  pub memory : ℕ → Cell
  pub tree : ℕ → FeedNodes
  pub heap : Heap
  pub evaluate : Option ℕ → Bytes → XPathResult

-- libxml2, `boost::split`, the numbers of the C library, and the objects of S3.
pub record Loader : Type 0 where
  pub test_mode : Bool
  pub read_s3 : Bytes → Bytes
  pub parse_file : Bytes → Option Feed
  pub parse_memory : Bytes → Option Feed
  pub xml : LibXml
  pub split : Bytes → List Bytes
  pub strtol : Bytes → ℤ
  pub atoi : Bytes → ℤ
  pub int_text : ℤ → Bytes

-- `building` has the maps and the contexts, `tree` what is left of the content part, and `graph` the pointers behind
-- the associations.
pub record Site : Type 0 where
  pub subdomain : Bytes
  pub staging_mode : Bool
  pub generation : ℤ
  pub secret_keys : List Bytes
  pub building : Building
  pub tree : FeedNodes
  pub graph : Graph

abbrev pub fails : {A : Type 0} → Bytes → Outcome A
fails what = thrown (internal_error what)

-- A site whose feed is not loaded.
abbrev pub empty_building : Building
empty_building = record {
  permalinks = [];
  nodes = [];
  associations = [];
  contexts = [];
  structures = [];
}

-- The document with the contexts that were built, before associations are initialized.
abbrev pub graph_of : Heap → Building → Graph
graph_of heap s = record {
  heap = heap;
  freed = [];
  nodes_to_clean = [];
  nodes_to_clean2 = [];
  pointer_nodes = map (λ (e : ℕ × Context). (e.0, [])) s.contexts;
  nodes = s.nodes;
  permalinks = s.permalinks;
}

-- No document.
abbrev pub blank_heap : Heap
blank_heap p = record {
  node_type = other_node;
  content = [];
  parent = none;
  next = none;
  children = none;
  last = none;
  properties = none;
  private = none;
}

-- No context hangs on a node yet, so a raw query reads none.
abbrev no_context : Context
no_context = record { node = 0; id = pos 0; permalink = none; structure = none; type = [] }

-- What a raw query reads while the feed is loaded.
abbrev pub loading : Feed → Option ℕ → Option ℕ → Source
loading feed root design = record {
  permalinks = [];
  nodes = [];
  root_node = root;
  root_design_node = design;
  memory = feed.memory;
  contexts = λ c. no_context;
  evaluate = feed.evaluate;
}

module _ (loader : Loader) where
  open loader use {test_mode, read_s3, parse_file, parse_memory, xml, split, strtol, atoi, int_text}

  -- The one node that a path finds.
  unfoldable pub find_root : Source → Bytes → Bytes → Bytes → Outcome ℕ
  find_root source path display what = run_raw_query source none path display >>= λ query.
      let found = get_node query 0 in
      get_size query >>= λ size. if size == 1 then found else fails what

  -- The contexts of the content node's children, and then the associations among them; a context is named by its node.
  unfoldable pub load_contexts : Feed → ℕ → ℕ → Bool → Outcome (Building × FeedNodes × Graph)
  load_contexts feed root design staging_mode =
      build_roots atoi staging_mode
        (structure_from_structure_id (loading feed (some root) (some design)) int_text)
        (feed.tree root) empty_building
      >>= λ (s, left).
          initialize_all xml atoi (map (λ (n : ℕ). (n, n)) s.associations) (graph_of feed.heap s)
          >>= λ g.
              done (
                record s { associations = []; nodes = g.nodes; permalinks = g.permalinks },
                left,
                g,
              )

  unfoldable pub load_generation : Feed → ℕ → ℕ → Outcome ℤ
  load_generation feed root design =
      let source = loading feed (some root) (some design) in
      run_raw_query source none (codes "/website/generation") (codes "website generation node")
      >>= λ query.
          let read = get_single_data source query >>= λ text. done (strtol text) in
          get_size query >>= λ size.
          if size == 1
          then read
          else fails (codes "Could not find feed generation node in XML file")

  unfoldable pub load_feed : Feed → Site → Outcome Site
  load_feed feed site =
      find_root (loading feed none none) (codes "/website/content") (codes "website root node")
        (codes "Could not find root content node in XML file")
      >>= λ root.
          find_root (loading feed (some root) none) (codes "/website/design")
            (codes "website design node") (codes "Could not find root design node in XML file")
          >>= λ design. load_contexts feed root design site.staging_mode >>= λ (s, left, g).
              load_generation feed root design >>= λ generation.
              done (record site { generation = generation; building = s; tree = left; graph = g })

  -- `loadXmlDoc`: in test mode the subdomain names a file, and then becomes "local".
  unfoldable pub load_xml_doc : Bytes → Site → Outcome Site
  load_xml_doc rawxml site =
      let named : Bytes = if test_mode then codes "local" else site.subdomain in
      elim (if test_mode then parse_file site.subdomain else parse_memory rawxml) [
        | none ↦ fails (codes "Could not open/parse XML file")
        | some feed ↦ load_feed feed (record site { subdomain = named })
      ]

  -- The members before the feed is loaded; nothing of it is read before.
  unfoldable pub unloaded : Bytes → Bool → Site
  unloaded subdomain staging_mode = record {
    subdomain = subdomain;
    staging_mode = staging_mode;
    generation = negsuc 0;
    secret_keys = if test_mode then [] else split (read_s3 (subdomain ++ codes "-secret"));
    building = empty_building;
    tree = end;
    graph = graph_of blank_heap empty_building;
  }

  unfoldable pub new_site : Bytes → Bool → Bytes → Outcome Site
  new_site subdomain staging_mode rawxml = load_xml_doc rawxml (unloaded subdomain staging_mode)

  unfoldable pub validate_secret_key : Site → Bytes → Outcome Bool
  validate_secret_key site secret_key =
      if test_mode
      then done true
      else (if any (λ key. eqb key secret_key) site.secret_keys
          then done true
          else fails (codes "Secret Key Mismatch"))
