-- ===== src/Context/Build.antt =====
-- The constructor of `Context` and `populateAttrs` of context.cpp, and the loop of `loadXmlDoc` in site.cpp that
-- starts them: the contexts of a feed, and the maps that find them.
use vaedb.Common.{
  ℕ, Bool, true, Option, none, some, List, [], ◌∷◌, ◌++◌, Bytes, codes, eqb, Bytes-discrete,
  if◌then◌else◌,
}
use vaedb.Common.Int.{ℤ, pos, ltb_ℤ, ℤ_discrete}
use vaedb.Common.Map.{assign}
use vaedb.Common.Outcome.{Outcome, done, ◌>>=◌}
use vaedb.Xml.Cells.{content_of}
use vaedb.Context.{Structure, Context}

-- The tree of a feed while it is loaded: an element with its address, its properties and `_private`, whose
-- context is named by the address of its node.
mutual
  pub data FeedNode : Type 0 where
    feed_element : ℕ → List (Bytes × Option Bytes) → Option ℕ → FeedNodes → FeedNode
    feed_other : FeedNode

  pub data FeedNodes : Type 0 where
    end : FeedNodes
    then_node : FeedNode → FeedNodes → FeedNodes

-- What the constructors change in the site; `structures` is what `structureFromStructureId` keeps.
pub record Building : Type 0 where
  pub permalinks : List (Bytes × ℕ)
  pub nodes : List (ℤ × ℕ)
  pub associations : List ℕ
  pub contexts : List (ℕ × Context)
  pub structures : List (ℤ × Structure)

-- What the loop of `populateAttrs` collects.
pub record Attrs : Type 0 where
  pub id : ℤ
  pub structure_id : ℤ
  pub permalink : Option Bytes

abbrev pub no_attrs : Attrs
no_attrs = record { id = pos 0; structure_id = pos 0; permalink = none }

-- What the constructor makes: nothing, when it sets `killMe`, or a context and the children that are left.
abbrev pub Made : Type 0
Made = Option (Context × FeedNodes)

unfoldable pub is_association : Bytes → Bool
is_association type =
    if eqb type (codes "AssociationItem") then true else eqb type (codes "SingleAssociationItem")

module _ (atoi : Bytes → ℤ) (staging_mode : Bool) where
  -- A node with a property `staging` exists in staging mode only; `none` is the return of true.
  unfoldable pub unless_staging : Bytes → Attrs → Outcome (Option Attrs)
  unless_staging name a =
      if staging_mode
      then done (some a)
      else (if eqb name (codes "staging") then done none else done (some a))

  unfoldable pub read_id : Bytes → Option Bytes → Attrs → Outcome Attrs
  read_id name value a =
      if eqb name (codes "id")
      then (content_of value >>= λ v. done (record a { id = atoi v }))
      else done a

  unfoldable pub read_type : Bytes → Option Bytes → Attrs → Outcome Attrs
  read_type name value a =
      if eqb name (codes "type")
      then (content_of value >>= λ v. done (record a { structure_id = atoi v }))
      else done a

  unfoldable pub read_permalink : Bytes → Option Bytes → Attrs → Outcome Attrs
  read_permalink name value a =
      if eqb name (codes "permalink")
      then (content_of value >>= λ v. done (record a { permalink = some v }))
      else done a

  -- One property: the four tests in order.
  unfoldable pub read_attr : Bytes → Option Bytes → Attrs → Outcome (Option Attrs)
  read_attr name value a =
      read_id name value a
      >>= read_type name value
      >>= read_permalink name value
      >>= unless_staging name

  unfoldable pub read_attrs : List (Bytes × Option Bytes) → Attrs → Outcome (Option Attrs)
  read_attrs [] a = done (some a)
  read_attrs ((name, value) ∷ rest) a = read_attr name value a >>= λ read. elim read [
    | none ↦ done none
    | some a' ↦ read_attrs rest a'
  ]

module _ (atoi : Bytes → ℤ) (staging_mode : Bool)
    (structure_from_structure_id : ℤ
      → List (ℤ × Structure)
      → Outcome (List (ℤ × Structure) × Option Structure)) where
  -- `populateAttrs` behind its loop: the structure and the type.
  unfoldable pub typed : ℤ → Building → Outcome (Building × Option Structure)
  typed structure_id s =
      if ltb_ℤ (pos 0) structure_id
      then (structure_from_structure_id structure_id s.structures >>= λ (structures, structure).
          done (record s { structures = structures }, structure))
      else done (s, none)

  abbrev pub type_of : Option Structure → Bytes
  type_of none = []
  type_of (some structure) = structure.type

  -- The end of the constructor: the entries of the two maps.
  unfoldable pub register : Context → Building → Building
  register c s = record s {
    permalinks = elim c.permalink [
      | none ↦ s.permalinks
      | some permalink ↦ assign Bytes-discrete permalink c.node s.permalinks
    ];
    nodes = assign ℤ_discrete c.id c.node s.nodes;
  }

  -- The fields of a new context.
  unfoldable pub made_of : ℕ → Attrs → Option Structure → Context
  made_of node a structure = record {
    node = node;
    id = a.id;
    permalink = a.permalink;
    structure = structure;
    type = type_of structure;
  }

  -- An association is put on the list of those to initialize, and its children are left alone; otherwise
  -- `build`, the loop over the children, runs.
  unfoldable pub descend :
      (Building → Outcome (Building × FeedNodes))
      → Context
      → FeedNodes
      → Building
      → Outcome (Building × FeedNodes)
  descend build c children s =
      if is_association c.type
      then done (record s { associations = s.associations ++ c.node ∷ [] }, children)
      else build s

  unfoldable pub finish :
      (Building → Outcome (Building × FeedNodes))
      → ℕ
      → FeedNodes
      → Building
      → Option Attrs
      → Outcome (Building × Made)
  finish build node children s none = done (s, none)
  finish build node children s (some a) = typed a.structure_id s >>= λ (s1, structure).
      descend build (made_of node a structure) children s1 >>= λ (s2, children').
      done (register (made_of node a structure) s2, some (made_of node a structure, children'))

  -- The constructor.
  unfoldable pub new_context :
      (Building → Outcome (Building × FeedNodes))
      → ℕ
      → List (Bytes × Option Bytes)
      → FeedNodes
      → Building
      → Outcome (Building × Made)
  new_context build node properties children s =
      read_attrs atoi staging_mode properties no_attrs >>= finish build node children s

  -- What the loops make of a child: it is unlinked, or its context hangs on it.
  unfoldable pub placed :
      ℕ → List (Bytes × Option Bytes) → Building → Made → Building × (FeedNodes → FeedNodes)
  placed node properties s none = (s, λ rest. rest)
  placed node properties s (some (c, children)) = (
    record s { contexts = (node, c) ∷ s.contexts },
    λ rest. then_node (feed_element node properties (some node) children) rest,
  )

  -- The loop over the children of a node; an element that has a context already is passed over.
  unfoldable pub build_children : FeedNodes → Building → Outcome (Building × FeedNodes)
  build_children end s = done (s, end)
  build_children (then_node feed_other rest) s =
      build_children rest s >>= λ (s', rest'). done (s', then_node feed_other rest')
  build_children (then_node (feed_element node properties (some c) children) rest) s =
      build_children rest s >>= λ (s', rest').
      done (s', then_node (feed_element node properties (some c) children) rest')
  build_children (then_node (feed_element node properties none children) rest) s =
      new_context (build_children children) node properties children s >>= λ (s1, made).
      let (s2, put) = placed node properties s1 made in
      build_children rest s2 >>= λ (s3, rest'). done (s3, put rest')

  -- The loop of `loadXmlDoc` over the children of the content node, which has not that test.
  unfoldable pub build_roots : FeedNodes → Building → Outcome (Building × FeedNodes)
  build_roots end s = done (s, end)
  build_roots (then_node feed_other rest) s =
      build_roots rest s >>= λ (s', rest'). done (s', then_node feed_other rest')
  build_roots (then_node (feed_element node properties private children) rest) s =
      new_context (build_children children) node properties children s >>= λ (s1, made).
      let (s2, put) = placed node properties s1 made in
      build_roots rest s2 >>= λ (s3, rest'). done (s3, put rest')
