-- ===== src/Context/Associations.antt =====
-- `initializeAssociation` of context.cpp, and the loops of `Site::~Site` in site.cpp that undo what it shares.
use vaedb.Common.{
  ℕ, Option, none, some, List, [], ◌∷◌, ◌++◌, Bytes, codes, ℕ_discrete, ◌==◌, if◌then◌else◌,
}
use vaedb.Common.Int.{ℤ, pos, ltb_ℤ, ℤ_discrete}
use vaedb.Common.Map.{lookup, assign, erase}
use vaedb.Common.Outcome.{Outcome, done, thrown, undefined, internal_error, ◌>>=◌}
use vaedb.Xml.Cells.{NodeType, element_node, text_node, other_node}
use vaedb.Query.{result, get_size, get_node}

-- The pointers of an `xmlNode` that the code writes; `properties` is the address of the first property.
pub record Link : Type 0 where
  pub node_type : NodeType
  pub content : Bytes
  pub parent : Option ℕ
  pub next : Option ℕ
  pub children : Option ℕ
  pub last : Option ℕ
  pub properties : Option ℕ
  pub private : Option ℕ

abbrev pub Heap : Type 0
Heap = ℕ → Link

-- The calls of libxml2. `xmlCopyNode` gives the address of the copy, or NULL.
pub record LibXml : Type 0 where
  pub free_prop_list : Option ℕ → Heap → Heap
  pub free_node_list : Option ℕ → Heap → Heap
  pub copy_node : ℕ → Heap → Option (ℕ × Heap)
  pub add_child : ℕ → ℕ → Heap → Heap
  pub unlink_node : ℕ → Heap → Heap
  pub free_node : ℕ → Heap → Heap

-- `nodes` and `permalinks` are the maps of the site, which hold pointers too. `pointer_nodes` has the vector of each
-- context that has not been deleted; `freed` the nodes that were.
pub record Graph : Type 0 where
  pub heap : Heap
  pub freed : List ℕ
  pub nodes_to_clean : List ℕ
  pub nodes_to_clean2 : List ℕ
  pub pointer_nodes : List (ℕ × List ℕ)
  pub nodes : List (ℤ × ℕ)
  pub permalinks : List (Bytes × ℕ)

unfoldable pub write : ℕ → (Link → Link) → Heap → Heap
write p f h q = if p == q then f (h q) else h q

-- A pointer that is followed.
unfoldable pub deref : Option ℕ → Outcome ℕ
deref none = undefined
deref (some p) = done p

unfoldable pub vector_of : ℕ → List (ℕ × List ℕ) → Outcome (List ℕ)
vector_of c vectors = elim (lookup ℕ_discrete c vectors) [ none ↦ undefined | some v ↦ done v ]

-- The private `getSingleData`.
unfoldable pub text_in : Heap → ℕ → Bytes
text_in h node = elim (h node).children [
  | none ↦ []
  | some child ↦ elim (h child).node_type [
    | element_node ↦ []
    | text_node ↦ (h child).content
    | other_node ↦ []
  ]
]

-- The loop over the pointer nodes of the associated context.
unfoldable pub update_last : List ℕ → Option ℕ → Heap → Heap
update_last [] last h = h
update_last (p ∷ ps) last h = update_last ps last (write p (λ l. record l { last = last }) h)

module _ (xml : LibXml) (atoi : Bytes → ℤ) where
  open xml use {free_prop_list, free_node_list, copy_node, add_child, unlink_node, free_node}

  -- `if (node->children) xmlFreeNodeList(node->children->next);`
  unfoldable pub free_rest : ℕ → Heap → Heap
  free_rest node h = elim (h node).children [
    | none ↦ h
    | some child ↦ free_node_list (h child).next h
  ]

  -- The forward association: the node takes over what the associated node has.
  unfoldable pub forward : ℕ → ℕ → Graph → Outcome Graph
  forward node associated g =
      let h1 = free_rest node (free_prop_list (g.heap node).properties g.heap) in
      deref (h1 node).children >>= λ child.
      let h2 = write child (λ l. record l { next = (h1 associated).children }) h1 in
      let h3 =
        write node
          (λ l. record l {
            properties = (h2 associated).properties;
            last = (h2 associated).last;
            private = (h2 associated).private;
          })
          h2 in
      done (record g { heap = h3; nodes_to_clean2 = g.nodes_to_clean2 ++ node ∷ [] })

  -- The copy of the parent takes over what the parent has, and becomes a child of the associated node.
  unfoldable pub reverse_link : ℕ → ℕ → Graph → Outcome (ℕ × Graph)
  reverse_link node associated g = deref (g.heap node).parent >>= λ parent.
      elim (copy_node parent g.heap) [
        | none ↦ thrown (internal_error (codes "xmlCopyNode returned NULL"))
        | some (pointer, h) ↦ done (
          pointer,
          record g {
            heap = add_child associated pointer (
                write pointer
                  (λ l. record l {
                    private = (h parent).private;
                    children = (h parent).children;
                    last = (h parent).last;
                    properties = (h parent).properties;
                  })
                  h);
            nodes_to_clean = g.nodes_to_clean ++ pointer ∷ [];
          },
        )
      ]

  -- The vectors of the two contexts, and the pointer nodes that were placed before.
  unfoldable pub note_pointer : ℕ → ℕ → ℕ → Graph → Outcome Graph
  note_pointer node associated pointer g = deref (g.heap node).parent >>= λ parent.
      deref (g.heap parent).private >>= λ parent_context.
      vector_of parent_context g.pointer_nodes >>= λ pointers.
      let vectors = assign ℕ_discrete parent_context (pointers ++ pointer ∷ []) g.pointer_nodes in
      deref (g.heap associated).private >>= λ associated_context.
      vector_of associated_context vectors >>= λ placed. done (record g {
        heap = update_last placed (g.heap associated).last g.heap;
        pointer_nodes = vectors;
      })

  -- `delete this` of the context.
  unfoldable pub delete_context : ℕ → Graph → Graph
  delete_context context g = record g { pointer_nodes = erase ℕ_discrete context g.pointer_nodes }

  unfoldable pub associate : ℕ → ℕ → ℕ → Graph → Outcome Graph
  associate context node associated g = forward node associated g >>= λ g1.
      reverse_link node associated g1 >>= λ (pointer, g2).
      note_pointer node associated pointer g2 >>= λ g3. done (delete_context context g3)

  unfoldable pub drop_node : ℕ → ℕ → Graph → Graph
  drop_node context node g =
      delete_context context
        (record g { heap = free_node node (unlink_node node g.heap); freed = node ∷ g.freed })

  -- `initializeAssociation` of the context with its node.
  unfoldable pub initialize_association : ℕ → ℕ → Graph → Outcome Graph
  initialize_association context node g =
      let id = atoi (text_in g.heap node) in
      let query = result (lookup ℤ_discrete id g.nodes) in
      let dropped : Outcome Graph = done (drop_node context node g) in
      let found : Outcome Graph = get_size query >>= λ size.
      let linked = get_node query 0 >>= λ associated. associate context node associated g in
      if size == 1 then linked else dropped in
      if ltb_ℤ (pos 0) id then found else dropped

  -- The loop of `loadXmlDoc` over `associationsToInitialize`, the contexts with their nodes.
  unfoldable pub initialize_all : List (ℕ × ℕ) → Graph → Outcome Graph
  initialize_all [] g = done g
  initialize_all ((context, node) ∷ rest) g =
      initialize_association context node g >>= initialize_all rest

unfoldable pub bare : ℕ → Heap → Heap
bare p h =
    write p (λ l. record l { last = none; children = none; properties = none; private = none }) h

-- The first loop of the destructor, over `nodesToClean`.
unfoldable pub clean_pointers : List ℕ → Heap → Heap
clean_pointers [] h = h
clean_pointers (p ∷ ps) h = clean_pointers ps (bare p h)

-- The second, over `nodesToClean2`.
unfoldable pub cut_rest : ℕ → Heap → Heap
cut_rest p h = elim (h p).children [
  | none ↦ h
  | some child ↦ write child (λ l. record l { next = none }) h
]

unfoldable pub cut_node : ℕ → Heap → Heap
cut_node p h =
    let h1 = cut_rest p h in
    write p (λ l. record l { last = (h1 p).children; properties = none; private = none }) h1

unfoldable pub clean_forward : List ℕ → Heap → Heap
clean_forward [] h = h
clean_forward (p ∷ ps) h = clean_forward ps (cut_node p h)

unfoldable pub clean : Graph → Heap
clean g = clean_forward g.nodes_to_clean2 (clean_pointers g.nodes_to_clean g.heap)
