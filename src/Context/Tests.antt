-- ===== src/Context/Tests.antt =====
-- Runs of context.cpp.
use vaedb.Common.{
  ◌+◌, any, ◌==◌, Bool-cases, inl, inr, ap, sym, Bytes-discrete, ◌⊎◌, ℕ, ◌≡◌, refl, false, Option,
  none, some, List, [], ◌∷◌, Bytes, codes, eqb, map, ℕ_discrete,
}
use vaedb.Common.Int.{ℤ, pos, ℤ_discrete}
use vaedb.Common.Map.{lookup, assign}
use vaedb.Common.Outcome.{Outcome, done}
use vaedb.Xml.Cells.{content_of, element_node, text_node}
use vaedb.Query.Samples.{decimal, sample_patterns, sample_source, page_structure}
use vaedb.Context.{Structure, Context}
use vaedb.Context.Build.{
  feed_element, FeedNodes, end, then_node, Building, read_id, read_type, read_permalink,
  unless_staging, read_attr, read_attrs, typed, made_of, descend, finish, register, new_context,
  placed, build_children, build_roots, is_association,
}
use vaedb.Context.Indexed.{IsIndexed}
use vaedb.Context.Registered.{build_roots-IsIndexed}
use vaedb.Context.Free.{free_contexts, times, made_contexts}
use vaedb.Context.Free.Balance.{free_contexts-made}
use vaedb.Context.Associations.{
  Heap, LibXml, Graph, write, deref, vector_of, text_in, free_rest, forward, reverse_link,
  note_pointer, delete_context, associate, initialize_association, initialize_all, clean,
}
use vaedb.Context.Cleaning.Cuts.{IsNoted, IsCut}
use vaedb.Context.Owned.{KeepsChild}
use vaedb.Context.Unshared.{initialize_all-IsCut}
use vaedb.Context.Dangling.{initialize_association-dangling}
use vaedb.Query.{result, get_size, get_node, node_at}
use vaedb.Context.Caches.{no_caches}
use vaedb.Context.Answers.{Call, count_call, text_call, all_call, calls, answered, calls-uncached}

abbrev atoi : Bytes → ℤ
atoi s = pos (decimal 0 s)

-- Every structure is that of a page.
abbrev structures : ℤ → List (ℤ × Structure) → Outcome (List (ℤ × Structure) × Option Structure)
structures id kept = done (kept, some page_structure)

abbrev properties : ℕ → List (Bytes × Option Bytes)
properties n = elim (ℕ_discrete n 2) [
  | yes same ↦ (codes "id", some (codes "9")) ∷ (codes "staging", some (codes "1")) ∷ []
  | no other ↦
      (codes "id", some (codes "7"))
      ∷ (codes "type", some (codes "4"))
      ∷ (codes "permalink", some (codes "news"))
      ∷ []
]

-- A page, and below it one that is only staged.
abbrev feed : FeedNodes
feed =
    then_node
      (feed_element 1 (properties 1) none (then_node (feed_element 2 (properties 2) none end) end))
      end

abbrev empty_site : Building
empty_site = record {
  permalinks = [];
  nodes = [];
  associations = [];
  contexts = [];
  structures = [];
}

abbrev page : Context
page = record {
  node = 1;
  id = pos 7;
  permalink = some (codes "news");
  structure = some page_structure;
  type = codes "Item";
}

abbrev built : Building
built = record {
  permalinks = (codes "news", 1) ∷ [];
  nodes = (pos 7, 1) ∷ [];
  associations = [];
  contexts = (1, page) ∷ [];
  structures = [];
}

abbrev left : FeedNodes
left = then_node (feed_element 1 (properties 1) (some 1) end) end

build_run : build_roots atoi false structures feed empty_site ≡ done (built, left)
unfolding build_roots build_children new_context finish descend typed made_of register placed
    read_attrs read_attr read_id read_type read_permalink unless_staging content_of is_association
    eqb assign ℕ_discrete
build_run = refl

empty-IsIndexed : IsIndexed atoi false properties empty_site
unfolding lookup
empty-IsIndexed = record {
  by_id = λ id node h. absurd (cc);
  by_permalink = λ permalink node h. absurd (cc);
}

build_roots-IsIndexed_run : IsIndexed atoi false properties built
build_roots-IsIndexed_run =
    build_roots-IsIndexed atoi false structures properties feed empty_site built left
      (refl, (refl, tt, tt), tt) build_run empty-IsIndexed

abbrev some_calls : List Call
some_calls = count_call (codes "title") ∷ text_call (codes "title") ∷ all_call ∷ text_call [] ∷ []

calls-uncached_run :
    calls sample_patterns sample_source 3 3 some_calls no_caches
    ≡ map (answered sample_patterns sample_source 3 3) some_calls
calls-uncached_run = calls-uncached sample_patterns sample_source 3 3 some_calls

free_contexts-made_example :
    times 1 (free_contexts left) + times 1 (made_contexts empty_site)
    ≡ times 1 (made_contexts built)
free_contexts-made_example =
    free_contexts-made atoi false structures 1 feed left empty_site built (refl, (refl, tt, tt), tt)
      build_run

-- Node 1 is an association below node 3, its text is the child 2, and node 4 is what it names.
abbrev start_heap : Heap
start_heap n = elim (ℕ_discrete n 2) [
  | yes same ↦ record {
    node_type = text_node;
    content = codes "9";
    parent = some 1;
    next = none;
    children = none;
    last = none;
    properties = none;
    private = none;
  }
  | no other ↦ record {
    node_type = element_node;
    content = [];
    parent = some 3;
    next = none;
    children = some 2;
    last = some 2;
    properties = some n;
    private = some n;
  }
]

-- Copies get the address 5; the lists of children are not followed here.
abbrev library : LibXml
library = record {
  free_prop_list = λ p h. h;
  free_node_list = λ p h. h;
  copy_node = λ p h. some (5, h);
  add_child = λ p c h. write p (λ l. record l { last = some c }) h;
  unlink_node = λ p h. h;
  free_node = λ p h. h;
}

abbrev start_graph : Graph
start_graph = record {
  heap = start_heap;
  freed = [];
  nodes_to_clean = [];
  nodes_to_clean2 = [];
  pointer_nodes = (1, []) ∷ (3, []) ∷ (4, []) ∷ [];
  nodes = (pos 9, 4) ∷ [];
  permalinks = [];
}

abbrev finished : Outcome Graph
finished = initialize_all library atoi ((1, 1) ∷ []) start_graph

abbrev or_start : Outcome Graph → Graph
or_start (done g) = g
or_start other = start_graph

finished_run : finished ≡ done (or_start finished)
unfolding initialize_all initialize_association associate forward reverse_link note_pointer
    delete_context free_rest deref vector_of text_in write lookup assign result get_size get_node
    node_at ℤ_discrete ℕ_discrete
finished_run = refl

-- Node 1 keeps its text.
library-KeepsChild : KeepsChild library 1
unfolding write
library-KeepsChild = record {
  props = λ x h. refl;
  siblings = λ x h. refl;
  copied = λ q pointer h h' e.
      let same : 5 ≡ pointer = cc in
      let heap : h ≡ h' = cc in (rw (← same) refl, ap (λ (m : Heap). (m 1).children) (sym heap));
  added = λ q r c h own. elim (Bool-cases (q == 1)) [ inl e ↦ rw e own | inr e ↦ rw e own ];
  unlinked = λ q c h own other. own;
  freeing = λ q h. refl;
}

initialize_all-IsCut_example :
    IsNoted 1 (or_start finished).freed
    ⊎ (IsCut (clean (or_start finished)) 1 × ((clean (or_start finished) 1).children ≡ some 2))
unfolding any ℕ_discrete
initialize_all-IsCut_example =
    initialize_all-IsCut library atoi ((1, 1) ∷ []) start_graph (or_start finished) 1 2
      library-KeepsChild refl (refl, tt) (refl, refl) finished_run

-- Node 1 is made an association of the site with the id 7 and the permalink "news"; its text names the id 9, which
-- the site does not have.
abbrev association_structures :
    ℤ → List (ℤ × Structure) → Outcome (List (ℤ × Structure) × Option Structure)
association_structures id kept =
    done (kept, some (record page_structure { type = codes "AssociationItem" }))

abbrev association : Context
association = record page {
  type = codes "AssociationItem";
  structure = some (record page_structure { type = codes "AssociationItem" });
}

abbrev with_association : Building
with_association = record {
  permalinks = (codes "news", 1) ∷ [];
  nodes = (pos 7, 1) ∷ [];
  associations = 1 ∷ [];
  contexts = [];
  structures = [];
}

association_run :
    new_context atoi false association_structures
      (build_children atoi false association_structures end)
      1
      (properties 1)
      end
      empty_site
    ≡ done (with_association, some (association, end))
unfolding new_context finish descend typed made_of register read_attrs read_attr read_id read_type
    read_permalink unless_staging content_of is_association eqb assign ℕ_discrete
association_run = refl

abbrev lone_graph : Graph
lone_graph = record start_graph { nodes = (pos 7, 1) ∷ []; permalinks = (codes "news", 1) ∷ [] }

initialize_association-dangling_example :
    (g' : Graph) × (initialize_association library atoi 1 1 lone_graph ≡ done g')
    × IsNoted 1 g'.freed
    × (lookup ℤ_discrete (pos 7) g'.nodes ≡ some 1)
    × ((permalink : Bytes)
        → some (codes "news") ≡ some permalink
        → lookup Bytes-discrete permalink g'.permalinks ≡ some 1)
unfolding lookup text_in ℤ_discrete ℕ_discrete
initialize_association-dangling_example =
    initialize_association-dangling atoi false association_structures library
      (build_children atoi false association_structures end) 1 1 (properties 1) end end empty_site
      with_association association lone_graph association_run refl refl refl
