-- ===== src/Context/Registered.antt =====
-- The constructors of the contexts keep the maps of the site right.
use vaedb.Common.{
  ℕ, ◌≡◌, refl, ap, Bool, Option, none, some, List, Bytes, Bytes-discrete, Bool-cases, inl, inr,
  subst,
}
use vaedb.Common.Int.{ℤ, pos, ltb_ℤ, ℤ_discrete}
use vaedb.Common.Map.{lookup, assign}
use vaedb.Common.Outcome.{Outcome, done, >>=-eq-done, done-injective}
use vaedb.Context.{Structure, Context}
use vaedb.Context.Build.{
  feed_element, feed_other, FeedNodes, end, then_node, Building, Attrs, no_attrs, Made,
  is_association, read_attrs, typed, made_of, descend, finish, register, new_context, placed,
  build_children, build_roots,
}
use vaedb.Context.Indexed.{assigned, IsTree, Shows, IsIndexed, shown}

module _ (atoi : Bytes → ℤ) (staging_mode : Bool)
    (structure_from_structure_id : ℤ
      → List (ℤ × Structure)
      → Outcome (List (ℤ × Structure) × Option Structure))
    (properties_of : ℕ → List (Bytes × Option Bytes)) where
  abbrev Indexed : Building → Type 0
  Indexed = IsIndexed atoi staging_mode properties_of

  abbrev build : FeedNodes → Building → Outcome (Building × FeedNodes)
  build = build_children atoi staging_mode structure_from_structure_id

  -- The structures are all that `typed` changes.
  typed-IsIndexed :
      (structure_id : ℤ) (s s' : Building) (structure : Option Structure)
      → typed atoi staging_mode structure_from_structure_id structure_id s ≡ done (s', structure)
      → Indexed s
      → Indexed s'
  unfolding typed
  typed-IsIndexed structure_id s s' structure h ok =
      elim (Bool-cases (ltb_ℤ (pos 0) structure_id)) [
        | inl e ↦
            let ((structures, found), _, h1) =
              >>=-eq-done (structure_from_structure_id structure_id s.structures) _ (rw e at h) in
            subst Indexed (ap (λ (x : Building × Option Structure). x.0) (done-injective h1))
              (record { by_id = ok.by_id; by_permalink = ok.by_permalink })
        | inr e ↦
            subst Indexed
              (ap (λ (x : Building × Option Structure). x.0) (done-injective (rw e at h))) ok
      ]

  register-IsIndexed :
      (c : Context) (s : Building)
      → Shows atoi staging_mode properties_of
          (λ a. (a.id ≡ c.id) × (a.permalink ≡ c.permalink))
          c.node
      → Indexed s
      → Indexed (register atoi staging_mode structure_from_structure_id c s)
  unfolding register
  register-IsIndexed c s (a, read, (same_id, same_link), open_) ok = record {
    by_id = ids;
    by_permalink = links c.permalink same_link;
  }
    where
      ids :
          (id : ℤ) (node : ℕ)
          → lookup ℤ_discrete id (assign ℤ_discrete c.id c.node s.nodes) ≡ some node
          → Shows atoi staging_mode properties_of (λ a. a.id ≡ id) node
      ids =
          assigned ℤ_discrete
            (λ id node. Shows atoi staging_mode properties_of (λ a. a.id ≡ id) node) c.id c.node
            s.nodes (a, read, same_id, open_) ok.by_id

      links :
          (found : Option Bytes)
          → a.permalink ≡ found
          → (permalink : Bytes) (node : ℕ)
          → lookup Bytes-discrete permalink (elim found [
            | none ↦ s.permalinks
            | some link ↦ assign Bytes-discrete link c.node s.permalinks
          ])
            ≡ some node
          → Shows atoi staging_mode properties_of (λ a. a.permalink ≡ some permalink) node
      links none e = ok.by_permalink
      links (some link) e =
          assigned Bytes-discrete
            (λ permalink node.
              Shows atoi staging_mode properties_of (λ a. a.permalink ≡ some permalink) node)
            link c.node s.permalinks (a, read, e, open_) ok.by_permalink

  -- What the loop over the children keeps, `descend` keeps.
  abbrev Keeps : (Building → Outcome (Building × FeedNodes)) → Type 0
  Keeps loop =
      (t t' : Building) (left : FeedNodes) → loop t ≡ done (t', left) → Indexed t → Indexed t'

  descend-IsIndexed :
      (loop : Building → Outcome (Building × FeedNodes)) (c : Context) (children : FeedNodes)
      → Keeps loop
      → Keeps (descend atoi staging_mode structure_from_structure_id loop c children)
  unfolding descend
  descend-IsIndexed loop c children keeps s s' left h ok =
      elim (Bool-cases (is_association c.type)) [
        | inl e ↦
            subst Indexed (ap (λ (x : Building × FeedNodes). x.0) (done-injective (rw e at h)))
              (record { by_id = ok.by_id; by_permalink = ok.by_permalink })
        | inr e ↦ keeps s s' left (rw e at h) ok
      ]

  finish-IsIndexed :
      (loop : Building → Outcome (Building × FeedNodes)) (node : ℕ)
      (properties : List (Bytes × Option Bytes)) (children : FeedNodes) (s s' : Building)
      (made : Made) (read : Option Attrs)
      → properties_of node ≡ properties
      → Keeps loop
      → read_attrs atoi staging_mode properties no_attrs ≡ done read
      → finish atoi staging_mode structure_from_structure_id loop node children s read
        ≡ done (s', made)
      → Indexed s
      → Indexed s'
  unfolding finish made_of
  finish-IsIndexed loop node properties children s s' made none e keeps found h ok =
      subst Indexed (ap (λ (x : Building × Made). x.0) (done-injective h)) ok
  finish-IsIndexed loop node properties children s s' made (some a) e keeps found h ok =
      let ((s1, structure), t, h1) =
        >>=-eq-done (typed atoi staging_mode structure_from_structure_id a.structure_id s) _ h in
      let c = made_of atoi staging_mode structure_from_structure_id node a structure in
      let ((s2, left), below, h2) =
        >>=-eq-done (descend atoi staging_mode structure_from_structure_id loop c children s1) _
          h1 in
      subst Indexed (ap (λ (x : Building × Made). x.0) (done-injective h2)) (
        register-IsIndexed c s2
          (shown atoi staging_mode properties_of (λ b. (b.id ≡ a.id) × (b.permalink ≡ a.permalink))
            node properties a e found (refl, refl))
          (descend-IsIndexed loop c children keeps s1 s2 left below
            (typed-IsIndexed a.structure_id s s1 structure t ok)))

  new_context-IsIndexed :
      (loop : Building → Outcome (Building × FeedNodes)) (node : ℕ)
      (properties : List (Bytes × Option Bytes)) (children : FeedNodes) (s s' : Building)
      (made : Made)
      → properties_of node ≡ properties
      → Keeps loop
      → new_context atoi staging_mode structure_from_structure_id loop node properties children s
        ≡ done (s', made)
      → Indexed s
      → Indexed s'
  unfolding new_context
  new_context-IsIndexed loop node properties children s s' made e keeps h ok =
      let (read, found, h1) = >>=-eq-done (read_attrs atoi staging_mode properties no_attrs) _ h in
      finish-IsIndexed loop node properties children s s' made read e keeps found h1 ok

  placed-IsIndexed :
      (node : ℕ) (properties : List (Bytes × Option Bytes)) (s : Building) (made : Made)
      → Indexed s
      → Indexed ((placed atoi staging_mode structure_from_structure_id node properties s made).0)
  unfolding placed
  placed-IsIndexed node properties s none ok = ok
  placed-IsIndexed node properties s (some (c, children)) ok = record {
    by_id = ok.by_id;
    by_permalink = ok.by_permalink;
  }

  build_children-IsIndexed :
      (feed : FeedNodes) (s s' : Building) (left : FeedNodes)
      → IsTree atoi staging_mode properties_of feed
      → build feed s ≡ done (s', left)
      → Indexed s
      → Indexed s'
  unfolding build_children
  build_children-IsIndexed end s s' left tree h ok =
      subst Indexed (ap (λ (x : Building × FeedNodes). x.0) (done-injective h)) ok
  build_children-IsIndexed (then_node feed_other rest) s s' left tree h ok =
      let ((s1, left1), later, h1) = >>=-eq-done (build rest s) _ h in
      subst Indexed (ap (λ (x : Building × FeedNodes). x.0) (done-injective h1))
        (build_children-IsIndexed rest s s1 left1 tree later ok)
  build_children-IsIndexed (then_node (feed_element node properties (some c) children) rest) s s'
        left tree h ok =
      let ((s1, left1), later, h1) = >>=-eq-done (build rest s) _ h in
      subst Indexed (ap (λ (x : Building × FeedNodes). x.0) (done-injective h1))
        (build_children-IsIndexed rest s s1 left1 tree.2 later ok)
  build_children-IsIndexed (then_node (feed_element node properties none children) rest) s s' left
        tree h ok =
      let ((s1, made), here, h1) =
        >>=-eq-done
          (new_context atoi staging_mode structure_from_structure_id (build children) node
            properties children s)
          _ h in
      let ok1 =
        new_context-IsIndexed (build children) node properties children s s1 made tree.0
          (λ t t' below. build_children-IsIndexed children t t' below tree.1) here ok in
      let ((s3, left3), later, h3) = >>=-eq-done _ _ h1 in
      subst Indexed (ap (λ (x : Building × FeedNodes). x.0) (done-injective h3)) (
        build_children-IsIndexed rest _ s3 left3 tree.2 later
          (placed-IsIndexed node properties s1 made ok1))

  -- Building the contexts of a feed keeps the maps of the site right: every id of the map has a node with
  -- this id, every permalink a node with this permalink, and outside of staging mode none of these nodes
  -- has a property `staging`. `properties_of` tells the properties of each node of the feed.
  pub build_roots-IsIndexed :
      (feed : FeedNodes) (s s' : Building) (left : FeedNodes)
      → IsTree atoi staging_mode properties_of feed
      → build_roots atoi staging_mode structure_from_structure_id feed s ≡ done (s', left)
      → Indexed s
      → Indexed s'
  unfolding build_roots
  build_roots-IsIndexed end s s' left tree h ok =
      subst Indexed (ap (λ (x : Building × FeedNodes). x.0) (done-injective h)) ok
  build_roots-IsIndexed (then_node feed_other rest) s s' left tree h ok =
      let ((s1, left1), later, h1) =
        >>=-eq-done (build_roots atoi staging_mode structure_from_structure_id rest s) _ h in
      subst Indexed (ap (λ (x : Building × FeedNodes). x.0) (done-injective h1))
        (build_roots-IsIndexed rest s s1 left1 tree later ok)
  build_roots-IsIndexed (then_node (feed_element node properties private children) rest) s s' left
        tree h ok =
      let ((s1, made), here, h1) =
        >>=-eq-done
          (new_context atoi staging_mode structure_from_structure_id (build children) node
            properties children s)
          _ h in
      let ok1 =
        new_context-IsIndexed (build children) node properties children s s1 made tree.0
          (λ t t' below. build_children-IsIndexed children t t' below tree.1) here ok in
      let ((s3, left3), later, h3) = >>=-eq-done _ _ h1 in
      subst Indexed (ap (λ (x : Building × FeedNodes). x.0) (done-injective h3)) (
        build_roots-IsIndexed rest _ s3 left3 tree.2 later
          (placed-IsIndexed node properties s1 made ok1))
