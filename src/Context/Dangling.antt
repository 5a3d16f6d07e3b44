-- ===== src/Context/Dangling.antt =====
-- An association in context.cpp that names no node: the constructor of its context, `initializeAssociation`, and the
-- maps of the site.
use vaedb.Common.{
  ℕ, ◌≡◌, refl, ap, ◌∙◌, Bool, Option, none, some, List, any, Bytes, Bytes-discrete, arith,
  Bool-cases, inl, inr, if_pos, subst,
}
use vaedb.Common.Int.{ℤ, pos, ltb_ℤ, ℤ_discrete}
use vaedb.Common.Map.{lookup, lookup-assign}
use vaedb.Common.Outcome.{Outcome, done, >>=-eq-done, done-injective}
use vaedb.Query.{result, get_size}
use vaedb.Context.{Structure, Context}
use vaedb.Context.Build.{
  FeedNodes, Building, Attrs, Made, read_attrs, typed, made_of, descend, finish, register,
  new_context, no_attrs,
}
use vaedb.Context.Associations.{
  LibXml, Graph, text_in, delete_context, drop_node, initialize_association,
}
use vaedb.Context.Cleaning.Cuts.{IsNoted}

module _ (atoi : Bytes → ℤ) (staging_mode : Bool)
    (structures : ℤ
      → List (ℤ × Structure)
      → Outcome (List (ℤ × Structure) × Option Structure)) where
  -- The maps lead from the id and the permalink of a context to its node.
  abbrev pub Leads : Context → List (ℤ × ℕ) → List (Bytes × ℕ) → Type 0
  Leads c nodes permalinks =
      (lookup ℤ_discrete c.id nodes ≡ some c.node)
      × ((permalink : Bytes)
          → c.permalink ≡ some permalink
          → lookup Bytes-discrete permalink permalinks ≡ some c.node)

  register-Leads :
      (c : Context) (s : Building)
      → Leads c
          (register atoi staging_mode structures c s).nodes
          (register atoi staging_mode structures c s).permalinks
  unfolding register
  register-Leads c s = (
    lookup-assign ℤ_discrete c.id c.id c.node s.nodes ∙ if_pos (ℤ_discrete c.id c.id) refl _ _,
    λ permalink e.
        rw (e, register)
          (lookup-assign Bytes-discrete permalink permalink c.node s.permalinks
            ∙ if_pos (Bytes-discrete permalink permalink) refl _ _),
  )

  -- What the constructor of a context of this node has made.
  abbrev IsPut : ℕ → Building × Made → Type 0
  IsPut node (s, none) = Unit
  IsPut node (s, some (c, left)) = (c.node ≡ node) × Leads c s.nodes s.permalinks

  finish-IsPut :
      (build : Building → Outcome (Building × FeedNodes)) (node : ℕ) (children : FeedNodes)
      (s : Building) (read : Option Attrs) (made : Building × Made)
      → finish atoi staging_mode structures build node children s read ≡ done made
      → IsPut node made
  unfolding finish made_of
  finish-IsPut build node children s none made h = subst (IsPut node) (done-injective h) tt
  finish-IsPut build node children s (some a) made h =
      let ((s1, structure), _, h1) =
        >>=-eq-done (typed atoi staging_mode structures a.structure_id s) _ h in
      let c = made_of atoi staging_mode structures node a structure in
      let ((s2, rest), _, h2) =
        >>=-eq-done (descend atoi staging_mode structures build c children s1) _ h1 in
      subst (IsPut node) (done-injective h2) (refl, register-Leads c s2)

  new_context-IsPut :
      (build : Building → Outcome (Building × FeedNodes)) (node : ℕ)
      (properties : List (Bytes × Option Bytes)) (children : FeedNodes) (s : Building)
      (made : Building × Made)
      → new_context atoi staging_mode structures build node properties children s ≡ done made
      → IsPut node made
  unfolding new_context
  new_context-IsPut build node properties children s made h =
      let (read, _, h1) = >>=-eq-done (read_attrs atoi staging_mode properties no_attrs) _ h in
      finish-IsPut build node children s read made h1

  module _ (xml : LibXml) where
    -- An association that names no node: with the maps of the site as the constructor of its context leaves them, if
    -- its text is the id of no node there, then `initializeAssociation` frees its node, and the maps behind it still
    -- lead to this node, from the id of the context and from its permalink: dangling pointers.
    pub initialize_association-dangling :
        (build : Building → Outcome (Building × FeedNodes)) (node context : ℕ)
        (properties : List (Bytes × Option Bytes)) (children left : FeedNodes) (s s' : Building)
        (c : Context) (g : Graph)
        → new_context atoi staging_mode structures build node properties children s
          ≡ done (s', some (c, left))
        → g.nodes ≡ s'.nodes
        → g.permalinks ≡ s'.permalinks
        → lookup ℤ_discrete (atoi (text_in g.heap node)) g.nodes ≡ none
        → (g' : Graph) × (initialize_association xml atoi context node g ≡ done g')
          × IsNoted node g'.freed
          × (lookup ℤ_discrete c.id g'.nodes ≡ some node)
          × ((permalink : Bytes)
              → c.permalink ≡ some permalink
              → lookup Bytes-discrete permalink g'.permalinks ≡ some node)
    unfolding initialize_association result get_size drop_node delete_context any
    initialize_association-dangling build node context properties children left s s' c g made ids
          links gone =
        let (is, leads) =
          new_context-IsPut build node properties children s (s', some (c, left)) made in
        (
          drop_node xml atoi context node g,
          elim (Bool-cases (ltb_ℤ (pos 0) (atoi (text_in g.heap node)))) [
            | inl e ↦ rw (e, gone, result) refl
            | inr e ↦ rw e refl
          ],
          ground arith,
          ap (lookup ℤ_discrete c.id) ids ∙ leads.0 ∙ ap some is,
          λ permalink e.
              ap (lookup Bytes-discrete permalink) links ∙ leads.1 permalink e ∙ ap some is,
        )
