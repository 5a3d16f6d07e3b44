-- ===== src/Context/Maps.antt =====
-- `initializeAssociation` of context.cpp leaves the two maps of the site as they are.
use vaedb.Common.{ℕ, ◌≡◌, ap, ◌∙◌, List, [], ◌∷◌, Bytes, Bool-cases, Option-cases, inl, inr, ◌==◌}
use vaedb.Common.Int.{ℤ, pos, ltb_ℤ, ℤ_discrete}
use vaedb.Common.Map.{lookup}
use vaedb.Common.Outcome.{done, >>=-eq-done, done-injective}
use vaedb.Query.{result, get_size, get_node}
use vaedb.Context.Associations.{
  LibXml, Graph, deref, vector_of, text_in, forward, reverse_link, note_pointer, delete_context,
  associate, drop_node, initialize_association, initialize_all,
}

-- The map of ids and that of permalinks.
abbrev pub maps : Graph → List (ℤ × ℕ) × List (Bytes × ℕ)
maps g = (g.nodes, g.permalinks)

module _ (xml : LibXml) (atoi : Bytes → ℤ) where
  open xml use {copy_node}

  forward-maps :
      (node associated : ℕ) (g g' : Graph)
      → forward xml atoi node associated g ≡ done g'
      → maps g ≡ maps g'
  unfolding forward
  forward-maps node associated g g' h =
      let (child, _, h1) = >>=-eq-done (deref _) _ h in ap maps (done-injective h1)

  reverse_link-maps :
      (node associated pointer : ℕ) (g g' : Graph)
      → reverse_link xml atoi node associated g ≡ done (pointer, g')
      → maps g ≡ maps g'
  unfolding reverse_link
  reverse_link-maps node associated pointer g g' h =
      let (parent, _, h1) = >>=-eq-done (deref (g.heap node).parent) _ h in
      elim (Option-cases (copy_node parent g.heap)) [
        | inl e ↦ absurd (cc (rw e at h1))
        | inr ((p, heap), e) ↦ ap (λ (x : ℕ × Graph). maps x.1) (done-injective (rw e at h1))
      ]

  note_pointer-maps :
      (node associated pointer : ℕ) (g g' : Graph)
      → note_pointer xml atoi node associated pointer g ≡ done g'
      → maps g ≡ maps g'
  unfolding note_pointer
  note_pointer-maps node associated pointer g g' h =
      let (parent, _, h1) = >>=-eq-done (deref (g.heap node).parent) _ h in
      let (context, _, h2) = >>=-eq-done (deref (g.heap parent).private) _ h1 in
      let (pointers, _, h3) = >>=-eq-done (vector_of context g.pointer_nodes) _ h2 in
      let (other, _, h4) = >>=-eq-done (deref (g.heap associated).private) _ h3 in
      let (placed, _, h5) = >>=-eq-done (vector_of other _) _ h4 in ap maps (done-injective h5)

  associate-maps :
      (context node associated : ℕ) (g g' : Graph)
      → associate xml atoi context node associated g ≡ done g'
      → maps g ≡ maps g'
  unfolding associate delete_context
  associate-maps context node associated g g' h =
      let (g1, f, h1) = >>=-eq-done (forward xml atoi node associated g) _ h in
      let ((pointer, g2), r, h2) = >>=-eq-done (reverse_link xml atoi node associated g1) _ h1 in
      let (g3, n, h3) = >>=-eq-done (note_pointer xml atoi node associated pointer g2) _ h2 in
      forward-maps node associated g g1 f
      ∙ reverse_link-maps node associated pointer g1 g2 r
      ∙ note_pointer-maps node associated pointer g2 g3 n
      ∙ ap maps (done-injective h3)

  dropped-maps :
      (context node : ℕ) (g g' : Graph) → drop_node xml atoi context node g ≡ g' → maps g ≡ maps g'
  unfolding drop_node delete_context
  dropped-maps context node g g' is = ap maps is

  initialize_association-maps :
      (context node : ℕ) (g g' : Graph)
      → initialize_association xml atoi context node g ≡ done g'
      → maps g ≡ maps g'
  unfolding initialize_association
  initialize_association-maps context node g g' h =
      let query = result (lookup ℤ_discrete (atoi (text_in g.heap node)) g.nodes) in
      elim (Bool-cases (ltb_ℤ (pos 0) (atoi (text_in g.heap node)))) [
        | inr e ↦ dropped-maps context node g g' (done-injective (rw e at h))
        | inl e ↦
            let (size, _, h1) = >>=-eq-done (get_size query) _ (rw e at h) in
            elim (Bool-cases (size == 1)) [
              | inr e' ↦ dropped-maps context node g g' (done-injective (rw e' at h1))
              | inl e' ↦
                  let (associated, _, h2) = >>=-eq-done (get_node query 0) _ (rw e' at h1) in
                  associate-maps context node associated g g' h2
            ]
      ]

  pub initialize_all-maps :
      (list : List (ℕ × ℕ)) (g g' : Graph)
      → initialize_all xml atoi list g ≡ done g'
      → maps g ≡ maps g'
  unfolding initialize_all
  initialize_all-maps [] g g' h = ap maps (done-injective h)
  initialize_all-maps ((context, node) ∷ rest) g g' h =
      let (g1, first, later) = >>=-eq-done (initialize_association xml atoi context node g) _ h in
      initialize_association-maps context node g g1 first ∙ initialize_all-maps rest g1 g' later
