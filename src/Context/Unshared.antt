-- ===== src/Context/Unshared.antt =====
-- What is left of the node of an association once all are initialized and the loops of `Site::~Site` have run.
use vaedb.Common.{
  ℕ, ◌≡◌, sym, ap, ◌∙◌, true, false, some, List, [], ◌∷◌, ◌++◌, any, All, Bytes, arith, Bool-cases,
  Option-cases, inl, inr, ◌⊎◌, ◌==◌, subst,
}
use vaedb.Common.Int.{ℤ, pos, ltb_ℤ, ℤ_discrete}
use vaedb.Common.Map.{lookup}
use vaedb.Common.Outcome.{done, >>=-eq-done, done-injective}
use vaedb.Query.{result, get_size, get_node}
use vaedb.Context.Associations.{
  LibXml, Graph, deref, vector_of, text_in, forward, reverse_link, note_pointer, delete_context,
  associate, drop_node, initialize_association, initialize_all, clean,
}
use vaedb.Context.Owned.{KeepsChild, Owns, initialize_all-Owns, clean-Owns}
use vaedb.Context.Cleaning.{clean-IsCut}
use vaedb.Context.Cleaning.Cuts.{IsNoted, IsCut}

IsNoted-append : (p : ℕ) (xs ys : List ℕ) → IsNoted p xs → IsNoted p (xs ++ ys)
unfolding any
IsNoted-append p [] ys h = absurd (cc)
IsNoted-append p (x ∷ xs) ys h = ground (arith, IsNoted-append p xs ys)

IsNoted-last : (p : ℕ) (xs : List ℕ) → IsNoted p (xs ++ p ∷ [])
unfolding any
IsNoted-last p [] = ground arith
IsNoted-last p (x ∷ xs) = ground (arith, IsNoted-last p xs)

-- What is noted stays noted.
abbrev Grows : Graph → Graph → Type 0
Grows g g' =
    ((p : ℕ) → IsNoted p g.freed → IsNoted p g'.freed)
    × ((p : ℕ) → IsNoted p g.nodes_to_clean2 → IsNoted p g'.nodes_to_clean2)

-- The node of an association was freed, or will be cut.
abbrev IsSettled : Graph → ℕ → Type 0
IsSettled g node = IsNoted node g.freed ⊎ IsNoted node g.nodes_to_clean2

abbrev Kept : Graph → Graph → Type 0
Kept g g' = (g'.freed ≡ g.freed) × (g'.nodes_to_clean2 ≡ g.nodes_to_clean2)

module _ (xml : LibXml) (atoi : Bytes → ℤ) where
  open xml use {free_prop_list, copy_node}

  forward_noted :
      (node associated : ℕ) (g g' : Graph)
      → forward xml atoi node associated g ≡ done g'
      → (g'.freed ≡ g.freed) × (g'.nodes_to_clean2 ≡ g.nodes_to_clean2 ++ node ∷ [])
  unfolding forward
  forward_noted node associated g g' h =
      let (child, _, h1) = >>=-eq-done (deref _) _ h in
      let is = done-injective h1 in
      (sym (ap (λ (x : Graph). x.freed) is), sym (ap (λ (x : Graph). x.nodes_to_clean2) is))

  reverse_link-Kept :
      (node associated pointer : ℕ) (g g' : Graph)
      → reverse_link xml atoi node associated g ≡ done (pointer, g')
      → Kept g g'
  unfolding reverse_link
  reverse_link-Kept node associated pointer g g' h =
      let (parent, _, h1) = >>=-eq-done (deref (g.heap node).parent) _ h in
      elim (Option-cases (copy_node parent g.heap)) [
        | inl e ↦ absurd (cc (rw e at h1))
        | inr ((p, heap), e) ↦
            let is = done-injective (rw e at h1) in
            (
              sym (ap (λ (x : ℕ × Graph). x.1.freed) is),
              sym (ap (λ (x : ℕ × Graph). x.1.nodes_to_clean2) is),
            )
      ]

  note_pointer-Kept :
      (node associated pointer : ℕ) (g g' : Graph)
      → note_pointer xml atoi node associated pointer g ≡ done g'
      → Kept g g'
  unfolding note_pointer
  note_pointer-Kept node associated pointer g g' h =
      let (parent, _, h1) = >>=-eq-done (deref (g.heap node).parent) _ h in
      let (context, _, h2) = >>=-eq-done (deref (g.heap parent).private) _ h1 in
      let (pointers, _, h3) = >>=-eq-done (vector_of context g.pointer_nodes) _ h2 in
      let (other, _, h4) = >>=-eq-done (deref (g.heap associated).private) _ h3 in
      let (placed, _, h5) = >>=-eq-done (vector_of other _) _ h4 in
      let is = done-injective h5 in
      (sym (ap (λ (x : Graph). x.freed) is), sym (ap (λ (x : Graph). x.nodes_to_clean2) is))

  associate_noted :
      (context node associated : ℕ) (g g' : Graph)
      → associate xml atoi context node associated g ≡ done g'
      → Grows g g' × IsSettled g' node
  unfolding associate delete_context
  associate_noted context node associated g g' h =
      let (g1, f, h1) = >>=-eq-done (forward xml atoi node associated g) _ h in
      let ((pointer, g2), r, h2) = >>=-eq-done (reverse_link xml atoi node associated g1) _ h1 in
      let (g3, n, h3) = >>=-eq-done (note_pointer xml atoi node associated pointer g2) _ h2 in
      let is = done-injective h3 in
      let k1 = forward_noted node associated g g1 f in
      let k2 = reverse_link-Kept node associated pointer g1 g2 r in
      let k3 = note_pointer-Kept node associated pointer g2 g3 n in
      let freed : g.freed ≡ g'.freed =
        sym k1.0 ∙ sym k2.0 ∙ sym k3.0 ∙ ap (λ (x : Graph). x.freed) is in
      let noted : g.nodes_to_clean2 ++ node ∷ [] ≡ g'.nodes_to_clean2 =
        sym k1.1 ∙ sym k2.1 ∙ sym k3.1 ∙ ap (λ (x : Graph). x.nodes_to_clean2) is in
      (
        (
          λ p there. subst (IsNoted p) freed there,
          λ p there. subst (IsNoted p) noted (IsNoted-append p g.nodes_to_clean2 (node ∷ []) there),
        ),
        inr (subst (IsNoted node) noted (IsNoted-last node g.nodes_to_clean2)),
      )

  drop_noted :
      (context node : ℕ) (g : Graph)
      → Grows g (drop_node xml atoi context node g)
        × IsSettled (drop_node xml atoi context node g) node
  unfolding drop_node delete_context any
  drop_noted context node g =
      ((λ p there. ground (arith, there), λ p there. there), inl (ground arith))

  dropped :
      (context node : ℕ) (g g' : Graph)
      → drop_node xml atoi context node g ≡ g'
      → Grows g g' × IsSettled g' node
  dropped context node g g' is =
      subst (λ (x : Graph). Grows g x × IsSettled x node) is (drop_noted context node g)

  initialize_association_noted :
      (context node : ℕ) (g g' : Graph)
      → initialize_association xml atoi context node g ≡ done g'
      → Grows g g' × IsSettled g' node
  unfolding initialize_association
  initialize_association_noted context node g g' h =
      let id = atoi (text_in g.heap node) in
      let query = result (lookup ℤ_discrete id g.nodes) in
      elim (Bool-cases (ltb_ℤ (pos 0) id)) [
        | inr e ↦ dropped context node g g' (done-injective (rw e at h))
        | inl e ↦
            let (size, _, h1) = >>=-eq-done (get_size query) _ (rw e at h) in
            elim (Bool-cases (size == 1)) [
              | inr e' ↦ dropped context node g g' (done-injective (rw e' at h1))
              | inl e' ↦
                  let (associated, _, h2) = >>=-eq-done (get_node query 0) _ (rw e' at h1) in
                  associate_noted context node associated g g' h2
            ]
      ]

  IsSettled-Grows : (g g' : Graph) (node : ℕ) → Grows g g' → IsSettled g node → IsSettled g' node
  IsSettled-Grows g g' node grows (inl there) = inl (grows.0 node there)
  IsSettled-Grows g g' node grows (inr there) = inr (grows.1 node there)

  initialize_all_noted :
      (list : List (ℕ × ℕ)) (g g' : Graph)
      → initialize_all xml atoi list g ≡ done g'
      → Grows g g' × All (λ (e : ℕ × ℕ). IsSettled g' e.1) list
  unfolding initialize_all
  initialize_all_noted [] g g' h =
      let is = done-injective h in
      (
        (
          λ p there. subst (λ (x : Graph). IsNoted p x.freed) is there,
          λ p there. subst (λ (x : Graph). IsNoted p x.nodes_to_clean2) is there,
        ),
        tt,
      )
  initialize_all_noted ((context, node) ∷ rest) g g' h =
      let (g1, first, later) = >>=-eq-done (initialize_association xml atoi context node g) _ h in
      let (grows1, settled) = initialize_association_noted context node g g1 first in
      let (grows2, others) = initialize_all_noted rest g1 g' later in
      (
        (λ p there. grows2.0 p (grows1.0 p there), λ p there. grows2.1 p (grows1.1 p there)),
        (IsSettled-Grows g1 g' node grows2 settled, others),
      )

  IsSettled-at :
      (p : ℕ) (g : Graph) (list : List (ℕ × ℕ))
      → any (λ (e : ℕ × ℕ). e.1 == p) list ≡ true
      → All (λ (e : ℕ × ℕ). IsSettled g e.1) list
      → IsSettled g p
  unfolding any
  IsSettled-at p g [] listed all = absurd (cc)
  IsSettled-at p g ((context, node) ∷ rest) listed (here, others) = elim (Bool-cases (node == p)) [
    | inl e ↦ let same : node ≡ p = ground (arith, e) in subst (IsSettled g) same here
    | inr e ↦ IsSettled-at p g rest (rw e at listed) others
  ]

  -- After all associations of a site are initialized without an error, the node of an association that had a
  -- first child was freed, or the two loops of the destructor reduce it to that child: it has no other children,
  -- no properties and no context. That is where the calls of libxml2 leave the first child of this node alone, that
  -- child is no association itself, and the node was not noted before as a pointer node.
  pub initialize_all-IsCut :
      (list : List (ℕ × ℕ)) (g g' : Graph) (p c : ℕ)
      → KeepsChild xml p
      → any (λ (e : ℕ × ℕ). e.1 == p) list ≡ true
      → All (λ (e : ℕ × ℕ). (e.1 == c) ≡ false) list
      → Owns p c g
      → initialize_all xml atoi list g ≡ done g'
      → IsNoted p g'.freed ⊎ (IsCut (clean g') p × ((clean g' p).children ≡ some c))
  initialize_all-IsCut list g g' p c laws listed apart owns h =
      let all = (initialize_all_noted list g g' h).1 in
      let owned = initialize_all-Owns xml atoi p c laws list g g' apart h owns in
      elim (IsSettled-at p g' list listed all) [
        | inl there ↦ inl there
        | inr there ↦ inr (clean-IsCut g' p there, clean-Owns p c g' owned)
      ]
