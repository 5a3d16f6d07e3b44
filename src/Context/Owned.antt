-- ===== src/Context/Owned.antt =====
-- A node keeps its first child while `initializeAssociation` of context.cpp works on the associations of a site, and
-- while `Site::~Site` undoes this.
use vaedb.Common.{
  ℕ, ◌≡◌, refl, ap, ◌∙◌, false, Option, some, List, [], ◌∷◌, ◌++◌, any, All, Bytes, arith,
  Bool-cases, Option-cases, inl, inr, ◌==◌, subst,
}
use vaedb.Common.Int.{ℤ, pos, ltb_ℤ, ℤ_discrete}
use vaedb.Common.Map.{lookup}
use vaedb.Common.Outcome.{done, >>=-eq-done, done-injective}
use vaedb.Query.{result, get_size, get_node}
use vaedb.Context.Associations.{
  Link, Heap, LibXml, Graph, write, deref, vector_of, text_in, update_last, free_rest, forward,
  reverse_link, note_pointer, delete_context, associate, drop_node, initialize_association,
  initialize_all, bare, clean_pointers, clean_forward, clean,
}
use vaedb.Context.Cleaning.Cuts.{cut_node-children}

-- What libxml2 leaves alone of a node that lives: freeing properties, freeing other nodes and copying do not write
-- its first child, a copy has another address, `xmlAddChild` appends behind the first child, and `xmlUnlinkNode`
-- changes it only if it is the node that is unlinked.
pub record KeepsChild (xml : LibXml) (p : ℕ) : Type 0 where
  pub props : (x : Option ℕ) (h : Heap) → (xml.free_prop_list x h p).children ≡ (h p).children
  pub siblings : (x : Option ℕ) (h : Heap) → (xml.free_node_list x h p).children ≡ (h p).children
  pub copied :
      (q pointer : ℕ) (h h' : Heap)
      → xml.copy_node q h ≡ some (pointer, h')
      → ((pointer == p) ≡ false) × ((h' p).children ≡ (h p).children)
  pub added :
      (q r c : ℕ) (h : Heap) → (h p).children ≡ some c → (xml.add_child q r h p).children ≡ some c
  pub unlinked :
      (q c : ℕ) (h : Heap)
      → (h p).children ≡ some c
      → (q == c) ≡ false
      → (xml.unlink_node q h p).children ≡ some c
  pub freeing : (q : ℕ) (h : Heap) → (xml.free_node q h p).children ≡ (h p).children

-- The node has this first child, and is no pointer node that the destructor empties.
abbrev pub Owns : ℕ → ℕ → Graph → Type 0
Owns p c g = ((g.heap p).children ≡ some c) × (any (λ q. q == p) g.nodes_to_clean ≡ false)

write-children :
    (q p : ℕ) (f : Link → Link) (h : Heap)
    → ((l : Link) → (f l).children ≡ l.children)
    → (write q f h p).children ≡ (h p).children
unfolding write
write-children q p f h keeps = elim (Bool-cases (q == p)) [
  | inl e ↦ rw (e, write) (keeps (h p))
  | inr e ↦ rw (e, write) refl
]

write_off : (q p : ℕ) (f : Link → Link) (h : Heap) → (q == p) ≡ false → write q f h p ≡ h p
unfolding write
write_off q p f h e = rw (e, write) refl

update_last-children :
    (p : ℕ) (ps : List ℕ) (last : Option ℕ) (h : Heap)
    → (update_last ps last h p).children ≡ (h p).children
unfolding update_last
update_last-children p [] last h = refl
update_last-children p (q ∷ ps) last h =
    update_last-children p ps last (write q (λ l. record l { last = last }) h)
    ∙ write-children q p (λ l. record l { last = last }) h (λ l. refl)

any-last :
    (p x : ℕ) (xs : List ℕ)
    → any (λ q. q == p) xs ≡ false
    → (x == p) ≡ false
    → any (λ q. q == p) (xs ++ x ∷ []) ≡ false
unfolding any
any-last p x [] h e = ground (arith, e)
any-last p x (y ∷ xs) h e = ground (arith, h, e, any-last p x xs)

module _ (xml : LibXml) (atoi : Bytes → ℤ) (p c : ℕ) (laws : KeepsChild xml p) where
  free_rest-children :
      (node : ℕ) (h : Heap) → (free_rest xml atoi node h p).children ≡ (h p).children
  unfolding free_rest
  free_rest-children node h = elim (Option-cases (h node).children) [
    | inl e ↦ rw (e, free_rest) refl
    | inr (child, e) ↦ rw (e, free_rest) (laws.siblings _ h)
  ]

  forward-Owns :
      (node associated : ℕ) (g g' : Graph)
      → forward xml atoi node associated g ≡ done g'
      → Owns p c g
      → Owns p c g'
  unfolding forward
  forward-Owns node associated g g' h (own, apart) =
      let (child, _, h1) = >>=-eq-done (deref _) _ h in
      subst (Owns p c) (done-injective h1) (
        write-children node p _ _ (λ l. refl)
            ∙ write-children child p _ _ (λ l. refl)
            ∙ free_rest-children node (xml.free_prop_list (g.heap node).properties g.heap)
            ∙ laws.props (g.heap node).properties g.heap
            ∙ own,
        apart,
      )

  reverse_link-Owns :
      (node associated pointer : ℕ) (g g' : Graph)
      → reverse_link xml atoi node associated g ≡ done (pointer, g')
      → Owns p c g
      → Owns p c g'
  unfolding reverse_link
  reverse_link-Owns node associated pointer g g' h (own, apart) =
      let (parent, _, h1) = >>=-eq-done (deref (g.heap node).parent) _ h in
      elim (Option-cases (xml.copy_node parent g.heap)) [
        | inl e ↦ absurd (cc (rw e at h1))
        | inr ((q, heap), e) ↦
            let is = done-injective (rw e at h1) in
            let (other, kept) = laws.copied parent q g.heap heap e in
            subst (λ (x : ℕ × Graph). Owns p c x.1) is
              (
                laws.added associated q c _
                    (ap (λ (l : Link). l.children) (write_off q p _ heap other) ∙ kept ∙ own),
                any-last p q g.nodes_to_clean apart other,
              )
      ]

  note_pointer-Owns :
      (node associated pointer : ℕ) (g g' : Graph)
      → note_pointer xml atoi node associated pointer g ≡ done g'
      → Owns p c g
      → Owns p c g'
  unfolding note_pointer
  note_pointer-Owns node associated pointer g g' h (own, apart) =
      let (parent, _, h1) = >>=-eq-done (deref (g.heap node).parent) _ h in
      let (context, _, h2) = >>=-eq-done (deref (g.heap parent).private) _ h1 in
      let (pointers, _, h3) = >>=-eq-done (vector_of context g.pointer_nodes) _ h2 in
      let (other, _, h4) = >>=-eq-done (deref (g.heap associated).private) _ h3 in
      let (placed, _, h5) = >>=-eq-done (vector_of other _) _ h4 in
      subst (Owns p c) (done-injective h5)
        (update_last-children p placed (g.heap associated).last g.heap ∙ own, apart)

  associate-Owns :
      (context node associated : ℕ) (g g' : Graph)
      → associate xml atoi context node associated g ≡ done g'
      → Owns p c g
      → Owns p c g'
  unfolding associate delete_context
  associate-Owns context node associated g g' h owns =
      let (g1, f, h1) = >>=-eq-done (forward xml atoi node associated g) _ h in
      let ((pointer, g2), r, h2) = >>=-eq-done (reverse_link xml atoi node associated g1) _ h1 in
      let (g3, n, h3) = >>=-eq-done (note_pointer xml atoi node associated pointer g2) _ h2 in
      let first = forward-Owns node associated g g1 f owns in
      let second = reverse_link-Owns node associated pointer g1 g2 r first in
      let (own, apart) = note_pointer-Owns node associated pointer g2 g3 n second in
      subst (Owns p c) (done-injective h3) (own, apart)

  dropped-Owns :
      (context node : ℕ) (g g' : Graph)
      → (node == c) ≡ false
      → drop_node xml atoi context node g ≡ g'
      → Owns p c g
      → Owns p c g'
  unfolding drop_node delete_context
  dropped-Owns context node g g' other is (own, apart) =
      subst (Owns p c) is (laws.freeing node _ ∙ laws.unlinked node c g.heap own other, apart)

  initialize_association-Owns :
      (context node : ℕ) (g g' : Graph)
      → (node == c) ≡ false
      → initialize_association xml atoi context node g ≡ done g'
      → Owns p c g
      → Owns p c g'
  unfolding initialize_association
  initialize_association-Owns context node g g' other h owns =
      let id = atoi (text_in g.heap node) in
      let query = result (lookup ℤ_discrete id g.nodes) in
      elim (Bool-cases (ltb_ℤ (pos 0) id)) [
        | inr e ↦ dropped-Owns context node g g' other (done-injective (rw e at h)) owns
        | inl e ↦
            let (size, _, h1) = >>=-eq-done (get_size query) _ (rw e at h) in
            elim (Bool-cases (size == 1)) [
              | inr e' ↦ dropped-Owns context node g g' other (done-injective (rw e' at h1)) owns
              | inl e' ↦
                  let (associated, _, h2) = >>=-eq-done (get_node query 0) _ (rw e' at h1) in
                  associate-Owns context node associated g g' h2 owns
            ]
      ]

  pub initialize_all-Owns :
      (list : List (ℕ × ℕ)) (g g' : Graph)
      → All (λ (e : ℕ × ℕ). (e.1 == c) ≡ false) list
      → initialize_all xml atoi list g ≡ done g'
      → Owns p c g
      → Owns p c g'
  unfolding initialize_all
  initialize_all-Owns [] g g' apart h owns = subst (Owns p c) (done-injective h) owns
  initialize_all-Owns ((context, node) ∷ rest) g g' (other, apart) h owns =
      let (g1, first, later) = >>=-eq-done (initialize_association xml atoi context node g) _ h in
      initialize_all-Owns rest g1 g' apart later
        (initialize_association-Owns context node g g1 other first owns)

clean_pointers-children :
    (p : ℕ) (ps : List ℕ) (h : Heap)
    → any (λ q. q == p) ps ≡ false
    → (clean_pointers ps h p).children ≡ (h p).children
unfolding clean_pointers any bare
clean_pointers-children p [] h apart = refl
clean_pointers-children p (q ∷ ps) h apart = elim (Bool-cases (q == p)) [
  | inl e ↦ absurd (cc (rw e at apart))
  | inr e ↦
      clean_pointers-children p ps (bare q h) (rw e at apart)
      ∙ ap (λ (l : Link). l.children) (write_off q p _ h e)
]

clean_forward-children :
    (p : ℕ) (ps : List ℕ) (h : Heap) → (clean_forward ps h p).children ≡ (h p).children
unfolding clean_forward
clean_forward-children p [] h = refl
clean_forward-children p (q ∷ ps) h = clean_forward-children p ps _ ∙ cut_node-children q p h

-- The two loops of the destructor leave the first child.
pub clean-Owns : (p c : ℕ) (g : Graph) → Owns p c g → (clean g p).children ≡ some c
unfolding clean
clean-Owns p c g (own, apart) =
    clean_forward-children p g.nodes_to_clean2 (clean_pointers g.nodes_to_clean g.heap)
    ∙ clean_pointers-children p g.nodes_to_clean g.heap apart
    ∙ own
