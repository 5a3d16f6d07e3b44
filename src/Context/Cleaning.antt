-- ===== src/Context/Cleaning.antt =====
-- What the loops of `Site::~Site` leave of the nodes that they go through.
pub mod Cuts
use vaedb.Common.{
  ℕ, ◌≡◌, refl, sym, ap, ◌∙◌, true, false, none, some, List, [], ◌∷◌, any, arith, Bool-cases,
  Option-cases, inl, inr, ◌⊎◌, ◌==◌, subst,
}
use vaedb.Context.Associations.{
  Link, Heap, Graph, write, bare, clean_pointers, cut_rest, cut_node, clean_forward, clean,
}
use vaedb.Context.Cleaning.Cuts.{
  IsNoted, IsCut, IsBare, alone, same-link, alone, cut_rest-cases, cut_rest-keeps, cut_rest-next,
  cut_rest-child, cut_node_at, cut_node_off, cut_node-children, cut_node_next, cut_node-IsCut,
}

-- A node that is cut stays so when another is.
IsCut-cut_node : (p q : ℕ) (h : Heap) → IsCut h p → IsCut (cut_node q h) p
IsCut-cut_node p q h c = elim (Bool-cases (q == p)) [
  | inl e ↦
      let same : q ≡ p = ground (arith, e) in
      subst (λ (x : ℕ). IsCut (cut_node q h) x) same (cut_node-IsCut q h)
  | inr e ↦
      let off = cut_node_off q p h e in
      record {
        no_properties =
            ap (λ (l : Link). l.properties) off
            ∙ cut_rest-keeps (λ l. l.properties) q p h refl
            ∙ c.no_properties;
        no_private =
            ap (λ (l : Link). l.private) off
            ∙ cut_rest-keeps (λ l. l.private) q p h refl
            ∙ c.no_private;
        short =
            ap (λ (l : Link). l.last) off
            ∙ cut_rest-keeps (λ l. l.last) q p h refl
            ∙ c.short
            ∙ sym (cut_node-children q p h);
        no_siblings = λ child e'.
            cut_node_next q child h
              (cut_rest-next q child h (c.no_siblings child (sym (cut_node-children q p h) ∙ e')));
      }
]

clean_forward-keeps : (ps : List ℕ) (h : Heap) (p : ℕ) → IsCut h p → IsCut (clean_forward ps h) p
unfolding clean_forward
clean_forward-keeps [] h p c = c
clean_forward-keeps (q ∷ ps) h p c =
    clean_forward-keeps ps (cut_node q h) p (IsCut-cut_node p q h c)

clean_forward-IsCut : (ps : List ℕ) (h : Heap) (p : ℕ) → IsNoted p ps → IsCut (clean_forward ps h) p
unfolding clean_forward any
clean_forward-IsCut [] h p noted = absurd (cc)
clean_forward-IsCut (q ∷ ps) h p noted = elim (Bool-cases (q == p)) [
  | inl e ↦
      let same : q ≡ p = ground (arith, e) in
      clean_forward-keeps ps (cut_node q h) p
        (subst (λ (x : ℕ). IsCut (cut_node q h) x) same (cut_node-IsCut q h))
  | inr e ↦ clean_forward-IsCut ps (cut_node q h) p (rw e at noted)
]

-- The same for the pointer nodes.
IsBare-bare : (p q : ℕ) (h : Heap) → IsBare h p ⊎ (q ≡ p) → IsBare (bare q h) p
unfolding bare write
IsBare-bare p q h given = elim (Bool-cases (q == p)) [
  | inl e ↦ record {
    no_properties = rw (e, bare, write) refl;
    no_private = rw (e, bare, write) refl;
    no_children = rw (e, bare, write) refl;
    no_last = rw (e, bare, write) refl;
  }
  | inr e ↦ elim given [
    | inl b ↦ record {
      no_properties = rw (e, bare, write) b.no_properties;
      no_private = rw (e, bare, write) b.no_private;
      no_children = rw (e, bare, write) b.no_children;
      no_last = rw (e, bare, write) b.no_last;
    }
    | inr same ↦ absurd (ground (arith, e, same))
  ]
]

clean_pointers-keeps :
    (ps : List ℕ) (h : Heap) (p : ℕ) → IsBare h p → IsBare (clean_pointers ps h) p
unfolding clean_pointers
clean_pointers-keeps [] h p b = b
clean_pointers-keeps (q ∷ ps) h p b =
    clean_pointers-keeps ps (bare q h) p (IsBare-bare p q h (inl b))

clean_pointers-IsBare :
    (ps : List ℕ) (h : Heap) (p : ℕ) → IsNoted p ps → IsBare (clean_pointers ps h) p
unfolding clean_pointers any
clean_pointers-IsBare [] h p noted = absurd (cc)
clean_pointers-IsBare (q ∷ ps) h p noted = elim (Bool-cases (q == p)) [
  | inl e ↦
      let same : q ≡ p = ground (arith, e) in
      clean_pointers-keeps ps (bare q h) p (IsBare-bare p q h (inr same))
  | inr e ↦ clean_pointers-IsBare ps (bare q h) p (rw e at noted)
]

-- The second loop leaves a bare node bare.
IsBare-cut_node : (p q : ℕ) (h : Heap) → IsBare h p → IsBare (cut_node q h) p
IsBare-cut_node p q h b = elim (Bool-cases (q == p)) [
  | inl e ↦
      let here = cut_node_at q p h e in
      let same : q ≡ p = ground (arith, e) in
      record {
        no_properties = ap (λ (l : Link). l.properties) here;
        no_private = ap (λ (l : Link). l.private) here;
        no_children = cut_node-children q p h ∙ b.no_children;
        no_last =
            ap (λ (l : Link). l.last) here
            ∙ cut_rest-keeps (λ l. l.children) q q h refl
            ∙ ap (λ (x : ℕ). (h x).children) same
            ∙ b.no_children;
      }
  | inr e ↦
      let off = cut_node_off q p h e in
      record {
        no_properties =
            ap (λ (l : Link). l.properties) off
            ∙ cut_rest-keeps (λ l. l.properties) q p h refl
            ∙ b.no_properties;
        no_private =
            ap (λ (l : Link). l.private) off
            ∙ cut_rest-keeps (λ l. l.private) q p h refl
            ∙ b.no_private;
        no_children = cut_node-children q p h ∙ b.no_children;
        no_last =
            ap (λ (l : Link). l.last) off ∙ cut_rest-keeps (λ l. l.last) q p h refl ∙ b.no_last;
      }
]

clean_forward-IsBare : (ps : List ℕ) (h : Heap) (p : ℕ) → IsBare h p → IsBare (clean_forward ps h) p
unfolding clean_forward
clean_forward-IsBare [] h p b = b
clean_forward-IsBare (q ∷ ps) h p b =
    clean_forward-IsBare ps (cut_node q h) p (IsBare-cut_node p q h b)

pub clean-IsCut : (g : Graph) (p : ℕ) → IsNoted p g.nodes_to_clean2 → IsCut (clean g) p
unfolding clean
clean-IsCut g p noted =
    clean_forward-IsCut g.nodes_to_clean2 (clean_pointers g.nodes_to_clean g.heap) p noted

pub clean-IsBare : (g : Graph) (p : ℕ) → IsNoted p g.nodes_to_clean → IsBare (clean g) p
unfolding clean
clean-IsBare g p noted =
    clean_forward-IsBare g.nodes_to_clean2 (clean_pointers g.nodes_to_clean g.heap) p
      (clean_pointers-IsBare g.nodes_to_clean g.heap p noted)
