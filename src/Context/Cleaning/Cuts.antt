-- ===== src/Context/Cleaning/Cuts.antt =====
-- One round of each loop of `Site::~Site`, and what it leaves of a node.
use vaedb.Common.{
  ℕ, ◌≡◌, refl, sym, ap, ◌∙◌, true, false, none, some, List, any, arith, Bool-cases, Option-cases,
  inl, inr, ◌⊎◌, ◌==◌,
}
use vaedb.Context.Associations.{Link, Heap, write, cut_rest, cut_node}

-- The address is in the list.
abbrev pub IsNoted : ℕ → List ℕ → Type 0
IsNoted p ps = any (λ q. q == p) ps ≡ true

-- A node that has its own first child only, and neither properties nor a context.
pub record IsCut (h : Heap) (p : ℕ) : Type 0 where
  pub no_properties : (h p).properties ≡ none
  pub no_private : (h p).private ≡ none
  pub short : (h p).last ≡ (h p).children
  pub no_siblings : (child : ℕ) → (h p).children ≡ some child → (h child).next ≡ none

-- A node that has nothing.
pub record IsBare (h : Heap) (p : ℕ) : Type 0 where
  pub no_properties : (h p).properties ≡ none
  pub no_private : (h p).private ≡ none
  pub no_children : (h p).children ≡ none
  pub no_last : (h p).last ≡ none

pub same-link : (p q : ℕ) (h : Heap) → (p == q) ≡ true → h p ≡ h q
same-link p q h e = let same : p ≡ q = ground (arith, e) in ap h same

abbrev pub alone : Link → Link
alone l = record l { next = none }

-- The first loop body of the second loop touches at most the `next` of a node.
pub cut_rest-cases : (p q : ℕ) (h : Heap) → (cut_rest p h q ≡ h q) ⊎ (cut_rest p h q ≡ alone (h q))
unfolding cut_rest write
cut_rest-cases p q h = elim (Option-cases (h p).children) [
  | inl e ↦ inl (rw (e, cut_rest) refl)
  | inr (c, e) ↦ elim (Bool-cases (c == q)) [
    | inl e' ↦ inr (rw (e, cut_rest, e', write) refl)
    | inr e' ↦ inl (rw (e, cut_rest, e', write) refl)
  ]
]

pub cut_rest-keeps {ℓ} :
    {A : Type ℓ} (field : Link → A) (p q : ℕ) (h : Heap)
    → field (alone (h q)) ≡ field (h q)
    → field (cut_rest p h q) ≡ field (h q)
cut_rest-keeps field p q h same = elim (cut_rest-cases p q h) [
  | inl e ↦ ap field e
  | inr e ↦ ap field e ∙ same
]

pub cut_rest-next : (p q : ℕ) (h : Heap) → (h q).next ≡ none → (cut_rest p h q).next ≡ none
cut_rest-next p q h none_ = elim (cut_rest-cases p q h) [
  | inl e ↦ ap (λ (l : Link). l.next) e ∙ none_
  | inr e ↦ ap (λ (l : Link). l.next) e
]

pub cut_rest-child :
    (p child : ℕ) (h : Heap) → (h p).children ≡ some child → (cut_rest p h child).next ≡ none
unfolding cut_rest write
cut_rest-child p child h e =
    let same : (child == child) ≡ true = ground arith in rw (e, cut_rest, same, write) refl

-- The node itself, and the others.
pub cut_node_at :
    (p q : ℕ) (h : Heap)
    → (p == q) ≡ true
    → cut_node p h q ≡ record (cut_rest p h q) {
      last = (cut_rest p h p).children;
      properties = none;
      private = none;
    }
unfolding cut_node write
cut_node_at p q h e = rw (e, cut_node, write) refl

pub cut_node_off : (p q : ℕ) (h : Heap) → (p == q) ≡ false → cut_node p h q ≡ cut_rest p h q
unfolding cut_node write
cut_node_off p q h e = rw (e, cut_node, write) refl

pub cut_node-children : (p q : ℕ) (h : Heap) → (cut_node p h q).children ≡ (h q).children
cut_node-children p q h = elim (Bool-cases (p == q)) [
  | inl e ↦
      ap (λ (l : Link). l.children) (cut_node_at p q h e)
      ∙ cut_rest-keeps (λ l. l.children) p q h refl
  | inr e ↦
      ap (λ (l : Link). l.children) (cut_node_off p q h e)
      ∙ cut_rest-keeps (λ l. l.children) p q h refl
]

pub cut_node_next :
    (p q : ℕ) (h : Heap) → (cut_rest p h q).next ≡ none → (cut_node p h q).next ≡ none
cut_node_next p q h none_ = elim (Bool-cases (p == q)) [
  | inl e ↦ ap (λ (l : Link). l.next) (cut_node_at p q h e) ∙ none_
  | inr e ↦ ap (λ (l : Link). l.next) (cut_node_off p q h e) ∙ none_
]

pub cut_node-IsCut : (p : ℕ) (h : Heap) → IsCut (cut_node p h) p
cut_node-IsCut p h =
    let here = cut_node_at p p h (ground arith) in
    record {
      no_properties = ap (λ (l : Link). l.properties) here;
      no_private = ap (λ (l : Link). l.private) here;
      short = ap (λ (l : Link). l.last) here ∙ sym (ap (λ (l : Link). l.children) here);
      no_siblings = λ child e.
          cut_node_next p child h (cut_rest-child p child h (sym (cut_node-children p p h) ∙ e));
    }
