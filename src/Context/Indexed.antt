-- ===== src/Context/Indexed.antt =====
-- What the maps of a site should hold after its contexts are built.
use vaedb.Common.{
  ℕ, ◌≡◌, refl, sym, ap, ◌∙◌, Bool, false, Option, some, List, [], ◌∷◌, Bytes, codes, eqb,
  Bytes-discrete, if_pos, if_neg, arith, Bool-cases, Option-cases, inl, inr, subst, if◌then◌else◌,
}
use vaedb.Common.Int.{ℤ, ℤ_discrete}
use vaedb.Common.Map.{lookup, assign, lookup-assign}
use vaedb.Common.Outcome.{done, >>=-eq-done}
use vaedb.Xml.Cells.{has_property}
use vaedb.Context.Build.{
  feed_element, feed_other, FeedNodes, end, then_node, Building, Attrs, no_attrs, unless_staging,
  read_attr, read_attrs,
}

-- Which keys a map has after an assignment: the entry, or an old one.
pub assigned {ℓ} :
    {K V : Type 0} (dec : Discrete K) (P : K → V → Type ℓ) (k : K) (v : V) (m : List (K × V))
    → P k v
    → ((q : K) (w : V) → lookup dec q m ≡ some w → P q w)
    → (q : K) (w : V) → lookup dec q (assign dec k v m) ≡ some w
    → P q w
assigned dec P k v m new old q w h = elim (dec k q) [
  | yes same ↦
      let first : some v ≡ some w =
        sym (lookup-assign dec k q v m ∙ if_pos (dec k q) same _ _) ∙ h in
      let v_ : v ≡ w = cc in subst (λ (x : _). P x w) same (subst (P k) v_ new)
  | no other ↦ old q w (sym (lookup-assign dec k q v m ∙ if_neg (dec k q) other _ _) ∙ h)
]

module _ (atoi : Bytes → ℤ) (staging_mode : Bool)
    (properties_of : ℕ → List (Bytes × Option Bytes)) where
  -- `properties_of` tells the properties of each node of the tree.
  abbrev pub IsTree : FeedNodes → Type 0
  IsTree end = Unit
  IsTree (then_node feed_other rest) = IsTree rest
  IsTree (then_node (feed_element node properties private children) rest) =
      (properties_of node ≡ properties) × IsTree children × IsTree rest

  -- A node that may be found: its attributes, and that no property marks it as staging in production.
  abbrev pub Shows : (Attrs → Type 0) → ℕ → Type 0
  Shows P node =
      (a : Attrs) × (read_attrs atoi staging_mode (properties_of node) no_attrs ≡ done (some a))
      × P a
      × ((if staging_mode then false else has_property (codes "staging") (properties_of node))
          ≡ false)

  -- Each id of the map has a node with this id, and each permalink a node with this permalink.
  pub record IsIndexed (s : Building) : Type 0 where
    pub by_id :
        (id : ℤ) (node : ℕ) → lookup ℤ_discrete id s.nodes ≡ some node → Shows (λ a. a.id ≡ id) node
    pub by_permalink :
        (permalink : Bytes) (node : ℕ)
        → lookup Bytes-discrete permalink s.permalinks ≡ some node
        → Shows (λ a. a.permalink ≡ some permalink) node

  read_attr-public :
      (name : Bytes) (value : Option Bytes) (a b : Attrs)
      → read_attr atoi staging_mode name value a ≡ done (some b)
      → (if staging_mode then false else eqb name (codes "staging")) ≡ false
  unfolding read_attr unless_staging
  read_attr-public name value a b h =
      let (a3, _, last) = >>=-eq-done _ (unless_staging atoi staging_mode name) h in
      elim (Bool-cases staging_mode) [
        | inl e ↦ rw e refl
        | inr e ↦ elim (Bool-cases (eqb name (codes "staging"))) [
          | inl e' ↦ absurd (cc (rw (e, e') at last))
          | inr e' ↦ rw (e, e') refl
        ]
      ]

  read_attrs-public :
      (properties : List (Bytes × Option Bytes)) (a b : Attrs)
      → read_attrs atoi staging_mode properties a ≡ done (some b)
      → (if staging_mode then false else has_property (codes "staging") properties) ≡ false
  unfolding read_attrs has_property
  read_attrs-public [] a b h = ground arith
  read_attrs-public ((name, value) ∷ rest) a b h =
      let (read, first, h1) = >>=-eq-done (read_attr atoi staging_mode name value a) _ h in
      elim (Option-cases read) [
        | inl e ↦ absurd (cc (rw e at h1))
        | inr (a', e) ↦
            let here = read_attr-public name value a a' (first ∙ ap done e) in
            let later = read_attrs-public rest a' b (rw e at h1) in ground (arith, here, later)
      ]

  pub shown :
      (P : Attrs → Type 0) (node : ℕ) (properties : List (Bytes × Option Bytes)) (a : Attrs)
      → properties_of node ≡ properties
      → read_attrs atoi staging_mode properties no_attrs ≡ done (some a)
      → P a
      → Shows P node
  shown P node properties a e read p =
      rw e (a, read, p, read_attrs-public properties no_attrs a read)
