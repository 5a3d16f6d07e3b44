-- ===== src/Response/Create/Infos.antt =====
-- What `createInfo` of response.cpp makes of a path, without its loops and tests.
use vaedb.Common.{
  ℕ, zero, suc, All, ◌⊎◌, eqb-eq, ◌≡◌, sym, ap, ◌∙◌, true, false, Option, none, some, List, [], ◌∷◌,
  ◌++◌, Bytes, codes, eqb, is_empty, arith, subst, Bool-cases, inl, inr, ◌==◌, if◌then◌else◌,
}
use vaedb.Common.Int.{ℤ, pos}
use vaedb.Common.Outcome.{Outcome, done, ◌>>=◌, >>=-eq-done, done-injective}
use vaedb.Xml.Cells.{content_of}
use vaedb.Query.{Source, Query, get_size, get_node, run_design_query}
use vaedb.Query.Resolve.{Patterns}
use vaedb.Response.{eqb_ℤ}
use vaedb.Response.Create.{
  CreateInfo, split_last, moved, target_of, row_of, read_structure_id, info_from, create_under,
  create_one, create_each, create_infos,
}

split_last-append :
    (xs parts : List Bytes) (last_part : Bytes)
    → split_last xs ≡ done (parts, last_part)
    → xs ≡ parts ++ last_part ∷ []
unfolding split_last
split_last-append [] parts last_part h = absurd (cc)
split_last-append (s ∷ []) parts last_part h =
    let is = done-injective h in ap (λ (x : List Bytes × Bytes). x.0 ++ x.1 ∷ []) is
split_last-append (s ∷ (t ∷ rest)) parts last_part h =
    let ((before, found), e, h1) = >>=-eq-done (split_last (t ∷ rest)) _ h in
    let is = done-injective h1 in
    ap (λ (xs : List Bytes). s ∷ xs) (split_last-append (t ∷ rest) before found e)
    ∙ ap (λ (x : List Bytes × Bytes). x.0 ++ x.1 ∷ []) is

-- No property is named `id`.
abbrev pub HasNoId : List (Bytes × Option Bytes) → Type 0
HasNoId = All (λ (e : Bytes × Option Bytes). eqb e.0 (codes "id") ≡ false)

-- The value of the last property that is named `id`, or `before` if there is none.
abbrev pub IsLastId : (Bytes → ℤ) → List (Bytes × Option Bytes) → Option ℤ → Option ℤ → Type 0
IsLastId atoi properties before id =
    (HasNoId properties × (id ≡ before))
    ⊎ ((front : List (Bytes × Option Bytes)) × (value : Bytes) × (back : List
          (Bytes × Option Bytes))
        × (properties ≡ front ++ (codes "id", some value) ∷ back)
        × HasNoId back
        × (id ≡ some (atoi value)))

module _ (patterns : Patterns) (source : Source) (int_text : ℤ → Bytes)
    (fetch : Option ℕ → Bytes → Outcome Query) where
  open patterns use {split, join, atoi}
  open source use {memory, contexts}

  read_structure_id-IsLastId :
      (properties : List (Bytes × Option Bytes)) (before id : Option ℤ)
      → read_structure_id patterns source int_text fetch properties before ≡ done id
      → IsLastId atoi properties before id
  unfolding read_structure_id content_of
  read_structure_id-IsLastId [] before id h = inl (tt, sym (done-injective h))
  read_structure_id-IsLastId ((name, none) ∷ rest) before id h =
      elim (Bool-cases (eqb name (codes "id"))) [
        | inl e ↦ absurd (cc (rw e at h))
        | inr e ↦ elim (read_structure_id-IsLastId rest before id (rw e at h)) [
          | inl (free, same) ↦ inl ((e, free), same)
          | inr (front, v, back, is, free, at) ↦
              inr ((name, none) ∷ front, v, back, ap (λ l. (name, none) ∷ l) is, free, at)
        ]
      ]
  read_structure_id-IsLastId ((name, some value) ∷ rest) before id h =
      elim (Bool-cases (eqb name (codes "id"))) [
        | inl e ↦ elim (read_structure_id-IsLastId rest (some (atoi value)) id (rw e at h)) [
          | inl (free, same) ↦ inr (
            [],
            value,
            rest,
            ap (λ (n : Bytes). (n, some value) ∷ rest) (eqb-eq name (codes "id") e),
            free,
            same,
          )
          | inr (front, v, back, is, free, at) ↦
              inr
                ((name, some value) ∷ front, v, back, ap (λ l. (name, some value) ∷ l) is, free, at)
        ]
        | inr e ↦ elim (read_structure_id-IsLastId rest before id (rw e at h)) [
          | inl (free, same) ↦ inl ((e, free), same)
          | inr (front, v, back, is, free, at) ↦
              inr
                ((name, some value) ∷ front, v, back, ap (λ l. (name, some value) ∷ l) is, free, at)
        ]
      ]

  -- Where the parts before the last lead from a context: nowhere else if there are none or all of them and the
  -- last one are empty, to NULL if only the last part is not empty, as in "/artists", else to the context of the
  -- first node that they find, and nowhere else if they find nothing.
  pub data Leads (context : Option ℕ) (parts : List Bytes) (last_part : Bytes)
      : Option ℕ → Type 0 where
    stays :
        is_empty (join parts (codes "/")) ≡ true
        → (is_empty parts ≡ true) ⊎ (is_empty last_part ≡ true)
        → Leads context parts last_part context
    from_root :
        is_empty (join parts (codes "/")) ≡ true
        → is_empty parts ≡ false
        → is_empty last_part ≡ false
        → Leads context parts last_part none
    finds :
        (found : Query) (n node : ℕ)
        → is_empty (join parts (codes "/")) ≡ false
        → fetch context (join parts (codes "/")) ≡ done found
        → get_size found ≡ done (suc n)
        → get_node found 0 ≡ done node
        → Leads context parts last_part (memory node).private
    finds_nothing :
        (found : Query)
        → is_empty (join parts (codes "/")) ≡ false
        → fetch context (join parts (codes "/")) ≡ done found
        → get_size found ≡ done 0
        → Leads context parts last_part context

  target_of-Leads :
      (context target : Option ℕ) (parts : List Bytes) (last_part : Bytes)
      → target_of patterns source int_text fetch context parts last_part ≡ done target
      → Leads context parts last_part target
  unfolding target_of moved
  target_of-Leads context target parts last_part h =
      elim (Bool-cases (is_empty (join parts (codes "/")))) [
        | inl e ↦ elim (Bool-cases (is_empty last_part)) [
          | inl l ↦
              subst (Leads context parts last_part) (done-injective (rw (e, l) at h))
                (stays e (inr l))
          | inr l ↦ elim (Bool-cases (is_empty parts)) [
            | inl p ↦
                subst (Leads context parts last_part) (done-injective (rw (e, l, p) at h))
                  (stays e (inl p))
            | inr p ↦
                subst (Leads context parts last_part) (done-injective (rw (e, l, p) at h))
                  (from_root e p l)
          ]
        ]
        | inr e ↦
            let (found, f, h1) =
              >>=-eq-done (fetch context (join parts (codes "/"))) _ (rw e at h) in
            let (size, s, h2) = >>=-eq-done (get_size found) _ h1 in under size found e f s h2
      ]
    where
      under :
          (size : ℕ) (found : Query)
          → is_empty (join parts (codes "/")) ≡ false
          → fetch context (join parts (codes "/")) ≡ done found
          → get_size found ≡ done size
          → (if size == 0 then done context else get_node found 0 >>= λ n. done (memory n).private)
            ≡ done target
          → Leads context parts last_part target
      under zero found e f s h2 =
          subst (Leads context parts last_part) (done-injective h2) (finds_nothing found e f s)
      under (suc n) found e f s h2 =
          let not_zero : (suc n == 0) ≡ false = ground arith in
          let (node, at, h3) = >>=-eq-done (get_node found 0) _ (rw not_zero at h2) in
          subst (Leads context parts last_part) (done-injective h3) (finds found n node e f s at)

  -- What an info stands for: the parts of the path before the last lead to the context of the row, and the last
  -- part to a node of the design, whose last id is the structure.
  pub record IsInfo (query : Bytes) (context : Option ℕ) (info : CreateInfo) : Type 0 where
    pub parts : List Bytes
    pub last_part : Bytes
    pub target : Option ℕ
    pub found : Query
    pub node : ℕ
    pub divided : split query (codes "/") ≡ parts ++ last_part ∷ []
    pub reached : Leads context parts last_part target
    pub no_row : target ≡ none → info.row_id ≡ pos 0
    pub row : (c : ℕ) → target ≡ some c → info.row_id ≡ (contexts c).id
    pub no_number : eqb_ℤ (atoi last_part) (pos 0) ≡ true
    pub designed : run_design_query source int_text target last_part ≡ done found
    pub first : get_node found 0 ≡ done node
    pub identified : IsLastId atoi (memory node).properties none info.structure_id

  create_one-IsInfo :
      (query : Bytes) (context : Option ℕ) (info : CreateInfo)
      → create_one patterns source int_text fetch query context ≡ done info
      → IsInfo query context info
  unfolding create_one create_under info_from row_of
  create_one-IsInfo query context info h =
      let ((parts, last_part), d, h1) = >>=-eq-done (split_last (split query (codes "/"))) _ h in
      let (target, t, h2) =
        >>=-eq-done (target_of patterns source int_text fetch context parts last_part) _ h1 in
      elim (Bool-cases (eqb_ℤ (atoi last_part) (pos 0))) [
        | inr number ↦ absurd (cc (rw (number, create_under) at h2))
        | inl word ↦
            let (found, ran, h3) =
              >>=-eq-done (run_design_query source int_text target last_part)
                (info_from patterns source int_text fetch query target)
                (rw (word, create_under) at h2) in
            let (size, sized, h4) = >>=-eq-done (get_size found) _ h3 in
            elim (Bool-cases (size == 0)) [
              | inl e ↦ absurd (cc (rw e at h4))
              | inr e ↦
                  let (n, node, h5) = >>=-eq-done (get_node found 0) _ (rw e at h4) in
                  let (id, read, h6) =
                    >>=-eq-done
                      (read_structure_id patterns source int_text fetch (memory n).properties none)
                      _ h5 in
                  let is = done-injective h6 in
                  let row_is : row_of patterns source int_text fetch target ≡ info.row_id =
                    ap (λ (x : CreateInfo). x.row_id) is in
                  record {
                    parts = parts;
                    last_part = last_part;
                    target = target;
                    found = found;
                    node = n;
                    divided = split_last-append (split query (codes "/")) parts last_part d;
                    reached = target_of-Leads context target parts last_part t;
                    no_row = λ none_. sym row_is ∙ ap (row_of patterns source int_text fetch) none_;
                    row = λ c some_. sym row_is ∙ ap (row_of patterns source int_text fetch) some_;
                    no_number = word;
                    designed = ran;
                    first = node;
                    identified =
                        read_structure_id-IsLastId (memory n).properties none info.structure_id
                          (read ∙ ap (λ (x : CreateInfo). done x.structure_id) is);
                  }
            ]
      ]

  -- One info for each context, in order.
  pub data Infos (query : Bytes) : List ℕ → List CreateInfo → Type 0 where
    no_infos : Infos query [] []
    an_info :
        {cs : List ℕ} {infos : List CreateInfo} (c : ℕ) (info : CreateInfo)
        → IsInfo query (some c) info
        → Infos query cs infos
        → Infos query (c ∷ cs) (info ∷ infos)

  -- If a response of create infos under a parent is made, it has one info for each context of the parent in
  -- their order. The parts of the path before the last lead from this context to that of the row: to the context
  -- of the first node that they find, to none for a path like "/artists", whose row is 0, and nowhere else if
  -- there are none, if they and the last part are empty, or if they find nothing. The last part is no number, and
  -- the structure is the last id among the properties of the first node that the last part finds in the design, or
  -- unset if this node has no id.
  pub create_infos-Infos :
      (query : Bytes) (cs : List ℕ) (infos : List CreateInfo)
      → create_infos patterns source int_text fetch query (some cs) ≡ done infos
      → Infos query cs infos
  unfolding create_infos create_each
  create_infos-Infos query [] infos h = subst (Infos query []) (done-injective h) no_infos
  create_infos-Infos query (c ∷ cs) infos h =
      let (info, one, h1) =
        >>=-eq-done (create_one patterns source int_text fetch query (some c)) _ h in
      let (later, rest, h2) =
        >>=-eq-done (create_each patterns source int_text fetch query cs) _ h1 in
      subst (Infos query (c ∷ cs)) (done-injective h2) (
        an_info c info (create_one-IsInfo query (some c) info one)
          (create_infos-Infos query cs later rest))
