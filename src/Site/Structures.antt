-- ===== src/Site/Structures.antt =====
-- `structureFromStructureId` of site.cpp: the structures of the design part, found once each.
use vaedb.Common.{
  ℕ, ◌≡◌, refl, sym, ap, ◌∙◌, Option, none, some, List, [], ◌∷◌, Bytes, codes, eqb, if_pos, if_neg,
  arith, Option-cases, inl, inr, if◌then◌else◌,
}
use vaedb.Common.Int.{ℤ, ℤ_discrete}
use vaedb.Common.Map.{lookup, assign, lookup-assign}
use vaedb.Common.Outcome.{Outcome, done, undefined, ◌>>=◌, >>=-eq-done, done-injective}
use vaedb.Xml.Cells.{content_of}
use vaedb.Context.{Structure}
use vaedb.Query.{
  nodeset, Source, get_node, node_at, count, run_raw_query, without_root, design_path,
}

-- `Structure()` with its id.
abbrev pub empty_structure : ℤ → Structure
empty_structure id = record { id = id; name = []; type = []; permalink = [] }

unfoldable pub read_name : Bytes → Option Bytes → Structure → Outcome Structure
read_name key value s =
    if eqb key (codes "name")
    then (content_of value >>= λ v. done (record s { name = v }))
    else done s

unfoldable pub read_link : Bytes → Option Bytes → Structure → Outcome Structure
read_link key value s =
    if eqb key (codes "permalink")
    then (content_of value >>= λ v. done (record s { permalink = v }))
    else done s

unfoldable pub read_kind : Bytes → Option Bytes → Structure → Outcome Structure
read_kind key value s =
    if eqb key (codes "type")
    then (content_of value >>= λ v. done (record s { type = v }))
    else done s

-- The loop over the properties of the node.
unfoldable pub read_structure : List (Bytes × Option Bytes) → Structure → Outcome Structure
read_structure [] s = done s
read_structure ((key, value) ∷ rest) s =
    read_name key value s >>= read_link key value >>= read_kind key value >>= read_structure rest

module _ (source : Source) (int_text : ℤ → Bytes) where
  open source use {memory, evaluate}

  -- The query, and the first node that it finds.
  unfoldable pub find_structure : ℤ → Outcome Structure
  find_structure id =
      run_raw_query source none (design_path source int_text id) (design_path source int_text id)
      >>= λ query.
          get_node query 0 >>= λ n. read_structure (memory n).properties (empty_structure id)

  unfoldable pub structure_from_structure_id :
      ℤ → List (ℤ × Structure) → Outcome (List (ℤ × Structure) × Option Structure)
  structure_from_structure_id id structures = elim (lookup ℤ_discrete id structures) [
    | some s ↦ done (structures, some s)
    | none ↦ find_structure id >>= λ s. done (assign ℤ_discrete id s structures, some s)
  ]

  -- Each structure that is kept is the one that the query finds.
  abbrev pub IsFound : List (ℤ × Structure) → Type 0
  IsFound structures =
      (id : ℤ) (s : Structure)
      → lookup ℤ_discrete id structures ≡ some s
      → find_structure id ≡ done s

  assign-IsFound :
      (id : ℤ) (s : Structure) (structures : List (ℤ × Structure))
      → find_structure id ≡ done s
      → IsFound structures
      → IsFound (assign ℤ_discrete id s structures)
  assign-IsFound id s structures new old q t h = elim (ℤ_discrete id q) [
    | yes same ↦
        let first : some s ≡ some t =
          sym (lookup-assign ℤ_discrete id q s structures ∙ if_pos (ℤ_discrete id q) same _ _)
          ∙ h in
        let s_ : s ≡ t = cc in ap find_structure (sym same) ∙ new ∙ ap done s_
    | no other ↦
        old q t (
          sym (lookup-assign ℤ_discrete id q s structures ∙ if_neg (ℤ_discrete id q) other _ _) ∙ h)
  ]

  -- On kept structures that were found, a call that returns answers the structure that the query finds for
  -- its id, whether it is kept or not, and keeps structures that were found, this one among them.
  pub structure_from_structure_id-IsFound :
      (id : ℤ) (structures structures' : List (ℤ × Structure)) (answer : Option Structure)
      → IsFound structures
      → structure_from_structure_id id structures ≡ done (structures', answer)
      → (s : Structure) × (answer ≡ some s)
        × (find_structure id ≡ done s)
        × IsFound structures'
        × (lookup ℤ_discrete id structures' ≡ some s)
  unfolding structure_from_structure_id
  structure_from_structure_id-IsFound id structures structures' answer kept h =
      elim (Option-cases (lookup ℤ_discrete id structures)) [
        | inr (s, e) ↦
            let is = done-injective (rw (e, structure_from_structure_id) at h) in
            let same : structures ≡ structures' =
              ap (λ (x : List (ℤ × Structure) × Option Structure). x.0) is in
            let a : some s ≡ answer =
              ap (λ (x : List (ℤ × Structure) × Option Structure). x.1) is in
            rw (← same) (s, sym a, kept id s e, kept, e)
        | inl e ↦
            let (s, found, h1) =
              >>=-eq-done (find_structure id) _ (rw (e, structure_from_structure_id) at h) in
            let is = done-injective h1 in
            let same : assign ℤ_discrete id s structures ≡ structures' =
              ap (λ (x : List (ℤ × Structure) × Option Structure). x.0) is in
            let a : some s ≡ answer =
              ap (λ (x : List (ℤ × Structure) × Option Structure). x.1) is in
            rw (← same) (
              s,
              sym a,
              found,
              assign-IsFound id s structures found kept,
              lookup-assign ℤ_discrete id id s structures ∙ if_pos (ℤ_discrete id id) refl _ _,
            )
      ]

  -- A structure that is not kept and that the query does not find is undefined behaviour: the first node of
  -- an empty set is read.
  pub structure_from_structure_id-unknown :
      (id : ℤ) (structures : List (ℤ × Structure)) (found : Option (List ℕ))
      → lookup ℤ_discrete id structures ≡ none
      → evaluate none (design_path source int_text id) ≡ nodeset found
      → count found ≡ 0
      → structure_from_structure_id id structures ≡ undefined
  unfolding structure_from_structure_id find_structure run_raw_query without_root get_node node_at
  structure_from_structure_id-unknown id structures none e x h =
      rw (e, structure_from_structure_id, x, run_raw_query) refl
  structure_from_structure_id-unknown id structures (some []) e x h =
      rw (e, structure_from_structure_id, x, run_raw_query) refl
  structure_from_structure_id-unknown id structures (some (n ∷ nodes)) e x h =
      absurd (omega (arith, h))
