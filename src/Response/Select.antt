-- ===== src/Response/Select.antt =====
-- `uniqueMatch`, `sortCallback` and `query` of response.cpp.
use vaedb.Common.{
  ℕ, zero, suc, ◌+◌, Bool, true, false, not, Option, none, some, List, [], ◌∷◌, ◌++◌, reverse,
  Bytes, codes, eqb, any, length, get_elem?, take, drop, if◌then◌else◌,
}
use vaedb.Common.Int.{ℤ, pos, pos_part, ◌-ℤ◌, ltb_ℤ}
use vaedb.Common.Machine.{Floats}
use vaedb.Common.Outcome.{Outcome, done, undefined, ◌>>=◌}
use vaedb.Util.{Doubles, str_compare_nat}
use vaedb.Xml.{XmlNode, element, text, other}
use vaedb.Response.{
  unsorted, by_reverse, by_shuffle, by_fields, Paging, Window, eqb_ℤ, is_unsorted, window,
}
use vaedb.Response.Filter.{filter_match}

pub data SortOrder : Type 0 where
  asc desc : SortOrder

pub record SortField : Type 0 where
  pub field : Bytes
  pub count : Bool
  pub direction : SortOrder

-- The fields of a `Response` that `query` reads.
pub record Options : Type 0 where
  pub paging : Paging
  pub filter : Bool
  pub filter_terms : List Bytes
  pub unique : Bool
  pub unique_fields : List Bytes
  pub sort_fields : List SortField

pub record ResponseContext : Type 0 where
  pub contexts : List ℕ
  pub total : ℕ

-- What a response asks of the contexts, which are named by numbers.
pub record Contexts : Type 0 where
  pub get_id : ℕ → ℤ
  pub get_count : ℕ → Bytes → Outcome ℤ
  pub get_data : ℕ → Bytes → Outcome Bytes

-- `std::sort` and `random_shuffle`. A comparison may throw.
pub record Algorithms : Type 0 where
  pub sort : (ℕ → ℕ → Outcome Bool) → List ℕ → Outcome (List ℕ)
  pub shuffle : List ℕ → List ℕ

-- `node->_private`
unfoldable pub context_of : XmlNode → Option ℕ
context_of (element name properties children context) = context
context_of (text content) = none
context_of (other children) = none

-- The contexts of the nodes that have one.
unfoldable pub present : List XmlNode → List ℕ
present [] = []
present (node ∷ nodes) =
    let rest = present nodes in elim (context_of node) [ none ↦ rest | some c ↦ c ∷ rest ]

-- The locals of that loop.
pub record Scan : Type 0 where
  pub total : ℕ
  pub skipped : ℕ
  pub included : ℕ
  pub found : List Bytes
  pub chosen : List ℕ

unfoldable pub scan_admitted : ℤ → ℤ → XmlNode → Scan → Scan
scan_admitted start stop node s =
    if ltb_ℤ (pos s.skipped) start
    then record s { total = s.total + 1; skipped = s.skipped + 1 }
    else (if ltb_ℤ (pos (s.included + s.skipped)) stop
        then elim (context_of node) [
          | none ↦ record s { total = s.total + 1 }
          | some c ↦ record s {
            total = s.total + 1;
            included = s.included + 1;
            chosen = s.chosen ++ c ∷ [];
          }
        ]
        else record s { total = s.total + 1 })

-- `str_compare_nat` always ends.
unfoldable pub compare_data : Doubles → Bytes → Bytes → Outcome ℤ
compare_data doubles l r = elim (str_compare_nat doubles l r) [ none ↦ undefined | some i ↦ done i ]

abbrev pub directed : SortOrder → Bool → Bool
directed asc comp = comp
directed desc comp = not comp

module _ (contexts : Contexts) where
  open contexts use {get_id, get_count, get_data}

  -- The text that stands for a node in `uniqueFound`. A node without context is dereferenced.
  unfoldable pub unique_key : Option ℕ → List Bytes → Outcome Bytes
  unique_key context [] = done []
  unique_key none (field ∷ fields) = undefined
  unique_key (some c) (field ∷ fields) = get_data c field >>= λ value.
      unique_key (some c) fields >>= λ rest. done (value ++ codes "~!~" ++ rest)

  -- `uniqueMatch`: the answer, and `uniqueFound` behind it.
  unfoldable pub unique_match : List Bytes → XmlNode → List Bytes → Outcome (Bool × List Bytes)
  unique_match fields node found = unique_key (context_of node) fields >>= λ value.
      done (if any (eqb value) found then (false, found) else (true, value ∷ found))

  -- The test of the loop over the nodes.
  unfoldable pub admit : Options → XmlNode → List Bytes → Outcome (Bool × List Bytes)
  admit o node found =
      if (if o.filter then filter_match o.filter_terms node else true)
      then (if o.unique then unique_match o.unique_fields node found else done (true, found))
      else done (false, found)

  unfoldable pub scan : Options → ℤ → ℤ → List XmlNode → Scan → Outcome Scan
  scan o start stop [] s = done s
  scan o start stop (node ∷ nodes) s = admit o node s.found >>= λ (matched, found).
      let s' = record s { found = found } in
      scan o start stop nodes (if matched then scan_admitted start stop node s' else s')

  -- The loop without filter and uniqueness: `rounds` nodes from number `i` on.
  unfoldable pub slice_loop : ℕ → ℕ → List XmlNode → Outcome (List ℕ)
  slice_loop zero i nodes = done []
  slice_loop (suc rounds) i nodes = elim (get_elem? nodes i) [
    | none ↦ undefined
    | some node ↦ slice_loop rounds (suc i) nodes >>= λ rest. elim (context_of node) [
      | none ↦ done rest
      | some c ↦ done (c ∷ rest)
    ]
  ]

  unfoldable pub collect : Options → Window → List XmlNode → Outcome ResponseContext
  collect o w nodes =
      if (if o.filter then true else o.unique)
      then (scan o w.start w.stop nodes
            (record { total = 0; skipped = 0; included = 0; found = []; chosen = [] })
          >>= λ s. done (record { contexts = s.chosen; total = s.total }))
      else (slice_loop (pos_part (w.stop -ℤ w.start)) (pos_part w.start) nodes >>= λ chosen.
          done (record { contexts = chosen; total = length nodes }))

  module _ (doubles : Doubles) where
    -- The body of the loop for one field: `none` is `continue`.
    unfoldable pub compare_field : SortField → ℕ → ℕ → Outcome (Option Bool)
    compare_field f lhs rhs =
        if eqb f.field (codes "id")
        then done (some (ltb_ℤ (get_id lhs) (get_id rhs)))
        else (if f.count
            then (get_count lhs f.field >>= λ lcount. get_count rhs f.field >>= λ rcount.
                done (if eqb_ℤ lcount rcount then none else some (ltb_ℤ lcount rcount)))
            else (get_data lhs f.field >>= λ ldata. get_data rhs f.field >>= λ rdata.
                compare_data doubles ldata rdata >>= λ icomp.
                done (if eqb_ℤ icomp (pos 0) then none else some (ltb_ℤ (pos 0) icomp))))

    unfoldable pub sort_callback : List SortField → ℕ → ℕ → Outcome Bool
    sort_callback [] lhs rhs = done false
    sort_callback (f ∷ fields) lhs rhs = compare_field f lhs rhs >>= λ comp. elim comp [
      | none ↦ sort_callback fields lhs rhs
      | some answer ↦ done (directed f.direction answer)
    ]

    module _ (algorithms : Algorithms) where
      open algorithms use {sort, shuffle}

      unfoldable pub arrange : Options → List ℕ → Outcome (List ℕ)
      arrange o chosen = elim o.paging.sort_type [
        | unsorted ↦ done chosen
        | by_reverse ↦ done (reverse chosen)
        | by_shuffle ↦ done (shuffle chosen)
        | by_fields ↦ sort (sort_callback o.sort_fields) chosen
      ]

      -- `erase` up to `skip_` and `resize` to `paginate_`, if the response is sorted.
      unfoldable pub cut : Options → Window → List ℕ → List ℕ
      cut o w chosen =
          if is_unsorted o.paging.sort_type
          then chosen
          else take (pos_part w.paginate) (drop (pos_part w.skip) chosen)

      -- `query`, on the nodes that the query of the context yields.
      unfoldable pub respond : Floats → Options → List XmlNode → Outcome ResponseContext
      respond floats o nodes = elim (window floats o.paging (pos (length nodes))) [
        | none ↦ undefined
        | some w ↦ collect o w nodes >>= λ r.
            arrange o r.contexts >>= λ arranged. done (record r { contexts = cut o w arranged })
      ]
