-- ===== src/Response/Create.antt =====
-- `createInfo` of response.cpp, the constructor that calls it, and its view.
pub mod Infos
mod Tests
use vaedb.Common.{
  ℕ, ◌+◌, ◌≡◌, ◌≢◌, refl, sym, ap, ◌∙◌, Bool, true, false, Option, none, some, List, [], ◌∷◌, ◌++◌,
  map, Bytes, codes, eqb, is_empty, arith, subst, Bool-cases, Option-cases, inl, inr, ◌==◌,
  if◌then◌else◌,
}
use vaedb.Common.Int.{ℤ, pos, negsuc}
use vaedb.Common.Outcome.{
  Outcome, done, thrown, undefined, query_error, ◌>>=◌, >>=-eq-done, done-injective, bind_at,
}
use vaedb.Json.{JsonLibrary}
use vaedb.Xml.Cells.{Cell, content_of}
use vaedb.Context.{Context}
use vaedb.Query.{Source, Query, get_size, get_node, run_design_query}
use vaedb.Query.Resolve.{Patterns}
use vaedb.Response.{eqb_ℤ}

-- `structure_id` is `none` before it is set.
pub record CreateInfo : Type 0 where
  pub structure_id : Option ℤ
  pub row_id : ℤ

-- `back` and `pop_back`, which are undefined on an empty vector.
unfoldable pub split_last : List Bytes → Outcome (List Bytes × Bytes)
split_last [] = undefined
split_last (s ∷ rest) = elim rest [
  | [] ↦ done ([], s)
  | _ ∷ _ ↦ split_last rest >>= λ (parts, last). done (s ∷ parts, last)
]

-- `fetch` is `fetch_query` of the site on a context, which may be NULL, and a text.
module _ (patterns : Patterns) (source : Source) (int_text : ℤ → Bytes)
    (fetch : Option ℕ → Bytes → Outcome Query) where
  open patterns use {split, join, atoi}
  open source use {memory, contexts}

  -- `p_query->getSize() > 0`: the context of the first node, or the one before.
  unfoldable pub moved : Option ℕ → Query → Outcome (Option ℕ)
  moved context query = get_size query >>= λ size.
      let first = get_node query 0 >>= λ n. done (memory n).private in
      if size == 0 then done context else first

  -- The context under which the last part is created.
  unfoldable pub target_of : Option ℕ → List Bytes → Bytes → Outcome (Option ℕ)
  target_of context parts last_part =
      let main_query = join parts (codes "/") in
      let under = fetch context main_query >>= moved context in
      if is_empty main_query
      then (if is_empty last_part
          then done context
          else (if is_empty parts then done context else done none))
      else under

  unfoldable pub row_of : Option ℕ → ℤ
  row_of none = pos 0
  row_of (some c) = (contexts c).id

  -- The loop over the properties: the last `id` counts.
  unfoldable pub read_structure_id : List (Bytes × Option Bytes) → Option ℤ → Outcome (Option ℤ)
  read_structure_id [] id = done id
  read_structure_id ((name, value) ∷ rest) id =
      (if eqb name (codes "id") then (content_of value >>= λ v. done (some (atoi v))) else done id)
      >>= read_structure_id rest

  abbrev pub about : Bytes → Bytes → Bytes
  about message query = message ++ (query ++ codes "'")

  -- What the query on the design part makes of the info.
  unfoldable pub info_from : Bytes → Option ℕ → Query → Outcome CreateInfo
  info_from query target structure_query = get_size structure_query >>= λ size.
      let found = get_node structure_query 0 >>= λ n.
      read_structure_id (memory n).properties none >>= λ id.
      done (record { structure_id = id; row_id = row_of target }) in
      if size == 0
      then thrown (query_error (about (codes "could not find path for creating: '") query))
      else found

  -- From the row to the end.
  unfoldable pub create_under : Bytes → Option ℕ → Bytes → Outcome CreateInfo
  create_under query target last_part =
      if eqb_ℤ (atoi last_part) (pos 0)
      then (run_design_query source int_text target last_part >>= info_from query target)
      else thrown (query_error (about (codes "invalid path for creating: '") query))

  -- `createInfo`: what it pushes back.
  unfoldable pub create_one : Bytes → Option ℕ → Outcome CreateInfo
  create_one query context = split_last (split query (codes "/")) >>= λ (parts, last_part).
      target_of context parts last_part >>= λ target. create_under query target last_part

  unfoldable pub create_each : Bytes → List ℕ → Outcome (List CreateInfo)
  create_each query [] = done []
  create_each query (c ∷ cs) =
      create_one query (some c) >>= λ info. create_each query cs >>= λ infos. done (info ∷ infos)

  -- The constructor without options; the contexts of the parent are those of all its results in order.
  unfoldable pub create_infos : Bytes → Option (List ℕ) → Outcome (List CreateInfo)
  create_infos query none = create_one query none >>= λ info. done (info ∷ [])
  create_infos query (some cs) = create_each query cs

  -- A path whose first parts find nothing creates under the context where the path began: the query of the
  -- parts before the last has the size 0 and the path gets the same answer as its last part alone.
  pub create_one-lost :
      (query : Bytes) (context : Option ℕ) (parts : List Bytes) (last_part : Bytes) (found : Query)
      → split_last (split query (codes "/")) ≡ done (parts, last_part)
      → is_empty (join parts (codes "/")) ≡ false
      → fetch context (join parts (codes "/")) ≡ done found
      → get_size found ≡ done 0
      → create_one query context ≡ create_under query context last_part
  unfolding create_one target_of moved
  create_one-lost query context parts last_part found d e f s =
      bind_at (split_last (split query (codes "/"))) _ (parts, last_part) d
      ∙ bind_at (target_of context parts last_part) _ context (rw (e, target_of, f, s) refl)

  -- `to_json` of an info; `structure_id` that was not set is read.
  module _ (library : JsonLibrary) where
    open library use {Json, number, object}

    unfoldable pub info_json : CreateInfo → Outcome Json
    info_json info = elim info.structure_id [
      | none ↦ undefined
      | some id ↦
          done
            (object ((codes "structure_id", number id) ∷ (codes "row_id", number info.row_id) ∷ []))
    ]

    -- `getCreateInfo`, on `array` and `push_back` of json.hpp.
    unfoldable pub get_create_info : Json → (Json → Json → Json) → List CreateInfo → Outcome Json
    get_create_info array push_back [] = done array
    get_create_info array push_back (info ∷ infos) =
        info_json info >>= λ j. get_create_info (push_back array j) push_back infos
