-- ===== src/Response/Create/Tests.antt =====
-- Runs of `createInfo` of response.cpp.
use vaedb.Common.{ℕ, ◌≡◌, refl, Option, none, some, [], ◌∷◌, Bytes, codes, eqb, is_empty}
use vaedb.Common.Int.{ℤ, pos}
use vaedb.Common.Outcome.{Outcome, done}
use vaedb.Xml.Cells.{content_of}
use vaedb.Context.{get_structure_id}
use vaedb.Query.{
  Query, result, get_size, get_node, node_at, same_node, without_root, run_raw_query, design_path,
  design_node, run_design_query,
}
use vaedb.Query.Resolve.{starts_with}
use vaedb.Query.Samples.{sample_patterns, sample_source}
use vaedb.Response.Create.{
  CreateInfo, split_last, target_of, row_of, read_structure_id, info_from, create_under, create_one,
  create_each, create_infos, create_one-lost,
}
use vaedb.Response.Create.Infos.{Infos, create_infos-Infos}

abbrev four : ℤ → Bytes
four id = codes "4"

-- Every query on the content finds nothing.
abbrev nothing : Option ℕ → Bytes → Outcome Query
nothing context q = done (result none)

abbrev item_info : CreateInfo
item_info = record { structure_id = some (pos 4); row_id = pos 12 }

create_run :
    create_infos sample_patterns sample_source four nothing (codes "item") (some (3 ∷ []))
    ≡ done (item_info ∷ [])
unfolding create_infos create_each create_one create_under info_from row_of read_structure_id
    target_of split_last get_structure_id get_size get_node node_at same_node without_root
    run_raw_query design_path design_node run_design_query starts_with content_of eqb is_empty
create_run = refl

create_infos-Infos_example :
    Infos sample_patterns sample_source four nothing (codes "item") (3 ∷ []) (item_info ∷ [])
create_infos-Infos_example =
    create_infos-Infos sample_patterns sample_source four nothing (codes "item") (3 ∷ [])
      (item_info ∷ []) create_run

create_one-lost_run :
    create_one sample_patterns sample_source four nothing (codes "gone/item") (some 3)
    ≡ create_under sample_patterns sample_source four nothing
        (codes "gone/item")
        (some 3)
        (codes "item")
unfolding split_last is_empty get_size result
create_one-lost_run =
    create_one-lost sample_patterns sample_source four nothing (codes "gone/item") (some 3)
      (codes "gone" ∷ []) (codes "item") (result none) refl refl refl refl
