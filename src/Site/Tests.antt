-- ===== src/Site/Tests.antt =====
-- Runs of the queries of a site.
use vaedb.Common.{
  false, ℕ, ◌*◌, ◌≡◌, refl, Option, some, List, [], ◌∷◌, Bytes, codes, eqb, ℕ_discrete, arith,
}
use vaedb.Common.Map.{lookup, assign}
use vaedb.Common.Int.{ℤ, pos, ℤ_discrete}
use vaedb.Common.Outcome.{Outcome, done, undefined}
use vaedb.Context.{Structure}
use vaedb.Query.{
  Source, nodeset, get_node, node_at, same_node, without_root, run_raw_query, design_path,
}
use vaedb.Query.Samples.{sample_source}
use vaedb.Query.Resolve.{starts_with}
use vaedb.Xml.Cells.{content_of}
use vaedb.Xml.Cells.{first_text, text_of}
use vaedb.Context.Build.{
  read_id, read_type, read_permalink, unless_staging, read_attr, read_attrs, typed, made_of,
  descend, finish, register, new_context, placed, build_children, build_roots, is_association,
}
use vaedb.Context.Associations.{initialize_all}
use vaedb.Context.Indexed.{IsIndexed}
use vaedb.Query.{get_size, get_single_data}
use vaedb.Site.{
  Loader, Site, new_site, unloaded, load_xml_doc, load_feed, find_root, load_contexts,
  load_generation,
}
use vaedb.Site.Loaded.{new_site-IsIndexed}
use vaedb.Site.Samples.{sample_feed, sample_loader, sample_properties, sample_site}
use vaedb.Site.Structures.{
  read_name, read_link, read_kind, read_structure, find_structure, structure_from_structure_id,
  IsFound, structure_from_structure_id-IsFound, structure_from_structure_id-unknown,
}
use vaedb.LruCache.{LruCache, init}
use vaedb.LruCache.Invariant.{IsValid}
use vaedb.LruCache.Evict.{view}
use vaedb.LruCache.Fresh.{init-IsValid}
use vaedb.Site.Queries.{one, IsCoherent, fetch_query, after_query, fetch_query-IsCoherent}

-- Queries by number, each of which finds its tenfold.
abbrev tenfold : ℕ → Outcome ℕ
tenfold n = done (10 * n)

abbrev fresh : LruCache ℕ (Option ℕ)
fresh = init 384

fresh-IsCoherent : IsCoherent ℕ_discrete tenfold fresh
unfolding init lookup
fresh-IsCoherent k p h = absurd (cc)

fetch_query-IsCoherent_example :
    (c' : LruCache ℕ (Option ℕ)) × (fetch_query ℕ_discrete tenfold 7 fresh ≡ done (c', 70))
    × IsValid ℕ_discrete one c'
    × IsCoherent ℕ_discrete tenfold c'
    × (view c' ≡ after_query ℕ_discrete tenfold 7 70 fresh)
unfolding init
fetch_query-IsCoherent_example =
    fetch_query-IsCoherent ℕ_discrete tenfold 7 70 fresh (omega arith)
      ((init-IsValid ℕ_discrete one 384).0) fresh-IsCoherent refl

abbrev four : ℤ → Bytes
four id = codes "4"

abbrev found_structure : Structure
found_structure = record { id = pos 4; name = codes "page"; type = []; permalink = [] }

abbrev kept_structures : List (ℤ × Structure)
kept_structures = (pos 4, found_structure) ∷ []

structure_run :
    structure_from_structure_id sample_source four (pos 4) []
    ≡ done (kept_structures, some found_structure)
unfolding structure_from_structure_id find_structure lookup assign run_raw_query without_root
    get_node node_at same_node read_structure read_name read_link read_kind content_of eqb
    starts_with design_path
structure_run = refl

nothing-IsFound : IsFound sample_source four []
unfolding lookup
nothing-IsFound id s h = absurd (cc)

structure_from_structure_id-IsFound_example :
    (s : Structure) × (some found_structure ≡ some s)
    × (find_structure sample_source four (pos 4) ≡ done s)
    × IsFound sample_source four kept_structures
    × (lookup ℤ_discrete (pos 4) kept_structures ≡ some s)
structure_from_structure_id-IsFound_example =
    structure_from_structure_id-IsFound sample_source four (pos 4) [] kept_structures
      (some found_structure) nothing-IsFound structure_run

abbrev bare_source : Source
bare_source = record sample_source { evaluate = λ node q. nodeset (some []) }

structure_from_structure_id-unknown_run :
    structure_from_structure_id bare_source four (pos 4) [] ≡ undefined
unfolding lookup
structure_from_structure_id-unknown_run =
    structure_from_structure_id-unknown bare_source four (pos 4) [] (some []) refl refl refl

abbrev one_key : Loader
one_key = sample_loader (codes "key") (λ s. s ∷ [])

abbrev acme : Site
acme = sample_site (codes "acme") (codes "key" ∷ [])

acme-loads : new_site one_key (codes "acme") false [] ≡ done acme
unfolding new_site unloaded load_xml_doc load_feed find_root load_contexts load_generation
    run_raw_query without_root get_size get_node node_at same_node get_single_data build_roots
    build_children new_context finish descend typed made_of register placed read_attrs read_attr
    read_id read_type read_permalink unless_staging content_of is_association initialize_all assign
    eqb first_text text_of ℕ_discrete
acme-loads = refl

new_site-IsIndexed_example : IsIndexed one_key.atoi false sample_properties acme.building
new_site-IsIndexed_example =
    new_site-IsIndexed one_key sample_properties (codes "acme") [] false sample_feed acme refl refl
      (λ root. (refl, (refl, tt, tt), tt)) acme-loads
