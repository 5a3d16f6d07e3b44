-- ===== src/Server/Races/Tests.antt =====
-- Runs of calls of `getSite` beside each other.
use vaedb.Common.{
  ℕ_discrete, ℕ, ◌≡◌, refl, false, none, some, List, [], ◌∷◌, Bytes, codes, eqb, Bytes-discrete,
  arith,
}
use vaedb.Common.Outcome.{done}
use vaedb.Common.Map.{lookup, assign}
use vaedb.Xml.Cells.{content_of, first_text, text_of}
use vaedb.Context.Build.{
  read_id, read_type, read_permalink, unless_staging, read_attr, read_attrs, typed, made_of,
  descend, finish, register, new_context, placed, build_children, build_roots, is_association,
}
use vaedb.Context.Associations.{initialize_all}
use vaedb.Query.{
  run_raw_query, without_root, get_size, get_node, node_at, same_node, get_single_data,
}
use vaedb.Site.Samples.{sample_loader, sample_site}
use vaedb.Site.{
  Loader, Site, new_site, unloaded, load_xml_doc, load_feed, find_root, load_contexts,
  load_generation,
}
use vaedb.Server.Sites.{sites_key, reload_sites}
use vaedb.Server.Races.{
  Request, key_of, Phase, locking, inside, missed, fed, Shared, held_by, enter, get_site_mutex,
  found_phase, feed_of, call, lock, find, read, Run, start, next, fresh_server,
}
use vaedb.Server.Races.Invariant.{engaged}
use vaedb.Server.Races.Exclusion.{fed-alone, reload-lost}

abbrev loader : Loader
loader = sample_loader (codes "key") (λ s. s ∷ [])

abbrev request : Request
request = record { subdomain = codes "a"; secret_key = codes "key"; staging_mode = false }

abbrev objects : Bytes → Bytes
objects name = codes "old"

abbrev empty_server : Shared
empty_server = fresh_server [] objects

abbrev mutexes : List (Bytes × ℕ)
mutexes = (codes "a", 0) ∷ []

abbrev with_phase : Phase → Shared
with_phase phase = enter 1 phase (record empty_server { site_mutexes = mutexes; next_mutex = 1 })

abbrev steps : Phase → Shared → Shared
steps phase s = enter 1 phase s

abbrev s1 : Shared
s1 = with_phase (locking request 0)

abbrev s2 : Shared
s2 = steps (inside request 0) s1

abbrev s3 : Shared
s3 = steps (missed request 0) s2

abbrev s4 : Shared
s4 = steps (fed request 0 (codes "old")) s3

fed_run : Run loader empty_server s4
unfolding get_site_mutex lookup assign sites_key found_phase feed_of held_by eqb
fed_run =
    next {t = s3}
      (next {t = s2}
        (next {t = s1} (next {t = empty_server} start (call empty_server 1 request refl))
          (lock s1 1 request 0 refl free))
        (find s2 1 request 0 refl))
      (read s3 1 request 0 refl)
  where
    free : (u : ℕ) → ¬ (held_by (s1.threads u) ≡ some 0)
    free u = ground arith

fed-alone_example :
    (lookup Bytes-discrete (key_of request) s4.sites ≡ none)
    × ((u : ℕ) (r' : Request) (m' : ℕ)
        → engaged (s4.threads u) ≡ some (r', m')
        → held_by (s4.threads u) ≡ some m'
        → key_of request ≡ key_of r'
        → 1 ≡ u)
fed-alone_example = fed-alone loader [] objects s4 1 request 0 (codes "old") fed_run refl

abbrev old_site : Site
old_site = sample_site (codes "a") (codes "key" ∷ [])

made_run : new_site loader (codes "a") false (codes "old") ≡ done old_site
unfolding new_site unloaded load_xml_doc load_feed find_root load_contexts load_generation
    run_raw_query without_root get_size get_node node_at same_node get_single_data build_roots
    build_children new_context finish descend typed made_of register placed read_attrs read_attr
    read_id read_type read_permalink unless_staging content_of is_association initialize_all assign
    eqb first_text text_of ℕ_discrete
made_run = refl

reload-lost_example :
    (s' : Shared) × Run loader s4 s'
    × (lookup Bytes-discrete (key_of request) s'.sites ≡ some old_site)
    × (s'.objects ≡ objects)
    × (s'.sites ≡ assign Bytes-discrete (key_of request) old_site (reload_sites (codes "a") []))
reload-lost_example = reload-lost loader s4 1 request 0 (codes "old") old_site refl made_run
