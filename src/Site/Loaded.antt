-- ===== src/Site/Loaded.antt =====
-- What the maps of a site hold once the constructor of `Site` in site.cpp has returned.
use vaedb.Common.{ℕ, ◌≡◌, ap, Bool, false, Option, some, List, Bytes, Bytes-discrete, subst, ◌∙◌}
use vaedb.Common.Int.{ℤ_discrete}
use vaedb.Common.Map.{lookup}
use vaedb.Common.Outcome.{done, >>=-eq-done, done-injective}
use vaedb.Context.Build.{FeedNodes, Building, build_roots}
use vaedb.Context.Associations.{Graph, initialize_all}
use vaedb.Context.Maps.{initialize_all-maps}
use vaedb.Context.Indexed.{IsTree, IsIndexed}
use vaedb.Context.Registered.{build_roots-IsIndexed}
use vaedb.Site.{
  Feed, Loader, Site, empty_building, loading, find_root, load_contexts, load_generation, load_feed,
  load_xml_doc, unloaded, new_site,
}
use vaedb.Site.Structures.{structure_from_structure_id}

module _ (loader : Loader) (properties_of : ℕ → List (Bytes × Option Bytes)) where
  open loader use {test_mode, parse_memory, atoi, int_text}

  empty-IsIndexed : (staging_mode : Bool) → IsIndexed atoi staging_mode properties_of empty_building
  unfolding lookup
  empty-IsIndexed staging_mode = record {
    by_id = λ id node h. absurd (cc);
    by_permalink = λ permalink node h. absurd (cc);
  }

  load_contexts-IsIndexed :
      (feed : Feed) (root design : ℕ) (staging_mode : Bool) (s : Building) (left : FeedNodes)
      (g : Graph)
      → IsTree atoi staging_mode properties_of (feed.tree root)
      → load_contexts loader feed root design staging_mode ≡ done (s, left, g)
      → IsIndexed atoi staging_mode properties_of s
  unfolding load_contexts
  load_contexts-IsIndexed feed root design staging_mode s left g tree h =
      let structures =
        structure_from_structure_id (loading feed (some root) (some design)) int_text in
      let ((built, left1), made, h1) =
        >>=-eq-done (build_roots atoi staging_mode structures (feed.tree root) empty_building) _
          h in
      let (graph, initialized, h2) = >>=-eq-done (initialize_all _ _ _ _) _ h1 in
      let kept = initialize_all-maps loader.xml atoi _ _ graph initialized in
      let ok =
        build_roots-IsIndexed atoi staging_mode structures properties_of (feed.tree root)
          empty_building built left1 tree made (empty-IsIndexed staging_mode) in
      let is = ap (λ (x : Building × FeedNodes × Graph). x.0) (done-injective h2) in
      subst (IsIndexed atoi staging_mode properties_of) is (record {
        by_id = λ id node there. ok.by_id id node (ap (λ m. lookup ℤ_discrete id m.0) kept ∙ there);
        by_permalink = λ permalink node there.
            ok.by_permalink permalink node
              (ap (λ m. lookup Bytes-discrete permalink m.1) kept ∙ there);
      })

  load_feed-IsIndexed :
      (feed : Feed) (before site : Site)
      → ((root : ℕ) → IsTree atoi before.staging_mode properties_of (feed.tree root))
      → load_feed loader feed before ≡ done site
      → IsIndexed atoi before.staging_mode properties_of site.building
  unfolding load_feed
  load_feed-IsIndexed feed before site tree h =
      let (root, _, h1) = >>=-eq-done (find_root loader _ _ _ _) _ h in
      let (design, _, h2) = >>=-eq-done (find_root loader _ _ _ _) _ h1 in
      let ((s, left, g), made, h3) =
        >>=-eq-done (load_contexts loader feed root design before.staging_mode) _ h2 in
      let (generation, _, h4) = >>=-eq-done (load_generation loader feed root design) _ h3 in
      let is = ap (λ (x : Site). x.building) (done-injective h4) in
      subst (IsIndexed atoi before.staging_mode properties_of) is
        (load_contexts-IsIndexed feed root design before.staging_mode s left g (tree root) made)

  -- In the properties that the feed gives its nodes, which `properties_of` tells, the maps of a site that is
  -- constructed from a feed outside of the test mode are right: every id of the map is that of its node, every
  -- permalink that of its node, and unless the site is in staging mode none of these nodes has a property
  -- `staging`. Nothing is said of the properties that initialized associations have then, nor that their nodes
  -- still exist.
  pub new_site-IsIndexed :
      (subdomain rawxml : Bytes) (staging_mode : Bool) (feed : Feed) (site : Site)
      → test_mode ≡ false
      → parse_memory rawxml ≡ some feed
      → ((root : ℕ) → IsTree atoi staging_mode properties_of (feed.tree root))
      → new_site loader subdomain staging_mode rawxml ≡ done site
      → IsIndexed atoi staging_mode properties_of site.building
  unfolding new_site load_xml_doc unloaded
  new_site-IsIndexed subdomain rawxml staging_mode feed site t parsed tree h =
      load_feed-IsIndexed feed _ site tree (rw (t, parsed, load_xml_doc) at h)
