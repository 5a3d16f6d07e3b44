-- ===== src/Site/Samples.antt =====
-- A small feed and a loader of it, on which the tests construct a site.
use vaedb.Common.{
  ℕ, false, Option, none, some, List, [], ◌∷◌, Bytes, codes, eqb, ℕ_discrete, if◌then◌else◌,
}
use vaedb.Common.Int.{pos}
use vaedb.Context.Build.{Building, FeedNodes, feed_element, end, then_node}
use vaedb.Context.Associations.{LibXml}
use vaedb.Query.{nodeset}
use vaedb.Query.Samples.{decimal, digits, sample_memory}
use vaedb.Context.{Context}
use vaedb.Site.{Feed, Loader, Site, blank_heap, graph_of}

-- Node 2 is staged only.
abbrev pub sample_properties : ℕ → List (Bytes × Option Bytes)
sample_properties n = elim (ℕ_discrete n 2) [
  | yes same ↦ (codes "id", some (codes "9")) ∷ (codes "staging", some (codes "1")) ∷ []
  | no other ↦ (codes "id", some (codes "7")) ∷ (codes "permalink", some (codes "news")) ∷ []
]

abbrev pub sample_tree : FeedNodes
sample_tree =
    then_node
      (feed_element 1 (sample_properties 1) none
        (then_node (feed_element 2 (sample_properties 2) none end) end))
      end

abbrev pub sample_feed : Feed
sample_feed = record {
  memory = sample_memory;
  tree = λ n. sample_tree;
  heap = blank_heap;
  evaluate = λ node path.
      if eqb path (codes "/website/content")
      then nodeset (some (10 ∷ []))
      else (if eqb path (codes "/website/design")
          then nodeset (some (11 ∷ []))
          else nodeset (some (12 ∷ [])));
}

-- Calls of libxml2 that leave the pointers as they are.
abbrev pub still_xml : LibXml
still_xml = record {
  free_prop_list = λ p h. h;
  free_node_list = λ p h. h;
  copy_node = λ p h. none;
  add_child = λ p c h. h;
  unlink_node = λ p h. h;
  free_node = λ p h. h;
}

-- Every feed is the sample, and every object of S3 is `object`.
abbrev pub sample_loader : Bytes → (Bytes → List Bytes) → Loader
sample_loader object split = record {
  test_mode = false;
  read_s3 = λ name. object;
  parse_file = λ name. none;
  parse_memory = λ xml. some sample_feed;
  xml = still_xml;
  split = split;
  strtol = λ s. pos 5;
  atoi = λ s. pos (decimal 0 (digits s));
  int_text = λ id. codes "4";
}

abbrev pub sample_page : Context
sample_page = record {
  node = 1;
  id = pos 7;
  permalink = some (codes "news");
  structure = none;
  type = [];
}

abbrev pub sample_building : Building
sample_building = record {
  permalinks = (codes "news", 1) ∷ [];
  nodes = (pos 7, 1) ∷ [];
  associations = [];
  contexts = (1, sample_page) ∷ [];
  structures = [];
}

-- The site that the loader makes of the sample.
abbrev pub sample_site : Bytes → List Bytes → Site
sample_site subdomain keys = record {
  subdomain = subdomain;
  staging_mode = false;
  generation = pos 5;
  secret_keys = keys;
  building = sample_building;
  tree = then_node (feed_element 1 (sample_properties 1) (some 1) end) end;
  graph = graph_of blank_heap sample_building;
}
