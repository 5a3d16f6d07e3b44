-- ===== src/Response/Tests.antt =====
-- Runs of `Response::query`.
use vaedb.Common.{
  map, Option, Bytes-discrete, Bool-cases, ℕ, ◌+◌, ◌≡◌, refl, true, false, some, List, [], ◌∷◌,
  Bytes, codes, arith, eqb, lex_lt, is_empty, any, every, max, none, length, ◌≤◌,
}
use vaedb.Common.Int.{ℤ, pos, pos_part}
use vaedb.Common.Machine.{Floats, ceil_div}
use vaedb.Common.Outcome.{done, done-injective}
use vaedb.Response.Samples.{naturals, digits_value}
use vaedb.Util.{
  str_compare_nat, tokenize_string, tokenize_loop, token_end, in_mode, is_digit, merge_floats,
  compare_loop, compare_token, compare_words, compare_numbers,
}
use vaedb.Xml.{XmlNode, nil, cons, element, text}
use vaedb.Response.{unsorted, window}
use vaedb.Response.Bounds.{paging, window-page, slice}
use vaedb.Response.Groups.{group_start, group_size, window_in_groups}
use vaedb.Response.Filter.{
  filter_match, filter_match_recursive, children_of, erase_found, strcasestr, starts_ci, to_lower,
  texts_near, filter_match-every,
}
use vaedb.Response.Select.{
  asc, desc, SortField, Options, Contexts, Algorithms, present, context_of, admit, respond,
  sort_callback, compare_field, compare_data, unique_match, unique_key,
}
use vaedb.Response.Build.{
  Answers, new_response, query_parent, query_each, query_of, all_contexts, new_response-Answers,
}
use vaedb.Response.Parse.{Texts, parse_options, respond-parse_options}
use vaedb.Response.Pages.{plain, respond-page, first_pages, first_pages-take}
use vaedb.Common.Map.{lookup}
use vaedb.LruCache.{LruCache, init}
use vaedb.LruCache.Fresh.{init-IsValid}
use vaedb.Query.{Query, result, get_size}
use vaedb.Query.Resolve.{
  starts_with, prefix_at, resolved, permalink_loop, resolve_permalink, run_permalink, new_query,
}
use vaedb.Query.Samples.{sample_patterns, sample_source}
use vaedb.Site.Keys.{LruKey, LruKey-discrete}
use vaedb.Site.Queries.{one, IsCoherent}
use vaedb.Response.Build.{new_response}
use vaedb.Response.Found.{nodes_of_query, run_key, nodes_of, new_response-found}
use vaedb.Response.Matches.{admitted, respond-matches}
use vaedb.Response.Sorting.{IsShort, sort_callback-asymmetric, desc_id-before_itself}

-- Fractions in place of floats.
abbrev fractions : Floats
fractions = record {
  Float = ℤ × ℤ;
  from_int = λ a. (a, pos 1);
  div = λ x y. (x.0, y.0);
  int_ceil = λ x. some (ceil_div x.0 (pos_part x.1));
  int_ceil-div = λ a b ha hn hb hw. refl;
}

-- Context number `c` has the id `c` and the letter number `c` as its data.
abbrev letters : Contexts
letters = record {
  get_id = λ c. pos c;
  get_count = λ c f. done (pos c);
  get_data = λ c f. done ((96 + c) ∷ []);
}

abbrev as_it_is : Algorithms
as_it_is = record { sort = λ before l. done l; shuffle = λ l. l }

abbrev node : ℕ → Bytes → XmlNode
node c content = element (codes "item") [] (cons (text content) nil) (some c)

abbrev nodes : List XmlNode
nodes =
    node 1 (codes "Red wine")
    ∷ node 2 (codes "white")
    ∷ node 3 (codes "RED car")
    ∷ node 4 (codes "red")
    ∷ []

-- Eleven items in four groups after one that is skipped: the third group is the items 8 to 10.
window_in_groups_example :
    window fractions (paging unsorted (pos 4) (pos 3) (pos 0) (pos 1)) (pos 12)
    ≡ some (slice (group_start 1 2 3 2) (max 1 (group_size 2 3 2)) 12)
window_in_groups_example =
    window_in_groups fractions 1 2 3 4 (omega arith) (omega arith) 2 (pos 0) (omega arith)
      (omega arith)

window-page_run :
    window fractions (paging unsorted (pos 0) (pos 3) (pos 5) (pos 2)) (pos 14)
    ≡ some (slice 12 5 14)
window-page_run = window-page fractions 2 5 2 14 (omega arith) (omega arith) (omega arith)

respond-page_run :
    respond letters naturals as_it_is fractions (plain 1 2 1) nodes
    ≡ done (record { contexts = 4 ∷ []; total = 4 })
unfolding present context_of
respond-page_run =
    respond-page letters naturals as_it_is fractions 1 2 1 nodes (omega arith) (omega arith)
      (omega arith)

first_pages-take_example :
    first_pages letters naturals as_it_is fractions 1 2 2 nodes ≡ done (2 ∷ 3 ∷ 4 ∷ [])
unfolding present context_of
first_pages-take_example =
    first_pages-take letters naturals as_it_is fractions 1 2 2 nodes (omega arith) (omega arith)

-- Pages of one item of the nodes with `red` in them.
abbrev red : Options
red = record {
  paging = paging unsorted (pos 0) (pos 2) (pos 1) (pos 0);
  filter = true;
  filter_terms = codes "red" ∷ [];
  unique = true;
  unique_fields = codes "kind" ∷ [];
  sort_fields = [];
}

respond-matches_example :
    respond letters naturals as_it_is fractions red nodes
    ≡ done (record { contexts = 3 ∷ []; total = 3 })
unfolding admitted admit filter_match filter_match_recursive children_of erase_found strcasestr
    starts_ci to_lower present context_of eqb any unique_match unique_key is_empty
respond-matches_example =
    respond-matches letters naturals as_it_is fractions red 0 1 1 nodes
      (node 1 (codes "Red wine") ∷ node 3 (codes "RED car") ∷ node 4 (codes "red") ∷ [])
      (omega arith) (omega arith) (omega arith) refl refl refl

abbrev by_kind : List SortField
by_kind = record { field = codes "kind"; count = false; direction = asc } ∷ []

letters-IsShort : IsShort letters
letters-IsShort c f v h = let e : (96 + c) ∷ [] ≡ v = done-injective h in rw (← e) (omega arith)

a_before_b : sort_callback letters naturals by_kind 1 2 ≡ done true
unfolding sort_callback compare_field compare_data str_compare_nat tokenize_string tokenize_loop
    token_end in_mode is_digit merge_floats compare_loop compare_token compare_words compare_numbers
    lex_lt eqb
a_before_b = refl

sort_callback-asymmetric_example : sort_callback letters naturals by_kind 2 1 ≡ done false
sort_callback-asymmetric_example =
    sort_callback-asymmetric letters naturals by_kind 1 2 letters-IsShort refl a_before_b

desc_id-before_itself_example :
    sort_callback letters naturals
      (record { field = codes "id"; count = false; direction = desc } ∷ [])
      3
      3
    ≡ done true
desc_id-before_itself_example =
    desc_id-before_itself letters naturals
      (record { field = codes "id"; count = false; direction = desc }) [] 3 refl refl

filter_match-every_example :
    filter_match (codes "red" ∷ codes "wine" ∷ []) (node 1 (codes "Red wine"))
    ≡ every
        (λ t. any (λ c. strcasestr c t) (codes "Red wine" ∷ []))
        (codes "red" ∷ codes "wine" ∷ [])
unfolding texts_near children_of
filter_match-every_example =
    filter_match-every (codes "red" ∷ codes "wine" ∷ []) (node 1 (codes "Red wine"))

both_pages :
    new_response letters naturals as_it_is fractions
      (λ context. done nodes)
      (plain 1 2 1)
      (some
        (record { contexts = 1 ∷ []; total = 1 } ∷ record { contexts = 2 ∷ []; total = 1 } ∷ []))
    ≡ done (record { contexts = 4 ∷ []; total = 4 } ∷ record { contexts = 4 ∷ []; total = 4 } ∷ [])
unfolding new_response query_parent query_each query_of
both_pages = simp respond-page_run refl

-- The query on a parent with two results, of the contexts 1 and 2.
new_response-Answers_example :
    Answers letters naturals as_it_is fractions
      (λ context. done nodes)
      (plain 1 2 1)
      (1 ∷ 2 ∷ [])
      (record { contexts = 4 ∷ []; total = 4 } ∷ record { contexts = 4 ∷ []; total = 4 } ∷ [])
unfolding all_contexts
new_response-Answers_example =
    new_response-Answers letters naturals as_it_is fractions (λ context. done nodes) (plain 1 2 1)
      (record { contexts = 1 ∷ []; total = 1 } ∷ record { contexts = 2 ∷ []; total = 1 } ∷ [])
      (record { contexts = 4 ∷ []; total = 4 } ∷ record { contexts = 4 ∷ []; total = 4 } ∷ [])
      both_pages

-- Texts of which nothing is asked here.
abbrev plain_texts : Texts
plain_texts = record {
  atoi = λ t. pos (digits_value 0 t);
  split_commas = λ t. t ∷ [];
  words = λ t. t ∷ [];
  same_caseless = eqb;
  replace_reverse = λ t. t;
  inside_desc = λ t. none;
  inside_count = λ t. none;
}

respond-parse_options_run :
    (length nodes ≤ 99999999
      → respond letters naturals as_it_is fractions (parse_options plain_texts []) nodes
        ≡ done (record { contexts = present nodes; total = 4 }))
    × (length nodes ≤ 999999999
        → respond letters naturals as_it_is fractions
            (parse_options plain_texts ((codes "page", codes "all") ∷ []))
            nodes
          ≡ done (record { contexts = present nodes; total = 4 }))
respond-parse_options_run =
    respond-parse_options plain_texts letters naturals as_it_is fractions nodes

news_run :
    new_query sample_patterns sample_source 3 none (codes "permalink/news") ≡ done (result (some 3))
unfolding new_query run_permalink resolve_permalink permalink_loop prefix_at resolved lookup
    starts_with eqb Bytes-discrete Bool-cases
news_run = refl

abbrev no_queries : LruCache LruKey (Option Query)
no_queries = init 384

no_queries-IsCoherent :
    IsCoherent LruKey-discrete (run_key sample_patterns sample_source 3 (λ n. node n [])) no_queries
unfolding init lookup
no_queries-IsCoherent k p h = absurd (cc)

new_response-found_example :
    (ns : List ℕ) × (nodes_of_query (result (some 3)) ≡ done ns)
    × (length ns ≡ 1)
    × (new_response letters naturals as_it_is fractions
          (nodes_of sample_patterns sample_source 3
            (λ n. node n [])
            no_queries
            (codes "permalink/news"))
          (parse_options plain_texts [])
          none
        ≡ done (record { contexts = present (map (λ n. node n []) ns); total = 1 } ∷ []))
unfolding result get_size init
new_response-found_example =
    new_response-found sample_patterns sample_source 3 (λ n. node n []) plain_texts letters naturals
      as_it_is fractions no_queries (codes "permalink/news") (result (some 3)) 1 (omega arith)
      ((init-IsValid LruKey-discrete one 384).0) no_queries-IsCoherent news_run refl (omega arith)
