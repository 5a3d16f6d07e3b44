-- ===== src/Query/Samples.antt =====
-- A small site and a small part of pcre, boost and the C library, on which the tests run query.cpp.
use vaedb.Common.{
  ℕ, ◌+◌, ◌-◌, ◌*◌, Bool, Option, none, some, List, [], ◌∷◌, ◌++◌, Bytes, codes, eqb, drop, leb,
  ◌==◌, ◌&&◌, if◌then◌else◌,
}
use vaedb.Common.Int.{pos}
use vaedb.Xml.Cells.{Cell, element_node, text_node}
use vaedb.Context.{Structure, Context}
use vaedb.Query.{nodeset, Source}
use vaedb.Query.Replacing.{expand}
use vaedb.Query.Resolve.{Patterns, starts_with}

abbrev pub add_first : ℕ → List Bytes → List Bytes
add_first c [] = (c ∷ []) ∷ []
add_first c (part ∷ parts) = (c ∷ part) ∷ parts

abbrev pub split_at : ℕ → Bytes → List Bytes
split_at d [] = [] ∷ []
split_at d (c ∷ s) = let rest = split_at d s in if c == d then [] ∷ rest else add_first c rest

abbrev pub first_of : Bytes → ℕ
first_of [] = 0
first_of (c ∷ s) = c

abbrev pub join_with : ℕ → List Bytes → Bytes
join_with d [] = []
join_with d (part ∷ []) = part
join_with d (part ∷ next ∷ parts) = part ++ (d ∷ join_with d (next ∷ parts))

abbrev pub is_digit : ℕ → Bool
is_digit c = leb b'0' c && leb c b'9'

abbrev pub digits : Bytes → Bytes
digits [] = []
digits (c ∷ s) = let rest = digits s in if is_digit c then c ∷ rest else []

abbrev pub behind : Bytes → Bytes
behind [] = []
behind (c ∷ s) = let rest = behind s in if is_digit c then rest else c ∷ s

abbrev pub decimal : ℕ → Bytes → ℕ
decimal n [] = n
decimal n (c ∷ s) = decimal (n * 10 + (c - b'0')) s

-- "([0-9]+)(/.*|)"
abbrev pub id_and_rest : Bytes → Option (Bytes × Bytes)
id_and_rest s =
    if eqb (digits s) []
    then none
    else (if leb 1 (first_of (behind s))
        then (if first_of (behind s) == b'/' then some (digits s, behind s) else none)
        else some (digits s, behind s))

-- The replacement of "/([0-9]+)".
abbrev pub replace_id : Bytes → Bytes → Option Bytes
replace_id rewrite [] = none
replace_id rewrite (c ∷ s) =
    let later = replace_id rewrite s in
    if (c == b'/') && is_digit (first_of s)
    then some (expand rewrite (digits s ∷ []) ++ behind s)
    else elim later [ none ↦ none | some t ↦ some (c ∷ t) ]

-- Only the expressions "^/" and "/([0-9]+)" are known.
abbrev pub sample_patterns : Patterns
sample_patterns = record {
  full_match1 = λ pattern s. if starts_with (codes "permalink/") s then some (drop 10 s) else none;
  full_match2 = λ pattern s. id_and_rest s;
  replace = λ pattern rewrite s.
      if eqb pattern (codes "^/")
      then (if first_of s == b'/' then some (drop 1 s) else none)
      else (if eqb pattern (codes "/([0-9]+)") then replace_id rewrite s else none);
  split = λ s separators. split_at (first_of separators) s;
  join = λ parts separator. join_with (first_of separator) parts;
  atoi = λ s. pos (decimal 0 (digits s));
}

abbrev pub page_structure : Structure
page_structure = record { id = pos 4; name = codes "page"; type = codes "Item"; permalink = [] }

-- Node 3 is the element "page" with the id 12 and the text node 5; its context is named 3.
abbrev pub sample_memory : ℕ → Cell
sample_memory n =
    if n == 3
    then record {
      node_type = element_node;
      name = some (codes "page");
      content = [];
      properties = (codes "id", some (codes "12")) ∷ [];
      children = 5 ∷ [];
      private = some 3;
    }
    else (if n == 6
        then record {
          node_type = element_node;
          name = some (codes "item");
          content = [];
          properties = (codes "id", some (codes "4")) ∷ (codes "name", some (codes "page")) ∷ [];
          children = [];
          private = none;
        }
        else record {
          node_type = text_node;
          name = none;
          content = codes "hello";
          properties = [];
          children = [];
          private = none;
        })

abbrev pub sample_context : Context
sample_context = record {
  node = 3;
  id = pos 12;
  permalink = some (codes "news");
  structure = some page_structure;
  type = codes "Item";
}

-- The permalink "news" is node 3; "title" finds the nodes 3 and 6, and anything else nothing.
abbrev pub sample_source : Source
sample_source = record {
  permalinks = (codes "news", 3) ∷ [];
  nodes = (pos 12, 3) ∷ [];
  root_node = some 1;
  root_design_node = some 2;
  memory = sample_memory;
  contexts = λ c. sample_context;
  evaluate = λ node q.
      if eqb q (codes "title")
      then nodeset (some (3 ∷ 6 ∷ []))
      else (if eqb q (codes "item")
          then nodeset (some (6 ∷ []))
          else (if starts_with (codes "/website/design") q
              then nodeset (some (6 ∷ []))
              else nodeset none));
}
