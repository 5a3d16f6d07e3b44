-- ===== src/Response/Parse.antt =====
-- The options of a response: the first part of its constructor in response.cpp.
use vaedb.Common.{
  ℕ, zero, suc, ◌+◌, ◌*◌, ◌^◌, ◌≤◌, ◌<◌, ◌≡◌, refl, ap, ◌∙◌, Bool, true, false, Option, none, some,
  List, [], ◌∷◌, Bytes, codes, eqb, is_empty, length, take, drop, arith, Bytes-discrete,
  if◌then◌else◌,
}
use vaedb.Common.Int.{ℤ, pos, negsuc}
use vaedb.Common.Map.{lookup}
use vaedb.Common.Machine.{Floats}
use vaedb.Common.Outcome.{done}
use vaedb.Util.{Doubles}
use vaedb.Xml.{XmlNode}
use vaedb.Response.{SortType, unsorted, by_reverse, by_shuffle, by_fields}
use vaedb.Response.Select.{
  SortOrder, asc, desc, SortField, Options, Contexts, Algorithms, present, respond,
}
use vaedb.Response.Pages.{plain, respond-page}

-- The C library, boost and pcre: `atoi`, `boost::split` at commas, the words of a stream, `strcasecmp`
-- as a test, the replacement of `REVERSE(` by `DESC(`, and what stands inside `DESC(…)` and `COUNT(…)`.
pub record Texts : Type 0 where
  pub atoi : Bytes → ℤ
  pub split_commas : Bytes → List Bytes
  pub words : Bytes → List Bytes
  pub same_caseless : Bytes → Bytes → Bool
  pub replace_reverse : Bytes → Bytes
  pub inside_desc : Bytes → Option Bytes
  pub inside_count : Bytes → Option Bytes

take_whole : {A : Type 0} (n : ℕ) (l : List A) → length l ≤ n → take n l ≡ l
take_whole zero [] h = refl
take_whole zero (x ∷ l) h = absurd (omega arith)
take_whole (suc n) [] h = refl
take_whole (suc n) (x ∷ l) h = ap (◌∷◌ x) (take_whole n l (omega arith))

module _ (texts : Texts) where
  open texts use {
    atoi, split_commas, words, same_caseless, replace_reverse, inside_desc, inside_count,
  }

  unfoldable pub option : List (Bytes × Bytes) → Bytes → Option Bytes
  option options name = lookup Bytes-discrete name options

  -- `atoi` of the option, if it is there.
  unfoldable pub number_or : ℤ → Option Bytes → ℤ
  number_or n none = n
  number_or n (some value) = atoi value

  abbrev pub either : Bool → Bool → Bool
  either a b = if a then true else b

  -- The option `page` may set `page`, or `paginate`.
  unfoldable pub set_page : Option Bytes → ℤ → ℤ × ℤ
  set_page none paginate = (pos 1, paginate)
  set_page (some value) paginate =
      if either (eqb value (codes "last()")) (eqb value (codes "last"))
      then (negsuc 0, paginate)
      else (if either (eqb value (codes "all")) (eqb value (codes "all()"))
          then (pos 1, pos 999999999)
          else (atoi value, paginate))

  abbrev pub counted : Option Bytes → Bytes → Bytes × Bool
  counted none field = (field, false)
  counted (some inner) field = (inner, true)

  abbrev pub ordered : Option Bytes → Bytes → Bytes × SortOrder
  ordered none term = (term, asc)
  ordered (some inner) term = (inner, desc)

  unfoldable pub sort_field : Bytes → SortField
  sort_field term =
      let (field, direction) = ordered (inside_desc term) term in
      let (name, count) = counted (inside_count field) field in
      record { field = name; count = count; direction = direction }

  unfoldable pub sort_fields_of : List Bytes → List SortField
  sort_fields_of [] = []
  sort_fields_of (term ∷ terms) = sort_field term ∷ sort_fields_of terms

  unfoldable pub set_order : Option Bytes → SortType × List SortField
  set_order none = (unsorted, [])
  set_order (some value) =
      let order = replace_reverse value in
      if is_empty value
      then (unsorted, [])
      else (if same_caseless order (codes "DESC()")
          then (by_reverse, [])
          else (if same_caseless order (codes "RAND()")
              then (by_shuffle, [])
              else (by_fields, sort_fields_of (split_commas order))))

  abbrev pub terms_of : (Bytes → List Bytes) → Option Bytes → Bool × List Bytes
  terms_of split none = (false, [])
  terms_of split (some value) = (true, split value)

  unfoldable pub parse_options : List (Bytes × Bytes) → Options
  parse_options options =
      let limit = number_or (pos 99999999) (option options (codes "limit")) in
      let per_page = number_or limit (option options (codes "paginate")) in
      let (page, paginate) = set_page (option options (codes "page")) per_page in
      let (filter, filter_terms) = terms_of words (option options (codes "filter")) in
      let (unique, unique_fields) = terms_of split_commas (option options (codes "unique")) in
      let (sort_type, sort_fields) = set_order (option options (codes "order")) in
      record {
        paging = record {
          groups = number_or (pos 0) (option options (codes "groups"));
          page = page;
          paginate = paginate;
          skip = number_or (pos 0) (option options (codes "skip"));
          sort_type = sort_type;
        };
        filter = filter;
        filter_terms = filter_terms;
        unique = unique;
        unique_fields = unique_fields;
        sort_fields = sort_fields;
      }

  module _ (contexts : Contexts) (doubles : Doubles) (algorithms : Algorithms)
      (floats : Floats) where
    default_options : parse_options [] ≡ plain 0 99999999 0
    unfolding parse_options number_or set_page set_order option lookup
    default_options = refl

    all_options : parse_options ((codes "page", codes "all") ∷ []) ≡ plain 0 999999999 0
    unfolding parse_options number_or set_page set_order option lookup eqb Bytes-discrete
    all_options = refl

    first_page :
        (n : ℕ) (nodes : List XmlNode)
        → 0 < n
        → n < 2 ^ 31
        → length nodes ≤ n
        → respond contexts doubles algorithms floats (plain 0 n 0) nodes
          ≡ done (record { contexts = present nodes; total = length nodes })
    first_page n nodes h w fits =
        let start : 0 + 0 * n ≡ 0 = omega arith in
        respond-page contexts doubles algorithms floats 0 n 0 nodes h (omega arith) (omega arith)
        ∙ ap (λ (l : List XmlNode). done (record { contexts = present l; total = length nodes }))
            (ap (λ (j : ℕ). take n (drop j nodes)) start ∙ take_whole n nodes fits)

    -- Without options a response has all nodes of its query, up to 99999999 of them, and with the
    -- option `page` of `all` up to 999999999, in the order of the query's result.
    pub respond-parse_options :
        (nodes : List XmlNode)
        → (length nodes ≤ 99999999
            → respond contexts doubles algorithms floats (parse_options []) nodes
              ≡ done (record { contexts = present nodes; total = length nodes }))
          × (length nodes ≤ 999999999
              → respond contexts doubles algorithms floats
                  (parse_options ((codes "page", codes "all") ∷ []))
                  nodes
                ≡ done (record { contexts = present nodes; total = length nodes }))
    respond-parse_options nodes = (
      λ fits.
          ap (λ (o : Options). respond contexts doubles algorithms floats o nodes) default_options
          ∙ first_page 99999999 nodes (omega arith) (omega arith) fits,
      λ fits.
          ap (λ (o : Options). respond contexts doubles algorithms floats o nodes) all_options
          ∙ first_page 999999999 nodes (omega arith) (omega arith) fits,
    )
