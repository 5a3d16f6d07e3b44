-- ===== src/Response/Filter.antt =====
-- `filterMatch` of response.cpp: every term of the filter occurs in a text near the node.
use vaedb.Common.{
  ℕ, ◌+◌, ◌≡◌, refl, ap, fun_ext, ◌∙◌, Bool, true, false, not, ◌&&◌, List, [], ◌∷◌, ◌++◌, Bytes,
  arith, keep, any, every, is_empty, is_empty-keep, keep-keep, leb, ltb, ◌==◌, if◌then◌else◌,
}
use vaedb.Xml.{XmlNode, element, text, other, XmlNodes, nil, cons}

-- `tolower` of the C locale.
unfoldable pub to_lower : ℕ → ℕ
to_lower c = if leb b'A' c && leb c b'Z' then c + 32 else c

unfoldable pub starts_ci : Bytes → Bytes → Bool
starts_ci [] hay = true
starts_ci (d ∷ needle) [] = false
starts_ci (d ∷ needle) (c ∷ hay) = if to_lower c == to_lower d then starts_ci needle hay else false

-- `strcasestr(hay, needle) != NULL`
unfoldable pub strcasestr : Bytes → Bytes → Bool
strcasestr [] needle = starts_ci needle []
strcasestr (c ∷ hay) needle = if starts_ci needle (c ∷ hay) then true else strcasestr hay needle

-- The loop over `filterRemainingTerms` at one text.
unfoldable pub erase_found : Bytes → List Bytes → List Bytes
erase_found content [] = []
erase_found content (term ∷ terms) =
    let rest = erase_found content terms in if strcasestr content term then rest else term ∷ rest

-- `filterMatchRecursive` on the children of a node: the terms that remain.
unfoldable pub filter_match_recursive : XmlNodes → ℕ → List Bytes → List Bytes
filter_match_recursive nil reentry terms = terms
filter_match_recursive (cons (element name properties children context) rest) reentry terms =
    let below = filter_match_recursive children (reentry + 1) terms in
    filter_match_recursive rest reentry (if ltb reentry 1 then below else terms)
filter_match_recursive (cons (text content) rest) reentry terms =
    filter_match_recursive rest reentry (erase_found content terms)
filter_match_recursive (cons (other children) rest) reentry terms =
    filter_match_recursive rest reentry terms

-- `node->children`
unfoldable pub children_of : XmlNode → XmlNodes
children_of (element name properties children context) = children
children_of (text content) = nil
children_of (other children) = children

unfoldable pub filter_match : List Bytes → XmlNode → Bool
filter_match terms node = is_empty (filter_match_recursive (children_of node) 0 terms)

-- The texts among the nodes, and also those one level below.
unfoldable pub texts_here : XmlNodes → List Bytes
texts_here nil = []
texts_here (cons (text content) rest) = content ∷ texts_here rest
texts_here (cons _ rest) = texts_here rest

unfoldable pub texts_near : XmlNodes → List Bytes
texts_near nil = []
texts_near (cons (element name properties children context) rest) =
    texts_here children ++ texts_near rest
texts_near (cons (text content) rest) = content ∷ texts_near rest
texts_near (cons (other children) rest) = texts_near rest

-- The terms left when the texts were gone through.
abbrev sift : List Bytes → List Bytes → List Bytes
sift [] terms = terms
sift (content ∷ contents) terms = sift contents (erase_found content terms)

sift-append : (cs ds terms : List Bytes) → sift (cs ++ ds) terms ≡ sift ds (sift cs terms)
sift-append [] ds terms = refl
sift-append (c ∷ cs) ds terms = sift-append cs ds (erase_found c terms)

recursive-below :
    (nodes : XmlNodes) (terms : List Bytes)
    → filter_match_recursive nodes (0 + 1) terms ≡ sift (texts_here nodes) terms
unfolding filter_match_recursive texts_here
recursive-below nil terms = refl
recursive-below (cons (element name properties children context) rest) terms =
    recursive-below rest terms
recursive-below (cons (text content) rest) terms = recursive-below rest (erase_found content terms)
recursive-below (cons (other children) rest) terms = recursive-below rest terms

recursive-near :
    (nodes : XmlNodes) (terms : List Bytes)
    → filter_match_recursive nodes 0 terms ≡ sift (texts_near nodes) terms
unfolding filter_match_recursive texts_near
recursive-near nil terms = refl
recursive-near (cons (element name properties children context) rest) terms =
    rw (recursive-below children terms, sift-append (texts_here children) (texts_near rest) terms)
      (recursive-near rest (sift (texts_here children) terms))
recursive-near (cons (text content) rest) terms = recursive-near rest (erase_found content terms)
recursive-near (cons (other children) rest) terms = recursive-near rest terms

erase_found-keep :
    (content : Bytes) (terms : List Bytes)
    → erase_found content terms ≡ keep (λ t. not (strcasestr content t)) terms
unfolding erase_found keep
erase_found-keep content [] = refl
erase_found-keep content (term ∷ terms) = ground (arith, erase_found-keep content terms)

-- A term remains if no text has it.
unseen : List Bytes → Bytes → Bool
unseen contents term = not (any (λ c. strcasestr c term) contents)

unseen-cons :
    (c : Bytes) (cs : List Bytes) (t : Bytes)
    → (if not (strcasestr c t) then unseen cs t else false) ≡ unseen (c ∷ cs) t
unfolding unseen any
unseen-cons c cs t = ground arith

sift-keep : (contents terms : List Bytes) → sift contents terms ≡ keep (unseen contents) terms
unfolding keep unseen any
sift-keep [] [] = refl
sift-keep [] (t ∷ terms) = ap (◌∷◌ t) (sift-keep [] terms)
sift-keep (c ∷ cs) terms =
    ap (sift cs) (erase_found-keep c terms)
    ∙ sift-keep cs (keep (λ t. not (strcasestr c t)) terms)
    ∙ keep-keep (λ t. not (strcasestr c t)) (unseen cs) terms
    ∙ ap (λ p. keep p terms) (fun_ext (unseen-cons c cs))

seen :
    (contents : List Bytes) (t : Bytes)
    → not (unseen contents t) ≡ any (λ c. strcasestr c t) contents
unfolding unseen
seen contents t = ground arith

-- A node matches exactly if each term occurs, in whatever case, in a text among the node's children
-- or among their children.
pub filter_match-every :
    (terms : List Bytes) (node : XmlNode)
    → filter_match terms node
      ≡ every (λ t. any (λ c. strcasestr c t) (texts_near (children_of node))) terms
unfolding filter_match
filter_match-every terms node =
    let contents = texts_near (children_of node) in
    ap is_empty (recursive-near (children_of node) terms ∙ sift-keep contents terms)
    ∙ is_empty-keep (unseen contents) terms
    ∙ ap (λ p. every p terms) (fun_ext (seen contents))
