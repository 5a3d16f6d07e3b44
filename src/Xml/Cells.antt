-- ===== src/Xml/Cells.antt =====
-- The nodes of libxml2 as cells that pointers name, as query.cpp and context.cpp read them: a pointer is a
-- number, and NULL is `none`.
use vaedb.Common.{
  ℕ, Bool, true, false, Option, none, some, List, [], ◌∷◌, Bytes, eqb, if◌then◌else◌,
}
use vaedb.Common.Outcome.{Outcome, done, undefined}

pub data NodeType : Type 0 where
  element_node text_node other_node : NodeType

-- `xmlNode` with the contents of its chains: the properties with the content of their first child, which an
-- empty value has not, and the children. `private` is the context behind `_private`.
pub record Cell : Type 0 where
  pub node_type : NodeType
  pub name : Option Bytes
  pub content : Bytes
  pub properties : List (Bytes × Option Bytes)
  pub children : List ℕ
  pub private : Option ℕ

-- `child->children->content`
unfoldable pub content_of : Option Bytes → Outcome Bytes
content_of none = undefined
content_of (some value) = done value

-- `child && child->type == XML_TEXT_NODE`: the content of the first child, or the empty text.
unfoldable pub text_of : Cell → Bytes
text_of cell = elim cell.node_type [
  | element_node ↦ []
  | text_node ↦ cell.content
  | other_node ↦ []
]

unfoldable pub first_text : (ℕ → Cell) → List ℕ → Bytes
first_text memory [] = []
first_text memory (child ∷ rest) = text_of (memory child)

-- Whether a chain of properties has the name.
unfoldable pub has_property : Bytes → List (Bytes × Option Bytes) → Bool
has_property name [] = false
has_property name ((key, value) ∷ rest) = if eqb key name then true else has_property name rest
