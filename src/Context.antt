-- ===== src/Context.antt =====
-- context.h and the parts of context.cpp that read a context: its fields, `getStructure` and `toJson`.
pub mod Build
pub mod Indexed
pub mod Registered
pub mod Free
pub mod Associations
pub mod Cleaning
pub mod Owned
pub mod Maps
pub mod Unshared
pub mod Dangling
pub mod Caches
pub mod Answers
mod Tests
use vaedb.Common.{ℕ, Option, none, some, List, [], ◌∷◌, Bytes, codes, ◌==◌, if◌then◌else◌}
use vaedb.Common.Int.{ℤ, pos, negsuc}
use vaedb.Common.Outcome.{Outcome, done, undefined}
use vaedb.Xml.Cells.{Cell, first_text}
use vaedb.Json.{JsonLibrary}

pub record Structure : Type 0 where
  pub id : ℤ
  pub name : Bytes
  pub type : Bytes
  pub permalink : Bytes

-- The fields that the constructor sets for good; the caches are in Context/Caches.antt.
pub record Context : Type 0 where
  pub node : ℕ
  pub id : ℤ
  pub permalink : Option Bytes
  pub structure : Option Structure
  pub type : Bytes

unfoldable pub get_structure_id : Context → Outcome ℤ
get_structure_id c = elim c.structure [ none ↦ undefined | some s ↦ done s.id ]

-- `getStructure`: without one, the value of `Structure()`, whose members are all zeros and empty.
unfoldable pub structure_of : Context → Structure
structure_of c = elim c.structure [
  | none ↦ record { id = pos 0; name = []; type = []; permalink = [] }
  | some s ↦ s
]

-- `getNodeName`
unfoldable pub get_node_name : (ℕ → Cell) → Context → Option Bytes
get_node_name memory c = (memory c.node).name

-- The private `getSingleData`.
unfoldable pub single_data_of : (ℕ → Cell) → Context → Bytes
single_data_of memory c = first_text memory (memory c.node).children

module _ (library : JsonLibrary) (memory : ℕ → Cell) where
  open library use {Json, empty, number, text, put}

  unfoldable pub put_structure : Context → Json → Json
  put_structure c j = elim c.structure [
    | none ↦ j
    | some s ↦ put (put j (codes "structure_id") (number s.id)) (codes "type") (text c.type)
  ]

  unfoldable pub put_permalink : Context → Json → Json
  put_permalink c j = elim c.permalink [
    | none ↦ j
    | some permalink ↦ put j (codes "permalink") (text permalink)
  ]

  unfoldable pub put_id : Context → Json → Json
  put_id c j = elim c.id [
    | pos n ↦
        if n == 0
        then put j (codes "data") (text (single_data_of memory c))
        else put j (codes "id") (number (pos n))
    | negsuc n ↦ put j (codes "id") (number (negsuc n))
  ]

  -- `toJson`; a `json` that nothing is put into is null.
  unfoldable pub to_json : Json → Context → Json
  to_json null c = put_id c (put_permalink c (put_structure c null))
