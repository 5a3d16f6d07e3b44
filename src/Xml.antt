-- ===== src/Xml.antt =====
-- The part of libxml2's tree that the program walks: an element with its name, its properties, its
-- children and `_private`, the context that hangs on it; a text with its content; any other node, such
-- as an attribute, with its children.
-- A context is named by a number.
pub mod Cells
use vaedb.Common.{ℕ, Option, List, Bytes}

mutual
  pub data XmlNode : Type 0 where
    element : Bytes → List (Bytes × Bytes) → XmlNodes → Option ℕ → XmlNode
    text : Bytes → XmlNode
    other : XmlNodes → XmlNode

  pub data XmlNodes : Type 0 where
    nil : XmlNodes
    cons : XmlNode → XmlNodes → XmlNodes
