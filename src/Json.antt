-- ===== src/Json.antt =====
-- The calls of json.hpp that the server makes, and `iparam` and `sparam` of server.cpp.
use vaedb.Common.{Bool, List, [], Bytes, if◌then◌else◌}
use vaedb.Common.Int.{ℤ, pos}
use vaedb.Common.Outcome.{Outcome, done, ◌>>=◌}

pub record JsonLibrary : Type 1 where
  pub Json : Type 0
  pub parse : Bytes → Outcome Json
  pub dump : Json → Bytes
  -- `params[name]`
  pub at : Json → Bytes → Outcome Json
  pub is_null : Json → Bool
  pub get_int : Json → Outcome ℤ
  pub get_text : Json → Outcome Bytes
  pub get_map : Json → Outcome (List (Bytes × Bytes))
  -- `json({})`, and the values that the handlers build.
  pub empty : Json
  pub number : ℤ → Json
  pub text : Bytes → Json
  pub boolean : Bool → Json
  pub object : List (Bytes × Json) → Json
  -- `res["id"] = …`
  pub put : Json → Bytes → Json → Json

module _ (library : JsonLibrary) where
  open library use {Json, at, is_null, get_int, get_text}

  unfoldable pub iparam : Json → Bytes → Outcome ℤ
  iparam params name =
      at params name >>= λ value. if is_null value then done (pos 0) else get_int value

  unfoldable pub sparam : Json → Bytes → Outcome Bytes
  sparam params name = at params name >>= λ value. if is_null value then done [] else get_text value
