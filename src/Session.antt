-- ===== src/Session.antt =====
-- session.cpp: the responses of one client.
pub mod Responses
use vaedb.Common.{
  ℕ, zero, suc, ◌+◌, ◌≡◌, Option, none, some, List, [], ◌∷◌, ◌++◌, Bytes, codes, length, get_elem?,
}
use vaedb.Common.Int.{ℤ, pos, negsuc}
use vaedb.Common.Outcome.{Outcome, done, thrown, undefined, Error, internal_error, ◌>>=◌}
use vaedb.Json.{JsonLibrary}

-- What a session asks of `Response`: its two constructors and the four views.
pub record ResponseClass (library : JsonLibrary) (Site : Type 0) : Type 1 where
  pub Response : Type 0
  pub new_info : Site → Option Response → Bytes → Outcome Response
  pub new_query : Site → Option Response → Bytes → List (Bytes × Bytes) → Outcome Response
  pub get_create_info : Response → Outcome library.Json
  pub get_data : Response → Outcome library.Json
  pub get_json : Response → Outcome library.Json
  pub get_structure : Response → Outcome library.Json

module _ (library : JsonLibrary) (Site : Type 0) (class : ResponseClass library Site) where
  open library use {Json, number, put}
  open class use {Response, new_info, new_query, get_create_info, get_data, get_json, get_structure}

  pub record Session : Type 0 where
    pub site : Site
    pub created_at : ℕ
    pub responses : List Response

  abbrev pub invalid : {A : Type 0} → Outcome A
  invalid = thrown (internal_error (codes "Invalid responseId"))

  unfoldable pub element : List Response → ℕ → Outcome Response
  element responses i = elim (get_elem? responses i) [ none ↦ invalid | some r ↦ done r ]

  -- `responses.size() >= responseId` compares without sign, so a negative id is too large; the id 0
  -- passes the test, and the element before the first is read.
  unfoldable pub response_at : Session → ℤ → Outcome Response
  response_at s (pos zero) = undefined
  response_at s (pos (suc n)) = element s.responses n
  response_at s (negsuc n) = invalid

  -- The same with the guard `if (responseId)`.
  unfoldable pub parent_at : Session → ℤ → Outcome (Option Response)
  parent_at s (pos zero) = done none
  parent_at s (pos (suc n)) = element s.responses n >>= λ r. done (some r)
  parent_at s (negsuc n) = invalid

  unfoldable pub create_info : Session → ℤ → Bytes → Outcome Json
  create_info s response_id query =
      parent_at s response_id >>= λ parent. new_info s.site parent query >>= get_create_info

  unfoldable pub session_data : Session → ℤ → Outcome Json
  session_data s response_id = response_at s response_id >>= get_data

  unfoldable pub structure : Session → ℤ → Outcome Json
  structure s response_id = response_at s response_id >>= get_structure

  -- `get`: the answer with its id, and the session with the new response behind the others.
  unfoldable pub session_get : Session → ℤ → Bytes → List (Bytes × Bytes) → Outcome (Json × Session)
  session_get s response_id query options = parent_at s response_id >>= λ parent.
      new_query s.site parent query options >>= λ response. get_json response >>= λ res. done (
        put res (codes "id") (number (pos (length s.responses + 1))),
        record s { responses = s.responses ++ response ∷ [] },
      )
