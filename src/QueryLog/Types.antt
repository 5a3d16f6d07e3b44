-- ===== src/QueryLog/Types.antt =====
-- The other `TypeHelper`s of query_log.h: the names and the texts of the values that an entry can take.
use vaedb.Common.{
  ℕ, suc, ◌≡◌, refl, ◌∙◌, Bool, true, false, Option, none, some, [], ◌∷◌, ◌++◌, Bytes, codes, any,
  Bool-cases, inl, inr, ◌==◌, if◌then◌else◌, ◌>>=◌,
}
use vaedb.Common.Int.{ℤ}
use vaedb.QueryLog.{QueryLog, QueryLogEntry, value_rep, put_value}
use vaedb.QueryLog.Escape.{value_rep-ends}

-- The types with a helper.
pub data LogType : Type 0 where
  string_type char_type bool_type int_type : LogType
  map_type : LogType → LogType → LogType

-- `TypeHelper<T>::Name`
unfoldable pub type_name : LogType → Bytes
type_name string_type = codes "string"
type_name char_type = codes "char[2]"
type_name bool_type = codes "bool"
type_name int_type = codes "i32"
type_name (map_type k v) =
    codes "map<" ++ (type_name k ++ (codes "," ++ (type_name v ++ codes ">")))

-- A value; the pairs of a map in the order of its keys.
mutual
  pub data LogValue : Type 0 where
    string_value char_value : Bytes → LogValue
    bool_value : Bool → LogValue
    int_value : ℤ → LogValue
    map_value : LogPairs → LogValue

  pub data LogPairs : Type 0 where
    no_pairs : LogPairs
    pair : LogValue → LogValue → LogPairs → LogPairs

-- Numbers are written by `show_int`.
module _ (show_int : ℤ → Bytes) where
  -- `TypeHelper<T>::ValueRep` with `fuel` rounds for each replacement; `none` does not end.
  unfoldable mutual
    pub rep_of : ℕ → LogValue → Option Bytes
    rep_of fuel (string_value s) = value_rep fuel s
    rep_of fuel (char_value s) = value_rep fuel s
    rep_of fuel (bool_value b) = some (if b then codes "1" else codes "0")
    rep_of fuel (int_value n) = some (show_int n)
    rep_of fuel (map_value pairs) =
        rep_pairs fuel pairs >>= λ s. some (codes "{" ++ (s ++ codes "}"))

    pub rep_pairs : ℕ → LogPairs → Option Bytes
    rep_pairs fuel no_pairs = some []
    rep_pairs fuel (pair k v rest) = rep_of fuel k >>= λ a. rep_of fuel v >>= λ b.
        rep_pairs fuel rest >>= λ c. some (a ++ (codes ":" ++ (b ++ (codes "," ++ c))))

  -- `operator<<` of a value of a type, if its text ends.
  unfoldable pub log_value :
      ℕ → QueryLog → LogType → LogValue → QueryLogEntry → Option QueryLogEntry
  log_value fuel log type v entry =
      let logged =
        rep_of fuel v >>= λ rep. some (put_value (λ n. []) log (type_name type) rep entry) in
      if log.is_logging then logged else some entry

  abbrev pub is_plain_text : Bytes → Bool
  is_plain_text s =
      if any (λ x. x == b'\\') s then false else (if any (λ x. x == b'"') s then false else true)

  abbrev pub both : Bool → Bool → Bool
  both a b = if a then b else false

  -- No text in the value has a backslash or a double quote.
  unfoldable mutual
    pub is_plain : LogValue → Bool
    is_plain (string_value s) = is_plain_text s
    is_plain (char_value s) = is_plain_text s
    is_plain (bool_value b) = true
    is_plain (int_value n) = true
    is_plain (map_value pairs) = all_plain pairs

    pub all_plain : LogPairs → Bool
    all_plain no_pairs = true
    all_plain (pair k v rest) = both (is_plain k) (both (is_plain v) (all_plain rest))

  -- The text of such a value.
  unfoldable mutual
    pub plain_rep : LogValue → Bytes
    plain_rep (string_value s) = b'"' ∷ (s ++ b'"' ∷ [])
    plain_rep (char_value s) = b'"' ∷ (s ++ b'"' ∷ [])
    plain_rep (bool_value b) = if b then codes "1" else codes "0"
    plain_rep (int_value n) = show_int n
    plain_rep (map_value pairs) = codes "{" ++ (plain_pairs pairs ++ codes "}")

    pub plain_pairs : LogPairs → Bytes
    plain_pairs no_pairs = []
    plain_pairs (pair k v rest) =
        plain_rep k ++ (codes ":" ++ (plain_rep v ++ (codes "," ++ plain_pairs rest)))

  text-rep :
      (fuel : ℕ) (s : Bytes)
      → value_rep (suc fuel) s ≡ (if is_plain_text s then some (b'"' ∷ (s ++ b'"' ∷ [])) else none)
  text-rep fuel s = elim (Bool-cases (any (λ x. x == b'\\') s)) [
    | inl e ↦ value_rep-ends fuel s ∙ rw e refl
    | inr e ↦ elim (Bool-cases (any (λ x. x == b'"') s)) [
      | inl e' ↦ value_rep-ends fuel s ∙ rw (e, e') refl
      | inr e' ↦ value_rep-ends fuel s ∙ rw (e, e') refl
    ]
  ]

  mutual
    unfolding rep_of is_plain plain_rep

    rep_of-plain :
        (fuel : ℕ) (v : LogValue)
        → rep_of (suc fuel) v ≡ (if is_plain v then some (plain_rep v) else none)
    rep_of-plain fuel (string_value s) = text-rep fuel s
    rep_of-plain fuel (char_value s) = text-rep fuel s
    rep_of-plain fuel (bool_value b) = refl
    rep_of-plain fuel (int_value n) = refl
    rep_of-plain fuel (map_value pairs) = elim (Bool-cases (all_plain pairs)) [
      | inl e ↦ rw (rep_pairs-plain fuel pairs, e) refl
      | inr e ↦ rw (rep_pairs-plain fuel pairs, e) refl
    ]

    rep_pairs-plain :
        (fuel : ℕ) (pairs : LogPairs)
        → rep_pairs (suc fuel) pairs ≡ (if all_plain pairs then some (plain_pairs pairs) else none)
    rep_pairs-plain fuel no_pairs = refl
    rep_pairs-plain fuel (pair k v rest) =
        rw (rep_of-plain fuel k, rep_of-plain fuel v, rep_pairs-plain fuel rest)
          (elim (Bool-cases (is_plain k)) [
            | inr e ↦ rw e refl
            | inl e ↦ elim (Bool-cases (is_plain v)) [
              | inr e' ↦ rw (e, e') refl
              | inl e' ↦ elim (Bool-cases (all_plain rest)) [
                | inr e'' ↦ rw (e, e', e'') refl
                | inl e'' ↦ rw (e, e', e'') refl
              ]
            ]
          ])

  -- The text of a value of any type of the log, maps of maps included: if a text anywhere in it has a
  -- backslash or a double quote the call does not end, however many rounds are run; otherwise the texts
  -- stand between double quotes, and the pairs of a map between braces, each with a comma behind it.
  pub rep_of-ends :
      (fuel : ℕ) (v : LogValue)
      → rep_of (suc fuel) v ≡ (if is_plain v then some (plain_rep v) else none)
  rep_of-ends fuel v = rep_of-plain fuel v
