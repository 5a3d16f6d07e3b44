-- ===== src/Response/Asked.antt =====
-- What response.cpp asks of its contexts, and the comparison of its `std::sort` as code that asks.
pub mod Sorts
pub mod Cached
mod Tests
use vaedb.Common.{
  ℕ, ◌≡◌, refl, sym, ap, subst, ◌∙◌, Bool, false, Option, none, some, List, [], ◌∷◌, ◌++◌, Bytes,
  codes, eqb, ℕ_discrete, Bool-cases, inl, inr, if◌then◌else◌,
}
use vaedb.Common.Int.{ℤ, pos, ltb_ℤ}
use vaedb.Common.Outcome.{Outcome, done, thrown, undefined, ◌>>=◌}
use vaedb.Util.{Doubles}
use vaedb.Response.{eqb_ℤ}
use vaedb.Response.Select.{
  Contexts, SortField, compare_field, directed, compare_data, sort_callback,
}

-- A question of response.cpp to a context, and its answer.
pub data Question : Type 0 where
  ask_id : Question
  ask_count ask_data : Bytes → Question

abbrev pub ReplyTo : Question → Type 0
ReplyTo ask_id = ℤ
ReplyTo (ask_count query) = Outcome ℤ
ReplyTo (ask_data query) = Outcome Bytes

-- Code that asks contexts: it ends in a value, or asks one of them and goes on with the answer.
pub data Client {ℓ} (A : Type ℓ) : Type ℓ where
  ends : A → Client A
  asks : ℕ → (q : Question) → (ReplyTo q → Client A) → Client A

unfoldable pub reply_of : Contexts → ℕ → (q : Question) → ReplyTo q
reply_of contexts c ask_id = contexts.get_id c
reply_of contexts c (ask_count query) = contexts.get_count c query
reply_of contexts c (ask_data query) = contexts.get_data c query

unfoldable pub run {ℓ} : {A : Type ℓ} → Contexts → Client A → A
run contexts (ends a) = a
run contexts (asks c question next) = run contexts (next (reply_of contexts c question))

-- An exception ends the code that asks.
unfoldable pub passed {ℓ κ} :
    {A : Type ℓ} {B : Type κ} → Outcome A → (A → Client (Outcome B)) → Client (Outcome B)
passed (done a) next = next a
passed (thrown e) next = ends (thrown e)
passed undefined next = ends undefined

-- One after the other.
unfoldable pub followed {ℓ κ} : {A : Type ℓ} {B : Type κ} → Client A → (A → Client B) → Client B
followed (ends a) next = next a
followed (asks c question first) next = asks c question λ reply. followed (first reply) next

-- `std::sort` as a code that compares two elements, and then goes on with the answer.
pub data Sorter {ℓ} (A : Type ℓ) : Type ℓ where
  sorted : A → Sorter A
  compares : ℕ → ℕ → (Bool → Sorter A) → Sorter A

unfoldable pub run_sorter {ℓ} : {A : Type ℓ} → (ℕ → ℕ → Outcome Bool) → Sorter A → Outcome A
run_sorter comp (sorted a) = done a
run_sorter comp (compares lhs rhs next) = comp lhs rhs >>= λ answer. run_sorter comp (next answer)

-- What the answers for one field decide; `rest` is the comparison by the other fields.
abbrev pub decided : SortField → Client (Outcome Bool) → Option Bool → Client (Outcome Bool)
decided f rest none = rest
decided f rest (some answer) = ends (done (directed f.direction answer))

-- The loop of the comparison of `std::sort` as it asks the two contexts.
module _ (doubles : Doubles) where
  unfoldable pub by_id : SortField → ℕ → ℕ → Client (Outcome Bool) → Client (Outcome Bool)
  by_id f lhs rhs rest = asks lhs ask_id λ l. asks rhs ask_id λ r. decided f rest (some (ltb_ℤ l r))

  unfoldable pub by_count : SortField → ℕ → ℕ → Client (Outcome Bool) → Client (Outcome Bool)
  by_count f lhs rhs rest = asks lhs (ask_count f.field) λ l. passed l λ lcount.
      asks rhs (ask_count f.field) λ r.
        passed r λ rcount.
          decided f rest (if eqb_ℤ lcount rcount then none else some (ltb_ℤ lcount rcount))

  unfoldable pub by_data : SortField → ℕ → ℕ → Client (Outcome Bool) → Client (Outcome Bool)
  by_data f lhs rhs rest = asks lhs (ask_data f.field) λ l. passed l λ ldata.
      asks rhs (ask_data f.field) λ r. passed r λ rdata.
        passed (compare_data doubles ldata rdata)
          λ icomp. decided f rest (if eqb_ℤ icomp (pos 0) then none else some (ltb_ℤ (pos 0) icomp))

  unfoldable pub comparison : List SortField → ℕ → ℕ → Client (Outcome Bool)
  comparison [] lhs rhs = ends (done false)
  comparison (f ∷ fields) lhs rhs =
      let rest = comparison fields lhs rhs in
      if eqb f.field (codes "id")
      then by_id f lhs rhs rest
      else (if f.count then by_count f lhs rhs rest else by_data f lhs rhs rest)

  -- A sort by these fields, with the comparison above.
  unfoldable pub sorting {ℓ} : {A : Type ℓ} → List SortField → Sorter A → Client (Outcome A)
  sorting fields (sorted a) = ends (done a)
  sorting fields (compares lhs rhs next) =
      followed (comparison fields lhs rhs) λ answer. passed answer λ b. sorting fields (next b)
