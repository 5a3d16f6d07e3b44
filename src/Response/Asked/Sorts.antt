-- ===== src/Response/Asked/Sorts.antt =====
-- The code of Response/Asked.antt that compares and sorts ends as the comparison of response.cpp does.
use vaedb.Common.{
  ℕ, ◌≡◌, refl, ◌∙◌, Bool, Option, none, some, List, [], ◌∷◌, codes, eqb, Bool-cases, inl, inr,
  if◌then◌else◌,
}
use vaedb.Common.Int.{pos, ltb_ℤ}
use vaedb.Common.Outcome.{Outcome, done, thrown, undefined, ◌>>=◌}
use vaedb.Util.{Doubles}
use vaedb.Response.{eqb_ℤ}
use vaedb.Response.Select.{
  Contexts, SortField, compare_field, directed, compare_data, sort_callback,
}
use vaedb.Response.Asked.{
  Client, ends, asks, reply_of, run, passed, followed, Sorter, sorted, compares, run_sorter,
  decided, by_id, by_count, by_data, comparison, sorting,
}

run-followed {ℓ κ} :
    {A : Type ℓ} {B : Type κ} (contexts : Contexts) (client : Client A) (next : A → Client B)
    → run contexts (followed client next) ≡ run contexts (next (run contexts client))
unfolding run followed
run-followed contexts (ends a) next = refl
run-followed contexts (asks c question first) next =
    run-followed contexts (first (reply_of contexts c question)) next

module _ (doubles : Doubles) (contexts : Contexts) where
  run-passed {ℓ κ} :
      {A : Type ℓ} {B C : Type κ} (m : Outcome A) (next : A → Client (Outcome C))
      (g : A → Outcome B) (v : B → Outcome C)
      → ((a : A) → run contexts (next a) ≡ (g a >>= v))
      → run contexts (passed m next) ≡ (m >>= g >>= v)
  unfolding run passed
  run-passed (done a) next g v h = h a
  run-passed (thrown e) next g v h = refl
  run-passed undefined next g v h = refl

  run-decided :
      (f : SortField) (rest : Client (Outcome Bool)) (comp : Option Bool) (later : Outcome Bool)
      → run contexts rest ≡ later
      → run contexts (decided f rest comp)
        ≡ elim comp [ none ↦ later | some answer ↦ done (directed f.direction answer) ]
  unfolding run
  run-decided f rest none later h = h
  run-decided f rest (some answer) later h = refl

  run-field :
      (f : SortField) (lhs rhs : ℕ) (rest : Client (Outcome Bool)) (later : Outcome Bool)
      → run contexts rest ≡ later
      → run contexts (
          if eqb f.field (codes "id")
          then by_id doubles f lhs rhs rest
          else (if f.count
              then by_count doubles f lhs rhs rest
              else by_data doubles f lhs rhs rest))
        ≡ (compare_field contexts doubles f lhs rhs >>= λ comp. elim comp [
          | none ↦ later
          | some answer ↦ done (directed f.direction answer)
        ])
  unfolding run by_id by_count by_data compare_field reply_of
  run-field f lhs rhs rest later h = elim (Bool-cases (eqb f.field (codes "id"))) [
    | inl e ↦ rw (e, compare_field) refl
    | inr e ↦ elim (Bool-cases f.count) [
      | inl counts ↦
          rw (e, counts, compare_field)
            (run-passed (contexts.get_count lhs f.field) _ _ _ (λ l.
              run-passed (contexts.get_count rhs f.field) _ _ _
                (λ r. run-decided f rest (if eqb_ℤ l r then none else some (ltb_ℤ l r)) later h)))
      | inr texts ↦
          rw (e, texts, compare_field)
            (run-passed (contexts.get_data lhs f.field) _ _ _ (λ l.
              run-passed (contexts.get_data rhs f.field) _ _ _ (λ r.
                run-passed (compare_data doubles l r) _ _ _ (λ i.
                  run-decided f rest (if eqb_ℤ i (pos 0) then none else some (ltb_ℤ (pos 0) i))
                    later h))))
    ]
  ]

  -- The comparison of response.cpp is what that code ends with.
  run-comparison :
      (fields : List SortField) (lhs rhs : ℕ)
      → run contexts (comparison doubles fields lhs rhs)
        ≡ sort_callback contexts doubles fields lhs rhs
  unfolding run comparison sort_callback
  run-comparison [] lhs rhs = refl
  run-comparison (f ∷ fields) lhs rhs =
      run-field f lhs rhs (comparison doubles fields lhs rhs) _ (run-comparison fields lhs rhs)

  run-passed_last {ℓ κ} :
      {A : Type ℓ} {B : Type κ} (m : Outcome A) (next : A → Client (Outcome B)) (v : A → Outcome B)
      → ((a : A) → run contexts (next a) ≡ v a)
      → run contexts (passed m next) ≡ (m >>= v)
  unfolding run passed
  run-passed_last (done a) next v h = h a
  run-passed_last (thrown e) next v h = refl
  run-passed_last undefined next v h = refl

  pub run-sorting {ℓ} :
      {A : Type ℓ} (fields : List SortField) (sorter : Sorter A)
      → run contexts (sorting doubles fields sorter)
        ≡ run_sorter (sort_callback contexts doubles fields) sorter
  unfolding run sorting run_sorter
  run-sorting fields (sorted a) = refl
  run-sorting fields (compares lhs rhs next) =
      run-followed contexts (comparison doubles fields lhs rhs) _
      ∙ rw (run-comparison fields lhs rhs) (
          run-passed_last (sort_callback contexts doubles fields lhs rhs) _ _
            (λ b. run-sorting fields (next b)))
