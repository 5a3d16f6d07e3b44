-- ===== src/Response/Views.antt =====
-- `getJson`, `getData` and `getStructure` of response.cpp, with the `to_json` of a result.
use vaedb.Common.{ℕ, ◌≡◌, refl, ap, ◌∙◌, List, [], ◌∷◌, ◌++◌, codes}
use vaedb.Common.Int.{pos}
use vaedb.Common.Outcome.{Outcome, done, thrown, undefined, ◌>>=◌}
use vaedb.Json.{JsonLibrary}
use vaedb.Response.Select.{ResponseContext}
use vaedb.Response.Build.{all_contexts}

-- The pushes of the inner loop.
unfoldable pub push_each : {J : Type 0} → (ℕ → Outcome J) → List ℕ → Outcome (List J)
push_each f [] = done []
push_each f (c ∷ cs) = f c >>= λ j. push_each f cs >>= λ js. done (j ∷ js)

-- Those of the two loops, in the order of the results and of the contexts in them.
unfoldable pub push_all : {J : Type 0} → (ℕ → Outcome J) → List ResponseContext → Outcome (List J)
push_all f [] = done []
push_all f (r ∷ rs) =
    push_each f r.contexts >>= λ here. push_all f rs >>= λ later. done (here ++ later)

later_first :
    {J : Type 0} (j : J) (a b : Outcome (List J))
    → ((a >>= λ js. done (j ∷ js)) >>= λ here. b >>= λ later. done (here ++ later))
      ≡ ((a >>= λ here. b >>= λ later. done (here ++ later)) >>= λ js. done (j ∷ js))
later_first j (done js) (done ks) = refl
later_first j (done js) (thrown e) = refl
later_first j (done js) undefined = refl
later_first j (thrown e) b = refl
later_first j undefined b = refl

-- The views of two runs of contexts are the views of the contexts together.
push_each-append :
    {J : Type 0} (f : ℕ → Outcome J) (cs ds : List ℕ)
    → (push_each f cs >>= λ here. push_each f ds >>= λ later. done (here ++ later))
      ≡ push_each f (cs ++ ds)
unfolding push_each
push_each-append {J} f [] ds = again (push_each f ds)
  where
    again : (o : Outcome (List J)) → (o >>= λ later. done later) ≡ o
    again (done a) = refl
    again (thrown e) = refl
    again undefined = refl
push_each-append {J} f (c ∷ cs) ds = first (f c) (push_each-append f cs ds)
  where
    first :
        (o : Outcome J)
        → (push_each f cs >>= λ here. push_each f ds >>= λ later. done (here ++ later))
          ≡ push_each f (cs ++ ds)
        → ((o >>= λ j. push_each f cs >>= λ js. done (j ∷ js)) >>= λ here.
            push_each f ds >>= λ later. done (here ++ later))
          ≡ (o >>= λ j. push_each f (cs ++ ds) >>= λ js. done (j ∷ js))
    first (done j) ih =
        later_first j (push_each f cs) (push_each f ds) ∙ ap (λ o. o >>= λ js. done (j ∷ js)) ih
    first (thrown e) ih = refl
    first undefined ih = refl

-- The data and the structures of a response are those of all its contexts, one after the other: the
-- borders between its results leave no trace, and the first failure ends the whole.
pub push_all-push_each :
    {J : Type 0} (f : ℕ → Outcome J) (rs : List ResponseContext)
    → push_all f rs ≡ push_each f (all_contexts rs)
unfolding push_all all_contexts push_each
push_all-push_each f [] = refl
push_all-push_each f (r ∷ rs) =
    ap (λ o. push_each f r.contexts >>= λ here. o >>= λ later. done (here ++ later))
      (push_all-push_each f rs)
    ∙ push_each-append f r.contexts (all_contexts rs)

-- `array` builds a JSON array; a context has three views.
module _ (library : JsonLibrary) (array : List library.Json → library.Json)
    (to_json context_data context_structure : ℕ → Outcome library.Json) where
  open library use {Json, number, object}

  unfoldable pub get_data : List ResponseContext → Outcome Json
  get_data rs = push_all context_data rs >>= λ js. done (array js)

  unfoldable pub get_structure : List ResponseContext → Outcome Json
  get_structure rs = push_all context_structure rs >>= λ js. done (array js)

  -- `to_json` of a `ResponseContext`
  unfoldable pub result_json : ResponseContext → Outcome Json
  result_json r = push_each to_json r.contexts >>= λ js.
      done (object ((codes "totalItems", number (pos r.total)) ∷ (codes "contexts", array js) ∷ []))

  unfoldable pub results_json : List ResponseContext → Outcome (List Json)
  results_json [] = done []
  results_json (r ∷ rs) = result_json r >>= λ j. results_json rs >>= λ js. done (j ∷ js)

  unfoldable pub get_json : List ResponseContext → Outcome Json
  get_json rs = results_json rs >>= λ js. done (object ((codes "contexts", array js) ∷ []))
