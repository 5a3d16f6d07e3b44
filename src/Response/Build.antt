-- ===== src/Response/Build.antt =====
-- The end of the constructor of `Response` in response.cpp: one query without a parent, and otherwise one for
-- each context of the parent.
use vaedb.Common.{ℕ, ◌≡◌, Option, none, some, List, [], ◌∷◌, ◌++◌, subst}
use vaedb.Common.Machine.{Floats}
use vaedb.Common.Outcome.{Outcome, done, ◌>>=◌, >>=-eq-done, done-injective}
use vaedb.Util.{Doubles}
use vaedb.Xml.{XmlNode}
use vaedb.Response.Select.{Options, ResponseContext, Contexts, Algorithms, respond}

-- The contexts of a response, in order.
unfoldable pub all_contexts : List ResponseContext → List ℕ
all_contexts [] = []
all_contexts (r ∷ rs) = r.contexts ++ all_contexts rs

module _ (contexts : Contexts) (doubles : Doubles) (algorithms : Algorithms) (floats : Floats)
    (nodes_of : Option ℕ → Outcome (List XmlNode)) where
  -- `query(context, q, options)`: `nodes_of` is `fetch_query` with the nodes of its result.
  unfoldable pub query_of : Options → Option ℕ → Outcome ResponseContext
  query_of o context = nodes_of context >>= respond contexts doubles algorithms floats o

  unfoldable pub query_each : Options → List ℕ → Outcome (List ResponseContext)
  query_each o [] = done []
  query_each o (c ∷ cs) = query_of o (some c) >>= λ r. query_each o cs >>= λ rs. done (r ∷ rs)

  unfoldable pub query_parent : Options → List ResponseContext → Outcome (List ResponseContext)
  query_parent o [] = done []
  query_parent o (r ∷ rs) =
      query_each o r.contexts >>= λ here. query_parent o rs >>= λ later. done (here ++ later)

  unfoldable pub new_response :
      Options → Option (List ResponseContext) → Outcome (List ResponseContext)
  new_response o none = query_of o none >>= λ r. done (r ∷ [])
  new_response o (some parent) = query_parent o parent

  -- Each result is the query of the context at its place.
  pub data Answers (o : Options) : List ℕ → List ResponseContext → Type 0 where
    nothing : Answers o [] []
    answer :
        {cs : List ℕ} {rs : List ResponseContext} (c : ℕ) (r : ResponseContext)
        → query_of o (some c) ≡ done r
        → Answers o cs rs
        → Answers o (c ∷ cs) (r ∷ rs)

  query_each-Answers :
      (o : Options) (cs : List ℕ) (rs : List ResponseContext)
      → query_each o cs ≡ done rs
      → Answers o cs rs
  unfolding query_each
  query_each-Answers o [] rs h = rw (← done-injective h) nothing
  query_each-Answers o (c ∷ cs) rs h =
      let (r, here, h1) = >>=-eq-done (query_of o (some c)) _ h in
      let (later, rest, h2) = >>=-eq-done (query_each o cs) _ h1 in
      subst (Answers o (c ∷ cs)) (done-injective h2)
        (answer c r here (query_each-Answers o cs later rest))

  Answers-append :
      (o : Options) {cs ds : List ℕ} {rs ss : List ResponseContext}
      → Answers o cs rs
      → Answers o ds ss
      → Answers o (cs ++ ds) (rs ++ ss)
  Answers-append o nothing b = b
  Answers-append o (answer c r e a) b = answer c r e (Answers-append o a b)

  -- A response to a query on a parent has one result for each context of the parent, in the order of
  -- the parent's results and of the contexts in them, and each is the query of its context.
  pub new_response-Answers :
      (o : Options) (parent result : List ResponseContext)
      → new_response o (some parent) ≡ done result
      → Answers o (all_contexts parent) result
  unfolding new_response query_parent all_contexts
  new_response-Answers o [] result h = subst (Answers o []) (done-injective h) nothing
  new_response-Answers o (r ∷ rs) result h =
      let (here, e1, h1) = >>=-eq-done (query_each o r.contexts) _ h in
      let (later, e2, h2) = >>=-eq-done (query_parent o rs) _ h1 in
      subst (Answers o (r.contexts ++ all_contexts rs)) (done-injective h2) (
        Answers-append o (query_each-Answers o r.contexts here e1)
          (new_response-Answers o rs later e2))
