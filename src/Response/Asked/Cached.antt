-- ===== src/Response/Asked/Cached.antt =====
-- What response.cpp asks of its contexts, answered by context.cpp: each context has its caches, and a question
-- changes those of the context that is asked.
use vaedb.Common.{ℕ, ◌≡◌, refl, ap, subst, ◌∙◌, List, ℕ_discrete}
use vaedb.Common.Int.{ℤ, pos}
use vaedb.Common.Outcome.{Outcome, done, ◌>>=◌}
use vaedb.Util.{Doubles}
use vaedb.Response.Select.{Contexts, SortField, sort_callback}
use vaedb.Query.{Source}
use vaedb.Query.Resolve.{Patterns}
use vaedb.Context.Caches.{Caches, no_caches, count_of, get_count, get_text}
use vaedb.Context.Answers.{
  IsSound, text_answered, get_count-IsSound, get_text-IsSound, no_caches-IsSound,
}
use vaedb.Response.Asked.{
  Question, ask_id, ask_count, ask_data, ReplyTo, Client, ends, asks, reply_of, run, Sorter,
  run_sorter, sorting,
}
use vaedb.Response.Asked.Sorts.{run-sorting}

abbrev counted : Outcome ℕ → Outcome ℤ
counted n = n >>= λ m. done (pos m)

-- The caches of all contexts, with those of `c` replaced.
abbrev pub put : ℕ → Caches → (ℕ → Caches) → ℕ → Caches
put c k caches d = elim (ℕ_discrete c d) [ yes same ↦ k | no other ↦ caches d ]

module _ (patterns : Patterns) (source : Source) (fuel : ℕ) where
  -- The contexts of a site without their caches.
  unfoldable pub contexts_of : Contexts
  contexts_of = record {
    get_id = λ c. (source.contexts c).id;
    get_count = λ c query. counted (count_of patterns source fuel c query);
    get_data = text_answered patterns source fuel;
  }

  -- One question to the context `c`, with the caches behind it.
  unfoldable pub ask : ℕ → (q : Question) → (ℕ → Caches) → (ℕ → Caches) × ReplyTo q
  ask c ask_id caches = (caches, (source.contexts c).id)
  ask c (ask_count query) caches =
      let (k, n) = get_count patterns source fuel c query (caches c) in (put c k caches, counted n)
  ask c (ask_data query) caches =
      let (k, s) = get_text patterns source fuel c query (caches c) in (put c k caches, s)

  -- The code with the caches of the contexts, and the caches behind it.
  unfoldable pub run_cached {ℓ} : {A : Type ℓ} → Client A → (ℕ → Caches) → (ℕ → Caches) × A
  run_cached (ends a) caches = (caches, a)
  run_cached (asks c question next) caches =
      let (caches', reply) = ask c question caches in run_cached (next reply) caches'

  -- All caches hold only what the queries find.
  pub AllSound : (ℕ → Caches) → Type 0
  AllSound caches = (d : ℕ) → IsSound patterns source fuel d (caches d)

  put-AllSound :
      (c : ℕ) (k : Caches) (caches : ℕ → Caches)
      → IsSound patterns source fuel c k
      → AllSound caches
      → AllSound (put c k caches)
  unfolding AllSound
  put-AllSound c k caches new old d =
      elim (ℕ_discrete c d)
        as (λ x. IsSound patterns source fuel d (elim x [ yes same ↦ k | no other ↦ caches d ])) [
          | yes same ↦ subst (λ e. IsSound patterns source fuel e k) same new
          | no other ↦ old d
        ]

  ask-AllSound :
      (c : ℕ) (question : Question) (caches : ℕ → Caches)
      → AllSound caches
      → let (caches', reply) = ask c question caches in
        AllSound caches' × (reply ≡ reply_of contexts_of c question)
  unfolding AllSound ask reply_of contexts_of
  ask-AllSound c ask_id caches ok = (ok, refl)
  ask-AllSound c (ask_count query) caches ok =
      let (ok', e) = get_count-IsSound patterns source fuel c query (caches c) (ok c) in
      (put-AllSound c _ caches ok' ok, ap counted e)
  ask-AllSound c (ask_data query) caches ok =
      let (ok', e) = get_text-IsSound patterns source fuel c query (caches c) (ok c) in
      (put-AllSound c _ caches ok' ok, e)

  run_cached-run {ℓ} :
      {A : Type ℓ} (client : Client A) (caches : ℕ → Caches)
      → AllSound caches
      → let (caches', a) = run_cached client caches in
        AllSound caches' × (a ≡ run contexts_of client)
  unfolding run_cached run
  run_cached-run (ends a) caches ok = (ok, refl)
  run_cached-run (asks c question next) caches ok =
      let (ok1, e) = ask-AllSound c question caches ok in
      let (ok', later) =
        run_cached-run (next (ask c question caches).1) (ask c question caches).0 ok1 in
      (ok', later ∙ ap (λ reply. run contexts_of (next reply)) e)

  pub no_caches-AllSound : AllSound (λ c. no_caches)
  unfolding AllSound
  no_caches-AllSound d = no_caches-IsSound patterns source fuel d

  -- However `std::sort` chooses the contexts that it compares, by the answers so far, a sort by any fields
  -- with the caches of the contexts ends as it does when each getCount and getData is answered without a
  -- cache, exceptions included, if the caches held only what the queries find; and so do the caches that the
  -- sort leaves.
  pub sorting-uncached {ℓ} :
      {A : Type ℓ} (doubles : Doubles) (fields : List SortField) (sorter : Sorter A)
      (caches : ℕ → Caches)
      → AllSound caches
      → let (caches', outcome) = run_cached (sorting doubles fields sorter) caches in
        AllSound caches' × (outcome ≡ run_sorter (sort_callback contexts_of doubles fields) sorter)
  sorting-uncached doubles fields sorter caches ok =
      let (ok', e) = run_cached-run (sorting doubles fields sorter) caches ok in
      (ok', e ∙ run-sorting doubles contexts_of fields sorter)
