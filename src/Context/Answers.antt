-- ===== src/Context/Answers.antt =====
-- The caches of a context do not show in its answers.
use vaedb.Common.{
  ℕ, ◌≡◌, refl, sym, ap, ◌∙◌, Bool, true, false, none, some, List, [], ◌∷◌, map, Bytes, codes,
  is_empty, Bytes-discrete, if_pos, if_neg, Bool-cases, Option-cases, inl, inr, if◌then◌else◌,
}
use vaedb.Common.Map.{lookup, assign, lookup-assign}
use vaedb.Common.Outcome.{Outcome, done, thrown, undefined, internal_error}
use vaedb.Query.{Source}
use vaedb.Query.Resolve.{Patterns}
use vaedb.Context.Caches.{
  Caches, no_caches, populate_loop, populate_data, node_children, count_of, text_found, keep_count,
  get_count, keep_text, read_data, get_text, get_all,
}

-- A call of a client and what it gets.
pub data Call : Type 0 where
  count_call text_call : Bytes → Call
  all_call : Call

pub data Answer : Type 0 where
  count_answer : Outcome ℕ → Answer
  text_answer : Outcome Bytes → Answer
  all_answer : List (Bytes × Bytes) → Answer

-- What a map of kept results may hold.
pub IsKept : {V : Type 0} → (Bytes → Outcome V) → List (Bytes × V) → Type 0
IsKept {V} found m =
    (query : Bytes) (v : V) → lookup Bytes-discrete query m ≡ some v → found query ≡ done v

assign-IsKept :
    {V : Type 0} (found : Bytes → Outcome V) (query : Bytes) (v : V) (m : List (Bytes × V))
    → found query ≡ done v
    → IsKept found m
    → IsKept found (assign Bytes-discrete query v m)
unfolding IsKept
assign-IsKept found query v m new old q w h = elim (Bytes-discrete query q) [
  | yes same ↦
      let first : some v ≡ some w =
        sym (lookup-assign Bytes-discrete query q v m ∙ if_pos (Bytes-discrete query q) same _ _)
        ∙ h in
      let v_ : v ≡ w = cc in ap found (sym same) ∙ new ∙ ap done v_
  | no other ↦ old q w (
      sym (lookup-assign Bytes-discrete query q v m ∙ if_neg (Bytes-discrete query q) other _ _)
      ∙ h)
]

nothing-IsKept : {V : Type 0} (found : Bytes → Outcome V) → IsKept found []
unfolding IsKept lookup
nothing-IsKept found query v h = absurd (cc)

module _ (patterns : Patterns) (source : Source) (fuel : ℕ) (c : ℕ) where
  open source use {memory}

  -- The data of the node itself.
  unfoldable pub own : List (Bytes × Bytes)
  own = populate_loop memory (node_children patterns source fuel c) []

  -- The reference: what `getData` answers without a cache.
  unfoldable pub text_answered : Bytes → Outcome Bytes
  text_answered query =
      if is_empty query
      then thrown (internal_error (codes "Empty query passed to Context::getData"))
      else elim (lookup Bytes-discrete query own) [
        | some s ↦ done s
        | none ↦ text_found patterns source fuel c query
      ]

  -- The kept counts and texts are those that the queries find, and the data is empty or the node's.
  pub record IsSound (k : Caches) : Type 0 where
    pub counts : IsKept (count_of patterns source fuel c) k.cached_counts
    pub texts : IsKept (text_found patterns source fuel c) k.cached_queries
    pub kept : (if k.data_populated then own else []) ≡ k.own_data

  populated-IsSound :
      (k : Caches)
      → IsSound k
      → let k' = populate_data memory (node_children patterns source fuel c) k in
        IsSound k' × (k'.own_data ≡ own)
  unfolding populate_data own
  populated-IsSound k ok = from k.data_populated refl
    where
      from :
          (b : Bool)
          → k.data_populated ≡ b
          → let k' : Caches = if b then k else record k {
            own_data = populate_loop memory (node_children patterns source fuel c) k.own_data;
            data_populated = true;
          } in
            IsSound k' × (k'.own_data ≡ own)
      from true e = let whole : own ≡ k.own_data = simp e at ok.kept in (ok, sym whole)
      from false e =
          let none_ : [] ≡ k.own_data = simp e at ok.kept in
          let filled : populate_loop memory (node_children patterns source fuel c) k.own_data
              ≡ own =
            ap (populate_loop memory (node_children patterns source fuel c)) (sym none_) in
          (record { counts = ok.counts; texts = ok.texts; kept = sym filled }, filled)

  pub get_count-IsSound :
      (query : Bytes) (k : Caches)
      → IsSound k
      → let (k', n) = get_count patterns source fuel c query k in
        IsSound k' × (n ≡ count_of patterns source fuel c query)
  unfolding get_count IsKept keep_count
  get_count-IsSound query k ok = elim (Option-cases (lookup Bytes-discrete query k.cached_counts)) [
    | inl e ↦ rw (e, get_count) (missed (count_of patterns source fuel c query) refl, refl)
    | inr (n, e) ↦ rw (e, get_count) (ok, sym (ok.counts query n e))
  ]
    where
      missed :
          (o : Outcome ℕ)
          → count_of patterns source fuel c query ≡ o
          → IsSound (keep_count patterns source fuel c query k o)
      missed (done n) found = record {
        counts =
            assign-IsKept (count_of patterns source fuel c) query n k.cached_counts found ok.counts;
        texts = ok.texts;
        kept = ok.kept;
      }
      missed (thrown e) found = ok
      missed undefined found = ok

  read_data-IsSound :
      (query : Bytes) (k : Caches)
      → IsSound k
      → k.own_data ≡ own
      → let (k', s) = read_data patterns source fuel c query k in
        IsSound k' × (s ≡ text_answered query)
  unfolding read_data text_answered IsKept keep_text
  read_data-IsSound query k ok full = elim (Bool-cases (is_empty query)) [
    | inl e ↦ rw (e, read_data, text_answered) (ok, refl)
    | inr e ↦ elim (Option-cases (lookup Bytes-discrete query own)) [
      | inr (s, there) ↦
          let here : lookup Bytes-discrete query k.own_data ≡ some s =
            ap (lookup Bytes-discrete query) full ∙ there in
          rw (e, here, there, read_data, text_answered) (ok, refl)
      | inl absent ↦
          let here : lookup Bytes-discrete query k.own_data ≡ none =
            ap (lookup Bytes-discrete query) full ∙ absent in
          elim (Option-cases (lookup Bytes-discrete query k.cached_queries)) [
            | inl fresh ↦
                rw (e, here, absent, fresh, read_data, text_answered)
                  (missed (text_found patterns source fuel c query) refl, refl)
            | inr (s, hit) ↦
                rw (e, here, absent, hit, read_data, text_answered) (ok, sym (ok.texts query s hit))
          ]
    ]
  ]
    where
      missed :
          (o : Outcome Bytes)
          → text_found patterns source fuel c query ≡ o
          → IsSound (keep_text patterns source fuel c query k o)
      missed (done s) found = record {
        counts = ok.counts;
        texts =
            assign-IsKept (text_found patterns source fuel c) query s k.cached_queries found
              ok.texts;
        kept = ok.kept;
      }
      missed (thrown e) found = ok
      missed undefined found = ok

  pub get_text-IsSound :
      (query : Bytes) (k : Caches)
      → IsSound k
      → let (k', s) = get_text patterns source fuel c query k in
        IsSound k' × (s ≡ text_answered query)
  unfolding get_text
  get_text-IsSound query k ok =
      let (ok1, full) = populated-IsSound k ok in
      read_data-IsSound query (populate_data memory (node_children patterns source fuel c) k) ok1
        full

  -- One call, with the context as it is behind it.
  unfoldable pub call : Call → Caches → Caches × Answer
  call (count_call query) k =
      let (k', n) = get_count patterns source fuel c query k in (k', count_answer n)
  call (text_call query) k =
      let (k', s) = get_text patterns source fuel c query k in (k', text_answer s)
  call all_call k = let (k', m) = get_all patterns source fuel c k in (k', all_answer m)

  unfoldable pub calls : List Call → Caches → List Answer
  calls [] k = []
  calls (q ∷ qs) k = let (k', a) = call q k in a ∷ calls qs k'

  -- The same without caches.
  unfoldable pub answered : Call → Answer
  answered (count_call query) = count_answer (count_of patterns source fuel c query)
  answered (text_call query) = text_answer (text_answered query)
  answered all_call = all_answer own

  call-IsSound :
      (q : Call) (k : Caches) → IsSound k → let (k', a) = call q k in IsSound k' × (a ≡ answered q)
  unfolding call answered get_all
  call-IsSound (count_call query) k ok =
      let (ok', e) = get_count-IsSound query k ok in (ok', ap count_answer e)
  call-IsSound (text_call query) k ok =
      let (ok', e) = get_text-IsSound query k ok in (ok', ap text_answer e)
  call-IsSound all_call k ok = let (ok', full) = populated-IsSound k ok in (ok', ap all_answer full)

  calls-answered : (qs : List Call) (k : Caches) → IsSound k → calls qs k ≡ map answered qs
  unfolding calls
  calls-answered [] k ok = refl
  calls-answered (q ∷ qs) k ok =
      let (ok', e) = call-IsSound q k ok in rw (e, calls-answered qs (call q k).0 ok') refl

  -- A new context keeps nothing.
  pub no_caches-IsSound : IsSound no_caches
  no_caches-IsSound = record {
    counts = nothing-IsKept (count_of patterns source fuel c);
    texts = nothing-IsKept (text_found patterns source fuel c);
    kept = refl;
  }

  -- Any sequence of calls of getCount, getData(query) and getData() on a new context gets the answers that
  -- each call would get without a cache: the size of the query, the data of the node or the first text of
  -- the query, and the data of the node. Calls that throw are among them.
  pub calls-uncached : (qs : List Call) → calls qs no_caches ≡ map answered qs
  calls-uncached qs = calls-answered qs no_caches no_caches-IsSound
