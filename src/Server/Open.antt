-- ===== src/Server/Open.antt =====
-- What `openSession`, `closeSession` and the reaper do to the sessions.
use vaedb.Common.{
  ℕ, zero, suc, ◌+◌, ◌<◌, ◌≤◌, ◌≡◌, refl, sym, ap, ◌∙◌, Option, none, some, List, [], ◌∷◌, codes,
  ite, Option-cases, inl, inr, arith, ltb, get_elem?,
}
use vaedb.Common.Int.{ℤ, ℤ_discrete, ◌-ℤ◌}
use vaedb.Common.Map.{lookup, assign, lookup-assign}
use vaedb.Common.Outcome.{done}
use vaedb.Json.{JsonLibrary}
use vaedb.Site.{Site}
use vaedb.Session.{ResponseClass, Session}
use vaedb.Server.Sessions.{World, free_id, is_stale, reap, add_session}

-- The id found is free, and it is the suggested one if that is free.
free_id-free {ℓ} :
    {V : Type ℓ} (find : ℤ → Option V) (id : ℤ) (draws : List ℤ) (id' : ℤ) (draws' : List ℤ)
    → free_id find id draws ≡ some (id', draws')
    → find id' ≡ none
unfolding free_id
free_id-free find id [] id' draws' h = elim (Option-cases (find id)) [
  | inl e ↦ let same : id ≡ id' = ground arith in ap find (sym same) ∙ e
  | inr (v, e) ↦ absurd (ground arith)
]
free_id-free find id (draw ∷ draws) id' draws' h = elim (Option-cases (find id)) [
  | inl e ↦ let same : id ≡ id' = ground arith in ap find (sym same) ∙ e
  | inr (v, e) ↦ free_id-free find draw draws id' draws' (ground arith)
]

free_id-at {ℓ} :
    {V : Type ℓ} (find : ℤ → Option V) (id : ℤ) (draws : List ℤ)
    → find id ≡ none
    → free_id find id draws ≡ some (id, draws)
unfolding free_id
free_id-at find id [] e = rw (e, free_id) refl
free_id-at find id (d ∷ draws) e = rw (e, free_id) refl

-- The suggested id if it is free, else the first value drawn that is.
Chosen {ℓ} : {V : Type ℓ} → (ℤ → Option V) → ℤ → List ℤ → ℤ → Type ℓ
Chosen {V = V} find id draws chosen =
    (find id ≡ none → chosen ≡ id)
    × ((v : V)
        → find id ≡ some v
        → (j : ℕ) × (get_elem? draws j ≡ some chosen)
          × ((i : ℕ) (d : ℤ) → i < j → get_elem? draws i ≡ some d → (w : V) × (find d ≡ some w)))

free_id-Chosen {ℓ} :
    {V : Type ℓ} (find : ℤ → Option V) (id : ℤ) (draws : List ℤ) (id' : ℤ) (draws' : List ℤ)
    → free_id find id draws ≡ some (id', draws')
    → Chosen find id draws id'
unfolding free_id Chosen
free_id-Chosen find id [] id' draws' h = elim (Option-cases (find id)) [
  | inl e ↦ (λ _. ground (arith, h, e), λ v taken. absurd (cc))
  | inr (v, e) ↦ absurd (ground (arith, h, e))
]
free_id-Chosen find id (draw ∷ draws) id' draws' h = elim (Option-cases (find id)) [
  | inl e ↦ (λ _. ground (arith, h, e), λ v taken. absurd (cc))
  | inr (v, e) ↦
      let later : free_id find draw draws ≡ some (id', draws') = ground (arith, h, e) in
      let (kept, drawn) = free_id-Chosen find draw draws id' draws' later in
      (
        λ none_. absurd (cc),
        λ v' taken. elim (Option-cases (find draw)) [
          | inl f ↦ (0, ap some (sym (kept f)), λ i d lt at. absurd (omega (arith, lt)))
          | inr (w, f) ↦ let (j, at, before) = drawn w f in (suc j, at, taken_before j w f before)
        ],
      )
]
  where
    taken_before :
        (j : ℕ) (w : _)
        → find draw ≡ some w
        → ((i : ℕ) (d : ℤ) → i < j → get_elem? draws i ≡ some d → (w : _) × (find d ≡ some w))
        → (i : ℕ) (d : ℤ) → i < suc j
        → get_elem? (draw ∷ draws) i ≡ some d
        → (w : _) × (find d ≡ some w)
    taken_before j w f before zero d lt at = (w, let same : draw ≡ d = cc in ap find (sym same) ∙ f)
    taken_before j w f before (suc i) d lt at = before i d (omega (arith, lt)) at

-- The loop ends as soon as one of the values drawn is free.
free_id-finds {ℓ} :
    {V : Type ℓ} (find : ℤ → Option V) (id : ℤ) (draws : List ℤ) (k : ℕ) (draw : ℤ)
    → get_elem? draws k ≡ some draw
    → find draw ≡ none
    → (r : ℤ × List ℤ) × (free_id find id draws ≡ some r)
unfolding free_id
free_id-finds find id [] k draw at f = absurd (cc)
free_id-finds find id (d ∷ draws) zero draw at f =
    let same : d ≡ draw = cc in
    elim (Option-cases (find id)) [
      | inl e ↦ ((id, d ∷ draws), rw (e, free_id) refl)
      | inr (v, e) ↦ ((d, draws), rw (e, free_id) (free_id-at find d draws (ap find same ∙ f)))
    ]
free_id-finds find id (d ∷ draws) (suc k) draw at f = elim (Option-cases (find id)) [
  | inl e ↦ ((id, d ∷ draws), rw (e, free_id) refl)
  | inr (v, e) ↦
      let (r, found) = free_id-finds find d draws k draw at f in (r, rw (e, free_id) found)
]

-- A session is stale when it was created more than 62 seconds ago.
is_stale-ltb : (now created_at : ℕ) → is_stale now created_at ≡ ltb (62 + created_at) now
unfolding is_stale ◌-ℤ◌
is_stale-ltb now created_at = ground arith

module _ (library : JsonLibrary) (class : ResponseClass library Site) where
  -- After a round of the reaper no session is older than 62 seconds, and every session of at most that
  -- age is still there.
  pub lookup-reap :
      (now : ℕ) (q : ℤ) (sessions : List (ℤ × Session library Site class))
      (session : Session library Site class)
      → (lookup ℤ_discrete q (reap library class now sessions) ≡ some session
          → now ≤ 62 + session.created_at)
        × (lookup ℤ_discrete q sessions ≡ some session
            → now ≤ 62 + session.created_at
            → lookup ℤ_discrete q (reap library class now sessions) ≡ some session)
  unfolding lookup reap
  lookup-reap now q [] session = (λ h. absurd (cc), λ h young. absurd (cc))
  lookup-reap now q ((id, old) ∷ sessions) session =
      let ih = lookup-reap now q sessions session in
      let stale = is_stale-ltb now old.created_at in
      (ground (arith, ih.0, stale), ground (arith, ih.1, stale))

  module _ (Db Mc : Type 0) where
    -- If some value that `rand` goes on to give is free, the loop ends, and the new session gets an id that no
    -- session had: the suggested one if it is free, else the first value of `rand` that is. No other session
    -- changes.
    pub add_session-adds :
        (site : Site) (suggested : ℤ) (s : World library class Db Mc) (k : ℕ) (draw : ℤ)
        → get_elem? s.draws k ≡ some draw
        → lookup ℤ_discrete draw s.sessions ≡ none
        → (id : ℤ) × (s' : World library class Db Mc) × (add_session library class Db Mc site
              suggested s
            ≡ (
              done (
                  library.object (
                    (codes "sessionId", library.number id)
                    ∷ (codes "generation", library.number site.generation)
                    ∷ [])),
              s',
            ))
          × (lookup ℤ_discrete id s.sessions ≡ none)
          × (lookup ℤ_discrete suggested s.sessions ≡ none → id ≡ suggested)
          × ((taken : Session library Site class)
              → lookup ℤ_discrete suggested s.sessions ≡ some taken
              → (j : ℕ) × (get_elem? s.draws j ≡ some id)
                × ((i : ℕ) (d : ℤ)
                    → i < j
                    → get_elem? s.draws i ≡ some d
                    → (other : Session library Site class) × (lookup ℤ_discrete d s.sessions
                        ≡ some other)))
          × ((q : ℤ)
              → lookup ℤ_discrete q s'.sessions
                ≡ ite
                    (ℤ_discrete id q)
                    (some (record { site = site; created_at = s.clock; responses = [] }))
                    (lookup ℤ_discrete q s.sessions))
    unfolding add_session Chosen
    add_session-adds site suggested s k draw at e =
        let find = λ (id : ℤ). lookup ℤ_discrete id s.sessions in
        let ((id, draws), found) = free_id-finds find suggested s.draws k draw at e in
        (
          id,
          record s {
            sessions =
                assign ℤ_discrete id (record { site = site; created_at = s.clock; responses = [] })
                  s.sessions;
            draws = draws;
          },
          rw (found, add_session) refl,
          free_id-free find suggested s.draws id draws found,
          (free_id-Chosen find suggested s.draws id draws found).0,
          (free_id-Chosen find suggested s.draws id draws found).1,
          λ q. lookup-assign ℤ_discrete id q _ s.sessions,
        )
