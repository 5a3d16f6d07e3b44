-- ===== src/Server/Races/Invariant.antt =====
-- What holds in every state of the threads in `getSite`.
use vaedb.Common.{
  ℕ, ◌≡◌, ◌≢◌, refl, sym, ap, ◌∙◌, Bool, true, false, Option, none, some, List, ◌++◌, Bytes, codes,
  Bytes-discrete, if◌then◌else◌, ◌==◌, arith, Bool-cases, Option-cases, inl, inr, ite, if_pos,
  if_neg, eqb,
}
use vaedb.Common.Map.{lookup, assign, lookup-assign}
use vaedb.Site.{Loader, Site}
use vaedb.Server.Sites.{reload_sites}
use vaedb.Server.Reload.{lookup-reload_sites}
use vaedb.Server.Races.{
  Request, key_of, Phase, idle, locking, inside, missed, fed, loaded, finished, Shared,
  get_site_mutex, held_by, enter,
}

-- The request and the mutex of a thread, whether it waits for the mutex or holds it.
abbrev pub engaged : Phase → Option (Request × ℕ)
engaged idle = none
engaged (locking r m) = some (r, m)
engaged (inside r m) = some (r, m)
engaged (missed r m) = some (r, m)
engaged (fed r m xml) = some (r, m)
engaged (loaded r m site) = some (r, m)
engaged (finished o) = none

-- The request of a thread that has not found its site and has not put it into the map yet.
abbrev pub missing_by : Phase → Option Request
missing_by idle = none
missing_by (locking r m) = none
missing_by (inside r m) = none
missing_by (missed r m) = some r
missing_by (fed r m xml) = some r
missing_by (loaded r m site) = none
missing_by (finished o) = none

pub record IsValid (mutexes : List (Bytes × ℕ)) (sites : List (Bytes × Site)) (threads : ℕ → Phase)
    : Type 0 where
  -- The mutex of a thread is that of the key of its request.
  pub keyed :
      (t : ℕ) (r : Request) (m : ℕ)
      → engaged (threads t) ≡ some (r, m)
      → lookup Bytes-discrete (key_of r) mutexes ≡ some m
  -- No two threads hold one mutex.
  pub alone : (t u m : ℕ) → held_by (threads t) ≡ some m → held_by (threads u) ≡ some m → t ≡ u
  -- A site that a thread has missed is still not there.
  pub absent :
      (t : ℕ) (r : Request)
      → missing_by (threads t) ≡ some r
      → lookup Bytes-discrete (key_of r) sites ≡ none

same-nat : (t u : ℕ) → (t == u) ≡ true → t ≡ u
same-nat t u e = ground (arith, e)

other-nat : (t u : ℕ) → (t == u) ≡ false → t ≢ u
other-nat t u e same = ground (arith, e, same)

-- One thread goes into another phase, while the maps may change.
pub entered-IsValid :
    (mutexes mutexes' : List (Bytes × ℕ)) (sites sites' : List (Bytes × Site)) (threads : ℕ → Phase)
    (t : ℕ) (phase : Phase)
    → IsValid mutexes sites threads
    → ((k : Bytes) (m : ℕ)
        → lookup Bytes-discrete k mutexes ≡ some m
        → lookup Bytes-discrete k mutexes' ≡ some m)
    → ((r : Request) (m : ℕ)
        → engaged phase ≡ some (r, m)
        → lookup Bytes-discrete (key_of r) mutexes' ≡ some m)
    → ((u m : ℕ) → t ≢ u → held_by phase ≡ some m → held_by (threads u) ≢ some m)
    → ((r : Request) → missing_by phase ≡ some r → lookup Bytes-discrete (key_of r) sites' ≡ none)
    → ((u : ℕ) (r : Request)
        → t ≢ u
        → missing_by (threads u) ≡ some r
        → lookup Bytes-discrete (key_of r) sites' ≡ none)
    → IsValid mutexes' sites' (λ u. if t == u then phase else threads u)
entered-IsValid mutexes mutexes' sites sites' threads t phase v grown new_key new_hold new_miss
      old_miss =
    record {
      keyed = λ u r m h. elim (Bool-cases (t == u)) [
        | inl e ↦ new_key r m (rw e at h)
        | inr e ↦ grown (key_of r) m (v.keyed u r m (rw e at h))
      ];
      alone = λ u w m h h'. elim (Bool-cases (t == u)) [
        | inl e ↦ elim (Bool-cases (t == w)) [
          | inl e' ↦ sym (same-nat t u e) ∙ same-nat t w e'
          | inr e' ↦ absurd (new_hold w m (other-nat t w e') (rw e at h) (rw e' at h'))
        ]
        | inr e ↦ elim (Bool-cases (t == w)) [
          | inl e' ↦ absurd (new_hold u m (other-nat t u e) (rw e' at h') (rw e at h))
          | inr e' ↦ v.alone u w m (rw e at h) (rw e' at h')
        ]
      ];
      absent = λ u r h. elim (Bool-cases (t == u)) [
        | inl e ↦ new_miss r (rw e at h)
        | inr e ↦ old_miss u r (other-nat t u e) (rw e at h)
      ];
    }

abbrev pub IsSafe : Shared → Type 0
IsSafe s = IsValid s.site_mutexes s.sites s.threads

-- A thread that lets go, or goes on with the mutex that it has and has missed its site no more than before.
pub goes_on-IsSafe :
    (s : Shared) (t : ℕ) (phase : Phase)
    → IsSafe s
    → ((r : Request) (m : ℕ) → engaged phase ≡ some (r, m) → engaged (s.threads t) ≡ some (r, m))
    → ((m : ℕ) → held_by phase ≡ some m → held_by (s.threads t) ≡ some m)
    → ((r : Request) → missing_by phase ≡ some r → lookup Bytes-discrete (key_of r) s.sites ≡ none)
    → IsSafe (enter t phase s)
goes_on-IsSafe s t phase v same_key same_hold miss =
    entered-IsValid s.site_mutexes s.site_mutexes s.sites s.sites s.threads t phase v (λ k m h. h)
      (λ r m h. v.keyed t r m (same_key r m h))
      (λ u m other h h'. other (v.alone t u m (same_hold m h) h')) miss
      (λ u r other h. v.absent u r h)

pub called-IsSafe :
    (s : Shared) (t : ℕ) (r : Request)
    → IsSafe s
    → IsSafe (let (m, s') = get_site_mutex (key_of r) s in enter t (locking r m) s')
unfolding get_site_mutex held_by
called-IsSafe s t r v = elim (Option-cases (lookup Bytes-discrete (key_of r) s.site_mutexes)) [
  | inr (m, e) ↦
      rw (e, get_site_mutex)
        (entered-IsValid s.site_mutexes s.site_mutexes s.sites s.sites s.threads t (locking r m) v
          (λ k m' h. h)
          (λ r' m' h.
            let same : (r, m) ≡ (r', m') = cc in
            ap (λ (x : Request × ℕ). lookup Bytes-discrete (key_of x.0) s.site_mutexes) (sym same)
            ∙ e
            ∙ ap (λ (x : Request × ℕ). some x.1) same)
          (λ u m' other h. absurd (cc)) (λ r' h. absurd (cc)) (λ u r' other h. v.absent u r' h))
  | inl e ↦
      rw (e, get_site_mutex)
        (entered-IsValid s.site_mutexes
          (assign Bytes-discrete (key_of r) s.next_mutex s.site_mutexes) s.sites s.sites s.threads t
          (locking r s.next_mutex) v
          (λ k m h. elim (Bytes-discrete (key_of r) k) [
            | yes same ↦
                let gone =
                  sym (ap (λ (q : Bytes). lookup Bytes-discrete q s.site_mutexes) same) ∙ e in
                absurd (cc (gone, h))
            | no other ↦
                lookup-assign Bytes-discrete (key_of r) k s.next_mutex s.site_mutexes
                ∙ if_neg (Bytes-discrete (key_of r) k) other _ _
                ∙ h
          ])
          (λ r' m' h.
            let same : (r, s.next_mutex) ≡ (r', m') = cc in
            ap
              (λ (x : Request × ℕ).
                lookup Bytes-discrete (key_of x.0)
                  (assign Bytes-discrete (key_of r) s.next_mutex s.site_mutexes))
              (sym same)
            ∙ lookup-assign Bytes-discrete (key_of r) (key_of r) s.next_mutex s.site_mutexes
            ∙ if_pos (Bytes-discrete (key_of r) (key_of r)) refl _ _
            ∙ ap (λ (x : Request × ℕ). some x.1) same)
          (λ u m' other h. absurd (cc)) (λ r' h. absurd (cc)) (λ u r' other h. v.absent u r' h))
]

pub reloaded_none :
    (subdomain k : Bytes) (sites : List (Bytes × Site))
    → lookup Bytes-discrete k sites ≡ none
    → lookup Bytes-discrete k (reload_sites subdomain sites) ≡ none
reloaded_none subdomain k sites e =
    lookup-reload_sites subdomain k sites
    ∙ simp e (
        nothing (Bytes-discrete (subdomain ++ codes ".staging") k) (Bytes-discrete subdomain k)
          (eqb subdomain (codes "all")))
  where
    nothing :
        (d : Dec (subdomain ++ codes ".staging" ≡ k)) (d' : Dec (subdomain ≡ k)) (b : Bool)
        → ◌≡◌ {A = Option Site} (ite d none (ite d' none (if b then none else none))) none
    nothing d d' b = ground arith

module _ (loader : Loader) where
  -- The site that is put into the map is there for no other thread to miss.
  pub loaded-IsSafe :
      (s : Shared) (t : ℕ) (r : Request) (m : ℕ) (xml : Bytes) (site : Site)
      → IsSafe s
      → s.threads t ≡ fed r m xml
      → IsSafe (
          enter t
            (loaded r m site)
            (record s { sites = assign Bytes-discrete (key_of r) site s.sites }))
  unfolding held_by
  loaded-IsSafe s t r m xml site v e =
      let mine : engaged (s.threads t) ≡ some (r, m) = ap engaged e in
      let holds : held_by (s.threads t) ≡ some m = ap held_by e in
      entered-IsValid s.site_mutexes s.site_mutexes s.sites
        (assign Bytes-discrete (key_of r) site s.sites) s.threads t (loaded r m site) v
        (λ k m' h. h) (λ r' m' h. v.keyed t r' m' (mine ∙ h))
        (λ u m' other h h'. other (v.alone t u m' (holds ∙ h) h')) (λ r' h. absurd (cc))
        (λ u r' other h. elim (Bytes-discrete (key_of r) (key_of r')) [
          | no differ ↦
              lookup-assign Bytes-discrete (key_of r) (key_of r') site s.sites
              ∙ if_neg (Bytes-discrete (key_of r) (key_of r')) differ _ _
              ∙ v.absent u r' h
          | yes same ↦
              let (m', there, held) = missing-held (s.threads u) r' h in
              let at_r = v.keyed t r m mine in
              let at_r' = v.keyed u r' m' there in
              let both : some m ≡ some m' =
                sym at_r
                ∙ ap (λ (k : Bytes). lookup Bytes-discrete k s.site_mutexes) same
                ∙ at_r' in
              let equal : m ≡ m' = cc in
              absurd (other (v.alone t u m' (holds ∙ ap some equal) held))
        ])
    where
      missing-held :
          (p : Phase) (r' : Request)
          → missing_by p ≡ some r'
          → (m' : ℕ) × (engaged p ≡ some (r', m')) × (held_by p ≡ some m')
      missing-held idle r' h = absurd (cc)
      missing-held (locking q n) r' h = absurd (cc)
      missing-held (inside q n) r' h = absurd (cc)
      missing-held (missed q n) r' h = let same : q ≡ r' = cc in (n, rw same refl, refl)
      missing-held (fed q n x) r' h = let same : q ≡ r' = cc in (n, rw same refl, refl)
      missing-held (loaded q n x) r' h = absurd (cc)
      missing-held (finished o) r' h = absurd (cc)
