-- ===== src/Bus.antt =====
-- bus.cpp: what `Bus::run` does with a message, and the threads that it starts.
mod Tests
use vaedb.Common.{
  ℕ, suc, ◌+◌, ◌≤◌, ◌≡◌, ◌≢◌, refl, sym, ap, ◌∙◌, Bool, true, false, not, Option, none, some, List,
  [], ◌∷◌, ◌++◌, Bytes, codes, eqb, length, length-append, any, arith, Bytes-discrete, ite, keep,
  length-keep-le, Bool-cases, inl, inr, if◌then◌else◌,
}
use vaedb.Common.Map.{lookup}
use vaedb.Site.{Site}
use vaedb.Server.Sites.{reload_sites}
use vaedb.Server.Reload.{lookup-reload_sites}

-- A thread with the subdomain that its `reload` is called with, and whether it has ended.
pub record Thread : Type 0 where
  pub subdomain : Bytes
  pub is_ended : Bool

-- The sites of the server, and `threads`.
pub record Bus : Type 0 where
  pub sites : List (Bytes × Site)
  pub threads : List Thread

-- The loop over `threads`: `timed_join` with no time to wait is true of a thread that has ended, which is deleted.
unfoldable pub join_ended : List Thread → List Thread
join_ended [] = []
join_ended (t ∷ ts) = let rest = join_ended ts in if t.is_ended then rest else t ∷ rest

-- One round of `run`.
unfoldable pub handle_message : Bytes → Bus → Bus
handle_message subdomain b = record {
  sites = reload_sites subdomain b.sites;
  threads = join_ended b.threads ++ record { subdomain = subdomain; is_ended = false } ∷ [];
}

unfoldable pub end_first : Bytes → List Thread → List Thread
end_first subdomain [] = []
end_first subdomain (t ∷ ts) =
    let rest = t ∷ end_first subdomain ts in
    if eqb t.subdomain subdomain
    then (if t.is_ended then rest else record t { is_ended = true } ∷ ts)
    else rest

-- `Bus::reload` of a thread, which ends.
unfoldable pub run_thread : Bytes → Bus → Bus
run_thread subdomain b = record {
  sites = reload_sites subdomain b.sites;
  threads = end_first subdomain b.threads;
}

-- The threads that have not ended.
unfoldable pub running : List Thread → ℕ
running [] = 0
running (t ∷ ts) = (if t.is_ended then 0 else 1) + running ts

length-join_ended : (ts : List Thread) → length (join_ended ts) ≡ running ts
unfolding join_ended running
length-join_ended [] = refl
length-join_ended (t ∷ ts) = elim (Bool-cases t.is_ended) [
  | inl e ↦ simp e (omega (arith, length-join_ended ts))
  | inr e ↦ simp e (omega (arith, length-join_ended ts))
]

-- A message leaves one thread more than were running: those that have ended are deleted.
pub handle_message-threads :
    (subdomain : Bytes) (b : Bus)
    → length (handle_message subdomain b).threads ≡ running b.threads + 1
unfolding handle_message
handle_message-threads subdomain b = omega (
  arith,
  length-append (join_ended b.threads) (record { subdomain = subdomain; is_ended = false } ∷ []),
  length-join_ended b.threads,
)

-- If no site is loaded between a message and the reload of its thread, the second reload changes nothing
-- that a lookup of a site sees: after the two, as after the first, the site and its staging twin are not
-- loaded, and any other site is as it was before the message, unless the message was for all.
pub run_thread-again :
    (subdomain q : Bytes) (b : Bus)
    → (lookup Bytes-discrete q (run_thread subdomain (handle_message subdomain b)).sites
        ≡ lookup Bytes-discrete q (handle_message subdomain b).sites)
      × (lookup Bytes-discrete q (handle_message subdomain b).sites
          ≡ ite (Bytes-discrete (subdomain ++ codes ".staging") q) none (
              ite
                (Bytes-discrete subdomain q)
                none
                (if eqb subdomain (codes "all") then none else lookup Bytes-discrete q b.sites)))
unfolding run_thread handle_message
run_thread-again subdomain q b =
    let once = lookup-reload_sites subdomain q b.sites in
    let twice = lookup-reload_sites subdomain q (reload_sites subdomain b.sites) in
    (
      twice
          ∙ ap
              (λ (o : Option Site). ite (Bytes-discrete (subdomain ++ codes ".staging") q) none (
                ite (Bytes-discrete subdomain q) none
                  (if eqb subdomain (codes "all") then none else o)))
              once
          ∙ folded (Bytes-discrete (subdomain ++ codes ".staging") q) (Bytes-discrete subdomain q)
              (eqb subdomain (codes "all")) (lookup Bytes-discrete q b.sites)
          ∙ sym once,
      once,
    )
  where
    folded :
        (d : Dec (subdomain ++ codes ".staging" ≡ q)) (d' : Dec (subdomain ≡ q)) (a : Bool)
        (o : Option Site)
        → ite d none
            (ite d' none (if a then none else ite d none (ite d' none (if a then none else o))))
          ≡ ite d none (ite d' none (if a then none else o))
    folded d d' a o = ground arith
