-- ===== src/LruCache/Tests.antt =====
-- Runs of the cache of lru_cache.h on small inputs, and the theorems about it at those inputs.
use mathlib.Core.Option
use vaedb.Common.{
  leb, ◌≤◌, if◌then◌else◌, none, ℕ, ◌≡◌, refl, ◌↔◌, ◌≢◌, true, false, none, some, [], ◌∷◌, arith,
  ℕ_discrete, ◌>>=◌,
}
use vaedb.Common.Map.{lookup, erase}
use vaedb.LruCache.{
  LruCache, add_ulong, sub_ulong, deref, unlink, splice_front, last, init, exists, touch_iter,
  touch, fetch_ptr, fetch, fetch_into, index_insert, remove_iter, remove, shrink, replace,
  push_front, insert,
}
use vaedb.LruCache.Invariant.{total, addr_of, IsValid}
use vaedb.LruCache.Limits.{insert-le}
use vaedb.LruCache.Evict.{weight, view, fit}
use vaedb.LruCache.Refine.{promote}
use vaedb.LruCache.Insert.{insert-Refines}
use vaedb.LruCache.Reads.{
  touch-Refines, after_fetch, fetch-Refines, fetch_into-Refines, fetch_ptr-Refines, remove-Refines,
  exists-lookup,
}

program : Unit {0}
unfolding add_ulong sub_ulong deref unlink splice_front last init exists touch_iter touch fetch_ptr
    fetch fetch_into index_insert remove_iter remove shrink replace push_front insert lookup erase
    ℕ_discrete
program = tt

-- Two pairs in a cache for two.
abbrev two : LruCache ℕ ℕ
two = record {
  list =
      record { addr = 1; first = 8; second = 80 }
      ∷ record { addr = 0; first = 7; second = 70 }
      ∷ [];
  index = (8, 1) ∷ (7, 0) ∷ [];
  max_size = 2;
  curr_size = 2;
  next_addr = 2;
}

-- The counting cache built by two calls of `insert`.
inserts : (insert ℕ_discrete (λ _. 1) 7 70 (init 2) >>= insert ℕ_discrete (λ _. 1) 8 80) ≡ some two
unfolding program
inserts = refl

-- The third key pushes out the one that was inserted first, although it was fetched in between.
fetch_then_insert :
    (fetch ℕ_discrete 0 7 false two >>= λ (c, _).
    insert ℕ_discrete (λ _. 1) 9 90 c >>= λ c'. some (view c'))
    ≡ some ((9, 90) ∷ (8, 80) ∷ [])
unfolding program
fetch_then_insert = refl

two-IsValid : IsValid ℕ_discrete (λ _. 1) two
unfolding lookup addr_of total deref ℕ_discrete
two-IsValid = record {
  linked = record {
    below = omega arith;
    distinct = (refl, refl, (refl, refl, tt));
    agrees = λ k. refl;
    sized = refl;
    word = omega arith;
  };
  bounded = omega arith;
}

insert-Refines_example :
    (c : LruCache ℕ ℕ) × (insert ℕ_discrete (λ _. 1) 9 90 two ≡ some c)
    × IsValid ℕ_discrete (λ _. 1) c
    × (view c ≡ fit (λ _. 1) 2 ((9, 90) ∷ erase ℕ_discrete 9 (view two)))
    × (c.max_size ≡ 2)
insert-Refines_example = insert-Refines ℕ_discrete (λ _. 1) two 9 90 (omega arith) two-IsValid

touch-Refines_run :
    (c : LruCache ℕ ℕ) × (touch ℕ_discrete 7 two ≡ some c)
    × IsValid ℕ_discrete (λ _. 1) c
    × (view c ≡ promote ℕ_discrete 7 (view two))
touch-Refines_run = touch-Refines ℕ_discrete (λ _. 1) two 7 two-IsValid

fetch-Refines_run :
    (c : LruCache ℕ ℕ) × (fetch ℕ_discrete 0 7 true two
      ≡ some (c, Option.get_or (lookup ℕ_discrete 7 (view two)) 0))
    × IsValid ℕ_discrete (λ _. 1) c
    × (view c ≡ after_fetch ℕ_discrete 7 true (view two))
fetch-Refines_run = fetch-Refines ℕ_discrete (λ _. 1) two 0 7 true two-IsValid

fetch_into-Refines_run :
    (c : LruCache ℕ ℕ) × (fetch_into ℕ_discrete 7 true two
      ≡ some (c, lookup ℕ_discrete 7 (view two)))
    × IsValid ℕ_discrete (λ _. 1) c
    × (view c ≡ after_fetch ℕ_discrete 7 true (view two))
fetch_into-Refines_run = fetch_into-Refines ℕ_discrete (λ _. 1) two 7 true two-IsValid

fetch_ptr-Refines_run :
    (c : LruCache ℕ ℕ) × (fetch_ptr ℕ_discrete 7 false two
      ≡ some (c, lookup ℕ_discrete 7 (view two)))
    × IsValid ℕ_discrete (λ _. 1) c
    × (view c ≡ promote ℕ_discrete 7 (view two))
fetch_ptr-Refines_run = fetch_ptr-Refines ℕ_discrete (λ _. 1) two 7 false two-IsValid

remove-Refines_run :
    (c : LruCache ℕ ℕ) × (remove ℕ_discrete (λ _. 1) 8 two ≡ some c)
    × IsValid ℕ_discrete (λ _. 1) c
    × (view c ≡ erase ℕ_discrete 8 (view two))
remove-Refines_run = remove-Refines ℕ_discrete (λ _. 1) two 8 two-IsValid

exists-lookup_run : (exists ℕ_discrete 9 two ≡ true) ↔ (lookup ℕ_discrete 9 (view two) ≢ none)
exists-lookup_run = exists-lookup ℕ_discrete (λ _. 1) two 9 two-IsValid

insert-le_example :
    (c : LruCache ℕ ℕ) × (insert ℕ_discrete (λ _. 1) 9 90 two ≡ some c)
    × (c.curr_size ≡ weight (λ _. 1) (view c))
    × (c.curr_size ≤ 2)
    × (lookup ℕ_discrete 9 (view c) ≡ (if leb 1 2 then some 90 else none))
insert-le_example = insert-le ℕ_discrete (λ _. 1) two 9 90 (omega arith) two-IsValid
