-- ===== src/Pool/Threads/Opened.antt =====
-- The pool that the constructors of the two proxies open.
use vaedb.Common.{
  ℕ, ◌+◌, ◌≤◌, ◌≡◌, refl, sym, ◌∙◌, Option, none, some, List, [], ◌∷◌, length, arith,
}
use vaedb.Pool.{Pool, connect_loop}
use vaedb.Pool.Counts.{count, key_count, use_count, free_count, assign-Added}
use vaedb.Pool.Threads.{opened, made_count, IsFresh}
use vaedb.Pool.Threads.Valid.{IsValid}

-- A pool that nobody uses, and that holds none of the connections still to be made.
record IsOpening (made : List (Option ℕ)) (p : Pool) : Type 0 where
  fresh : (k : ℕ) → key_count k p.connections + made_count k made ≤ 1
  unused : (k : ℕ) → use_count k p.connections ≡ 0
  all_free : p.available ≡ free_count p.connections
  size : p.available ≡ length p.connections

connect_loop-IsOpening :
    (made : List (Option ℕ)) (p : Pool) → IsOpening made p → IsOpening [] (connect_loop made p)
unfolding connect_loop
connect_loop-IsOpening [] p o = o
connect_loop-IsOpening (none ∷ made) p o =
    connect_loop-IsOpening made p
      (record { fresh = λ k. o.fresh k; unused = o.unused; all_free = o.all_free; size = o.size })
connect_loop-IsOpening (some c ∷ made) p o =
    let new : key_count c p.connections ≡ 0 = ground (arith, o.fresh c) in
    let a = assign-Added c p.connections new in
    connect_loop-IsOpening made _ (record {
      fresh = λ k. omega (arith, a.2 k, o.fresh k);
      unused = λ k. a.3 k ∙ o.unused k;
      all_free = omega (arith, a.0, o.all_free);
      size = omega (arith, a.1, o.size);
    })

pub opened-IsValid : (made : List (Option ℕ)) → IsFresh made → IsValid (opened made)
unfolding key_count use_count free_count count
opened-IsValid made fresh =
    let o =
      connect_loop-IsOpening made (record { connections = []; available = 0 })
        (record {
          fresh = λ k. omega (arith, fresh k);
          unused = λ k. refl;
          all_free = refl;
          size = refl;
        }) in
    record {
      distinct = λ k. omega (arith, o.fresh k);
      counted = o.all_free;
      in_hand = λ k. sym (o.unused k);
      total = omega (arith, o.size);
      awake = λ w. absurd (omega arith);
    }
