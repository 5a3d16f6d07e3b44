-- ===== src/Pool.antt =====
-- The connection pools of mysql_proxy.cpp and memcache_proxy.cpp, which are the same code twice:
-- `getConnection`, `freeConnection` and the loop of the constructor.
pub mod Counts
pub mod Threads
pub mod Connect
mod Tests
use vaedb.Common.{
  ℕ, zero, suc, ◌+◌, ◌-◌, ◌/◌, ◌≡◌, Option, none, some, List, [], ◌∷◌, length, ◌==◌, ltb,
  if◌then◌else◌, ℕ_discrete,
}
use vaedb.Common.Int.{ℤ, pos, negsuc}
use vaedb.Common.Map.{assign}

-- `POOL_FREE` and `POOL_INUSE`
pub data Slot : Type 0 where
  free in_use : Slot

-- `connPool`, by the addresses of the connections, and `availableConnections`.
pub record Pool : Type 0 where
  pub connections : List (ℕ × Slot)
  pub available : ℕ

-- How a call of `getConnection` goes on: it waits, has a connection, or throws.
pub data Request : Type 0 where
  waits : Request
  takes : ℕ → Pool → Request
  throws : Request

-- `workers / 4`, at least 1.
unfoldable pub pool_size : ℤ → ℕ
pool_size (pos workers) = if ltb (workers / 4) 1 then 1 else workers / 4
pool_size (negsuc n) = 1

-- The constructor's loop, given what `createConnection` returns in each round.
unfoldable pub connect_loop : List (Option ℕ) → Pool → Pool
connect_loop [] p = p
connect_loop (none ∷ made) p = connect_loop made p
connect_loop (some con ∷ made) p =
    connect_loop made (record {
      connections = assign ℕ_discrete con free p.connections;
      available = p.available + 1;
    })

-- The first free connection, and the pool's map with it in use.
unfoldable pub take_free : List (ℕ × Slot) → Option (ℕ × List (ℕ × Slot))
take_free [] = none
take_free ((con, free) ∷ rest) = some (con, (con, in_use) ∷ rest)
take_free ((con, in_use) ∷ rest) = elim (take_free rest) [
  | none ↦ none
  | some (found, rest') ↦ some (found, (con, in_use) ∷ rest')
]

unfoldable pub get_connection : Pool → Request
get_connection p = if p.available == 0 then waits else elim (take_free p.connections) [
  | none ↦ throws
  | some (con, connections) ↦
      takes con (record { connections = connections; available = p.available - 1 })
]

-- The loop of `freeConnection`: each entry of the connection becomes free and is counted.
unfoldable pub mark_free : ℕ → List (ℕ × Slot) → List (ℕ × Slot)
mark_free con [] = []
mark_free con ((other, slot) ∷ rest) =
    (other, if other == con then free else slot) ∷ mark_free con rest

unfoldable pub marks : ℕ → List (ℕ × Slot) → ℕ
marks con [] = 0
marks con ((other, slot) ∷ rest) = (if other == con then 1 else 0) + marks con rest

unfoldable pub free_connection : ℕ → Pool → Pool
free_connection con p = record {
  connections = mark_free con p.connections;
  available = p.available + marks con p.connections;
}
