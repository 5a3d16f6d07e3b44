-- ===== src/LruCache.antt =====
-- lru_cache.h: the template `LRUCache` with its storage list, its index of list iterators and its
-- size counters. An iterator of `_list` is the address of a node, an iterator of `_index` is a key.
-- `none` is a fault: the use of an iterator that points at no node, or of `--end()` of an empty list.
pub mod Invariant
pub mod Evict
pub mod Refine
pub mod Shrink
pub mod Insert
pub mod Limits
pub mod Reads
pub mod Fresh
mod Tests
use vaedb.Common.{
  ℕ, zero, suc, ◌+◌, ◌-◌, ◌%◌, ◌^◌, Bool, true, false, Option, none, some, List, [], ◌∷◌, map, ite,
  ltb, ℕ_discrete, length, ◌>>=◌, if◌then◌else◌,
}
use vaedb.Common.Map.{lookup, erase}

-- A node of `_list`: the pair, and where it lies in memory.
pub record Node (K D : Type 0) : Type 0 where
  pub addr : ℕ
  pub first : K
  pub second : D

pub record LruCache (K D : Type 0) : Type 0 where
  pub list : List (Node K D)
  pub index : List (K × ℕ)
  pub max_size : ℕ
  pub curr_size : ℕ
  -- The allocator: the next address that no node has had.
  pub next_addr : ℕ

-- `unsigned long` arithmetic.
abbrev pub ulong : ℕ
ulong = 2 ^ 64

unfoldable pub add_ulong : ℕ → ℕ → ℕ
add_ulong a b = (a + b) % ulong

unfoldable pub sub_ulong : ℕ → ℕ → ℕ
sub_ulong a b = (a + ulong - b) % ulong

module _ {K D : Type 0} where
  -- What an iterator points at.
  unfoldable pub deref : ℕ → List (Node K D) → Option (Node K D)
  deref a [] = none
  deref a (n ∷ ns) = ite (ℕ_discrete n.addr a) (some n) (deref a ns)

  -- `_list.erase(it)`, once `it` is known to point at a node.
  unfoldable pub unlink : ℕ → List (Node K D) → List (Node K D)
  unlink a [] = []
  unlink a (n ∷ ns) = ite (ℕ_discrete n.addr a) ns (n ∷ unlink a ns)

  -- `_list.splice(_list.begin(), _list, it)`
  unfoldable pub splice_front : ℕ → List (Node K D) → Option (List (Node K D))
  splice_front a l = deref a l >>= λ n. some (n ∷ unlink a l)

  -- `--_list.end()`
  unfoldable pub last : List (Node K D) → Option (Node K D)
  last [] = none
  last (n ∷ []) = some n
  last (n ∷ m ∷ ns) = last (m ∷ ns)

  unfoldable pub init : ℕ → LruCache K D
  init size = record { list = []; index = []; max_size = size; curr_size = 0; next_addr = 0 }

  unfoldable pub clear : LruCache K D → LruCache K D
  clear c = record c { list = []; index = []; curr_size = 0 }

  unfoldable pub get_all_keys : LruCache K D → List K
  get_all_keys c = map (λ n. n.first) c.list

-- `_index.insert(pair)`: a key that is there keeps its iterator.
unfoldable pub index_insert : {K : Type 0} → Discrete K → K → ℕ → List (K × ℕ) → List (K × ℕ)
index_insert dec key a index = elim (lookup dec key index) [
  | none ↦ (key, a) ∷ index
  | some _ ↦ index
]

module _ {K D : Type 0} (dec : Discrete K) where
  unfoldable pub exists : K → LruCache K D → Bool
  exists key c = elim (lookup dec key c.index) [ none ↦ false | some _ ↦ true ]

  -- `_touch`: the cache, and the iterator of the index, `none` for `end()`.
  unfoldable pub touch_iter : K → LruCache K D → Option (LruCache K D × Option ℕ)
  touch_iter key c = elim (lookup dec key c.index) [
    | none ↦ some (c, none)
    | some a ↦ splice_front a c.list >>= λ l. some (record c { list = l }, some a)
  ]

  unfoldable pub touch : K → LruCache K D → Option (LruCache K D)
  touch key c = touch_iter key c >>= λ (c', _). some c'

  -- `fetch_ptr`: its parameter `touch` is not read.
  unfoldable pub fetch_ptr : K → Bool → LruCache K D → Option (LruCache K D × Option D)
  fetch_ptr key touched c = elim (lookup dec key c.index) [
    | none ↦ some (c, none)
    | some a ↦ touch key c >>= λ c'. deref a c'.list >>= λ n. some (c', some n.second)
  ]

  -- `fetch(key, touch_data)`: `empty` is what `Data()` builds.
  unfoldable pub fetch : D → K → Bool → LruCache K D → Option (LruCache K D × D)
  fetch empty key touch_data c = elim (lookup dec key c.index) [
    | none ↦ some (c, empty)
    | some a ↦ deref a c.list >>= λ n.
        if touch_data then (touch key c >>= λ c'. some (c', n.second)) else some (c, n.second)
  ]

  -- `fetch(key, data, touch_data)`: the data that the caller's variable holds, if it was filled in.
  unfoldable pub fetch_into : K → Bool → LruCache K D → Option (LruCache K D × Option D)
  fetch_into key touch_data c = elim (lookup dec key c.index) [
    | none ↦ some (c, none)
    | some a ↦ (if touch_data then splice_front a c.list else some c.list) >>= λ l.
        deref a l >>= λ n. some (record c { list = l }, some n.second)
  ]

  module _ (sizefn : D → ℕ) where
    -- `_remove(miter)` at the index's entry of `key`, and `_remove(key)`, which looks it up.
    unfoldable pub remove_iter : K → LruCache K D → Option (LruCache K D)
    remove_iter key c = lookup dec key c.index >>= λ a. deref a c.list >>= λ n. some (record c {
      curr_size = sub_ulong c.curr_size (sizefn n.second);
      list = unlink a c.list;
      index = erase dec key c.index;
    })

    unfoldable pub remove : K → LruCache K D → Option (LruCache K D)
    remove key c = elim (lookup dec key c.index) [ none ↦ some c | some _ ↦ remove_iter key c ]

    -- `while (_curr_size > _max_size)`, at most `fuel` rounds; `none` also if the fuel runs out.
    unfoldable pub shrink : ℕ → LruCache K D → Option (LruCache K D)
    shrink zero c = none
    shrink (suc fuel) c = elim (ltb c.max_size c.curr_size) [
      | true ↦ last c.list >>= λ n. remove_iter n.first c >>= shrink fuel
      | false ↦ some c
    ]

    -- The head of `insert`: touch the key if it is there, then remove it.
    unfoldable pub replace : K → LruCache K D → Option (LruCache K D)
    replace key c = touch_iter key c >>= λ (c', miter). elim miter [
      | none ↦ some c'
      | some _ ↦ remove_iter key c'
    ]

    -- `push_front` and the index entry.
    unfoldable pub push_front : K → D → LruCache K D → LruCache K D
    push_front key data_in c = record c {
      list = record { addr = c.next_addr; first = key; second = data_in } ∷ c.list;
      index = index_insert dec key c.next_addr c.index;
      curr_size = add_ulong c.curr_size (sizefn data_in);
      next_addr = suc c.next_addr;
    }

    -- Each round removes one node, so the length bounds the rounds.
    unfoldable pub insert : K → D → LruCache K D → Option (LruCache K D)
    insert key data_in c = replace key c >>= λ c'.
        let c'' = push_front key data_in c' in shrink (suc (length c''.list)) c''
