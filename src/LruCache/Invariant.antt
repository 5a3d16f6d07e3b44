-- ===== src/LruCache/Invariant.antt =====
-- What holds of an `LRUCache` between calls, and what one list operation does to it.
use vaedb.Common.{ℕ, suc, ◌+◌, ◌≤◌, ◌<◌, ◌≡◌, refl, Option, none, some, List, [], ◌∷◌, ite, arith}
use vaedb.Common.Map.{lookup}
use vaedb.LruCache.{Node, LruCache, ulong, deref, unlink}

module _ {K D : Type 0} where
  -- Every address lies below the allocator's next one.
  abbrev pub Below : ℕ → List (Node K D) → Type 0
  Below n [] = Unit
  Below n (m ∷ ms) = (m.addr < n) × Below n ms

  unfoldable pub total : (D → ℕ) → List (Node K D) → ℕ
  total sizefn [] = 0
  total sizefn (n ∷ ns) = sizefn n.second + total sizefn ns

  pub Below-suc : (n : ℕ) (l : List (Node K D)) → Below n l → Below (suc n) l
  Below-suc n [] b = tt
  Below-suc n (m ∷ ms) b = (omega arith, Below-suc n ms b.1)

  pub Below-unlink : (n a : ℕ) (l : List (Node K D)) → Below n l → Below n (unlink a l)
  unfolding unlink
  Below-unlink n a [] b = tt
  Below-unlink n a (m ∷ ms) b = ground (arith, Below-unlink n a ms)

  pub Below-deref :
      (n a : ℕ) (l : List (Node K D)) {m : Node K D} → deref a l ≡ some m → Below n l → m.addr < n
  unfolding deref
  Below-deref n a [] h b = cc
  Below-deref n a (p ∷ ms) {m} h b = ground (arith, Below-deref n a ms {m = m})

  pub deref-fresh : (n : ℕ) (l : List (Node K D)) → Below n l → deref n l ≡ none
  unfolding deref
  deref-fresh n [] b = refl
  deref-fresh n (m ∷ ms) b = ground (arith, deref-fresh n ms)

  pub deref-unlink_absent :
      (a b : ℕ) (l : List (Node K D)) → deref a l ≡ none → deref a (unlink b l) ≡ none
  unfolding deref unlink
  deref-unlink_absent a b [] h = refl
  deref-unlink_absent a b (m ∷ ms) h = ground (arith, deref-unlink_absent a b ms)

  pub total-unlink :
      (sizefn : D → ℕ) (a : ℕ) (l : List (Node K D)) {n : Node K D}
      → deref a l ≡ some n
      → total sizefn (unlink a l) + sizefn n.second ≡ total sizefn l
  unfolding deref unlink total
  total-unlink sizefn a [] h = cc
  total-unlink sizefn a (m ∷ ms) {n} h = ground (arith, total-unlink sizefn a ms {n = n})

module _ {K D : Type 0} (dec : Discrete K) where
  -- Where the list keeps the key.
  unfoldable pub addr_of : K → List (Node K D) → Option ℕ
  addr_of k [] = none
  addr_of k (n ∷ ns) = ite (dec n.first k) (some n.addr) (addr_of k ns)

  -- No two nodes share a key or an address.
  abbrev pub Distinct : List (Node K D) → Type 0
  Distinct [] = Unit
  Distinct (n ∷ ns) = (addr_of n.first ns ≡ none) × (deref n.addr ns ≡ none) × Distinct ns

  -- The index leads to the nodes of the list, and `_curr_size` is the sum of their sizes.
  pub record IsLinked (sizefn : D → ℕ) (c : LruCache K D) : Type 0 where
    pub below : Below c.next_addr c.list
    pub distinct : Distinct c.list
    pub agrees : (k : K) → lookup dec k c.index ≡ addr_of k c.list
    pub sized : c.curr_size ≡ total sizefn c.list
    pub word : c.curr_size < ulong

  pub record IsValid (sizefn : D → ℕ) (c : LruCache K D) : Type 0 where
    pub linked : IsLinked sizefn c
    pub bounded : c.curr_size ≤ c.max_size

  -- An index entry points at the node of its key.
  pub deref-addr_of :
      (k : K) (l : List (Node K D)) {a : ℕ}
      → addr_of k l ≡ some a
      → Distinct l
      → (n : Node K D) × (deref a l ≡ some n) × (n.first ≡ k) × (n.addr ≡ a)
  unfolding addr_of deref
  deref-addr_of k [] h d = cc
  deref-addr_of k (m ∷ ms) {a} h d = elim (dec m.first k) [
    | yes p ↦ (m, ground arith, p, ground arith)
    | no p ↦
        let (n, e, f, g) = deref-addr_of k ms {a = a} (ground arith) d.2 in (n, ground arith, f, g)
  ]

  -- The converse: a node's key is found at the node's address.
  pub addr_of-deref :
      (a : ℕ) (l : List (Node K D)) {n : Node K D}
      → deref a l ≡ some n
      → Distinct l
      → (addr_of n.first l ≡ some a) × (n.addr ≡ a)
  unfolding addr_of deref
  addr_of-deref a [] h d = cc
  addr_of-deref a (m ∷ ms) {n} h d = ground (arith, addr_of-deref a ms {n = n})

  -- Taking a node out hides its key and no other.
  pub addr_of-unlink :
      (a : ℕ) (q : K) (l : List (Node K D)) {n : Node K D}
      → deref a l ≡ some n
      → Distinct l
      → addr_of q (unlink a l) ≡ ite (dec n.first q) none (addr_of q l)
  unfolding addr_of deref unlink
  addr_of-unlink a q [] h d = cc
  addr_of-unlink a q (m ∷ ms) {n} h d =
      ground (arith, addr_of-unlink a q ms {n = n}, addr_of-deref a ms {n = n})

  addr_of-unlink_absent :
      (a : ℕ) (q : K) (l : List (Node K D)) → addr_of q l ≡ none → addr_of q (unlink a l) ≡ none
  unfolding addr_of unlink
  addr_of-unlink_absent a q [] h = refl
  addr_of-unlink_absent a q (m ∷ ms) h = ground (arith, addr_of-unlink_absent a q ms)

  pub Distinct-unlink : (a : ℕ) (l : List (Node K D)) → Distinct l → Distinct (unlink a l)
  unfolding unlink
  Distinct-unlink a [] d = tt
  Distinct-unlink a (m ∷ ms) d = ground (
    arith,
    Distinct-unlink a ms,
    addr_of-unlink_absent a m.first ms,
    deref-unlink_absent m.addr a ms,
  )

  -- The node that was taken out is gone, so it can be put in front.
  pub deref-unlink_self : (a : ℕ) (l : List (Node K D)) → Distinct l → deref a (unlink a l) ≡ none
  unfolding deref unlink
  deref-unlink_self a [] d = refl
  deref-unlink_self a (m ∷ ms) d = ground (arith, deref-unlink_self a ms)
