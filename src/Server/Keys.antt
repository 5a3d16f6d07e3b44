-- ===== src/Server/Keys.antt =====
-- `longTermKey` and `shortTermKey` of server.cpp, and the names of the locks.
use vaedb.Common.{ℕ, ◌≡◌, ◌≢◌, ap, [], ◌∷◌, ◌++◌, append_assoc, Bytes, codes}

unfoldable pub long_term_key : Bytes → Bytes → Bytes
long_term_key subdomain key = codes "VaedbProxy:" ++ (subdomain ++ (codes "LongTerm2:" ++ key))

unfoldable pub short_term_key : Bytes → Bytes → Bytes
short_term_key subdomain key = codes "VaedbProxy:" ++ (subdomain ++ (codes ":" ++ key))

-- `fullKey`
unfoldable pub full_key : Bytes → Bytes → Bytes
full_key subdomain iden = subdomain ++ (codes ":" ++ iden)

tail_eq : {x y : ℕ} {xs ys : Bytes} → x ∷ xs ≡ y ∷ ys → xs ≡ ys
tail_eq h = cc

append-cancel : (s t u : Bytes) → s ++ t ≡ s ++ u → t ≡ u
append-cancel [] t u h = h
append-cancel (x ∷ s) t u h = append-cancel s t u (tail_eq h)

-- The short-term and the long-term cache of one site never share a key of memcached, and each of them
-- keeps its own keys apart.
pub keys-apart :
    (subdomain k j : Bytes)
    → (short_term_key subdomain k ≢ long_term_key subdomain j)
      × (long_term_key subdomain k ≡ long_term_key subdomain j → k ≡ j)
      × (short_term_key subdomain k ≡ short_term_key subdomain j → k ≡ j)
unfolding short_term_key long_term_key
keys-apart subdomain k j = (
  λ h.
      let rest = append-cancel subdomain _ _ (append-cancel (codes "VaedbProxy:") _ _ h) in
      absurd (cc),
  λ h.
      let rest = append-cancel subdomain _ _ (append-cancel (codes "VaedbProxy:") _ _ h) in
      append-cancel (codes "LongTerm2:") k j rest,
  λ h.
      let rest = append-cancel subdomain _ _ (append-cancel (codes "VaedbProxy:") _ _ h) in
      append-cancel (codes ":") k j rest,
)

-- Two sites may share a key: the short-term cache of a site whose name is another's with `LongTerm2`
-- behind it is the long-term cache of the other.
pub keys-shared :
    (subdomain key : Bytes)
    → short_term_key (subdomain ++ codes "LongTerm2") key ≡ long_term_key subdomain key
unfolding short_term_key long_term_key
keys-shared subdomain key =
    ap (λ t. codes "VaedbProxy:" ++ t)
      (append_assoc subdomain (codes "LongTerm2") (codes ":" ++ key))
