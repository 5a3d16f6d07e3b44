-- ===== src/Response/Pages.antt =====
-- A page of a response that is neither filtered nor made unique nor sorted, and all its pages together.
use vaedb.Common.{
  ℕ, zero, suc, ◌+◌, ◌-◌, ◌*◌, ◌^◌, ◌≤◌, ◌<◌, ◌≡◌, refl, sym, ap, ◌∙◌, false, List, [], ◌∷◌, ◌++◌,
  inl, inr, min, arith, length, take, drop, drop-step, length-drop, take-eq, take-add, dec_le,
  drop-drop,
}
use vaedb.Common.Int.{pos, pos_part, ◌-ℤ◌}
use vaedb.Common.Machine.{Floats}
use vaedb.Common.Outcome.{Outcome, done, ◌>>=◌}
use vaedb.Util.{Doubles}
use vaedb.Xml.{XmlNode}
use vaedb.Response.{unsorted}
use vaedb.Response.Bounds.{slice, paging, window-page}
use vaedb.Response.Select.{
  Options, Contexts, Algorithms, present, slice_loop, collect, arrange, cut, respond,
}

le-mul_self : (q n : ℕ) → 0 < n → q ≤ q * n
le-mul_self q zero h = absurd (omega arith)
le-mul_self q (suc n) h = omega arith

present-append : (xs ys : List XmlNode) → present (xs ++ ys) ≡ present xs ++ present ys
unfolding present
present-append [] ys = refl
present-append (x ∷ xs) ys = ground (arith, present-append xs ys)

slice_loop-present :
    (contexts : Contexts) (rounds i : ℕ) (nodes : List XmlNode)
    → i + rounds ≤ length nodes
    → slice_loop contexts rounds i nodes ≡ done (present (take rounds (drop i nodes)))
unfolding slice_loop present
slice_loop-present contexts zero i nodes h = refl
slice_loop-present contexts (suc rounds) i nodes h =
    let (node, at, rest) = drop-step i nodes (omega arith) in
    let again = slice_loop-present contexts rounds (suc i) nodes (omega arith) in
    ground (arith, at, again, ap present (ap (take (suc rounds)) rest))

slice_loop-zero :
    (contexts : Contexts) (i : ℕ) (nodes : List XmlNode)
    → slice_loop contexts 0 i nodes ≡ done (present (take 0 (drop i nodes)))
unfolding slice_loop present
slice_loop-zero contexts i nodes = refl

-- The options of a page that is neither filtered nor made unique nor sorted.
abbrev pub plain : ℕ → ℕ → ℕ → Options
plain k n q = record {
  paging = paging unsorted (pos 0) (pos (suc q)) (pos n) (pos k);
  filter = false;
  filter_terms = [];
  unique = false;
  unique_fields = [];
  sort_fields = [];
}

module _ (contexts : Contexts) (doubles : Doubles) (algorithms : Algorithms) (floats : Floats) where
  window_rounds : (k n size : ℕ) → pos_part (pos (min (k + n) size) -ℤ pos k) ≡ min (k + n) size - k
  unfolding ◌-ℤ◌
  window_rounds k n size = ground arith

  slice-take :
      (k n : ℕ) (nodes : List XmlNode)
      → take (min (k + n) (length nodes) - k) (drop k nodes) ≡ take n (drop k nodes)
  slice-take k n nodes =
      let left = length-drop k nodes in
      elim (dec_le (k + n) (length nodes)) [
        | yes h ↦ take-eq _ n (drop k nodes) (inl (omega arith))
        | no h ↦ take-eq _ n (drop k nodes) (inr (omega (arith, left), omega (arith, left)))
      ]

  slice_loop-slice :
      (i n : ℕ) (nodes : List XmlNode)
      → slice_loop contexts (min (i + n) (length nodes) - i) i nodes
        ≡ done (present (take n (drop i nodes)))
  slice_loop-slice i n nodes = elim (dec_le i (length nodes)) [
    | yes h ↦
        slice_loop-present contexts (min (i + n) (length nodes) - i) i nodes (omega arith)
        ∙ ap (λ l. done (present l)) (slice-take i n nodes)
    | no h ↦
        let left = length-drop i nodes in
        let stop : min (i + n) (length nodes) - i ≡ 0 = omega arith in
        ap (λ r. slice_loop contexts r i nodes) stop
        ∙ slice_loop-zero contexts i nodes
        ∙ ap (λ l. done (present l))
            (take-eq 0 n (drop i nodes) (inr (omega (arith, left), omega (arith, left))))
  ]

  collect-slice :
      (k n q i : ℕ) (nodes : List XmlNode)
      → collect contexts (plain k n q) (slice i n (length nodes)) nodes
        ≡ done (record { contexts = present (take n (drop i nodes)); total = length nodes })
  unfolding collect
  collect-slice k n q i nodes = rw (window_rounds i n (length nodes), slice_loop-slice i n nodes)

  -- Page `q + 1` of `n` items, the first `k` nodes skipped: the contexts of the nodes at that place,
  -- in the order of the query's result, and the size of the whole result as the total.
  pub respond-page :
      (k n q : ℕ) (nodes : List XmlNode)
      → 0 < n
      → n + (k + q * n) < 2 ^ 31
      → q < 2 ^ 31
      → respond contexts doubles algorithms floats (plain k n q) nodes
        ≡ done
            (record { contexts = present (take n (drop (k + q * n) nodes)); total = length nodes })
  unfolding respond arrange cut
  respond-page k n q nodes h v w =
      rw (window-page floats k n q (length nodes) h v w, respond)
        (rw (collect-slice k n q (k + q * n) nodes))

  -- The contexts of the first `pages` pages of a response without a filter, uniqueness, a sort order and groups,
  -- one after the other.
  pub first_pages : ℕ → ℕ → ℕ → List XmlNode → Outcome (List ℕ)
  first_pages k n zero nodes = done []
  first_pages k n (suc pages) nodes = first_pages k n pages nodes >>= λ before.
      respond contexts doubles algorithms floats (plain k n pages) nodes >>= λ r.
      done (before ++ r.contexts)

  -- Without a filter, uniqueness, a sort order and groups: the pages of `n > 0` items, one after the other, hold
  -- the contexts of the first `pages * n` nodes behind the `k` that are skipped, each once and in order, while
  -- `k + pages * n` is an `int`. Nodes that have no context take a place on their page.
  pub first_pages-take :
      (k n pages : ℕ) (nodes : List XmlNode)
      → 0 < n
      → k + pages * n < 2 ^ 31
      → first_pages k n pages nodes ≡ done (present (take (pages * n) (drop k nodes)))
  unfolding first_pages
  first_pages-take k n zero nodes h v =
      let none_yet : 0 * n ≡ 0 = omega arith in rw none_yet (unfold present in refl)
  first_pages-take k n (suc q) nodes h v =
      let few : q < 2 ^ 31 = omega (arith, le-mul_self q n h) in
      let l = drop k nodes in
      let more : suc q * n ≡ q * n + n = omega arith in
      let joined : take (suc q * n) l ≡ take (q * n) l ++ take n (drop (k + q * n) nodes) =
        ap (λ m. take m l) more
        ∙ take-add (q * n) n l
        ∙ ap (λ r. take (q * n) l ++ take n r) (drop-drop k (q * n) nodes) in
      rw
        (first_pages-take k n q nodes h (omega arith), respond-page k n q nodes h (omega arith) few)
        (ap done (
          sym (present-append (take (q * n) l) (take n (drop (k + q * n) nodes)))
          ∙ ap present (sym joined)))
