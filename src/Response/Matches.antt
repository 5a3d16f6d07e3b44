-- ===== src/Response/Matches.antt =====
-- The loop of `query` in response.cpp over the nodes of a response that is filtered or made unique.
mod Steps
use vaedb.Common.{
  ℕ, zero, suc, ◌+◌, ◌-◌, ◌*◌, ◌^◌, ◌≤◌, ◌<◌, ◌≡◌, refl, sym, ap, ◌∙◌, Bool, true, false, none,
  some, List, [], ◌∷◌, ◌++◌, append_assoc, append-nil, inl, inr, min, arith, length, take, drop,
  Bytes, take-eq, length-drop, dec_le, dec_lt, Option-cases, if◌then◌else◌,
}
use vaedb.Common.Int.{pos}
use vaedb.Common.Machine.{Floats}
use vaedb.Common.Outcome.{Outcome, done, ◌>>=◌, >>=-eq-done, done-injective}
use vaedb.Util.{Doubles}
use vaedb.Xml.{XmlNode}
use vaedb.Response.{unsorted, Paging, Window}
use vaedb.Response.Bounds.{slice, paging, window-page}
use vaedb.Response.Select.{
  Options, Contexts, Algorithms, Scan, context_of, present, admit, scan_admitted, scan, collect,
  arrange, cut, respond,
}
use vaedb.Response.Matches.Steps.{
  to_choose, IsOrdered, Keeps, scan_step, to_choose-nil, length-present,
}

module _ (contexts : Contexts) where
  -- The nodes that pass the test of the loop, in order, with the texts found before.
  unfoldable pub admitted : Options → List XmlNode → List Bytes → Outcome (List XmlNode)
  admitted o [] found = done []
  admitted o (node ∷ nodes) found = admit contexts o node found >>= λ (matched, found').
      admitted o nodes found' >>= λ rest. done (if matched then node ∷ rest else rest)

  -- What the loop ends with, from the scan `s` on, where the nodes `ms` pass the test.
  abbrev Ends : Options → ℕ → ℕ → List XmlNode → List XmlNode → Scan → Scan → Type 0
  Ends o start stop nodes ms s s' =
      (scan contexts o (pos start) (pos stop) nodes s ≡ done s')
      × (s'.total ≡ s.total + length ms)
      × (s'.chosen ≡ s.chosen ++ to_choose start stop s ms)

  Ends-true :
      (o : Options) (start stop : ℕ) (node : XmlNode) (nodes rest : List XmlNode) (s s' : Scan)
      (found : List Bytes)
      → admit contexts o node s.found ≡ done (true, found)
      → Keeps start stop node
          (record s { found = found })
          (scan_admitted (pos start) (pos stop) node (record s { found = found }))
          rest
      → Ends o start stop nodes rest
          (scan_admitted (pos start) (pos stop) node (record s { found = found }))
          s'
      → Ends o start stop (node ∷ nodes) (node ∷ rest) s s'
  unfolding scan
  Ends-true o start stop node nodes rest s s' found admits keeps ends =
      (rw admits (ends.0), omega (arith, ends.1, keeps.1), ends.2 ∙ keeps.3)

  Ends-false :
      (o : Options) (start stop : ℕ) (node : XmlNode) (nodes rest : List XmlNode) (s s' : Scan)
      (found : List Bytes)
      → admit contexts o node s.found ≡ done (false, found)
      → Ends o start stop nodes rest (record s { found = found }) s'
      → Ends o start stop (node ∷ nodes) rest s s'
  unfolding scan
  Ends-false o start stop node nodes rest s s' found admits ends =
      (rw admits (ends.0), ends.1, ends.2)

  Ends-step :
      (matched : Bool) (o : Options) (start stop : ℕ) (node : XmlNode)
      (nodes rest ms : List XmlNode) (s : Scan) (found : List Bytes)
      → admit contexts o node s.found ≡ done (matched, found)
      → admitted o nodes found ≡ done rest
      → done (if matched then node ∷ rest else rest) ≡ done ms
      → IsOrdered start s
      → ((s1 : Scan)
          → admitted o nodes s1.found ≡ done rest
          → IsOrdered start s1
          → (s' : Scan) × Ends o start stop nodes rest s1 s')
      → (s' : Scan) × Ends o start stop (node ∷ nodes) ms s s'
  Ends-step true o start stop node nodes rest ms s found admits later same r ih =
      let keeps = scan_step start stop node (record s { found = found }) rest r in
      let s1 : Scan = scan_admitted (pos start) (pos stop) node (record s { found = found }) in
      let on : admitted o nodes s1.found ≡ done rest = rw (keeps.2) later in
      let (s', ends) = ih s1 on (keeps.0) in
      let all : node ∷ rest ≡ ms = done-injective same in
      (s', rw (← all) (Ends-true o start stop node nodes rest s s' found admits keeps ends))
  Ends-step false o start stop node nodes rest ms s found admits later same r ih =
      let (s', ends) = ih (record s { found = found }) later r in
      let all : rest ≡ ms = done-injective same in
      (s', rw (← all) (Ends-false o start stop node nodes rest s s' found admits ends))

  scan-admitted :
      (o : Options) (start stop : ℕ) (nodes ms : List XmlNode) (s : Scan)
      → admitted o nodes s.found ≡ done ms
      → IsOrdered start s
      → (s' : Scan) × Ends o start stop nodes ms s s'
  unfolding admitted scan
  scan-admitted o start stop [] ms s e r =
      let empty : [] ≡ ms = done-injective e in
      (s, (refl, rw (← empty) (omega arith), rw (← empty) (to_choose-nil start stop s)))
  scan-admitted o start stop (node ∷ nodes) ms s e r =
      let ((matched, found), admits, next) = >>=-eq-done (admit contexts o node s.found) _ e in
      let (rest, later, same) = >>=-eq-done (admitted o nodes found) _ next in
      Ends-step matched o start stop node nodes rest ms s found admits later same r
        (scan-admitted o start stop nodes rest)

  length-admitted :
      (o : Options) (nodes ms : List XmlNode) (found : List Bytes)
      → admitted o nodes found ≡ done ms
      → length ms ≤ length nodes
  unfolding admitted
  length-admitted o [] ms found e =
      let empty : [] ≡ ms = done-injective e in rw (← empty) (omega arith)
  length-admitted o (node ∷ nodes) ms found e =
      let ((matched, found'), admits, next) = >>=-eq-done (admit contexts o node found) _ e in
      let (rest, later, same) = >>=-eq-done (admitted o nodes found') _ next in
      at_most matched rest ms (length-admitted o nodes rest found' later) (done-injective same)
    where
      at_most :
          (matched : Bool) (rest ms : List XmlNode)
          → length rest ≤ length nodes
          → (if matched then node ∷ rest else rest) ≡ ms
          → length ms ≤ suc (length nodes)
      at_most true rest ms h e = rw (← e) (omega (arith, h))
      at_most false rest ms h e = rw (← e) (omega (arith, h))

  take-chosen :
      (i n size : ℕ) (ms : List XmlNode)
      → length ms ≤ size
      → take (min (i + n) size - (i + 0)) (present (drop i ms)) ≡ take n (present (drop i ms))
  take-chosen i n size ms h =
      let left = length-present (drop i ms) in
      let behind = length-drop i ms in
      elim (dec_le (i + n) size) [
        | yes all ↦ take-eq _ n _ (inl (omega arith))
        | no some_ ↦ take-eq _ n _ (inr (omega (arith, left, behind), omega (arith, left, behind)))
      ]

  collect-page :
      (o : Options) (i n : ℕ) (nodes ms : List XmlNode)
      → (if o.filter then true else o.unique) ≡ true
      → admitted o nodes [] ≡ done ms
      → collect contexts o (slice i n (length nodes)) nodes
        ≡ done (record { contexts = take n (present (drop i ms)); total = length ms })
  unfolding collect
  collect-page o i n nodes ms t e =
      let begin : Scan = record { total = 0; skipped = 0; included = 0; found = []; chosen = [] } in
      let (s, ends) =
        scan-admitted o i (min (i + n) (length nodes)) nodes ms begin e (omega arith, λ lt. refl) in
      let few = take-chosen i n (length nodes) ms (length-admitted o nodes ms [] e) in
      rw (t, ends.0) (ground (arith, ends.1, ends.2, few))

  module _ (doubles : Doubles) (algorithms : Algorithms) (floats : Floats) where
    arrange-unsorted :
        (o : Options) (chosen : List ℕ)
        → o.paging.sort_type ≡ unsorted
        → arrange contexts doubles algorithms o chosen ≡ done chosen
    unfolding arrange
    arrange-unsorted o chosen e = rw (e, arrange) refl

    cut-unsorted :
        (o : Options) (w : Window) (chosen : List ℕ)
        → o.paging.sort_type ≡ unsorted
        → cut contexts doubles algorithms o w chosen ≡ chosen
    unfolding cut
    cut-unsorted o w chosen e = rw (e, cut) refl

    -- Page `q + 1` of `n` items of a filtered or unique response: of the nodes that pass, the
    -- contexts of the `n` behind the first `k + q * n`, and the number of all that pass as the
    -- total; for `n > 0`, numbers that fit an `int`, no sorting, and data of the contexts that can
    -- be read.
    pub respond-matches :
        (o : Options) (k n q : ℕ) (nodes ms : List XmlNode)
        → 0 < n
        → n + (k + q * n) < 2 ^ 31
        → q < 2 ^ 31
        → o.paging ≡ paging unsorted (pos 0) (pos (suc q)) (pos n) (pos k)
        → (if o.filter then true else o.unique) ≡ true
        → admitted o nodes [] ≡ done ms
        → respond contexts doubles algorithms floats o nodes
          ≡ done (record { contexts = take n (present (drop (k + q * n) ms)); total = length ms })
    unfolding respond
    respond-matches o k n q nodes ms h v w p t e =
        let plain : o.paging.sort_type ≡ unsorted = ap (λ (x : Paging). x.sort_type) p in
        let chosen = take n (present (drop (k + q * n) ms)) in
        rw (p, window-page floats k n q (length nodes) h v w, respond)
          (rw
            (
              collect-page o (k + q * n) n nodes ms t e,
              arrange-unsorted o chosen plain,
              cut-unsorted o (slice (k + q * n) n (length nodes)) chosen plain,
            )
            refl)
