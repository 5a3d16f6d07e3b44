-- ===== src/Response/Matches/Steps.antt =====
-- One round of the loop of `query` in response.cpp over the nodes, and what the loop has still to
-- choose.
use vaedb.Common.{
  ℕ, zero, suc, ◌+◌, ◌-◌, ◌≤◌, ◌<◌, ◌≡◌, refl, sym, ap, ◌∙◌, none, some, List, [], ◌∷◌, ◌++◌,
  append_assoc, append-nil, inl, inr, arith, length, take, drop, dec_lt, Option-cases,
}
use vaedb.Common.Int.{pos}
use vaedb.Xml.{XmlNode}
use vaedb.Response.Select.{Scan, context_of, present, scan_admitted}

present-none :
    (node : XmlNode) (ms : List XmlNode) → context_of node ≡ none → present (node ∷ ms) ≡ present ms
unfolding present
present-none node ms e = ground arith

present-some :
    (node : XmlNode) (c : ℕ) (ms : List XmlNode)
    → context_of node ≡ some c
    → present (node ∷ ms) ≡ c ∷ present ms
unfolding present
present-some node c ms e = ground arith

-- What the scan has still to choose: behind the nodes to skip, as many contexts as there is room.
abbrev pub to_choose : ℕ → ℕ → Scan → List XmlNode → List ℕ
to_choose start stop s ms =
    take (stop - (start + s.included)) (present (drop (start - s.skipped) ms))

-- Nothing is included before the skipping ends.
abbrev pub IsOrdered : ℕ → Scan → Type 0
IsOrdered start s = (s.skipped ≤ start) × (s.skipped < start → s.included ≡ 0)

-- One round keeps what will have been chosen in the end.
abbrev pub Keeps : ℕ → ℕ → XmlNode → Scan → Scan → List XmlNode → Type 0
Keeps start stop node s s' ms =
    IsOrdered start s'
    × (s'.total ≡ s.total + 1)
    × (s'.found ≡ s.found)
    × (s'.chosen ++ to_choose start stop s' ms ≡ s.chosen ++ to_choose start stop s (node ∷ ms))

admitted_skip :
    (start stop : ℕ) (node : XmlNode) (s : Scan)
    → s.skipped < start
    → scan_admitted (pos start) (pos stop) node s
      ≡ record s { total = s.total + 1; skipped = s.skipped + 1 }
unfolding scan_admitted
admitted_skip start stop node s h = ground arith

step_skip :
    (start stop : ℕ) (node : XmlNode) (s : Scan) (ms : List XmlNode)
    → s.skipped < start
    → IsOrdered start s
    → Keeps start stop node s (record s { total = s.total + 1; skipped = s.skipped + 1 }) ms
step_skip start stop node s ms h o =
    let one : start - s.skipped ≡ suc (start - (s.skipped + 1)) = omega arith in
    ((omega arith, λ lt. o.1 h), refl, refl, rw one)

admitted_full :
    (start stop : ℕ) (node : XmlNode) (s : Scan)
    → start ≤ s.skipped
    → stop ≤ s.included + s.skipped
    → scan_admitted (pos start) (pos stop) node s ≡ record s { total = s.total + 1 }
unfolding scan_admitted
admitted_full start stop node s h w = ground arith

step_full :
    (start stop : ℕ) (node : XmlNode) (s : Scan) (ms : List XmlNode)
    → s.skipped ≡ start
    → stop ≤ s.included + s.skipped
    → Keeps start stop node s (record s { total = s.total + 1 }) ms
step_full start stop node s ms h w =
    let no_room : stop - (start + s.included) ≡ 0 = omega arith in
    ((omega arith, λ lt. absurd (omega arith)), refl, refl, rw no_room)

admitted_none :
    (start stop : ℕ) (node : XmlNode) (s : Scan)
    → start ≤ s.skipped
    → s.included + s.skipped < stop
    → context_of node ≡ none
    → scan_admitted (pos start) (pos stop) node s ≡ record s { total = s.total + 1 }
unfolding scan_admitted
admitted_none start stop node s h w e = ground arith

step_none :
    (start stop : ℕ) (node : XmlNode) (s : Scan) (ms : List XmlNode)
    → s.skipped ≡ start
    → context_of node ≡ none
    → Keeps start stop node s (record s { total = s.total + 1 }) ms
step_none start stop node s ms h e =
    let here : start - s.skipped ≡ 0 = omega arith in
    ((omega arith, λ lt. absurd (omega arith)), refl, refl, rw (here, present-none node ms e))

admitted_some :
    (start stop c : ℕ) (node : XmlNode) (s : Scan)
    → start ≤ s.skipped
    → s.included + s.skipped < stop
    → context_of node ≡ some c
    → scan_admitted (pos start) (pos stop) node s
      ≡ record s { total = s.total + 1; included = s.included + 1; chosen = s.chosen ++ c ∷ [] }
unfolding scan_admitted
admitted_some start stop c node s h w e = ground arith

step_some :
    (start stop c : ℕ) (node : XmlNode) (s : Scan) (ms : List XmlNode)
    → s.skipped ≡ start
    → s.included + s.skipped < stop
    → context_of node ≡ some c
    → Keeps start stop node s
        (record s { total = s.total + 1; included = s.included + 1; chosen = s.chosen ++ c ∷ [] })
        ms
step_some start stop c node s ms h w e =
    let here : start - s.skipped ≡ 0 = omega arith in
    let room : stop - (start + s.included) ≡ suc (stop - (start + (s.included + 1))) =
      omega arith in
    (
      (omega arith, λ lt. absurd (omega arith)),
      refl,
      refl,
      rw (here, present-some node c ms e, room) (append_assoc s.chosen (c ∷ []) _),
    )

pub scan_step :
    (start stop : ℕ) (node : XmlNode) (s : Scan) (ms : List XmlNode)
    → IsOrdered start s
    → Keeps start stop node s (scan_admitted (pos start) (pos stop) node s) ms
scan_step start stop node s ms o = elim (dec_lt s.skipped start) [
  | yes h ↦ rw (admitted_skip start stop node s h) (step_skip start stop node s ms h o)
  | no h ↦
      let at : s.skipped ≡ start = omega (arith, o.0) in
      elim (dec_lt (s.included + s.skipped) stop) [
        | yes room ↦ elim (Option-cases (context_of node)) [
          | inl e ↦
              rw (admitted_none start stop node s (omega arith) room e)
                (step_none start stop node s ms at e)
          | inr (c, e) ↦
              rw (admitted_some start stop c node s (omega arith) room e)
                (step_some start stop c node s ms at room e)
        ]
        | no full ↦
            rw (admitted_full start stop node s (omega arith) (omega arith))
              (step_full start stop node s ms at (omega arith))
      ]
]

pub to_choose-nil : (start stop : ℕ) (s : Scan) → s.chosen ≡ s.chosen ++ to_choose start stop s []
unfolding present
to_choose-nil start stop s =
    sym (append-nil s.chosen) ∙ ap (◌++◌ s.chosen) (none_left (start - s.skipped) _)
  where
    none_left : (d r : ℕ) → [] ≡ take r (present (drop d []))
    none_left zero zero = refl
    none_left zero (suc r) = refl
    none_left (suc d) zero = refl
    none_left (suc d) (suc r) = refl

pub length-present : (ms : List XmlNode) → length (present ms) ≤ length ms
unfolding present
length-present [] = omega arith
length-present (m ∷ ms) = ground (arith, length-present ms)
