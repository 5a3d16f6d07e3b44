-- ===== src/Response/Groups.antt =====
-- The windows of a response in groups: the loop over `j` in `query` of response.cpp.
use vaedb.Common.{
  ℕ, zero, suc, ◌+◌, ◌-◌, ◌*◌, ◌/◌, ◌^◌, ◌≤◌, ◌<◌, ◌≡◌, ap, ◌∙◌, some, min, max, arith, dec_lt,
  ◌==◌, ltb, if◌then◌else◌, true, false,
}
use vaedb.Common.Int.{ℤ, pos, ◌-ℤ◌}
use vaedb.Common.Machine.{int, Floats, int-pos, pos-add, pos-sub}
use vaedb.Response.{unsorted, ceil_share, group_loop, place, window}
use vaedb.Response.Bounds.{slice, paging, bound-slice-max, at_least_one-suc, ceil_share-pos}

ceil_more : (a c m : ℕ) → 0 < c → c ≤ m → (a * m + c + m - 1) / m ≡ a + 1
ceil_more a c m h w = grind arith

ceil_even : (a m : ℕ) → 0 < m → (a * m + m - 1) / m ≡ a
ceil_even a m h = grind arith

-- The first item and the number of items of group `j`, where `a` and `b` are the quotient and the
-- remainder of the items by the groups.
unfoldable pub group_start : ℕ → ℕ → ℕ → ℕ → ℕ
group_start k a b j = k + j * a + min j b

abbrev pub extra : ℕ → ℕ → ℕ
extra b j = if ltb j b then 1 else 0

unfoldable pub group_size : ℕ → ℕ → ℕ → ℕ
group_size a b j = a + extra b j

group_next : (k a b j : ℕ) → group_start k a b j + group_size a b j ≡ group_start k a b (suc j)
unfolding group_start group_size
group_next k a b j = grind arith

module _ (floats : Floats) (k a b g : ℕ) (part : b < g) (small : k + (a * g + b) < 2 ^ 24) where
  abbrev items : ℕ
  items = k + (a * g + b)

  rest_lem :
      (j m : ℕ)
      → g ≡ j + m
      → 0 < m
      → (group_start k a b j ≤ items)
        × ((items - group_start k a b j + m - 1) / m ≡ group_size a b j)
  unfolding group_start group_size
  rest_lem j m e h =
      let spread : a * g ≡ j * a + a * m = rw e (omega arith) in
      elim (dec_lt j b) [
        | yes early ↦
            let share : (a * m + (b - j) + m - 1) / m ≡ a + 1 =
              ceil_more a (b - j) m (omega arith) (omega arith) in
            let left : items - (k + j * a + min j b) ≡ a * m + (b - j) = omega arith in
            let one : extra b j ≡ 1 = ground arith in (omega arith, rw (left, one) share)
        | no late ↦
            let share : (a * m + m - 1) / m ≡ a = ceil_even a m h in
            let left : items - (k + j * a + min j b) ≡ a * m = omega arith in
            let none_more : extra b j ≡ 0 = ground arith in
            (omega arith, rw (left, none_more) (share ∙ omega arith))
      ]

  divisor_lem : (j : ℕ) → j < g → g < 2 ^ 31 → int (pos g -ℤ pos j) ≡ some (pos (g - j))
  divisor_lem j h w = rw (pos-sub g j (omega arith)) (int-pos (g - j) (omega arith))

  share_lem :
      (j : ℕ)
      → j < g
      → g < 2 ^ 31
      → ceil_share floats (pos items) (pos (group_start k a b j)) (pos (g - j))
        ≡ some (pos (group_size a b j))
  share_lem j h w =
      let (le, share) = rest_lem j (g - j) (omega arith) (omega arith) in
      ceil_share-pos floats items (group_start k a b j) (g - j) le small (omega arith) (omega arith)
      ∙ ap (λ n. some (pos n)) share

  start_small : (j : ℕ) → j ≤ g → group_start k a b j < 2 ^ 24
  unfolding group_start
  start_small j h = grind arith

  loop_lem :
      (r j : ℕ)
      → j + r < g
      → g < 2 ^ 31
      → group_loop floats r
          (suc j)
          (pos items)
          (pos g)
          (pos (group_start k a b j))
          (pos (group_size a b j))
        ≡ some (pos (group_start k a b (j + r)), pos (group_size a b (j + r)))
  unfolding group_loop
  loop_lem zero j h w =
      let same : j ≡ j + 0 = omega arith in
      ap (λ i. some (pos (group_start k a b i), pos (group_size a b i))) same
  loop_lem (suc r) j h w =
      let later : ltb 0 (suc j) ≡ true = ground arith in
      let same : suc j + r ≡ j + suc r = omega arith in
      rw
        (
          later,
          pos-add (group_start k a b j) (group_size a b j),
          group_next k a b j,
          int-pos (group_start k a b (suc j)) (omega (arith, start_small (suc j) (omega arith))),
          divisor_lem (suc j) (omega arith) w,
          share_lem (suc j) (omega arith) w,
        )
        (loop_lem r (suc j) (omega arith) w
          ∙ ap (λ i. some (pos (group_start k a b i), pos (group_size a b i))) same)

  loop_first :
      (q : ℕ)
      → q < g
      → g < 2 ^ 31
      → (n : ℤ)
      → group_loop floats (suc q) 0 (pos items) (pos g) (pos k) n
        ≡ some (pos (group_start k a b q), pos (group_size a b q))
  unfolding group_loop
  loop_first q h w n =
      let first : group_start k a b 0 ≡ k = unfold group_start in omega arith in
      let share = rw first at (share_lem 0 (omega arith) w) in
      let loop = rw first at (loop_lem q 0 (omega arith) w) in
      let same : 0 + q ≡ q = omega arith in
      rw (divisor_lem 0 (omega arith) w, share)
        (loop ∙ ap (λ i. some (pos (group_start k a b i), pos (group_size a b i))) same)

  -- Of `items < 2 ^ 24` items of an unsorted response, `k` are skipped and the rest is spread over `g < 2 ^ 24`
  -- groups, where floats are exact: group `q + 1` is the slice of `group_size` items at `group_start`, cut at the
  -- end of the items; the slice of a group of size 0 is one item wide, and empty if it begins at the end.
  pub window_in_groups :
      (q : ℕ) (n : ℤ)
      → q < g
      → g < 2 ^ 24
      → window floats (paging unsorted (pos g) (pos (suc q)) n (pos k)) (pos items)
        ≡ some (slice (group_start k a b q) (max 1 (group_size a b q)) items)
  unfolding window place
  window_in_groups q n h w =
      let some_groups : (g + 0 == 0) ≡ false = ground arith in
      rw (place, some_groups, at_least_one-suc q, loop_first q h (omega arith) n)
        (bound-slice-max items (group_start k a b q) (group_size a b q)
          (omega (arith, group_next k a b q, start_small (suc q) h, start_small q (omega arith))))
