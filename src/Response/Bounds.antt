-- ===== src/Response/Bounds.antt =====
-- The window of a page: what `query` of response.cpp computes from the options and the size.
use vaedb.Common.{
  ℕ, zero, suc, ◌+◌, ◌-◌, ◌*◌, ◌/◌, ◌^◌, ◌≤◌, ◌<◌, ◌≡◌, refl, ap, ◌≢◌, ◌∙◌, some, min, max, arith,
  ◌>>=◌, ◌==◌, false,
}
use vaedb.Common.Int.{ℤ, pos, ◌+ℤ◌, ◌-ℤ◌, ◌*ℤ◌}
use vaedb.Common.Machine.{int, Floats, int-pos, pos-add, pos-sub, pos-mul, ceil_div}
use vaedb.Response.{
  SortType, unsorted, Paging, Window, at_least_one, ceil_share, page_skip, place, bound, window,
}

-- The window of `n` items after the first `k`, of `size` items in all.
abbrev pub slice : ℕ → ℕ → ℕ → Window
slice k n size = record {
  skip = pos k;
  paginate = pos n;
  start = pos k;
  stop = pos (min (k + n) size);
}

pub bound-slice :
    (size k n : ℕ)
    → 0 < n
    → n + k < 2 ^ 31
    → bound unsorted (pos size) (pos k) (pos n) ≡ some (slice k n size)
unfolding bound
bound-slice size k n h w = ground (arith, pos-add n k, int-pos (n + k))

pub bound-slice-max :
    (size k n : ℕ)
    → n + k + 1 < 2 ^ 31
    → bound unsorted (pos size) (pos k) (pos n) ≡ some (slice k (max 1 n) size)
bound-slice-max size k zero w = trans (bound-slice size k 1 (omega arith) (omega arith))
  where
    trans :
        bound unsorted (pos size) (pos k) (pos 1) ≡ some (slice k 1 size)
        → bound unsorted (pos size) (pos k) (pos 0) ≡ some (slice k (max 1 0) size)
    trans h = unfold bound in h
bound-slice-max size k (suc n) w =
    bound-slice size k (suc n) (omega arith) (omega arith)
    ∙ ap (λ m. some (slice k m size)) {y = max 1 (suc n)} (omega arith)

-- The window of a sorted response spans all nodes.
pub bound-whole :
    (s : SortType) (size k n : ℕ)
    → s ≢ unsorted
    → 0 < n
    → bound s (pos size) (pos k) (pos n)
      ≡ some (record { skip = pos k; paginate = pos n; start = pos 0; stop = pos size })
unfolding bound
bound-whole unsorted size k n ne h = absurd (ne refl)
bound-whole s size k n ne h = ground arith

abbrev pub paging : SortType → ℤ → ℤ → ℤ → ℤ → Paging
paging s g p n k = record { groups = g; page = p; paginate = n; skip = k; sort_type = s }

pub at_least_one-suc : (q : ℕ) → at_least_one (pos (suc q)) ≡ pos (suc q)
unfolding at_least_one
at_least_one-suc q = ground arith

offset_lem :
    (k n q : ℕ)
    → k + q * n < 2 ^ 31
    → q < 2 ^ 31
    → (int (at_least_one (pos (suc q)) -ℤ pos 1) >>= λ before.
        int (before *ℤ pos n) >>= λ offset. int (pos k +ℤ offset))
      ≡ some (pos (k + q * n))
offset_lem k n q v w =
    let less : suc q - 1 ≡ q = omega arith in
    rw (
      at_least_one-suc q,
      pos-sub (suc q) 1 (omega arith),
      less,
      int-pos q w,
      pos-mul q n,
      int-pos (q * n) (omega arith),
      pos-add k (q * n),
      int-pos (k + q * n) v,
    )

module _ (floats : Floats) where
  page_skip-pos :
      (s : SortType) (k n q size : ℕ)
      → k + q * n < 2 ^ 31
      → q < 2 ^ 31
      → page_skip floats (paging s (pos 0) (pos (suc q)) (pos n) (pos k)) (pos size)
        ≡ some (pos (k + q * n))
  unfolding page_skip
  page_skip-pos s k n q size v w =
      let plain : (suc q + 1 == 0) ≡ false = ground arith in
      rw (page_skip, plain) (offset_lem k n q v w)

  -- Page `q + 1` of `n` items each, the first `k` skipped, is the slice at `k + q * n`.
  pub window-page :
      (k n q size : ℕ)
      → 0 < n
      → n + (k + q * n) < 2 ^ 31
      → q < 2 ^ 31
      → window floats (paging unsorted (pos 0) (pos (suc q)) (pos n) (pos k)) (pos size)
        ≡ some (slice (k + q * n) n size)
  unfolding window place
  window-page k n q size h v w =
      rw (place, page_skip-pos unsorted k n q size (omega arith) w)
        (bound-slice size (k + q * n) n h v)

  -- The same page of a sorted response: its window spans all nodes, and the slice is cut afterwards.
  pub window-sorted_page :
      (s : SortType) (k n q size : ℕ)
      → s ≢ unsorted
      → 0 < n
      → n + (k + q * n) < 2 ^ 31
      → q < 2 ^ 31
      → window floats (paging s (pos 0) (pos (suc q)) (pos n) (pos k)) (pos size)
        ≡ some (record { skip = pos (k + q * n); paginate = pos n; start = pos 0; stop = pos size })
  unfolding window place
  window-sorted_page s k n q size ne h v w =
      rw (place, page_skip-pos s k n q size (omega arith) w) (bound-whole s size (k + q * n) n ne h)

  -- How many pages `n` items each fill after the first `k`.
  pub pages : ℕ → ℕ → ℕ → ℕ
  pages k n size = (size - k + n - 1) / n

  pub ceil_share-pos :
      (size k n : ℕ)
      → k ≤ size
      → size < 2 ^ 24
      → 0 < n
      → n < 2 ^ 31
      → ceil_share floats (pos size) (pos k) (pos n) ≡ some (pos ((size - k + n - 1) / n))
  unfolding ceil_share ceil_div
  ceil_share-pos size k n le s h w =
      rw (pos-sub size k le, int-pos (size - k) (omega arith))
        (floats.int_ceil-div (pos (size - k)) n (omega arith) (omega arith) h w)
