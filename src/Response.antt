-- ===== src/Response.antt =====
-- response.cpp and response.h: the options of a response, the window of a page, the filter, the
-- uniqueness test, the sort order, and `query`, which puts them together.
pub mod Bounds
pub mod Groups
pub mod Filter
pub mod Select
pub mod Sorting
pub mod Pages
pub mod Matches
pub mod Build
pub mod Views
pub mod Create
pub mod Found
pub mod Asked
pub mod Samples
pub mod Parse
mod Tests
use vaedb.Common.{
  ℕ, zero, suc, ◌+◌, Bool, true, false, Option, none, some, ltb, ◌==◌, ◌>>=◌, if◌then◌else◌,
}
use vaedb.Common.Int.{ℤ, pos, negsuc, pos_part, neg_part, ◌+ℤ◌, ◌-ℤ◌, ◌*ℤ◌, ltb_ℤ, leb_ℤ}
use vaedb.Common.Machine.{int, Floats}

pub data SortType : Type 0 where
  unsorted by_reverse by_shuffle by_fields : SortType

-- The fields of a `Response` that choose the window.
pub record Paging : Type 0 where
  pub groups : ℤ
  pub page : ℤ
  pub paginate : ℤ
  pub skip : ℤ
  pub sort_type : SortType

-- The locals of `query` once the window is computed: `skip_`, `paginate_`, `start` and `end`.
pub record Window : Type 0 where
  pub skip : ℤ
  pub paginate : ℤ
  pub start : ℤ
  pub stop : ℤ

-- `==` on `int`
abbrev pub eqb_ℤ : ℤ → ℤ → Bool
eqb_ℤ a b = pos_part a + neg_part b == pos_part b + neg_part a

abbrev pub is_unsorted : SortType → Bool
is_unsorted unsorted = true
is_unsorted by_reverse = false
is_unsorted by_shuffle = false
is_unsorted by_fields = false

-- `if (page_ <= 0) page_ = 1;`
unfoldable pub at_least_one : ℤ → ℤ
at_least_one page = if leb_ℤ page (pos 0) then pos 1 else page

-- The bounds of the loop over the nodes.
unfoldable pub bound : SortType → ℤ → ℤ → ℤ → Option Window
bound sort_type size skip paginate =
    let paginate' = if ltb_ℤ paginate (pos 1) then pos 1 else paginate in
    let skip' = if ltb_ℤ skip (pos 0) then pos 0 else skip in
    if is_unsorted sort_type
    then (int (paginate' +ℤ skip') >>= λ after.
        let stop = if ltb_ℤ after size then after else size in
        some (record {
          skip = skip';
          paginate = paginate';
          start = skip';
          stop = if ltb_ℤ size stop then size else stop;
        }))
    else some (record { skip = skip'; paginate = paginate'; start = pos 0; stop = size })

module _ (floats : Floats) where
  open floats use {from_int, div, int_ceil}

  -- `(int)ceil((float)(size - skip_) / divisor)`
  unfoldable pub ceil_share : ℤ → ℤ → ℤ → Option ℤ
  ceil_share size skip divisor =
      int (size -ℤ skip) >>= λ rest. int_ceil (div (from_int rest) (from_int divisor))

  -- The loop over `j` with `rounds` rounds to go: `skip_` and `paginate_` behind it.
  unfoldable pub group_loop : ℕ → ℕ → ℤ → ℤ → ℤ → ℤ → Option (ℤ × ℤ)
  group_loop zero j size groups skip paginate = some (skip, paginate)
  group_loop (suc rounds) j size groups skip paginate =
      (if ltb 0 j then int (skip +ℤ paginate) else some skip) >>= λ skip'.
      int (groups -ℤ pos j) >>= λ divisor. ceil_share size skip' divisor >>= λ paginate'.
      group_loop rounds (suc j) size groups skip' paginate'

  -- The branch for pages without groups.
  unfoldable pub page_skip : Paging → ℤ → Option ℤ
  page_skip p size =
      (if eqb_ℤ p.page (negsuc 0) then ceil_share size p.skip p.paginate else some p.page)
      >>= λ page. int (at_least_one page -ℤ pos 1) >>= λ before.
          int (before *ℤ p.paginate) >>= λ offset. int (p.skip +ℤ offset)

  -- `skip_` and `paginate_` behind the first `if`.
  unfoldable pub place : Paging → ℤ → Option (ℤ × ℤ)
  place p size =
      if eqb_ℤ p.groups (pos 0)
      then (page_skip p size >>= λ skip. some (skip, p.paginate))
      else group_loop (pos_part (at_least_one p.page)) 0 size p.groups p.skip p.paginate

  unfoldable pub window : Paging → ℤ → Option Window
  window p size = place p size >>= λ (skip, paginate). bound p.sort_type size skip paginate
