-- ===== src/Response/Asked/Tests.antt =====
-- A sort of two contexts of the small site, with their caches.
use vaedb.Common.{ℕ, if◌then◌else◌, ◌≡◌, true, false, List, [], ◌∷◌, codes}
use vaedb.Query.Samples.{sample_patterns, sample_source}
use vaedb.Context.Caches.{no_caches}
use vaedb.Response.Select.{SortField, asc, desc, sort_callback}
use vaedb.Response.Samples.{naturals}
use vaedb.Response.Asked.{Sorter, sorted, compares, sorting, run_sorter}
use vaedb.Response.Asked.Cached.{
  contexts_of, run_cached, AllSound, no_caches-AllSound, sorting-uncached,
}

-- Two elements in their order.
abbrev two : Sorter (List ℕ)
two = compares 3 4 λ before. sorted (if before then 3 ∷ 4 ∷ [] else 4 ∷ 3 ∷ [])

-- By the number of titles, then by the title.
abbrev by_title : List SortField
by_title =
    record { field = codes "title"; count = true; direction = desc }
    ∷ record { field = codes "title"; count = false; direction = asc }
    ∷ []

sorting-uncached_example :
    let (caches, outcome) =
      run_cached sample_patterns sample_source 3 (sorting naturals by_title two) (λ c. no_caches) in
    AllSound sample_patterns sample_source 3 caches
    × (outcome
        ≡ run_sorter
            (sort_callback (contexts_of sample_patterns sample_source 3) naturals by_title)
            two)
sorting-uncached_example =
    sorting-uncached sample_patterns sample_source 3 naturals by_title two (λ c. no_caches)
      (no_caches-AllSound sample_patterns sample_source 3)
