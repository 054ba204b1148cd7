-- ===== src/Examples/Queries.antt =====
-- Tests of `getStats`.
use liballocator.Base.{◌+◌, ◌%◌, ◌^◌, ◌≡◌, [], ◌∷◌}
use liballocator.PageAllocator.{PageAllocator}
use liballocator.PageAllocator.Query.{get_stats}
use liballocator.PageAllocator.Query.Sums.{total, get_stats-total}
use liballocator.Examples.{four, four_region}

-- A region of a little more than 4 GiB.
abbrev large : PageAllocator
large = record four {
  regions_info = record four_region { size = 2 ^ 32 + 512; aligned_size = 2 ^ 32 + 512 } ∷ [];
}

get_stats-total_example :
    ((get_stats large).total_memory_size ≡ total 1 0 (λ r. r.size) large.regions_info % 2 ^ 32)
    × ((get_stats large).effective_memory_size
        ≡ total 1 0 (λ r. r.aligned_size) large.regions_info % 2 ^ 32)
get_stats-total_example = get_stats-total large
