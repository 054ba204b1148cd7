-- ===== src/PageAllocator/Query/Sums.antt =====
-- The sums of `PageAllocator::getStats`.
use liballocator.Base.{ℕ, zero, suc, ◌+◌, ◌%◌, ◌^◌, ◌<◌, ◌≡◌, List, arith}
use liballocator.RegionInfo.{RegionInfo}
use liballocator.PageAllocator.{PageAllocator}
use liballocator.PageAllocator.Init.{region_at}
use liballocator.PageAllocator.Query.{accumulate, get_stats}

-- The sum of a field over `n` regions from index `i` on.
abbrev pub total : ℕ → ℕ → (RegionInfo → ℕ) → List RegionInfo → ℕ
total zero i field regions = 0
total (suc n) i field regions = field (region_at regions i) + total n (i + 1) field regions

accumulate-total :
    (n i : ℕ) (field : RegionInfo → ℕ) (regions : List RegionInfo) (sum : ℕ)
    → sum < 2 ^ 32
    → accumulate n i field regions sum ≡ (sum + total n i field regions) % 2 ^ 32
unfolding accumulate
accumulate-total zero i field regions sum h = omega arith
accumulate-total (suc n) i field regions sum h =
    let next = accumulate-total n (i + 1) field regions in
    omega (arith, next ((sum + field (region_at regions i)) % 2 ^ 64 % 2 ^ 32) (omega arith))

-- The total and the effective memory size of `getStats` are the sums over the valid regions modulo
-- `2 ^ 32`.
pub get_stats-total :
    (a : PageAllocator)
    → ((get_stats a).total_memory_size
        ≡ total a.valid_regions_count 0 (λ r. r.size) a.regions_info % 2 ^ 32)
      × ((get_stats a).effective_memory_size
          ≡ total a.valid_regions_count 0 (λ r. r.aligned_size) a.regions_info % 2 ^ 32)
unfolding get_stats
get_stats-total a = (
  omega (
    arith,
    accumulate-total a.valid_regions_count 0 (λ r. r.size) a.regions_info 0 (omega arith),
  ),
  omega (
    arith,
    accumulate-total a.valid_regions_count 0 (λ r. r.aligned_size) a.regions_info 0 (omega arith),
  ),
)
