-- ===== src/PageAllocator/Query.antt =====
-- `PageAllocator::getPage` and `PageAllocator::getStats`.
pub mod Sums
pub mod Pages
use liballocator.Base.{
  ℕ, zero, suc, ◌+◌, ◌*◌, ◌%◌, ◌^◌, Option, none, some, List, leb, ◌==◌, if◌then◌else◌,
}
use liballocator.Store.{Ptr, null, Store}
use liballocator.Word.{word_mod, add, sub, align_down}
use liballocator.Page.{next_sibling}
use liballocator.RegionInfo.{RegionInfo}
use liballocator.PageAllocator.{PageAllocator, get_region}
use liballocator.PageAllocator.Init.{region_at}

-- The loop of `getPage`; null if no page has the address.
unfoldable pub page_loop : ℕ → Store → Ptr → Ptr → ℕ → Option Ptr
page_loop zero s page last addr = none
page_loop (suc fuel) s page last addr =
    let rest = page_loop fuel s (next_sibling page) last addr in
    if leb page last then if s.address page == addr then some page else rest else some null

-- `getPage(addr)`; the region has `page_count` pages, so one round more is enough.
unfoldable pub get_page : PageAllocator → ℕ → Option Ptr
get_page a addr =
    let aligned = align_down addr a.page_size in
    elim (get_region a aligned) [
      | none ↦ some null
      | some i ↦
          let region = region_at a.regions_info i in
          page_loop (region.page_count + 1) a.store region.first_page region.last_page aligned
    ]

pub record Stats : Type 0 where
  pub total_memory_size : ℕ
  pub effective_memory_size : ℕ
  pub user_memory_size : ℕ
  pub free_memory_size : ℕ
  pub page_size : ℕ
  pub total_pages_count : ℕ
  pub reserved_pages_count : ℕ
  pub free_pages_count : ℕ

-- `std::accumulate(start, end, 0U, ...)` of a field of the valid regions. The sum is an `unsigned`
-- of 32 bits, since the start value is, and takes each partial sum modulo its range.
unfoldable pub accumulate : ℕ → ℕ → (RegionInfo → ℕ) → List RegionInfo → ℕ → ℕ
accumulate zero i field regions sum = sum
accumulate (suc n) i field regions sum =
    accumulate n (i + 1) field regions (add sum (field (region_at regions i)) % 2 ^ 32)

-- `getStats()`
unfoldable pub get_stats : PageAllocator → Stats
unfolding accumulate
get_stats a =
    let effective = accumulate a.valid_regions_count 0 (λ r. r.aligned_size) a.regions_info 0 in
    record {
      total_memory_size = accumulate a.valid_regions_count 0 (λ r. r.size) a.regions_info 0;
      effective_memory_size = effective;
      user_memory_size = sub effective (a.page_size * a.desc_pages_count % word_mod);
      free_memory_size = a.free_pages_count * a.page_size % word_mod;
      page_size = a.page_size;
      total_pages_count = a.pages_count;
      reserved_pages_count = a.desc_pages_count;
      free_pages_count = a.free_pages_count;
    }
