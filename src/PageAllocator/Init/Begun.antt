-- ===== src/PageAllocator/Init/Begun.antt =====
-- What `init` leaves.
use liballocator.Base.{ℕ, ◌+◌, ◌<◌, ◌≡◌}
use liballocator.Page.{page_at}
use liballocator.PageAllocator.{PageAllocator}
use liballocator.PageAllocator.Invariant.{IsValid}
use liballocator.PageAllocator.Init.{region_at}
use liballocator.PageAllocator.Init.Settled.{IsPaged}
use liballocator.PageAllocator.Init.Layout.{first_of, Regional, Filled, Layout}

-- A valid state. The descriptors of the regions of the table stand one behind the other, from the start
-- of one of the regions on, and have the addresses of all their pages. Each group lies in a region, and
-- two free neighbours of a region are in one group. All pages are counted as free but those that are
-- reserved for the descriptors.
pub record Begun (page_size : ℕ) (a : PageAllocator) : Type 0 where
  pub valid : IsValid a
  pub size : a.page_size ≡ page_size
  pub sum : first_of a a.valid_regions_count ≡ a.pages_count
  pub paged : (j : ℕ) → j < a.valid_regions_count → IsPaged a.page_size (region_at a.regions_info j)
  pub layout : Layout a.valid_regions_count a
  pub regional : Regional a.valid_regions_count a valid.0
  pub filled : Filled a.valid_regions_count a valid.0
  pub desc : a.desc_region_idx < a.valid_regions_count
  pub head : a.pages_head ≡ (region_at a.regions_info a.desc_region_idx).aligned_start
  pub tail : a.pages_tail + 32 ≡ page_at a.pages_head a.pages_count
  pub counters : a.free_pages_count + a.desc_pages_count ≡ a.pages_count
