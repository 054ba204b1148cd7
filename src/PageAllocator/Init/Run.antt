-- ===== src/PageAllocator/Init/Run.antt =====
-- The equations of one round of the second loop of `init`.
use liballocator.Base.{ℕ, ◌+◌, ◌≡◌, refl, true, false, some, arith, ◌==◌, if◌then◌else◌, set}
use liballocator.Store.{Ptr, null, Store}
use liballocator.RegionInfo.{RegionInfo}
use liballocator.Group.{init_group, last_page, split_group}
use liballocator.PageAllocator.{PageAllocator, add_group}
use liballocator.PageAllocator.Init.{
  region_at, init_pages, init_region, reserve_loop, reserve_desc_pages, reserve_region,
}

-- The region with its first and its last descriptor.
abbrev pub with_pages : RegionInfo → Ptr → RegionInfo
with_pages region page = record region {
  first_page = page;
  last_page = last_page page region.page_count;
}

-- The state in which the region of index `i` has its descriptors from `page` on.
abbrev pub placed : PageAllocator → ℕ → Ptr → PageAllocator
placed a i page = record a {
  regions_info = set a.regions_info i (with_pages (region_at a.regions_info i) page);
}

-- The state with the group of the region.
abbrev pub grouped : PageAllocator → ℕ → Ptr → Store → PageAllocator
grouped a i page s = record (placed a i page) {
  store = init_group s page (region_at a.regions_info i).page_count;
}

pub init_region-run :
    (a a' : PageAllocator) (i : ℕ) (page next g : Ptr) (s : Store)
    → init_pages
        ((region_at a.regions_info i).page_count + 1)
        (region_at a.regions_info i).aligned_start
        (region_at a.regions_info i).aligned_end
        a.page_size
        page
        a.store
      ≡ some (s, next)
    → reserve_region i (grouped a i page s) page ≡ some (g, a')
    → init_region i page a ≡ some (next, if g == null then a' else add_group a' g)
unfolding init_region
init_region-run a a' i page next g s pages reserve = rw (pages, reserve) refl

pub reserve_region-other :
    (i : ℕ) (b : PageAllocator) (g : Ptr)
    → (i == b.desc_region_idx) ≡ false
    → reserve_region i b g ≡ some (g, b)
unfolding reserve_region
reserve_region-other i b g other = rw other refl

pub reserve_region-desc :
    (i : ℕ) (b : PageAllocator) (g : Ptr) (q : RegionInfo) (r : ℕ) (s : Store)
    → (i == b.desc_region_idx) ≡ true
    → region_at b.regions_info b.desc_region_idx ≡ q
    → reserve_loop (b.pages_count + 1) q.first_page b.pages_tail q.last_page 0 b.store ≡ some (r, s)
    → reserve_region i b g
      ≡ some
          ((split_group s g r).2, record b { desc_pages_count = r; store = (split_group s g r).0 })
unfolding reserve_region reserve_desc_pages
reserve_region-desc i b g q r s here at run = rw (here, at, run) refl

pub split_group-whole :
    (s : Store) (g : Ptr) (n : ℕ) → s.group_size g ≡ n → split_group s g n ≡ (s, g, null)
unfolding split_group
split_group-whole s g n e = rw e (ground arith)
