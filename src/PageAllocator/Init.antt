-- ===== src/PageAllocator/Init.antt =====
-- `PageAllocator::init` and what it calls. The regions are given as a list, which ends where the C++
-- array has its zeroed entry. `none` means that an assertion failed or that the fuel of a loop ran
-- out.
pub mod Overwrite
pub mod Pages
pub mod Extend
pub mod Fresh
pub mod Run
pub mod Settled
pub mod Round
pub mod Sums
pub mod Layout
pub mod Grown
pub mod Begun
pub mod Loop
pub mod Apart
pub mod Scan
pub mod Start
pub mod Valid
pub mod Memory
pub mod Safe
pub mod Complete
pub mod Found
pub mod Placed
pub mod Contiguous
pub mod Establish
pub mod Parts
pub mod Reserve
use liballocator.Base.{
  ℕ, zero, suc, ◌+◌, ◌*◌, ◌%◌, Bool, true, false, ◌&&◌, Option, none, some, List, [], ◌∷◌, ltb, leb,
  ◌==◌, if◌then◌else◌, get_or, set, replicate, ◌>>=◌,
}
use liballocator.Store.{Ptr, null, Store}
use liballocator.Word.{word_mod, add}
use liballocator.Page.{page_bytes, next_sibling, set_address, set_used}
use liballocator.Page
use liballocator.Group.{init_group, last_page, split_group}
use liballocator.RegionInfo.{Region, RegionInfo, clear_region_info, init_region_info}
use liballocator.Utils.{is_power_of2}
use liballocator.PageAllocator.{PageAllocator, add_group}

abbrev pub max_regions_count : ℕ
max_regions_count = 8

-- `PageAllocator::minimalPageSize()`
abbrev pub minimal_page_size : ℕ
minimal_page_size = 128

-- `detail::isValidPageSize(pageSize)`
unfoldable pub is_valid_page_size : ℕ → Bool
unfolding is_power_of2
is_valid_page_size page_size = leb minimal_page_size page_size && is_power_of2 page_size

-- `clear()`; the memory stays as it is.
unfoldable pub clear : PageAllocator → PageAllocator
clear a = record a {
  regions_info = replicate max_regions_count clear_region_info;
  valid_regions_count = 0;
  page_size = 0;
  desc_region_idx = 0;
  desc_pages_count = 0;
  pages_head = null;
  pages_tail = null;
  free_group_lists = λ i. null;
  pages_count = 0;
  free_pages_count = 0;
}

-- The constructor, in the memory `s`: the members have their initial values, and `clear` is called.
unfoldable pub construct : Store → PageAllocator
unfolding clear
construct s = clear (record {
  regions_info = replicate max_regions_count clear_region_info;
  valid_regions_count = 0;
  page_size = 0;
  desc_region_idx = 0;
  desc_pages_count = 0;
  pages_head = null;
  pages_tail = null;
  free_group_lists = λ i. null;
  pages_count = 0;
  free_pages_count = 0;
  store = s;
})

-- `m_regionsInfo.at(m_validRegionsCount++) = regionInfo`
abbrev pub push_region : PageAllocator → RegionInfo → PageAllocator
push_region a info = record a {
  regions_info = set a.regions_info a.valid_regions_count info;
  valid_regions_count = a.valid_regions_count + 1;
}

-- The first loop of `init`, from the region of index `i` on: false if there are too many.
unfoldable pub scan_regions : ℕ → ℕ → List Region → PageAllocator → Option (Bool × PageAllocator)
scan_regions i page_size [] a = some (true, a)
scan_regions i page_size (r ∷ rs) a =
    if r.size == 0
    then some (true, a)
    else if i == max_regions_count
    then some (false, a)
    else elim (init_region_info r page_size) [
      | none ↦ none
      | some (done, info) ↦
          scan_regions (i + 1) page_size rs (if done then push_region a info else a)
    ]

-- `countPages()`
unfoldable pub count_pages : List RegionInfo → ℕ
count_pages [] = 0
count_pages (r ∷ rs) = add r.page_count (count_pages rs)

abbrev pub region_at : List RegionInfo → ℕ → RegionInfo
region_at regions i = get_or regions i clear_region_info

-- The loop of `chooseDescRegion`, `n` rounds from index `i` on.
unfoldable pub choose_loop : ℕ → ℕ → ℕ → ℕ → List RegionInfo → ℕ
choose_loop zero i selected area regions = selected
choose_loop (suc n) i selected area regions =
    let size = (region_at regions i).aligned_size in
    choose_loop n (i + 1)
      (if ltb size area
        then selected
        else if ltb size (region_at regions selected).aligned_size
        then i
        else selected)
      area regions

-- `chooseDescRegion()`
unfoldable pub choose_desc_region : PageAllocator → ℕ
unfolding choose_loop
choose_desc_region a =
    choose_loop a.valid_regions_count 0 0 (a.pages_count * page_bytes % word_mod) a.regions_info

-- The loop of `reserveDescPages`: the number of reserved pages, and the memory.
unfoldable pub reserve_loop : ℕ → Ptr → Ptr → Ptr → ℕ → Store → Option (ℕ × Store)
reserve_loop zero page tail last reserved s = none
reserve_loop (suc fuel) page tail last reserved s =
    let s' = set_used s page true in
    let rest = reserve_loop fuel (next_sibling page) tail last (reserved + 1) s' in
    if leb page tail
    then if leb (next_sibling tail) (s.address page)
      then some (reserved, s)
      else if page == last
      then some (reserved + 1, s')
      else rest
    else some (reserved, s)

-- `reserveDescPages()`
unfoldable pub reserve_desc_pages : PageAllocator → Option (ℕ × Store)
unfolding reserve_loop set_used
reserve_desc_pages a =
    let region = region_at a.regions_info a.desc_region_idx in
    reserve_loop (a.pages_count + 1) region.first_page a.pages_tail region.last_page 0 a.store

-- The loop of `init` over the addresses of a region, with its assertion: the memory, and the next
-- descriptor.
unfoldable pub init_pages : ℕ → ℕ → ℕ → ℕ → Ptr → Store → Option (Store × Ptr)
unfolding Page.init
init_pages zero addr end page_size page s = none
init_pages (suc fuel) addr end page_size page s =
    let rest =
      init_pages fuel (add addr page_size) end page_size (next_sibling page)
        (set_address (Page.init s page) page addr) in
    if addr == end then some (s, page) else if page == null then none else rest

-- The group of the region without the pages that hold the descriptors, if the region holds them.
unfoldable pub reserve_region : ℕ → PageAllocator → Ptr → Option (Ptr × PageAllocator)
unfolding reserve_desc_pages split_group
reserve_region i a group =
    if i == a.desc_region_idx
    then (do
      (reserved, store) ← reserve_desc_pages a
      some (
        (split_group store group reserved).2,
        record a { desc_pages_count = reserved; store = (split_group store group reserved).0 },
      ))
    else some (group, a)

-- One round of the second loop of `init`: the next descriptor, and the state.
unfoldable pub init_region : ℕ → Ptr → PageAllocator → Option (Ptr × PageAllocator)
unfolding init_pages reserve_region add_group init_group
init_region i page a =
    let region = region_at a.regions_info i in
    let region' : RegionInfo = record region {
      first_page = page;
      last_page = last_page page region.page_count;
    } in
    do
      (store, next) ←
          init_pages (region.page_count + 1) region.aligned_start region.aligned_end a.page_size
            page a.store
      (group, a') ←
          reserve_region i
            (record a {
              regions_info = set a.regions_info i region';
              store = init_group store page region.page_count;
            })
            page
      some (next, if group == null then a' else add_group a' group)

unfoldable pub init_regions : ℕ → ℕ → Ptr → PageAllocator → Option PageAllocator
unfolding init_region
init_regions zero i page a = some a
init_regions (suc n) i page a = do (next, a') ← init_region i page a; init_regions n (i + 1) next a'

-- What `init` does with the regions that it has found.
unfoldable pub build : PageAllocator → ℕ → Option (Bool × PageAllocator)
unfolding count_pages choose_desc_region init_regions
build a page_size =
    let counted = record a { pages_count = count_pages a.regions_info } in
    let idx = choose_desc_region counted in
    let head = (region_at a.regions_info idx).aligned_start in
    if counted.pages_count == 0 then some (false, counted) else do
      a' ← init_regions a.valid_regions_count 0 head (record counted {
        page_size = page_size;
        desc_region_idx = idx;
        pages_head = head;
        pages_tail = last_page head counted.pages_count;
      })
      some (true, a')

-- `init(regions, pageSize)`: its result and the new state.
unfoldable pub init : PageAllocator → List Region → ℕ → Option (Bool × PageAllocator)
unfolding clear is_valid_page_size scan_regions build
init a regions page_size =
    if is_valid_page_size page_size
    then (do
      (fits, a') ← scan_regions 0 page_size regions (clear a)
      if fits then build a' page_size else some (false, a'))
    else some (false, clear a)
