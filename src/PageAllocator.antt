-- ===== src/PageAllocator.antt =====
-- lib/PageAllocator.hpp and lib/PageAllocator.cpp: the state, the operations on groups, `allocate`,
-- `release` and `getPage`. A `RegionInfo*` is an index into the array of regions. A loop whose
-- number of rounds the text does not show takes fuel, and `none` means that the fuel ran out.
pub mod Blocks
pub mod Flags
pub mod Flip
pub mod Listed
pub mod Remove
pub mod Add
pub mod Split
pub mod Search
pub mod Taken
pub mod Take
pub mod Allocate
pub mod Absorb
pub mod Release
pub mod Live
pub mod Runs
pub mod Kept
pub mod Merged
pub mod History
pub mod Complete
pub mod Balance
pub mod Init
pub mod Query
pub mod Regions
pub mod Invariant
use liballocator.Base.{
  ℕ, zero, suc, ◌+◌, ◌-◌, Bool, true, false, not, ◌&&◌, ◌||◌, Option, none, some, List, ltb, leb,
  ◌==◌, if◌then◌else◌, get_or, update,
}
use liballocator.Store.{Ptr, null, Store}
use liballocator.Word.{add, sub, align_down}
use liballocator.Page.{page_at, page_back, next_sibling, prev_sibling, set_used}
use liballocator.ListNode.{add_to_list, remove_from_list}
use liballocator.Group.{group_idx, last_page, split_group, join_group}
use liballocator.RegionInfo.{RegionInfo, clear_region_info}

-- The members of the class, and the memory that its pointers lead to.
pub record PageAllocator : Type 0 where
  pub regions_info : List RegionInfo
  pub valid_regions_count : ℕ
  pub page_size : ℕ
  pub desc_region_idx : ℕ
  pub desc_pages_count : ℕ
  pub pages_head : Ptr
  pub pages_tail : Ptr
  pub free_group_lists : ℕ → Ptr
  pub pages_count : ℕ
  pub free_pages_count : ℕ
  pub store : Store

-- The number of entries of `m_freeGroupLists`.
abbrev pub max_group_idx : ℕ
max_group_idx = 20

-- `page->setUsed(value)` for the `n` pages from `group + i` on
unfoldable pub set_used_loop : ℕ → Store → Ptr → ℕ → Bool → Store
unfolding set_used
set_used_loop zero s group i value = s
set_used_loop (suc n) s group i value =
    set_used_loop n (set_used s (page_at group i) value) group (i + 1) value

-- `addGroup(group)`
unfoldable pub add_group : PageAllocator → Ptr → PageAllocator
add_group a group =
    let size = a.store.group_size group in
    let idx = group_idx size in
    let (links, head) = add_to_list a.store.links group (a.free_group_lists idx) in
    record a {
      free_group_lists = update a.free_group_lists idx head;
      free_pages_count = add a.free_pages_count size;
      store = set_used_loop size (record (a.store) { links = links }) group 0 false;
    }

-- `removeGroup(group)`
unfoldable pub remove_group : PageAllocator → Ptr → PageAllocator
remove_group a group =
    let size = a.store.group_size group in
    let idx = group_idx size in
    let (links, head) = remove_from_list a.store.links group (a.free_group_lists idx) in
    record a {
      free_group_lists = update a.free_group_lists idx head;
      free_pages_count = sub a.free_pages_count size;
      store = set_used_loop size (record (a.store) { links = links }) group 0 true;
    }

-- The first group of a list with `count` pages at least; null if there is none.
unfoldable pub find_in_list : ℕ → Store → Ptr → ℕ → Option Ptr
find_in_list zero s group count = none
find_in_list (suc fuel) s group count =
    let rest = find_in_list fuel s (s.links.next group) count in
    if group == null then some null else if ltb (s.group_size group) count then rest else some group

-- The same over the lists from index `i` on.
unfoldable pub find_group : ℕ → ℕ → ℕ → PageAllocator → ℕ → Option Ptr
find_group zero fuel i a count = some null
find_group (suc rounds) fuel i a count =
    let rest = find_group rounds fuel (i + 1) a count in
    elim (find_in_list fuel a.store (a.free_group_lists i) count) [
      | none ↦ none
      | some group ↦ if group == null then rest else some group
    ]

-- What `allocate` does with the group that it found.
unfoldable pub take_group : PageAllocator → Ptr → ℕ → PageAllocator
take_group a group count =
    let removed = remove_group a group in
    let (store, allocated, remaining) = split_group removed.store group count in
    let split = record removed { store = store } in
    if remaining == null then split else add_group split remaining

-- `allocate(count)`: the group, or null, and the new state. A list has no more groups than there are
-- pages, so `pages_count + 1` rounds are enough for each.
unfoldable pub allocate : PageAllocator → ℕ → Option (Ptr × PageAllocator)
allocate a count =
    if ltb a.free_pages_count count || count == 0
    then some (null, a)
    else let idx = group_idx count in
      elim (find_group (max_group_idx - idx) (a.pages_count + 1) idx a count) [
        | none ↦ none
        | some group ↦ some (if group == null then (null, a) else (group, take_group a group count))
      ]

-- `isValidPage(page)`
unfoldable pub is_valid_page : PageAllocator → Ptr → Bool
is_valid_page a page = leb a.pages_head page && leb page a.pages_tail

-- The loop of `getRegion` over the entries from `i` on, `n` of them.
unfoldable pub region_loop : ℕ → ℕ → List RegionInfo → ℕ → Option ℕ
region_loop zero i regions addr = none
region_loop (suc n) i regions addr =
    let region = get_or regions i clear_region_info in
    let rest = region_loop n (i + 1) regions addr in
    if leb region.aligned_start addr && leb addr region.aligned_end then some i else rest

-- `getRegion(addr)`
unfoldable pub get_region : PageAllocator → ℕ → Option ℕ
get_region a addr = region_loop a.valid_regions_count 0 a.regions_info (align_down addr a.page_size)

-- `==` on `RegionInfo*`
abbrev pub same_region : Option ℕ → Option ℕ → Bool
same_region none none = true
same_region none (some j) = false
same_region (some i) none = false
same_region (some i) (some j) = i == j

-- The three conditions under which `release` joins the page `other` to the group of `page`.
unfoldable pub joinable : PageAllocator → Ptr → Ptr → Bool
joinable a page other =
    is_valid_page a other
    && same_region (get_region a (a.store.address page)) (get_region a (a.store.address other))
    && not (a.store.used other)

-- `firstAbove`, from `lastAbove`
abbrev pub first_above : PageAllocator → Ptr → Ptr
first_above a last = page_at (page_back last (a.store.group_size last)) 1

-- `removeGroup(...)` and `joinGroup(first, second)`, where `removed` is one of the two
unfoldable pub absorb : PageAllocator → Ptr → Ptr → Ptr → PageAllocator
absorb a removed first second =
    let a' = remove_group a removed in record a' { store = join_group a'.store first second }

-- The first loop of `release`: the joined group, and the state.
unfoldable pub join_above : ℕ → PageAllocator → Ptr → Option (Ptr × PageAllocator)
join_above zero a group = none
join_above (suc fuel) a group =
    let last = prev_sibling group in
    let first = first_above a last in
    let rest = join_above fuel (absorb a first first group) first in
    if joinable a group last then rest else some (group, a)

-- The second loop of `release`; the joined group keeps its first page.
unfoldable pub join_below : ℕ → PageAllocator → Ptr → Option PageAllocator
join_below zero a group = none
join_below (suc fuel) a group =
    let last = last_page group (a.store.group_size group) in
    let below = next_sibling last in
    let rest = join_below fuel (absorb a below group below) group in
    if joinable a last below then rest else some a

-- `release(pages)`. Each round of a loop joins two groups into one, so `pages_count + 1` rounds are
-- enough.
unfoldable pub release : PageAllocator → Ptr → Option PageAllocator
release a pages = if pages == null then some a else elim (join_above (a.pages_count + 1) a pages) [
  | none ↦ none
  | some (group, above) ↦ elim (join_below (a.pages_count + 1) above group) [
    | none ↦ none
    | some below ↦ some (add_group below group)
  ]
]
