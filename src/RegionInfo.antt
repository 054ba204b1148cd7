-- ===== src/RegionInfo.antt =====
-- lib/include/allocator/Region.hpp, lib/RegionInfo.hpp and lib/RegionInfo.cpp: a region of physical
-- memory, and the whole pages in it.
pub mod Aligned
pub mod Ends
pub mod Contract
use liballocator.Base.{
  ℕ, ◌*◌, ◌/◌, ◌%◌, Bool, true, false, Option, none, some, ltb, ◌==◌, if◌then◌else◌,
}
use liballocator.Store.{Ptr, null}
use liballocator.Word.{word_mod, add, sub, align_down}

pub record Region : Type 0 where
  pub address : ℕ
  pub size : ℕ

pub record RegionInfo : Type 0 where
  pub start : ℕ
  pub end : ℕ
  pub aligned_start : ℕ
  pub aligned_end : ℕ
  pub page_count : ℕ
  pub size : ℕ
  pub aligned_size : ℕ
  pub first_page : Ptr
  pub last_page : Ptr

-- What `clearRegionInfo(regionInfo)` leaves.
abbrev pub clear_region_info : RegionInfo
clear_region_info = record {
  start = 0;
  end = 0;
  aligned_start = 0;
  aligned_end = 0;
  page_count = 0;
  size = 0;
  aligned_size = 0;
  first_page = null;
  last_page = null;
}

-- `detail::alignedStart(region, pageSize)`
unfoldable pub aligned_start : Region → ℕ → Option ℕ
aligned_start r page_size =
    let down = align_down r.address page_size in
    let start = if ltb down r.address then add down page_size else down in
    if ltb (add r.address r.size) start then none else some start

-- `detail::alignedEnd(region, pageSize)`
unfoldable pub aligned_end : Region → ℕ → Option ℕ
aligned_end r page_size =
    let end = align_down (add r.address r.size) page_size in
    if ltb end r.address then none else some end

-- The part of `initRegionInfo` behind its two assertions.
unfoldable pub count_region_pages : Region → ℕ → ℕ → ℕ → Bool × RegionInfo
count_region_pages r page_size start end =
    let pages = sub end start / page_size in
    let info : RegionInfo = record clear_region_info {
      start = r.address;
      end = add r.address r.size;
      aligned_start = start;
      aligned_end = end;
      page_count = pages;
    } in
    if pages == 0
    then (false, info)
    else (true, record info { size = r.size; aligned_size = pages * page_size % word_mod })

-- `initRegionInfo(regionInfo, region, pageSize)`: its result and the record that it fills; `none`
-- where an assertion fails.
unfoldable pub init_region_info : Region → ℕ → Option (Bool × RegionInfo)
unfolding aligned_start aligned_end count_region_pages
init_region_info r page_size =
    if ltb r.size page_size
    then some (false, clear_region_info)
    else elim (aligned_start r page_size) [
      | none ↦ none
      | some start ↦ elim (aligned_end r page_size) [
        | none ↦ none
        | some end ↦ some (count_region_pages r page_size start end)
      ]
    ]
