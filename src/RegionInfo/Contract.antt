-- ===== src/RegionInfo/Contract.antt =====
-- lib/RegionInfo.hpp: what the functions on regions promise their callers.
use liballocator.Base.{
  ℕ, ◌+◌, ◌^◌, ◌≤◌, ◌<◌, ◌≡◌, refl, Bool, true, false, Option, some, arith, ltb,
}
use liballocator.RegionInfo.{
  Region, RegionInfo, clear_region_info, init_region_info, aligned_start, aligned_end,
}
use liballocator.RegionInfo.Ends.{StartsAt, EndsAt, aligned_start_lem, aligned_end_lem}

-- The functions that the header declares. The record that the first two are given by reference is what
-- they return; an assertion that fails returns nothing.
pub record Functions : Type 0 where
  pub clear_region_info : RegionInfo
  pub init_region_info : Region → ℕ → Option (Bool × RegionInfo)
  pub aligned_start : Region → ℕ → Option ℕ
  pub aligned_end : Region → ℕ → Option ℕ

-- What they do for a page size that is a power of two: `initRegionInfo` leaves a cleared record for a
-- region below the page size, and for a region that ends a page before the end of the address space the
-- two functions of `detail` find the ends or return `std::nullopt`.
pub record IsRegions (f : Functions) : Type 0 where
  pub refuses :
      (r : Region) (k : ℕ)
      → r.size < 2 ^ k
      → f.init_region_info r (2 ^ k) ≡ some (false, f.clear_region_info)
  pub starts :
      (r : Region) (k : ℕ)
      → k ≤ 63
      → r.address + r.size + 2 ^ k ≤ 2 ^ 64
      → StartsAt r (2 ^ k) (f.aligned_start r (2 ^ k))
  pub ends :
      (r : Region) (k : ℕ)
      → k ≤ 63
      → r.address + r.size + 2 ^ k ≤ 2 ^ 64
      → EndsAt r (2 ^ k) (f.aligned_end r (2 ^ k))

refused :
    (r : Region) (k : ℕ)
    → r.size < 2 ^ k
    → init_region_info r (2 ^ k) ≡ some (false, clear_region_info)
unfolding init_region_info
refused r k small = let less : ltb r.size (2 ^ k) ≡ true = ground arith in rw less refl

-- The functions of lib/RegionInfo.cpp.
abbrev pub functions : Functions
functions = record {
  clear_region_info = clear_region_info;
  init_region_info = init_region_info;
  aligned_start = aligned_start;
  aligned_end = aligned_end;
}

-- For a page size that is a power of two, `initRegionInfo` returns false and leaves a cleared record for
-- a region below the page size. For one up to 2⁶³, and a region that ends a page at least before the end
-- of the address space, `alignedStart` returns the first multiple of the page size from the start of
-- the region on, and `alignedEnd` the last one up to its end, where the region has such a multiple, and
-- both return `std::nullopt` just where it has none.
pub promises_kept : IsRegions functions
promises_kept = record { refuses = refused; starts = aligned_start_lem; ends = aligned_end_lem }
