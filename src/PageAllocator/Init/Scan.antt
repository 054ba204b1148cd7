-- ===== src/PageAllocator/Init/Scan.antt =====
-- The first loop of `init`: the table of regions that it fills.
use native.Mathlib.Nat.{le-div_iff_mul-le, one-le-pow}
use liballocator.Base.{
  ℕ, suc, ◌+◌, ◌-◌, ◌*◌, ◌/◌, ◌^◌, ◌≤◌, ◌<◌, ◌≡◌, refl, sym, ap, ◌∙◌, inl, inr, Bool, true, false,
  ◌&&◌, some, List, [], ◌∷◌, arith, ltb, leb, ◌==◌, if◌then◌else◌, length, get_or-set,
  get_or-set_other, length-set, Bool-cases,
}
use native.Mathlib.Decide.{ℕ_discrete as dec_eq}
use liballocator.Store.{null}
use liballocator.RegionInfo.{Region, RegionInfo, clear_region_info, init_region_info}
use liballocator.RegionInfo.Aligned.{init_region_info_lem}
use liballocator.PageAllocator.{PageAllocator}
use liballocator.PageAllocator.Init.{region_at, push_region}
use liballocator.PageAllocator.Init.Settled.{IsPaged}

-- Up to the first empty region, which ends the list: none begins at the null pointer, and each ends
-- early enough for the descriptors behind it.
unfoldable pub usable : List Region → Bool
usable [] = true
usable (r ∷ rs) =
    if r.size == 0
    then true
    else (ltb 0 r.address && leb (r.address + r.size + 2 ^ 26) (2 ^ 64)) && usable rs

-- The number of pages that fit the sizes of the regions.
unfoldable pub total_pages : List Region → ℕ → ℕ
total_pages [] page_size = 0
total_pages (r ∷ rs) page_size = r.size / page_size + total_pages rs page_size

-- A region of the table: whole pages, behind the null pointer, with room for the descriptors.
pub record IsFound (page_size : ℕ) (r : RegionInfo) : Type 0 where
  pub paged : IsPaged page_size r
  pub low : 32 ≤ r.aligned_start
  pub room : r.aligned_start + 2 ^ 26 ≤ 2 ^ 64

module _ (r : Region) (k : ℕ) (h : k ≤ 63) (large : 128 ≤ 2 ^ k) (low : 0 < r.address)
    (room : r.address + r.size + 2 ^ 26 ≤ 2 ^ 64) where
  -- `initRegionInfo` of a usable region ends; if it answers true, the region goes into the table.
  pub init_region_info-IsFound :
      (done : Bool) × (info : RegionInfo) × (init_region_info r (2 ^ k) ≡ some (done, info))
      × (done ≡ true
          → IsFound (2 ^ k) info
            × (info.page_count ≤ r.size / 2 ^ k)
            × (r.address ≤ info.aligned_start)
            × (info.aligned_end ≤ r.address + r.size))
  unfolding init_region_info
  init_region_info-IsFound = elim (Bool-cases (ltb r.size (2 ^ k))) [
    | inl less ↦ (false, clear_region_info, rw less refl, λ e. ground arith)
    | inr enough ↦
        let (done, info, run, w, flag, sizes) =
          init_region_info_lem r k h (omega arith) (ground arith) in
        (
          done,
          info,
          run,
          λ e.
              let pages = flag.0 e in
              let (m, at) = w.start_multiple in
              (
                record {
                  paged = record {
                    some_pages = pages;
                    multiple = w.start_multiple;
                    end = sym w.pages;
                    small = omega (arith, w.end_high);
                  };
                  low = elim (dec_eq m 0) [
                    | yes none ↦ absurd (omega (arith, at, ap (λ t. t * 2 ^ k) none, w.start_low))
                    | no more ↦
                        let back : m ≡ suc (m - 1) = omega arith in
                        omega (arith, at, ap (λ t. t * 2 ^ k) back)
                  ];
                  room = omega (arith, w.pages, w.end_high);
                },
                (le-div_iff_mul-le (one-le-pow k 2 (omega arith))).1
                    (omega (arith, w.pages, w.start_low, w.end_high)),
                w.start_low,
                w.end_high,
              ),
        )
  ]

-- The regions found so far, the others cleared.
pub record Scanned (page_size : ℕ) (a : PageAllocator) : Type 0 where
  pub length : length a.regions_info ≡ 8
  pub fits : a.valid_regions_count ≤ 8
  pub found : (j : ℕ) → j < a.valid_regions_count → IsFound page_size (region_at a.regions_info j)
  pub cleared : (j : ℕ) → a.valid_regions_count ≤ j → region_at a.regions_info j ≡ clear_region_info
  pub lists : (i : ℕ) → a.free_group_lists i ≡ null
  pub free : a.free_pages_count ≡ 0

pub Scanned-push :
    (page_size : ℕ) (a : PageAllocator) (info : RegionInfo)
    → Scanned page_size a
    → a.valid_regions_count < 8
    → IsFound page_size info
    → Scanned page_size (push_region a info)
Scanned-push page_size a info w lt found = record {
  length = length-set a.regions_info a.valid_regions_count info ∙ w.length;
  fits = omega arith;
  found = λ j h. elim (dec_eq j a.valid_regions_count) [
    | yes e ↦
        rw
          (
            e,
            get_or-set a.regions_info a.valid_regions_count info clear_region_info
                (omega (arith, w.length)),
          )
          found
    | no ne ↦
        rw (get_or-set_other a.regions_info a.valid_regions_count j info clear_region_info ne)
          (w.found j (omega arith))
  ];
  cleared = λ j h.
      get_or-set_other a.regions_info a.valid_regions_count j info clear_region_info (omega arith)
      ∙ w.cleared j (omega arith);
  lists = w.lists;
  free = w.free;
}
