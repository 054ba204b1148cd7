-- ===== src/PageAllocator/Init/Start.antt =====
-- The first loop of `init` runs to its end, and the pages are counted.
use liballocator.Base.{
  ℕ, suc, ◌+◌, ◌^◌, ◌≤◌, ◌<◌, ◌≡◌, refl, ap, ◌∙◌, inl, inr, Bool, true, false, some, List, [], ◌∷◌,
  arith, ◌==◌, if◌then◌else◌, length, set, get_or-set, get_or-set_other, Bool-cases,
}
use liballocator.RegionInfo.{Region, RegionInfo, clear_region_info, init_region_info}
use liballocator.PageAllocator.{PageAllocator}
use liballocator.PageAllocator.Init.{region_at, push_region, scan_regions}
use liballocator.PageAllocator.Init.Sums.{page_sum, page_sum-same, page_sum-last}
use liballocator.PageAllocator.Init.Apart.{Separated, Apart, Apart-push, Apart-skip}
use liballocator.PageAllocator.Init.Scan.{
  usable, total_pages, init_region_info-IsFound, Scanned, Scanned-push,
}

page_sum-push :
    (a : PageAllocator) (info : RegionInfo)
    → a.valid_regions_count < length a.regions_info
    → page_sum (a.valid_regions_count + 1) 0 (push_region a info).regions_info
      ≡ page_sum a.valid_regions_count 0 a.regions_info + info.page_count
page_sum-push a info lt =
    let v = a.valid_regions_count in
    let next : v + 1 ≡ suc v = omega arith in
    let here : 0 + v ≡ v = omega arith in
    omega (
      arith,
      ap (λ n. page_sum n 0 (set a.regions_info v info)) next,
      page_sum-last v 0 (set a.regions_info v info),
      ap (λ j. (region_at (set a.regions_info v info) j).page_count) here,
      ap (λ r. r.page_count) (get_or-set a.regions_info v info clear_region_info lt),
      page_sum-same v 0 a.regions_info (set a.regions_info v info) (λ j h l.
          ap (λ r. r.page_count)
            (get_or-set_other a.regions_info v j info clear_region_info (omega arith))),
    )

module _ (k : ℕ) (h : k ≤ 63) (large : 128 ≤ 2 ^ k) where
  -- The loop from the region of index `i` on ends, with the pages of the regions that it has found.
  abbrev pub Scans : ℕ → List Region → PageAllocator → Type 0
  Scans i rs a =
      (fits : Bool) × (a' : PageAllocator) × (scan_regions i (2 ^ k) rs a ≡ some (fits, a'))
      × Scanned (2 ^ k) a'
      × (page_sum a'.valid_regions_count 0 a'.regions_info
          ≤ page_sum a.valid_regions_count 0 a.regions_info + total_pages rs (2 ^ k))
      × (Apart a rs → Separated a')

  scan_regions-next :
      (i : ℕ) (r : Region) (rs : List Region) (a : PageAllocator) (done : Bool) (info : RegionInfo)
      → (r.size == 0) ≡ false
      → (i == 8) ≡ false
      → init_region_info r (2 ^ k) ≡ some (done, info)
      → scan_regions i (2 ^ k) (r ∷ rs) a
        ≡ scan_regions (i + 1) (2 ^ k) rs (if done then push_region a info else a)
  unfolding scan_regions
  scan_regions-next i r rs a done info more less run = rw (more, less, run) refl

  pub scan_regions-Scans :
      (i : ℕ) (rs : List Region) (a : PageAllocator)
      → usable rs ≡ true
      → Scanned (2 ^ k) a
      → a.valid_regions_count ≤ i
      → i ≤ 8
      → Scans i rs a
  unfolding scan_regions usable total_pages
  scan_regions-Scans i [] a ok w le few = (true, a, refl, w, omega arith, λ t. t.table)
  scan_regions-Scans i (r ∷ rs) a ok w le few = elim (Bool-cases (r.size == 0)) [
    | inl end ↦ (true, a, rw end refl, w, omega arith, λ t. t.table)
    | inr more ↦ elim (Bool-cases (i == 8)) [
      | inl full ↦ (false, a, rw (more, full) refl, w, omega arith, λ t. t.table)
      | inr less ↦
          let (done, info, run, found) =
            init_region_info-IsFound r k h large (ground arith) (ground arith) in
          elim (Bool-cases done) [
            | inl into ↦
                let (good, pages, from, to) = found into in
                let b = push_region a info in
                let lt : a.valid_regions_count < 8 = ground arith in
                let (fits, a', runs, w', sum, apart) =
                  scan_regions-Scans (i + 1) rs b (ground arith)
                    (Scanned-push (2 ^ k) a info w lt good) (omega arith) (ground arith) in
                (
                  fits,
                  a',
                  scan_regions-next i r rs a done info more less run
                      ∙ (ap (λ t. scan_regions (i + 1) (2 ^ k) rs (if t then b else a)) into
                          ∙ runs),
                  w',
                  omega (arith, sum, pages, page_sum-push a info (omega (arith, w.length))),
                  λ t. apart (Apart-push a r rs t more info (omega (arith, w.length)) from to),
                )
            | inr skip ↦
                let (fits, a', runs, w', sum, apart) =
                  scan_regions-Scans (i + 1) rs a (ground arith) w (omega arith) (ground arith) in
                (
                  fits,
                  a',
                  scan_regions-next i r rs a done info more less run
                      ∙ (ap
                            (λ t.
                              scan_regions (i + 1) (2 ^ k) rs (if t then push_region a info else a))
                            skip
                          ∙ runs),
                  w',
                  omega (arith, sum),
                  λ t. apart (Apart-skip a r rs t more),
                )
          ]
    ]
  ]
