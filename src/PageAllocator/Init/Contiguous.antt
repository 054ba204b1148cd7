-- ===== src/PageAllocator/Init/Contiguous.antt =====
-- The memory of a run of pages is contiguous.
use native.Mathlib.Decide.{dec_lt, ℕ_discrete as dec_eq}
use native.Mathlib.Nat.{one-le-pow}
use liballocator.Base.{
  ℕ, zero, suc, ◌+◌, ◌-◌, ◌*◌, ◌^◌, ◌≤◌, ◌<◌, ◌≡◌, sym, ap, ◌∙◌, inl, inr, true, Option, none, some,
  List, arith,
}
use mathlib.Core.Path.{subst}
use liballocator.RegionInfo.{Region}
use liballocator.PageAllocator.{PageAllocator, get_region}
use liballocator.PageAllocator.Regions.{FirstSpan}
use liballocator.PageAllocator.Blocks.Seams.{Seam}
use liballocator.PageAllocator.Release.Bridges.{Bridge}
use liballocator.PageAllocator.Live.{Live}
use liballocator.PageAllocator.History.{Reach}
use liballocator.PageAllocator.Runs.{IsRun, IsRun-InRun}
use liballocator.PageAllocator.Kept.{Reach-SameLayout, Reach-within, Reach-seams}
use liballocator.PageAllocator.Init.{region_at, init}
use liballocator.PageAllocator.Init.Apart.{separate, Separated}
use liballocator.PageAllocator.Init.Begun.{Begun}
use liballocator.PageAllocator.Init.Layout.{first_of, pages_of}
use liballocator.PageAllocator.Init.Sums.{page_sum-last}
use liballocator.PageAllocator.Init.Memory.{memory_of, located, in_region, regions_apart}
use liballocator.PageAllocator.Init.Placed.{spans, first_span}
use liballocator.PageAllocator.Init.Scan.{usable, total_pages}
use liballocator.PageAllocator.Init.Establish.{init-Begun}
use liballocator.PageAllocator.Init.Safe.{memory_same}

-- The next page lies right behind the page.
abbrev Adjacent : PageAllocator → ℕ → Type 0
Adjacent a n = memory_of a (suc n) ≡ memory_of a n + a.page_size

module _ (k : ℕ) (h : k ≤ 63) (a : PageAllocator) (w : Begun (2 ^ k) a) (sep : Separated a) where
  -- Two pages of one region.
  Adjacent-inside :
      (r t : ℕ) → r < a.valid_regions_count → suc t < pages_of a r → Adjacent a (first_of a r + t)
  Adjacent-inside r t lt less =
      let next : suc (first_of a r + t) ≡ first_of a r + suc t = omega arith in
      omega (
        arith,
        ap (memory_of a) next,
        w.layout.address r t lt (omega arith),
        w.layout.address r (suc t) lt less,
      )

  -- The last page of a region and the first one of the next, if `getRegion` finds them in the same one.
  module _ (r t : ℕ) (lt : suc r < a.valid_regions_count) (last : suc t ≡ pages_of a r)
      (some_pages : 0 < pages_of a (suc r)) where
    abbrev here : ℕ
    here = memory_of a (first_of a r + t)

    abbrev there : ℕ
    there = memory_of a (first_of a (suc r) + 0)

    across :
        (found : Option ℕ)
        → FirstSpan a.regions_info here 0 a.valid_regions_count found
        → FirstSpan a.regions_info there 0 a.valid_regions_count found
        → there ≡ here + a.page_size
    across none miss _ =
        absurd (miss r (omega arith) (omega arith) (spans k h a w r t (omega arith) (omega arith)))
    across (some j) (low, high, at, before) (_, _, at', _) =
        let (low_r, high_r) = in_region (2 ^ k) a w r t (omega arith) (omega arith) in
        let (low_s, high_s) = in_region (2 ^ k) a w (suc r) 0 lt some_pages in
        let apart = regions_apart (2 ^ k) a w sep r (suc r) (omega arith) lt (omega arith) in
        let at_end : here + a.page_size ≡ (region_at a.regions_info r).aligned_end = omega (
          arith,
          w.layout.address r t (omega arith) (omega arith),
          (w.paged r (omega arith)).end,
          ap (λ n. n * a.page_size) last,
        ) in
        let at_start : there ≡ (region_at a.regions_info (suc r)).aligned_start =
          omega (arith, w.layout.address (suc r) 0 lt some_pages) in
        let pos : 0 < a.page_size = omega (arith, w.size, one-le-pow k 2 (omega arith)) in
        elim (dec_eq j r) [
          | yes e ↦
              let low_e = ap (λ i. (region_at a.regions_info i).aligned_start) e in
              let high_e = ap (λ i. (region_at a.regions_info i).aligned_end) e in
              elim apart [
                | inl front ↦ omega (arith, at'.1)
                | inr back ↦ absurd (omega (arith, at'.0))
              ]
          | no other ↦ elim (dec_eq j (suc r)) [
            | yes e ↦ absurd (
                before r (omega arith) (omega arith)
                  (spans k h a w r t (omega arith) (omega arith)))
            | no third ↦
                elim (regions_apart (2 ^ k) a w sep j r (omega arith) (omega arith) other) [
                  | inr back ↦ absurd (omega (arith, at.0))
                  | inl front ↦
                      elim (regions_apart (2 ^ k) a w sep j (suc r) (omega arith) lt third) [
                        | inr back' ↦ absurd (omega (arith, at'.0))
                        | inl front' ↦ elim apart [
                          | inl f ↦ absurd (omega (arith, at.1, at'.1))
                          | inr b ↦ absurd (omega (arith, at.1, at'.1))
                        ]
                      ]
                ]
          ]
        ]

    Adjacent-across : Bridge a a.pages_head (first_of a r + t) → Adjacent a (first_of a r + t)
    Adjacent-across bridge =
        let next : suc (first_of a r + t) ≡ first_of a (suc r) + 0 = omega (
          arith,
          page_sum-last r 0 a.regions_info,
          (let front : 0 + r ≡ r = omega arith in ap (pages_of a) front),
        ) in
        let found = get_region a here in
        let same : found ≡ get_region a there =
          bridge ∙ ap (λ n. get_region a (memory_of a n)) next in
        ap (memory_of a) next
        ∙ across found (first_span k h a w r t (omega arith) (omega arith)) (
            subst (FirstSpan a.regions_info there 0 a.valid_regions_count) (sym same)
              (first_span k h a w (suc r) 0 lt some_pages))

  -- Where `release` may join two groups, their memory is adjacent.
  pub Bridge-Adjacent : (n : ℕ) → suc n < a.pages_count → Bridge a a.pages_head n → Adjacent a n
  Bridge-Adjacent n less bridge =
      let (r, t, lr, lt, e) = located a a.valid_regions_count n (omega (arith, w.sum)) in
      let front : 0 + r ≡ r = omega arith in
      let after =
        (page_sum-last r 0 a.regions_info ∙ ap (λ j. first_of a r + pages_of a j) front) in
      subst (λ m. Bridge a a.pages_head m → Adjacent a m) (sym e)
        (λ b. elim (dec_lt (suc t) (pages_of a r)) [
          | yes inside ↦ Adjacent-inside r t lr inside
          | no end ↦
              let more : suc r < a.valid_regions_count =
                elim (dec_eq (suc r) a.valid_regions_count) [
                  | yes all ↦ absurd (omega (arith, w.sum, ap (first_of a) all, after))
                  | no ne ↦ omega arith
                ] in
              Adjacent-across r t more (omega arith) (w.paged (suc r) more).some_pages b
        ])
        bridge

  -- So it is inside a group.
  pub Seam-Adjacent : (n : ℕ) → Seam a.pages_head w.valid.0 n → Adjacent a n
  Seam-Adjacent n seam =
      let (j, lt, low, high) = w.regional n seam in
      let place : n ≡ first_of a j + (n - first_of a j) = omega arith in
      subst (Adjacent a) (sym place) (Adjacent-inside j (n - first_of a j) lt (omega arith))

  module _ (b : PageAllocator) (live : Live) (reach : Reach a b live) (j n : ℕ)
      (run : IsRun j n live) where
    run_Adjacent : (i : ℕ) → suc i < n → Adjacent a (j + i)
    run_Adjacent i less = elim (Reach-seams a b live w.valid reach j n i run less) [
      | inl seam ↦ Seam-Adjacent (j + i) seam
      | inr bridge ↦
          let next : j + suc i ≡ suc (j + i) = omega arith in
          let inside =
            Reach-within a b live w.valid reach (j + suc i)
              (IsRun-InRun j n (suc i) live run less) in
          Bridge-Adjacent (j + i) (omega arith) bridge
    ]

    -- The pages of a run lie one behind the other.
    pub run_address : (i : ℕ) → i < n → memory_of a (j + i) ≡ memory_of a j + i * a.page_size
    run_address zero less =
        let start : j + 0 ≡ j = omega arith in omega (arith, ap (memory_of a) start)
    run_address (suc i) less =
        let next : j + suc i ≡ suc (j + i) = omega arith in
        omega (arith, ap (memory_of a) next, run_Adjacent i less, run_address i (omega arith))

-- For a page size that is a word, and for regions that are usable, hold less than 2²¹ pages in all and
-- do not overlap: after an `init` that answers true, and whatever calls of `allocate` and `release` a
-- client makes that releases only what it was given and holds, the pages of each run that it holds lie
-- one behind the other in the memory.
pub init-contiguous :
    (a s b : PageAllocator) (regions : List Region) (page_size : ℕ) (live : Live) (j n i : ℕ)
    → page_size < 2 ^ 64
    → usable regions ≡ true
    → total_pages regions page_size < 2 ^ 21
    → separate regions ≡ true
    → init a regions page_size ≡ some (true, s)
    → Reach s b live
    → IsRun j n live
    → i < n
    → memory_of b (j + i) ≡ memory_of b j + i * b.page_size
init-contiguous a s b regions page_size live j n i small good few apart init_run reach run less =
    let (begun, separated, (k, h, e)) = init-Begun a s regions page_size small good few init_run in
    let same = Reach-SameLayout s b live begun.valid reach in
    let address =
      run_address k h s (subst (λ p. Begun p s) e begun) (separated apart) b live reach j n run i
        less in
    omega (
      arith,
      address,
      memory_same s b same (j + i),
      memory_same s b same j,
      ap (λ p. i * p) same.page_size,
    )
