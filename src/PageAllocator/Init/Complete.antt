-- ===== src/PageAllocator/Init/Complete.antt =====
-- After `init`, `PageAllocator::allocate` finds every run of free pages of a region.
use native.Mathlib.Decide.{ℕ_discrete as dec_eq}
use native.Mathlib.Nat.{one-le-pow}
use mathlib.Core.Path.{subst}
use mathlib.Core.Option.{some-injective}
use liballocator.Base.{
  ℕ, suc, ◌+◌, ◌-◌, ◌^◌, ◌≤◌, ◌<◌, ◌≡◌, ◌≢◌, sym, ap, ◌∙◌, inl, inr, true, false, Option, none,
  some, List, arith,
}
use liballocator.RegionInfo.{Region}
use liballocator.Page.{page_at}
use liballocator.PageAllocator.{PageAllocator, get_region, allocate}
use liballocator.PageAllocator.Taken.{Taken, page_used}
use liballocator.PageAllocator.Merged.{Merged}
use liballocator.PageAllocator.Complete.{FreeRun, Reach-allocate}
use liballocator.PageAllocator.Regions.{FirstSpan}
use liballocator.PageAllocator.Flip.{SameLayout}
use liballocator.PageAllocator.Blocks.Together.{Together, Together-Seam}
use liballocator.PageAllocator.Release.Bridges.{Bridge, Bridge-SameLayout_after}
use liballocator.PageAllocator.Live.{Live}
use liballocator.PageAllocator.History.{Reach}
use liballocator.PageAllocator.Kept.{Reach-SameLayout}
use liballocator.PageAllocator.Init.{region_at, init}
use liballocator.PageAllocator.Init.Apart.{separate, Separated}
use liballocator.PageAllocator.Init.Begun.{Begun}
use liballocator.PageAllocator.Init.Layout.{first_of, pages_of}
use liballocator.PageAllocator.Init.Sums.{page_sum-below}
use liballocator.PageAllocator.Init.Memory.{memory_of, located, in_region, regions_apart}
use liballocator.PageAllocator.Init.Placed.{spans, first_span}
use liballocator.PageAllocator.Init.Scan.{usable, total_pages}
use liballocator.PageAllocator.Init.Establish.{init-Begun}

-- No valid region of the table ends where another one starts.
abbrev pub Gapped : PageAllocator → Type 0
Gapped a =
    (j r : ℕ)
    → j < a.valid_regions_count
    → r < a.valid_regions_count
    → (region_at a.regions_info j).aligned_end ≢ (region_at a.regions_info r).aligned_start

module _ (k : ℕ) (h : k ≤ 63) (a : PageAllocator) (w : Begun (2 ^ k) a) (sep : Separated a)
    (gaps : Gapped a) where
  -- `getRegion` finds a page in the region that it belongs to.
  module _ (r t : ℕ) (lt : r < a.valid_regions_count) (less : t < pages_of a r) where
    abbrev here : ℕ
    here = memory_of a (first_of a r + t)

    only :
        (found : Option ℕ)
        → FirstSpan a.regions_info here 0 a.valid_regions_count found
        → found ≡ some r
    only none miss = absurd (miss r (omega arith) (omega arith) (spans k h a w r t lt less))
    only (some j) (_, in_range, at, _) = elim (dec_eq j r) [
      | yes e ↦ ap (λ i. some i) e
      | no other ↦
          let (low, high) = in_region (2 ^ k) a w r t lt less in
          elim (regions_apart (2 ^ k) a w sep j r (omega arith) lt other) [
            | inl front ↦ absurd (gaps j r (omega arith) lt (omega (arith, at.1)))
            | inr back ↦ absurd (omega (arith, at.0, some_bytes))
          ]
    ]
      where
        some_bytes : 0 < a.page_size
        some_bytes = omega (arith, w.size, one-le-pow k 2 (omega arith))

    found_here : get_region a here ≡ some r
    found_here = only (get_region a here) (first_span k h a w r t lt less)

  -- Two neighbours that are found in the same region belong to it.
  Bridge-region :
      (n : ℕ)
      → suc n < a.pages_count
      → Bridge a a.pages_head n
      → (r : ℕ) × (t : ℕ) × (r < a.valid_regions_count)
        × (suc t < pages_of a r)
        × (n ≡ first_of a r + t)
  Bridge-region n less bridge =
      let (r, t, lr, lt, e) = located a a.valid_regions_count n (omega (arith, w.sum)) in
      let (r', t', lr', lt', e') = located a a.valid_regions_count (suc n) (omega (arith, w.sum)) in
      let here = ap (λ i. get_region a (memory_of a i)) e ∙ found_here r t lr lt in
      let there = ap (λ i. get_region a (memory_of a i)) e' ∙ found_here r' t' lr' lt' in
      let same : r ≡ r' = some-injective _ _ (sym here ∙ (bridge ∙ there)) in
      (r, t, lr, omega (arith, ap (first_of a) same, ap (pages_of a) same), e)

  -- So the free groups are as large as they can be.
  pub Begun-Merged : Merged a w.valid.0
  Begun-Merged n less free free' bridge =
      let (r, t, lr, lt, e) = Bridge-region n less bridge in
      let (bs, ls, v) = w.valid in
      Together-Seam a.store a.pages_head (page_at a.pages_head a.pages_count) bs n v.tiles free
        (subst (λ m. Together a.pages_head bs m) (sym e) (w.filled r t lr lt))

  -- Neighbours in a region are found in the same one.
  pub region-Bridge :
      (r t : ℕ)
      → r < a.valid_regions_count
      → suc t < pages_of a r
      → Bridge a a.pages_head (first_of a r + t)
  region-Bridge r t lr lt =
      let next : first_of a r + suc t ≡ suc (first_of a r + t) = omega arith in
      found_here r t lr (omega arith)
      ∙ sym (sym (ap (λ i. get_region a (memory_of a i)) next) ∙ found_here r (suc t) lr lt)

-- The `n` pages from index `j` on belong to the region of index `r` and are free.
pub record FreeIn (a : PageAllocator) (r j n : ℕ) : Type 0 where
  pub valid : r < a.valid_regions_count
  pub low : first_of a r ≤ j
  pub high : j + n ≤ first_of a r + pages_of a r
  pub free : (i : ℕ) → i < n → page_used a (j + i) ≡ false

-- They are a run in the sense of `getRegion`.
module _ (k : ℕ) (h : k ≤ 63) (s b : PageAllocator) (w : Begun (2 ^ k) s) (sep : Separated s)
    (gaps : Gapped s) (same : SameLayout s b) (r j n : ℕ) (run : FreeIn b r j n) where
  first_before : first_of b r ≡ first_of s r
  first_before = ap (λ rs. first_of (record s { regions_info = rs }) r) same.regions

  pages_before : pages_of b r ≡ pages_of s r
  pages_before = ap (λ rs. pages_of (record s { regions_info = rs }) r) same.regions

  pub FreeIn-FreeRun : FreeRun b j n
  FreeIn-FreeRun =
      let lt : r < s.valid_regions_count = omega (arith, run.valid, same.valid_regions) in
      let gap : s.valid_regions_count ≡ r + suc (s.valid_regions_count - r - 1) = omega arith in
      let all =
        page_sum-below (s.valid_regions_count - r - 1) s.valid_regions_count r s.regions_info gap in
      record {
        within = omega (arith, run.high, first_before, pages_before, all, w.sum, same.count);
        free = run.free;
        region = λ i less.
            let place : j + i ≡ first_of s r + (j + i - first_of s r) =
              omega (arith, run.low, first_before) in
            let bridge =
              region-Bridge k h s w sep gaps r (j + i - first_of s r) lt
                (omega (arith, run.low, run.high, first_before, pages_before)) in
            subst (λ p. Bridge b p (j + i)) (sym same.head)
              (Bridge-SameLayout_after s b s.pages_head (j + i) same
                (subst (Bridge s s.pages_head) (sym place) bridge));
      }

-- For a page size that is a word, and for regions that are usable, hold less than 2²¹ pages in all and
-- do not overlap: after an `init` that answers true, if no valid region of the table ends where another
-- one starts, and whatever calls of `allocate` and `release` a client makes that releases only what it
-- was given and holds, `allocate` of `n` pages, of one at least, succeeds with pages that were free
-- whenever some region has `n` consecutive free pages.
pub init-allocate :
    (a s b : PageAllocator) (regions : List Region) (page_size : ℕ) (live : Live) (r j n : ℕ)
    → page_size < 2 ^ 64
    → usable regions ≡ true
    → total_pages regions page_size < 2 ^ 21
    → separate regions ≡ true
    → init a regions page_size ≡ some (true, s)
    → Gapped s
    → Reach s b live
    → 0 < n
    → FreeIn b r j n
    → (i : ℕ) × (b' : PageAllocator) × (allocate b n ≡ some (page_at b.pages_head i, b'))
      × Taken b b' i n
init-allocate a s b regions page_size live r j n small good few apart init_run gaps reach pos run =
    let (begun, separated, (k, h, e)) = init-Begun a s regions page_size small good few init_run in
    let w = subst (λ p. Begun p s) e begun in
    let same = Reach-SameLayout s b live w.valid reach in
    Reach-allocate s b live j n (w.valid, Begun-Merged k h s w (separated apart) gaps) reach pos
      (FreeIn-FreeRun k h s b w (separated apart) gaps same r j n run)
