-- ===== src/PageAllocator/Init/Found.antt =====
-- `getPage` finds the descriptors that `init` has laid out.
use mathlib.Core.Path.{subst}
use native.Mathlib.Decide.{ℕ_discrete as dec_eq}
use liballocator.Base.{
  ℕ, zero, suc, ◌+◌, ◌-◌, ◌^◌, ◌≤◌, ◌<◌, ◌≡◌, ◌≢◌, refl, sym, ap, ◌∙◌, inl, inr, true, Option, leb,
  ◌==◌, if◌then◌else◌, none, some, List, arith,
}
use liballocator.Word.{align_down}
use liballocator.Page.{page_at, next_sibling}
use liballocator.RegionInfo.{Region, RegionInfo}
use liballocator.PageAllocator.{PageAllocator, get_region}
use liballocator.PageAllocator.Regions.{Spans, FirstSpan}
use liballocator.PageAllocator.Query.{page_loop, get_page}
use liballocator.PageAllocator.Flip.{SameLayout}
use liballocator.PageAllocator.Live.{Live}
use liballocator.PageAllocator.History.{Reach}
use liballocator.PageAllocator.Kept.{Reach-SameLayout}
use liballocator.PageAllocator.Init.Sums.{page_sum-below}
use liballocator.PageAllocator.Init.Placed.{aligned, spans, first_span}
use liballocator.PageAllocator.Init.Scan.{usable, total_pages}
use liballocator.PageAllocator.Init.Establish.{init-Begun}
use liballocator.PageAllocator.Init.Apart.{separate}
use liballocator.Store.{Ptr, Store, null}
use liballocator.PageAllocator.Init.Safe.{memory_same}
use liballocator.Group.Sizes.{last_page-eq}
use liballocator.PageAllocator.Query.Pages.{get_page_lem}
use liballocator.PageAllocator.Init.{region_at, init}
use liballocator.PageAllocator.Init.Apart.{Separated}
use liballocator.PageAllocator.Init.Begun.{Begun}
use liballocator.PageAllocator.Init.Layout.{first_of, pages_of}
use liballocator.PageAllocator.Init.Memory.{memory_of, located, in_region, regions_apart}

module _ (k : ℕ) (h : k ≤ 63) (a : PageAllocator) (w : Begun (2 ^ k) a) (sep : Separated a) where
  module _ (r t d : ℕ) (lt : r < a.valid_regions_count) (less : t < pages_of a r)
      (inside : d < a.page_size)
      (alone : (j : ℕ)
        → j < a.valid_regions_count
        → (region_at a.regions_info j).aligned_end ≢ memory_of a (first_of a r + t)) where
    abbrev place : ℕ
    place = memory_of a (first_of a r + t)

    -- No other region spans the address.
    only : (j : ℕ) → j < a.valid_regions_count → Spans (region_at a.regions_info j) place → j ≡ r
    only j lj at =
        let (low, high) = in_region (2 ^ k) a w r t lt less in
        elim (dec_eq j r) [
          | yes e ↦ e
          | no ne ↦ elim (regions_apart (2 ^ k) a w sep j r lj lt ne) [
            | inl front ↦ absurd (alone j lj (omega (arith, at)))
            | inr back ↦ absurd (omega (arith, at, inside))
          ]
        ]

    search :
        (found : Option ℕ)
        → FirstSpan a.regions_info place 0 a.valid_regions_count found
        → found ≡ some r
    search none miss = absurd (miss r (omega arith) (omega arith) (spans k h a w r t lt less))
    search (some j) (low, high, at, before) = ap some (only j (omega arith) at)

    found_region : get_region a (align_down (place + d) a.page_size) ≡ some r
    found_region =
        ap (get_region a) (aligned k h a w r t lt less d inside)
        ∙ search (get_region a place) (first_span k h a w r t lt less)

    abbrev region : RegionInfo
    region = region_at a.regions_info r

    descriptor : (j : ℕ) → page_at region.first_page j ≡ page_at a.pages_head (first_of a r + j)
    descriptor j = omega (arith, w.layout.first r lt)

    in_front : page_at region.first_page t ≤ region.last_page
    in_front =
        let (bs, ls, v) = w.valid in
        let gap : a.valid_regions_count ≡ r + suc (a.valid_regions_count - r - 1) = omega arith in
        let below =
          page_sum-below (a.valid_regions_count - r - 1) a.valid_regions_count r a.regions_info
            gap in
        let last =
          last_page-eq (page_at a.pages_head (first_of a r)) (pages_of a r)
            (w.paged r lt).some_pages (omega (arith, below, w.sum, v.high)) in
        omega (arith, w.layout.first r lt, w.layout.last r lt, last, (w.paged r lt).some_pages)

    found_page : get_page a (place + d) ≡ some (page_at a.pages_head (first_of a r + t))
    found_page =
        get_page_lem a r t (place + d) found_region (omega arith) less in_front
          (λ j lj. ap a.store.address (descriptor j) ∙ w.layout.address r j lt lj)
          (aligned k h a w r t lt less d inside ∙ w.layout.address r t lt less)
        ∙ ap some (descriptor t)

  -- `getPage` of an address in a page.
  pub Begun-get_page :
      (i d : ℕ)
      → i < a.pages_count
      → d < a.page_size
      → ((j : ℕ)
          → j < a.valid_regions_count
          → (region_at a.regions_info j).aligned_end ≢ memory_of a i)
      → get_page a (memory_of a i + d) ≡ some (page_at a.pages_head i)
  Begun-get_page i d li inside =
      let (r, t, lr, lt, e) = located a a.valid_regions_count i (omega (arith, w.sum)) in
      subst
        (λ n.
          ((j : ℕ)
            → j < a.valid_regions_count
            → (region_at a.regions_info j).aligned_end ≢ memory_of a n)
          → get_page a (memory_of a n + d) ≡ some (page_at a.pages_head n))
        (sym e) (λ alone. found_page r t d lr lt inside alone)

page_loop-same :
    (fuel : ℕ) (s s' : Store) (page last : Ptr) (addr : ℕ)
    → s'.address ≡ s.address
    → page_loop fuel s' page last addr ≡ page_loop fuel s page last addr
unfolding page_loop
page_loop-same zero s s' page last addr e = refl
page_loop-same (suc fuel) s s' page last addr e =
    let rest = page_loop-same fuel s s' (next_sibling page) last addr e in
    λ t. if leb page last then if e t page == addr then some page else rest t else some null

-- What `getPage` answers once `getRegion` has.
page_of : PageAllocator → ℕ → Option ℕ → Option Ptr
page_of a addr none = some null
page_of a addr (some i) =
    let region = region_at a.regions_info i in
    page_loop (region.page_count + 1) a.store region.first_page region.last_page
      (align_down addr a.page_size)

get_page-eq :
    (a : PageAllocator) (addr : ℕ) (found : Option ℕ)
    → get_region a (align_down addr a.page_size) ≡ found
    → get_page a addr ≡ page_of a addr found
unfolding get_page page_of
get_page-eq a addr none e = rw (get_page, e) refl
get_page-eq a addr (some i) e = rw (get_page, e) refl

page_of-same :
    (a b : PageAllocator) (addr : ℕ) (found : Option ℕ)
    → SameLayout a b
    → page_of b addr found ≡ page_of a addr found
unfolding page_of
page_of-same a b addr none same = refl
page_of-same a b addr (some i) same =
    let region = region_at a.regions_info i in
    rw (same.page_size, same.regions)
      (page_loop-same (region.page_count + 1) a.store b.store region.first_page region.last_page
        (align_down addr a.page_size) same.address)

-- The calls of `allocate` and `release` do not matter to `getPage`.
SameLayout-get_page :
    (a b : PageAllocator) (addr : ℕ) → SameLayout a b → get_page b addr ≡ get_page a addr
unfolding get_region
SameLayout-get_page a b addr same =
    let found = get_region a (align_down addr a.page_size) in
    let agree : get_region b (align_down addr b.page_size) ≡ found =
      rw (same.page_size, same.regions, same.valid_regions) refl in
    get_page-eq b addr found agree
    ∙ (page_of-same a b addr found same ∙ sym (get_page-eq a addr found refl))

-- For a page size that is a word, and for regions that are usable, hold less than 2²¹ pages in all and
-- do not overlap: after an `init` that answers true, and whatever calls of `allocate` and `release` a
-- client makes that releases only what it was given and holds, `getPage` takes every address in a page
-- to the descriptor of the page, unless a region of the table ends where the page begins.
pub init-get_page :
    (a s b : PageAllocator) (regions : List Region) (page_size : ℕ) (live : Live) (i d : ℕ)
    → page_size < 2 ^ 64
    → usable regions ≡ true
    → total_pages regions page_size < 2 ^ 21
    → separate regions ≡ true
    → init a regions page_size ≡ some (true, s)
    → Reach s b live
    → i < b.pages_count
    → d < b.page_size
    → ((j : ℕ)
        → j < b.valid_regions_count
        → (region_at b.regions_info j).aligned_end ≢ memory_of b i)
    → get_page b (memory_of b i + d) ≡ some (page_at b.pages_head i)
init-get_page a s b regions page_size live i d small good few apart run reach li inside alone =
    let (begun, separated, (k, h, e)) = init-Begun a s regions page_size small good few run in
    let same = Reach-SameLayout s b live begun.valid reach in
    let there = memory_same s b same i in
    let region_of = λ (j : ℕ). ap (λ t. (region_at t j).aligned_end) same.regions in
    SameLayout-get_page s b (memory_of b i + d) same
    ∙ (ap (λ x. get_page s (x + d)) there
        ∙ (Begun-get_page k h s (subst (λ p. Begun p s) e begun) (separated apart) i d
              (omega (arith, same.count)) (omega (arith, same.page_size))
              (λ j lj x.
                alone j (omega (arith, same.valid_regions)) (region_of j ∙ (x ∙ sym there)))
            ∙ ap (λ x. some (page_at x i)) (sym same.head)))
