-- ===== src/PageAllocator/Init/Safe.antt =====
-- The memory behind the pages that a client holds after `init`.
use liballocator.Base.{ℕ, ◌*◌, ◌^◌, ◌≤◌, ◌<◌, ◌≡◌, ◌≢◌, inl, inr, true, some, List, arith}
use liballocator.Page.{page_at}
use liballocator.RegionInfo.{Region}
use liballocator.PageAllocator.{PageAllocator}
use liballocator.PageAllocator.Flip.{SameLayout}
use liballocator.PageAllocator.Live.{Live}
use liballocator.PageAllocator.History.{Reach}
use liballocator.PageAllocator.Runs.{InRun}
use liballocator.PageAllocator.Kept.{Reach-SameLayout, Reach-within, Reach-apart}
use liballocator.PageAllocator.Init.{init}
use liballocator.PageAllocator.Init.Apart.{separate}
use liballocator.PageAllocator.Init.Layout.{pages_of}
use liballocator.PageAllocator.Init.Memory.{
  memory_of, Disjoint, OffDescriptors, Begun-Disjoint, Begun-OffDescriptors,
}
use liballocator.PageAllocator.Init.Scan.{usable, total_pages}
use liballocator.PageAllocator.Init.Establish.{init-Begun}

module _ (s b : PageAllocator) (same : SameLayout s b) where
  pub memory_same : (i : ℕ) → memory_of b i ≡ memory_of s i
  memory_same i = λ t. same.address t (page_at (same.head t) i)

  SameLayout-Disjoint : (i j : ℕ) → Disjoint s i j → Disjoint b i j
  SameLayout-Disjoint i j d =
      let ei = memory_same i in
      let ej = memory_same j in
      elim d [
        | inl x ↦ inl (omega (arith, same.page_size))
        | inr y ↦ inr (omega (arith, same.page_size))
      ]

  SameLayout-OffDescriptors : (i : ℕ) → OffDescriptors s i → OffDescriptors b i
  SameLayout-OffDescriptors i d =
      let ei = memory_same i in
      elim d [
        | inl x ↦ inl (omega (arith, same.page_size, same.head))
        | inr y ↦ inr (omega (arith, same.count, same.head))
      ]

-- For a page size that is a word, and for regions that are usable, hold less than 2²¹ pages in all and
-- do not overlap: after an `init` that answers true, and whatever calls of `allocate` and `release` a
-- client makes that releases only what it was given and holds, no two pages of the runs that it holds
-- have a byte of memory in common.
pub init-Disjoint :
    (a s b : PageAllocator) (regions : List Region) (page_size : ℕ) (live : Live) (i j : ℕ)
    → page_size < 2 ^ 64
    → usable regions ≡ true
    → total_pages regions page_size < 2 ^ 21
    → separate regions ≡ true
    → init a regions page_size ≡ some (true, s)
    → Reach s b live
    → InRun i live
    → InRun j live
    → i ≢ j
    → Disjoint b i j
init-Disjoint a s b regions page_size live i j small good few apart run reach at there ne =
    let (begun, separated, power) = init-Begun a s regions page_size small good few run in
    let within = Reach-within s b live begun.valid reach in
    SameLayout-Disjoint s b (Reach-SameLayout s b live begun.valid reach) i j
      (Begun-Disjoint page_size s begun (separated apart) i j (within i at) (within j there) ne)

-- For a page size that is a word, and for regions that are usable, hold less than 2²¹ pages in all and
-- do not overlap: after an `init` that answers true and has chosen a region with room for all
-- descriptors, and whatever calls of `allocate` and `release` a client makes that releases only what
-- it was given and holds, no page of the runs that it holds has a byte of memory in common with the
-- descriptors.
pub init-OffDescriptors :
    (a s b : PageAllocator) (regions : List Region) (page_size : ℕ) (live : Live) (i : ℕ)
    → page_size < 2 ^ 64
    → usable regions ≡ true
    → total_pages regions page_size < 2 ^ 21
    → separate regions ≡ true
    → init a regions page_size ≡ some (true, s)
    → 32 * s.pages_count ≤ pages_of s s.desc_region_idx * s.page_size
    → Reach s b live
    → InRun i live
    → OffDescriptors b i
init-OffDescriptors a s b regions page_size live i small good few apart run room reach at =
    let (begun, separated, power) = init-Begun a s regions page_size small good few run in
    let lt = Reach-within s b live begun.valid reach i at in
    SameLayout-OffDescriptors s b (Reach-SameLayout s b live begun.valid reach) i (
      Begun-OffDescriptors page_size s begun (separated apart) i room lt λ used.
        elim (Reach-apart s b live begun.valid reach i i lt used at) [
          | inl x ↦ omega arith
          | inr y ↦ omega arith
        ])
