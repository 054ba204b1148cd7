-- ===== src/PageAllocator/Regions.antt =====
-- `PageAllocator::getRegion` and `PageAllocator::chooseDescRegion`.
use liballocator.Base.{
  ℕ, zero, suc, ◌+◌, ◌*◌, ◌%◌, ◌≤◌, ◌<◌, ◌≡◌, ◌≢◌, refl, ap, inl, inr, Option, none, some, List,
  leb, ltb, ◌&&◌, if◌then◌else◌, Bool-cases, arith,
}
use mathlib.Core.Path.{subst}
use native.Mathlib.Decide.{ℕ_discrete as dec_eq}
use liballocator.Word.{word_mod, align_down}
use liballocator.Page.{page_bytes}
use liballocator.RegionInfo.{RegionInfo}
use liballocator.PageAllocator.{PageAllocator, region_loop, get_region}
use liballocator.PageAllocator.Init.{region_at, choose_loop, choose_desc_region}

-- The address lies in the region, or at its end.
abbrev pub Spans : RegionInfo → ℕ → Type 0
Spans r addr = (r.aligned_start ≤ addr) × (addr ≤ r.aligned_end)

-- The search from index `i` up to `i + n` finds the first region that spans the address.
abbrev pub FirstSpan : List RegionInfo → ℕ → ℕ → ℕ → Option ℕ → Type 0
FirstSpan regions addr i n none = (j : ℕ) → i ≤ j → j < i + n → Spans (region_at regions j) addr → ⊥
FirstSpan regions addr i n (some k) =
    (i ≤ k)
    × (k < i + n)
    × Spans (region_at regions k) addr
    × ((j : ℕ) → i ≤ j → j < k → Spans (region_at regions j) addr → ⊥)

region_loop-step :
    (regions : List RegionInfo) (addr i n : ℕ) (r : Option ℕ)
    → (Spans (region_at regions i) addr → ⊥)
    → FirstSpan regions addr (i + 1) n r
    → FirstSpan regions addr i (suc n) r
region_loop-step regions addr i n none miss rest = λ j h k at. elim (dec_eq i j) [
  | yes e ↦ miss (
      ground (
        arith,
        ap (λ t. (region_at regions t).aligned_start) e,
        ap (λ t. (region_at regions t).aligned_end) e,
      ))
  | no other ↦ rest j (omega arith) (omega arith) at
]
region_loop-step regions addr i n (some k) miss (a, b, c, d) = (
  omega arith,
  omega arith,
  c,
  λ j h lt at. elim (dec_eq i j) [
    | yes e ↦ miss (
        ground (
          arith,
          ap (λ t. (region_at regions t).aligned_start) e,
          ap (λ t. (region_at regions t).aligned_end) e,
        ))
    | no other ↦ d j (omega arith) lt at
  ],
)

region_loop-FirstSpan :
    (n i : ℕ) (regions : List RegionInfo) (addr : ℕ)
    → FirstSpan regions addr i n (region_loop n i regions addr)
unfolding region_loop
region_loop-FirstSpan zero i regions addr = λ j h k _. absurd (omega arith)
region_loop-FirstSpan (suc n) i regions addr =
    let r = region_at regions i in
    elim (Bool-cases (leb r.aligned_start addr && leb addr r.aligned_end)) [
      | inl hit ↦ rw hit (omega arith, omega arith, ground arith, λ j h k _. absurd (omega arith))
      | inr miss ↦ rw miss (
          region_loop-step regions addr i n (region_loop n (i + 1) regions addr)
            (λ at. ground arith) (region_loop-FirstSpan n (i + 1) regions addr))
    ]

-- `getRegion` returns the first of the valid regions whose range, both of its ends included, holds
-- the page-aligned address, and null if there is none.
pub get_region-FirstSpan :
    (a : PageAllocator) (addr : ℕ)
    → FirstSpan a.regions_info
        (align_down addr a.page_size)
        0
        a.valid_regions_count
        (get_region a addr)
unfolding get_region
get_region-FirstSpan a addr =
    region_loop-FirstSpan a.valid_regions_count 0 a.regions_info (align_down addr a.page_size)

-- Where a valid region ends at the start of a later one, `getRegion` does not find the first page of
-- the later region to be in it.
pub get_region-ne_adjacent :
    (a : PageAllocator) (i j addr : ℕ)
    → i < j
    → j < a.valid_regions_count
    → align_down addr a.page_size ≡ (region_at a.regions_info j).aligned_start
    → (region_at a.regions_info i).aligned_end ≡ (region_at a.regions_info j).aligned_start
    → (region_at a.regions_info i).aligned_start ≤ (region_at a.regions_info i).aligned_end
    → get_region a addr ≢ some j
get_region-ne_adjacent a i j addr lt valid e adjacent ordered found =
    let spec =
      subst (FirstSpan a.regions_info (align_down addr a.page_size) 0 a.valid_regions_count) found
        (get_region-FirstSpan a addr) in
    spec.3 i (omega arith) lt (omega arith, omega arith)

choose_loop-lt :
    (n i selected area b : ℕ) (rs : List RegionInfo)
    → selected < b
    → i + n ≤ b
    → choose_loop n i selected area rs < b
unfolding choose_loop
choose_loop-lt zero i selected area b rs lt le = lt
choose_loop-lt (suc n) i selected area b rs lt le =
    choose_loop-lt n (i + 1) _ area b rs (ground arith) (omega arith)

-- The region of the descriptors is one of those found.
pub choose_desc_region-lt :
    (a : PageAllocator) → 0 < a.valid_regions_count → choose_desc_region a < a.valid_regions_count
unfolding choose_desc_region
choose_desc_region-lt a pos =
    choose_loop-lt a.valid_regions_count 0 0 _ a.valid_regions_count a.regions_info pos
      (omega arith)

-- The candidate for the descriptors has room, and no region before `i` that has room is smaller.
abbrev pub Chosen : List RegionInfo → ℕ → ℕ → ℕ → Type 0
Chosen regions area i k =
    (area ≤ (region_at regions k).aligned_size)
    × ((j : ℕ)
        → j < i
        → area ≤ (region_at regions j).aligned_size
        → (region_at regions k).aligned_size ≤ (region_at regions j).aligned_size)

choose_loop-Chosen :
    (n i k area : ℕ) (regions : List RegionInfo)
    → Chosen regions area i k
    → Chosen regions area (i + n) (choose_loop n i k area regions)
unfolding choose_loop
choose_loop-Chosen zero i k area regions c = (c.0, λ j h. c.1 j (omega arith))
choose_loop-Chosen (suc n) i k area regions (room, least) =
    let size = (region_at regions i).aligned_size in
    let k' =
      if ltb size area then k else if ltb size (region_at regions k).aligned_size then i else k in
    let next : Chosen regions area (i + 1) k' = (
      ground arith,
      λ j h r. elim (dec_eq i j) [
        | yes e ↦ ground (arith, ap (λ t. (region_at regions t).aligned_size) e)
        | no other ↦ ground (arith, least j)
      ],
    ) in
    let whole : i + 1 + n ≡ i + suc n = omega arith in
    subst (λ t. Chosen regions area t (choose_loop n (i + 1) k' area regions)) whole
      (choose_loop-Chosen n (i + 1) k' area regions next)

choose_desc_region-Chosen :
    (a : PageAllocator)
    → a.pages_count * page_bytes % word_mod ≤ (region_at a.regions_info 0).aligned_size
    → Chosen a.regions_info
        (a.pages_count * page_bytes % word_mod)
        a.valid_regions_count
        (choose_desc_region a)
unfolding choose_desc_region
choose_desc_region-Chosen a room =
    let area = a.pages_count * page_bytes % word_mod in
    let n = a.valid_regions_count in
    let all : 0 + n ≡ n = omega arith in
    subst (λ t. Chosen a.regions_info area t (choose_loop n 0 0 area a.regions_info)) all
      (choose_loop-Chosen n 0 0 area a.regions_info (room, λ j h. absurd (omega arith)))

-- If there is a valid region and the first one has room for the page descriptors, a valid region is
-- chosen for them that has room, and no valid region with room is smaller.
pub choose_desc_region_lem :
    (a : PageAllocator)
    → 0 < a.valid_regions_count
    → a.pages_count * page_bytes % word_mod ≤ (region_at a.regions_info 0).aligned_size
    → (choose_desc_region a < a.valid_regions_count)
      × Chosen a.regions_info
          (a.pages_count * page_bytes % word_mod)
          a.valid_regions_count
          (choose_desc_region a)
choose_desc_region_lem a some_region room =
    (choose_desc_region-lt a some_region, choose_desc_region-Chosen a room)

choose_loop-first :
    (n i area : ℕ) (regions : List RegionInfo)
    → (region_at regions 0).aligned_size < area
    → choose_loop n i 0 area regions ≡ 0
unfolding choose_loop
choose_loop-first zero i area regions small = refl
choose_loop-first (suc n) i area regions small =
    ground (arith, choose_loop-first n (i + 1) area regions small)

-- If the first region has no room for the page descriptors, it is chosen for them all the same,
-- whatever room the other regions have.
pub choose_desc_region-first :
    (a : PageAllocator)
    → (region_at a.regions_info 0).aligned_size < a.pages_count * page_bytes % word_mod
    → choose_desc_region a ≡ 0
unfolding choose_desc_region
choose_desc_region-first a small =
    choose_loop-first a.valid_regions_count 0 (a.pages_count * page_bytes % word_mod) a.regions_info
      small
