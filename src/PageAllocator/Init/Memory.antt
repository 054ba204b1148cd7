-- ===== src/PageAllocator/Init/Memory.antt =====
-- The memory of the pages behind `init`: which page a descriptor stands for, and what overlaps.
use native.Mathlib.Decide.{dec_lt, ℕ_discrete as dec_eq}
use liballocator.Base.{
  ℕ, zero, suc, ◌+◌, ◌-◌, ◌*◌, ◌≤◌, ◌<◌, ◌≡◌, ◌≢◌, sym, ap, ◌∙◌, ◌⊎◌, inl, inr, true, arith,
}
use mathlib.Core.Path.{subst}
use liballocator.Page.{page_at}
use liballocator.PageAllocator.{PageAllocator}
use liballocator.PageAllocator.Taken.{page_used}
use liballocator.PageAllocator.Init.{region_at}
use liballocator.PageAllocator.Init.Sums.{page_sum, page_sum-last}
use liballocator.PageAllocator.Init.Layout.{first_of, pages_of}
use liballocator.PageAllocator.Init.Apart.{Before, Separated}
use liballocator.PageAllocator.Init.Begun.{Begun}

-- The address of the `i`-th page.
abbrev pub memory_of : PageAllocator → ℕ → ℕ
memory_of a i = a.store.address (page_at a.pages_head i)

-- Two pages have no byte in common.
abbrev pub Disjoint : PageAllocator → ℕ → ℕ → Type 0
Disjoint a i j =
    (memory_of a i + a.page_size ≤ memory_of a j) ⊎ (memory_of a j + a.page_size ≤ memory_of a i)

-- A page has no byte in common with the descriptors.
abbrev pub OffDescriptors : PageAllocator → ℕ → Type 0
OffDescriptors a i =
    (memory_of a i + a.page_size ≤ a.pages_head)
    ⊎ (page_at a.pages_head a.pages_count ≤ memory_of a i)

-- The region of a page, and which of its pages it is.
abbrev pub Located : PageAllocator → ℕ → ℕ → Type 0
Located a n i = (r : ℕ) × (k : ℕ) × (r < n) × (k < pages_of a r) × (i ≡ first_of a r + k)

pub located : (a : PageAllocator) (n i : ℕ) → i < page_sum n 0 a.regions_info → Located a n i
unfolding page_sum
located a zero i lt = absurd (omega arith)
located a (suc n) i lt =
    let here : 0 + n ≡ n = omega arith in
    let last = page_sum-last n 0 a.regions_info in
    let count = ap (λ t. (region_at a.regions_info t).page_count) here in
    elim (dec_lt i (page_sum n 0 a.regions_info)) [
      | yes before ↦ let (r, k, l, m, e) = located a n i before in (r, k, omega arith, m, e)
      | no behind ↦ (n, i - first_of a n, omega arith, omega (arith, last, count), omega arith)
    ]

module _ (page_size : ℕ) (a : PageAllocator) (w : Begun page_size a) where
  -- A page of a region lies in it, and has the address of its place.
  module _ (r k : ℕ) (lt : r < a.valid_regions_count) (less : k < pages_of a r) where
    pub in_region :
        ((region_at a.regions_info r).aligned_start ≤ memory_of a (first_of a r + k))
        × (memory_of a (first_of a r + k) + a.page_size ≤ (region_at a.regions_info r).aligned_end)
    in_region =
        let at = w.layout.address r k lt less in
        let gap : pages_of a r ≡ k + suc (pages_of a r - k - 1) = omega arith in
        (omega (arith, at), omega (arith, at, (w.paged r lt).end, ap (λ t. t * a.page_size) gap))

  ordered :
      (r k l : ℕ)
      → r < a.valid_regions_count
      → k < l
      → l < pages_of a r
      → memory_of a (first_of a r + k) + a.page_size ≤ memory_of a (first_of a r + l)
  ordered r k l lt less bound =
      let gap : l ≡ k + suc (l - k - 1) = omega arith in
      omega (
        arith,
        w.layout.address r k lt (omega arith),
        w.layout.address r l lt bound,
        ap (λ t. t * a.page_size) gap,
      )

  module _ (sep : Separated a) where
    pub regions_apart :
        (r t : ℕ)
        → r < a.valid_regions_count
        → t < a.valid_regions_count
        → r ≢ t
        → Before (region_at a.regions_info r) (region_at a.regions_info t)
    regions_apart r t lr lt ne = elim (dec_lt r t) [
      | yes less ↦ sep r t less lt
      | no more ↦ elim (sep t r (omega arith) lr) [ inl x ↦ inr x | inr y ↦ inl y ]
    ]

    Disjoint-places :
        (r k t l : ℕ)
        → r < a.valid_regions_count
        → t < a.valid_regions_count
        → k < pages_of a r
        → l < pages_of a t
        → first_of a r + k ≢ first_of a t + l
        → Disjoint a (first_of a r + k) (first_of a t + l)
    Disjoint-places r k t l lr lt lk ll ne = elim (dec_eq t r) [
      | yes same ↦
          subst (λ d. Disjoint a (first_of a r + k) (first_of a d + l)) (sym same)
            (elim (dec_lt k l) [
              | yes less ↦ inl (ordered r k l lr less (omega (arith, ll, ap (pages_of a) same)))
              | no more ↦
                  let first = ap (first_of a) same in
                  inr (
                    ordered r l k lr
                      (elim (dec_eq l k) [ yes e ↦ absurd (ne (omega arith)) | no e ↦ omega arith ])
                      lk)
            ])
      | no other ↦
          let (low, high) = in_region r k lr lk in
          let (low', high') = in_region t l lt ll in
          elim (regions_apart r t lr lt (λ e. other (sym e))) [
            | inl x ↦ inl (omega arith)
            | inr y ↦ inr (omega arith)
          ]
    ]

    -- Two pages of the allocator have no byte in common.
    pub Begun-Disjoint : (i j : ℕ) → i < a.pages_count → j < a.pages_count → i ≢ j → Disjoint a i j
    Begun-Disjoint i j li lj ne =
        let (r, k, lr, lk, ei) = located a a.valid_regions_count i (omega (arith, w.sum)) in
        let (t, l, lt, ll, ej) = located a a.valid_regions_count j (omega (arith, w.sum)) in
        subst (λ n. Disjoint a n j) (sym ei)
          (subst (λ n. Disjoint a (first_of a r + k) n) (sym ej)
            (Disjoint-places r k t l lr lt lk ll (λ e. ne (ei ∙ e ∙ sym ej))))

    -- A page of the descriptors' region that is not in use is behind the descriptors.
    behind_descriptors :
        (k : ℕ)
        → k < pages_of a a.desc_region_idx
        → page_used a (first_of a a.desc_region_idx + k) ≢ true
        → page_at a.pages_head a.pages_count ≤ memory_of a (first_of a a.desc_region_idx + k)
    behind_descriptors k lk free =
        let (n, pos, le, used, behind) = w.layout.marks w.desc in
        elim (dec_lt k n) [
          | yes marked ↦ absurd (free (used k marked))
          | no more ↦
              let gap : k ≡ n + (k - n) = omega arith in
              omega (
                arith,
                behind (omega arith),
                w.tail,
                w.layout.address a.desc_region_idx k w.desc lk,
                ap (λ t. t * a.page_size) gap,
              )
        ]

    place_off :
        (r k : ℕ)
        → 32 * a.pages_count ≤ pages_of a a.desc_region_idx * a.page_size
        → r < a.valid_regions_count
        → k < pages_of a r
        → page_used a (first_of a r + k) ≢ true
        → OffDescriptors a (first_of a r + k)
    place_off r k room lr lk free = elim (dec_eq r a.desc_region_idx) [
      | yes e ↦ inr (
          subst
            (λ d.
              k < pages_of a d
              → page_used a (first_of a d + k) ≢ true
              → page_at a.pages_head a.pages_count ≤ memory_of a (first_of a d + k))
            (sym e) (behind_descriptors k) lk free)
      | no other ↦
          let (low, high) = in_region r k lr lk in
          elim (regions_apart r a.desc_region_idx lr w.desc other) [
            | inl x ↦ inl (omega (arith, w.head))
            | inr y ↦ inr (omega (arith, w.head, (w.paged a.desc_region_idx w.desc).end))
          ]
    ]

    -- A page that is not in use has no byte in common with the descriptors, if their region has room for
    -- all of them.
    pub Begun-OffDescriptors :
        (i : ℕ)
        → 32 * a.pages_count ≤ pages_of a a.desc_region_idx * a.page_size
        → i < a.pages_count
        → page_used a i ≢ true
        → OffDescriptors a i
    Begun-OffDescriptors i room li free =
        let (r, k, lr, lk, ei) = located a a.valid_regions_count i (omega (arith, w.sum)) in
        subst (OffDescriptors a) (sym ei)
          (place_off r k room lr lk (λ u. free (ap (page_used a) ei ∙ u)))
