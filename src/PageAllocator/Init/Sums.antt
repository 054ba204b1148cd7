-- ===== src/PageAllocator/Init/Sums.antt =====
-- The number of pages of the regions in front of one of the table.
use liballocator.Base.{
  ℕ, zero, suc, ◌+◌, ◌^◌, ◌≤◌, ◌<◌, ◌≡◌, refl, ap, List, [], ◌∷◌, arith, length,
}
use liballocator.RegionInfo.{RegionInfo}
use liballocator.PageAllocator.Init.{region_at, count_pages}

-- The number of pages of `n` regions from index `i` on.
unfoldable pub page_sum : ℕ → ℕ → List RegionInfo → ℕ
page_sum zero i regions = 0
page_sum (suc n) i regions = (region_at regions i).page_count + page_sum n (i + 1) regions

pub page_sum-same :
    (n i : ℕ) (rs rs' : List RegionInfo)
    → ((j : ℕ) → i ≤ j → j < i + n → (region_at rs' j).page_count ≡ (region_at rs j).page_count)
    → page_sum n i rs' ≡ page_sum n i rs
unfolding page_sum
page_sum-same zero i rs rs' same = refl
page_sum-same (suc n) i rs rs' same = omega (
  arith,
  same i (omega arith) (omega arith),
  page_sum-same n (i + 1) rs rs' (λ j h l. same j (omega arith) (omega arith)),
)

pub page_sum-last :
    (n i : ℕ) (rs : List RegionInfo)
    → page_sum (suc n) i rs ≡ page_sum n i rs + (region_at rs (i + n)).page_count
unfolding page_sum
page_sum-last zero i rs =
    let here : i ≡ i + 0 = omega arith in omega (arith, ap (λ j. (region_at rs j).page_count) here)
page_sum-last (suc n) i rs =
    let there : i + 1 + n ≡ i + suc n = omega arith in
    omega (arith, page_sum-last n (i + 1) rs, ap (λ j. (region_at rs j).page_count) there)

page_sum-shift :
    (n i : ℕ) (r : RegionInfo) (rs : List RegionInfo)
    → page_sum n (suc i) (r ∷ rs) ≡ page_sum n i rs
unfolding page_sum
page_sum-shift zero i r rs = refl
page_sum-shift (suc n) i r rs =
    let next : suc i + 1 ≡ suc (i + 1) = omega arith in
    omega (arith, ap (λ j. page_sum n j (r ∷ rs)) next, page_sum-shift n (i + 1) r rs)

-- The sum over the table is that of the code, where it fits a word.
pub count_pages-page_sum :
    (rs : List RegionInfo)
    → page_sum (length rs) 0 rs < 2 ^ 64
    → count_pages rs ≡ page_sum (length rs) 0 rs
unfolding count_pages page_sum
count_pages-page_sum [] small = refl
count_pages-page_sum (r ∷ rs) small =
    let rest = page_sum-shift (length rs) 0 r rs in
    omega (arith, rest, count_pages-page_sum rs (omega (arith, rest)))

-- Regions without pages add nothing.
pub page_sum-cleared :
    (n t i : ℕ) (rs : List RegionInfo)
    → n ≤ t
    → ((j : ℕ) → i + n ≤ j → (region_at rs j).page_count ≡ 0)
    → page_sum t i rs ≡ page_sum n i rs
unfolding page_sum
page_sum-cleared zero zero i rs le none = refl
page_sum-cleared zero (suc t) i rs le none = omega (
  arith,
  none i (omega arith),
  page_sum-cleared zero t (i + 1) rs (omega arith) (λ j h. none j (omega arith)),
)
page_sum-cleared (suc n) zero i rs le none = absurd (omega arith)
page_sum-cleared (suc n) (suc t) i rs le none =
    omega (arith, page_sum-cleared n t (i + 1) rs (omega arith) (λ j h. none j (omega arith)))

-- The pages of a region stand behind those of the regions in front of it.
pub page_sum-below :
    (d i j : ℕ) (rs : List RegionInfo)
    → i ≡ j + suc d
    → page_sum j 0 rs + (region_at rs j).page_count ≤ page_sum i 0 rs
page_sum-below zero i j rs e =
    let next : i ≡ suc j = omega arith in
    let here : 0 + j ≡ j = omega arith in
    omega (
      arith,
      ap (λ n. page_sum n 0 rs) next,
      page_sum-last j 0 rs,
      ap (λ t. (region_at rs t).page_count) here,
    )
page_sum-below (suc d) i j rs e =
    let next : i ≡ suc (j + suc d) = omega arith in
    omega (
      arith,
      ap (λ n. page_sum n 0 rs) next,
      page_sum-last (j + suc d) 0 rs,
      page_sum-below d (j + suc d) j rs refl,
    )
