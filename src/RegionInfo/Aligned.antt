-- ===== src/RegionInfo/Aligned.antt =====
-- What `initRegionInfo` computes for a page size that is a power of two.
use native.Mathlib.Nat.{one-le-pow, le-div_iff_mul-le, mul-div_cancel}
use liballocator.Base.{
  ℕ, ◌+◌, ◌-◌, ◌*◌, ◌/◌, ◌^◌, ◌≤◌, ◌<◌, ◌≡◌, refl, ◌↔◌, inl, inr, arith, ap, ◌∙◌, Bool, true, false,
  some, ltb, if◌then◌else◌, Bool-cases,
}
use liballocator.Word.{add, sub, align_down}
use liballocator.Word.Align.{align_down_lem, align_down_bounds}
use liballocator.RegionInfo.{
  Region, RegionInfo, aligned_start, aligned_end, count_region_pages, init_region_info,
}

-- The whole pages of the region: from the first multiple of the page size in it up to the last.
pub record IsAligned (r : Region) (page_size : ℕ) (info : RegionInfo) : Type 0 where
  pub start : info.start ≡ r.address
  pub end : info.end ≡ r.address + r.size
  pub start_multiple : (m : ℕ) × (info.aligned_start ≡ m * page_size)
  pub end_multiple : (m : ℕ) × (info.aligned_end ≡ m * page_size)
  pub start_low : r.address ≤ info.aligned_start
  pub start_high : info.aligned_start < r.address + page_size
  pub end_high : info.aligned_end ≤ r.address + r.size
  pub end_low : r.address + r.size < info.aligned_end + page_size
  pub pages : info.aligned_start + info.page_count * page_size ≡ info.aligned_end

module _ (r : Region) (k : ℕ) (h : k ≤ 63) (fits : r.address + r.size < 2 ^ 64)
    (large : 2 ^ k ≤ r.size) where
  start_of : ℕ
  start_of =
      if ltb (align_down r.address (2 ^ k)) r.address
      then align_down r.address (2 ^ k) + 2 ^ k
      else align_down r.address (2 ^ k)

  aligned_start-eq : aligned_start r (2 ^ k) ≡ some start_of
  unfolding aligned_start start_of
  aligned_start-eq = ground (arith, align_down_bounds k r.address h (omega arith))

  end_of : ℕ
  end_of = align_down (r.address + r.size) (2 ^ k)

  aligned_end-eq : aligned_end r (2 ^ k) ≡ some end_of
  unfolding aligned_end end_of
  aligned_end-eq =
      let whole : add r.address r.size ≡ r.address + r.size = omega arith in
      rw whole (ground (arith, align_down_bounds k (r.address + r.size) h fits))

  start_of-multiple : (m : ℕ) × (start_of ≡ m * 2 ^ k)
  unfolding start_of
  start_of-multiple = elim (Bool-cases (ltb (align_down r.address (2 ^ k)) r.address)) [
    | inl up ↦
        (r.address / 2 ^ k + 1, rw up (omega (arith, align_down_lem k r.address h (omega arith))))
    | inr at ↦ (r.address / 2 ^ k, rw at (align_down_lem k r.address h (omega arith)))
  ]

  start_of-bounds : (r.address ≤ start_of) × (start_of < r.address + 2 ^ k)
  unfolding start_of
  start_of-bounds =
      ground (arith, align_down_bounds k r.address h (omega arith), one-le-pow k 2 (omega arith))

  end_of-multiple : end_of ≡ (r.address + r.size) / 2 ^ k * 2 ^ k
  unfolding end_of
  end_of-multiple = align_down_lem k (r.address + r.size) h fits

  end_of-bounds : (end_of ≤ r.address + r.size) × (r.address + r.size < end_of + 2 ^ k)
  unfolding end_of
  end_of-bounds = align_down_bounds k (r.address + r.size) h fits

  -- The number of pages times the page size is what lies between the two ends.
  pages_between : start_of + (end_of - start_of) / 2 ^ k * 2 ^ k ≡ end_of
  unfolding end_of
  pages_between =
      let (m, e) = start_of-multiple in
      let n = (r.address + r.size) / 2 ^ k in
      let e' = align_down_lem k (r.address + r.size) h fits in
      let le : m ≤ n =
        (le-div_iff_mul-le (one-le-pow k 2 (omega arith))).1 (omega (arith, start_of-bounds)) in
      let gap : n ≡ m + (n - m) = omega arith in
      let between : align_down (r.address + r.size) (2 ^ k) - start_of ≡ (n - m) * 2 ^ k =
        omega (arith, e, e', ap (λ t. t * 2 ^ k) gap) in
      let cancel : (align_down (r.address + r.size) (2 ^ k) - start_of) / 2 ^ k ≡ n - m =
        ap (λ t. t / 2 ^ k) between ∙ mul-div_cancel (n - m) (one-le-pow k 2 (omega arith)) in
      omega (arith, e, e', ap (λ t. t * 2 ^ k) gap, ap (λ t. t * 2 ^ k) cancel)

  info_of : RegionInfo
  info_of = (count_region_pages r (2 ^ k) start_of end_of).1

  gap : sub end_of start_of ≡ end_of - start_of
  unfolding end_of
  gap = omega (arith, pages_between, align_down_bounds k (r.address + r.size) h fits)

  info_of-pages : info_of.page_count ≡ (end_of - start_of) / 2 ^ k
  unfolding info_of count_region_pages
  info_of-pages = ground (arith, gap, ap (λ t. t / 2 ^ k) gap)

  info_of-ends :
      (info_of.start ≡ r.address)
      × (info_of.end ≡ r.address + r.size)
      × (info_of.aligned_start ≡ start_of)
      × (info_of.aligned_end ≡ end_of)
  unfolding info_of count_region_pages
  info_of-ends = ground arith

  info_of-IsAligned : IsAligned r (2 ^ k) info_of
  info_of-IsAligned =
      let (s, e, s', e') = info_of-ends in
      let (m, at) = start_of-multiple in
      let (low, high) = end_of-bounds in
      record {
        start = s;
        end = e;
        start_multiple = (m, s' ∙ at);
        end_multiple = ((r.address + r.size) / 2 ^ k, e' ∙ end_of-multiple);
        start_low = omega (arith, s', start_of-bounds);
        start_high = omega (arith, s', start_of-bounds);
        end_high = omega (arith, e');
        end_low = omega (arith, e');
        pages = omega (arith, s', e', pages_between, ap (λ t. t * 2 ^ k) info_of-pages);
      }

  init_region_info-eq :
      init_region_info r (2 ^ k) ≡ some (count_region_pages r (2 ^ k) start_of end_of)
  unfolding init_region_info
  init_region_info-eq =
      let enough : ltb r.size (2 ^ k) ≡ false = ground arith in
      rw (enough, aligned_start-eq, aligned_end-eq) refl

  info_of-flag :
      ((count_region_pages r (2 ^ k) start_of end_of).0 ≡ true) ↔ (0 < info_of.page_count)
  unfolding info_of count_region_pages
  info_of-flag = ground arith

  info_of-sizes :
      0 < info_of.page_count
      → (info_of.size ≡ r.size) × (info_of.aligned_size ≡ info_of.page_count * 2 ^ k)
  unfolding info_of count_region_pages
  info_of-sizes pos =
      let (low, high) = end_of-bounds in
      ground (arith, gap, pages_between, ap (λ t. t / 2 ^ k * 2 ^ k) gap, fits, low)

  -- For a page size `2 ^ k` with `k` up to 63 and a region of at least that size that does not reach
  -- the end of the address space, `initRegionInfo` runs into no assertion and describes exactly the
  -- whole pages of the region. It answers true just if there is one, and then it has recorded the
  -- sizes.
  pub init_region_info_lem :
      (done : Bool) × (info : RegionInfo) × (init_region_info r (2 ^ k) ≡ some (done, info))
      × IsAligned r (2 ^ k) info
      × ((done ≡ true) ↔ (0 < info.page_count))
      × (0 < info.page_count → (info.size ≡ r.size) × (info.aligned_size ≡ info.page_count * 2 ^ k))
  unfolding info_of
  init_region_info_lem =
      (_, info_of, init_region_info-eq, info_of-IsAligned, info_of-flag, info_of-sizes)
