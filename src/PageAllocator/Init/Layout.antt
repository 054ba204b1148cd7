-- ===== src/PageAllocator/Init/Layout.antt =====
-- Where `init` puts the descriptors of a region, and which addresses they get.
use liballocator.Base.{suc, ◌≤◌, List, ℕ, suc, ◌+◌, ◌*◌, ◌<◌, ◌≡◌, refl, ◌∙◌}
use liballocator.Page.{page_at}
use liballocator.Group.{last_page}
use liballocator.RegionInfo.{RegionInfo}
use liballocator.PageAllocator.{PageAllocator}
use liballocator.PageAllocator.Init.{region_at}
use liballocator.PageAllocator.Blocks.{Block}
use liballocator.PageAllocator.Blocks.Seams.{Seam}
use liballocator.PageAllocator.Blocks.Together.{Together}
use liballocator.PageAllocator.Init.Sums.{page_sum}
use liballocator.PageAllocator.Init.Settled.{Marked}

-- The first page of region `j` among all pages.
abbrev pub first_of : PageAllocator → ℕ → ℕ
first_of a j = page_sum j 0 a.regions_info

abbrev pub pages_of : PageAllocator → ℕ → ℕ
pages_of a j = (region_at a.regions_info j).page_count

-- The first `i` regions have their descriptors one behind the other, with the addresses of their pages.
-- If the region of the descriptors is among them, some of its pages are marked.
pub record Layout (i : ℕ) (a : PageAllocator) : Type 0 where
  pub first :
      (j : ℕ)
      → j < i
      → (region_at a.regions_info j).first_page ≡ page_at a.pages_head (first_of a j)
  pub last :
      (j : ℕ)
      → j < i
      → (region_at a.regions_info j).last_page
        ≡ last_page (page_at a.pages_head (first_of a j)) (pages_of a j)
  pub address :
      (j k : ℕ)
      → j < i
      → k < pages_of a j
      → a.store.address (page_at a.pages_head (first_of a j + k))
        ≡ (region_at a.regions_info j).aligned_start + k * a.page_size
  pub marks : a.desc_region_idx < i → Marked a.desc_region_idx (first_of a a.desc_region_idx) a a

-- The pages of each block lie in one of the first `i` regions.
abbrev pub Regional : ℕ → PageAllocator → List Block → Type 0
Regional i a bs =
    (k : ℕ)
    → Seam a.pages_head bs k
    → (j : ℕ) × (j < i) × (first_of a j ≤ k) × (suc k < first_of a j + pages_of a j)

-- Two neighbouring pages of one of the first `i` regions are in one block, unless the first is in use.
abbrev pub Filled : ℕ → PageAllocator → List Block → Type 0
Filled i a bs =
    (j t : ℕ) → j < i → suc t < pages_of a j → Together a.pages_head bs (first_of a j + t)

-- The region has the same pages, wherever its descriptors are.
pub record SameSpan (r r' : RegionInfo) : Type 0 where
  pub start : r'.aligned_start ≡ r.aligned_start
  pub end : r'.aligned_end ≡ r.aligned_end
  pub count : r'.page_count ≡ r.page_count

-- What the loop leaves as it is.
pub record Kept (a a' : PageAllocator) : Type 0 where
  pub page_size : a'.page_size ≡ a.page_size
  pub desc_region_idx : a'.desc_region_idx ≡ a.desc_region_idx
  pub head : a'.pages_head ≡ a.pages_head
  pub tail : a'.pages_tail ≡ a.pages_tail
  pub count : a'.pages_count ≡ a.pages_count
  pub valid_regions : a'.valid_regions_count ≡ a.valid_regions_count
  pub spans : (j : ℕ) → SameSpan (region_at a.regions_info j) (region_at a'.regions_info j)

pub Kept-refl : (a : PageAllocator) → Kept a a
Kept-refl a = record {
  page_size = refl;
  desc_region_idx = refl;
  head = refl;
  tail = refl;
  count = refl;
  valid_regions = refl;
  spans = λ j. record { start = refl; end = refl; count = refl };
}

pub Kept-trans : (a b c : PageAllocator) → Kept a b → Kept b c → Kept a c
Kept-trans a b c k l = record {
  page_size = l.page_size ∙ k.page_size;
  desc_region_idx = l.desc_region_idx ∙ k.desc_region_idx;
  head = l.head ∙ k.head;
  tail = l.tail ∙ k.tail;
  count = l.count ∙ k.count;
  valid_regions = l.valid_regions ∙ k.valid_regions;
  spans = λ j.
      let p = k.spans j in
      let q = l.spans j in
      record { start = q.start ∙ p.start; end = q.end ∙ p.end; count = q.count ∙ p.count };
}
