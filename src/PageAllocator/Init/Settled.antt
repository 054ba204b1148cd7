-- ===== src/PageAllocator/Init/Settled.antt =====
-- What a round of the second loop of `init` leaves as it is.
use native.Mathlib.Decide.{ℕ_discrete as dec_eq}
use liballocator.Base.{
  ◌==◌, true, false, ◌⊎◌, ◌≤◌, ℕ, ◌+◌, ◌*◌, ◌^◌, ◌<◌, ◌≡◌, ◌≢◌, refl, ap, List, length, get_or-set,
  get_or-set_other, length-set,
}
use liballocator.Store.{Ptr, Store}
use liballocator.Page.{page_at}
use liballocator.RegionInfo.{RegionInfo, clear_region_info}
use liballocator.PageAllocator.{PageAllocator, add_group}
use liballocator.PageAllocator.Blocks.{Block}
use liballocator.PageAllocator.Invariant.{Inv}
use liballocator.PageAllocator.Init.{region_at}
use liballocator.PageAllocator.Init.Extend.{upto}
use liballocator.PageAllocator.Init.Run.{with_pages, placed}

-- What a round leaves as it is: all but the region of index `i`, the lists, the counters and the memory.
pub record Settled (i : ℕ) (a a' : PageAllocator) : Type 0 where
  pub page_size : a'.page_size ≡ a.page_size
  pub desc_region_idx : a'.desc_region_idx ≡ a.desc_region_idx
  pub head : a'.pages_head ≡ a.pages_head
  pub tail : a'.pages_tail ≡ a.pages_tail
  pub count : a'.pages_count ≡ a.pages_count
  pub valid_regions : a'.valid_regions_count ≡ a.valid_regions_count
  pub regions : (j : ℕ) → j ≢ i → region_at a'.regions_info j ≡ region_at a.regions_info j
  pub starts :
      (j : ℕ)
      → (region_at a'.regions_info j).aligned_start ≡ (region_at a.regions_info j).aligned_start
  pub length : length a'.regions_info ≡ length a.regions_info

-- The whole pages of a region, one at least, from a multiple of the page size on.
pub record IsPaged (page_size : ℕ) (r : RegionInfo) : Type 0 where
  pub some_pages : 0 < r.page_count
  pub multiple : (m : ℕ) × (r.aligned_start ≡ m * page_size)
  pub end : r.aligned_end ≡ r.aligned_start + r.page_count * page_size
  pub small : r.aligned_end < 2 ^ 64

pub Settled-placed :
    (a : PageAllocator) (i : ℕ) (page : Ptr) (f : ℕ → Ptr) (n d : ℕ) (s : Store)
    → i < length a.regions_info
    → Settled i a (record (placed a i page) {
      free_group_lists = f;
      free_pages_count = n;
      desc_pages_count = d;
      store = s;
    })
Settled-placed a i page f n d s lt = record {
  page_size = refl;
  desc_region_idx = refl;
  head = refl;
  tail = refl;
  count = refl;
  valid_regions = refl;
  regions = λ j ne. get_or-set_other a.regions_info i j _ _ ne;
  starts = λ j. elim (dec_eq j i) [
    | yes e ↦ rw e (ap (λ r. r.aligned_start) (get_or-set a.regions_info i _ clear_region_info lt))
    | no ne ↦ ap (λ r. r.aligned_start) (get_or-set_other a.regions_info i j _ _ ne)
  ];
  length = length-set a.regions_info i _;
}

pub Settled-added :
    (a : PageAllocator) (i : ℕ) (page : Ptr) (d : ℕ) (s : Store) (g : Ptr)
    → i < length a.regions_info
    → Settled i a (add_group (record (placed a i page) { desc_pages_count = d; store = s }) g)
unfolding add_group
Settled-added a i page d s g lt = Settled-placed a i page _ _ d _ lt

-- The invariant does not look at the regions.
pub Inv-placed :
    (a : PageAllocator) (i m d : ℕ) (page : Ptr) (bs : List Block) (ls : ℕ → List Ptr)
    → Inv (upto a m) bs ls
    → Inv (upto (record (placed a i page) { desc_pages_count = d }) m) bs ls
Inv-placed a i m d page bs ls v = record {
  few = v.few;
  low = v.low;
  high = v.high;
  tail = v.tail;
  tiles = v.tiles;
  lists = v.lists;
  bag = v.bag;
  idle = v.idle;
  free = v.free;
}

-- The counters behind a round on a region of `c` pages: those of the region of the descriptors are free
-- or reserved, those of any other are free.
pub record Counted (i c : ℕ) (a a' : PageAllocator) : Type 0 where
  pub other :
      (i == a.desc_region_idx) ≡ false
      → (a'.free_pages_count ≡ a.free_pages_count + c) × (a'.desc_pages_count ≡ a.desc_pages_count)
  pub here :
      (i == a.desc_region_idx) ≡ true
      → a'.free_pages_count + a'.desc_pages_count ≡ a.free_pages_count + c

-- Some pages of the region are marked, one at least, and the next page does not lie in front of the end
-- of the descriptors.
abbrev pub Marked : ℕ → ℕ → PageAllocator → PageAllocator → Type 0
Marked i m a a' =
    (n : ℕ) × (0 < n)
    × (n ≤ (region_at a.regions_info i).page_count)
    × ((k : ℕ) → k < n → a'.store.used (page_at a.pages_head (m + k)) ≡ true)
    × (n < (region_at a.regions_info i).page_count
        → a.pages_tail + 32 ≤ (region_at a.regions_info i).aligned_start + n * a.page_size)

-- The descriptors behind a round on region `i`, whose group is the `m`-th page on: they belong to the
-- region and have its addresses, and no other has changed its address or its flag. In the region of the
-- descriptors some pages are marked.
pub record Laid (i m : ℕ) (a a' : PageAllocator) : Type 0 where
  pub region :
      region_at a'.regions_info i ≡ with_pages (region_at a.regions_info i) (page_at a.pages_head m)
  pub address :
      (k : ℕ)
      → k < (region_at a.regions_info i).page_count
      → a'.store.address (page_at a.pages_head (m + k))
        ≡ (region_at a.regions_info i).aligned_start + k * a.page_size
  pub others :
      (x : Ptr)
      → (x < page_at a.pages_head m)
        ⊎ (page_at a.pages_head (m + (region_at a.regions_info i).page_count) ≤ x)
      → (a'.store.address x ≡ a.store.address x) × (a'.store.used x ≡ a.store.used x)
  pub marks : (i == a.desc_region_idx) ≡ true → Marked i m a a'
