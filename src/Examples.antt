-- ===== src/Examples.antt =====
-- Tests: a `PageAllocator` with one region of four pages at address 4096, as `init` leaves it. The
-- first page holds the descriptors, and the other three are one free group.
pub mod Pages
pub mod Regions
pub mod Nodes
pub mod Chunks
pub mod Queries
pub mod Facade
pub mod Demos
pub mod Sizes
pub mod Started
use liballocator.Base.{
  ℕ, ◌+◌, ◌-◌, ◌*◌, ◌≡◌, refl, true, List, [], ◌∷◌, arith, ◌==◌, if◌then◌else◌, count, set,
  replicate,
}
use liballocator.Store.{Ptr, null, Links, Store}
use liballocator.Group.{group_idx, floor_log2, log2_loop}
use liballocator.ListNode.Chain.{IsList}
use liballocator.RegionInfo.{RegionInfo, clear_region_info}
use liballocator.PageAllocator.{PageAllocator}
use liballocator.PageAllocator.Blocks.{Block, firsts}
use liballocator.PageAllocator.Split.{used_block}
use liballocator.PageAllocator.Invariant.{Inv}

abbrev pub no_links : Links
no_links = record { next = λ p. null; prev = λ p. null }

abbrev pub four_store : Store
four_store = record {
  links = no_links;
  address = λ p. 4096 + (p - 4096) * 4;
  group_size = λ p. if p == 4096 then 1 else if p == 4128 then 3 else if p == 4192 then 3 else 0;
  used = λ p. p == 4096;
}

abbrev pub four_region : RegionInfo
four_region = record {
  start = 4096;
  end = 4608;
  aligned_start = 4096;
  aligned_end = 4608;
  page_count = 4;
  size = 512;
  aligned_size = 512;
  first_page = 4096;
  last_page = 4192;
}

abbrev pub four : PageAllocator
four = record {
  regions_info = set (replicate 8 clear_region_info) 0 four_region;
  valid_regions_count = 1;
  page_size = 128;
  desc_region_idx = 0;
  desc_pages_count = 1;
  pages_head = 4096;
  pages_tail = 4192;
  free_group_lists = λ i. if i == 0 then 4128 else null;
  pages_count = 4;
  free_pages_count = 3;
  store = four_store;
}

abbrev pub free_three : Block
free_three = record { ptr = 4128; size = 3; free = true }

abbrev pub four_blocks : List Block
four_blocks = used_block 4096 1 ∷ free_three ∷ []

abbrev pub four_lists : ℕ → List Ptr
four_lists i = if i == 0 then 4128 ∷ [] else []

pub four_idx : group_idx 3 ≡ 0
unfolding group_idx floor_log2 log2_loop
four_idx = refl

four_IsList : (i : ℕ) → IsList no_links (four.free_group_lists i) (four_lists i)
four_IsList i = ground arith

four_bag : (i x : ℕ) → count x (four_lists i) ≡ count x (firsts i four_blocks)
four_bag i x = rw four_idx (ground arith)

pub four-Inv : Inv four four_blocks four_lists
four-Inv = record {
  few = omega arith;
  low = omega arith;
  high = omega arith;
  tail = refl;
  tiles = (
    refl,
    record {
      pos = omega arith;
      small = omega arith;
      first = refl;
      last = refl;
      flags = λ i h. ground arith;
    },
    (
      refl,
      record {
        pos = omega arith;
        small = omega arith;
        first = refl;
        last = refl;
        flags = λ i h. ground arith;
      },
      refl,
    ),
  );
  lists = four_IsList;
  bag = four_bag;
  idle = λ k h out. (refl, refl);
  free = refl;
}
