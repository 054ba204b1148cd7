-- ===== src/Examples/Regions.antt =====
-- Tests of the functions on regions.
use liballocator.Base.{
  ℕ, ◌*◌, ◌%◌, ◌^◌, ◌<◌, ◌≡◌, ◌≢◌, refl, Bool, true, Option, none, some, List, [], ◌∷◌, arith, set,
  ◌↔◌,
}
use liballocator.Word.{word_mod, align_down}
use liballocator.Page.{page_bytes, set_address}
use liballocator.Group.{group_idx}
use liballocator.ListNode.{add_to_list}
use liballocator.RegionInfo.{Region, RegionInfo, init_region_info}
use liballocator.RegionInfo.Aligned.{IsAligned, init_region_info_lem}
use liballocator.PageAllocator.{PageAllocator, get_region, set_used_loop}
use liballocator.PageAllocator.Init.{choose_desc_region, init}
use liballocator.PageAllocator.Regions.{
  FirstSpan, get_region-FirstSpan, get_region-ne_adjacent, Chosen, choose_desc_region_lem,
  choose_desc_region-first,
}
use liballocator.Examples.{four, four_region}

-- A region that is aligned at neither end.
abbrev ragged : Region
ragged = record { address = 5000; size = 1000 }

init_region_info_lem_example :
    (done : Bool) × (info : RegionInfo) × (init_region_info ragged (2 ^ 8) ≡ some (done, info))
    × IsAligned ragged (2 ^ 8) info
    × ((done ≡ true) ↔ (0 < info.page_count))
    × (0 < info.page_count → (info.size ≡ 1000) × (info.aligned_size ≡ info.page_count * 2 ^ 8))
init_region_info_lem_example =
    init_region_info_lem ragged 8 (omega arith) (omega arith) (omega arith)

get_region-FirstSpan_example :
    FirstSpan four.regions_info (align_down 4200 128) 0 1 (get_region four 4200)
get_region-FirstSpan_example = get_region-FirstSpan four 4200

-- Two regions, the second of which starts where the first one ends.
abbrev next_region : RegionInfo
next_region = record four_region {
  start = 4608;
  end = 4736;
  aligned_start = 4608;
  aligned_end = 4736;
  page_count = 1;
  size = 128;
  aligned_size = 128;
}

abbrev two : PageAllocator
two = record four {
  regions_info = set four.regions_info 1 next_region;
  valid_regions_count = 2;
  pages_count = 5;
}

two-aligned : align_down 4608 128 ≡ 4608
unfolding align_down
two-aligned = refl

get_region-ne_adjacent_example : get_region two 4608 ≢ some 1
get_region-ne_adjacent_example =
    get_region-ne_adjacent two 0 1 4608 (omega arith) (omega arith) two-aligned refl (omega arith)

choose_desc_region_lem_example :
    (choose_desc_region two < 2)
    × Chosen two.regions_info (5 * page_bytes % word_mod) 2 (choose_desc_region two)
choose_desc_region_lem_example = choose_desc_region_lem two (omega arith) (omega arith)

-- The first of the regions has no room for the descriptors, the second one has.
abbrev cramped : PageAllocator
cramped = record two { regions_info = next_region ∷ four_region ∷ [] }

choose_desc_region-first_example : choose_desc_region cramped ≡ 0
choose_desc_region-first_example = choose_desc_region-first cramped (omega arith)

-- What the members of the result are, and the sizes that stand in the memory.
abbrev members : Option (Bool × PageAllocator) → List ℕ
members none = []
members (some (done, a)) =
    a.pages_head
    ∷ a.pages_tail
    ∷ a.pages_count
    ∷ a.free_pages_count
    ∷ a.desc_pages_count
    ∷ a.free_group_lists 0
    ∷ a.store.group_size 4096
    ∷ a.store.group_size 4128
    ∷ a.store.group_size 4192
    ∷ a.store.address 4192
    ∷ []

-- `init` makes the fixture of a region of four pages, whatever the state was before.
init-four :
    members (init two (record { address = 4096; size = 512 } ∷ []) 128)
    ≡ members (some (true, four))
unfolding init init_region_info align_down set_address group_idx set_used_loop add_to_list
init-four = refl
