-- ===== src/Examples/Started.antt =====
-- Tests of `init`.
use liballocator.Base.{
  ℕ, zero, suc, ◌≢◌, ◌+◌, ◌*◌, ◌≤◌, inl, ◌^◌, ◌<◌, ◌≡◌, refl, arith, true, false, Option, none,
  some, List, [], ◌∷◌,
}
use liballocator.Word.{align_down}
use liballocator.ListNode.{init_list_node, add_to_list, remove_from_list}
use liballocator.Page.{page_at, set_address, set_group_size}
use liballocator.Utils.{is_power_of2}
use liballocator.Group.{group_idx, floor_log2, log2_loop, init_group, split_group, clear_group}
use liballocator.RegionInfo.{
  Region, init_region_info, aligned_start, aligned_end, count_region_pages,
}
use liballocator.PageAllocator.{
  PageAllocator, allocate, find_group, find_in_list, add_group, set_used_loop, take_group,
  remove_group,
}
use liballocator.PageAllocator.History.{Reach, start, call, allocated}
use liballocator.PageAllocator.Init.{
  region_at, construct, init, is_valid_page_size, scan_regions, build, count_pages,
  choose_desc_region, choose_loop, init_regions, init_region, init_pages, reserve_region,
  reserve_desc_pages, reserve_loop,
}
use liballocator.PageAllocator.Init.Apart.{off, separate}
use liballocator.PageAllocator.Init.Layout.{pages_of}
use liballocator.PageAllocator.Init.Memory.{Disjoint, OffDescriptors}
use liballocator.PageAllocator.Query.{get_page}
use liballocator.PageAllocator.Init.Memory.{memory_of}
use liballocator.PageAllocator.Init.Contiguous.{init-contiguous}
use liballocator.PageAllocator.Taken.{Taken, page_used}
use liballocator.PageAllocator.Init.Complete.{Gapped, FreeIn, init-allocate}
use liballocator.PageAllocator.Init.Sums.{page_sum}
use liballocator.PageAllocator.Init.Found.{init-get_page}
use liballocator.PageAllocator.Init.Safe.{init-Disjoint, init-OffDescriptors}
use liballocator.PageAllocator.Init.Scan.{usable, total_pages}
use liballocator.PageAllocator.Init.Establish.{Establishes, init_lem, init-balance}
use liballocator.Examples.{four_store, four}

-- Two ragged regions and one that is smaller than a page.
abbrev regions : List Region
regions =
    record { address = 5000; size = 1000 }
    ∷ record { address = 8200; size = 100 }
    ∷ record { address = 9216; size = 512 }
    ∷ record { address = 0; size = 0 }
    ∷ []

regions-usable : usable regions ≡ true
unfolding usable
regions-usable = refl

regions-few : total_pages regions 128 < 2 ^ 21
unfolding total_pages
regions-few = omega arith

regions-separate : separate regions ≡ true
unfolding separate off
regions-separate = refl

-- The state that a call leaves.
abbrev state : {A : Type 0} → Option (A × PageAllocator) → PageAllocator
state none = four
state (some (answer, a)) = a

begun : PageAllocator
begun = state (init (construct four_store) regions 128)

after : PageAllocator
after = state (allocate begun 2)

begun-run : init (construct four_store) regions 128 ≡ some (true, begun)
unfolding begun init is_valid_page_size is_power_of2 scan_regions init_region_info aligned_start
    aligned_end count_region_pages align_down build count_pages choose_desc_region choose_loop
    init_regions init_region init_pages reserve_region reserve_desc_pages reserve_loop set_address
begun-run = refl

begun-head : page_at begun.pages_head 0 ≡ 9216
unfolding begun init is_valid_page_size is_power_of2 scan_regions init_region_info aligned_start
    aligned_end count_region_pages align_down build count_pages choose_desc_region choose_loop
    init_regions init_region init_pages reserve_region reserve_desc_pages reserve_loop set_address
begun-head = refl

begun-room : 32 * begun.pages_count ≤ pages_of begun begun.desc_region_idx * begun.page_size
unfolding begun init is_valid_page_size is_power_of2 scan_regions init_region_info aligned_start
    aligned_end count_region_pages align_down build count_pages choose_desc_region choose_loop
    init_regions init_region init_pages reserve_region reserve_desc_pages reserve_loop set_address
begun-room = omega arith

begun-allocate : allocate begun 2 ≡ some (page_at begun.pages_head 0, after)
unfolding after begun init is_valid_page_size is_power_of2 scan_regions init_region_info
    aligned_start aligned_end count_region_pages align_down build count_pages choose_desc_region
    choose_loop init_regions init_region init_pages reserve_region reserve_desc_pages reserve_loop
    set_address allocate find_group find_in_list add_group group_idx floor_log2 log2_loop init_group
    split_group set_used_loop add_to_list init_list_node
begun-allocate = refl

begun-Reach : Reach begun after ((0, 2) ∷ [])
begun-Reach = call start (allocated 2 0 begun-allocate (omega (arith, begun-head)))

init_lem_example : Establishes (construct four_store) regions 128
init_lem_example =
    init_lem (construct four_store) regions 128 (omega arith) regions-usable regions-few

init-balance_example : after.free_pages_count + (2 + 0) + after.desc_pages_count ≡ after.pages_count
init-balance_example =
    init-balance (construct four_store) begun after regions 128 ((0, 2) ∷ []) (omega arith)
      regions-usable regions-few begun-run begun-Reach

init-Disjoint_example : Disjoint after 0 1
init-Disjoint_example =
    init-Disjoint (construct four_store) begun after regions 128 ((0, 2) ∷ []) 0 1 (omega arith)
      regions-usable regions-few regions-separate begun-run begun-Reach
      (inl (omega arith, omega arith)) (inl (omega arith, omega arith)) (λ e. omega (arith, e))

init-OffDescriptors_example : OffDescriptors after 1
init-OffDescriptors_example =
    init-OffDescriptors (construct four_store) begun after regions 128 ((0, 2) ∷ []) 1 (omega arith)
      regions-usable regions-few regions-separate begun-run begun-room begun-Reach
      (inl (omega arith, omega arith))

begun-place : memory_of begun 1 ≡ 5248
unfolding begun init is_valid_page_size is_power_of2 scan_regions init_region_info aligned_start
    aligned_end count_region_pages align_down build count_pages choose_desc_region choose_loop
    init_regions init_region init_pages reserve_region reserve_desc_pages reserve_loop set_address
    set_used_loop
begun-place = refl

-- No region ends at the second page of the first one.
begun-alone :
    (j : ℕ)
    → j < begun.valid_regions_count
    → (region_at begun.regions_info j).aligned_end ≢ memory_of begun 1
unfolding begun init is_valid_page_size is_power_of2 scan_regions init_region_info aligned_start
    aligned_end count_region_pages align_down build count_pages choose_desc_region choose_loop
    init_regions init_region init_pages reserve_region reserve_desc_pages reserve_loop set_address
begun-alone zero lt e = omega (arith, e, begun-place)
begun-alone (suc zero) lt e = omega (arith, e, begun-place)
begun-alone (suc (suc j)) lt e = omega arith

begun-count : 1 < begun.pages_count
unfolding begun init is_valid_page_size is_power_of2 scan_regions init_region_info aligned_start
    aligned_end count_region_pages align_down build count_pages choose_desc_region choose_loop
    init_regions init_region init_pages reserve_region reserve_desc_pages reserve_loop set_address
begun-count = omega arith

begun-page_size : 5 < begun.page_size
unfolding begun init is_valid_page_size is_power_of2 scan_regions init_region_info aligned_start
    aligned_end count_region_pages align_down build count_pages choose_desc_region choose_loop
    init_regions init_region init_pages reserve_region reserve_desc_pages reserve_loop set_address
begun-page_size = omega arith

init-get_page_example : get_page begun (memory_of begun 1 + 5) ≡ some (page_at begun.pages_head 1)
init-get_page_example =
    init-get_page (construct four_store) begun begun regions 128 [] 1 5 (omega arith) regions-usable
      regions-few regions-separate begun-run start begun-count begun-page_size begun-alone

init-contiguous_example : memory_of after (0 + 1) ≡ memory_of after 0 + 1 * after.page_size
init-contiguous_example =
    init-contiguous (construct four_store) begun after regions 128 ((0, 2) ∷ []) 0 2 1 (omega arith)
      regions-usable regions-few regions-separate begun-run begun-Reach (inl (refl, refl))
      (omega arith)

begun-Gapped : Gapped begun
unfolding begun init is_valid_page_size is_power_of2 scan_regions init_region_info aligned_start
    aligned_end count_region_pages align_down build count_pages choose_desc_region choose_loop
    init_regions init_region init_pages reserve_region reserve_desc_pages reserve_loop set_address
begun-Gapped zero zero lj lr e = omega (arith, e)
begun-Gapped zero (suc zero) lj lr e = omega (arith, e)
begun-Gapped (suc zero) zero lj lr e = omega (arith, e)
begun-Gapped (suc zero) (suc zero) lj lr e = omega (arith, e)
begun-Gapped zero (suc (suc r)) lj lr e = omega (arith, lr)
begun-Gapped (suc zero) (suc (suc r)) lj lr e = omega (arith, lr)
begun-Gapped (suc (suc j)) r lj lr e = omega (arith, lj)

-- The last four pages of the first region.
after-free : (i : ℕ) → i < 4 → page_used after (2 + i) ≡ false
unfolding after begun init is_valid_page_size is_power_of2 scan_regions init_region_info
    aligned_start aligned_end count_region_pages align_down build count_pages choose_desc_region
    choose_loop init_regions init_region init_pages reserve_region reserve_desc_pages reserve_loop
    set_address allocate find_group find_in_list add_group group_idx floor_log2 log2_loop init_group
    split_group set_used_loop add_to_list init_list_node take_group remove_group remove_from_list
    clear_group set_group_size
after-free zero lt = refl
after-free (suc zero) lt = refl
after-free (suc (suc zero)) lt = refl
after-free (suc (suc (suc zero))) lt = refl
after-free (suc (suc (suc (suc i)))) lt = absurd (omega arith)

after-FreeIn : FreeIn after 0 2 4
unfolding after begun init is_valid_page_size is_power_of2 scan_regions init_region_info
    aligned_start aligned_end count_region_pages align_down build count_pages choose_desc_region
    choose_loop init_regions init_region init_pages reserve_region reserve_desc_pages reserve_loop
    set_address allocate find_group find_in_list add_group group_idx floor_log2 log2_loop init_group
    split_group set_used_loop add_to_list init_list_node take_group remove_group remove_from_list
    clear_group set_group_size page_sum
after-FreeIn = record {
  valid = omega arith;
  low = omega arith;
  high = omega arith;
  free = after-free;
}

init-allocate_example :
    (i : ℕ) × (b : PageAllocator) × (allocate after 4 ≡ some (page_at after.pages_head i, b))
    × Taken after b i 4
init-allocate_example =
    init-allocate (construct four_store) begun after regions 128 ((0, 2) ∷ []) 0 2 4 (omega arith)
      regions-usable regions-few regions-separate begun-run begun-Gapped begun-Reach (omega arith)
      after-FreeIn
