-- ===== src/Examples/Demos.antt =====
-- A run of the demo.
use liballocator.Base.{ℕ, ◌≡◌, refl, true, [], ◌==◌, if◌then◌else◌}
use liballocator.Result.{Result, ok, err}
use liballocator.Store.{Ptr, null}
use liballocator.ZoneAllocator.{ZoneAllocator}
use liballocator.Allocator.{init_range}
use liballocator.Demo.{Demo, Containers, operator_new, operator_delete, app_main, free_memory}
use liballocator.Demo.Passed.{app_main-Passes}
use liballocator.Examples.Facade.{fresh}

-- Containers that keep their elements in one block, and forget what the elements are.
abbrev containers : Containers Ptr Ptr
containers = record {
  vector = null;
  push_back = λ vec x a. if vec == null then operator_new 64 a else ok (vec, a);
  elements = λ vec. [];
  destroy_vector = λ vec a. operator_delete vec a;
  map = null;
  assign = λ map key value a. if map == null then operator_new 300 a else ok (map, a);
  entries = λ map. [];
  destroy_map = λ map a. operator_delete map a;
}

abbrev demo : Demo
demo = record { allocator = fresh; initial_free_memory = 0; output = [] }

abbrev result : Result (ℕ × Demo)
result = app_main containers true 4096 8192 64 demo

-- What the run leaves.
abbrev left : Result (ℕ × Demo) → Demo
left (err e) = demo
left (ok (c, d)) = d

after : Demo
after = left result

after-run : result ≡ ok (0, after)
unfolding after liballocator.Word.align_down liballocator.ListNode.add_to_list
    liballocator.ListNode.remove_from_list liballocator.Page.set_address
    liballocator.Group.group_idx liballocator.Group.join_group liballocator.Utils.round_power_of2
    liballocator.RegionInfo.init_region_info liballocator.PageAllocator.set_used_loop
    liballocator.PageAllocator.remove_group liballocator.PageAllocator.find_in_list
    liballocator.PageAllocator.find_group liballocator.PageAllocator.take_group
    liballocator.PageAllocator.allocate liballocator.PageAllocator.is_valid_page
    liballocator.PageAllocator.region_loop liballocator.PageAllocator.get_region
    liballocator.PageAllocator.joinable liballocator.PageAllocator.absorb
    liballocator.PageAllocator.join_above liballocator.PageAllocator.join_below
    liballocator.PageAllocator.release liballocator.PageAllocator.Init.init
    liballocator.PageAllocator.Query.page_loop liballocator.PageAllocator.Query.get_page
    liballocator.PageAllocator.Query.get_stats liballocator.Zone.clear liballocator.Zone.chunk_loop
    liballocator.Zone.init liballocator.Zone.take_chunk liballocator.Zone.give_chunk
    liballocator.Zone.is_valid_chunk liballocator.ZoneAllocator.chunk_size
    liballocator.ZoneAllocator.zone_idx liballocator.ZoneAllocator.allocate_chunk
    liballocator.ZoneAllocator.free_zone_loop liballocator.ZoneAllocator.get_free_zone
    liballocator.ZoneAllocator.should_allocate_zone liballocator.ZoneAllocator.init_zone
    liballocator.ZoneAllocator.clear_zone liballocator.ZoneAllocator.add_zone
    liballocator.ZoneAllocator.remove_zone liballocator.ZoneAllocator.Init.construct
    liballocator.ZoneAllocator.Init.init liballocator.ZoneAllocator.Query.count_loop
    liballocator.ZoneAllocator.Query.count_zones liballocator.ZoneAllocator.Query.sum_free
    liballocator.ZoneAllocator.Query.get_stats liballocator.ZoneAllocator.Release.chunk_zone_loop
    liballocator.ZoneAllocator.Release.zone_lists_loop liballocator.ZoneAllocator.Release.find_zone
    liballocator.ZoneAllocator.Release.give_back liballocator.ZoneAllocator.Release.is_disposable
    liballocator.ZoneAllocator.Release.deallocate_chunk liballocator.ZoneAllocator.Release.release
    liballocator.ZoneAllocator.Allocate.make_zone liballocator.ZoneAllocator.Allocate.allocate_zone
    liballocator.ZoneAllocator.Allocate.to_double liballocator.ZoneAllocator.Allocate.page_count
    liballocator.ZoneAllocator.Allocate.allocate_pages liballocator.ZoneAllocator.Allocate.zone_for
    liballocator.ZoneAllocator.Allocate.allocate_small liballocator.ZoneAllocator.Allocate.allocate
    liballocator.Allocator.globals liballocator.Allocator.init liballocator.Allocator.init_range
    liballocator.Allocator.allocate liballocator.Allocator.release liballocator.Allocator.combine
    liballocator.Allocator.get_stats liballocator.Demo.operator_new
    liballocator.Demo.operator_delete liballocator.Demo.free_memory liballocator.Demo.show_stats
    liballocator.Demo.test_start liballocator.Demo.test_end liballocator.Demo.test_smart_pointers
    liballocator.Demo.push_loop liballocator.Demo.print_loop liballocator.Demo.test_vector
    liballocator.Demo.print_entries liballocator.Demo.test_map liballocator.Demo.unless_failed
    liballocator.Demo.run_tests liballocator.Demo.app_main
after-run = refl

app_main-Passes_example :
    (true ≡ true)
    × (a : ZoneAllocator) × (init_range fresh 4096 8192 512 ≡ ok (true, a))
    × (free : ℕ) × (free_memory a ≡ ok free)
    × (free_memory after.allocator ≡ ok free)
app_main-Passes_example = app_main-Passes containers true 4096 8192 64 demo after after-run
