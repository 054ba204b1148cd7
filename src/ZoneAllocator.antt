-- ===== src/ZoneAllocator.antt =====
-- lib/ZoneAllocator.hpp and lib/ZoneAllocator.cpp: the state, and the operations on one zone.
pub mod Release
pub mod Allocate
pub mod Init
pub mod Query
pub mod Sizes
pub mod Large
use liballocator.Base.{
  ℕ, zero, suc, ◌+◌, ◌-◌, ◌*◌, Bool, true, false, not, ltb, ◌==◌, if◌then◌else◌, update,
}
use liballocator.Result.{
  out_of_range, null_pointer, assertion, no_fuel, Result, ok, err, ◌>>=◌, ◌>>◌, guard, paged,
}
use liballocator.Store.{Ptr, null}
use liballocator.Word.{add, sub}
use liballocator.ListNode.{add_to_list, remove_from_list}
use liballocator.Group.{floor_log2}
use liballocator.Utils.{round_power_of2}
use liballocator.PageAllocator.{PageAllocator}
use liballocator.PageAllocator
use liballocator.Zone.{Zones, set_links, take_chunk}
use liballocator.Zone

-- The members of the class, with the objects that it works on. The memory is in `pages` and in `zones`,
-- and each call writes it back to both. `attached` says that `m_pageAllocator` is not null; then it
-- points to `pages`. `initial_zone` is the address of `m_initialZone`.
pub record ZoneAllocator : Type 0 where
  pub attached : Bool
  pub pages : PageAllocator
  pub zones : Zones
  pub page_size : ℕ
  pub zone_desc_chunk_size : ℕ
  pub zone_desc_idx : ℕ
  pub initial_zone : Ptr
  pub heads : ℕ → Ptr
  pub free_chunks_counts : ℕ → ℕ

-- The number of entries of `m_zones`.
abbrev pub max_zone_idx : ℕ
max_zone_idx = 8

-- `ZoneAllocator::minimalAllocSize()`
abbrev pub minimal_alloc_size : ℕ
minimal_alloc_size = 16

-- `sizeof(Zone)`: seven words.
abbrev pub zone_bytes : ℕ
zone_bytes = 56

-- `Zone::isNaturallyAligned()`: the two pointers of the node and five members, without gaps
abbrev pub zone_is_naturally_aligned : Bool
zone_is_naturally_aligned = 2 * 8 + 8 + (8 + 8 + 8) + 8 == zone_bytes

-- The state after a call of the page allocator, and after a call of a zone.
abbrev pub with_pages : ZoneAllocator → PageAllocator → ZoneAllocator
with_pages a p = record a { pages = p; zones = record (a.zones) { store = p.store } }

abbrev pub with_zones : ZoneAllocator → Zones → ZoneAllocator
with_zones a z = record a { zones = z; pages = record (a.pages) { store = z.store } }

-- `detail::chunkSize(size)`
unfoldable pub chunk_size : ℕ → ℕ
chunk_size size = round_power_of2 (if ltb size minimal_alloc_size then minimal_alloc_size else size)

-- `detail::zoneIdx(chunkSize)`. Below 16 bytes the difference is negative, and as a `std::size_t` it is
-- an index far behind all zones.
unfoldable pub zone_idx : ℕ → ℕ
zone_idx chunk_size = sub (floor_log2 chunk_size) 4

-- `m_zones.at(idx)`, which throws `std::out_of_range` if there is no such entry
abbrev pub at : ℕ → Result ℕ
at idx = if ltb idx max_zone_idx then ok idx else err out_of_range

-- `allocateChunk(zone)`
unfoldable pub allocate_chunk : ZoneAllocator → Ptr → Result (Ptr × ZoneAllocator)
allocate_chunk a zone = do
  idx ← at (zone_idx (a.zones.chunk_size zone))
  guard (not (a.zones.free_chunks_count zone == 0)) assertion
  ok (
    (take_chunk a.zones zone).0,
    record (with_zones a (take_chunk a.zones zone).1) {
      free_chunks_counts = update a.free_chunks_counts idx (sub (a.free_chunks_counts idx) 1);
    },
  )

-- The loop of `getFreeZone`.
unfoldable pub free_zone_loop : ℕ → Zones → Ptr → Result Ptr
free_zone_loop zero z zone = err no_fuel
free_zone_loop (suc fuel) z zone =
    let rest = free_zone_loop fuel z (z.store.links.next zone) in
    if zone == null then ok null else if ltb 0 (z.free_chunks_count zone) then ok zone else rest

-- `getFreeZone(idx)`. Each zone has a page of its own, so a list has no more zones than there are
-- pages.
unfoldable pub get_free_zone : ZoneAllocator → ℕ → Result Ptr
get_free_zone a idx = do i ← at idx; free_zone_loop (a.pages.pages_count + 1) a.zones (a.heads i)

-- `shouldAllocateZone(idx)`
unfoldable pub should_allocate_zone : ZoneAllocator → ℕ → Result Bool
should_allocate_zone a idx = do
  i ← at idx
  ok (a.free_chunks_counts i == (if idx == a.zone_desc_idx then 1 else 0))

-- `initZone(zone, chunkSize)`
unfoldable pub init_zone : ZoneAllocator → Ptr → ℕ → Result (Bool × ZoneAllocator)
init_zone a zone chunk_size = do
  guard a.attached null_pointer
  (page, pages) ← paged (PageAllocator.allocate a.pages 1)
  let b = with_pages a pages
  let initialised = Zone.init b.zones zone page a.page_size chunk_size
  ok (if page == null then (false, b) else (true, with_zones b initialised))

-- `clearZone(zone)`
unfoldable pub clear_zone : ZoneAllocator → Ptr → Result ZoneAllocator
clear_zone a zone = do
  guard a.attached null_pointer
  pages ← paged (PageAllocator.release a.pages (a.zones.page zone))
  let b = with_pages a pages
  ok (with_zones b (Zone.clear b.zones zone))

-- `addZone(zone)`
unfoldable pub add_zone : ZoneAllocator → Ptr → Result ZoneAllocator
add_zone a zone = do
  idx ← at (zone_idx (a.zones.chunk_size zone))
  ok (
      let (links, head) = add_to_list a.zones.store.links zone (a.heads idx) in
      record (with_zones a (set_links a.zones links)) {
        heads = update a.heads idx head;
        free_chunks_counts =
            update a.free_chunks_counts idx
              (add (a.free_chunks_counts idx) (a.zones.free_chunks_count zone));
      })

-- `removeZone(zone)`
unfoldable pub remove_zone : ZoneAllocator → Ptr → Result ZoneAllocator
remove_zone a zone = do
  guard (not (zone == a.initial_zone)) assertion
  idx ← at (zone_idx (a.zones.chunk_size zone))
  ok (
      let (links, head) = remove_from_list a.zones.store.links zone (a.heads idx) in
      record (with_zones a (set_links a.zones links)) {
        heads = update a.heads idx head;
        free_chunks_counts =
            update a.free_chunks_counts idx
              (sub (a.free_chunks_counts idx) (a.zones.free_chunks_count zone));
      })
