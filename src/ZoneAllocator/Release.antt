-- ===== src/ZoneAllocator/Release.antt =====
-- lib/ZoneAllocator.hpp and lib/ZoneAllocator.cpp: `findZone`, `deallocateChunk` and `release`.
use liballocator.Base.{ℕ, zero, suc, ◌+◌, Bool, true, false, not, ◌&&◌, ◌==◌, if◌then◌else◌, update}
use liballocator.Result.{null_pointer, no_fuel, Result, ok, err, ◌>>=◌, ◌>>◌, guard, paged}
use liballocator.Store.{Ptr, null}
use liballocator.Word.{add, align_down}
use liballocator.ListNode.{init_list_node}
use liballocator.PageAllocator.{PageAllocator}
use liballocator.PageAllocator
use liballocator.PageAllocator.Query.{get_page}
use liballocator.Zone.{Zones, set_links, give_chunk, is_valid_chunk}
use liballocator.ZoneAllocator.{
  ZoneAllocator, max_zone_idx, with_pages, with_zones, zone_idx, at, clear_zone, remove_zone,
}

-- The inner loop of `findZone`; null if no zone of the list has the chunk.
unfoldable pub chunk_zone_loop : ℕ → Zones → Ptr → ℕ → Ptr → Result Ptr
chunk_zone_loop zero z zone addr chunk = err no_fuel
chunk_zone_loop (suc fuel) z zone addr chunk =
    let rest = chunk_zone_loop fuel z (z.store.links.next zone) addr chunk in
    if zone == null
    then ok null
    else if z.store.address (z.page zone) == addr && is_valid_chunk z zone chunk
    then ok zone
    else rest

-- The outer loop, over the lists from index `i` on, `n` of them.
unfoldable pub zone_lists_loop : ℕ → ℕ → ZoneAllocator → ℕ → Ptr → Result Ptr
zone_lists_loop zero i a addr chunk = ok null
zone_lists_loop (suc n) i a addr chunk =
    let rest = zone_lists_loop n (i + 1) a addr chunk in
    elim (chunk_zone_loop (a.pages.pages_count + 1) a.zones (a.heads i) addr chunk) [
      | err e ↦ err e
      | ok zone ↦ if zone == null then rest else ok zone
    ]

-- `findZone(chunk)`
unfoldable pub find_zone : ZoneAllocator → Ptr → Result Ptr
find_zone a chunk = zone_lists_loop max_zone_idx 0 a (align_down chunk a.page_size) chunk

-- What `deallocateChunk` does with a chunk of a zone before it looks whether the zone is empty.
unfoldable pub give_back : ZoneAllocator → Ptr → Ptr → Result ZoneAllocator
give_back a zone chunk = do
  idx ← at (zone_idx (a.zones.chunk_size zone))
  ok (
      let z = set_links a.zones (init_list_node a.zones.store.links chunk) in
      record (with_zones a (give_chunk z zone chunk)) {
        free_chunks_counts = update a.free_chunks_counts idx (add (a.free_chunks_counts idx) 1);
      })

-- `zone->chunksCount() == zone->freeChunksCount() && zone != &m_initialZone`
unfoldable pub is_disposable : ZoneAllocator → Ptr → Bool
is_disposable a zone =
    a.zones.chunks_count zone == a.zones.free_chunks_count zone && not (zone == a.initial_zone)

-- `deallocateChunk(chunk)`. Each call of itself removes a zone, so `pages_count + 1` rounds are enough.
unfoldable pub deallocate_chunk : ℕ → ZoneAllocator → Ptr → Result (Bool × ZoneAllocator)
deallocate_chunk zero a chunk = err no_fuel
deallocate_chunk (suc fuel) a chunk = elim (find_zone a chunk) [
  | err e ↦ err e
  | ok zone ↦ if zone == null then ok (false, a) else elim (give_back a zone chunk) [
    | err e ↦ err e
    | ok b ↦ elim (is_disposable b zone) [
      | false ↦ ok (true, b)
      | true ↦ elim (remove_zone b zone) [
        | err e ↦ err e
        | ok c ↦ elim (clear_zone c zone) [ err e ↦ err e | ok d ↦ deallocate_chunk fuel d zone ]
      ]
    ]
  ]
]

-- `release(ptr)`
unfoldable pub release : ZoneAllocator → Ptr → Result ZoneAllocator
release a ptr = if ptr == null then ok a else do
  (found, b) ← deallocate_chunk (a.pages.pages_count + 1) a ptr
  if found then ok b else do
    guard b.attached null_pointer
    page ← paged (get_page b.pages ptr)
    if page == null
        then ok b
        else do pages ← paged (PageAllocator.release b.pages page); ok (with_pages b pages)
