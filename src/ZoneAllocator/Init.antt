-- ===== src/ZoneAllocator/Init.antt =====
-- lib/ZoneAllocator.hpp and lib/ZoneAllocator.cpp: `clear` and `init`.
use liballocator.Base.{ℕ, Bool, true, false, if◌then◌else◌}
use liballocator.Result.{Result, ok, ◌>>=◌}
use liballocator.Store.{Ptr, null}
use liballocator.PageAllocator.{PageAllocator}
use liballocator.Zone.{Zones, set_links, take_chunk, give_chunk, is_valid_chunk}
use liballocator.Zone
use liballocator.PageAllocator.{PageAllocator}
use liballocator.ZoneAllocator.{
  ZoneAllocator, zone_bytes, with_zones, chunk_size, zone_idx, init_zone, add_zone,
}

-- `clear()`
unfoldable pub clear : ZoneAllocator → ZoneAllocator
clear a = record (with_zones a (Zone.clear a.zones a.initial_zone)) {
  attached = false;
  page_size = 0;
  zone_desc_chunk_size = 0;
  zone_desc_idx = 0;
  heads = λ i. null;
  free_chunks_counts = λ i. 0;
}

-- The constructor: the members have their initial values, and `clear` is called. `pages` is the page
-- allocator that the object will be given.
unfoldable pub construct : PageAllocator → Ptr → ZoneAllocator
unfolding clear
construct pages initial_zone = clear (record {
  attached = false;
  pages = pages;
  zones = record {
    store = pages.store;
    page = λ z. null;
    chunk_size = λ z. 0;
    chunks_count = λ z. 0;
    free_chunks_count = λ z. 0;
    free_chunks = λ z. null;
  };
  page_size = 0;
  zone_desc_chunk_size = 0;
  zone_desc_idx = 0;
  initial_zone = initial_zone;
  heads = λ i. null;
  free_chunks_counts = λ i. 0;
})

-- `init(pageAllocator, pageSize)`, where `pageAllocator` points to `pages`
unfoldable pub init : ZoneAllocator → ℕ → Result (Bool × ZoneAllocator)
unfolding clear
init a page_size =
    let cleared = record (clear a) {
      attached = true;
      page_size = page_size;
      zone_desc_chunk_size = chunk_size zone_bytes;
      zone_desc_idx = zone_idx (chunk_size zone_bytes);
    } in
    do
      (done, b) ← init_zone cleared a.initial_zone (chunk_size zone_bytes)
      if done then (do c ← add_zone b a.initial_zone; ok (true, c)) else ok (false, b)
