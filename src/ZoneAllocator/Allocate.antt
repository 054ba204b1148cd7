-- ===== src/ZoneAllocator/Allocate.antt =====
-- lib/ZoneAllocator.hpp and lib/ZoneAllocator.cpp: `allocateZone` and `allocate`.
use liballocator.Base.{
  ℕ, zero, suc, ◌+◌, ◌-◌, ◌*◌, ◌/◌, ◌%◌, ◌^◌, Bool, true, false, not, ◌&&◌, ◌||◌, ltb, leb, ◌==◌,
  if◌then◌else◌,
}
use liballocator.Result.{
  null_pointer, assertion, no_fuel, Result, ok, err, ◌>>=◌, ◌>>◌, guard, paged,
}
use liballocator.Store.{Ptr, null}
use liballocator.Group.{floor_log2}
use liballocator.PageAllocator.{PageAllocator}
use liballocator.PageAllocator
use liballocator.ZoneAllocator.Release.{deallocate_chunk}
use liballocator.ZoneAllocator.{
  ZoneAllocator, with_pages, chunk_size, zone_idx, allocate_chunk, get_free_zone,
  should_allocate_zone, init_zone, add_zone,
}

-- The part of `allocateZone` behind its first condition.
unfoldable pub make_zone : ZoneAllocator → ℕ → Result (Ptr × ZoneAllocator)
make_zone a size = do
  zone ← get_free_zone a a.zone_desc_idx
  guard (not (zone == null)) assertion
  (new_zone, b) ← allocate_chunk a zone
  guard (not (new_zone == null)) assertion
  (done, c) ← init_zone b new_zone size
  if done
      then (do d ← add_zone c new_zone; ok (new_zone, d))
      else (do (found, d) ← deallocate_chunk (c.pages.pages_count + 1) c new_zone; ok (null, d))

-- `allocateZone(chunkSize)`; it calls itself for a zone of descriptors, and then not again.
unfoldable pub allocate_zone : ℕ → ZoneAllocator → ℕ → Result (Ptr × ZoneAllocator)
allocate_zone zero a size = err no_fuel
allocate_zone (suc fuel) a size =
    if size == a.zone_desc_chunk_size
    then make_zone a size
    else elim (should_allocate_zone a a.zone_desc_idx) [
      | err e ↦ err e
      | ok false ↦ make_zone a size
      | ok true ↦ elim (allocate_zone fuel a a.zone_desc_chunk_size) [
        | err e ↦ err e
        | ok (zone, b) ↦ if zone == null then ok (null, b) else make_zone b size
      ]
    ]

-- `double(n)`: an integer with more than 53 digits is rounded, a tie to the even one.
unfoldable pub to_double : ℕ → ℕ
to_double n =
    let e = floor_log2 n - 52 in
    let digits = n / 2 ^ e in
    let rest = n % 2 ^ e * 2 in
    if ltb n (2 ^ 53)
    then n
    else if ltb (2 ^ e) rest || (rest == 2 ^ e && digits % 2 == 1)
    then (digits + 1) * 2 ^ e
    else digits * 2 ^ e

-- `std::ceil(double(size) / double(m_pageSize))`, where the page size is a power of two and so the
-- quotient exact
unfoldable pub page_count : ℕ → ℕ → ℕ
page_count size page_size = (to_double size + (page_size - 1)) / page_size

-- The part of `allocate` that takes whole pages.
unfoldable pub allocate_pages : ZoneAllocator → ℕ → Result (Ptr × ZoneAllocator)
allocate_pages a size = do
  guard a.attached null_pointer
  (page, pages) ← paged (PageAllocator.allocate a.pages (page_count size a.page_size))
  ok (if page == null then null else pages.store.address page, with_pages a pages)

-- `shouldAllocateZone(idx) ? allocateZone(allocSize) : getFreeZone(idx)`
unfoldable pub zone_for : ZoneAllocator → Bool → ℕ → Result (Ptr × ZoneAllocator)
zone_for a true alloc_size = allocate_zone 2 a alloc_size
zone_for a false alloc_size = do zone ← get_free_zone a (zone_idx alloc_size); ok (zone, a)

-- The part of `allocate` that takes a chunk.
unfoldable pub allocate_small : ZoneAllocator → ℕ → Result (Ptr × ZoneAllocator)
allocate_small a alloc_size = do
  needed ← should_allocate_zone a (zone_idx alloc_size)
  (zone, b) ← zone_for a needed alloc_size
  if zone == null then ok (null, b) else allocate_chunk b zone

-- `allocate(size)`
unfoldable pub allocate : ZoneAllocator → ℕ → Result (Ptr × ZoneAllocator)
allocate a size =
    if size == 0
    then ok (null, a)
    else if leb a.page_size size || leb a.page_size (chunk_size size)
    then allocate_pages a size
    else allocate_small a (chunk_size size)
