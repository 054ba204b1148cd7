-- ===== src/Allocator/Errors.antt =====
-- Calls on an allocator that is not initialised.
use liballocator.Base.{ℕ, ◌<◌, ◌≡◌, ◌≢◌, refl, true, false, arith, leb, ◌==◌}
use liballocator.Result.{null_pointer, err}
use liballocator.Store.{Ptr, null}
use liballocator.PageAllocator.Init
use liballocator.ZoneAllocator.{ZoneAllocator}
use liballocator.ZoneAllocator.Init as ZoneInit
use liballocator.ZoneAllocator.Allocate as ZoneAllocate
use liballocator.ZoneAllocator.Allocate.{allocate_pages}
use liballocator.ZoneAllocator.Release as ZoneRelease
use liballocator.ZoneAllocator.Release.{
  deallocate_chunk, find_zone, zone_lists_loop, chunk_zone_loop,
}
use liballocator.Allocator.{clear, allocate, release}

-- After `clear`, both `allocate` of a positive size and `release` of a pointer that is not null end with
-- the use of a null pointer as the page allocator.
pub cleared-null :
    (a : ZoneAllocator) (size : ℕ) (ptr : Ptr)
    → 0 < size
    → ptr ≢ null
    → (allocate (clear a) size ≡ err null_pointer) × (release (clear a) ptr ≡ err null_pointer)
unfolding allocate release clear ZoneInit.clear ZoneAllocate.allocate ZoneRelease.release
    allocate_pages deallocate_chunk find_zone zone_lists_loop chunk_zone_loop Init.clear
cleared-null a size ptr pos ne =
    let not_zero : (size == 0) ≡ false = ground arith in
    let not_null : (ptr == null) ≡ false = ground arith in
    let all : leb 0 size ≡ true = ground arith in (rw (not_zero, all) refl, rw not_null refl)
