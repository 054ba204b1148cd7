-- ===== src/Allocator.antt =====
-- lib/include/allocator/allocator.hpp and lib/allocator.cpp: the functions that the user calls. The
-- two global objects are a `ZoneAllocator` and the page allocator in it. The version is a text that the
-- build writes, so it is a parameter.
pub mod Errors
pub mod Contract
use liballocator.Base.{ℕ, ◌*◌, ◌%◌, Bool, false, List, [], ◌∷◌, if◌then◌else◌}
use liballocator.Result.{Result, ok, ◌>>=◌, paged}
use liballocator.Store.{Ptr, Store}
use liballocator.Word.{word_mod, add, sub}
use liballocator.RegionInfo.{Region}
use liballocator.PageAllocator.Init as PageInit
use liballocator.PageAllocator.Query as PageQuery
use liballocator.ZoneAllocator.{ZoneAllocator, with_pages}
use liballocator.ZoneAllocator.Init as ZoneInit
use liballocator.ZoneAllocator.Query as ZoneQuery
use liballocator.ZoneAllocator.Allocate as ZoneAllocate
use liballocator.ZoneAllocator.Release as ZoneRelease

-- The two global objects, in the memory `s`, with `m_initialZone` at `initial_zone`.
unfoldable pub globals : Store → Ptr → ZoneAllocator
globals s initial_zone = ZoneInit.construct (PageInit.construct s) initial_zone

-- `version()`, where `liballocator_version` is the text that the build writes
unfoldable pub version : Ptr → Ptr
version liballocator_version = liballocator_version

-- `clear()`
unfoldable pub clear : ZoneAllocator → ZoneAllocator
clear a = ZoneInit.clear (with_pages a (PageInit.clear a.pages))

-- `init(regions, pageSize)`
unfoldable pub init : ZoneAllocator → List Region → ℕ → Result (Bool × ZoneAllocator)
unfolding clear
init a regions page_size = do
  (done, pages) ← paged (PageInit.init (clear a).pages regions page_size)
  let b = with_pages (clear a) pages
  if done then ZoneInit.init b page_size else ok (false, b)

-- `init(start, end, pageSize)`
unfoldable pub init_range : ZoneAllocator → ℕ → ℕ → ℕ → Result (Bool × ZoneAllocator)
init_range a start end page_size =
    init a
      (record { address = start; size = sub end start } ∷ record { address = 0; size = 0 } ∷ [])
      page_size

-- `allocate(size)`
unfoldable pub allocate : ZoneAllocator → ℕ → Result (Ptr × ZoneAllocator)
allocate a size = ZoneAllocate.allocate a size

-- `release(ptr)`
unfoldable pub release : ZoneAllocator → Ptr → Result ZoneAllocator
release a ptr = ZoneRelease.release a ptr

pub record Stats : Type 0 where
  pub total_memory_size : ℕ
  pub reserved_memory_size : ℕ
  pub user_memory_size : ℕ
  pub allocated_memory_size : ℕ
  pub free_memory_size : ℕ

-- The sums of `getStats`, from the statistics of the page allocator and of the zone allocator.
unfoldable pub combine : PageQuery.Stats → ZoneQuery.Stats → Stats
combine pages zones =
    let reserved =
      add
        (add (sub pages.total_memory_size pages.effective_memory_size)
          (pages.reserved_pages_count * pages.page_size % word_mod))
        zones.reserved_memory_size in
    let user = sub pages.total_memory_size reserved in
    let allocated =
      add (sub (sub pages.user_memory_size pages.free_memory_size) zones.used_memory_size)
        zones.allocated_memory_size in
    record {
      total_memory_size = pages.total_memory_size;
      reserved_memory_size = reserved;
      user_memory_size = user;
      allocated_memory_size = allocated;
      free_memory_size = sub user allocated;
    }

-- `getStats()`
unfoldable pub get_stats : ZoneAllocator → Result Stats
get_stats a = do zones ← ZoneQuery.get_stats a; ok (combine (PageQuery.get_stats a.pages) zones)
