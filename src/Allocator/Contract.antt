-- ===== src/Allocator/Contract.antt =====
-- lib/include/allocator/allocator.hpp: the functions of the interface.
use liballocator.Base.{ℕ, ◌≡◌, refl, Bool, List}
use liballocator.Result.{Result, ok}
use liballocator.Store.{Ptr, null}
use liballocator.RegionInfo.{Region}
use liballocator.ZoneAllocator.{ZoneAllocator}
use liballocator.ZoneAllocator.Allocate as ZoneAllocate
use liballocator.ZoneAllocator.Release as ZoneRelease
use liballocator.Allocator.{Stats, version, init, init_range, clear, allocate, release, get_stats}

-- The functions that the header declares, on the global objects.
pub record Functions : Type 0 where
  pub version : Ptr
  pub init : ZoneAllocator → List Region → ℕ → Result (Bool × ZoneAllocator)
  pub init_range : ZoneAllocator → ℕ → ℕ → ℕ → Result (Bool × ZoneAllocator)
  pub clear : ZoneAllocator → ZoneAllocator
  pub allocate : ZoneAllocator → ℕ → Result (Ptr × ZoneAllocator)
  pub release : ZoneAllocator → Ptr → Result ZoneAllocator
  pub get_stats : ZoneAllocator → Result Stats

-- What they do in any state: a request of no bytes returns null and changes nothing, and neither does a
-- release of null.
pub record IsAllocator (f : Functions) : Type 0 where
  pub empty : (a : ZoneAllocator) → f.allocate a 0 ≡ ok (null, a)
  pub nothing : (a : ZoneAllocator) → f.release a null ≡ ok a

-- The functions of lib/allocator.cpp.
abbrev pub functions : Ptr → Functions
functions liballocator_version = record {
  version = version liballocator_version;
  init = init;
  init_range = init_range;
  clear = clear;
  allocate = allocate;
  release = release;
  get_stats = get_stats;
}

allocate_nothing : (a : ZoneAllocator) → allocate a 0 ≡ ok (null, a)
unfolding allocate ZoneAllocate.allocate
allocate_nothing a = refl

release_null : (a : ZoneAllocator) → release a null ≡ ok a
unfolding release ZoneRelease.release
release_null a = refl

interface_kept : (liballocator_version : Ptr) → IsAllocator (functions liballocator_version)
interface_kept liballocator_version = record { empty = allocate_nothing; nothing = release_null }
