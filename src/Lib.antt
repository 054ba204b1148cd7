-- ===== src/Lib.antt =====
-- A verification library for liballocator: a page allocator for physical memory and what it
-- stands on, modelled after the C++ sources under lib/.
--
-- The program. The user passes regions of physical memory. `PageAllocator::init` cuts each into
-- whole pages (`initRegionInfo`), lays one descriptor `Page` per page into one of the regions,
-- and keeps runs of neighbouring pages as groups: the size of a group stands in its first and in
-- its last descriptor, and a free group is a node of one of 20 doubly linked lists, by the
-- logarithm of its size. `allocate` takes a group out of a list and splits it; `release` joins
-- the group with its free neighbours and puts the result into a list. `ZoneAllocator` serves
-- requests below a page: a zone is a page cut into chunks of one size, a power of two, and the
-- zones of a size form a list; their descriptors stand in chunks themselves. `memory::allocator`
-- is the interface of the two for the user.
--
-- The files:
-- - Base: names that all modules share, Boolean tests, lists measured by native numbers.
-- - Result: what the calls of the zone allocator and of the interface return, a value or an
--   error.
-- - Store: the memory that pointers lead to. A pointer is an address, and a field of a class is a
--   function from addresses. Objects of different types do not overlap in the model.
-- - ListNode (lib/ListNode.hpp): `initListNode`, `addToList`, `removeFromList`, each on the
--   fields `next` and `prev` of all nodes. ListNode/Chain has what a well linked list is,
--   ListNode/Add and ListNode/Remove what the operations do to it.
-- - Word: words of 64 bits and the mask `addr & ~(pageSize - 1)`. Word/Bits and Word/Align have
--   its laws.
-- - Page (lib/Page.hpp, lib/Page.cpp): the setters, the getters, `init` and the siblings of a
--   descriptor. Page/Fields, like Zone/Fields, has what a getter returns after a setter.
-- - Group (lib/group.hpp, lib/group.cpp): `groupIdx`, `initGroup`, `clearGroup`, `splitGroup`,
--   `joinGroup`. Group/Contract, like the Contract of RegionInfo and of Allocator, has the
--   declarations of a header as a record of functions, and what such functions have to do.
-- - RegionInfo (lib/RegionInfo.hpp, lib/RegionInfo.cpp, lib/include/allocator/Region.hpp).
-- - Utils (lib/utils.hpp): `isPowerOf2`, `roundPowerOf2`, `movePtr`.
-- - PageAllocator (lib/PageAllocator.hpp, lib/PageAllocator.cpp): the class as a record, with
--   `allocate`, `release`, `addGroup`, `removeGroup`, `getRegion`, `isValidPage`.
--   PageAllocator/Init has `init`, `clear`, `countPages`, `chooseDescRegion` and
--   `reserveDescPages`, PageAllocator/Query has `getPage` and `getStats`.
-- - PageAllocator/Blocks, Invariant: the abstract view. The descriptors are tiled by blocks, used
--   or free, and each free list holds the free blocks of its index. Remove, Add and Split are
--   about the operations on groups, Search, Taken, Take and Allocate about `allocate`, Absorb and
--   Release about `release`, Blocks/Seams, Release/Bridges and Release/Unjoined about which
--   neighbouring pages are in one group, Blocks/Together and Merged about free groups that are as
--   large as they can be, Complete about what `allocate` finds then, Balance about the counter of
--   free pages. Live has the runs that a client holds, History sequences of its calls, Runs and
--   Kept what stays as it is in them, Regions is about `getRegion` and `chooseDescRegion`, the
--   children of Init about `init`: Scan and Start about its first loop, Pages, Extend, Fresh,
--   Overwrite, Parts, Reserve, Run, Settled, Round, Sums, Layout, Grown and Loop about its
--   second, Apart about regions that do not overlap, Begun, Valid and Establish about the whole,
--   Memory, Safe, Placed, Found, Contiguous and Complete about the memory and the descriptors
--   that it leaves, Query/Pages and Query/Sums about `getPage` and `getStats`.
-- - Zone (lib/Zone.hpp, lib/Zone.cpp): a page cut into chunks of one size: `init`, `clear`,
--   `takeChunk`, `giveChunk`, `isValidChunk`. Zone/Chunks and Zone/Init are about its list of
--   free chunks, Zone/History about any sequence of calls and of writes to the chunks.
-- - ZoneAllocator (lib/ZoneAllocator.hpp, lib/ZoneAllocator.cpp): the class as a record, with the
--   operations on one zone. ZoneAllocator/Init has the constructor, `init` and `clear`,
--   ZoneAllocator/Allocate has `allocate` and `allocateZone`, ZoneAllocator/Release has
--   `release`, `deallocateChunk` and `findZone`, ZoneAllocator/Query has `getStats`. Sizes and
--   Large are about the sizes and about blocks of whole pages.
-- - Allocator (lib/include/allocator/allocator.hpp, lib/allocator.cpp): the functions that the
--   user calls, on the two global objects. Allocator/Errors has the calls on an allocator that is
--   not initialised.
-- - Demo (test/liballocator-demo/appMain.cpp): the demo, whose `operator new` and `operator
--   delete` call the allocator. Demo/Passed is about its exit code.
-- - Examples: tests, most of them on a region of four pages as `init` leaves it.
--
-- Sizes and fuel. `std::size_t` and pointers have 64 bits and `sizeof(Page)` is 32, as on the
-- host that the unit tests run on; arithmetic on them wraps where the source's can. The size of a
-- group is a field of 21 bits and wraps as such. `std::floor(std::log2(n))` is the integer
-- logarithm; a double holds each size that fits the field. A size that becomes a `double` is
-- rounded as such, and the quotient by the page size, a power of two, is exact. The loops of
-- `PageAllocator::allocate` over a list and those of `release` have `pages_count + 1` rounds of
-- fuel, and the loops of `init`, `reserveDescPages` and `getPage` over pages one round more than
-- there are pages; the loops over lists of zones and `deallocateChunk` have `pages_count + 1`
-- rounds, since each zone has a page, and `allocateZone` 2. In the page allocator, `none` means
-- that a loop ran out of fuel or that an assertion failed. In the zone allocator and above it, a
-- call without a result ends with an `Error`, which tells apart that `std::array::at` threw, that
-- a null pointer was taken for the page allocator, that an assertion failed, that a loop ran out
-- of fuel, and that the page allocator had no result. The theorems on the `allocate` and
-- `release` of `PageAllocator` show that the fuel is enough in a valid state. A chunk that is
-- free is a node of 16 bytes. Nodes of chunks below that size would overlap, and fields as
-- functions from addresses do not show it: the theorems on the lists of a zone have a chunk size
-- of at least 16 bytes as a hypothesis, which is the least that `chunkSize` gives. An index of
-- `m_zones` for a smaller size wraps as a `std::size_t`. The assertions of lib/ListNode.hpp and
-- lib/group.cpp are not tests of the model: the theorems on lists and groups have them as
-- hypotheses.
--
-- Not modelled: the text that `version()` returns, the tests and the start-up code of test
-- programs under test/, the vendored drivers under external/, and the build files.
pub mod Base
pub mod Result
pub mod Store
pub mod ListNode
pub mod Word
pub mod Page
pub mod Group
pub mod Utils
pub mod RegionInfo
pub mod PageAllocator
pub mod Zone
pub mod ZoneAllocator
pub mod Allocator
pub mod Demo
pub mod Examples
