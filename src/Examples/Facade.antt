-- ===== src/Examples/Facade.antt =====
-- Runs of the whole allocator, and tests of its calls.
use liballocator.Base.{ℕ, ◌≡◌, ◌⊎◌, refl, arith, true, List, [], ◌∷◌}
use liballocator.Result.{null_pointer, Result, ok, err, ◌>>=◌}
use liballocator.Store.{null}
use liballocator.ZoneAllocator.{ZoneAllocator, with_pages}
use liballocator.PageAllocator.Allocate.{TooSmall}
use liballocator.ZoneAllocator.Allocate
use liballocator.ZoneAllocator.Allocate.{page_count}
use liballocator.ZoneAllocator.Large.{TakesPages, allocate_large}
use liballocator.Allocator.{globals, init_range, clear, allocate, release}
use liballocator.Allocator.Errors.{cleared-null}
use liballocator.Examples.{four, four_store, four_blocks, four_lists, four-Inv}

-- The objects before `init`.
abbrev pub fresh : ZoneAllocator
fresh = globals four_store 64

-- Three blocks of 100, 20 and 1000 bytes, from 16 pages of 256 bytes, are allocated and released:
-- their addresses, and the numbers of free pages in between. `antt nf` shows the value.
abbrev three_blocks : Result (List ℕ)
three_blocks = do
  (done, a) ← init_range fresh 4096 8192 256
  (p, b) ← allocate a 100
  (q, c) ← allocate b 20
  (r, d) ← allocate c 1000
  e ← release d q
  f ← release e p
  g ← release f r
  ok (
      p ∷ q ∷ r ∷ a.pages.free_pages_count ∷ b.pages.free_pages_count ∷ c.pages.free_pages_count
      ∷ d.pages.free_pages_count ∷ e.pages.free_pages_count ∷ f.pages.free_pages_count
      ∷ g.pages.free_pages_count ∷ [])

-- An allocator on the four pages.
abbrev on_four : ZoneAllocator
on_four = record (with_pages fresh four) { attached = true; page_size = 128 }

cleared-null_example :
    (allocate (clear on_four) 100 ≡ err null_pointer)
    × (release (clear on_four) 4096 ≡ err null_pointer)
cleared-null_example = cleared-null on_four 100 4096 (omega arith) (λ e. omega (arith, e))

allocate_large_example :
    ((Allocate.allocate on_four 200 ≡ ok (null, with_pages on_four four))
      × TooSmall four_blocks (page_count 200 128))
    ⊎ TakesPages on_four 200 (Allocate.allocate on_four 200)
allocate_large_example =
    allocate_large on_four 200 refl (omega arith) (omega arith) four_blocks four_lists four-Inv
      (omega arith)
