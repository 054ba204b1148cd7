-- ===== src/PageAllocator/Invariant.antt =====
-- What holds of a `PageAllocator` between calls.
use liballocator.Base.{ℕ, ◌+◌, ◌^◌, ◌≤◌, ◌<◌, ◌≡◌, List, count}
use liballocator.Store.{Ptr}
use liballocator.Page.{page_at}
use liballocator.ListNode.Chain.{IsList}
use liballocator.ListNode.Add.{IsIdle}
use liballocator.PageAllocator.{PageAllocator}
use liballocator.PageAllocator.Blocks.{Block, Tiles, firsts, free_size}

-- The blocks `bs` tile the descriptors. The free list of each index is well linked and holds the
-- nodes `ls i`, which are the free blocks of that index, each once. A page in no list has no links.
-- The counter is the number of free pages.
pub record Inv (a : PageAllocator) (bs : List Block) (ls : ℕ → List Ptr) : Type 0 where
  pub few : a.pages_count < 2 ^ 21
  pub low : 32 ≤ a.pages_head
  pub high : page_at a.pages_head a.pages_count < 2 ^ 64
  pub tail : a.pages_tail + 32 ≡ page_at a.pages_head a.pages_count
  pub tiles : Tiles a.store a.pages_head bs (page_at a.pages_head a.pages_count)
  pub lists : (i : ℕ) → IsList a.store.links (a.free_group_lists i) (ls i)
  pub bag : (i x : ℕ) → count x (ls i) ≡ count x (firsts i bs)
  pub idle :
      (k : ℕ)
      → k < a.pages_count
      → ((i : ℕ) → count (page_at a.pages_head k) (ls i) ≡ 0)
      → IsIdle a.store.links (page_at a.pages_head k)
  pub free : a.free_pages_count ≡ free_size bs

-- There are such blocks and lists.
abbrev pub IsValid : PageAllocator → Type 0
IsValid a = (bs : List Block) × (ls : ℕ → List Ptr) × Inv a bs ls
