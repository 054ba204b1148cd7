-- ===== src/PageAllocator/Listed.antt =====
-- The free lists of a `PageAllocator` share no node.
use liballocator.Base.{ℕ, ◌≢◌, List, arith, Once, Apart}
use liballocator.Store.{Ptr}
use liballocator.PageAllocator.{PageAllocator}
use liballocator.PageAllocator.Blocks.{Block, firsts-Once, firsts_same_index}
use liballocator.PageAllocator.Invariant.{Inv}

module _ (a : PageAllocator) (bs : List Block) (ls : ℕ → List Ptr) (v : Inv a bs ls) where
  pub ls-Once : (i : ℕ) → Once (ls i)
  ls-Once i x = omega (arith, v.bag i x, firsts-Once a.store a.pages_head _ bs i v.tiles x)

  pub ls-Apart : (i j : ℕ) → i ≢ j → Apart (ls i) (ls j)
  ls-Apart i j ne x h =
      ground
        (arith, v.bag i x, v.bag j x, firsts_same_index a.store a.pages_head _ bs i j x v.tiles)
