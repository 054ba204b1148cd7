-- ===== src/PageAllocator/Init/Extend.antt =====
-- A used block behind the descriptors that are there.
use native.Mathlib.Decide.{dec_lt}
use liballocator.Base.{
  ℕ, suc, ◌+◌, ◌-◌, ◌*◌, ◌^◌, ◌≤◌, ◌<◌, ◌≡◌, refl, ◌∙◌, ◌⊎◌, inl, inr, true, List, [], ◌∷◌, ◌++◌,
  arith, count,
}
use liballocator.Store.{Ptr, Store}
use liballocator.Page.{page_at}
use liballocator.ListNode.Add.{IsIdle}
use liballocator.ListNode.Chain.{Chain-frame}
use liballocator.PageAllocator.{PageAllocator}
use liballocator.PageAllocator.Blocks.{
  Block, Tiles, Tiles-append, Tiles-frame, count-firsts-append, count-firsts-outside,
  free_size-append,
}
use liballocator.PageAllocator.Blocks.Together.{Together}
use liballocator.PageAllocator.Split.{used_block}
use liballocator.PageAllocator.Invariant.{Inv}

-- The state as if there were `m` pages.
abbrev pub upto : PageAllocator → ℕ → PageAllocator
upto a m = record a { pages_count = m; pages_tail = page_at a.pages_head m - 32 }

-- A valid state with the blocks `bs` and others behind them. Of the `c` pages from index `m` on,
-- counted from the descriptor `h` on, two neighbours are in one block, unless the first is in use.
abbrev pub Extended : PageAllocator → Ptr → ℕ → ℕ → List Block → Type 0
Extended a h m c bs =
    (cs : List Block) × (ls : ℕ → List Ptr) × Inv a (bs ++ cs) ls
    × ((k : ℕ) → m ≤ k → suc k < m + c → Together h cs k)

-- The `c` descriptors from `page` on are a group of used pages in no list, and no other has changed.
pub record Fresh (s s' : Store) (page : Ptr) (c : ℕ) : Type 0 where
  pub next : (x : Ptr) → (x < page) ⊎ (page_at page c ≤ x) → s'.links.next x ≡ s.links.next x
  pub prev : (x : Ptr) → (x < page) ⊎ (page_at page c ≤ x) → s'.links.prev x ≡ s.links.prev x
  pub sizes : (x : Ptr) → (x < page) ⊎ (page_at page c ≤ x) → s'.group_size x ≡ s.group_size x
  pub flags : (x : Ptr) → (x < page) ⊎ (page_at page c ≤ x) → s'.used x ≡ s.used x
  pub idle : (j : ℕ) → j < c → IsIdle s'.links (page_at page j)
  pub first : s'.group_size page ≡ c
  pub last : s'.group_size (page + 32 * c - 32) ≡ c
  pub used : (j : ℕ) → j < c → s'.used (page_at page j) ≡ true

module _ (a : PageAllocator) (s' : Store) (m c : ℕ) (bs : List Block) (ls : ℕ → List Ptr)
    (v : Inv (upto a m) bs ls) (pos : 0 < c) (few : m + c < 2 ^ 21)
    (high : page_at a.pages_head (m + c) < 2 ^ 64)
    (w : Fresh a.store s' (page_at a.pages_head m) c) where
  block : Block
  block = used_block (page_at a.pages_head m) c

  tiles : Tiles s' a.pages_head (bs ++ block ∷ []) (page_at a.pages_head (m + c))
  unfolding block
  tiles =
      Tiles-append s' a.pages_head (page_at a.pages_head m) (page_at a.pages_head (m + c)) bs
        (block ∷ [])
        (Tiles-frame a.store s' a.pages_head (page_at a.pages_head m) bs v.tiles
          (record { sizes = λ x h k. w.sizes x (inl k); flags = λ x h k. w.flags x (inl k) }))
        (
          refl,
          record { pos = pos; small = omega arith; first = w.first; last = w.last; flags = w.used },
          omega arith,
        )

  -- The nodes of the lists stand before the new block.
  node_below : (i y : ℕ) → 0 < count y (ls i) → y < page_at a.pages_head m
  node_below i y at = elim (dec_lt y (page_at a.pages_head m)) [
    | yes below ↦ below
    | no above ↦ absurd (
        omega (
          arith,
          v.bag i y,
          count-firsts-outside a.store a.pages_head (page_at a.pages_head m) bs i y v.tiles
              (inr (omega arith)),
        ))
  ]

  pub extend-Inv :
      Inv
        (upto (record a { store = s' }) (m + c))
        (bs ++ used_block (page_at a.pages_head m) c ∷ [])
        ls
  unfolding block
  extend-Inv = record {
    few = few;
    low = v.low;
    high = high;
    tail = omega (arith, v.low);
    tiles = tiles;
    lists = λ i.
        Chain-frame a.store.links s'.links _ (a.free_group_lists i) (ls i) (v.lists i)
          λ y at. (w.next y (inl (node_below i y at)), w.prev y (inl (node_below i y at)));
    bag = λ i x. ground (arith, v.bag i x, count-firsts-append x i bs (block ∷ []));
    idle = λ k lt out. elim (dec_lt k m) [
      | yes before ↦
          let (n, p) = v.idle k before out in
          (w.next _ (inl (omega arith)) ∙ n, w.prev _ (inl (omega arith)) ∙ p)
      | no from ↦
          let there : page_at a.pages_head k ≡ page_at (page_at a.pages_head m) (k - m) =
            omega arith in
          rw there (w.idle (k - m) (omega arith))
    ];
    free = ground (arith, v.free, free_size-append bs (block ∷ []));
  }
