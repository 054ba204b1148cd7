-- ===== src/PageAllocator/Split.antt =====
-- `splitGroup` and `joinGroup` cut a used block in two and put two used blocks together.
use native.Mathlib.Decide.{dec_lt}
use liballocator.Base.{
  ℕ, ◌+◌, ◌-◌, ◌*◌, ◌^◌, ◌<◌, ◌≡◌, sym, ap, ◌∙◌, false, List, [], ◌∷◌, ◌++◌, arith, count,
}
use liballocator.Store.{Ptr, Store}
use liballocator.Page.{page_at}
use liballocator.Group.{split_group, join_group}
use liballocator.Group.Sizes.{
  split_group-used, join_group-used, split_group-IsSplit, group_size-join_group,
}
use liballocator.PageAllocator.{PageAllocator}
use liballocator.PageAllocator.Blocks.{
  Block, Tiles, firsts, free_size, free_size-append, count-firsts-append,
}
use liballocator.PageAllocator.Blocks.Replace.{Tiles-replace, Tiles-block}
use liballocator.PageAllocator.Invariant.{Inv}

-- A change of the blocks that leaves the free ones as they are.
module _ (a : PageAllocator) (s' : Store) (bs cs : List Block) (ls : ℕ → List Ptr) (v : Inv a bs ls)
    (links : s'.links ≡ a.store.links)
    (tiles : Tiles s' a.pages_head cs (page_at a.pages_head a.pages_count))
    (bags : (i x : ℕ) → count x (firsts i cs) ≡ count x (firsts i bs))
    (sum : free_size cs ≡ free_size bs) where
  Inv-sizes : Inv (record a { store = s' }) cs ls
  Inv-sizes = record {
    few = v.few;
    low = v.low;
    high = v.high;
    tail = v.tail;
    tiles = tiles;
    lists = λ i. rw links (v.lists i);
    bag = λ i x. v.bag i x ∙ sym (bags i x);
    idle = λ k h out. rw links (v.idle k h out);
    free = v.free ∙ sym sum;
  }

abbrev pub used_block : Ptr → ℕ → Block
used_block p n = record { ptr = p; size = n; free = false }

module _ (a : PageAllocator) (xs ys : List Block) (p : Ptr) (n m : ℕ) (ls : ℕ → List Ptr)
    (pos : 0 < n) (pos' : 0 < m) where
  -- In a valid state, `splitGroup` inside a used group leaves a valid state, in which the group is
  -- two, of the demanded size and of the remaining one.
  pub split_group-Inv :
      Inv a (xs ++ used_block p (n + m) ∷ ys) ls
      → Inv
          (record a { store = (split_group a.store p n).0 })
          (xs ++ used_block p n ∷ used_block (page_at p n) m ∷ ys)
          ls
  split_group-Inv v =
      let b = used_block p (n + m) in
      let s' = (split_group a.store p n).0 in
      let (w, (k, e, le)) = Tiles-block a.store a.pages_head _ xs ys b v.tiles in
      let (used, links, _) = split_group-used a.store p n in
      let sizes =
        split_group-IsSplit a.store p n m pos pos' w.small (omega (arith, e, v.high)) w.first in
      Inv-sizes a s' _ _ ls v links
        (Tiles-replace a.store s' a.pages_head _ xs (b ∷ [])
          (used_block p n ∷ used_block (page_at p n) m ∷ []) ys v.tiles
          λ q r _ _ (at, u, end). (
            (
              at,
              record {
                pos = pos;
                small = omega (arith, u.small);
                first = sizes.first;
                last = sizes.first_last;
                flags = λ i h. ap (λ f. f (page_at p i)) used ∙ u.flags i (omega arith);
              },
              (
                omega arith,
                record {
                  pos = pos';
                  small = omega (arith, u.small);
                  first = sizes.second;
                  last = sizes.second_last;
                  flags = λ i h.
                      let same : page_at (page_at p n) i ≡ page_at p (n + i) = omega arith in
                      ap (λ f. f (page_at (page_at p n) i)) used
                      ∙ (ap a.store.used same ∙ u.flags (n + i) (omega arith));
                },
                omega arith,
              ),
            ),
            record {
              sizes = λ x h. sizes.outside x (omega arith);
              flags = λ x h. ap (λ f. f x) used;
            },
          ))
        (λ i x. ground (
          arith,
          count-firsts-append x i xs (b ∷ ys),
          count-firsts-append x i xs (used_block p n ∷ used_block (page_at p n) m ∷ ys),
        ))
        (ground (
          arith,
          free_size-append xs (b ∷ ys),
          free_size-append xs (used_block p n ∷ used_block (page_at p n) m ∷ ys),
        ))

  -- In a valid state, `joinGroup` of two neighbouring used groups leaves a valid state, in which they
  -- are one.
  pub join_group-Inv :
      Inv a (xs ++ used_block p n ∷ used_block (page_at p n) m ∷ ys) ls
      → Inv
          (record a { store = join_group a.store p (page_at p n) })
          (xs ++ used_block p (n + m) ∷ ys)
          ls
  join_group-Inv v =
      let b = used_block p n in
      let c = used_block (page_at p n) m in
      let s' = join_group a.store p (page_at p n) in
      let (w, (k, e, le)) = Tiles-block a.store a.pages_head _ xs (c ∷ ys) b v.tiles in
      let (used, links, _) = join_group-used a.store p (page_at p n) in
      Inv-sizes a s' _ _ ls v links
        (Tiles-replace a.store s' a.pages_head _ xs (b ∷ c ∷ []) (used_block p (n + m) ∷ []) ys
          v.tiles
          λ q r low high (at, u, (at', u', end)).
            let small : n + m < 2 ^ 21 = omega (arith, v.few) in
            let sizes =
              group_size-join_group a.store p n m pos pos' small (omega (arith, v.high)) u.first
                u'.first in
            (
              (
                at,
                record {
                  pos = omega arith;
                  small = small;
                  first = ground (arith, sizes p);
                  last = ground (arith, sizes (p + 32 * (n + m) - 32));
                  flags = λ i h. ap (λ f. f (page_at p i)) used ∙ elim (dec_lt i n) [
                    | yes lt ↦ u.flags i lt
                    | no ge ↦
                        let same : page_at p i ≡ page_at (page_at p n) (i - n) = omega arith in
                        ap a.store.used same ∙ u'.flags (i - n) (omega arith)
                  ];
                },
                omega arith,
              ),
              record { sizes = λ x h. ground (arith, sizes x); flags = λ x h. ap (λ f. f x) used },
            ))
        (λ i x. ground (
          arith,
          count-firsts-append x i xs (b ∷ c ∷ ys),
          count-firsts-append x i xs (used_block p (n + m) ∷ ys),
        ))
        (ground (
          arith,
          free_size-append xs (b ∷ c ∷ ys),
          free_size-append xs (used_block p (n + m) ∷ ys),
        ))
