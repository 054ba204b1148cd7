-- ===== src/PageAllocator/Take/Cases.antt =====
-- `allocate` takes a whole group, or splits it and gives back the rest.
use mathlib.Core.Path.{subst}
use liballocator.Base.{
  ℕ, ◌+◌, ◌-◌, ◌≤◌, ◌<◌, ◌≡◌, refl, sym, ap, ◌∙◌, ◌⊎◌, true, List, [], ◌∷◌, ◌++◌, arith,
  append_assoc,
}
use liballocator.Store.{Ptr}
use liballocator.Page.{page_at}
use liballocator.Group.{split_group}
use liballocator.Group.Sizes.{IsSplit, split_group-used, split_group-parts, split_group-IsSplit}
use liballocator.PageAllocator.{PageAllocator, remove_group, add_group, take_group}
use liballocator.PageAllocator.Add.{add_group-Inv, listed}
use liballocator.PageAllocator.Remove.{marked, remove_group-Inv, unlisted}
use liballocator.PageAllocator.Split.{used_block, split_group-Inv}
use liballocator.PageAllocator.Flip.{
  SameLayout, SameLayout-trans, SameLayout-store, remove_group-SameLayout, add_group-SameLayout,
  remove_group-group_size, remove_group-outside, add_group-outside,
}
use liballocator.PageAllocator.Blocks.{Block, free_size-append}
use liballocator.PageAllocator.Blocks.Replace.{Tiles-block}
use liballocator.PageAllocator.Invariant.{Inv}
use liballocator.PageAllocator.Taken.{Taken, Taken-of_blocks}

module _ (a : PageAllocator) (xs ys : List Block) (p : Ptr) (n m : ℕ) (ls : ℕ → List Ptr)
    (v : Inv a (xs ++ record { ptr = p; size = n + m; free = true } ∷ ys) ls) (pos : 0 < n) where
  pub block : Block
  block = record { ptr = p; size = n + m; free = true }

  removed : Inv (remove_group a p) (xs ++ used_block p (n + m) ∷ ys) (unlisted ls block)
  unfolding block
  removed = remove_group-Inv a xs ys block ls v refl

  size_of : a.store.group_size p ≡ n + m
  size_of =
      (Tiles-block a.store a.pages_head _ xs ys (record { ptr = p; size = n + m; free = true })
        v.tiles).0.first

  size_of_removed : (remove_group a p).store.group_size p ≡ n + m
  size_of_removed = ap (λ f. f p) (remove_group-group_size a p) ∙ size_of

  module _ (exact : m ≡ 0) where
    take_group-exact : take_group a p n ≡ remove_group a p
    unfolding take_group split_group
    take_group-exact = ground (arith, size_of_removed)

    pub removed_exact : Inv (take_group a p n) (xs ++ used_block p n ∷ ys) (unlisted ls block)
    removed_exact =
        let whole : n + m ≡ n = omega arith in
        rw take_group-exact (
          subst (λ t. Inv (remove_group a p) (xs ++ used_block p t ∷ ys) (unlisted ls block)) whole
            removed)

    pub take_group-SameLayout_exact : SameLayout a (take_group a p n)
    take_group-SameLayout_exact = rw take_group-exact (remove_group-SameLayout a p)

    pub take_group-Taken_exact :
        (k : ℕ)
        → p ≡ page_at a.pages_head k
        → k + (n + m) ≤ a.pages_count
        → Taken a (take_group a p n) k n
    take_group-Taken_exact k e le =
        Taken-of_blocks a (take_group a p n) xs ys xs ys p n m ls (unlisted ls block) v
          removed_exact take_group-SameLayout_exact.head
          (ground (
            arith,
            free_size-append xs (used_block p n ∷ ys),
            free_size-append xs (record { ptr = p; size = n + m; free = true } ∷ ys),
          ))
          (λ x out. rw take_group-exact (remove_group-outside a p (n + m) size_of x out))
          (λ i h k. absurd (omega arith)) k e le

  module _ (more : 0 < m) where
    split_inv :
        Inv
          (record (remove_group a p) { store = (split_group (remove_group a p).store p n).0 })
          (xs ++ used_block p n ∷ used_block (page_at p n) m ∷ ys)
          (unlisted ls block)
    split_inv = split_group-Inv (remove_group a p) xs ys p n m (unlisted ls block) pos more removed

    take_group-more :
        take_group a p n
        ≡ add_group
            (record (remove_group a p) { store = (split_group (remove_group a p).store p n).0 })
            (page_at p n)
    unfolding take_group
    take_group-more =
        let r = remove_group a p in
        let (w, (k, e, le)) =
          Tiles-block r.store r.pages_head _ xs ys (used_block p (n + m)) removed.tiles in
        rw
          (
            split_group-parts r.store p n m pos more w.small (omega (arith, e, removed.high))
                w.first,
            take_group,
          )
          (ground (arith, e, removed.low))

    IsSplit-sizes :
        IsSplit (remove_group a p).store (split_group (remove_group a p).store p n).0 p n m
    IsSplit-sizes =
        let r = remove_group a p in
        let (w, (k, e, le)) =
          Tiles-block r.store r.pages_head _ xs ys (used_block p (n + m)) removed.tiles in
        split_group-IsSplit r.store p n m pos more w.small (omega (arith, e, removed.high)) w.first

    pub add_inv :
        Inv
          (take_group a p n)
          ((xs ++ used_block p n ∷ []) ++ marked (used_block (page_at p n) m) true ∷ ys)
          (listed (unlisted ls block) (used_block (page_at p n) m))
    add_inv = rw take_group-more (
        add_group-Inv _ (xs ++ used_block p n ∷ []) ys (used_block (page_at p n) m)
          (unlisted ls block)
          (subst
            (λ bs.
              Inv
                (record (remove_group a p) { store = (split_group (remove_group a p).store p n).0 })
                bs (unlisted ls block))
            (sym (append_assoc xs (used_block p n ∷ []) (used_block (page_at p n) m ∷ ys)))
            split_inv)
          refl)

    pub take_group-SameLayout_more : SameLayout a (take_group a p n)
    take_group-SameLayout_more =
        let r = remove_group a p in
        let s = record r { store = (split_group r.store p n).0 } in
        rw take_group-more (
          SameLayout-trans a s (add_group s (page_at p n))
            (SameLayout-trans a r s (remove_group-SameLayout a p)
              (SameLayout-store r s.store (split_group-used r.store p n).2))
            (add_group-SameLayout s (page_at p n)))

    take_group-outside_more :
        (x : Ptr)
        → (x < p) ⊎ (page_at p (n + m) ≤ x)
        → (take_group a p n).store.used x ≡ a.store.used x
    take_group-outside_more x out =
        let r = remove_group a p in
        let s = record r { store = (split_group r.store p n).0 } in
        rw take_group-more (
          add_group-outside s (page_at p n) m IsSplit-sizes.second x (omega arith)
          ∙ (ap (λ f. f x) (split_group-used r.store p n).0
              ∙ remove_group-outside a p (n + m) size_of x out))

    pub take_group-Taken_more :
        (k : ℕ)
        → p ≡ page_at a.pages_head k
        → k + (n + m) ≤ a.pages_count
        → Taken a (take_group a p n) k n
    take_group-Taken_more k e le =
        Taken-of_blocks a (take_group a p n) xs ys xs
          (marked (used_block (page_at p n) m) true ∷ ys) p n m ls
          (listed (unlisted ls block) (used_block (page_at p n) m)) v
          (subst
            (λ bs.
              Inv (take_group a p n) bs (listed (unlisted ls block) (used_block (page_at p n) m)))
            (append_assoc xs (used_block p n ∷ []) (marked (used_block (page_at p n) m) true ∷ ys))
            add_inv)
          take_group-SameLayout_more.head
          (ground (
            arith,
            free_size-append xs (used_block p n ∷ marked (used_block (page_at p n) m) true ∷ ys),
            free_size-append xs (record { ptr = p; size = n + m; free = true } ∷ ys),
          ))
          take_group-outside_more
          (λ i h k.
            let t = take_group a p n in
            let (w, _) =
              Tiles-block t.store t.pages_head _ (xs ++ used_block p n ∷ []) ys
                (marked (used_block (page_at p n) m) true) add_inv.tiles in
            let same : page_at p i ≡ page_at (page_at p n) (i - n) = omega arith in
            ap t.store.used same ∙ w.flags (i - n) (omega arith))
          k e le
