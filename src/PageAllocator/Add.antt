-- ===== src/PageAllocator/Add.antt =====
-- `addGroup` turns a used block into a free one.
use liballocator.Base.{
  ℕ, ◌+◌, ◌-◌, ◌*◌, ◌<◌, ◌≡◌, ◌≢◌, sym, ap, ◌∙◌, inl, inr, true, false, List, [], ◌∷◌, ◌++◌, arith,
  update, count, ◌==◌, Bool-cases,
}
use mathlib.Core.Path.{subst}
use liballocator.Store.{null, Ptr}
use liballocator.Page.{page_at}
use liballocator.ListNode.Chain.{IsList, count-head}
use liballocator.ListNode.Add.{
  IsIdle, add_to_list-IsList, add_to_list-Apart, add_to_list-head, add_to_list-other,
}
use liballocator.Group.{group_idx}
use liballocator.PageAllocator.{PageAllocator, add_group}
use liballocator.PageAllocator.Listed.{ls-Once, ls-Apart}
use liballocator.PageAllocator.Flip.{
  add_group-group_size, add_group-links, add_group-lists, add_group-free, add_group-inside,
  add_group-outside,
}
use liballocator.PageAllocator.Blocks.{
  Block, Tiles, firsts, Tiles-free_size, free_size-append, count-firsts-append,
}
use liballocator.PageAllocator.Blocks.Replace.{Tiles-replace, Tiles-block, count-firsts-others}
use liballocator.PageAllocator.Invariant.{Inv}
use liballocator.PageAllocator.Remove.{marked}

-- The nodes of the lists and that of a block.
abbrev pub listed : (ℕ → List Ptr) → Block → ℕ → List Ptr
listed ls b = update ls (group_idx b.size) (b.ptr ∷ ls (group_idx b.size))

module _ (a : PageAllocator) (xs ys : List Block) (b : Block) (ls : ℕ → List Ptr)
    (v : Inv a (xs ++ b ∷ ys) ls) (is_used : b.free ≡ false) where
  size_of : a.store.group_size b.ptr ≡ b.size
  size_of = let (k, _) = Tiles-block a.store a.pages_head _ xs ys b v.tiles in k.first

  Tiles-added :
      Tiles
        (add_group a b.ptr).store
        a.pages_head
        (xs ++ marked b true ∷ ys)
        (page_at a.pages_head a.pages_count)
  Tiles-added =
      Tiles-replace a.store (add_group a b.ptr).store a.pages_head _ xs (b ∷ [])
        (marked b true ∷ []) ys v.tiles
        λ q r _ _ (e, w, e'). (
          (
            e,
            record {
              pos = w.pos;
              small = w.small;
              first = ap (λ f. f b.ptr) (add_group-group_size a b.ptr) ∙ w.first;
              last = ap (λ f. f (b.ptr + 32 * b.size - 32)) (add_group-group_size a b.ptr) ∙ w.last;
              flags = λ i h. add_group-inside a b.ptr b.size size_of i h;
            },
            e',
          ),
          record {
            sizes = λ x _. ap (λ f. f x) (add_group-group_size a b.ptr);
            flags = λ x h. add_group-outside a b.ptr b.size size_of x (omega arith);
          },
        )

  unlisted : (i : ℕ) → count b.ptr (ls i) ≡ 0
  unlisted i = ground (
    arith,
    v.bag i b.ptr,
    count-firsts-append b.ptr i xs (b ∷ ys),
    count-firsts-others a.store a.pages_head _ xs ys b i v.tiles,
  )

  not_null : b.ptr ≢ null
  not_null =
      let (_, (k, e, le)) = Tiles-block a.store a.pages_head _ xs ys b v.tiles in
      omega (arith, e, v.low)

  idle : IsIdle a.store.links b.ptr
  idle =
      let (w, (k, e, le)) = Tiles-block a.store a.pages_head _ xs ys b v.tiles in
      rw e (v.idle k (omega (arith, le, w.pos)) (λ i. rw (← e) (unlisted i)))

  lists_added :
      (i : ℕ)
      → IsList
          (add_group a b.ptr).store.links
          ((add_group a b.ptr).free_group_lists i)
          (listed ls b i)
  lists_added i =
      let list = v.lists (group_idx b.size) in
      let once = ls-Once a _ ls v (group_idx b.size) in
      rw (add_group-links a b.ptr b.size size_of, add_group-lists a b.ptr b.size size_of)
        (elim (Bool-cases (i == group_idx b.size)) [
          | inl hit ↦
              rw (hit, add_to_list-head a.store.links b.ptr (a.free_group_lists (group_idx b.size)))
                (add_to_list-IsList a.store.links b.ptr (a.free_group_lists (group_idx b.size))
                  (ls (group_idx b.size)) list not_null (unlisted (group_idx b.size)) once idle)
          | inr miss ↦ rw miss (
              add_to_list-Apart a.store.links b.ptr (a.free_group_lists (group_idx b.size))
                (ls (group_idx b.size)) (ls i) (a.free_group_lists i) list (v.lists i) (unlisted i)
                (ls-Apart a _ ls v (group_idx b.size) i (ground arith)))
        ])

  bag_added : (i x : ℕ) → count x (listed ls b i) ≡ count x (firsts i (xs ++ marked b true ∷ ys))
  bag_added i x = ground (
    arith,
    v.bag i x,
    count-firsts-append x i xs (b ∷ ys),
    count-firsts-append x i xs (marked b true ∷ ys),
  )

  IsIdle-added :
      (k : ℕ)
      → k < a.pages_count
      → ((i : ℕ) → count (page_at a.pages_head k) (listed ls b i) ≡ 0)
      → IsIdle (add_group a b.ptr).store.links (page_at a.pages_head k)
  IsIdle-added k h out =
      let x = page_at a.pages_head k in
      let ne : x ≢ b.ptr = λ e. ground (arith, out (group_idx b.size)) in
      let gone : (i : ℕ) → count x (ls i) ≡ 0 = λ i. ground (arith, out i) in
      let (n, p) = v.idle k h gone in
      let (n', p') =
        add_to_list-other a.store.links b.ptr (a.free_group_lists (group_idx b.size)) x ne in
      rw (add_group-links a b.ptr b.size size_of) (
        n' ∙ n,
        p' (λ e.
              let at =
                count-head a.store.links null x (ls (group_idx b.size))
                  (subst (λ t. IsList a.store.links t (ls (group_idx b.size))) (sym e)
                    (v.lists (group_idx b.size)))
                  (omega (arith, v.low)) in
              omega (arith, gone (group_idx b.size), at))
            ∙ p,
      )

  -- In a valid state, `addGroup` of a used group leaves a valid state, in which the group is the
  -- first of its list and its pages are free.
  pub add_group-Inv : Inv (add_group a b.ptr) (xs ++ marked b true ∷ ys) (listed ls b)
  unfolding add_group
  add_group-Inv = record {
    few = v.few;
    low = v.low;
    high = v.high;
    tail = v.tail;
    tiles = Tiles-added;
    lists = lists_added;
    bag = bag_added;
    idle = IsIdle-added;
    free =
        add_group-free a b.ptr b.size size_of
        ∙ ground (
          arith,
          v.free,
          v.few,
          Tiles-free_size (add_group a b.ptr).store a.pages_head (xs ++ marked b true ∷ ys) _
              Tiles-added,
          free_size-append xs (b ∷ ys),
          free_size-append xs (marked b true ∷ ys),
        );
  }
