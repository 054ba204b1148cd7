-- ===== src/PageAllocator/Remove.antt =====
-- `removeGroup` turns a free block into a used one.
use liballocator.Base.{
  ℕ, ◌+◌, ◌-◌, ◌*◌, ◌<◌, ◌≡◌, ◌≢◌, sym, ap, ◌∙◌, inl, inr, Bool, true, false, List, [], ◌∷◌, ◌++◌,
  arith, update, count, erase, ◌==◌, count-erase, Bool-cases,
}
use native.Mathlib.Decide.{ℕ_discrete as dec_eq}
use liballocator.Store.{Ptr}
use liballocator.Page.{page_at}
use liballocator.ListNode.Chain.{IsList}
use liballocator.ListNode.Add.{IsIdle}
use liballocator.ListNode.Remove.{
  remove_from_list-IsList, remove_from_list-Apart, remove_from_list-IsIdle, next_ne_self,
  remove_from_list-outside,
}
use liballocator.Group.{group_idx}
use liballocator.PageAllocator.{PageAllocator, remove_group}
use liballocator.PageAllocator.Listed
use liballocator.PageAllocator.Flip.{
  remove_group-group_size, remove_group-links, remove_group-lists, remove_group-free,
  remove_group-inside, remove_group-outside,
}
use liballocator.PageAllocator.Blocks.{
  Block, Tiles, firsts, Tiles-free_size, free_size-append, count-firsts-append,
}
use liballocator.PageAllocator.Blocks.Replace.{Tiles-replace, Tiles-block}
use liballocator.PageAllocator.Invariant.{Inv}

-- The block, as it is after `removeGroup` or `addGroup`.
abbrev pub marked : Block → Bool → Block
marked b f = record b { free = f }

-- The nodes of the lists without those of a block.
abbrev pub unlisted : (ℕ → List Ptr) → Block → ℕ → List Ptr
unlisted ls b = update ls (group_idx b.size) (erase b.ptr (ls (group_idx b.size)))

module _ (a : PageAllocator) (xs ys : List Block) (b : Block) (ls : ℕ → List Ptr)
    (v : Inv a (xs ++ b ∷ ys) ls) (is_free : b.free ≡ true) where
  size_of : a.store.group_size b.ptr ≡ b.size
  size_of = let (k, _) = Tiles-block a.store a.pages_head _ xs ys b v.tiles in k.first

  Tiles-removed :
      Tiles
        (remove_group a b.ptr).store
        a.pages_head
        (xs ++ marked b false ∷ ys)
        (page_at a.pages_head a.pages_count)
  Tiles-removed =
      Tiles-replace a.store (remove_group a b.ptr).store a.pages_head _ xs (b ∷ [])
        (marked b false ∷ []) ys v.tiles
        λ q r _ _ (e, w, e'). (
          (
            e,
            record {
              pos = w.pos;
              small = w.small;
              first = ap (λ f. f b.ptr) (remove_group-group_size a b.ptr) ∙ w.first;
              last =
                  ap (λ f. f (b.ptr + 32 * b.size - 32)) (remove_group-group_size a b.ptr) ∙ w.last;
              flags = λ i h. remove_group-inside a b.ptr b.size size_of i h;
            },
            e',
          ),
          record {
            sizes = λ x _. ap (λ f. f x) (remove_group-group_size a b.ptr);
            flags = λ x h. remove_group-outside a b.ptr b.size size_of x (omega arith);
          },
        )

  listed : 0 < count b.ptr (ls (group_idx b.size))
  listed = ground (
    arith,
    v.bag (group_idx b.size) b.ptr,
    count-firsts-append b.ptr (group_idx b.size) xs (b ∷ ys),
  )

  lists_removed :
      (i : ℕ)
      → IsList
          (remove_group a b.ptr).store.links
          ((remove_group a b.ptr).free_group_lists i)
          (unlisted ls b i)
  lists_removed i =
      rw (remove_group-links a b.ptr b.size size_of, remove_group-lists a b.ptr b.size size_of)
        (elim (Bool-cases (i == group_idx b.size)) [
          | inl hit ↦ rw hit (
              remove_from_list-IsList a.store.links b.ptr (a.free_group_lists (group_idx b.size))
                (ls (group_idx b.size)) (v.lists (group_idx b.size)) listed
                (Listed.ls-Once a _ ls v (group_idx b.size)))
          | inr miss ↦ rw miss (
              remove_from_list-Apart a.store.links b.ptr (a.free_group_lists (group_idx b.size))
                (ls (group_idx b.size)) (v.lists (group_idx b.size)) listed
                (Listed.ls-Once a _ ls v (group_idx b.size)) (ls i) (a.free_group_lists i)
                (v.lists i) (Listed.ls-Apart a _ ls v (group_idx b.size) i (ground arith)))
        ])

  bag_removed :
      (i x : ℕ) → count x (unlisted ls b i) ≡ count x (firsts i (xs ++ marked b false ∷ ys))
  bag_removed i x = ground (
    arith,
    v.bag i x,
    listed,
    count-erase b.ptr x (ls (group_idx b.size)),
    count-firsts-append x i xs (b ∷ ys),
    count-firsts-append x i xs (marked b false ∷ ys),
  )

  unlisted-ne : (i x : ℕ) → x ≢ b.ptr → count x (unlisted ls b i) ≡ count x (ls i)
  unlisted-ne i x ne = ground (arith, listed, count-erase b.ptr x (ls (group_idx b.size)))

  IsIdle-removed :
      (k : ℕ)
      → k < a.pages_count
      → ((i : ℕ) → count (page_at a.pages_head k) (unlisted ls b i) ≡ 0)
      → IsIdle (remove_group a b.ptr).store.links (page_at a.pages_head k)
  IsIdle-removed k h out =
      let x = page_at a.pages_head k in
      let once = Listed.ls-Once a _ ls v (group_idx b.size) in
      let list = v.lists (group_idx b.size) in
      rw (remove_group-links a b.ptr b.size size_of) (elim (dec_eq x b.ptr) [
        | yes e ↦ rw e (
            remove_from_list-IsIdle a.store.links b.ptr (a.free_group_lists (group_idx b.size)) (
              next_ne_self a.store.links b.ptr (a.free_group_lists (group_idx b.size))
                (ls (group_idx b.size)) list listed once))
        | no ne ↦
            let gone = λ (i : ℕ). sym (unlisted-ne i x ne) ∙ out i in
            let (n, p) = v.idle k h gone in
            let (n', p') =
              remove_from_list-outside a.store.links b.ptr (a.free_group_lists (group_idx b.size))
                (ls (group_idx b.size)) list listed once x (omega (arith, v.low))
                (gone (group_idx b.size)) in
            (n' ∙ n, p' ∙ p)
      ])

  -- In a valid state, `removeGroup` of a free group leaves a valid state, in which the group is no
  -- more in its list and its pages are used.
  pub remove_group-Inv : Inv (remove_group a b.ptr) (xs ++ marked b false ∷ ys) (unlisted ls b)
  unfolding remove_group
  remove_group-Inv = record {
    few = v.few;
    low = v.low;
    high = v.high;
    tail = v.tail;
    tiles = Tiles-removed;
    lists = lists_removed;
    bag = bag_removed;
    idle = IsIdle-removed;
    free =
        remove_group-free a b.ptr b.size size_of
        ∙ ground (
          arith,
          v.free,
          v.few,
          Tiles-free_size a.store a.pages_head (xs ++ b ∷ ys) _ v.tiles,
          free_size-append xs (b ∷ ys),
          free_size-append xs (marked b false ∷ ys),
        );
  }
