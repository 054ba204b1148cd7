-- ===== src/PageAllocator/Allocate.antt =====
-- `PageAllocator::allocate`: what it returns and what it changes.
use mathlib.Core.Path.{subst}
use native.Mathlib.Decide.{dec_lt, ℕ_discrete as dec_eq}
use liballocator.Base.{
  ℕ, suc, ◌+◌, ◌-◌, ◌≤◌, ◌<◌, ◌≡◌, ◌≢◌, refl, sym, ap, ◌⊎◌, inl, inr, true, false, ◌||◌, Option,
  some, List, [], ◌∷◌, ◌++◌, arith, count, ltb, ◌==◌, Bool-cases,
}
use liballocator.Store.{null, Ptr}
use liballocator.Page.{page_at}
use liballocator.Group.{group_idx}
use liballocator.Group.Index.{group_idx-lt, group_idx_mono}
use liballocator.PageAllocator.{PageAllocator, take_group, allocate, find_group}
use liballocator.PageAllocator.Flip.{SameLayout}
use liballocator.PageAllocator.Search.{find_group-FindsFrom}
use liballocator.PageAllocator.Taken.{Taken}
use liballocator.PageAllocator.Take.{take_group_lem}
use liballocator.PageAllocator.Blocks.{
  Block, firsts, free_size, free_size-append, count-firsts-append,
}
use liballocator.PageAllocator.Blocks.Replace.{Tiles-block}
use liballocator.PageAllocator.Blocks.Member.{In, Keeps}
use liballocator.PageAllocator.Split.{used_block}
use liballocator.PageAllocator.Blocks.Seams.{Coarser, Cuts}
use liballocator.PageAllocator.Invariant.{Inv}

-- A node of a free list is a free block.
firsts-split :
    (i x : ℕ) (bs : List Block)
    → 0 < count x (firsts i bs)
    → (xs : List Block) × (ys : List Block) × (b : Block) × (bs ≡ xs ++ b ∷ ys)
      × (b.ptr ≡ x)
      × (b.free ≡ true)
firsts-split i x [] h = elim h [ ]
firsts-split i x (b ∷ bs) h = elim (dec_eq b.ptr x) [
  | yes here ↦ elim (Bool-cases b.free) [
    | inl is_free ↦ ([], bs, b, refl, here, is_free)
    | inr is_used ↦ later (firsts-split i x bs (ground arith))
  ]
  | no there ↦ later (firsts-split i x bs (ground arith))
]
  where
    later :
        ((xs : List Block) × (ys : List Block) × (c : Block) × (bs ≡ xs ++ c ∷ ys)
          × (c.ptr ≡ x)
          × (c.free ≡ true))
        → (xs : List Block) × (ys : List Block) × (c : Block) × (b ∷ bs ≡ xs ++ c ∷ ys)
          × (c.ptr ≡ x)
          × (c.free ≡ true)
    later (xs, ys, c, e, at, is_free) = (b ∷ xs, ys, c, ap (◌∷◌ b) e, at, is_free)

-- Every free block is smaller than `n` pages.
abbrev pub TooSmall : List Block → ℕ → Type 0
TooSmall bs n = (xs ys : List Block) (b : Block) → bs ≡ xs ++ b ∷ ys → b.free ≡ true → b.size < n

-- The pages that the call returned are taken, and form a used block of a valid state, in which the
-- other used blocks stay, no blocks have been joined, and none is cut but behind these pages.
abbrev pub Succeeds : PageAllocator → List Block → ℕ → Option (Ptr × PageAllocator) → Type 0
Succeeds a bs n r =
    (k : ℕ) × (a' : PageAllocator) × (bs' : List Block) × (ls' : ℕ → List Ptr) × (r
      ≡ some (page_at a.pages_head k, a'))
    × Taken a a' k n
    × SameLayout a a'
    × Inv a' bs' ls'
    × In (used_block (page_at a.pages_head k) n) bs'
    × Keeps bs bs'
    × Cuts bs bs'
    × Coarser (λ j. suc j ≡ k + n) a.pages_head bs' bs

module _ (a : PageAllocator) (bs : List Block) (ls : ℕ → List Ptr) (v : Inv a bs ls) (n : ℕ) where
  TooSmall-counter : a.free_pages_count < n → TooSmall bs n
  TooSmall-counter h xs ys b e is_free =
      omega (arith, v.free, ap free_size e, free_size-append xs (b ∷ ys), size_le)
    where
      size_le : b.size ≤ free_size (b ∷ ys)
      size_le = ground arith

  TooSmall-lists :
      ((j x : ℕ)
        → group_idx n ≤ j
        → j < group_idx n + (20 - group_idx n)
        → 0 < count x (ls j)
        → a.store.group_size x < n)
      → TooSmall bs n
  TooSmall-lists all xs ys b e is_free =
      let (w, _) = Tiles-block a.store a.pages_head _ xs ys b (subst (λ t. Inv a t ls) e v).tiles in
      let i = group_idx b.size in
      elim (dec_lt b.size n) [
        | yes small ↦ small
        | no big ↦
            let at : 0 < count b.ptr (ls i) = ground (
              arith,
              v.bag i b.ptr,
              ap (λ t. count b.ptr (firsts i t)) e,
              count-firsts-append b.ptr i xs (b ∷ ys),
            ) in
            omega (
              arith,
              all i b.ptr (group_idx_mono n b.size (omega arith))
                  (omega (arith, group_idx-lt b.size w.small, group_idx_mono n b.size)) at,
              w.first,
            )
      ]

  allocate-refused : (ltb a.free_pages_count n || n == 0) ≡ true → allocate a n ≡ some (null, a)
  unfolding allocate
  allocate-refused h = rw h

  module _ (asked : (ltb a.free_pages_count n || n == 0) ≡ false) (g : Ptr)
      (run : find_group (20 - group_idx n) (a.pages_count + 1) (group_idx n) a n ≡ some g) where
    allocate-null : g ≡ null → allocate a n ≡ some (null, a)
    unfolding allocate
    allocate-null e = rw (asked, run, e)

    allocate-found : g ≢ null → allocate a n ≡ some (g, take_group a g n)
    unfolding allocate
    allocate-found ne = rw (asked, run) (ground arith)

    -- The group that the search found is a free block.
    allocate-Succeeds :
        (j : ℕ)
        → g ≢ null
        → 0 < count g (ls j)
        → n ≤ a.store.group_size g
        → Succeeds a bs n (allocate a n)
    allocate-Succeeds j ne at fits =
        let (xs, ys, b, e, here, is_free) = firsts-split j g bs (omega (arith, v.bag j g)) in
        let v' = subst (λ t. Inv a t ls) e v in
        let (w, _) = Tiles-block a.store a.pages_head _ xs ys b v'.tiles in
        let room : n ≤ b.size = omega (arith, ap a.store.group_size here, w.first) in
        let (k, bs', ls', at', taken, same, valid, at_k, keeps, cuts, whole) =
          take_group_lem a xs ys b n ls v' is_free (ground arith) room in
        (
          k,
          take_group a b.ptr n,
          bs',
          ls',
          ground (arith, allocate-found ne),
          taken,
          same,
          valid,
          subst (λ t. In (used_block t n) bs') at' at_k,
          subst (λ t. Keeps t bs') (sym e) keeps,
          subst (λ t. Cuts t bs') (sym e) cuts,
          subst (λ t. Coarser (λ j. suc j ≡ k + n) a.pages_head bs' t) (sym e) whole,
        )

  -- In a valid state, `allocate` always ends. Either it returns null and changes nothing, and then
  -- no pages were asked for or every free group is too small. Or it returns `n` pages that were free
  -- and are a used group now, the counter goes down by `n`, no other page changes its flag, the used
  -- groups stay, no groups are joined, none is cut but behind the returned pages, and the new state
  -- is valid.
  pub allocate_lem :
      ((allocate a n ≡ some (null, a)) × (0 < n → TooSmall bs n)) ⊎ Succeeds a bs n (allocate a n)
  allocate_lem = elim (Bool-cases (ltb a.free_pages_count n || n == 0)) [
    | inl refused ↦ inl (allocate-refused refused, λ pos. TooSmall-counter (ground arith))
    | inr asked ↦
        let (g, run, found) = find_group-FindsFrom a bs ls v (20 - group_idx n) (group_idx n) n in
        elim found [
          | inl (e, all) ↦ inl (allocate-null asked g run e, λ pos. TooSmall-lists all)
          | inr (ne, (j, at), fits) ↦ inr (allocate-Succeeds asked g run j ne at fits)
        ]
  ]
