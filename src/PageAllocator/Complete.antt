-- ===== src/PageAllocator/Complete.antt =====
-- `PageAllocator::allocate` finds every run of free pages that lies in one region.
use mathlib.Core.Path.{subst}
use native.Mathlib.Decide.{dec_lt}
use liballocator.Base.{
  ℕ, zero, suc, ◌+◌, ◌-◌, ◌*◌, ◌≤◌, ◌<◌, ◌≡◌, refl, sym, ap, ◌∙◌, inl, inr, true, false, some, List,
  [], ◌∷◌, ◌++◌, arith,
}
use liballocator.Store.{Ptr, Store}
use liballocator.Page.{page_at}
use liballocator.PageAllocator.{PageAllocator, allocate}
use liballocator.PageAllocator.Allocate.{allocate_lem}
use liballocator.PageAllocator.Taken.{Taken, page_used}
use liballocator.PageAllocator.Merged.{Merged}
use liballocator.PageAllocator.Release.Bridges.{Bridge}
use liballocator.PageAllocator.Blocks.{Block, Tiles}
use liballocator.PageAllocator.Blocks.Seams.{Seam, Tiles-Seam}
use liballocator.PageAllocator.Blocks.Replace.{Tiles-block}
use liballocator.PageAllocator.Invariant.{Inv, IsValid}
use liballocator.PageAllocator.Live.{Live}
use liballocator.PageAllocator.History.{Reach, start, call, Holds, Step-Moved}

-- There is a block with the pages of index `k` up to `k + n`.
abbrev Covers : Ptr → List Block → ℕ → ℕ → Type 0
Covers h bs k n =
    (xs : List Block) × (ys : List Block) × (b : Block) × (bs ≡ xs ++ b ∷ ys)
    × (b.ptr ≤ page_at h k)
    × (page_at h (k + n) ≤ page_at b.ptr b.size)

-- A run that starts in the first block and has no gaps stays in it.
first-covers :
    (s : Store) (h e : Ptr) (b : Block) (bs : List Block) (g k n i : ℕ)
    → Tiles s (page_at h g) (b ∷ bs) e
    → k < g + b.size
    → ((j : ℕ) → suc j < n → Seam h (b ∷ bs) (k + j))
    → i < n
    → k + i < g + b.size
first-covers s h e b bs g k n zero t lt seams less = omega arith
first-covers s h e b bs g k n (suc i) t lt seams less =
    let before = first-covers s h e b bs g k n i t lt seams (omega arith) in
    elim (seams i less) [
      | inl here ↦ omega (arith, here.1, t.0)
      | inr there ↦
          let (low, _) = Tiles-Seam s h (page_at h g + 32 * b.size) e bs (k + i) t.2 there in
          absurd (omega arith)
    ]

Seam-Covers :
    (s : Store) (h e : Ptr) (bs : List Block) (g k n : ℕ)
    → Tiles s (page_at h g) bs e
    → g ≤ k
    → page_at h k < e
    → 0 < n
    → ((j : ℕ) → suc j < n → Seam h bs (k + j))
    → Covers h bs k n
Seam-Covers s h e [] g k n t low high pos seams = absurd (omega (arith, t))
Seam-Covers s h e (b ∷ bs) g k n t low high pos seams = elim (dec_lt k (g + b.size)) [
  | yes here ↦
      let last = first-covers s h e b bs g k n (n - 1) t here seams (omega arith) in
      ([], bs, b, refl, omega (arith, t.0), omega (arith, t.0))
  | no behind ↦
      let next : page_at h g + 32 * b.size ≡ page_at h (g + b.size) = omega arith in
      let (xs, ys, c, e', low', high') =
        Seam-Covers s h e bs (g + b.size) k n (subst (λ p. Tiles s p bs e) next t.2) (omega arith)
          high pos
          (λ j less. elim (seams j less) [
            | inl here ↦ absurd (omega (arith, here.1, t.0))
            | inr there ↦ there
          ]) in
      (b ∷ xs, ys, c, ap (◌∷◌ b) e', low', high')
]

-- Pages that are free and next to each other, in one region.
pub record FreeRun (a : PageAllocator) (k n : ℕ) : Type 0 where
  pub within : k + n ≤ a.pages_count
  pub free : (i : ℕ) → i < n → page_used a (k + i) ≡ false
  pub region : (i : ℕ) → suc i < n → Bridge a a.pages_head (k + i)

-- They are in one free block.
FreeRun-block :
    (a : PageAllocator) (bs : List Block) (ls : ℕ → List Ptr) (k n : ℕ)
    → Inv a bs ls
    → Merged a bs
    → 0 < n
    → FreeRun a k n
    → (xs : List Block) × (ys : List Block) × (b : Block) × (bs ≡ xs ++ b ∷ ys)
      × (b.free ≡ true)
      × (n ≤ b.size)
FreeRun-block a bs ls k n v merged pos run =
    let h = a.pages_head in
    let e = page_at h a.pages_count in
    let first : h ≡ page_at h 0 = omega arith in
    let (xs, ys, b, split, low, high) =
      Seam-Covers a.store h e bs 0 k n (subst (λ p. Tiles a.store p bs e) first v.tiles)
        (omega arith) (omega (arith, run.within)) pos
        (λ j less.
          merged (k + j) (omega (arith, run.within)) (run.free j (omega arith))
            (let next : k + suc j ≡ suc (k + j) = omega arith in
              subst (λ t. page_used a t ≡ false) next (run.free (suc j) less))
            (run.region j less)) in
    let (w, (g, at, le)) =
      Tiles-block a.store h e xs ys b (subst (λ t. Tiles a.store h t e) split v.tiles) in
    let there : page_at b.ptr (k - g) ≡ page_at h (k + 0) = omega arith in
    let flag = sym (w.flags (k - g) (omega arith)) ∙ (ap a.store.used there ∙ run.free 0 pos) in
    (xs, ys, b, split, ground arith, omega arith)

-- So `allocate` finds one.
Merged-allocate :
    (a : PageAllocator) (bs : List Block) (ls : ℕ → List Ptr) (k n : ℕ)
    → Inv a bs ls
    → Merged a bs
    → 0 < n
    → FreeRun a k n
    → (k' : ℕ) × (a' : PageAllocator) × (allocate a n ≡ some (page_at a.pages_head k', a'))
      × Taken a a' k' n
Merged-allocate a bs ls k n v merged pos run = elim (allocate_lem a bs ls v n) [
  | inl (_, small) ↦
      let (xs, ys, b, e, is_free, room) = FreeRun-block a bs ls k n v merged pos run in
      let less = small pos xs ys b e is_free in absurd (omega arith)
  | inr (k', a', bs', ls', e, taken, _, _, _, _, _, _) ↦ (k', a', e, taken)
]

-- The free groups are as large as they can be after any number of calls.
Reach-Merged :
    {s a : PageAllocator} {live : Live} (v : IsValid s)
    → Merged s v.0
    → Reach s a live
    → (w : Holds a live) × Merged a w.bs
Reach-Merged (bs, ls, v) merged start = (record { bs = bs; ls = ls; inv = v; held = tt }, merged)
Reach-Merged v merged (call r st) =
    let (w, before) = Reach-Merged v merged r in
    let after = Step-Moved st w in (after.holds, after.merged before)

-- A valid state in which two free neighbours of one region are in one group.
abbrev pub IsMerged : PageAllocator → Type 0
IsMerged s = (v : IsValid s) × Merged s v.0

-- From a valid state in which any two neighbouring free pages that `getRegion` finds in the same region
-- are in one group, and whatever calls of `allocate` and `release` a client makes that releases only
-- what it was given and holds: if there are `n` consecutive free pages of which `getRegion` finds every
-- two neighbours in the same region, then `allocate` of `n` pages succeeds, with pages that were free.
pub Reach-allocate :
    (s a : PageAllocator) (live : Live) (k n : ℕ)
    → IsMerged s
    → Reach s a live
    → 0 < n
    → FreeRun a k n
    → (k' : ℕ) × (a' : PageAllocator) × (allocate a n ≡ some (page_at a.pages_head k', a'))
      × Taken a a' k' n
Reach-allocate s a live k n (v, merged) r pos run =
    let (w, now) = Reach-Merged v merged r in Merged-allocate a w.bs w.ls k n w.inv now pos run
