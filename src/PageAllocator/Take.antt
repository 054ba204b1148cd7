-- ===== src/PageAllocator/Take.antt =====
-- What `allocate` does with the group that it found: it takes the front and gives back the rest.
pub mod Cases
use mathlib.Core.Path.{subst}
use native.Mathlib.Decide.{dec_lt}
use liballocator.Base.{
  ℕ, suc, ◌+◌, ◌-◌, ◌≤◌, ◌<◌, ◌≡◌, refl, sym, inl, true, false, List, [], ◌∷◌, ◌++◌, arith,
  append_assoc,
}
use liballocator.Store.{Ptr}
use liballocator.Page.{page_at}
use liballocator.PageAllocator.{PageAllocator, take_group}
use liballocator.PageAllocator.Add.{listed}
use liballocator.PageAllocator.Remove.{marked, unlisted}
use liballocator.PageAllocator.Split.{used_block}
use liballocator.PageAllocator.Flip.{SameLayout}
use liballocator.PageAllocator.Blocks.{Block}
use liballocator.PageAllocator.Blocks.Replace.{Tiles-block}
use liballocator.PageAllocator.Blocks.Member.{In, Keeps, In-append_right, Keeps-middle}
use liballocator.PageAllocator.Blocks.Seams.{
  Coarser, Cuts, split-Coarser, flag-Coarser, cut-Coarser,
}
use liballocator.PageAllocator.Invariant.{Inv}
use liballocator.PageAllocator.Taken.{Taken}
use liballocator.PageAllocator.Take.Cases.{
  block, removed_exact, take_group-SameLayout_exact, take_group-Taken_exact, add_inv,
  take_group-SameLayout_more, take_group-Taken_more,
}

-- The state after `take_group` is valid, and the pages are taken.
module _ (a : PageAllocator) (xs ys : List Block) (b : Block) (n : ℕ) (ls : ℕ → List Ptr)
    (v : Inv a (xs ++ b ∷ ys) ls) (is_free : b.free ≡ true) (pos : 0 < n) (fits : n ≤ b.size) where
  pub take_group_lem :
      (k : ℕ) × (bs' : List Block) × (ls' : ℕ → List Ptr) × (b.ptr ≡ page_at a.pages_head k)
      × Taken a (take_group a b.ptr n) k n
      × SameLayout a (take_group a b.ptr n)
      × Inv (take_group a b.ptr n) bs' ls'
      × In (used_block b.ptr n) bs'
      × Keeps (xs ++ b ∷ ys) bs'
      × Cuts (xs ++ b ∷ ys) bs'
      × Coarser (λ j. suc j ≡ k + n) a.pages_head bs' (xs ++ b ∷ ys)
  take_group_lem =
      let p = b.ptr in
      let m = b.size - n in
      let whole : b ≡ record { ptr = p; size = n + m; free = true } = ground arith in
      let v' = subst (λ c. Inv a (xs ++ c ∷ ys) ls) whole v in
      let (_, (k, e, le)) = Tiles-block a.store a.pages_head _ xs ys b v.tiles in
      let room : k + (n + m) ≤ a.pages_count = omega arith in
      elim (dec_lt 0 m) [
        | yes more ↦
            let rest = marked (used_block (page_at p n) m) true in
            let e' = append_assoc xs (used_block p n ∷ []) (rest ∷ ys) in
            (
              k,
              _,
              _,
              e,
              take_group-Taken_more a xs ys p n m ls v' pos more k e room,
              take_group-SameLayout_more a xs ys p n m ls v' pos more,
              subst
                  (λ t. Inv (take_group a p n) t (
                    listed (unlisted ls (block a xs ys p n m ls v' pos))
                      (used_block (page_at p n) m)))
                  e' (add_inv a xs ys p n m ls v' pos more),
              In-append_right (used_block p n) xs (used_block p n ∷ rest ∷ ys) (inl refl),
              Keeps-middle xs ys (used_block p n ∷ rest ∷ []) b is_free,
              λ h.
                  subst (λ c. Coarser (λ _. ⊥) h (xs ++ c ∷ ys) (xs ++ used_block p n ∷ rest ∷ ys))
                    (sym whole) (split-Coarser (λ _. ⊥) h xs ys p n m true false true),
              subst
                  (λ c.
                    Coarser (λ j. suc j ≡ k + n) a.pages_head (xs ++ used_block p n ∷ rest ∷ ys)
                      (xs ++ c ∷ ys))
                  (sym whole) (cut-Coarser a.pages_head xs ys p k n m false true true e),
            )
        | no zero_left ↦
            let exact : m ≡ 0 = omega arith in
            let all : b ≡ record { ptr = p; size = n; free = true } = ground arith in
            (
              k,
              _,
              _,
              e,
              take_group-Taken_exact a xs ys p n m ls v' pos exact k e room,
              take_group-SameLayout_exact a xs ys p n m ls v' pos exact,
              removed_exact a xs ys p n m ls v' pos exact,
              In-append_right (used_block p n) xs (used_block p n ∷ ys) (inl refl),
              Keeps-middle xs ys (used_block p n ∷ []) b is_free,
              λ h.
                  subst (λ c. Coarser (λ _. ⊥) h (xs ++ c ∷ ys) (xs ++ used_block p n ∷ ys))
                    (sym all) (flag-Coarser (λ _. ⊥) h xs ys p n true false),
              subst
                  (λ c.
                    Coarser (λ j. suc j ≡ k + n) a.pages_head (xs ++ used_block p n ∷ ys)
                      (xs ++ c ∷ ys))
                  (sym all) (flag-Coarser (λ j. suc j ≡ k + n) a.pages_head xs ys p n false true),
            )
      ]
