-- ===== src/PageAllocator/Release/Neighbours.antt =====
-- The neighbours that `release` joins are free blocks.
use mathlib.Core.Path.{subst}
use liballocator.Base.{
  ℕ, ◌+◌, ◌-◌, ◌*◌, ◌^◌, ◌≤◌, ◌<◌, ◌≡◌, refl, sym, ap, ◌∙◌, ◌⊎◌, inl, inr, true, false, List, [],
  ◌∷◌, ◌++◌, arith, append_assoc,
}
use liballocator.Store.{Ptr, Store}
use liballocator.Page.{page_at, prev_sibling, next_sibling}
use liballocator.Group.{last_page}
use liballocator.PageAllocator.{PageAllocator, first_above, joinable, is_valid_page}
use liballocator.PageAllocator.Absorb.{free_block}
use liballocator.PageAllocator.Split.{used_block}
use liballocator.PageAllocator.Blocks.{Block, Tiles, Tiles-le, Tiles-split}
use liballocator.PageAllocator.Blocks.Replace.{Tiles-block}
use liballocator.PageAllocator.Invariant.{Inv}

-- What `joinable` says of the neighbour.
joinable-valid :
    (a : PageAllocator) (p q : Ptr)
    → joinable a p q ≡ true
    → (a.pages_head ≤ q) × (q ≤ a.pages_tail) × (a.store.used q ≡ false)
unfolding joinable is_valid_page
joinable-valid a p q h = ground arith

snoc-cases : (xs : List Block) → (xs ≡ []) ⊎ ((ys : List Block) × (c : Block) × (xs ≡ ys ++ c ∷ []))
snoc-cases [] = inl refl
snoc-cases (x ∷ xs) = elim (snoc-cases xs) [
  | inl e ↦ inr ([], x, ap (◌∷◌ x) e)
  | inr (ys, c, e) ↦ inr (x ∷ ys, c, ap (◌∷◌ x) e)
]

first_free :
    (s : Store) (q e : Ptr) (ys : List Block)
    → Tiles s q ys e
    → q < e
    → s.used q ≡ false
    → (zs : List Block) × (m : ℕ) × (ys ≡ free_block q m ∷ zs) × (0 < m)
first_free s q e [] t lt unused = absurd (omega arith)
first_free s q e (c ∷ zs) t lt unused =
    let start : page_at c.ptr 0 ≡ q = omega (arith, t.0) in
    let is_free : c.free ≡ true = ground (arith, ap s.used start, t.1.flags 0 t.1.pos) in
    (zs, c.size, ground (arith, t.0), t.1.pos)

module _ (a : PageAllocator) (xs ys : List Block) (p : Ptr) (n : ℕ) (ls : ℕ → List Ptr)
    (v : Inv a (xs ++ used_block p n ∷ ys) ls) where
  -- A joinable page above is the last page of a free block.
  pub above_block :
      joinable a p (prev_sibling p) ≡ true
      → (zs : List Block) × (q : Ptr) × (m : ℕ) × (xs ≡ zs ++ free_block q m ∷ [])
        × (p ≡ page_at q m)
        × (0 < m)
        × (first_above a (prev_sibling p) ≡ q)
  above_block h =
      let (low, high, unused) = joinable-valid a p (prev_sibling p) h in
      let (w, (k, e, le)) = Tiles-block a.store a.pages_head _ xs ys (used_block p n) v.tiles in
      elim (snoc-cases xs) [
        | inl none_above ↦
            let t =
              (subst
                (λ t.
                  Tiles a.store a.pages_head (t ++ used_block p n ∷ ys)
                    (page_at a.pages_head a.pages_count))
                none_above v.tiles) in
            absurd (omega (arith, t.0, v.low, v.high))
        | inr (zs, c, e') ↦
            let t =
              subst (λ bs. Tiles a.store a.pages_head bs (page_at a.pages_head a.pages_count))
                (append_assoc zs (c ∷ []) (used_block p n ∷ ys))
                (subst
                  (λ t.
                    Tiles a.store a.pages_head (t ++ used_block p n ∷ ys)
                      (page_at a.pages_head a.pages_count))
                  e' v.tiles) in
            let (mid, front, back) =
              Tiles-split a.store a.pages_head _ zs (c ∷ used_block p n ∷ ys) t in
            let u = back.1 in
            let below : p ≡ page_at c.ptr c.size = omega (arith, back.0, back.2.0) in
            let high_p : p < 2 ^ 64 = omega (arith, v.high) in
            let mid_low = Tiles-le a.store a.pages_head zs mid front in
            let last : prev_sibling p ≡ page_at c.ptr (c.size - 1) =
              omega (arith, u.pos, back.0, v.low, mid_low) in
            let last' : page_at c.ptr (c.size - 1) ≡ c.ptr + 32 * c.size - 32 =
              omega (arith, u.pos) in
            let is_free : c.free ≡ true =
              ground (arith, ap a.store.used last, u.flags (c.size - 1) (omega (arith, u.pos))) in
            let whole : c ≡ free_block c.ptr c.size = ground arith in
            let size : a.store.group_size (prev_sibling p) ≡ c.size =
              ap a.store.group_size (last ∙ last') ∙ u.last in
            (
              zs,
              c.ptr,
              c.size,
              rw (← whole) e',
              below,
              u.pos,
              omega (arith, size, last, u.pos, u.small, back.0, v.low, mid_low),
            )
      ]

  -- A joinable page below is the first page of a free block.
  pub below_block :
      joinable a
          (last_page p (a.store.group_size p))
          (next_sibling (last_page p (a.store.group_size p)))
        ≡ true
      → (zs : List Block) × (m : ℕ) × (ys ≡ free_block (page_at p n) m ∷ zs)
        × (0 < m)
        × (next_sibling (last_page p (a.store.group_size p)) ≡ page_at p n)
  below_block h =
      let (low, high, unused) = joinable-valid a _ _ h in
      let (w, (k, e, le)) = Tiles-block a.store a.pages_head _ xs ys (used_block p n) v.tiles in
      let (mid, front, back) =
        Tiles-split a.store a.pages_head _ xs (used_block p n ∷ ys) v.tiles in
      let at : next_sibling (last_page p (a.store.group_size p)) ≡ page_at p n =
        omega (arith, w.first, w.pos, e, v.high) in
      let (zs, m, e', pos) =
        first_free a.store (page_at p n) _ ys
          (subst (λ q. Tiles a.store (q + 32 * n) ys (page_at a.pages_head a.pages_count))
            (sym back.0) back.2)
          (omega (arith, at, v.tail)) (subst (λ q. a.store.used q ≡ false) at unused) in
      (zs, m, e', pos, at)
