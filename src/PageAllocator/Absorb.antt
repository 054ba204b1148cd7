-- ===== src/PageAllocator/Absorb.antt =====
-- One round of a loop of `release`: a free neighbour joins the released group.
use mathlib.Core.Path.{subst}
use native.Mathlib.Decide.{dec_lt}
use liballocator.Base.{
  ℕ, ◌+◌, ◌-◌, ◌≤◌, ◌<◌, ◌≡◌, refl, sym, ap, ◌∙◌, ◌⊎◌, inl, inr, true, false, List, [], ◌∷◌, ◌++◌,
  arith, append_assoc,
}
use liballocator.Store.{Ptr}
use liballocator.Page.{page_at}
use liballocator.Group.Sizes.{join_group-used}
use liballocator.PageAllocator.{PageAllocator, remove_group, absorb}
use liballocator.PageAllocator.Remove.{remove_group-Inv, unlisted}
use liballocator.PageAllocator.Split.{used_block, join_group-Inv}
use liballocator.PageAllocator.Flip.{
  SameLayout, SameLayout-refl, SameLayout-trans, SameLayout-store, remove_group-SameLayout,
  remove_group-outside,
}
use liballocator.PageAllocator.Blocks.{Block, free_size-append}
use liballocator.PageAllocator.Blocks.Replace.{Tiles-block}
use liballocator.PageAllocator.Invariant.{Inv}

-- The group of `n` pages from index `k` on has grown to `m` pages from `g` on by pages that were
-- free; they are used now, and the counter has gone down by their number.
pub record Joined (a a' : PageAllocator) (k n g m : ℕ) : Type 0 where
  pub layout : SameLayout a a'
  pub low : g ≤ k
  pub high : k + n ≤ g + m
  pub outside :
      (j : ℕ)
      → (j < g) ⊎ (g + m ≤ j)
      → a'.store.used (page_at a.pages_head j) ≡ a.store.used (page_at a.pages_head j)
  pub were_free :
      (j : ℕ)
      → g ≤ j
      → j < g + m
      → (j < k) ⊎ (k + n ≤ j)
      → a.store.used (page_at a.pages_head j) ≡ false
  pub counter : a'.free_pages_count + m ≡ a.free_pages_count + n

pub Joined-refl : (a : PageAllocator) (k n : ℕ) → Joined a a k n k n
Joined-refl a k n = record {
  layout = SameLayout-refl a;
  low = omega arith;
  high = omega arith;
  outside = λ j _. refl;
  were_free = λ j h h' out. absurd (omega arith);
  counter = refl;
}

pub Joined-trans :
    (a b c : PageAllocator) (k n g m g' m' : ℕ)
    → Joined a b k n g m
    → Joined b c g m g' m'
    → Joined a c k n g' m'
Joined-trans a b c k n g m g' m' u v = record {
  layout = SameLayout-trans a b c u.layout v.layout;
  low = omega (arith, u.low, v.low);
  high = omega (arith, u.high, v.high);
  outside = λ j out.
      subst (λ h. c.store.used (page_at h j) ≡ b.store.used (page_at h j)) u.layout.head
        (v.outside j out)
      ∙ u.outside j (omega (arith, u.low, v.low, u.high, v.high));
  were_free = λ j h h' out. elim (dec_lt j g) [
    | yes before ↦ sym (u.outside j (inl before)) ∙ later j h h' (inl before)
    | no from ↦ elim (dec_lt j (g + m)) [
      | yes inside ↦ u.were_free j (omega arith) inside out
      | no behind ↦ sym (u.outside j (inr (omega arith))) ∙ later j h h' (inr (omega arith))
    ]
  ];
  counter = omega (arith, u.counter, v.counter);
}
  where
    later :
        (j : ℕ)
        → g' ≤ j
        → j < g' + m'
        → (j < g) ⊎ (g + m ≤ j)
        → b.store.used (page_at a.pages_head j) ≡ false
    later j h h' out =
        subst (λ t. b.store.used (page_at t j) ≡ false) u.layout.head (v.were_free j h h' out)

-- The removed block `c` has `c.size` pages from index `i` on.
module _ (a : PageAllocator) (c : Block) (first second : Ptr)
    (size : a.store.group_size c.ptr ≡ c.size) where
  absorb-SameLayout : SameLayout a (absorb a c.ptr first second)
  unfolding absorb
  absorb-SameLayout =
      let r = remove_group a c.ptr in
      SameLayout-trans a r _ (remove_group-SameLayout a c.ptr)
        (SameLayout-store r _ (join_group-used r.store first second).2)

  absorb-outside :
      (x : Ptr)
      → (x < c.ptr) ⊎ (page_at c.ptr c.size ≤ x)
      → (absorb a c.ptr first second).store.used x ≡ a.store.used x
  unfolding absorb
  absorb-outside x out =
      let r = remove_group a c.ptr in
      ap (λ f. f x) (join_group-used r.store first second).0
      ∙ remove_group-outside a c.ptr c.size size x out

abbrev pub free_block : Ptr → ℕ → Block
free_block q size = record { ptr = q; size = size; free = true }

module _ (a : PageAllocator) (xs ys : List Block) (p : Ptr) (n m : ℕ) (ls : ℕ → List Ptr)
    (pos : 0 < n) (pos' : 0 < m) where
  module _ (v : Inv a (xs ++ free_block p n ∷ used_block (page_at p n) m ∷ ys) ls) where
    -- The block above is free.
    pub absorb_above-Inv :
        Inv
          (absorb a p p (page_at p n))
          (xs ++ used_block p (n + m) ∷ ys)
          (unlisted ls (free_block p n))
    unfolding absorb
    absorb_above-Inv =
        join_group-Inv (remove_group a p) xs ys p n m _ pos pos'
          (remove_group-Inv a xs (used_block (page_at p n) m ∷ ys) (free_block p n) ls v refl)

    pub absorb_above-Joined :
        (g : ℕ)
        → p ≡ page_at a.pages_head g
        → Joined a (absorb a p p (page_at p n)) (g + n) m g (n + m)
    absorb_above-Joined g e =
        let (w, _) =
          Tiles-block a.store a.pages_head _ xs (used_block (page_at p n) m ∷ ys) (free_block p n)
            v.tiles in
        let v' = absorb_above-Inv in
        record {
          layout = absorb-SameLayout a (free_block p n) p (page_at p n) w.first;
          low = omega arith;
          high = omega arith;
          outside =
              λ j out. absorb-outside a (free_block p n) p (page_at p n) w.first _ (omega arith);
          were_free = λ j h h' out.
              let there : page_at a.pages_head j ≡ page_at p (j - g) = omega arith in
              ap a.store.used there ∙ w.flags (j - g) (omega arith);
          counter = ground (
            arith,
            v.free,
            v'.free,
            free_size-append xs (free_block p n ∷ used_block (page_at p n) m ∷ ys),
            free_size-append xs (used_block p (n + m) ∷ ys),
          );
        }

  module _ (v : Inv a (xs ++ used_block p n ∷ free_block (page_at p n) m ∷ ys) ls) where
    moved : Inv a ((xs ++ used_block p n ∷ []) ++ free_block (page_at p n) m ∷ ys) ls
    moved =
        subst (λ bs. Inv a bs ls)
          (sym (append_assoc xs (used_block p n ∷ []) (free_block (page_at p n) m ∷ ys))) v

    -- The block below is free.
    pub absorb_below-Inv :
        Inv
          (absorb a (page_at p n) p (page_at p n))
          (xs ++ used_block p (n + m) ∷ ys)
          (unlisted ls (free_block (page_at p n) m))
    unfolding absorb
    absorb_below-Inv =
        let q = page_at p n in
        join_group-Inv (remove_group a q) xs ys p n m _ pos pos' (
          subst (λ bs. Inv (remove_group a q) bs (unlisted ls (free_block q m)))
            (append_assoc xs (used_block p n ∷ []) (used_block q m ∷ ys))
            (remove_group-Inv a (xs ++ used_block p n ∷ []) ys (free_block q m) ls moved refl))

    pub absorb_below-Joined :
        (g : ℕ)
        → p ≡ page_at a.pages_head g
        → Joined a (absorb a (page_at p n) p (page_at p n)) g n g (n + m)
    absorb_below-Joined g e =
        let q = page_at p n in
        let (w, _) =
          Tiles-block a.store a.pages_head _ (xs ++ used_block p n ∷ []) ys (free_block q m)
            moved.tiles in
        let v' = absorb_below-Inv in
        record {
          layout = absorb-SameLayout a (free_block q m) p q w.first;
          low = omega arith;
          high = omega arith;
          outside = λ j out. absorb-outside a (free_block q m) p q w.first _ (omega arith);
          were_free = λ j h h' out.
              let there : page_at a.pages_head j ≡ page_at q (j - (g + n)) = omega arith in
              ap a.store.used there ∙ w.flags (j - (g + n)) (omega arith);
          counter = ground (
            arith,
            v.free,
            v'.free,
            free_size-append xs (used_block p n ∷ free_block q m ∷ ys),
            free_size-append xs (used_block p (n + m) ∷ ys),
          );
        }
