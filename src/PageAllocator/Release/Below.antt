-- ===== src/PageAllocator/Release/Below.antt =====
-- The second loop of `PageAllocator::release` ends, and it joins free pages only.
use mathlib.Core.Path.{subst}
use liballocator.Base.{
  ℕ, zero, suc, ◌+◌, ◌<◌, ◌≡◌, refl, sym, ap, ◌∙◌, inl, inr, true, false, Option, some, List, [],
  ◌∷◌, ◌++◌, arith, length, Bool-cases,
}
use liballocator.Store.{Ptr}
use liballocator.Page.{page_at, next_sibling}
use liballocator.Group.{last_page}
use liballocator.PageAllocator.{PageAllocator, absorb, joinable, join_below}
use liballocator.PageAllocator.Absorb.{
  Joined, Joined-refl, Joined-trans, free_block, absorb_below-Inv, absorb_below-Joined,
}
use liballocator.PageAllocator.Remove.{unlisted}
use liballocator.PageAllocator.Split.{used_block}
use liballocator.PageAllocator.Blocks.{Block}
use liballocator.PageAllocator.Blocks.Replace.{Tiles-block}
use liballocator.PageAllocator.Invariant.{Inv}
use liballocator.PageAllocator.Blocks.Member.{In, Keeps, Keeps-middle}
use liballocator.PageAllocator.Release.Bridges.{
  Bridge, joinable-Bridge_below, Regrouped, Regrouped-refl, Regrouped-trans, Regrouped-join,
}
use liballocator.PageAllocator.Release.Neighbours.{below_block}

-- One round of the second loop, and what it leaves to the next.
module _ (a : PageAllocator) (xs ys : List Block) (h k n : ℕ) (ls : ℕ → List Ptr)
    (head : a.pages_head ≡ h) (v : Inv a (xs ++ used_block (page_at h k) n ∷ ys) ls) where
  abbrev last : Ptr
  last = last_page (page_at h k) (a.store.group_size (page_at h k))

  below_step :
      joinable a last (next_sibling last) ≡ true
      → (zs : List Block) × (ls' : ℕ → List Ptr) × (m : ℕ) × (length zs < length ys)
        × Keeps ys zs
        × Inv
            (absorb a (next_sibling last) (page_at h k) (next_sibling last))
            (xs ++ used_block (page_at h k) m ∷ zs)
            ls'
        × Joined a (absorb a (next_sibling last) (page_at h k) (next_sibling last)) k n k m
        × Regrouped a h
            (xs ++ used_block (page_at h k) n ∷ ys)
            (xs ++ used_block (page_at h k) m ∷ zs)
  below_step go =
      let p = page_at h k in
      let (w, _) = Tiles-block a.store a.pages_head _ xs ys (used_block p n) v.tiles in
      let (zs, m, e, pos, at) = below_block a xs ys p n ls v go in
      let v' = subst (λ t. Inv a (xs ++ used_block p n ∷ t) ls) e v in
      let q = page_at p n in
      let start : p ≡ page_at a.pages_head k = ap (λ t. page_at t k) (sym head) in
      let old : xs ++ used_block p n ∷ ys
          ≡ xs ++ used_block p n ∷ free_block (page_at h (k + n)) m ∷ zs =
        ap (λ t. xs ++ used_block p n ∷ t) e
        ∙ (let there : page_at p n ≡ page_at h (k + n) = omega arith in
            λ i. xs ++ used_block p n ∷ free_block (there i) m ∷ zs) in
      let bridge : (j : ℕ) → suc j ≡ k + n → Bridge a h j = λ j next.
        joinable-Bridge_below a h j last (next_sibling last) go (omega arith) (omega arith) in
      let grown = absorb_below-Inv a xs zs p n m ls w.pos pos v' in
      let joined = absorb_below-Joined a xs zs p n m ls w.pos pos v' k start in
      (
        zs,
        _,
        n + m,
        omega (arith, ap length e),
        (λ c used at.
            Keeps-middle [] zs [] (free_block q m) refl c used (subst (λ t. In c t) e at)),
        subst
            (λ t.
              Inv (absorb a t p t) (xs ++ used_block p (n + m) ∷ zs) (unlisted ls (free_block q m)))
            (sym at) grown,
        subst (λ t. Joined a (absorb a t p t) k n k (n + m)) (sym at) joined,
        subst (λ t. Regrouped a h t (xs ++ used_block p (n + m) ∷ zs)) (sym old)
            (Regrouped-join a h xs zs k n m false true false bridge),
      )

-- Where the second loop ends: with nothing below to join.
abbrev pub EndsBelow :
    PageAllocator → ℕ → ℕ → ℕ → List Block → List Block → Option PageAllocator → Type 0
EndsBelow a h k n xs ys r =
    (m : ℕ) × (a' : PageAllocator) × (ys' : List Block) × (ls' : ℕ → List Ptr) × (r ≡ some a')
    × Inv a' (xs ++ used_block (page_at h k) m ∷ ys') ls'
    × Joined a a' k n k m
    × Keeps ys ys'
    × Regrouped a h (xs ++ used_block (page_at h k) n ∷ ys) (xs ++ used_block (page_at h k) m ∷ ys')
    × (joinable a' (last_page (page_at h k) (a'.store.group_size (page_at h k)))
          (next_sibling (last_page (page_at h k) (a'.store.group_size (page_at h k))))
        ≡ false)

pub join_below-EndsBelow :
    (fuel : ℕ) (a : PageAllocator) (xs ys : List Block) (h k n : ℕ) (ls : ℕ → List Ptr)
    → a.pages_head ≡ h
    → Inv a (xs ++ used_block (page_at h k) n ∷ ys) ls
    → length ys < fuel
    → EndsBelow a h k n xs ys (join_below fuel a (page_at h k))
unfolding join_below
join_below-EndsBelow zero a xs ys h k n ls head v enough = absurd (omega arith)
join_below-EndsBelow (suc fuel) a xs ys h k n ls head v enough =
    let last' = last_page (page_at h k) (a.store.group_size (page_at h k)) in
    elim (Bool-cases (joinable a last' (next_sibling last'))) [
      | inr stop ↦
          (n, a, ys, ls, rw stop, v, Joined-refl a k n, (λ c _ at. at), Regrouped-refl a h _, stop)
      | inl go ↦
          let (zs, ls', m, less, keeps, v', joined, seams) =
            below_step a xs ys h k n ls head v go in
          let a' = absorb a (next_sibling last') (page_at h k) (next_sibling last') in
          let (m', b, ys', ls'', run, w, joined', keeps', seams', stop) =
            join_below-EndsBelow fuel a' xs zs h k m ls' (joined.layout.head ∙ head) v'
              (omega arith) in
          (
            m',
            b,
            ys',
            ls'',
            rw go run,
            w,
            Joined-trans a a' b k n k m k m' joined joined',
            (λ c used at. keeps' c used (keeps c used at)),
            Regrouped-trans a a' h _ (xs ++ used_block (page_at h k) m ∷ zs) _ joined.layout seams
                seams',
            stop,
          )
    ]
