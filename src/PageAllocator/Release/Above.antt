-- ===== src/PageAllocator/Release/Above.antt =====
-- The first loop of `PageAllocator::release` ends, and it joins free pages only.
use mathlib.Core.Path.{subst}
use liballocator.Base.{
  ℕ, zero, suc, ◌+◌, ◌<◌, ◌≡◌, refl, sym, ap, ◌∙◌, inl, inr, true, false, Option, some, List, [],
  ◌∷◌, ◌++◌, arith, append_assoc, length, length-append, Bool-cases,
}
use liballocator.Store.{Ptr}
use liballocator.Page.{page_at, prev_sibling}
use liballocator.PageAllocator.{PageAllocator, absorb, first_above, joinable, join_above}
use liballocator.PageAllocator.Absorb.{
  Joined, Joined-refl, Joined-trans, free_block, absorb_above-Inv, absorb_above-Joined,
}
use liballocator.PageAllocator.Remove.{unlisted}
use liballocator.PageAllocator.Split.{used_block}
use liballocator.PageAllocator.Blocks.{Block}
use liballocator.PageAllocator.Blocks.Replace.{Tiles-block}
use liballocator.PageAllocator.Invariant.{Inv}
use mathlib.Core.List.{append-nil}
use liballocator.PageAllocator.Blocks.Member.{In, Keeps, Keeps-middle}
use liballocator.PageAllocator.Release.Bridges.{
  Bridge, joinable-Bridge_above, Regrouped, Regrouped-refl, Regrouped-trans, Regrouped-join,
}
use liballocator.PageAllocator.Release.Neighbours.{above_block}

-- One round of the first loop, and what it leaves to the next.
module _ (a : PageAllocator) (xs ys : List Block) (h k n : ℕ) (ls : ℕ → List Ptr)
    (head : a.pages_head ≡ h) (v : Inv a (xs ++ used_block (page_at h k) n ∷ ys) ls) where
  above_step :
      joinable a (page_at h k) (prev_sibling (page_at h k)) ≡ true
      → (zs : List Block) × (ls' : ℕ → List Ptr) × (g : ℕ) × (m : ℕ) × (length zs < length xs)
        × Keeps xs zs
        × (first_above a (prev_sibling (page_at h k)) ≡ page_at h g)
        × Inv
            (absorb a (page_at h g) (page_at h g) (page_at h k))
            (zs ++ used_block (page_at h g) m ∷ ys)
            ls'
        × Joined a (absorb a (page_at h g) (page_at h g) (page_at h k)) k n g m
        × Regrouped a h
            (xs ++ used_block (page_at h k) n ∷ ys)
            (zs ++ used_block (page_at h g) m ∷ ys)
  above_step go =
      let p = page_at h k in
      let (w, (_, low, high)) = Tiles-block a.store a.pages_head _ xs ys (used_block p n) v.tiles in
      let (zs, q, m, e, below, pos, first) = above_block a xs ys p n ls v go in
      let v' =
        subst (λ bs. Inv a bs ls) (append_assoc zs (free_block q m ∷ []) (used_block p n ∷ ys))
          (subst (λ t. Inv a (t ++ used_block p n ∷ ys) ls) e v) in
      let v'' = subst (λ t. Inv a (zs ++ free_block q m ∷ used_block t n ∷ ys) ls) below v' in
      let (_, (g, at, _)) =
        Tiles-block a.store a.pages_head _ zs (used_block p n ∷ ys) (free_block q m) v'.tiles in
      let at' : q ≡ page_at h g = omega arith in
      let sum : g + m ≡ k = omega arith in
      let grown = absorb_above-Inv a zs ys q m n ls pos w.pos v'' in
      let old : xs ++ used_block p n ∷ ys
          ≡ zs ++ free_block (page_at h g) m ∷ used_block (page_at h (g + m)) n ∷ ys =
        ap (λ t. t ++ used_block p n ∷ ys) e
        ∙ (append_assoc zs (free_block q m ∷ []) (used_block p n ∷ ys) ∙ λ i.
            zs ++ free_block (at' i) m ∷ used_block (page_at h (sym sum i)) n ∷ ys) in
      let bridge : (j : ℕ) → suc j ≡ g + m → Bridge a h j = λ j next.
        joinable-Bridge_above a h j p (prev_sibling p) go (omega arith)
          (omega (arith, v.low, v.high, head)) in
      let joined = absorb_above-Joined a zs ys q m n ls pos w.pos v'' g at in
      (
        zs,
        _,
        g,
        m + n,
        omega (arith, ap length e, length-append zs (free_block q m ∷ [])),
        (λ c used at.
            subst (λ t. In c t) (append-nil zs)
              (Keeps-middle zs [] [] (free_block q m) refl c used (subst (λ t. In c t) e at))),
        first ∙ at',
        subst
            (λ t.
              Inv (absorb a t t p) (zs ++ used_block t (m + n) ∷ ys) (unlisted ls (free_block q m)))
            at'
            (subst
              (λ t.
                Inv (absorb a q q t) (zs ++ used_block q (m + n) ∷ ys)
                  (unlisted ls (free_block q m)))
              (sym below) grown),
        subst (λ t. Joined a (absorb a t t p) k n g (m + n)) at'
            (subst (λ t. Joined a (absorb a q q t) k n g (m + n)) (sym below)
              (subst (λ t. Joined a (absorb a q q (page_at q m)) t n g (m + n)) sum joined)),
        subst (λ t. Regrouped a h t (zs ++ used_block (page_at h g) (m + n) ∷ ys)) (sym old)
            (Regrouped-join a h zs ys g m n true false false bridge),
      )

-- Where the first loop ends: at a group that starts at index `g`, with nothing above to join.
abbrev pub EndsAbove :
    PageAllocator → ℕ → ℕ → ℕ → List Block → List Block → Option (Ptr × PageAllocator) → Type 0
EndsAbove a h k n xs ys r =
    (g : ℕ) × (m : ℕ) × (a' : PageAllocator) × (xs' : List Block) × (ls' : ℕ → List Ptr) × (r
      ≡ some (page_at h g, a'))
    × Inv a' (xs' ++ used_block (page_at h g) m ∷ ys) ls'
    × Joined a a' k n g m
    × (joinable a' (page_at h g) (prev_sibling (page_at h g)) ≡ false)
    × Keeps xs xs'
    × Regrouped a h (xs ++ used_block (page_at h k) n ∷ ys) (xs' ++ used_block (page_at h g) m ∷ ys)

pub join_above-EndsAbove :
    (fuel : ℕ) (a : PageAllocator) (xs ys : List Block) (h k n : ℕ) (ls : ℕ → List Ptr)
    → a.pages_head ≡ h
    → Inv a (xs ++ used_block (page_at h k) n ∷ ys) ls
    → length xs < fuel
    → EndsAbove a h k n xs ys (join_above fuel a (page_at h k))
unfolding join_above
join_above-EndsAbove zero a xs ys h k n ls head v enough = absurd (omega arith)
join_above-EndsAbove (suc fuel) a xs ys h k n ls head v enough =
    let p = page_at h k in
    elim (Bool-cases (joinable a p (prev_sibling p))) [
      | inr stop ↦ (
        k,
        n,
        a,
        xs,
        ls,
        ground arith,
        v,
        Joined-refl a k n,
        stop,
        (λ c _ at. at),
        Regrouped-refl a h _,
      )
      | inl go ↦
          let (zs, ls', g, m, less, keeps, first, v', joined, seams) =
            above_step a xs ys h k n ls head v go in
          let a' = absorb a (page_at h g) (page_at h g) p in
          let (g', m', b, xs', ls'', run, w, joined', stop, keeps', seams') =
            join_above-EndsAbove fuel a' zs ys h g m ls' (joined.layout.head ∙ head) v'
              (omega arith) in
          (
            g',
            m',
            b,
            xs',
            ls'',
            rw (go, first) run,
            w,
            Joined-trans a a' b k n g m g' m' joined joined',
            stop,
            (λ c used at. keeps' c used (keeps c used at)),
            Regrouped-trans a a' h _ (zs ++ used_block (page_at h g) m ∷ ys) _ joined.layout seams
                seams',
          )
    ]
