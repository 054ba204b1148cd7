-- ===== src/PageAllocator/Release.antt =====
-- `PageAllocator::release`: both loops end, and the pages become free.
pub mod Neighbours
pub mod Bridges
pub mod Above
pub mod Below
pub mod Unjoined
use mathlib.Core.Path.{subst}
use native.Mathlib.Decide.{dec_lt}
use liballocator.Base.{
  ℕ, ◌+◌, ◌-◌, ◌^◌, ◌≤◌, ◌<◌, ◌≡◌, ◌≢◌, refl, sym, ap, ◌∙◌, ◌⊎◌, inl, inr, true, false, Option,
  some, List, ◌∷◌, ◌++◌, arith, length, length-append, ◌==◌,
}
use liballocator.Store.{null, Ptr}
use liballocator.Page.{page_at}
use liballocator.PageAllocator.{PageAllocator, release, add_group}
use liballocator.PageAllocator.Absorb.{Joined, Joined-trans}
use liballocator.PageAllocator.Remove.{marked}
use liballocator.PageAllocator.Split.{used_block}
use liballocator.PageAllocator.Blocks.{Block, Tiles-free_size, Tiles-length}
use liballocator.PageAllocator.Blocks.Replace.{Tiles-block}
use liballocator.PageAllocator.Invariant.{Inv}
use liballocator.PageAllocator.Taken.{page_used}
use liballocator.PageAllocator.Flip.{
  SameLayout, SameLayout-trans, add_group-SameLayout, add_group-inside, add_group-outside,
  add_group-free,
}
use liballocator.PageAllocator.Add.{add_group-Inv}
use liballocator.PageAllocator.Blocks.Member.{
  In, Keeps, In-split, In-append_left, In-append_right, In-append-cases,
}
use liballocator.PageAllocator.Release.Bridges.{Regrouped, Regrouped-trans, Regrouped-flag}
use liballocator.PageAllocator.Release.Above.{join_above-EndsAbove}
use liballocator.PageAllocator.Release.Unjoined.{Closed, all-Closed}
use liballocator.PageAllocator.Release.Below.{join_below-EndsBelow}

-- The `n` pages from index `k` on were used and are free now; no other page has changed, and the
-- counter has gone up by `n`.
pub record Released (a a' : PageAllocator) (k n : ℕ) : Type 0 where
  pub layout : SameLayout a a'
  pub within : k + n ≤ a.pages_count
  pub was_used : (i : ℕ) → i < n → page_used a (k + i) ≡ true
  pub now_free : (i : ℕ) → i < n → page_used a' (k + i) ≡ false
  pub others : (j : ℕ) → (j < k) ⊎ (k + n ≤ j) → page_used a' j ≡ page_used a j
  pub counter : a'.free_pages_count ≡ a.free_pages_count + n

-- A used block that has grown by free pages and is then added to the free groups is released.
Released-of_Joined :
    (a b : PageAllocator) (xs ys : List Block) (h k n g m : ℕ) (ls : ℕ → List Ptr)
    → a.pages_head ≡ h
    → Inv a (xs ++ used_block (page_at h k) n ∷ ys) ls
    → (xs' ys' : List Block) (ls' : ℕ → List Ptr)
    → Inv b (xs' ++ used_block (page_at h g) m ∷ ys') ls'
    → Joined a b k n g m
    → Released a (add_group b (page_at h g)) k n
Released-of_Joined a b xs ys h k n g m ls head v xs' ys' ls' v' j =
    let q = page_at h g in
    let (w, (k', at, le)) =
      Tiles-block a.store a.pages_head _ xs ys (used_block (page_at h k) n) v.tiles in
    let (w', _) = Tiles-block b.store b.pages_head _ xs' ys' (used_block q m) v'.tiles in
    let layout = SameLayout-trans a b (add_group b q) j.layout (add_group-SameLayout b q) in
    let c = add_group b q in
    let here : (i : ℕ) → page_at c.pages_head i ≡ page_at a.pages_head i =
      λ i. ap (λ t. page_at t i) layout.head in
    let inside : (i : ℕ) → g ≤ i → i < g + m → page_used c i ≡ false = λ i lo hi.
      let there : page_at c.pages_head i ≡ page_at q (i - g) = omega (arith, here i) in
      ap c.store.used there ∙ add_group-inside b q m w'.first (i - g) (omega arith) in
    let outside : (i : ℕ) → (i < g) ⊎ (g + m ≤ i) → page_used c i ≡ page_used a i = λ i out.
      ap c.store.used (here i)
      ∙ (add_group-outside b q m w'.first (page_at a.pages_head i) (omega arith)
          ∙ j.outside i out) in
    record {
      layout = layout;
      within = omega arith;
      was_used = λ i lt.
          let there : page_at a.pages_head (k + i) ≡ page_at (page_at h k) i = omega arith in
          ap a.store.used there ∙ w.flags i lt;
      now_free = λ i lt. inside (k + i) (omega (arith, j.low)) (omega (arith, j.high));
      others = λ i out. elim (dec_lt i g) [
        | yes before ↦ outside i (inl before)
        | no from ↦ elim (dec_lt i (g + m)) [
          | yes within ↦
              inside i (omega arith) within ∙ sym (j.were_free i (omega arith) within out)
          | no behind ↦ outside i (inr (omega arith))
        ]
      ];
      counter =
          add_group-free b q m w'.first
          ∙ omega (
            arith,
            j.counter,
            v'.free,
            v'.few,
            w'.small,
            Tiles-free_size b.store b.pages_head _ _ v'.tiles,
          );
    }

-- The state after `release`.
abbrev pub ReleasesTo : PageAllocator → List Block → ℕ → ℕ → Option PageAllocator → Type 0
ReleasesTo a bs k n r =
    (a' : PageAllocator) × (bs' : List Block) × (ls' : ℕ → List Ptr) × (r ≡ some a')
    × Released a a' k n
    × Inv a' bs' ls'
    × ((c : Block) → c.free ≡ false → c.ptr ≢ page_at a.pages_head k → In c bs → In c bs')
    × Regrouped a a.pages_head bs bs'
    × Closed a a' bs'

-- A used block that was and is among the others is among them after the release.
kept :
    (xs ys xs' ys' : List Block) (b b' : Block)
    → Keeps xs xs'
    → Keeps ys ys'
    → (c : Block) → c.free ≡ false
    → c.ptr ≢ b.ptr
    → In c (xs ++ b ∷ ys)
    → In c (xs' ++ b' ∷ ys')
kept xs ys xs' ys' b b' above below c used other at = elim (In-append-cases c xs (b ∷ ys) at) [
  | inl front ↦ In-append_left c xs' (b' ∷ ys') (above c used front)
  | inr (inl e) ↦ absurd (other (ap (λ (t : Block). t.ptr) e))
  | inr (inr back) ↦ In-append_right c xs' (b' ∷ ys') (inr (below c used back))
]

release_at :
    (a : PageAllocator) (xs ys : List Block) (h k n : ℕ) (ls : ℕ → List Ptr)
    → a.pages_head ≡ h
    → Inv a (xs ++ used_block (page_at h k) n ∷ ys) ls
    → ReleasesTo a (xs ++ used_block (page_at h k) n ∷ ys) k n (release a (page_at h k))
unfolding release
release_at a xs ys h k n ls head v =
    let p = page_at h k in
    let size : length xs < a.pages_count + 1 = omega (
      arith,
      Tiles-length a.store a.pages_head _ _ v.tiles,
      length-append xs (used_block p n ∷ ys),
    ) in
    let (g, m, b, xs', ls', run, v', j, stop, above, seams) =
      join_above-EndsAbove (a.pages_count + 1) a xs ys h k n ls head v size in
    let not_null : (p == null) ≡ false = ground (arith, v.low) in
    let head' = j.layout.head ∙ head in
    let size' : length ys < a.pages_count + 1 = omega (
      arith,
      j.layout.count,
      Tiles-length b.store b.pages_head _ _ v'.tiles,
      length-append xs' (used_block (page_at h g) m ∷ ys),
    ) in
    let (m', c, ys', ls'', run', v'', j', below, seams', stop') =
      join_below-EndsBelow (a.pages_count + 1) b xs' ys h g m ls' head' v' size' in
    let gone =
      Released-of_Joined a c xs ys h k n g m' ls head v xs' ys' ls'' v''
        (Joined-trans a b c k n g m g m' j j') in
    let (w, (g', at, le)) =
      Tiles-block c.store c.pages_head _ xs' ys' (used_block (page_at h g) m') v''.tiles in
    let high : page_at h a.pages_count < 2 ^ 64 = omega (arith, v.high, head) in
    let within : g + m' ≤ a.pages_count =
      omega (arith, j.layout.count, j'.layout.count, j'.layout.head, head') in
    (
      add_group c (page_at h g),
      _,
      _,
      rw (not_null, run, run') refl,
      gone,
      add_group-Inv c xs' ys' (used_block (page_at h g) m') ls'' v'' refl,
      λ d used other at.
          kept xs ys xs' ys' (used_block p n) (marked (used_block (page_at h g) m') true) above
            below d used (λ e. other (rw head e)) at,
      subst
          (λ t.
            Regrouped a t (xs ++ used_block p n ∷ ys)
              (xs' ++ marked (used_block (page_at h g) m') true ∷ ys'))
          (sym head)
          (Regrouped-trans a b h _ (xs' ++ used_block (page_at h g) m ∷ ys) _ j.layout seams (
            Regrouped-trans b c h _ (xs' ++ used_block (page_at h g) m' ∷ ys') _ j'.layout seams'
              (Regrouped-flag c h xs' ys' (page_at h g) m' false true))),
      all-Closed a b c (add_group c (page_at h g)) h k n g m m' head high within j j' gone.others
          xs' ys' true v'.tail stop v''.tail w.first w.pos stop',
    )

-- In a valid state, `release` of a used group always ends, in a valid state. The pages of the group
-- become free, no other page changes its flag, the counter goes up by their number, and every other
-- used group is still there. Two pages of one group that were in two groups before are found in the
-- same region by `getRegion`, and pages of one group stay in one. Two free neighbours that are found
-- in the same region are in one group, unless both were free before.
pub release_lem :
    (a : PageAllocator) (bs : List Block) (ls : ℕ → List Ptr) (k n : ℕ)
    → Inv a bs ls
    → In (used_block (page_at a.pages_head k) n) bs
    → ReleasesTo a bs k n (release a (page_at a.pages_head k))
release_lem a bs ls k n v at =
    let (xs, ys, e) = In-split (used_block (page_at a.pages_head k) n) bs at in
    subst (λ t. ReleasesTo a t k n (release a (page_at a.pages_head k))) (sym e)
      (release_at a xs ys a.pages_head k n ls refl (subst (λ t. Inv a t ls) e v))
