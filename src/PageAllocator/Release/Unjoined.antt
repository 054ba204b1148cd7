-- ===== src/PageAllocator/Release/Unjoined.antt =====
-- What `release` leaves unjoined: no two free pages that it has brought together.
use mathlib.Core.Path.{subst}
use native.Mathlib.Decide.{dec_lt, ℕ_discrete as dec_eq}
use liballocator.Base.{
  ℕ, suc, ◌+◌, ◌≤◌, ◌<◌, ◌≡◌, sym, ◌∙◌, ◌⊎◌, inl, inr, Bool, false, List, ◌^◌, ◌∷◌, ◌++◌, arith,
}
use liballocator.Page.{page_at, prev_sibling, next_sibling}
use liballocator.Group.{last_page}
use liballocator.PageAllocator.{PageAllocator, joinable}
use liballocator.PageAllocator.Absorb.{Joined, Joined-trans}
use liballocator.PageAllocator.Taken.{page_used}
use liballocator.PageAllocator.Blocks.{Block}
use liballocator.PageAllocator.Blocks.Seams.{Seam, Seam-append_right}
use liballocator.PageAllocator.Release.Bridges.{
  Bridge, Bridge-SameLayout_after, not_joined_above, not_joined_below,
}

-- Two free neighbours in one region are in one group, or were free before.
abbrev pub Closed : PageAllocator → PageAllocator → List Block → Type 0
Closed a a' bs =
    (j : ℕ)
    → suc j < a.pages_count
    → page_used a' j ≡ false
    → page_used a' (suc j) ≡ false
    → Bridge a a.pages_head j
    → Seam a.pages_head bs j ⊎ ((page_used a j ≡ false) × (page_used a (suc j) ≡ false))

-- The loops have ended at the states `b` and `c`, and `d` is the state behind them.
module _ (a b c d : PageAllocator) (h k n g m m' : ℕ) (head : a.pages_head ≡ h)
    (high : page_at h a.pages_count < 2 ^ 64) (within : g + m' ≤ a.pages_count)
    (j : Joined a b k n g m) (j' : Joined b c g m g m')
    (others : (i : ℕ) → (i < k) ⊎ (k + n ≤ i) → page_used d i ≡ page_used a i) where
  Closed-above :
      (i : ℕ)
      → b.pages_tail + 32 ≡ page_at b.pages_head b.pages_count
      → joinable b (page_at h g) (prev_sibling (page_at h g)) ≡ false
      → suc i ≡ g
      → i < a.pages_count
      → page_used d i ≡ false
      → ¬ (Bridge a h i)
  Closed-above i tail stop next lt unused bridge =
      let free : page_used a i ≡ false = sym (others i (inl (omega (arith, j.low)))) ∙ unused in
      not_joined_above b h _ _ i stop (omega arith) (omega arith) (j.layout.head ∙ head) tail
        (omega (arith, j.layout.count))
        (subst (λ t. b.store.used (page_at t i) ≡ false) head
          (j.outside i (inl (omega arith)) ∙ free))
        (Bridge-SameLayout_after a b h i j.layout bridge)

  Closed-below :
      (i : ℕ)
      → c.pages_tail + 32 ≡ page_at c.pages_head c.pages_count
      → c.store.group_size (page_at h g) ≡ m'
      → 0 < m'
      → joinable c
          (last_page (page_at h g) (c.store.group_size (page_at h g)))
          (next_sibling (last_page (page_at h g) (c.store.group_size (page_at h g))))
        ≡ false
      → suc i ≡ g + m'
      → suc i < a.pages_count
      → page_used d (suc i) ≡ false
      → ¬ (Bridge a h i)
  Closed-below i tail size pos stop next lt unused bridge =
      let both = Joined-trans a b c k n g m g m' j j' in
      let free : page_used a (suc i) ≡ false =
        sym (others (suc i) (inr (omega (arith, both.high)))) ∙ unused in
      not_joined_below c h _ _ i stop (omega arith) (omega arith) (both.layout.head ∙ head) tail
        (omega (arith, both.layout.count))
        (subst (λ t. c.store.used (page_at t (suc i)) ≡ false) head
          (both.outside (suc i) (inr (omega arith)) ∙ free))
        (Bridge-SameLayout_after a c h i both.layout bridge)

  -- The last group is among the blocks that are left.
  pub all-Closed :
      (xs ys : List Block) (fs : Bool)
      → b.pages_tail + 32 ≡ page_at b.pages_head b.pages_count
      → joinable b (page_at h g) (prev_sibling (page_at h g)) ≡ false
      → c.pages_tail + 32 ≡ page_at c.pages_head c.pages_count
      → c.store.group_size (page_at h g) ≡ m'
      → 0 < m'
      → joinable c
          (last_page (page_at h g) (c.store.group_size (page_at h g)))
          (next_sibling (last_page (page_at h g) (c.store.group_size (page_at h g))))
        ≡ false
      → Closed a d (xs ++ record { ptr = page_at h g; size = m'; free = fs } ∷ ys)
  all-Closed xs ys fs tail stop tail' size pos stop' i lt free free' bridge =
      let both = Joined-trans a b c k n g m g m' j j' in
      let bridge' = subst (λ t. Bridge a t i) head bridge in
      let same : (x : ℕ) → (x < k) ⊎ (k + n ≤ x) → page_used d x ≡ false → page_used a x ≡ false =
        λ x out unused. sym (others x out) ∙ unused in
      elim (dec_lt (suc i) g) [
        | yes above ↦ inr (
          same i (inl (omega (arith, both.low))) free,
          same (suc i) (inl (omega (arith, both.low))) free',
        )
        | no from ↦ elim (dec_eq (suc i) g) [
          | yes at ↦ absurd (Closed-above i tail stop at (omega arith) free bridge')
          | no inside ↦ elim (dec_lt (suc i) (g + m')) [
            | yes within ↦
                inl (Seam-append_right a.pages_head xs _ i (inl (omega arith, omega arith)))
            | no behind ↦ elim (dec_eq (suc i) (g + m')) [
              | yes at ↦ absurd (Closed-below i tail' size pos stop' at lt free' bridge')
              | no below ↦ inr (
                same i (inr (omega (arith, both.high))) free,
                same (suc i) (inr (omega (arith, both.high))) free',
              )
            ]
          ]
        ]
      ]
