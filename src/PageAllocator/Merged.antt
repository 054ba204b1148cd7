-- ===== src/PageAllocator/Merged.antt =====
-- What it is for the free groups to be as large as they can be, which `allocate` and `release` keep.
use mathlib.Core.Path.{subst}
use native.Mathlib.Decide.{dec_lt}
use liballocator.Base.{
  ℕ, suc, ◌+◌, ◌-◌, ◌≤◌, ◌<◌, ◌≡◌, sym, ap, ◌∙◌, ◌⊎◌, inl, inr, true, false, List, arith,
}
use liballocator.PageAllocator.{PageAllocator}
use liballocator.PageAllocator.Flip.{SameLayout}
use liballocator.PageAllocator.Taken.{Taken, page_used}
use liballocator.PageAllocator.Release.Unjoined.{Closed}
use liballocator.PageAllocator.Release.Bridges.{Bridge, Bridge-SameLayout, Regrouped}
use liballocator.PageAllocator.Blocks.{Block}
use liballocator.PageAllocator.Blocks.Seams.{Seam, Coarser}

-- Two free neighbours that `getRegion` finds in the same region are in one group.
abbrev pub Merged : PageAllocator → List Block → Type 0
Merged a bs =
    (j : ℕ)
    → suc j < a.pages_count
    → page_used a j ≡ false
    → page_used a (suc j) ≡ false
    → Bridge a a.pages_head j
    → Seam a.pages_head bs j

module _ (a a' : PageAllocator) (bs bs' : List Block) (k n : ℕ) (same : SameLayout a a') where
  Seam-head : (j : ℕ) → Seam a.pages_head bs' j → Seam a'.pages_head bs' j
  Seam-head j = subst (λ h. Seam h bs' j) (sym same.head)

  Bridge-before : (j : ℕ) → Bridge a' a'.pages_head j → Bridge a a.pages_head j
  Bridge-before j bridge =
      Bridge-SameLayout a a' a.pages_head j same (subst (λ h. Bridge a' h j) same.head bridge)

  free-outside : Taken a a' k n → (j : ℕ) → page_used a' j ≡ false → (j < k) ⊎ (k + n ≤ j)
  free-outside taken j free = elim (dec_lt j k) [
    | yes before ↦ inl before
    | no from ↦ elim (dec_lt j (k + n)) [
      | no behind ↦ inr (omega arith)
      | yes within ↦
          let here : k + (j - k) ≡ j = omega arith in
          let used = taken.now_used (j - k) (omega arith) in
          let used' : page_used a' j ≡ true = sym (ap (page_used a') here) ∙ used in absurd (cc)
    ]
  ]

  pub allocate-Merged :
      0 < n
      → Taken a a' k n
      → Coarser (λ j. suc j ≡ k + n) a.pages_head bs' bs
      → Merged a bs
      → Merged a' bs'
  allocate-Merged pos taken whole merged j lt free free' bridge =
      let out = free-outside taken j free in
      let out' = free-outside taken (suc j) free' in
      let seam =
        merged j (omega (arith, same.count)) (sym (taken.others j out) ∙ free)
          (sym (taken.others (suc j) out') ∙ free') (Bridge-before j bridge) in
      elim (whole j seam) [ inl still ↦ Seam-head j still | inr cut ↦ absurd (omega arith) ]

  pub release-Merged :
      Regrouped a a.pages_head bs bs' → Closed a a' bs' → Merged a bs → Merged a' bs'
  release-Merged seams closed merged j lt free free' bridge =
      let lt' : suc j < a.pages_count = omega (arith, same.count) in
      let bridge' = Bridge-before j bridge in
      Seam-head j (elim (closed j lt' free free' bridge') [
        | inl together ↦ together
        | inr before ↦ elim (seams.kept j (merged j lt' before.0 before.1 bridge')) [
          | inl still ↦ still
          | inr none ↦ absurd none
        ]
      ])
