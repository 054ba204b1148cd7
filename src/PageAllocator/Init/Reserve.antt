-- ===== src/PageAllocator/Init/Reserve.antt =====
-- `reserveDescPages` marks the first pages of its region.
use liballocator.Base.{
  ℕ, zero, suc, ◌+◌, ◌≤◌, ◌<◌, ◌≡◌, refl, inl, inr, ap, ◌∙◌, true, some, arith, leb, ◌==◌,
  Bool-cases,
}
use liballocator.Store.{Ptr, Store}
use liballocator.Page.{page_at, next_sibling, set_used}
use liballocator.PageAllocator.{set_used_loop}
use liballocator.PageAllocator.Init.{reserve_loop}

module _ (g tail last : Ptr) (c : ℕ) (at : last + 32 ≡ page_at g c) (le : last ≤ tail) where
  -- From the page `i` on the loop marks `r` pages of the region, one at least if the first does not lie
  -- behind the descriptors.
  abbrev pub Reserves : ℕ → ℕ → ℕ → Store → Type 0
  Reserves fuel i reserved s =
      (r : ℕ) × (i + r ≤ c)
      × (s.address (page_at g i) < tail + 32 → 0 < r)
      × (i + r < c → tail + 32 ≤ s.address (page_at g (i + r)))
      × (reserve_loop fuel (page_at g i) tail last reserved s
          ≡ some (reserved + r, set_used_loop r s g i true))

  pub reserve_loop-Reserves :
      (fuel i reserved : ℕ) (s : Store) → i < c → c ≤ i + fuel → Reserves fuel i reserved s
  unfolding reserve_loop set_used_loop set_used
  reserve_loop-Reserves zero i reserved s lt enough = absurd (omega arith)
  reserve_loop-Reserves (suc fuel) i reserved s lt enough =
      let inside : leb (page_at g i) tail ≡ true = ground arith in
      elim (Bool-cases (leb (next_sibling tail) (s.address (page_at g i)))) [
        | inl behind ↦
            let here : i + 0 ≡ i = omega arith in
            (
              0,
              omega arith,
              ground arith,
              λ _. ground (arith, ap (λ t. s.address (page_at g t)) here),
              rw (inside, behind) (ap (λ t. some (t, s)) (omega arith)),
            )
        | inr before ↦ elim (Bool-cases (page_at g i == last)) [
          | inl end ↦ (
            1,
            omega arith,
            ground arith,
            λ h. absurd (ground arith),
            rw (inside, before, end) refl,
          )
          | inr more ↦
              let next : next_sibling (page_at g i) ≡ page_at g (i + 1) = omega arith in
              let s' = set_used s (page_at g i) true in
              let (r, fits, _, stop, run) =
                reserve_loop-Reserves fuel (i + 1) (reserved + 1) s' (ground arith) (omega arith) in
              (
                suc r,
                omega arith,
                ground arith,
                λ h.
                    let there : i + 1 + r ≡ i + suc r = omega arith in
                    omega (arith, stop (omega arith), ap (λ t. s.address (page_at g t)) there),
                rw (inside, before, more, next)
                    (run ∙ ap (λ t. some (t, set_used_loop r s' g (i + 1) true)) (omega arith)),
              )
        ]
      ]
