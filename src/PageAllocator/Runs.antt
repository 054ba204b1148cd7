-- ===== src/PageAllocator/Runs.antt =====
-- The used blocks of a state as runs of pages, like those that a client holds.
use mathlib.Core.Path.{subst}
use native.Mathlib.Decide.{dec_lt}
use liballocator.Base.{
  ℕ, suc, ◌+◌, ◌-◌, ◌*◌, ◌/◌, ◌≤◌, ◌<◌, ◌≡◌, refl, sym, ap, ◌∙◌, ◌⊎◌, inl, inr, true, List, [], ◌∷◌,
  ◌++◌, arith, if◌then◌else◌, Bool-cases,
}
use liballocator.Store.{Store}
use liballocator.Page.{page_at}
use liballocator.PageAllocator.{PageAllocator}
use liballocator.PageAllocator.Split.{used_block}
use liballocator.PageAllocator.Taken.{page_used}
use liballocator.PageAllocator.Blocks.{Block, Tiles}
use liballocator.PageAllocator.Blocks.Seams.{Seam}
use liballocator.PageAllocator.Blocks.Member.{In}
use liballocator.PageAllocator.Live.{Live, Separate, Sound, Held}

-- Some run has the page.
abbrev pub InRun : ℕ → Live → Type 0
InRun i [] = ⊥
InRun i ((k, n) ∷ live) = ((k ≤ i) × (i < k + n)) ⊎ InRun i live

-- One of the runs has `n` pages from index `k` on.
abbrev pub IsRun : ℕ → ℕ → Live → Type 0
IsRun k n [] = ⊥
IsRun k n ((j, m) ∷ live) = ((j ≡ k) × (m ≡ n)) ⊎ IsRun k n live

pub IsRun-left : (k n : ℕ) (live kept : Live) → IsRun k n live → IsRun k n (live ++ kept)
IsRun-left k n [] kept at = elim at [ ]
IsRun-left k n (x ∷ live) kept (inl here) = inl here
IsRun-left k n (x ∷ live) kept (inr there) = inr (IsRun-left k n live kept there)

pub IsRun-InRun : (k n i : ℕ) (live : Live) → IsRun k n live → i < n → InRun (k + i) live
IsRun-InRun k n i [] at lt = elim at [ ]
IsRun-InRun k n i ((j, m) ∷ live) (inl (e, e')) lt = inl (omega arith, omega arith)
IsRun-InRun k n i ((j, m) ∷ live) (inr there) lt = inr (IsRun-InRun k n i live there lt)

-- Neighbouring pages of a block are in the same block.
In-Seam :
    (h : ℕ) (b : Block) (bs : List Block) (k : ℕ)
    → In b bs
    → b.ptr ≤ page_at h k
    → page_at h (suc k) < page_at b.ptr b.size
    → Seam h bs k
In-Seam h b [] k at low high = elim at [ ]
In-Seam h b (c ∷ bs) k (inl e) low high = inl (
  omega (arith, ap (λ (t : Block). t.ptr) e),
  omega (arith, ap (λ (t : Block). t.ptr) e, ap (λ (t : Block). t.size) e),
)
In-Seam h b (c ∷ bs) k (inr there) low high = inr (In-Seam h b bs k there low high)

pub Held-Seam :
    (h : ℕ) (bs : List Block) (live : Live) (k n i : ℕ)
    → Held h bs live
    → IsRun k n live
    → suc i < n
    → Seam h bs (k + i)
Held-Seam h bs [] k n i held at less = elim at [ ]
Held-Seam h bs ((j, m) ∷ live) k n i held (inl (e, e')) less =
    In-Seam h (used_block (page_at h j) m) bs (k + i) held.0 (omega arith) (omega arith)
Held-Seam h bs ((j, m) ∷ live) k n i held (inr there) less =
    Held-Seam h bs live k n i held.2 there less

-- The used blocks, for descriptors from `h` on.
abbrev pub runs : ℕ → List Block → Live
runs h [] = []
runs h (b ∷ bs) = if b.free then runs h bs else (((b.ptr - h) / 32, b.size) ∷ runs h bs)

module _ (s : Store) (h : ℕ) where
  Separate-runs :
      (bs : List Block) (e j n m : ℕ)
      → Tiles s (page_at h m) bs e
      → j + n ≤ m
      → Separate j n (runs h bs)
  Separate-runs [] e j n m t le = tt
  Separate-runs (b ∷ bs) e j n m t le =
      let next : page_at h m + 32 * b.size ≡ page_at h (m + b.size) = omega arith in
      let rest =
        Separate-runs bs e j n (m + b.size) (subst (λ p. Tiles s p bs e) next t.2) (omega arith) in
      elim (Bool-cases b.free) [
        | inl free ↦ rw free rest
        | inr used ↦ rw used (inl (omega (arith, t.0)), rest)
      ]

  -- They are held.
  pub Held-runs :
      (all bs : List Block) (e m : ℕ)
      → Tiles s (page_at h m) bs e
      → ((c : Block) → In c bs → In c all)
      → Held h all (runs h bs)
  Held-runs all [] e m t keeps = tt
  Held-runs all (b ∷ bs) e m t keeps =
      let next : page_at h m + 32 * b.size ≡ page_at h (m + b.size) = omega arith in
      let t' = subst (λ p. Tiles s p bs e) next t.2 in
      let rest = Held-runs all bs e (m + b.size) t' (λ c at. keeps c (inr at)) in
      let index : (b.ptr - h) / 32 ≡ m = omega (arith, t.0) in
      elim (Bool-cases b.free) [
        | inl free ↦ rw free rest
        | inr used ↦
            let same : used_block (page_at h m) b.size ≡ b =
              λ i. record { ptr = sym t.0 i; size = b.size; free = sym used i } in
            rw (used, index)
              (
                subst (λ c. In c all) (sym same) (keeps b (inl refl)),
                Separate-runs bs e m b.size (m + b.size) t' (omega arith),
                rest,
              )
      ]

  -- A page in use is in one of them.
  pub used-InRun :
      (bs : List Block) (e m i : ℕ)
      → Tiles s (page_at h m) bs e
      → m ≤ i
      → page_at h i < e
      → s.used (page_at h i) ≡ true
      → InRun i (runs h bs)
  used-InRun [] e m i t le lt used = absurd (omega (arith, t))
  used-InRun (b ∷ bs) e m i t le lt used =
      let next : page_at h m + 32 * b.size ≡ page_at h (m + b.size) = omega arith in
      let t' = subst (λ p. Tiles s p bs e) next t.2 in
      let index : (b.ptr - h) / 32 ≡ m = omega (arith, t.0) in
      elim (dec_lt i (m + b.size)) [
        | yes inside ↦
            let there : page_at h i ≡ page_at b.ptr (i - m) = omega (arith, t.0) in
            let flag = ap s.used there ∙ t.1.flags (i - m) (omega arith) in
            elim (Bool-cases b.free) [
              | inl free ↦ absurd (ground (arith, flag, used, free))
              | inr full ↦ rw (full, index) (inl (le, inside))
            ]
        | no behind ↦
            let rest = used-InRun bs e (m + b.size) i t' (omega arith) lt used in
            elim (Bool-cases b.free) [ inl free ↦ rw free rest | inr full ↦ rw full (inr rest) ]
      ]

-- A run that is apart from others has none of their pages.
pub Separate-InRun :
    (k n i : ℕ) (live : Live) → Separate k n live → InRun i live → (i < k) ⊎ (k + n ≤ i)
Separate-InRun k n i [] s at = elim at [ ]
Separate-InRun k n i ((j, m) ∷ live) s (inl at) = elim s.0 [
  | inl l ↦ inr (omega arith)
  | inr r ↦ inl (omega arith)
]
Separate-InRun k n i ((j, m) ∷ live) s (inr at) = Separate-InRun k n i live s.1 at

Separate-append :
    (k n i : ℕ) (live kept : Live)
    → Separate k n (live ++ kept)
    → InRun i kept
    → (i < k) ⊎ (k + n ≤ i)
Separate-append k n i [] kept s at = Separate-InRun k n i kept s at
Separate-append k n i (x ∷ live) kept s at = Separate-append k n i live kept s.1 at

-- No page is both in the first runs and in the others.
pub Sound-append :
    (a : PageAllocator) (live kept : Live) (i j : ℕ)
    → Sound a (live ++ kept)
    → InRun i live
    → InRun j kept
    → (i < j) ⊎ (j < i)
Sound-append a [] kept i j s at there = elim at [ ]
Sound-append a ((k, n) ∷ live) kept i j s (inl at) there =
    elim (Separate-append k n j live kept s.1 there) [
      | inl l ↦ inr (omega arith)
      | inr r ↦ inl (omega arith)
    ]
Sound-append a ((k, n) ∷ live) kept i j s (inr at) there = Sound-append a live kept i j s.2 at there

-- The pages of sound runs are in use.
pub Sound-used :
    (a : PageAllocator) (live : Live) (i : ℕ) → Sound a live → InRun i live → page_used a i ≡ true
Sound-used a [] i s at = elim at [ ]
Sound-used a ((k, n) ∷ live) i s (inl at) =
    let there : i ≡ k + (i - k) = omega arith in ap (page_used a) there ∙ s.0 (i - k) (omega arith)
Sound-used a ((k, n) ∷ live) i s (inr at) = Sound-used a live i s.2 at
