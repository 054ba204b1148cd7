-- ===== src/PageAllocator/Balance.antt =====
-- The counter of free pages over any sequence of calls.
use mathlib.Core.Path.{subst}
use mathlib.Core.Option.{some-injective}
use liballocator.Base.{ℕ, ◌+◌, ◌≡◌, ◌≢◌, refl, sym, ap, ◌∙◌, inl, inr, some, [], ◌∷◌, ◌++◌, arith}
use liballocator.Store.{null}
use liballocator.Page.{page_at}
use liballocator.PageAllocator.{PageAllocator, allocate, release}
use liballocator.PageAllocator.Allocate.{allocate_lem}
use liballocator.PageAllocator.Invariant.{IsValid}
use liballocator.PageAllocator.Live.{Live}
use liballocator.PageAllocator.History.{
  Step, allocated, refused, released, Reach, start, call, Reach-Holds, Reach-release,
}

-- The number of pages of the runs.
abbrev pub total : Live → ℕ
total [] = 0
total ((k, n) ∷ live) = n + total live

total-remove :
    (front back : Live) (k n : ℕ) → total (front ++ (k, n) ∷ back) ≡ n + total (front ++ back)
total-remove [] back k n = refl
total-remove ((j, m) ∷ front) back k n = omega (arith, total-remove front back k n)

module _ (s a : PageAllocator) (live : Live) (v : IsValid s) (r : Reach s a live) where
  allocated-total :
      (a' : PageAllocator) (n k : ℕ)
      → allocate a n ≡ some (page_at a.pages_head k, a')
      → page_at a.pages_head k ≢ null
      → a'.free_pages_count + n ≡ a.free_pages_count
  allocated-total a' n k e ne =
      let w = Reach-Holds v r in
      elim (allocate_lem a w.bs w.ls w.inv n) [
        | inl (none_left, _) ↦ absurd (ne (ap (λ t. t.0) (some-injective _ _ (sym e ∙ none_left))))
        | inr (k', b, bs', ls', e', taken, _, _, _, _, _, _) ↦
            let same : b ≡ a' = ap (λ t. t.1) (some-injective _ _ (sym e' ∙ e)) in
            omega (arith, taken.counter, ap (λ t. t.free_pages_count) same)
      ]

  refused-total :
      (a' : PageAllocator) (n : ℕ)
      → allocate a n ≡ some (null, a')
      → a'.free_pages_count ≡ a.free_pages_count
  refused-total a' n e =
      let w = Reach-Holds v r in
      elim (allocate_lem a w.bs w.ls w.inv n) [
        | inl (none_left, _) ↦
            ap (λ t. t.1.free_pages_count) (some-injective _ _ (sym e ∙ none_left))
        | inr (k', b, bs', ls', e', taken, _, _, _, _, _, _) ↦
            absurd (omega (arith, w.inv.low, ap (λ t. t.0) (some-injective _ _ (sym e' ∙ e))))
      ]

  released-total :
      (a' : PageAllocator) (front back : Live) (k n : ℕ)
      → live ≡ front ++ (k, n) ∷ back
      → release a (page_at a.pages_head k) ≡ some a'
      → a'.free_pages_count ≡ a.free_pages_count + n
  released-total a' front back k n e run =
      let (b, run', gone) = Reach-release s a front back k n v (subst (Reach s a) e r) in
      let same : b ≡ a' = some-injective _ _ (sym run' ∙ run) in
      omega (arith, gone.counter, ap (λ t. t.free_pages_count) same)

  Step-total :
      {a' : PageAllocator} {live' : Live}
      → Step a live a' live'
      → a'.free_pages_count + total live' ≡ a.free_pages_count + total live
  Step-total (allocated n k e ne) = omega (arith, allocated-total _ n k e ne)
  Step-total (refused n e) = omega (arith, refused-total _ n e)
  Step-total (released front back k n e run e') = omega (
    arith,
    released-total _ front back k n e run,
    ap total e,
    ap total e',
    total-remove front back k n,
  )

-- After any sequence of calls of `allocate` and `release` from a valid state, in which the client
-- releases only what it holds, the free pages and those of the runs that the client holds are as many
-- as the free pages at the start.
pub Reach-balance :
    (s a : PageAllocator) (live : Live)
    → IsValid s
    → Reach s a live
    → a.free_pages_count + total live ≡ s.free_pages_count
Reach-balance s a live v start = omega arith
Reach-balance s a' live' v (call {a = a} {live = live} r st) =
    omega (arith, Reach-balance s a live v r, Step-total s a live v r st)
