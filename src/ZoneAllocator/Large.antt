-- ===== src/ZoneAllocator/Large.antt =====
-- `ZoneAllocator::allocate` for a size of at least a page: it takes whole pages.
use native.Mathlib.Decide.{ℕ_discrete as dec_eq}
use liballocator.Base.{
  ℕ, ◌+◌, ◌*◌, ◌^◌, ◌≤◌, ◌<◌, ◌≡◌, refl, ap, ◌∙◌, ◌⊎◌, inl, inr, true, false, List, arith, leb,
  ◌==◌, if◌then◌else◌,
}
use mathlib.Core.Option.{some}
use liballocator.Result.{Result, ok}
use liballocator.Store.{Ptr, null}
use liballocator.Page.{page_at}
use liballocator.PageAllocator.Blocks.{Block}
use liballocator.PageAllocator.Invariant.{Inv, IsValid}
use liballocator.PageAllocator.Allocate.{TooSmall, allocate_lem}
use liballocator.PageAllocator.Taken.{Taken}
use liballocator.PageAllocator
use liballocator.PageAllocator.{PageAllocator}
use liballocator.ZoneAllocator.{ZoneAllocator, with_pages}
use liballocator.ZoneAllocator.Allocate.{page_count, allocate, allocate_pages}
use liballocator.ZoneAllocator.Sizes.{page_count_lem}

-- The block that was allocated is the memory of a run of pages that were free; the run is long enough
-- and no longer than it must be.
abbrev pub TakesPages : ZoneAllocator → ℕ → Result (Ptr × ZoneAllocator) → Type 0
TakesPages a size r =
    (k : ℕ) × (n : ℕ) × (p : PageAllocator) × (r
      ≡ ok (a.pages.store.address (page_at a.pages.pages_head k), with_pages a p))
    × Taken a.pages p k n
    × (size ≤ n * a.page_size)
    × (n * a.page_size < size + a.page_size)
    × IsValid p

module _ (a : ZoneAllocator) (size : ℕ) (attached : a.attached ≡ true) (pos : 0 < a.page_size)
    (large : a.page_size ≤ size) where
  allocate_pages-eq :
      (page : Ptr) (p : PageAllocator)
      → PageAllocator.allocate a.pages (page_count size a.page_size) ≡ some (page, p)
      → allocate a size ≡ ok (if page == null then null else p.store.address page, with_pages a p)
  unfolding allocate allocate_pages
  allocate_pages-eq page p e =
      let not_zero : (size == 0) ≡ false = ground arith in
      let big : leb a.page_size size ≡ true = ground arith in rw (not_zero, big, attached, e) refl

  module _ (bs : List Block) (ls : ℕ → List Ptr) (v : Inv a.pages bs ls)
      (small : size < 2 ^ 53) where
    -- With an attached page allocator in a valid state, `allocate` of a page or more, and of less
    -- than `2 ^ 53` bytes, ends. Either it returns null, changes nothing, and no free group has
    -- enough pages. Or it returns the address of the first of a run of pages that were free and are
    -- used now, just enough for the size, and the state of the page allocator is valid.
    pub allocate_large :
        ((allocate a size ≡ ok (null, with_pages a a.pages))
          × TooSmall bs (page_count size a.page_size))
        ⊎ TakesPages a size (allocate a size)
    allocate_large =
        let n = page_count size a.page_size in
        let (enough, tight) = page_count_lem size a.page_size (omega arith) small pos in
        let some_pages : 0 < n = elim (dec_eq n 0) [
          | yes e ↦ absurd (omega (arith, ap (λ t. t * a.page_size) e))
          | no ne ↦ omega arith
        ] in
        elim (allocate_lem a.pages bs ls v n) [
          | inl (run, short) ↦ inl (allocate_pages-eq null a.pages run, short some_pages)
          | inr (k, p, bs', ls', run, taken, same, v', _, _, _, _) ↦
              let page = page_at a.pages.pages_head k in
              let not_null : (page == null) ≡ false = ground (arith, v.low) in
              inr (
                k,
                n,
                p,
                allocate_pages-eq page p run
                    ∙ rw not_null (ap (λ f. ok (f page, with_pages a p)) same.address),
                taken,
                enough,
                tight,
                (bs', ls', v'),
              )
        ]
