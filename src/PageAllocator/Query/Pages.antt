-- ===== src/PageAllocator/Query/Pages.antt =====
-- `PageAllocator::getPage` finds the descriptor of every page of a region.
use liballocator.Base.{
  ℕ, zero, suc, ◌+◌, ◌-◌, ◌*◌, ◌≤◌, ◌<◌, ◌≡◌, ◌≢◌, true, false, some, arith, leb, ◌==◌, ap, sym,
  ◌∙◌,
}
use mathlib.Core.Path.{subst}
use liballocator.Store.{Ptr, Store}
use liballocator.Word.{align_down}
use liballocator.Page.{page_at}
use liballocator.PageAllocator.{PageAllocator, get_region}
use liballocator.PageAllocator.Init.{region_at}
use liballocator.PageAllocator.Query.{page_loop, get_page}

-- From page `k` on, the loop passes the pages up to page `k + d` and stops there.
page_loop_lem :
    (d fuel : ℕ) (s : Store) (first last : Ptr) (addr k : ℕ)
    → d < fuel
    → page_at first (k + d) ≤ last
    → ((j : ℕ) → j < k + d → s.address (page_at first j) ≢ addr)
    → s.address (page_at first (k + d)) ≡ addr
    → page_loop fuel s (page_at first k) last addr ≡ some (page_at first (k + d))
unfolding page_loop
page_loop_lem d zero s first last addr k h le others at = absurd (omega arith)
page_loop_lem zero (suc fuel) s first last addr k h le others at =
    let same : k + 0 ≡ k = omega arith in
    let here : leb (page_at first k) last ≡ true = ground arith in
    let hit : (s.address (page_at first k) == addr) ≡ true =
      ground (arith, ap (λ t. s.address (page_at first t)) same) in
    rw (here, hit) (ap (λ t. some (page_at first t)) (sym same))
page_loop_lem (suc d) (suc fuel) s first last addr k h le others at =
    let next : k + 1 + d ≡ k + suc d = omega arith in
    let sibling : page_at first (k + 1) ≡ page_at first k + 32 * 1 = omega arith in
    let here : leb (page_at first k) last ≡ true = ground arith in
    let miss : (s.address (page_at first k) == addr) ≡ false =
      ground (arith, others k (omega arith)) in
    let found =
      page_loop_lem d fuel s first last addr (k + 1) (omega arith) (omega arith)
        (λ j lt. others j (omega arith)) (ap (λ t. s.address (page_at first t)) next ∙ at) in
    rw (here, miss)
      (subst (λ t. page_loop fuel s t last addr ≡ some (page_at first (k + suc d))) sibling
        (subst (λ t. page_loop fuel s (page_at first (k + 1)) last addr ≡ some (page_at first t))
          next found))

times-ne : (j d p : ℕ) → 0 < p → j * p ≢ (j + suc d) * p
times-ne j d p pos e = omega arith

-- Where `getRegion` finds a region for an address, the descriptors of the region have the addresses of
-- its pages, and the address lies in page `k` of it, which is not behind its last page, `getPage`
-- returns the descriptor of page `k`.
pub get_page_lem :
    (a : PageAllocator) (i k addr : ℕ)
    → get_region a (align_down addr a.page_size) ≡ some i
    → 0 < a.page_size
    → k < (region_at a.regions_info i).page_count
    → page_at (region_at a.regions_info i).first_page k ≤ (region_at a.regions_info i).last_page
    → ((j : ℕ)
        → j < (region_at a.regions_info i).page_count
        → a.store.address (page_at (region_at a.regions_info i).first_page j)
          ≡ (region_at a.regions_info i).aligned_start + j * a.page_size)
    → align_down addr a.page_size ≡ (region_at a.regions_info i).aligned_start + k * a.page_size
    → get_page a addr ≡ some (page_at (region_at a.regions_info i).first_page k)
unfolding get_page
get_page_lem a i k addr in_region pos lt le layout at =
    let r = region_at a.regions_info i in
    let start : page_at r.first_page 0 ≡ r.first_page = omega arith in
    let whole : 0 + k ≡ k = omega arith in
    let aligned = align_down addr a.page_size in
    let apart : (j : ℕ) → j < k → a.store.address (page_at r.first_page j) ≢ aligned = λ j less e.
      let gap : k ≡ j + suc (k - j - 1) = omega arith in
      times-ne j (k - j - 1) a.page_size pos
        (omega (arith, layout j (omega arith), ap (λ t. t * a.page_size) gap, e, at)) in
    rw (get_page, in_region)
      (subst
        (λ t.
          page_loop (r.page_count + 1) a.store t r.last_page aligned
          ≡ some (page_at r.first_page k))
        start
        (subst
          (λ t.
            page_loop (r.page_count + 1) a.store (page_at r.first_page 0) r.last_page aligned
            ≡ some (page_at r.first_page t))
          whole
          (page_loop_lem k (r.page_count + 1) a.store r.first_page r.last_page aligned 0
            (omega arith) (omega arith) (λ j less e. apart j (omega arith) e)
            (ap (λ t. a.store.address (page_at r.first_page t)) whole ∙ (layout k lt ∙ sym at)))))
