-- ===== src/PageAllocator/Init/Round/Reserved.antt =====
-- The round on the region of the descriptors.
use mathlib.Core.Path.{subst}
use liballocator.Base.{
  ◌⊎◌, ◌*◌, ℕ, ◌+◌, ◌-◌, ◌≤◌, ◌<◌, ◌≡◌, refl, sym, ap, ◌∙◌, true, some, List, arith, ◌==◌,
  get_or-set,
}
use liballocator.Store.{Ptr, null, Store}
use liballocator.Page.{page_at}
use liballocator.RegionInfo.{RegionInfo, clear_region_info}
use liballocator.Group.{init_group, last_page, split_group}
use liballocator.Group.Sizes.{
  last_page-eq, split_group-parts, split_group-IsSplit, split_group-used, init_group-used,
}
use liballocator.PageAllocator.{PageAllocator, set_used_loop, add_group}
use liballocator.PageAllocator.Blocks.{Block}
use liballocator.PageAllocator.Flags.{
  set_used_loop-inside, set_used_loop-outside, set_used_loop-address,
}
use liballocator.PageAllocator.Flip.{add_group-free, add_group-outside, add_group-SameLayout}
use liballocator.PageAllocator.Invariant.{Inv}
use liballocator.PageAllocator.Init.{region_at, init_pages, reserve_region, reserve_loop}
use liballocator.PageAllocator.Init.Pages.{Started}
use liballocator.PageAllocator.Init.Extend.{upto, Extended}
use liballocator.PageAllocator.Init.Fresh.{used_group-size}
use liballocator.PageAllocator.Init.Parts.{reserved-Extended, rest-Extended}
use liballocator.PageAllocator.Init.Reserve.{reserve_loop-Reserves}
use liballocator.PageAllocator.Init.Run.{
  with_pages, placed, grouped, init_region-run, reserve_region-desc, split_group-whole,
}
use liballocator.PageAllocator.Init.Settled.{Marked, Settled-placed, Settled-added, Inv-placed}
use liballocator.PageAllocator.Init.Round.Steps.{
  Opens, RoundEnds, next_page, round_end, add-whole, laid, init_group-address,
}

module _ (a : PageAllocator) (i m : ℕ) (bs : List Block) (ls : ℕ → List Ptr)
    (o : Opens a i m bs ls) where
  -- What `reserveDescPages` does: it marks some pages of the region.
  pub reserved :
      (s : Store)
      → s.address (page_at a.pages_head m) ≡ (region_at a.regions_info i).aligned_start
      → (i == a.desc_region_idx) ≡ true
      → (r : ℕ) × (0 < r)
        × (r ≤ (region_at a.regions_info i).page_count)
        × (r < (region_at a.regions_info i).page_count
            → a.pages_tail + 32 ≤ s.address (page_at (page_at a.pages_head m) r))
        × (let marks =
              set_used_loop r
                (grouped a i (page_at a.pages_head m) s).store
                (page_at a.pages_head m)
                0
                true in
            reserve_region i (grouped a i (page_at a.pages_head m) s) (page_at a.pages_head m)
            ≡ some (
              (split_group marks (page_at a.pages_head m) r).2,
              record (grouped a i (page_at a.pages_head m) s) {
                desc_pages_count = r;
                store = (split_group marks (page_at a.pages_head m) r).0;
              },
            ))
  unfolding init_group
  reserved s addr here =
      let c = (region_at a.regions_info i).page_count in
      let page = page_at a.pages_head m in
      let b = grouped a i page s in
      let e : a.desc_region_idx ≡ i = ground arith in
      let last = last_page-eq page c o.paged.some_pages (omega arith) in
      let first : page_at page 0 ≡ page = omega arith in
      let (r, fits, marked, stop, run) =
        reserve_loop-Reserves page a.pages_tail (last_page page c) c
          (omega (arith, last, o.valid.low, o.paged.some_pages)) (omega (arith, last))
          (a.pages_count + 1) 0 0 b.store o.paged.some_pages (omega arith) in
      let whole : 0 + r ≡ r = omega arith in
      (
        r,
        marked (omega (arith, ap b.store.address first, addr, o.desc (sym e))),
        omega arith,
        λ h. omega (arith, stop (omega arith), ap (λ t. s.address (page_at page t)) whole),
        reserve_region-desc i b page (with_pages (region_at a.regions_info i) page) r _ here
            (ap (region_at b.regions_info) e
              ∙ get_or-set a.regions_info i _ clear_region_info o.inside)
            (ap (λ t. reserve_loop (a.pages_count + 1) t a.pages_tail (last_page page c) 0 b.store)
                (sym first)
              ∙ (run ∙ ap (λ t. some (t, set_used_loop r b.store page 0 true)) whole)),
      )

  -- The round on the region of the descriptors, whose first `n` pages are marked.
  module _ (s : Store)
      (run : init_pages
          ((region_at a.regions_info i).page_count + 1)
          (region_at a.regions_info i).aligned_start
          (region_at a.regions_info i).aligned_end
          a.page_size
          (page_at a.pages_head m)
          a.store
        ≡ some (s, page_at (page_at a.pages_head m) (region_at a.regions_info i).page_count))
      (w : Started a.store s
        (page_at a.pages_head m)
        (region_at a.regions_info i).page_count
        (region_at a.regions_info i).aligned_start
        a.page_size)
      (here : (i == a.desc_region_idx) ≡ true) (n : ℕ) (posn : 0 < n)
      (le : n ≤ (region_at a.regions_info i).page_count)
      (stop : n < (region_at a.regions_info i).page_count
        → a.pages_tail + 32 ≤ s.address (page_at (page_at a.pages_head m) n)) where
    abbrev page : Ptr
    page = page_at a.pages_head m

    abbrev r : RegionInfo
    r = region_at a.regions_info i

    abbrev marks : Store
    marks = set_used_loop n (init_group s page r.page_count) page 0 true

    abbrev b : PageAllocator
    b = record (grouped a i page s) { desc_pages_count = n; store = (split_group marks page n).0 }

    abbrev a⁺ : PageAllocator
    a⁺ = record (placed a i page) { desc_pages_count = n }

    v⁺ : Inv (upto a⁺ m) bs ls
    v⁺ = Inv-placed a i m n page bs ls o.valid

    size : marks.group_size page ≡ r.page_count
    size = used_group-size s page r.page_count n o.paged.some_pages (omega arith) (omega arith)

    behind : n < r.page_count → a.pages_tail + 32 ≤ r.aligned_start + n * a.page_size
    behind h = omega (arith, stop h, w.address n h)

    marked : (k : ℕ) → k < n → marks.used (page_at page k) ≡ true
    marked k h =
        set_used_loop-inside page true n (init_group s page r.page_count) 0 k (omega arith)
          (omega arith)

    kept : (x : Ptr) → (x < page) ⊎ (page_at page r.page_count ≤ x) → marks.used x ≡ s.used x
    kept x out =
        set_used_loop-outside page true n (init_group s page r.page_count) 0 x (omega arith)
        ∙ ap (λ f. f x) (init_group-used s page r.page_count)

    address : marks.address ≡ s.address
    address =
        set_used_loop-address page true n (init_group s page r.page_count) 0
        ∙ init_group-address a i m bs ls o s page r.page_count

    -- The pages stay marked in any memory that has the flags of those.
    Marked-n :
        (a' : PageAllocator)
        → ((k : ℕ) → k < n → a'.store.used (page_at page k) ≡ true)
        → Marked i m a a'
    Marked-n a' flags = (
      n,
      posn,
      le,
      λ k h.
          let there : page_at a.pages_head (m + k) ≡ page_at page k = omega arith in
          rw there (flags k h),
      behind,
    )

    -- The pages that are left are split off and put into a list.
    pub part_round :
        n < r.page_count
        → reserve_region i (grouped a i page s) page ≡ some ((split_group marks page n).2, b)
        → RoundEnds a i m bs
    part_round part reserve =
        let d = r.page_count - n in
        let cut : r.page_count ≡ n + d = omega arith in
        let rest : (split_group marks page n).2 ≡ page_at page n =
          ap (λ t. t.2)
            (split_group-parts marks page n d posn (omega arith) (omega arith) (omega arith)
              (size ∙ cut)) in
        let rest_size =
          (split_group-IsSplit marks page n d posn (omega arith) (omega arith) (omega arith)
            (size ∙ cut)).second in
        let same = add_group-SameLayout b (page_at page n) in
        (
          add_group b (page_at page n),
          init_region-run a b i page _ (page_at page n) s run (reserve ∙ ap (λ t. some (t, b)) rest)
              ∙ round_end a i m bs ls o (page_at page n) b (ground (arith, o.valid.low)),
          Settled-added a i page n b.store (page_at page n) o.inside,
          rest-Extended a⁺ s m r.page_count r.aligned_start bs ls v⁺ o.paged.some_pages
              (omega arith) (omega arith) w n d posn (omega arith) cut,
          record {
            other = λ e. absurd (ground arith);
            here = λ e. omega (
              arith,
              add_group-free b (page_at page n) d rest_size,
              add-whole a i m bs ls o d (omega arith),
              same.desc_pages,
            );
          },
          laid a i m bs ls o s (add_group b (page_at page n)) w same.regions
              (same.address ∙ ((split_group-used marks page n).2 ∙ address))
              (λ x out.
                add_group-outside b (page_at page n) d rest_size x (omega arith)
                ∙ (ap (λ f. f x) (split_group-used marks page n).0 ∙ kept x out))
              (λ e. Marked-n (add_group b (page_at page n)) λ k h.
                add_group-outside b (page_at page n) d rest_size (page_at page k) (omega arith)
                ∙ (ap (λ f. f (page_at page k)) (split_group-used marks page n).0 ∙ marked k h)),
        )

    -- No pages are left.
    pub whole_round :
        n ≡ r.page_count
        → reserve_region i (grouped a i page s) page ≡ some ((split_group marks page n).2, b)
        → RoundEnds a i m bs
    whole_round every reserve =
        let whole = split_group-whole marks page n (size ∙ sym every) in
        let b' = record (grouped a i page s) { desc_pages_count = n; store = marks } in
        (
          b',
          init_region-run a b' i page _ null s run (
                reserve
                ∙ ap
                    (λ (t : Store × Ptr × Ptr).
                      some (t.2, record (grouped a i page s) { desc_pages_count = n; store = t.0 }))
                    whole)
              ∙ ap (λ t. some (t, b')) (next_page a i m bs ls o),
          Settled-placed a i page a.free_group_lists a.free_pages_count n marks o.inside,
          subst
              (λ t.
                Extended
                  (upto
                    (record a⁺ {
                      store = set_used_loop t (init_group s page r.page_count) page 0 true;
                    })
                    (m + r.page_count))
                  a.pages_head m r.page_count bs)
              (sym every)
              (reserved-Extended a⁺ s m r.page_count r.aligned_start bs ls v⁺ o.paged.some_pages
                (omega arith) (omega arith) w),
          record { other = λ e. absurd (ground arith); here = λ e. omega arith },
          laid a i m bs ls o s b' w refl address kept (λ e. Marked-n b' marked),
        )
