-- ===== src/PageAllocator/Init/Valid.antt =====
-- `init` establishes what the other operations keep.
use mathlib.Core.Path.{subst}
use native.Mathlib.Decide.{dec_lt}
use liballocator.Base.{
  ◌*◌, ℕ, ◌+◌, ◌^◌, ◌≤◌, ◌<◌, ◌≡◌, refl, sym, ap, ◌∙◌, inl, inr, Bool, true, false, some, [], arith,
  ◌==◌, length, Bool-cases,
}
use liballocator.Store.{Ptr, null}
use liballocator.Page.{page_at}
use liballocator.Group.{last_page}
use liballocator.Group.Sizes.{last_page-eq}
use liballocator.PageAllocator.{PageAllocator}
use liballocator.PageAllocator.Invariant.{Inv}
use liballocator.PageAllocator.Init.{
  region_at, count_pages, choose_desc_region, init_regions, build,
}
use liballocator.PageAllocator.Init.Extend.{upto}
use liballocator.PageAllocator.Init.Sums.{
  page_sum, page_sum-same, count_pages-page_sum, page_sum-cleared,
}
use liballocator.PageAllocator.Init.Apart.{Separated}
use liballocator.PageAllocator.Init.Layout.{Regional, Filled, Layout}
use liballocator.PageAllocator.Regions.{choose_desc_region-lt}
use liballocator.PageAllocator.Init.Begun.{Begun}
use liballocator.PageAllocator.Init.Loop.{Ready, init_regions_lem}
use liballocator.PageAllocator.Init.Scan.{Scanned}

-- Without descriptors the empty lists are valid.
none-Inv :
    (a : PageAllocator)
    → 32 ≤ a.pages_head
    → a.pages_head < 2 ^ 64
    → ((i : ℕ) → a.free_group_lists i ≡ null)
    → a.free_pages_count ≡ 0
    → Inv (upto a 0) [] (λ i. [])
none-Inv a low high lists free = record {
  few = omega arith;
  low = low;
  high = omega arith;
  tail = omega arith;
  tiles = omega arith;
  lists = lists;
  bag = λ i x. refl;
  idle = λ k lt. absurd (omega arith);
  free = free;
}

none-Layout : (a : PageAllocator) → Layout 0 a
none-Layout a = record {
  first = λ j lt. absurd (omega arith);
  last = λ j lt. absurd (omega arith);
  address = λ j k lt. absurd (omega arith);
  marks = λ lt. absurd (omega arith);
}

-- The state in front of the second loop.
abbrev counted : PageAllocator → PageAllocator
counted a = record a { pages_count = count_pages a.regions_info }

abbrev desc_start : PageAllocator → Ptr
desc_start a = (region_at a.regions_info (choose_desc_region (counted a))).aligned_start

abbrev started : PageAllocator → ℕ → PageAllocator
started a page_size = record (counted a) {
  page_size = page_size;
  desc_region_idx = choose_desc_region (counted a);
  pages_head = desc_start a;
  pages_tail = last_page (desc_start a) (count_pages a.regions_info);
}

build-run :
    (a a' : PageAllocator) (page_size : ℕ)
    → (count_pages a.regions_info == 0) ≡ false
    → init_regions a.valid_regions_count 0 (desc_start a) (started a page_size) ≡ some a'
    → build a page_size ≡ some (true, a')
unfolding build
build-run a a' page_size more run = rw (more, run) refl

build-empty :
    (a : PageAllocator) (page_size : ℕ)
    → (count_pages a.regions_info == 0) ≡ true
    → build a page_size ≡ some (false, counted a)
unfolding build
build-empty a page_size none = rw none refl

module _ (a : PageAllocator) (page_size : ℕ) (w : Scanned page_size a) (pos : 0 < page_size)
    (few : page_sum a.valid_regions_count 0 a.regions_info < 2 ^ 21) where
  count_lem : count_pages a.regions_info ≡ page_sum a.valid_regions_count 0 a.regions_info
  count_lem =
      let all =
        page_sum-cleared a.valid_regions_count (length a.regions_info) 0 a.regions_info
          (omega (arith, w.length, w.fits))
          (λ j h. ap (λ r. r.page_count) (w.cleared j (omega arith))) in
      count_pages-page_sum a.regions_info (omega (arith, all)) ∙ all

  some_region : (count_pages a.regions_info == 0) ≡ false → 0 < a.valid_regions_count
  unfolding page_sum
  some_region more = elim (dec_lt 0 a.valid_regions_count) [
    | yes lt ↦ lt
    | no ge ↦
        let none : a.valid_regions_count ≡ 0 = omega arith in
        absurd (ground (arith, count_lem, ap (λ n. page_sum n 0 a.regions_info) none))
  ]

  started-Ready :
      (count_pages a.regions_info == 0) ≡ false
      → Ready (started a page_size) a.valid_regions_count 0 0
  unfolding page_sum
  started-Ready more =
      let idx = choose_desc_region-lt (counted a) (some_region more) in
      let found = w.found (choose_desc_region (counted a)) idx in
      let n = count_pages a.regions_info in
      let positive : 0 < n = ground arith in
      let high : page_at (desc_start a) n < 2 ^ 64 = omega (arith, found.room, count_lem, few) in
      let tail = last_page-eq (desc_start a) n positive high in
      record {
        valid =
            ([], λ i. [], none-Inv (started a page_size) found.low (omega arith) w.lists w.free);
        within = omega (arith, w.length, w.fits);
        paged = λ j low lt. (w.found j (omega arith)).paged;
        pos = pos;
        sum = omega (arith, count_lem);
        few = omega (arith, count_lem);
        tail = omega (arith, tail, positive);
        high = high;
        desc = omega (arith, tail, positive);
        laid = none-Layout (started a page_size);
        index = refl;
        regional = λ k seam. absurd seam;
        filled = λ j t lt less. absurd (omega arith);
      }

  -- The second part of `init` ends. Unless there are no pages it leaves the regions of the table with
  -- their descriptors.
  pub build_lem :
      (done : Bool) × (a' : PageAllocator) × (build a page_size ≡ some (done, a'))
      × (done ≡ true
          → Begun page_size a'
            × (a'.pages_count ≡ page_sum a.valid_regions_count 0 a.regions_info)
            × (Separated a → Separated a'))
  build_lem = elim (Bool-cases (count_pages a.regions_info == 0)) [
    | inl none ↦ (false, counted a, build-empty a page_size none, λ e. ground arith)
    | inr more ↦
        let ready = started-Ready more in
        let idx = choose_desc_region-lt (counted a) (some_region more) in
        let (a', run, totals, kept, laid, (valid, regional, filled)) =
          init_regions_lem a.valid_regions_count 0 0 (started a page_size) ready in
        let first : page_at (desc_start a) 0 ≡ desc_start a = omega arith in
        let all : 0 + a.valid_regions_count ≡ a'.valid_regions_count =
          omega (arith, kept.valid_regions) in
        let span = kept.spans in
        (
          true,
          a',
          build-run a a' page_size more (
              ap (λ t. init_regions a.valid_regions_count 0 t (started a page_size)) (sym first)
              ∙ run),
          λ e. (
            record {
              valid = valid;
              size = kept.page_size;
              sum =
                  ap (λ n. page_sum n 0 a'.regions_info) kept.valid_regions
                  ∙ (page_sum-same a.valid_regions_count 0 a.regions_info a'.regions_info
                        (λ j low lt. (span j).count)
                      ∙ sym (kept.count ∙ count_lem));
              paged = λ j lt.
                  let p = (w.found j (omega (arith, kept.valid_regions))).paged in
                  record {
                    some_pages = omega (arith, p.some_pages, (span j).count);
                    multiple = (
                      p.multiple.0,
                      (span j).start
                          ∙ (p.multiple.1 ∙ sym (ap (λ t. p.multiple.0 * t) kept.page_size)),
                    );
                    end =
                        (span j).end
                        ∙ (p.end
                            ∙ sym (λ t. (span j).start t + (span j).count t * kept.page_size t));
                    small = omega (arith, p.small, (span j).end);
                  };
              layout = subst (λ t. Layout t a') all laid;
              regional = subst (λ t. Regional t a' valid.0) all regional;
              filled = subst (λ t. Filled t a' valid.0) all filled;
              desc = omega (arith, idx, kept.valid_regions, kept.desc_region_idx);
              head =
                  kept.head
                  ∙ (sym (span (choose_desc_region (counted a))).start
                      ∙ ap (λ t. (region_at a'.regions_info t).aligned_start)
                          (sym kept.desc_region_idx));
              tail = omega (arith, ready.tail, kept.tail, kept.head, kept.count);
              counters = omega (
                arith,
                totals.among (omega arith) (omega (arith, idx)),
                w.free,
                kept.count,
                count_lem,
              );
            },
            kept.count ∙ count_lem,
            λ t j k lt bound.
                rw ((span j).start, (span j).end, (span k).start, (span k).end)
                  (t j k lt (omega (arith, kept.valid_regions))),
          ),
        )
  ]
