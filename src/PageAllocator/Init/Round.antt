-- ===== src/PageAllocator/Init/Round.antt =====
-- One round of the second loop of `init`.
pub mod Steps
pub mod Reserved
use native.Mathlib.Decide.{dec_lt}
use liballocator.Base.{ℕ, ◌≡◌, ap, ◌∙◌, inl, inr, true, false, List, arith, ◌==◌, Bool-cases}
use liballocator.Store.{Ptr}
use liballocator.Page.{page_at}
use liballocator.Group.Sizes.{init_group-used, group_size-init_group}
use liballocator.PageAllocator.{PageAllocator, add_group}
use liballocator.PageAllocator.Blocks.{Block}
use liballocator.PageAllocator.Flip.{add_group-free, add_group-outside, add_group-SameLayout}
use liballocator.PageAllocator.Init.{region_at}
use liballocator.PageAllocator.Init.Parts.{free-Extended}
use liballocator.PageAllocator.Init.Run.{placed, grouped, init_region-run, reserve_region-other}
use liballocator.PageAllocator.Init.Settled.{Settled-added, Inv-placed}
use liballocator.PageAllocator.Init.Round.Steps.{
  Opens, RoundEnds, pages, round_end, add-whole, laid, init_group-address,
}
use liballocator.PageAllocator.Init.Round.Reserved.{reserved, part_round, whole_round}

module _ (a : PageAllocator) (i m : ℕ) (bs : List Block) (ls : ℕ → List Ptr)
    (o : Opens a i m bs ls) where
  free_round : (i == a.desc_region_idx) ≡ false → RoundEnds a i m bs
  free_round other =
      let r = region_at a.regions_info i in
      let page = page_at a.pages_head m in
      let (s, run, w) = pages a i m bs ls o in
      let b = grouped a i page s in
      let size : b.store.group_size page ≡ r.page_count = ground (
        arith,
        group_size-init_group s page r.page_count o.paged.some_pages (omega arith) (omega arith)
            page,
      ) in
      (
        add_group b page,
        init_region-run a b i page _ page s run (reserve_region-other i b page other)
            ∙ round_end a i m bs ls o page b (ground (arith, o.valid.low)),
        Settled-added a i page a.desc_pages_count b.store page o.inside,
        free-Extended (placed a i page) s m r.page_count r.aligned_start bs ls
            (Inv-placed a i m a.desc_pages_count page bs ls o.valid) o.paged.some_pages
            (omega arith) (omega arith) w,
        record {
          other = λ e. (
            add_group-free b page r.page_count size
                ∙ add-whole a i m bs ls o r.page_count (omega arith),
            (add_group-SameLayout b page).desc_pages,
          );
          here = λ e. absurd (ground arith);
        },
        laid a i m bs ls o s (add_group b page) w (add_group-SameLayout b page).regions
            ((add_group-SameLayout b page).address
              ∙ init_group-address a i m bs ls o s page r.page_count)
            (λ x out.
              add_group-outside b page r.page_count size x out
              ∙ ap (λ f. f x) (init_group-used s page r.page_count))
            (λ e. absurd (ground arith)),
      )

  desc_round : (i == a.desc_region_idx) ≡ true → RoundEnds a i m bs
  desc_round here =
      let (s, run, w) = pages a i m bs ls o in
      let first : page_at (page_at a.pages_head m) 0 ≡ page_at a.pages_head m = omega arith in
      let addr : s.address (page_at a.pages_head m) ≡ (region_at a.regions_info i).aligned_start =
        omega (arith, ap s.address first, w.address 0 o.paged.some_pages) in
      let (n, posn, le, stop, reserve) = reserved a i m bs ls o s addr here in
      elim (dec_lt n (region_at a.regions_info i).page_count) [
        | yes part ↦ part_round a i m bs ls o s run w here n posn le stop part reserve
        | no all ↦ whole_round a i m bs ls o s run w here n posn le stop (omega arith) reserve
      ]

  -- If the first `m` descriptors are those of valid groups, a round on a region of whole pages runs to
  -- its end. It leaves valid groups in the descriptors of this region, too.
  pub init_region_lem : RoundEnds a i m bs
  init_region_lem = elim (Bool-cases (i == a.desc_region_idx)) [
    | inl here ↦ desc_round here
    | inr other ↦ free_round other
  ]
