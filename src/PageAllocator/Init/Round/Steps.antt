-- ===== src/PageAllocator/Init/Round/Steps.antt =====
-- What every round of the second loop of `init` does.
use liballocator.Base.{
  ◌⊎◌, ℕ, ◌+◌, ◌^◌, ◌≤◌, ◌<◌, ◌≡◌, refl, ap, ◌∙◌, true, false, Option, some, List, arith, ◌==◌,
  if◌then◌else◌, length, get_or-set,
}
use liballocator.Store.{Ptr, null, Store}
use liballocator.Page.{page_at}
use liballocator.RegionInfo.{clear_region_info}
use liballocator.Group.{init_group}
use liballocator.PageAllocator.{PageAllocator, add_group}
use liballocator.PageAllocator.Blocks.{Block, Tiles-free_size}
use liballocator.Word.{add}
use liballocator.PageAllocator.Invariant.{Inv}
use liballocator.PageAllocator.Init.{region_at, init_pages, init_region}
use liballocator.PageAllocator.Init.Pages.{Started, init_pages-Started}
use liballocator.PageAllocator.Init.Extend.{upto, Extended}
use liballocator.PageAllocator.Init.Run.{placed}
use liballocator.PageAllocator.Init.Settled.{IsPaged, Laid, Marked, Counted, Settled}

-- What holds where a round begins: the first `m` descriptors are those of valid groups, and the region
-- consists of whole pages, whose descriptors fit behind those.
pub record Opens (a : PageAllocator) (i m : ℕ) (bs : List Block) (ls : ℕ → List Ptr) : Type 0 where
  pub valid : Inv (upto a m) bs ls
  pub inside : i < length a.regions_info
  pub paged : IsPaged a.page_size (region_at a.regions_info i)
  pub pos : 0 < a.page_size
  pub within : m + (region_at a.regions_info i).page_count ≤ a.pages_count
  pub few : a.pages_count < 2 ^ 21
  pub tail : a.pages_tail + 32 ≡ page_at a.pages_head a.pages_count
  pub high : page_at a.pages_head a.pages_count < 2 ^ 64
  pub desc : i ≡ a.desc_region_idx → (region_at a.regions_info i).aligned_start < a.pages_tail + 32

-- What a round of the loop makes of a state in which the first `m` pages are those of valid groups.
abbrev pub RoundEnds : PageAllocator → ℕ → ℕ → List Block → Type 0
RoundEnds a i m bs =
    let c = (region_at a.regions_info i).page_count in
    (a' : PageAllocator) × (init_region i (page_at a.pages_head m) a
      ≡ some (page_at a.pages_head (m + c), a'))
    × Settled i a a'
    × Extended (upto a' (m + c)) a.pages_head m c bs
    × Counted i c a a'
    × Laid i m a a'

module _ (a : PageAllocator) (i m : ℕ) (bs : List Block) (ls : ℕ → List Ptr)
    (o : Opens a i m bs ls) where
  pub pages :
      (s' : Store) × (init_pages
          ((region_at a.regions_info i).page_count + 1)
          (region_at a.regions_info i).aligned_start
          (region_at a.regions_info i).aligned_end
          a.page_size
          (page_at a.pages_head m)
          a.store
        ≡ some (s', page_at (page_at a.pages_head m) (region_at a.regions_info i).page_count))
      × Started a.store s'
          (page_at a.pages_head m)
          (region_at a.regions_info i).page_count
          (region_at a.regions_info i).aligned_start
          a.page_size
  pages =
      let r = region_at a.regions_info i in
      init_pages-Started r.page_count (r.page_count + 1) r.aligned_start r.aligned_end a.page_size
        (page_at a.pages_head m) a.store (omega arith) o.paged.end o.paged.small o.pos
        (omega (arith, o.valid.low))

  pub next_page :
      page_at (page_at a.pages_head m) (region_at a.regions_info i).page_count
      ≡ page_at a.pages_head (m + (region_at a.regions_info i).page_count)
  next_page = omega arith

  pub not_null : (k : ℕ) → (page_at (page_at a.pages_head m) k == null) ≡ false
  not_null k = ground (arith, o.valid.low)

  -- The end of the round, with the group `g` that is left.
  pub round_end :
      (g : Ptr) (b : PageAllocator)
      → (g == null) ≡ false
      → ◌≡◌ {A = Option (Ptr × PageAllocator)}
          (some (
            page_at (page_at a.pages_head m) (region_at a.regions_info i).page_count,
            if g == null then b else add_group b g,
          ))
          (some (page_at a.pages_head (m + (region_at a.regions_info i).page_count), add_group b g))
  round_end g b there = rw (there, next_page) refl

  -- The counter of free pages does not wrap.
  pub add-whole :
      (n : ℕ)
      → n ≤ (region_at a.regions_info i).page_count
      → add a.free_pages_count n ≡ a.free_pages_count + n
  add-whole n le = omega (
    arith,
    o.valid.free,
    Tiles-free_size a.store a.pages_head bs (page_at a.pages_head m) o.valid.tiles,
  )

  pub init_group-address : (s : Store) (g : Ptr) (n : ℕ) → (init_group s g n).address ≡ s.address
  unfolding init_group
  init_group-address s g n = refl

  -- What is left to show about the descriptors: who has changed addresses and flags since the loop.
  pub laid :
      (s : Store) (a' : PageAllocator)
      → Started a.store s
          (page_at a.pages_head m)
          (region_at a.regions_info i).page_count
          (region_at a.regions_info i).aligned_start
          a.page_size
      → a'.regions_info ≡ (placed a i (page_at a.pages_head m)).regions_info
      → a'.store.address ≡ s.address
      → ((x : Ptr)
          → (x < page_at a.pages_head m)
            ⊎ (page_at (page_at a.pages_head m) (region_at a.regions_info i).page_count ≤ x)
          → a'.store.used x ≡ s.used x)
      → ((i == a.desc_region_idx) ≡ true → Marked i m a a')
      → Laid i m a a'
  laid s a' w regions address flags marks = record {
    region =
        ap (λ t. region_at t i) regions ∙ get_or-set a.regions_info i _ clear_region_info o.inside;
    address = λ k less.
        let there : page_at a.pages_head (m + k) ≡ page_at (page_at a.pages_head m) k =
          omega arith in
        ap a'.store.address there
        ∙ (ap (λ f. f (page_at (page_at a.pages_head m) k)) address ∙ w.address k less);
    others = λ x out.
        let kept = w.outside x (omega arith) in
        (ap (λ f. f x) address ∙ kept.address, flags x (omega arith) ∙ kept.flag);
    marks = marks;
  }
