-- ===== src/PageAllocator/Init/Loop.antt =====
-- The second loop of `init`.
use mathlib.Core.Path.{subst}
use liballocator.Base.{
  ◌==◌, inl, inr, Bool-cases, ℕ, zero, suc, ◌+◌, ◌^◌, ◌≤◌, ◌<◌, ◌≡◌, refl, sym, ap, ◌∙◌, some, List,
  ◌++◌, arith, length,
}
use liballocator.Store.{Ptr}
use liballocator.Page.{page_at}
use liballocator.PageAllocator.{PageAllocator}
use liballocator.PageAllocator.Blocks.{Block}
use liballocator.PageAllocator.Invariant.{Inv, IsValid}
use liballocator.PageAllocator.Init.{region_at, init_region, init_regions}
use liballocator.PageAllocator.Init.Extend.{upto, Extended}
use liballocator.PageAllocator.Init.Sums.{page_sum, page_sum-same, page_sum-last}
use liballocator.PageAllocator.Init.Layout.{
  first_of, Regional, Filled, Layout, Kept, Kept-refl, Kept-trans,
}
use liballocator.PageAllocator.Init.Grown.{Kept-round, Layout-next, Regional-next, Filled-next}
use liballocator.PageAllocator.Init.Settled.{IsPaged, Settled, Counted, Laid}
use liballocator.PageAllocator.Init.Round.{init_region_lem}

-- The first `m` descriptors are those of valid groups, and `n` regions of whole pages from index `i` on
-- take the others. The descriptors begin in front of their end.
pub record Ready (a : PageAllocator) (n i m : ℕ) : Type 0 where
  pub valid : IsValid (upto a m)
  pub within : i + n ≤ length a.regions_info
  pub paged : (j : ℕ) → i ≤ j → j < i + n → IsPaged a.page_size (region_at a.regions_info j)
  pub pos : 0 < a.page_size
  pub sum : m + page_sum n i a.regions_info ≡ a.pages_count
  pub few : a.pages_count < 2 ^ 21
  pub tail : a.pages_tail + 32 ≡ page_at a.pages_head a.pages_count
  pub high : page_at a.pages_head a.pages_count < 2 ^ 64
  pub desc : (region_at a.regions_info a.desc_region_idx).aligned_start < a.pages_tail + 32
  pub laid : Layout i a
  pub index : m ≡ first_of a i
  pub regional : Regional i a valid.0
  pub filled : Filled i a valid.0

Ready-Settled :
    (a a' : PageAllocator) (n i m : ℕ) (r : Ready a (suc n) i m)
    → Settled i a a'
    → Laid i m a a'
    → Extended
        (upto a' (m + (region_at a.regions_info i).page_count))
        a.pages_head
        m
        (region_at a.regions_info i).page_count
        r.valid.0
    → Ready a' n (i + 1) (m + (region_at a.regions_info i).page_count)
unfolding page_sum
Ready-Settled a a' n i m r k l (cs, ls', v', together) =
    let (bs, ls, v) = r.valid in
    let l' = subst (λ t. Laid i t a a') r.index l in
    let next : i + 1 ≡ suc i = omega arith in
    let here : 0 + i ≡ i = omega arith in
    record {
      valid = (bs ++ cs, ls', v');
      within = omega (arith, r.within, k.length);
      paged = λ j low high.
          rw (k.regions j (omega arith), k.page_size) (r.paged j (omega arith) (omega arith));
      pos = omega (arith, r.pos, k.page_size);
      sum = omega (
        arith,
        r.sum,
        k.count,
        page_sum-same n (i + 1) a.regions_info a'.regions_info
            (λ j h l. ap (λ r. r.page_count) (k.regions j (omega arith))),
      );
      few = omega (arith, r.few, k.count);
      tail = omega (arith, r.tail, k.tail, k.head, k.count);
      high = omega (arith, r.high, k.head, k.count);
      desc = rw k.desc_region_idx (omega (arith, r.desc, k.starts a.desc_region_idx, k.tail));
      laid = Layout-next a a' i k l' r.laid (omega (arith, r.within));
      index = omega (
        arith,
        r.index,
        ap (λ t. page_sum t 0 a'.regions_info) next,
        page_sum-last i 0 a'.regions_info,
        page_sum-same i 0 a.regions_info a'.regions_info
            (λ j h t. ((Kept-round a a' i k l').spans j).count),
        ap (λ t. (region_at a'.regions_info t).page_count) here,
        ((Kept-round a a' i k l').spans i).count,
      );
      regional = Regional-next a a' i k l' m bs cs ls ls' r.index v v' r.regional;
      filled = Filled-next a a' i k l' m bs cs r.index together r.filled;
    }

-- With all descriptors taken the fields are those of the state.
upto-all :
    (a : PageAllocator) (m : ℕ) (bs : List Block) (ls : ℕ → List Ptr)
    → m ≡ a.pages_count
    → a.pages_tail + 32 ≡ page_at a.pages_head a.pages_count
    → Inv (upto a m) bs ls
    → Inv a bs ls
upto-all a m bs ls e tail valid =
    let v = subst (λ t. Inv (upto a t) bs ls) e valid in
    record {
      few = v.few;
      low = v.low;
      high = v.high;
      tail = tail;
      tiles = v.tiles;
      lists = v.lists;
      bag = v.bag;
      idle = v.idle;
      free = v.free;
    }

init_regions-next :
    (n i : ℕ) (page next : Ptr) (a a' : PageAllocator)
    → init_region i page a ≡ some (next, a')
    → init_regions (suc n) i page a ≡ init_regions n (i + 1) next a'
unfolding init_regions
init_regions-next n i page next a a' run = rw run refl

-- The counters behind `n` regions from index `i` on: all their pages are free, but for those that are
-- reserved in the region of the descriptors.
pub record Totals (n i : ℕ) (a a' : PageAllocator) : Type 0 where
  pub before :
      a.desc_region_idx < i
      → (a'.free_pages_count ≡ a.free_pages_count + page_sum n i a.regions_info)
        × (a'.desc_pages_count ≡ a.desc_pages_count)
  pub among :
      i ≤ a.desc_region_idx
      → a.desc_region_idx < i + n
      → a'.free_pages_count + a'.desc_pages_count ≡ a.free_pages_count + page_sum n i a.regions_info

Totals-next :
    (n i : ℕ) (a b a' : PageAllocator)
    → Settled i a b
    → Counted i (region_at a.regions_info i).page_count a b
    → Totals n (i + 1) b a'
    → Totals (suc n) i a a'
unfolding page_sum
Totals-next n i a b a' k c t =
    let rest =
      page_sum-same n (i + 1) a.regions_info b.regions_info
        (λ j h l. ap (λ r. r.page_count) (k.regions j (omega arith))) in
    record {
      before = λ h.
          let (free, desc) = c.other (ground arith) in
          let (free', desc') = t.before (omega (arith, k.desc_region_idx)) in
          (omega (arith, free, free', rest), desc' ∙ desc);
      among = λ low high. elim (Bool-cases (i == a.desc_region_idx)) [
        | inl here ↦
            let (free', desc') = t.before (ground (arith, k.desc_region_idx)) in
            omega (arith, c.here here, free', desc', rest)
        | inr other ↦
            let (free, desc) = c.other other in
            let all =
              t.among (ground (arith, k.desc_region_idx)) (omega (arith, k.desc_region_idx)) in
            omega (arith, free, all, rest)
      ];
    }

-- The loop of `init` over regions of whole pages runs to its end and leaves a valid state with as many
-- pages.
pub init_regions_lem :
    (n i m : ℕ) (a : PageAllocator)
    → Ready a n i m
    → (a' : PageAllocator) × (init_regions n i (page_at a.pages_head m) a ≡ some a')
      × Totals n i a a'
      × Kept a a'
      × Layout (i + n) a'
      × ((valid : IsValid a') × Regional (i + n) a' valid.0 × Filled (i + n) a' valid.0)
unfolding init_regions page_sum
init_regions_lem zero i m a r = (
  a,
  refl,
  record { before = λ h. (omega arith, refl); among = λ low high. absurd (omega arith) },
  Kept-refl a,
  (let all : i ≡ i + 0 = omega arith in subst (λ t. Layout t a) all r.laid),
  (
    (r.valid.0, r.valid.1, upto-all a m _ _ (omega (arith, r.sum)) r.tail r.valid.2),
    (let all : i ≡ i + 0 = omega arith in subst (λ t. Regional t a r.valid.0) all r.regional),
    (let all : i ≡ i + 0 = omega arith in subst (λ t. Filled t a r.valid.0) all r.filled),
  ),
)
init_regions_lem (suc n) i m a r =
    let c = (region_at a.regions_info i).page_count in
    let (bs, ls, v) = r.valid in
    let here : i < length a.regions_info = omega (arith, r.within) in
    let (b, run, k, valid, counted, l) = init_region_lem a i m bs ls (record {
      valid = v;
      inside = here;
      paged = r.paged i (omega arith) (omega arith);
      pos = r.pos;
      within = omega (arith, r.sum);
      few = r.few;
      tail = r.tail;
      high = r.high;
      desc = λ e. rw e r.desc;
    }) in
    let (a', runs, totals, kept, laid, (valid', regional, filled)) =
      init_regions_lem n (i + 1) (m + c) b (Ready-Settled a b n i m r k l valid) in
    (
      a',
      init_regions-next n i (page_at a.pages_head m) _ a b run
          ∙ (ap (λ t. init_regions n (i + 1) (page_at t (m + c)) b) (sym k.head) ∙ runs),
      Totals-next n i a b a' k counted totals,
      Kept-trans a b a' (Kept-round a b i k (subst (λ t. Laid i t a b) r.index l)) kept,
      (let all : i + 1 + n ≡ i + suc n = omega arith in subst (λ t. Layout t a') all laid),
      (
        valid',
        (let all : i + 1 + n ≡ i + suc n = omega arith in
            subst (λ t. Regional t a' valid'.0) all regional),
        (let all : i + 1 + n ≡ i + suc n = omega arith in
            subst (λ t. Filled t a' valid'.0) all filled),
      ),
    )
