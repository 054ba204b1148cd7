-- ===== src/PageAllocator/Init/Placed.antt =====
-- The addresses that `init` gives to the pages of the regions: multiples of the page size.
use mathlib.Core.Path.{subst}
use native.Mathlib.Nat.{one-le-pow, mul-add-div_right, div-eq_of_lt}
use liballocator.Base.{ℕ, ◌+◌, ◌*◌, ◌/◌, ◌^◌, ◌≤◌, ◌<◌, ◌≡◌, sym, ap, ◌∙◌, arith}
use liballocator.Word.{align_down}
use liballocator.Word.Align.{align_down_lem}
use liballocator.PageAllocator.{PageAllocator, get_region}
use liballocator.PageAllocator.Regions.{Spans, FirstSpan, get_region-FirstSpan}
use liballocator.PageAllocator.Init.{region_at}
use liballocator.PageAllocator.Init.Begun.{Begun}
use liballocator.PageAllocator.Init.Layout.{first_of, pages_of}
use liballocator.PageAllocator.Init.Memory.{memory_of, in_region}

-- An address in a page is taken down to its start.
align_down-within :
    (k m d : ℕ)
    → k ≤ 63
    → d < 2 ^ k
    → m * 2 ^ k + d < 2 ^ 64
    → align_down (m * 2 ^ k + d) (2 ^ k) ≡ m * 2 ^ k
align_down-within k m d h less small =
    let size = one-le-pow k 2 (omega arith) in
    let whole : (m * 2 ^ k + d) / 2 ^ k ≡ m =
      mul-add-div_right size m d ∙ omega (arith, div-eq_of_lt less) in
    align_down_lem k (m * 2 ^ k + d) h small ∙ ap (λ t. t * 2 ^ k) whole

-- Page `t` of region `r`.
module _ (k : ℕ) (h : k ≤ 63) (a : PageAllocator) (w : Begun (2 ^ k) a) (r t : ℕ)
    (lt : r < a.valid_regions_count) (less : t < pages_of a r) where
  abbrev pub place : ℕ
  place = memory_of a (first_of a r + t)

  multiple : place ≡ ((w.paged r lt).multiple.0 + t) * 2 ^ k
  multiple = omega (
    arith,
    w.layout.address r t lt less,
    (w.paged r lt).multiple.1,
    ap (λ p. t * p) w.size,
    ap (λ p. (w.paged r lt).multiple.0 * p) w.size,
  )

  pub aligned : (e : ℕ) → e < a.page_size → align_down (place + e) a.page_size ≡ place
  aligned e below =
      let (low, high) = in_region (2 ^ k) a w r t lt less in
      let m = (w.paged r lt).multiple.0 + t in
      let small : m * 2 ^ k + e < 2 ^ 64 = omega (arith, (w.paged r lt).small, multiple, w.size) in
      rw (w.size, multiple) (align_down-within k m e h (omega (arith, w.size)) small)

  pub spans : Spans (region_at a.regions_info r) place
  spans = let (low, high) = in_region (2 ^ k) a w r t lt less in (low, omega (arith, high))

  pub first_span : FirstSpan a.regions_info place 0 a.valid_regions_count (get_region a place)
  first_span =
      let start : place + 0 ≡ place = omega arith in
      let twice : align_down place a.page_size ≡ place =
        ap (λ x. align_down x a.page_size) (sym start)
        ∙ aligned 0 (omega (arith, w.size, one-le-pow k 2 (omega arith))) in
      subst (λ x. FirstSpan a.regions_info x 0 a.valid_regions_count (get_region a place)) twice
        (get_region-FirstSpan a place)
