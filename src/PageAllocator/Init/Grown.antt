-- ===== src/PageAllocator/Init/Grown.antt =====
-- What a round of the second loop of `init` adds to the layout.
use mathlib.Core.Path.{subst}
use native.Mathlib.Decide.{ℕ_discrete as dec_eq}
use liballocator.Base.{
  suc, inl, inr, ◌≤◌, ◌++◌, List, ℕ, suc, ◌+◌, ◌-◌, ◌*◌, ◌<◌, ◌≡◌, refl, sym, ap, ◌∙◌, inl, arith,
  length,
}
use liballocator.Store.{Ptr}
use liballocator.Page.{page_at}
use liballocator.Group.{last_page}
use liballocator.PageAllocator.{PageAllocator}
use liballocator.PageAllocator.Init.{region_at}
use liballocator.PageAllocator.Blocks.{Block, Tiles, Tiles-split}
use liballocator.PageAllocator.Blocks.Seams.{Seam, Seam-append-cases, Tiles-Seam, Tiles-end}
use liballocator.PageAllocator.Blocks.Together.{
  Together, Together-append_left, Together-append_right,
}
use liballocator.PageAllocator.Invariant.{Inv}
use liballocator.PageAllocator.Init.Extend.{upto}
use liballocator.PageAllocator.Init.Sums.{page_sum-same, page_sum-below}
use liballocator.PageAllocator.Init.Settled.{Settled, Laid, Marked}
use liballocator.PageAllocator.Init.Layout.{first_of, pages_of, Layout, Regional, Filled, Kept}

-- The round on region `i`.
module _ (a b : PageAllocator) (i : ℕ) (k : Settled i a b) (l : Laid i (first_of a i) a b) where
  pub Kept-round : Kept a b
  Kept-round = record {
    page_size = k.page_size;
    desc_region_idx = k.desc_region_idx;
    head = k.head;
    tail = k.tail;
    count = k.count;
    valid_regions = k.valid_regions;
    spans = λ j. elim (dec_eq j i) [
      | yes e ↦ rw (e, l.region) (record { start = refl; end = refl; count = refl })
      | no ne ↦ rw (k.regions j ne) (record { start = refl; end = refl; count = refl })
    ];
  }

  first_same : (j : ℕ) → first_of b j ≡ first_of a j
  first_same j = page_sum-same j 0 a.regions_info b.regions_info λ t h s. (Kept-round.spans t).count

  -- Descriptors of regions in front are outside of those of the round.
  in_front :
      (j t : ℕ)
      → j < i
      → t < pages_of a j
      → page_at a.pages_head (first_of a j + t) < page_at a.pages_head (first_of a i)
  in_front j t lt less =
      let gap : i ≡ j + suc (i - j - 1) = omega arith in
      omega (arith, page_sum-below (i - j - 1) i j a.regions_info gap)

  place :
      (j t : ℕ) → page_at b.pages_head (first_of b j + t) ≡ page_at a.pages_head (first_of a j + t)
  place j t = λ s. page_at (k.head s) (first_same j s + t)

  start_at : (j : ℕ) → page_at b.pages_head (first_of b j) ≡ page_at a.pages_head (first_of a j)
  start_at j = λ s. page_at (k.head s) (first_same j s)

  -- What is marked behind the round.
  marked :
      Layout i a
      → a.desc_region_idx < i + 1
      → Marked a.desc_region_idx (first_of a a.desc_region_idx) a b
  marked y lt = elim (dec_eq a.desc_region_idx i) [
    | yes e ↦ subst (λ t. Marked t (first_of a t) a b) (sym e) (l.marks (ground arith))
    | no ne ↦
        let d = a.desc_region_idx in
        let (n, pos, le, used, behind) = y.marks (omega arith) in
        (
          n,
          pos,
          le,
          λ t h.
              (l.others (page_at a.pages_head (first_of a d + t))
                (inl (in_front d t (omega arith) (omega arith)))).1
              ∙ used t h,
          behind,
        )
  ]

  Marked-round : (d : ℕ) → Marked d (first_of a d) a b → Marked d (first_of b d) b b
  Marked-round d (n, pos, le, used, behind) =
      let span = Kept-round.spans d in
      (
        n,
        pos,
        omega (arith, le, span.count),
        λ t h. ap b.store.used (place d t) ∙ used t h,
        λ h. omega (
          arith,
          behind (omega (arith, h, span.count)),
          k.tail,
          span.start,
          ap (λ p. n * p) k.page_size,
        ),
      )

  pub Layout-next : Layout i a → i < length a.regions_info → Layout (i + 1) b
  Layout-next y here = record {
    first = λ j lt.
        elim (dec_eq j i) [
          | yes e ↦ rw (e, l.region) refl
          | no ne ↦ ap (λ r. r.first_page) (k.regions j ne) ∙ y.first j (omega arith)
        ]
        ∙ sym (start_at j);
    last = λ j lt.
        elim (dec_eq j i) [
          | yes e ↦ rw (e, l.region) refl
          | no ne ↦ ap (λ r. r.last_page) (k.regions j ne) ∙ y.last j (omega arith)
        ]
        ∙ sym (λ s. last_page (start_at j s) ((Kept-round.spans j).count s));
    address = λ j t lt less.
        let span = Kept-round.spans j in
        let small : t < pages_of a j = omega (arith, less, span.count) in
        ap b.store.address (place j t)
        ∙ (elim (dec_eq j i) [
          | yes e ↦
              subst
                (λ d.
                  t < pages_of a d
                  → b.store.address (page_at a.pages_head (first_of a d + t))
                    ≡ (region_at a.regions_info d).aligned_start + t * a.page_size)
                (sym e) (l.address t) small
          | no ne ↦
              (l.others (page_at a.pages_head (first_of a j + t))
                (inl (in_front j t (omega arith) small))).0
              ∙ y.address j t (omega arith) small
        ]
            ∙ sym (λ s. span.start s + t * k.page_size s));
    marks = λ lt.
        subst (λ d. Marked d (first_of b d) b b) (sym k.desc_region_idx)
          (Marked-round a.desc_region_idx (marked y (omega (arith, lt, k.desc_region_idx))));
  }

  -- Blocks behind those that are there take the pages of region `i`.
  pub Regional-next :
      (m : ℕ) (bs cs : List Block) (ls ls' : ℕ → List Ptr)
      → m ≡ first_of a i
      → Inv (upto a m) bs ls
      → Inv (upto b (m + pages_of a i)) (bs ++ cs) ls'
      → Regional i a bs
      → Regional (i + 1) b (bs ++ cs)
  Regional-next m bs cs ls ls' index v v' r t seam =
      elim (Seam-append-cases b.pages_head bs cs t seam) [
        | inl before ↦
            let (j, lt, low, high) = r t (subst (λ h. Seam h bs t) k.head before) in
            (
              j,
              omega arith,
              omega (arith, first_same j),
              omega (arith, first_same j, (Kept-round.spans j).count),
            )
        | inr behind ↦
            let (mid, front, back) = Tiles-split b.store b.pages_head _ bs cs v'.tiles in
            let end : page_at a.pages_head m ≡ mid =
              Tiles-end a.store b.store a.pages_head _ mid bs v.tiles
                (subst (λ h. Tiles b.store h bs mid) k.head front) in
            let (low, high) = Tiles-Seam b.store b.pages_head mid _ cs t back behind in
            (
              i,
              omega arith,
              omega (arith, index, first_same i, k.head),
              omega (arith, index, first_same i, k.head, (Kept-round.spans i).count),
            )
      ]

  pub Filled-next :
      (m : ℕ) (bs cs : List Block)
      → m ≡ first_of a i
      → ((t : ℕ) → m ≤ t → suc t < m + pages_of a i → Together a.pages_head cs t)
      → Filled i a bs
      → Filled (i + 1) b (bs ++ cs)
  Filled-next m bs cs index last filled j t lt less =
      let less' : suc t < pages_of a j = omega (arith, (Kept-round.spans j).count) in
      let there : first_of a j + t ≡ first_of b j + t = ap (λ n. n + t) (sym (first_same j)) in
      subst (λ n. Together b.pages_head (bs ++ cs) n) there
        (subst (λ h. Together h (bs ++ cs) (first_of a j + t)) (sym k.head)
          (elim (dec_eq j i) [
            | yes e ↦ Together-append_right a.pages_head bs cs (first_of a j + t) (
                last (first_of a j + t) (omega (arith, index, ap (first_of a) e))
                  (omega (arith, index, ap (first_of a) e, ap (pages_of a) e)))
            | no ne ↦
                Together-append_left a.pages_head bs cs (first_of a j + t)
                  (filled j t (omega arith) less')
          ]))
