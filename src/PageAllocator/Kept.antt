-- ===== src/PageAllocator/Kept.antt =====
-- What stays as it is over any sequence of calls: the layout, and the pages that were in use before.
use mathlib.Core.Path.{subst}
use liballocator.Base.{
  ℕ, suc, ◌+◌, ◌<◌, ◌≡◌, ap, ◌∙◌, ◌⊎◌, inl, inr, true, List, [], ◌∷◌, ◌++◌, append_assoc, arith,
}
use liballocator.Page.{page_at}
use liballocator.PageAllocator.{PageAllocator}
use liballocator.PageAllocator.Flip.{SameLayout, SameLayout-refl, SameLayout-trans}
use liballocator.PageAllocator.Split.{used_block}
use liballocator.PageAllocator.Taken.{page_used}
use liballocator.PageAllocator.Blocks.{Block, Tiles}
use liballocator.PageAllocator.Blocks.Seams.{Coarser, Coarser-trans, Coarser-map, Seam}
use liballocator.PageAllocator.Release.Bridges.{Bridge, Bridge-SameLayout}
use liballocator.PageAllocator.Blocks.Member.{In-split}
use liballocator.PageAllocator.Blocks.Replace.{Tiles-block}
use liballocator.PageAllocator.Invariant.{Inv, IsValid}
use liballocator.PageAllocator.Live.{Live, Held, Holds-Sound}
use liballocator.PageAllocator.Runs.{
  InRun, IsRun, Held-Seam, IsRun-left, runs, Held-runs, used-InRun, Sound-append,
}
use liballocator.PageAllocator.History.{
  Step, allocated, refused, released, Reach, start, call, Holds, Step-Moved,
}

-- A client that holds more can make the same calls.
Step-more :
    {a a' : PageAllocator} {live live' : Live} (kept : Live)
    → Step a live a' live'
    → Step a (live ++ kept) a' (live' ++ kept)
Step-more kept (allocated n k e ne) = allocated n k e ne
Step-more kept (refused n e) = refused n e
Step-more kept (released front back k n e run e') =
    released front (back ++ kept) k n
      (ap (λ t. t ++ kept) e ∙ append_assoc front ((k, n) ∷ back) kept) run
      (ap (λ t. t ++ kept) e' ∙ append_assoc front back kept)

-- What holds since the state `s` with the blocks `bs`, of which the runs `kept` are still there.
record Since (s : PageAllocator) (bs : List Block) (kept : Live) (a : PageAllocator) (live : Live)
    : Type 0 where
  holds : Holds a (live ++ kept)
  layout : SameLayout s a
  seams : Coarser (Bridge s s.pages_head) s.pages_head bs holds.bs

Reach-Since :
    {s a : PageAllocator} {live : Live} (kept : Live) (w : Holds s kept)
    → Reach s a live
    → Since s w.bs kept a live
Reach-Since {s} kept w start = record {
  holds = w;
  layout = SameLayout-refl s;
  seams = λ _ seam. inl seam;
}
Reach-Since {s} kept w (call {a = a} {a' = a'} r st) =
    let before = Reach-Since kept w r in
    let h = s.pages_head in
    let after = Step-Moved (Step-more kept st) before.holds in
    let later : Coarser (Bridge a h) h before.holds.bs after.holds.bs =
      subst (λ t. Coarser (Bridge a t) t before.holds.bs after.holds.bs) before.layout.head
        after.seams in
    record {
      holds = after.holds;
      layout = SameLayout-trans s a a' before.layout after.layout;
      seams = Coarser-trans (Bridge s h) h w.bs before.holds.bs after.holds.bs before.seams (
          Coarser-map (Bridge a h) (Bridge s h) h _ _ (λ k. Bridge-SameLayout s a h k before.layout)
            later);
    }

Held-within :
    (a : PageAllocator) (bs : List Block) (ls : ℕ → List _) (live : Live) (i : ℕ)
    → Inv a bs ls
    → Held a.pages_head bs live
    → InRun i live
    → i < a.pages_count
Held-within a bs ls [] i v held at = elim at [ ]
Held-within a bs ls ((k, n) ∷ live) i v held (inr at) = Held-within a bs ls live i v held.2 at
Held-within a bs ls ((k, n) ∷ live) i v held (inl at) =
    let (xs, ys, e) = In-split (used_block (page_at a.pages_head k) n) bs held.0 in
    let (w, (j, eq, le)) =
      Tiles-block a.store a.pages_head _ xs ys (used_block (page_at a.pages_head k) n)
        (subst (λ t. Inv a t ls) e v).tiles in
    omega arith

InRun-left : (i : ℕ) (live kept : Live) → InRun i live → InRun i (live ++ kept)
InRun-left i [] kept at = elim at [ ]
InRun-left i (x ∷ live) kept (inl at) = inl at
InRun-left i (x ∷ live) kept (inr at) = inr (InRun-left i live kept at)

module _ (s a : PageAllocator) (live : Live) (valid : IsValid s) (r : Reach s a live) where
  kept : Live
  kept = runs s.pages_head valid.0

  Tiles-start : Tiles s.store (page_at s.pages_head 0) valid.0 (page_at s.pages_head s.pages_count)
  Tiles-start =
      let (bs, ls, v) = valid in
      let first : s.pages_head ≡ page_at s.pages_head 0 = omega arith in
      subst (λ p. Tiles s.store p bs (page_at s.pages_head s.pages_count)) first v.tiles

  since : Since s valid.0 kept a live
  unfolding kept
  since =
      let (bs, ls, v) = valid in
      Reach-Since (runs s.pages_head bs)
        (record {
          bs = bs;
          ls = ls;
          inv = v;
          held =
              Held-runs s.store s.pages_head bs bs (page_at s.pages_head s.pages_count) 0
                Tiles-start (λ c at. at);
        })
        r

  -- After any sequence of calls the layout is that of the start.
  pub Reach-SameLayout : SameLayout s a
  Reach-SameLayout = since.layout

  -- The runs that the client holds are pages of the allocator.
  pub Reach-within : (i : ℕ) → InRun i live → i < s.pages_count
  Reach-within i at =
      let w = since.holds in
      omega (
        arith,
        Held-within a w.bs w.ls (live ++ kept) i w.inv w.held (InRun-left i live kept at),
        since.layout.count,
      )

  -- A page that was in use at the start is in none of them.
  pub Reach-apart :
      (i j : ℕ) → j < s.pages_count → page_used s j ≡ true → InRun i live → (i < j) ⊎ (j < i)
  unfolding kept
  Reach-apart i j lt used at =
      let w = since.holds in
      Sound-append a live kept i j (Holds-Sound a w.bs w.ls (live ++ kept) w.inv w.held) at (
        used-InRun s.store s.pages_head valid.0 (page_at s.pages_head s.pages_count) 0 j Tiles-start
          (omega arith) (omega arith) used)

  -- Two neighbouring pages of a run that the client holds were in one group at the start, or
  -- `getRegion` finds them in the same region.
  pub Reach-seams :
      (k n i : ℕ)
      → IsRun k n live
      → suc i < n
      → Seam s.pages_head valid.0 (k + i) ⊎ Bridge s s.pages_head (k + i)
  unfolding kept
  Reach-seams k n i at less =
      let w = since.holds in
      let seam =
        Held-Seam s.pages_head w.bs (live ++ kept) k n i
          (subst (λ t. Held t w.bs (live ++ kept)) since.layout.head w.held)
          (IsRun-left k n live kept at) less in
      since.seams (k + i) seam
