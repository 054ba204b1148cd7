-- ===== src/PageAllocator/History.antt =====
-- Any sequence of calls of `PageAllocator::allocate` and `PageAllocator::release`, as a step
-- relation: the client keeps what it was given and releases each run of pages at most once.
use mathlib.Core.Path.{subst}
use mathlib.Core.Option.{some-injective}
use liballocator.Base.{ℕ, ◌≡◌, ◌≢◌, sym, ap, ◌∙◌, inl, inr, some, List, [], ◌∷◌, ◌++◌, arith}
use liballocator.Store.{null, Ptr}
use liballocator.Page.{page_at}
use liballocator.PageAllocator.{PageAllocator, allocate, release}
use liballocator.PageAllocator.Allocate.{allocate_lem}
use liballocator.PageAllocator.Release.{Released, release_lem}
use liballocator.PageAllocator.Split.{used_block}
use liballocator.PageAllocator.Blocks.{Block}
use liballocator.PageAllocator.Blocks.Member.{In}
use liballocator.PageAllocator.Invariant.{Inv, IsValid}
use liballocator.PageAllocator.Flip.{SameLayout, SameLayout-refl}
use liballocator.PageAllocator.Blocks.Seams.{Coarser, Coarser-map}
use liballocator.PageAllocator.Release.Bridges.{Bridge}
use liballocator.PageAllocator.Merged.{Merged, allocate-Merged, release-Merged}
use liballocator.PageAllocator.Live.{
  Live, Sound, Held, block_of, Holds-Sound, Held-Keeps, Held-remove, Separate-of_free,
}

-- One call of the client.
pub data Step : PageAllocator → Live → PageAllocator → Live → Type 0 where
  allocated :
      {a a' : PageAllocator} {live : Live} (n k : ℕ)
      → allocate a n ≡ some (page_at a.pages_head k, a')
      → page_at a.pages_head k ≢ null
      → Step a live a' ((k, n) ∷ live)
  refused :
      {a a' : PageAllocator} {live : Live} (n : ℕ)
      → allocate a n ≡ some (null, a')
      → Step a live a' live
  released :
      {a a' : PageAllocator} {live rest : Live} (front back : Live) (k n : ℕ)
      → live ≡ front ++ (k, n) ∷ back
      → release a (page_at a.pages_head k) ≡ some a'
      → rest ≡ front ++ back
      → Step a live a' rest

-- Any number of calls.
pub data Reach (s : PageAllocator) : PageAllocator → Live → Type 0 where
  start : Reach s s []
  call :
      {a a' : PageAllocator} {live live' : Live}
      → Reach s a live
      → Step a live a' live'
      → Reach s a' live'

-- What holds between the calls.
pub record Holds (a : PageAllocator) (live : Live) : Type 0 where
  pub bs : List Block
  pub ls : ℕ → List Ptr
  pub inv : Inv a bs ls
  pub held : Held a.pages_head bs live

-- What a call leaves: what holds between the calls, the same layout, and no groups but parts of those
-- before and groups that `release` may have joined.
pub record Moved (a : PageAllocator) (bs : List Block) (a' : PageAllocator) (live' : Live)
    : Type 0 where
  pub holds : Holds a' live'
  pub layout : SameLayout a a'
  pub seams : Coarser (Bridge a a.pages_head) a.pages_head bs holds.bs
  pub merged : Merged a bs → Merged a' holds.bs

Moved-Inv :
    (a a' : PageAllocator) (bs bs' : List Block) (ls' : ℕ → List Ptr) (live' : Live)
    → SameLayout a a'
    → Inv a' bs' ls'
    → Held a.pages_head bs' live'
    → Coarser (Bridge a a.pages_head) a.pages_head bs bs'
    → (Merged a bs → Merged a' bs')
    → Moved a bs a' live'
Moved-Inv a a' bs bs' ls' live' same v held seams merged = record {
  holds = record {
    bs = bs';
    ls = ls';
    inv = v;
    held = subst (λ t. Held t bs' live') (sym same.head) held;
  };
  layout = same;
  seams = seams;
  merged = merged;
}

-- What `allocate` returned is what the lemma about it says.
Moved-allocated :
    (a a' : PageAllocator) (live : Live) (n k : ℕ) (w : Holds a live)
    → allocate a n ≡ some (page_at a.pages_head k, a')
    → page_at a.pages_head k ≢ null
    → Moved a w.bs a' ((k, n) ∷ live)
Moved-allocated a a' live n k w e ne = elim (allocate_lem a w.bs w.ls w.inv n) [
  | inl (none_left, _) ↦ absurd (ne (ap (λ r. r.0) (some-injective _ _ (sym e ∙ none_left))))
  | inr (k', b, bs', ls', e', taken, same, v', at, keeps, cuts, whole) ↦
      let both = some-injective _ _ (sym e' ∙ e) in
      let index : k' ≡ k = omega (arith, ap (λ r. r.0) both) in
      let h = a.pages_head in
      let w' =
        block_of b bs' ls' _ v'
          (subst (λ t. In (used_block (page_at t k') n) bs') (sym same.head) at) in
      let apart = Separate-of_free a w.bs w.ls k' n w.inv w'.pos taken.was_free live w.held in
      subst (λ t. Moved a w.bs t ((k, n) ∷ live)) (ap (λ r. r.1) both)
        (subst (λ t. Moved a w.bs b ((t, n) ∷ live)) index
          (Moved-Inv a b w.bs bs' ls' ((k', n) ∷ live) same v'
            (at, apart, Held-Keeps h w.bs bs' live keeps w.held)
            (Coarser-map (λ _. ⊥) (Bridge a h) h w.bs bs' (λ _ none. absurd none) (cuts h))
            (allocate-Merged a b w.bs bs' k' n same w'.pos taken whole)))
]

Moved-refused :
    (a a' : PageAllocator) (live : Live) (n : ℕ) (w : Holds a live)
    → allocate a n ≡ some (null, a')
    → Moved a w.bs a' live
Moved-refused a a' live n w e = elim (allocate_lem a w.bs w.ls w.inv n) [
  | inl (none_left, _) ↦
      subst (λ t. Moved a w.bs t live) (ap (λ r. r.1) (some-injective _ _ (sym none_left ∙ e)))
        (record {
          holds = w;
          layout = SameLayout-refl a;
          seams = λ _ seam. inl seam;
          merged = λ m. m;
        })
  | inr (k', b, bs', ls', e', taken, same, v', at, keeps, cuts, whole) ↦
      absurd (omega (arith, w.inv.low, ap (λ r. r.0) (some-injective _ _ (sym e' ∙ e))))
]

Moved-released :
    (a a' : PageAllocator) (front back : Live) (k n : ℕ) (w : Holds a (front ++ (k, n) ∷ back))
    → release a (page_at a.pages_head k) ≡ some a'
    → Moved a w.bs a' (front ++ back)
Moved-released a a' front back k n w e =
    let sizes = λ (c : Block) (at : In c w.bs). (block_of a w.bs w.ls c w.inv at).pos in
    let at = (Held-remove a.pages_head w.bs w.bs k n front back (λ c _ _ at. at) w.held sizes).0 in
    let (b, bs', ls', e', gone, v', keeps, seams, closed) = release_lem a w.bs w.ls k n w.inv at in
    subst (λ t. Moved a w.bs t (front ++ back)) (some-injective _ _ (sym e' ∙ e))
      (Moved-Inv a b w.bs bs' ls' (front ++ back) gone.layout v'
        (Held-remove a.pages_head w.bs bs' k n front back keeps w.held sizes).1 seams.joined
        (release-Merged a b w.bs bs' k n gone.layout seams closed))

pub Step-Moved :
    {a a' : PageAllocator} {live live' : Live}
    → Step a live a' live'
    → (w : Holds a live) → Moved a w.bs a' live'
Step-Moved (allocated n k e ne) w = Moved-allocated _ _ _ n k w e ne
Step-Moved (refused n e) w = Moved-refused _ _ _ n w e
Step-Moved {a} {a'} (released front back k n e run e') w =
    let w' : Holds a (front ++ (k, n) ∷ back) = record {
      bs = w.bs;
      ls = w.ls;
      inv = w.inv;
      held = subst (λ t. Held a.pages_head w.bs t) e w.held;
    } in
    subst (λ t. Moved a w.bs a' t) (sym e') (Moved-released a a' front back k n w' run)

pub Reach-Holds : {s a : PageAllocator} {live : Live} → IsValid s → Reach s a live → Holds a live
Reach-Holds (bs, ls, v) start = record { bs = bs; ls = ls; inv = v; held = tt }
Reach-Holds v (call r st) = (Step-Moved st (Reach-Holds v r)).holds

-- From any valid state, whatever calls of `allocate` and `release` a client makes that releases
-- only what it was given and holds, every page of the runs that it holds is in use, and no two of
-- the runs have a page in common.
pub Reach-Sound : (s a : PageAllocator) (live : Live) → IsValid s → Reach s a live → Sound a live
Reach-Sound s a live v r = let w = Reach-Holds v r in Holds-Sound a w.bs w.ls live w.inv w.held

-- After any sequence of calls of `allocate` and `release` from a valid state, in which the client
-- releases only what it holds, a release of a run that the client holds ends, and exactly the pages
-- of the run become free, with the counter raised by their number.
pub Reach-release :
    (s a : PageAllocator) (front back : Live) (k n : ℕ)
    → IsValid s
    → Reach s a (front ++ (k, n) ∷ back)
    → (a' : PageAllocator) × (release a (page_at a.pages_head k) ≡ some a') × Released a a' k n
Reach-release s a front back k n v r =
    let w = Reach-Holds v r in
    let sizes = λ (c : Block) (at : In c w.bs). (block_of a w.bs w.ls c w.inv at).pos in
    let at = (Held-remove a.pages_head w.bs w.bs k n front back (λ c _ _ at. at) w.held sizes).0 in
    let (b, bs', ls', e', gone, v', keeps, seams, closed) = release_lem a w.bs w.ls k n w.inv at in
    (b, e', gone)
