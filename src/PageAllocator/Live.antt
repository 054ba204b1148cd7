-- ===== src/PageAllocator/Live.antt =====
-- The runs of pages that a client holds, and the used blocks that they are.
use mathlib.Core.Path.{subst}
use native.Mathlib.Decide.{dec_lt}
use liballocator.Base.{
  ℕ, ◌+◌, ◌-◌, ◌≤◌, ◌<◌, ◌≡◌, ◌≢◌, refl, ap, ◌∙◌, ◌⊎◌, inl, inr, true, false, List, [], ◌∷◌, ◌++◌,
  arith,
}
use liballocator.Store.{Ptr}
use liballocator.Page.{page_at}
use liballocator.PageAllocator.{PageAllocator}
use liballocator.PageAllocator.Split.{used_block}
use liballocator.PageAllocator.Taken.{page_used}
use liballocator.PageAllocator.Blocks.{Block, IsBlock}
use liballocator.PageAllocator.Blocks.Member.{In, Keeps, In-split}
use liballocator.PageAllocator.Blocks.Replace.{Tiles-block}
use liballocator.PageAllocator.Invariant.{Inv}

-- The runs that the client holds: the index of the first page and the number of pages.
abbrev pub Live : Type 0
Live = List (ℕ × ℕ)

-- The run has no page in common with any of the others.
abbrev pub Separate : ℕ → ℕ → Live → Type 0
Separate k n [] = Unit {0}
Separate k n ((j, m) ∷ live) = ((k + n ≤ j) ⊎ (j + m ≤ k)) × Separate k n live

-- Every page of the run is in use.
abbrev pub AllUsed : PageAllocator → ℕ → ℕ → Type 0
AllUsed a k n = (i : ℕ) → i < n → page_used a (k + i) ≡ true

-- Each run is in use and apart from the others.
abbrev pub Sound : PageAllocator → Live → Type 0
Sound a [] = Unit {0}
Sound a ((k, n) ∷ live) = AllUsed a k n × Separate k n live × Sound a live

-- The runs are used blocks, each apart from those behind it.
abbrev pub Held : ℕ → List Block → Live → Type 0
Held h bs [] = Unit {0}
Held h bs ((k, n) ∷ live) = In (used_block (page_at h k) n) bs × Separate k n live × Held h bs live

pub block_of :
    (a : PageAllocator) (bs : List Block) (ls : ℕ → List Ptr) (b : Block)
    → Inv a bs ls
    → In b bs
    → IsBlock a.store b
block_of a bs ls b v at =
    let (xs, ys, e) = In-split b bs at in
    (Tiles-block a.store a.pages_head _ xs ys b (subst (λ t. Inv a t ls) e v).tiles).0

pub used_of :
    (a : PageAllocator) (bs : List Block) (ls : ℕ → List Ptr) (k n : ℕ)
    → Inv a bs ls
    → In (used_block (page_at a.pages_head k) n) bs
    → AllUsed a k n
used_of a bs ls k n v at i lt =
    let w = block_of a bs ls (used_block (page_at a.pages_head k) n) v at in
    let there : page_at a.pages_head (k + i) ≡ page_at (page_at a.pages_head k) i = omega arith in
    ap a.store.used there ∙ w.flags i lt

-- What the client is left with is sound.
pub Holds-Sound :
    (a : PageAllocator) (bs : List Block) (ls : ℕ → List Ptr) (live : Live)
    → Inv a bs ls
    → Held a.pages_head bs live
    → Sound a live
Holds-Sound a bs ls [] v h = tt
Holds-Sound a bs ls ((k, n) ∷ live) v h =
    (used_of a bs ls k n v h.0, h.1, Holds-Sound a bs ls live v h.2)

pub Held-Keeps :
    (h : ℕ) (bs cs : List Block) (live : Live) → Keeps bs cs → Held h bs live → Held h cs live
Held-Keeps h bs cs [] keeps held = tt
Held-Keeps h bs cs ((k, n) ∷ live) keeps held =
    (keeps (used_block (page_at h k) n) refl held.0, held.1, Held-Keeps h bs cs live keeps held.2)

-- Pages that were free are apart from all runs.
module _ (a : PageAllocator) (bs : List Block) (ls : ℕ → List Ptr) (k n : ℕ) (v : Inv a bs ls)
    (pos : 0 < n) (free : (i : ℕ) → i < n → page_used a (k + i) ≡ false) where
  clash : (j m i : ℕ) → AllUsed a j m → k ≤ i → i < k + n → j ≤ i → i < j + m → ⊥
  clash j m i used p q r t =
      let here : page_used a i ≡ false =
        ap (page_used a) (omega arith) ∙ free (i - k) (omega arith) in
      let there : page_used a i ≡ true =
        ap (page_used a) (omega arith) ∙ used (i - j) (omega arith) in
      cc

  pub Separate-of_free : (live : Live) → Held a.pages_head bs live → Separate k n live
  Separate-of_free [] held = tt
  Separate-of_free ((j, m) ∷ live) held =
      let used = used_of a bs ls j m v held.0 in
      let pos' = (block_of a bs ls (used_block (page_at a.pages_head j) m) v held.0).pos in
      (
        elim (dec_lt j (k + n)) [
          | no below ↦ inl (omega arith)
          | yes p ↦ elim (dec_lt k (j + m)) [
            | no above ↦ inr (omega arith)
            | yes q ↦ elim (dec_lt j k) [
              | yes first ↦ absurd (clash j m k used (omega arith) (omega arith) (omega arith) q)
              | no second ↦ absurd (clash j m j used (omega arith) p (omega arith) (omega arith))
            ]
          ]
        ],
        Separate-of_free live held.2,
      )

-- Taking a run out of the list.
Separate-remove :
    (k n : ℕ) (front : Live) (j m : ℕ) (back : Live)
    → Separate k n (front ++ (j, m) ∷ back)
    → Separate k n (front ++ back) × ((k + n ≤ j) ⊎ (j + m ≤ k))
Separate-remove k n [] j m back s = (s.1, s.0)
Separate-remove k n (x ∷ front) j m back s =
    let (t, u) = Separate-remove k n front j m back s.1 in ((s.0, t), u)

Held-back :
    (h : ℕ) (bs cs : List Block) (j m : ℕ) (live : Live)
    → 0 < m
    → ((c : Block) → c.free ≡ false → c.ptr ≢ page_at h j → In c bs → In c cs)
    → Separate j m live
    → Held h bs live
    → ((c : Block) → In c bs → 0 < c.size)
    → Held h cs live
Held-back h bs cs j m [] pos keeps apart held sizes = tt
Held-back h bs cs j m ((k, n) ∷ live) pos keeps apart held sizes =
    let pos' = sizes (used_block (page_at h k) n) held.0 in
    (
      keeps (used_block (page_at h k) n) refl (λ e. omega (arith, e, apart.0)) held.0,
      held.1,
      Held-back h bs cs j m live pos keeps apart.1 held.2 sizes,
    )

pub Held-remove :
    (h : ℕ) (bs cs : List Block) (j m : ℕ) (front back : Live)
    → ((c : Block) → c.free ≡ false → c.ptr ≢ page_at h j → In c bs → In c cs)
    → Held h bs (front ++ (j, m) ∷ back)
    → ((c : Block) → In c bs → 0 < c.size)
    → In (used_block (page_at h j) m) bs × Held h cs (front ++ back)
Held-remove h bs cs j m [] back keeps held sizes = (
  held.0,
  Held-back h bs cs j m back (sizes (used_block (page_at h j) m) held.0) keeps held.1 held.2 sizes,
)
Held-remove h bs cs j m ((k, n) ∷ front) back keeps held sizes =
    let (at, rest) = Held-remove h bs cs j m front back keeps held.2 sizes in
    let (apart, from) = Separate-remove k n front j m back held.1 in
    let pos = sizes (used_block (page_at h j) m) at in
    let pos' = sizes (used_block (page_at h k) n) held.0 in
    (
      at,
      (keeps (used_block (page_at h k) n) refl (λ e. omega (arith, e, from)) held.0, apart, rest),
    )
