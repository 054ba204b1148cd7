-- ===== src/PageAllocator/Release/Bridges.antt =====
-- Where `release` may join two groups: `getRegion` finds the same region for the pages on both sides.
use liballocator.Base.{
  ◌<◌, ℕ, suc, ◌+◌, ◌≤◌, inl, Bool, false, List, ◌∷◌, ◌++◌, ◌≡◌, refl, sym, ap, ◌∙◌, true, Option,
  none, some, arith,
}
use mathlib.Core.Path.{subst}
use liballocator.PageAllocator.Blocks.{Block}
use liballocator.PageAllocator.Blocks.Seams.{
  Coarser, Coarser-trans, Coarser-map, join-Coarser, split-Coarser, flag-Coarser,
}
use liballocator.Store.{Ptr}
use liballocator.Page.{page_at}
use liballocator.PageAllocator.{PageAllocator, get_region, joinable, same_region, is_valid_page}
use liballocator.PageAllocator.Flip.{SameLayout}

-- The pages of index `k` and `k + 1`, counted from the descriptor `h` on.
abbrev pub Bridge : PageAllocator → Ptr → ℕ → Type 0
Bridge a h k =
    get_region a (a.store.address (page_at h k))
    ≡ get_region a (a.store.address (page_at h (suc k)))

same_region-eq : (i j : Option ℕ) → same_region i j ≡ true → i ≡ j
same_region-eq none none e = refl
same_region-eq none (some j) e = cc
same_region-eq (some i) none e = cc
same_region-eq (some i) (some j) e = let same : i ≡ j = ground arith in ap some same

same_region_refl : (i : Option ℕ) → same_region i i ≡ true
same_region_refl none = refl
same_region_refl (some i) = ground arith

joinable-regions :
    (a : PageAllocator) (p q : Ptr)
    → joinable a p q ≡ true
    → get_region a (a.store.address p) ≡ get_region a (a.store.address q)
unfolding joinable
joinable-regions a p q e =
    same_region-eq (get_region a (a.store.address p)) (get_region a (a.store.address q))
      (ground arith)

pub joinable-Bridge_above :
    (a : PageAllocator) (h k p q : ℕ)
    → joinable a p q ≡ true
    → p ≡ page_at h (suc k)
    → q ≡ page_at h k
    → Bridge a h k
joinable-Bridge_above a h k p q e at below =
    let lookup = λ (x : Ptr). get_region a (a.store.address x) in
    sym (ap lookup below) ∙ (sym (joinable-regions a p q e) ∙ ap lookup at)

pub joinable-Bridge_below :
    (a : PageAllocator) (h k p q : ℕ)
    → joinable a p q ≡ true
    → p ≡ page_at h k
    → q ≡ page_at h (suc k)
    → Bridge a h k
joinable-Bridge_below a h k p q e at below =
    let lookup = λ (x : Ptr). get_region a (a.store.address x) in
    sym (ap lookup at) ∙ (joinable-regions a p q e ∙ ap lookup below)

get_region-SameLayout :
    (a a' : PageAllocator) (x : Ptr)
    → SameLayout a a'
    → get_region a' (a'.store.address x) ≡ get_region a (a.store.address x)
unfolding get_region
get_region-SameLayout a a' x same =
    rw (same.page_size, same.regions, same.valid_regions, same.address) refl

pub Bridge-SameLayout :
    (a a' : PageAllocator) (h : Ptr) (k : ℕ) → SameLayout a a' → Bridge a' h k → Bridge a h k
Bridge-SameLayout a a' h k same b =
    sym (get_region-SameLayout a a' (page_at h k) same)
    ∙ (b ∙ get_region-SameLayout a a' (page_at h (suc k)) same)

pub Bridge-SameLayout_after :
    (a a' : PageAllocator) (h : Ptr) (k : ℕ) → SameLayout a a' → Bridge a h k → Bridge a' h k
Bridge-SameLayout_after a a' h k same b =
    get_region-SameLayout a a' (page_at h k) same
    ∙ (b ∙ sym (get_region-SameLayout a a' (page_at h (suc k)) same))

-- `release` regroups the blocks: pages in one group stay in one, and those that come into one are found
-- in the same region.
pub record Regrouped (a : PageAllocator) (h : Ptr) (bs cs : List Block) : Type 0 where
  pub joined : Coarser (Bridge a h) h bs cs
  pub kept : Coarser (λ k. ⊥) h cs bs

pub Regrouped-refl : (a : PageAllocator) (h : Ptr) (bs : List Block) → Regrouped a h bs bs
Regrouped-refl a h bs = record { joined = λ k seam. inl seam; kept = λ k seam. inl seam }

pub Regrouped-trans :
    (a b : PageAllocator) (h : Ptr) (bs cs ds : List Block)
    → SameLayout a b
    → Regrouped a h bs cs
    → Regrouped b h cs ds
    → Regrouped a h bs ds
Regrouped-trans a b h bs cs ds same r r' = record {
  joined = Coarser-trans (Bridge a h) h bs cs ds r.joined (
      Coarser-map (Bridge b h) (Bridge a h) h cs ds (λ k. Bridge-SameLayout a b h k same)
        r'.joined);
  kept = Coarser-trans (λ k. ⊥) h ds cs bs r'.kept r.kept;
}

-- Two neighbouring blocks become one.
pub Regrouped-join :
    (a : PageAllocator) (h : Ptr) (xs ys : List Block) (g m n : ℕ) (f f' f'' : Bool)
    → ((k : ℕ) → suc k ≡ g + m → Bridge a h k)
    → Regrouped a h
        (xs
          ++ record { ptr = page_at h g; size = m; free = f }
            ∷ record { ptr = page_at h (g + m); size = n; free = f' }
            ∷ ys)
        (xs ++ record { ptr = page_at h g; size = m + n; free = f'' } ∷ ys)
Regrouped-join a h xs ys g m n f f' f'' bridge =
    let second : page_at (page_at h g) m ≡ page_at h (g + m) = omega arith in
    record {
      joined =
          Coarser-map (λ k. suc k ≡ g + m) (Bridge a h) h _ _ bridge
            (join-Coarser h xs ys g m n f f' f'');
      kept =
          subst
            (λ p.
              Coarser (λ k. ⊥) h (xs ++ record { ptr = page_at h g; size = m + n; free = f'' } ∷ ys)
                (xs
                  ++ record { ptr = page_at h g; size = m; free = f }
                    ∷ record { ptr = p; size = n; free = f' }
                    ∷ ys))
            second (split-Coarser (λ k. ⊥) h xs ys (page_at h g) m n f'' f f');
    }

-- A block changes its flag.
pub Regrouped-flag :
    (a : PageAllocator) (h : Ptr) (xs ys : List Block) (p : Ptr) (n : ℕ) (f f' : Bool)
    → Regrouped a h
        (xs ++ record { ptr = p; size = n; free = f } ∷ ys)
        (xs ++ record { ptr = p; size = n; free = f' } ∷ ys)
Regrouped-flag a h xs ys p n f f' = record {
  joined = flag-Coarser (Bridge a h) h xs ys p n f f';
  kept = flag-Coarser (λ k. ⊥) h xs ys p n f' f;
}

-- A free page of the allocator that is found in the same region is joined.
joinable-true :
    (a : PageAllocator) (p q : Ptr) (j : ℕ)
    → q ≡ page_at a.pages_head j
    → a.pages_tail + 32 ≡ page_at a.pages_head a.pages_count
    → j < a.pages_count
    → get_region a (a.store.address p) ≡ get_region a (a.store.address q)
    → a.store.used q ≡ false
    → joinable a p q ≡ true
unfolding joinable is_valid_page
joinable-true a p q j at tail lt e unused =
    let same : same_region (get_region a (a.store.address p)) (get_region a (a.store.address q))
        ≡ true =
      rw e (same_region_refl (get_region a (a.store.address q))) in
    let low : a.pages_head ≤ q = omega arith in
    let high : q ≤ a.pages_tail = omega arith in ground arith

joined_not :
    (a : PageAllocator) (p q : Ptr) (j : ℕ)
    → joinable a p q ≡ false
    → q ≡ page_at a.pages_head j
    → a.pages_tail + 32 ≡ page_at a.pages_head a.pages_count
    → j < a.pages_count
    → get_region a (a.store.address p) ≡ get_region a (a.store.address q)
    → a.store.used q ≡ false
    → ⊥
joined_not a p q j stop at tail lt e unused =
    let go = joinable-true a p q j at tail lt e unused in cc

-- Nothing is joined above the page of index `k + 1`: the page of index `k` is in use or elsewhere.
pub not_joined_above :
    (a : PageAllocator) (h p q : Ptr) (k : ℕ)
    → joinable a p q ≡ false
    → p ≡ page_at h (suc k)
    → q ≡ page_at h k
    → a.pages_head ≡ h
    → a.pages_tail + 32 ≡ page_at a.pages_head a.pages_count
    → k < a.pages_count
    → a.store.used (page_at h k) ≡ false
    → ¬ (Bridge a h k)
not_joined_above a h p q k stop at below head tail lt unused bridge =
    let lookup = λ (x : Ptr). get_region a (a.store.address x) in
    let q' : q ≡ page_at a.pages_head k = below ∙ ap (λ t. page_at t k) (sym head) in
    let same : lookup p ≡ lookup q = ap lookup at ∙ (sym bridge ∙ sym (ap lookup below)) in
    joined_not a p q k stop q' tail lt same (ap a.store.used below ∙ unused)

-- Nothing is joined below the page of index `k`.
pub not_joined_below :
    (a : PageAllocator) (h p q : Ptr) (k : ℕ)
    → joinable a p q ≡ false
    → p ≡ page_at h k
    → q ≡ page_at h (suc k)
    → a.pages_head ≡ h
    → a.pages_tail + 32 ≡ page_at a.pages_head a.pages_count
    → suc k < a.pages_count
    → a.store.used (page_at h (suc k)) ≡ false
    → ¬ (Bridge a h k)
not_joined_below a h p q k stop at below head tail lt unused bridge =
    let lookup = λ (x : Ptr). get_region a (a.store.address x) in
    let q' : q ≡ page_at a.pages_head (suc k) = below ∙ ap (λ t. page_at t (suc k)) (sym head) in
    let same : lookup p ≡ lookup q = ap lookup at ∙ (bridge ∙ sym (ap lookup below)) in
    joined_not a p q (suc k) stop q' tail lt same (ap a.store.used below ∙ unused)
