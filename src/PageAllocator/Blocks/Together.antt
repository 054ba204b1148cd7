-- ===== src/PageAllocator/Blocks/Together.antt =====
-- Neighbouring pages that are in one block, or of which the first is in use.
use mathlib.Core.Path.{subst}
use liballocator.Base.{
  ℕ, ◌+◌, ◌-◌, ◌*◌, ◌≤◌, ◌<◌, ◌≡◌, sym, ap, ◌∙◌, ◌⊎◌, inl, inr, true, false, List, [], ◌∷◌, ◌++◌,
  arith,
}
use liballocator.Store.{Ptr, Store}
use liballocator.Page.{page_at}
use liballocator.PageAllocator.Blocks.{Block, Tiles}
use liballocator.PageAllocator.Blocks.Seams.{Seam, Seam-append_right}

-- The descriptor of index `k`, counted from `h` on, is in a used block.
abbrev Occupied : Ptr → List Block → ℕ → Type 0
Occupied h [] k = ⊥
Occupied h (b ∷ bs) k =
    ((b.free ≡ false) × (b.ptr ≤ page_at h k) × (page_at h k < page_at b.ptr b.size))
    ⊎ Occupied h bs k

-- It is, or it is in the same block as the next one.
abbrev pub Together : Ptr → List Block → ℕ → Type 0
Together h bs k = Seam h bs k ⊎ Occupied h bs k

Seam-append_left : (h : Ptr) (xs ys : List Block) (k : ℕ) → Seam h xs k → Seam h (xs ++ ys) k
Seam-append_left h [] ys k s = absurd s
Seam-append_left h (x ∷ xs) ys k (inl here) = inl here
Seam-append_left h (x ∷ xs) ys k (inr there) = inr (Seam-append_left h xs ys k there)

Occupied-append_left :
    (h : Ptr) (xs ys : List Block) (k : ℕ) → Occupied h xs k → Occupied h (xs ++ ys) k
Occupied-append_left h [] ys k s = absurd s
Occupied-append_left h (x ∷ xs) ys k (inl here) = inl here
Occupied-append_left h (x ∷ xs) ys k (inr there) = inr (Occupied-append_left h xs ys k there)

Occupied-append_right :
    (h : Ptr) (xs ys : List Block) (k : ℕ) → Occupied h ys k → Occupied h (xs ++ ys) k
Occupied-append_right h [] ys k s = s
Occupied-append_right h (x ∷ xs) ys k s = inr (Occupied-append_right h xs ys k s)

pub Together-append_left :
    (h : Ptr) (xs ys : List Block) (k : ℕ) → Together h xs k → Together h (xs ++ ys) k
Together-append_left h xs ys k (inl seam) = inl (Seam-append_left h xs ys k seam)
Together-append_left h xs ys k (inr used) = inr (Occupied-append_left h xs ys k used)

pub Together-append_right :
    (h : Ptr) (xs ys : List Block) (k : ℕ) → Together h ys k → Together h (xs ++ ys) k
Together-append_right h xs ys k (inl seam) = inl (Seam-append_right h xs ys k seam)
Together-append_right h xs ys k (inr used) = inr (Occupied-append_right h xs ys k used)

Occupied-used :
    (s : Store) (h e : Ptr) (bs : List Block) (g k : ℕ)
    → Tiles s (page_at h g) bs e
    → Occupied h bs k
    → s.used (page_at h k) ≡ true
Occupied-used s h e [] g k t used = absurd used
Occupied-used s h e (b ∷ bs) g k t (inl (taken, low, high)) =
    let there : page_at b.ptr (k - g) ≡ page_at h k = omega (arith, t.0) in
    let flag = sym (ap s.used there) ∙ t.1.flags (k - g) (omega (arith, t.0)) in
    ground (arith, taken, flag)
Occupied-used s h e (b ∷ bs) g k t (inr there) =
    let next : page_at h g + 32 * b.size ≡ page_at h (g + b.size) = omega arith in
    Occupied-used s h e bs (g + b.size) k (subst (λ p. Tiles s p bs e) next t.2) there

-- Two free neighbours that are together are in one block.
pub Together-Seam :
    (s : Store) (h e : Ptr) (bs : List Block) (k : ℕ)
    → Tiles s h bs e
    → s.used (page_at h k) ≡ false
    → Together h bs k
    → Seam h bs k
Together-Seam s h e bs k t free (inl seam) = seam
Together-Seam s h e bs k t free (inr used) =
    let first : h ≡ page_at h 0 = omega arith in
    let flag = Occupied-used s h e bs 0 k (subst (λ p. Tiles s p bs e) first t) used in absurd (cc)
