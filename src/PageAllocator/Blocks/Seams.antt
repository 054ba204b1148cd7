-- ===== src/PageAllocator/Blocks/Seams.antt =====
-- Which neighbouring pages belong to the same block.
use mathlib.Core.Path.{subst}
use native.Mathlib.Decide.{dec_lt}
use liballocator.Base.{
  ℕ, suc, ◌+◌, ◌*◌, ◌≤◌, ◌<◌, ◌≡◌, sym, ◌∙◌, ◌⊎◌, inl, inr, Bool, List, [], ◌∷◌, ◌++◌, arith,
}
use liballocator.Store.{Ptr, Store}
use liballocator.Page.{page_at}
use liballocator.PageAllocator.Blocks.{Block, Tiles, Tiles-le}

-- The descriptors of index `k` and `k + 1`, counted from `h` on, are in the same block.
abbrev pub Seam : Ptr → List Block → ℕ → Type 0
Seam h [] k = ⊥
Seam h (b ∷ bs) k =
    ((b.ptr ≤ page_at h k) × (page_at h (suc k) < page_at b.ptr b.size)) ⊎ Seam h bs k

-- The blocks `cs` have no seams but those of `bs` and some where `R` holds.
abbrev pub Coarser : (ℕ → Type 0) → Ptr → List Block → List Block → Type 0
Coarser R h bs cs = (k : ℕ) → Seam h cs k → Seam h bs k ⊎ R k

-- They have no others.
abbrev pub Cuts : List Block → List Block → Type 0
Cuts bs cs = (h : Ptr) → Coarser (λ k. ⊥) h bs cs

pub Seam-append-cases :
    (h : Ptr) (xs ys : List Block) (k : ℕ) → Seam h (xs ++ ys) k → Seam h xs k ⊎ Seam h ys k
Seam-append-cases h [] ys k s = inr s
Seam-append-cases h (x ∷ xs) ys k (inl here) = inl (inl here)
Seam-append-cases h (x ∷ xs) ys k (inr there) = elim (Seam-append-cases h xs ys k there) [
  | inl l ↦ inl (inr l)
  | inr r ↦ inr r
]

pub Seam-append_right : (h : Ptr) (xs ys : List Block) (k : ℕ) → Seam h ys k → Seam h (xs ++ ys) k
Seam-append_right h [] ys k s = s
Seam-append_right h (x ∷ xs) ys k s = inr (Seam-append_right h xs ys k s)

-- A change behind the blocks `xs`.
Coarser-behind :
    (R : ℕ → Type 0) (h : Ptr) (xs bs cs : List Block)
    → Coarser R h bs cs
    → Coarser R h (xs ++ bs) (xs ++ cs)
Coarser-behind R h [] bs cs c k s = c k s
Coarser-behind R h (x ∷ xs) bs cs c k (inl here) = inl (inl here)
Coarser-behind R h (x ∷ xs) bs cs c k (inr there) = elim (Coarser-behind R h xs bs cs c k there) [
  | inl l ↦ inl (inr l)
  | inr r ↦ inr r
]

pub Coarser-trans :
    (R : ℕ → Type 0) (h : Ptr) (bs cs ds : List Block)
    → Coarser R h bs cs
    → Coarser R h cs ds
    → Coarser R h bs ds
Coarser-trans R h bs cs ds c d k s = elim (d k s) [ inl l ↦ c k l | inr r ↦ inr r ]

pub Coarser-map :
    (R S : ℕ → Type 0) (h : Ptr) (bs cs : List Block)
    → ((k : ℕ) → R k → S k)
    → Coarser R h bs cs
    → Coarser S h bs cs
Coarser-map R S h bs cs f c k s = elim (c k s) [ inl l ↦ inl l | inr r ↦ inr (f k r) ]

module _ (R : ℕ → Type 0) (h : Ptr) (xs ys : List Block) where
  -- The flag of a block does not matter.
  pub flag-Coarser :
      (p : Ptr) (n : ℕ) (f f' : Bool)
      → Coarser R h
          (xs ++ record { ptr = p; size = n; free = f } ∷ ys)
          (xs ++ record { ptr = p; size = n; free = f' } ∷ ys)
  flag-Coarser p n f f' = Coarser-behind R h xs _ _ λ k s. inl s

  -- A block is cut in two.
  pub split-Coarser :
      (p : Ptr) (n m : ℕ) (f f' f'' : Bool)
      → Coarser R h (xs ++ record { ptr = p; size = n + m; free = f } ∷ ys) (
          xs
          ++ record { ptr = p; size = n; free = f' }
            ∷ record { ptr = page_at p n; size = m; free = f'' }
            ∷ ys)
  split-Coarser p n m f f' f'' = Coarser-behind R h xs _ _ λ k s. elim s [
    | inl first ↦ inl (inl (first.0, omega (arith, first.1)))
    | inr (inl second) ↦ inl (inl (omega (arith, second.0), omega (arith, second.1)))
    | inr (inr rest) ↦ inl (inr rest)
  ]

-- Two neighbouring blocks become one.
pub join-Coarser :
    (h : Ptr) (xs ys : List Block) (g m n : ℕ) (f f' f'' : Bool)
    → Coarser
        (λ k. suc k ≡ g + m)
        h
        (xs
          ++ record { ptr = page_at h g; size = m; free = f }
            ∷ record { ptr = page_at h (g + m); size = n; free = f' }
            ∷ ys)
        (xs ++ record { ptr = page_at h g; size = m + n; free = f'' } ∷ ys)
join-Coarser h xs ys g m n f f' f'' =
    Coarser-behind (λ k. suc k ≡ g + m) h xs _ _
      λ k s. elim s [
        | inr rest ↦ inl (inr (inr rest))
        | inl whole ↦ elim (dec_lt (suc k) (g + m)) [
          | yes below ↦ inl (inl (whole.0, omega arith))
          | no from ↦ elim (dec_lt k (g + m)) [
            | yes at ↦ inr (omega arith)
            | no above ↦ inl (inr (inl (omega arith, omega (arith, whole.1))))
          ]
        ]
      ]

-- A block that has been cut in two lacks one seam of the whole.
pub cut-Coarser :
    (h : Ptr) (xs ys : List Block) (p : Ptr) (g m n : ℕ) (f f' f'' : Bool)
    → p ≡ page_at h g
    → Coarser
        (λ k. suc k ≡ g + m)
        h
        (xs
          ++ record { ptr = p; size = m; free = f }
            ∷ record { ptr = page_at p m; size = n; free = f' }
            ∷ ys)
        (xs ++ record { ptr = p; size = m + n; free = f'' } ∷ ys)
cut-Coarser h xs ys p g m n f f' f'' at =
    let second : page_at h (g + m) ≡ page_at p m = omega arith in
    subst
      (λ q.
        Coarser (λ k. suc k ≡ g + m) h
          (xs
            ++ record { ptr = p; size = m; free = f }
              ∷ record { ptr = q; size = n; free = f' }
              ∷ ys)
          (xs ++ record { ptr = p; size = m + n; free = f'' } ∷ ys))
      second
      (subst
        (λ q.
          Coarser (λ k. suc k ≡ g + m) h
            (xs
              ++ record { ptr = q; size = m; free = f }
                ∷ record { ptr = page_at h (g + m); size = n; free = f' }
                ∷ ys)
            (xs ++ record { ptr = q; size = m + n; free = f'' } ∷ ys))
        (sym at) (join-Coarser h xs ys g m n f f' f''))

-- The seams lie between the ends of the tiles.
pub Tiles-Seam :
    (s : Store) (h p e : Ptr) (bs : List Block) (k : ℕ)
    → Tiles s p bs e
    → Seam h bs k
    → (p ≤ page_at h k) × (page_at h (suc k) < e)
Tiles-Seam s h p e [] k t seam = elim seam [ ]
Tiles-Seam s h p e (b ∷ bs) k t (inl here) =
    let le = Tiles-le s (p + 32 * b.size) bs e t.2 in
    (omega (arith, t.0, here.0), omega (arith, t.0, here.1))
Tiles-Seam s h p e (b ∷ bs) k t (inr there) =
    let (low, high) = Tiles-Seam s h (p + 32 * b.size) e bs k t.2 there in (omega arith, high)

-- Where tiles end does not depend on the memory.
pub Tiles-end :
    (s s' : Store) (p e e' : Ptr) (bs : List Block) → Tiles s p bs e → Tiles s' p bs e' → e ≡ e'
Tiles-end s s' p e e' [] t t' = sym t ∙ t'
Tiles-end s s' p e e' (b ∷ bs) t t' = Tiles-end s s' (p + 32 * b.size) e e' bs t.2 t'.2
