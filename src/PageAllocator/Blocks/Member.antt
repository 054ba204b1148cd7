-- ===== src/PageAllocator/Blocks/Member.antt =====
-- Which blocks are among the blocks.
use liballocator.Base.{◌≡◌, sym, ap, ◌∙◌, ◌⊎◌, inl, inr, false, true, List, [], ◌∷◌, ◌++◌}
use liballocator.PageAllocator.Blocks.{Block}

abbrev pub In : Block → List Block → Type 0
In c [] = ⊥
In c (b ∷ bs) = (c ≡ b) ⊎ In c bs

-- The used blocks of the first list are among those of the second.
abbrev pub Keeps : List Block → List Block → Type 0
Keeps bs cs = (c : Block) → c.free ≡ false → In c bs → In c cs

pub In-append_left : (c : Block) (xs ys : List Block) → In c xs → In c (xs ++ ys)
In-append_left c [] ys h = elim h [ ]
In-append_left c (x ∷ xs) ys (inl e) = inl e
In-append_left c (x ∷ xs) ys (inr h) = inr (In-append_left c xs ys h)

pub In-append_right : (c : Block) (xs ys : List Block) → In c ys → In c (xs ++ ys)
In-append_right c [] ys h = h
In-append_right c (x ∷ xs) ys h = inr (In-append_right c xs ys h)

pub In-append-cases : (c : Block) (xs ys : List Block) → In c (xs ++ ys) → In c xs ⊎ In c ys
In-append-cases c [] ys h = inr h
In-append-cases c (x ∷ xs) ys (inl e) = inl (inl e)
In-append-cases c (x ∷ xs) ys (inr h) = elim (In-append-cases c xs ys h) [
  | inl l ↦ inl (inr l)
  | inr r ↦ inr r
]

pub In-split :
    (c : Block) (bs : List Block)
    → In c bs
    → (xs : List Block) × (ys : List Block) × (bs ≡ xs ++ c ∷ ys)
In-split c [] h = elim h [ ]
In-split c (b ∷ bs) (inl e) = ([], bs, ap (λ t. t ∷ bs) (sym e))
In-split c (b ∷ bs) (inr h) = let (xs, ys, e) = In-split c bs h in (b ∷ xs, ys, ap (◌∷◌ b) e)

-- A free block in the middle may give way to anything.
pub Keeps-middle :
    (xs ys zs : List Block) (b : Block) → b.free ≡ true → Keeps (xs ++ b ∷ ys) (xs ++ (zs ++ ys))
Keeps-middle xs ys zs b is_free c used h = elim (In-append-cases c xs (b ∷ ys) h) [
  | inl front ↦ In-append_left c xs (zs ++ ys) front
  | inr (inl e) ↦ absurd (true≢false (sym is_free ∙ (ap (λ (t : Block). t.free) (sym e) ∙ used)))
  | inr (inr back) ↦ In-append_right c xs (zs ++ ys) (In-append_right c zs ys back)
]
  where
    true≢false : true ≡ false → ⊥
    true≢false e = cc
