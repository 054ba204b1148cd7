-- ===== src/ListNode/Chain.antt =====
-- Lists as chains of nodes.
use liballocator.Base.{◌<◌, ◌≡◌, refl, ◌≢◌, ◌⊎◌, List, [], ◌∷◌, arith, count}
use liballocator.Store.{Ptr, null, Links}

-- From `p` the `next` fields lead through the nodes `xs` to null. The `prev` fields lead back, that
-- of the first node to `before`.
abbrev pub Chain : Links → Ptr → Ptr → List Ptr → Type 0
Chain l before p [] = p ≡ null
Chain l before p (x ∷ xs) = (p ≡ x) × (x ≢ null) × (l.prev x ≡ before) × Chain l x (l.next x) xs

-- `head` is the first node of the list `xs`.
abbrev pub IsList : Links → Ptr → List Ptr → Type 0
IsList l head xs = Chain l null head xs

-- A chain depends on the fields of its own nodes.
pub Chain-frame :
    (l l' : Links) (before p : Ptr) (xs : List Ptr)
    → Chain l before p xs
    → ((y : Ptr) → 0 < count y xs → (l'.next y ≡ l.next y) × (l'.prev y ≡ l.prev y))
    → Chain l' before p xs
Chain-frame l l' before p [] c same = c
Chain-frame l l' before p (x ∷ xs) (e, ne, back, rest) same =
    let (n, b) = same x (ground arith) in
    (
      e,
      ne,
      ground arith,
      ground (arith, Chain-frame l l' x (l.next x) xs rest (λ y h. same y (ground arith))),
    )

-- Null is no node.
pub count-null :
    (l : Links) (before p : Ptr) (xs : List Ptr) → Chain l before p xs → count null xs ≡ 0
count-null l before p [] c = refl
count-null l before p (x ∷ xs) (e, ne, back, rest) =
    ground (arith, count-null l x (l.next x) xs rest)

-- The first node of a chain is one of its nodes.
pub count-head :
    (l : Links) (before p : Ptr) (xs : List Ptr) → Chain l before p xs → p ≢ null → 0 < count p xs
count-head l before p [] c ne = absurd (ne c)
count-head l before p (x ∷ xs) c ne = ground arith

-- The successor of a node is null or a node, and so is its predecessor.
pub count-next :
    (l : Links) (before p : Ptr) (xs : List Ptr) (x : Ptr)
    → Chain l before p xs
    → 0 < count x xs
    → l.next x ≢ null
    → 0 < count (l.next x) xs
count-next l before p [] x c h ne = elim h [ ]
count-next l before p (y ∷ ys) x (e, ny, back, rest) h ne =
    ground (arith, count-head l y (l.next y) ys rest, count-next l y (l.next y) ys x rest)

pub count-prev :
    (l : Links) (before p : Ptr) (xs : List Ptr) (x : Ptr)
    → Chain l before p xs
    → 0 < count x xs
    → (l.prev x ≡ before) ⊎ (0 < count (l.prev x) xs)
count-prev l before p [] x c h = elim h [ ]
count-prev l before p (y ∷ ys) x (e, ny, back, rest) h =
    ground (arith, count-prev l y (l.next y) ys x rest)
