-- ===== src/PageAllocator/Blocks/Replace.antt =====
-- A change of the memory inside a run of blocks replaces that run only.
use liballocator.Base.{ℕ, ◌+◌, ◌*◌, ◌≤◌, ◌<◌, ◌≡◌, ◌⊎◌, inl, inr, List, [], ◌∷◌, ◌++◌, arith, count}
use liballocator.Store.{Ptr, Store}
use liballocator.Page.{page_at}
use liballocator.PageAllocator.Blocks.{
  Block, IsBlock, Tiles, Tiles-append, Tiles-split, Tiles-frame, Tiles-le, firsts,
  count-firsts-outside,
}

-- The two memories agree outside the range.
pub record Outside (s s' : Store) (p e : Ptr) : Type 0 where
  pub sizes : (x : Ptr) → (x < p) ⊎ (e ≤ x) → s'.group_size x ≡ s.group_size x
  pub flags : (x : Ptr) → (x < p) ⊎ (e ≤ x) → s'.used x ≡ s.used x

pub Tiles-replace :
    (s s' : Store) (p e : Ptr) (xs mid mid' ys : List Block)
    → Tiles s p (xs ++ (mid ++ ys)) e
    → ((q r : Ptr) → p ≤ q → r ≤ e → Tiles s q mid r → Tiles s' q mid' r × Outside s s' q r)
    → Tiles s' p (xs ++ (mid' ++ ys)) e
Tiles-replace s s' p e xs mid mid' ys t change =
    let (q, front, rest) = Tiles-split s p e xs (mid ++ ys) t in
    let (r, middle, back) = Tiles-split s q e mid ys rest in
    let le = Tiles-le s p xs q front in
    let le' = Tiles-le s r ys e back in
    let (new, out) = change q r le le' middle in
    Tiles-append s' p q e xs (mid' ++ ys)
      (Tiles-frame s s' p q xs front
        (record { sizes = λ x h k. out.sizes x (inl k); flags = λ x h k. out.flags x (inl k) }))
      (Tiles-append s' q r e mid' ys new (
        Tiles-frame s s' r e ys back
          (record { sizes = λ x h k. out.sizes x (inr h); flags = λ x h k. out.flags x (inr h) })))

-- A block is there, its first page is a page, and it ends before the end.
pub Tiles-block :
    (s : Store) (p e : Ptr) (xs ys : List Block) (b : Block)
    → Tiles s p (xs ++ b ∷ ys) e
    → IsBlock s b × ((k : ℕ) × (b.ptr ≡ page_at p k) × (page_at p (k + b.size) ≤ e))
Tiles-block s p e [] ys b t =
    (t.1, (0, omega (arith, t.0), omega (arith, Tiles-le s (p + 32 * b.size) ys e t.2)))
Tiles-block s p e (c ∷ xs) ys b t =
    let (v, (k, eq, le)) = Tiles-block s (p + 32 * c.size) e xs ys b t.2 in
    (v, (c.size + k, omega arith, omega arith))

-- The block stands in no list but for itself.
pub count-firsts-others :
    (s : Store) (p e : Ptr) (xs ys : List Block) (b : Block) (i : ℕ)
    → Tiles s p (xs ++ b ∷ ys) e
    → (count b.ptr (firsts i xs) ≡ 0) × (count b.ptr (firsts i ys) ≡ 0)
count-firsts-others s p e xs ys b i t =
    let (m, front, back) = Tiles-split s p e xs (b ∷ ys) t in
    (
      count-firsts-outside s p m xs i b.ptr front (inr (omega (arith, back.0))),
      count-firsts-outside s (m + 32 * b.size) e ys i b.ptr back.2
          (inl (omega (arith, back.0, back.1.pos))),
    )
