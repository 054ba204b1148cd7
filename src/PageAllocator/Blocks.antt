-- ===== src/PageAllocator/Blocks.antt =====
-- The groups of lib/PageAllocator.cpp as a list of blocks that tile the page descriptors.
pub mod Replace
pub mod Member
pub mod Seams
pub mod Together
use mathlib.Core.Path.{subst}
use liballocator.Base.{
  ◌∙◌, ℕ, ◌+◌, ◌-◌, ◌*◌, ◌^◌, ◌≤◌, ◌<◌, ◌≡◌, refl, sym, ◌⊎◌, Bool, not, List, [], ◌∷◌, ◌++◌, arith,
  ◌==◌, if◌then◌else◌, length, count, Once, ◌&&◌,
}
use liballocator.Store.{Ptr, Store}
use liballocator.Page.{page_at}
use liballocator.Group.{group_idx}

-- A group: its first page, its number of pages, and whether it is in a free list.
pub record Block : Type 0 where
  pub ptr : Ptr
  pub size : ℕ
  pub free : Bool

-- The memory describes the block: the size fits the bit-field and stands in the first and in the
-- last page, and the flag `used` of every page says whether the block is free.
pub record IsBlock (s : Store) (b : Block) : Type 0 where
  pub pos : 0 < b.size
  pub small : b.size < 2 ^ 21
  pub first : s.group_size b.ptr ≡ b.size
  pub last : s.group_size (b.ptr + 32 * b.size - 32) ≡ b.size
  pub flags : (i : ℕ) → i < b.size → s.used (page_at b.ptr i) ≡ not b.free

-- The blocks fill the descriptors from `p` up to `e`.
abbrev pub Tiles : Store → Ptr → List Block → Ptr → Type 0
Tiles s p [] e = p ≡ e
Tiles s p (b ∷ bs) e = (b.ptr ≡ p) × IsBlock s b × Tiles s (p + 32 * b.size) bs e

-- The pointers to the free blocks of one index.
abbrev pub firsts : ℕ → List Block → List Ptr
firsts i [] = []
firsts i (b ∷ bs) = if b.free && group_idx b.size == i then b.ptr ∷ firsts i bs else firsts i bs

-- The number of free pages.
abbrev pub free_size : List Block → ℕ
free_size [] = 0
free_size (b ∷ bs) = (if b.free then b.size else 0) + free_size bs

pub free_size-append : (xs ys : List Block) → free_size (xs ++ ys) ≡ free_size xs + free_size ys
free_size-append [] ys = omega arith
free_size-append (b ∷ xs) ys = ground (arith, free_size-append xs ys)

pub count-firsts-append :
    (a i : ℕ) (xs ys : List Block)
    → count a (firsts i (xs ++ ys)) ≡ count a (firsts i xs) + count a (firsts i ys)
count-firsts-append a i [] ys = omega arith
count-firsts-append a i (b ∷ xs) ys = ground (arith, count-firsts-append a i xs ys)

pub Tiles-le : (s : Store) (p : Ptr) (bs : List Block) (e : Ptr) → Tiles s p bs e → p ≤ e
Tiles-le s p [] e t = omega arith
Tiles-le s p (b ∷ bs) e t = omega (arith, Tiles-le s (p + 32 * b.size) bs e t.2)

-- There are no more free pages than pages.
pub Tiles-free_size :
    (s : Store) (p : Ptr) (bs : List Block) (e : Ptr)
    → Tiles s p bs e
    → page_at p (free_size bs) ≤ e
Tiles-free_size s p [] e t = omega arith
Tiles-free_size s p (b ∷ bs) e t = ground (arith, Tiles-free_size s (p + 32 * b.size) bs e t.2)

-- There are no more blocks than pages.
pub Tiles-length :
    (s : Store) (p : Ptr) (bs : List Block) (e : Ptr) → Tiles s p bs e → page_at p (length bs) ≤ e
Tiles-length s p [] e t = omega arith
Tiles-length s p (b ∷ bs) e t = omega (arith, t.1.pos, Tiles-length s (p + 32 * b.size) bs e t.2)

pub Tiles-append :
    (s : Store) (p m e : Ptr) (xs ys : List Block)
    → Tiles s p xs m
    → Tiles s m ys e
    → Tiles s p (xs ++ ys) e
Tiles-append s p m e [] ys t u = subst (λ q. Tiles s q ys e) (sym t) u
Tiles-append s p m e (b ∷ xs) ys t u = (t.0, t.1, Tiles-append s (p + 32 * b.size) m e xs ys t.2 u)

pub Tiles-split :
    (s : Store) (p e : Ptr) (xs ys : List Block)
    → Tiles s p (xs ++ ys) e
    → (m : Ptr) × Tiles s p xs m × Tiles s m ys e
Tiles-split s p e [] ys t = (p, refl, t)
Tiles-split s p e (b ∷ xs) ys t =
    let (m, u, v) = Tiles-split s (p + 32 * b.size) e xs ys t.2 in (m, (t.0, t.1, u), v)

-- Blocks depend on the memory between their ends.
pub record Agrees (s s' : Store) (p e : Ptr) : Type 0 where
  pub sizes : (x : Ptr) → p ≤ x → x < e → s'.group_size x ≡ s.group_size x
  pub flags : (x : Ptr) → p ≤ x → x < e → s'.used x ≡ s.used x

pub IsBlock-frame :
    (s s' : Store) (b : Block)
    → IsBlock s b
    → Agrees s s' b.ptr (b.ptr + 32 * b.size)
    → IsBlock s' b
IsBlock-frame s s' b v a = record {
  pos = v.pos;
  small = v.small;
  first = a.sizes b.ptr (omega arith) (omega (arith, v.pos)) ∙ v.first;
  last = a.sizes (b.ptr + 32 * b.size - 32) (omega (arith, v.pos)) (omega (arith, v.pos)) ∙ v.last;
  flags = λ i h. a.flags (page_at b.ptr i) (omega arith) (omega arith) ∙ v.flags i h;
}

pub Tiles-frame :
    (s s' : Store) (p e : Ptr) (bs : List Block)
    → Tiles s p bs e
    → Agrees s s' p e
    → Tiles s' p bs e
Tiles-frame s s' p e [] t a = t
Tiles-frame s s' p e (b ∷ bs) t a =
    let le = Tiles-le s (p + 32 * b.size) bs e t.2 in
    (
      t.0,
      IsBlock-frame s s' b t.1 (record {
        sizes = λ x h k. a.sizes x (omega (arith, t.0)) (omega (arith, t.0));
        flags = λ x h k. a.flags x (omega (arith, t.0)) (omega (arith, t.0));
      }),
      Tiles-frame s s' (p + 32 * b.size) e bs t.2 (record {
        sizes = λ x h k. a.sizes x (omega arith) k;
        flags = λ x h k. a.flags x (omega arith) k;
      }),
    )

-- No free block lies outside the tiles.
pub count-firsts-outside :
    (s : Store) (p e : Ptr) (bs : List Block) (i x : ℕ)
    → Tiles s p bs e
    → (x < p) ⊎ (e ≤ x)
    → count x (firsts i bs) ≡ 0
count-firsts-outside s p e [] i x t out = refl
count-firsts-outside s p e (b ∷ bs) i x t out = ground (
  arith,
  t.0,
  t.1.pos,
  Tiles-le s (p + 32 * b.size) bs e t.2,
  count-firsts-outside s (p + 32 * b.size) e bs i x t.2,
)

-- A block is in at most one list, and there at most once.
pub firsts-Once :
    (s : Store) (p e : Ptr) (bs : List Block) (i : ℕ) → Tiles s p bs e → Once (firsts i bs)
firsts-Once s p e [] i t = λ a. omega arith
firsts-Once s p e (b ∷ bs) i t = λ a. ground (
  arith,
  t.0,
  t.1.pos,
  firsts-Once s (p + 32 * b.size) e bs i t.2 a,
  count-firsts-outside s (p + 32 * b.size) e bs i a t.2,
)

pub firsts_same_index :
    (s : Store) (p e : Ptr) (bs : List Block) (i j x : ℕ)
    → Tiles s p bs e
    → 0 < count x (firsts i bs)
    → 0 < count x (firsts j bs)
    → i ≡ j
firsts_same_index s p e [] i j x t h k = elim h [ ]
firsts_same_index s p e (b ∷ bs) i j x t h k = ground (
  arith,
  t.0,
  t.1.pos,
  firsts_same_index s (p + 32 * b.size) e bs i j x t.2,
  count-firsts-outside s (p + 32 * b.size) e bs i x t.2,
  count-firsts-outside s (p + 32 * b.size) e bs j x t.2,
)
