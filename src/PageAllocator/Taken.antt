-- ===== src/PageAllocator/Taken.antt =====
-- What it is for a run of pages to be taken.
use native.Mathlib.Decide.{dec_lt}
use liballocator.Base.{
  ℕ, ◌+◌, ◌-◌, ◌≤◌, ◌<◌, ◌≡◌, sym, ap, ◌∙◌, ◌⊎◌, Bool, true, false, List, ◌∷◌, ◌++◌, arith,
}
use liballocator.Store.{Ptr}
use liballocator.Page.{page_at}
use liballocator.PageAllocator.{PageAllocator}
use liballocator.PageAllocator.Split.{used_block}
use liballocator.PageAllocator.Blocks.{Block, free_size}
use liballocator.PageAllocator.Blocks.Replace.{Tiles-block}
use liballocator.PageAllocator.Invariant.{Inv}

-- Whether the page of index `k` is in use.
abbrev pub page_used : PageAllocator → ℕ → Bool
page_used a k = a.store.used (page_at a.pages_head k)

-- The `n` pages from index `k` on were free and are used now; no other page has changed, and the
-- counter has gone down by `n`. They form a group of their own.
pub record Taken (a a' : PageAllocator) (k n : ℕ) : Type 0 where
  pub head : a'.pages_head ≡ a.pages_head
  pub within : k + n ≤ a.pages_count
  pub was_free : (i : ℕ) → i < n → page_used a (k + i) ≡ false
  pub now_used : (i : ℕ) → i < n → page_used a' (k + i) ≡ true
  pub others : (j : ℕ) → (j < k) ⊎ (k + n ≤ j) → page_used a' j ≡ page_used a j
  pub counter : a'.free_pages_count + n ≡ a.free_pages_count
  pub size : a'.store.group_size (page_at a.pages_head k) ≡ n

-- If a free block gives way to a used one of `n` pages and perhaps to free pages behind it, these
-- pages are taken.
pub Taken-of_blocks :
    (a a' : PageAllocator) (xs ys xs' ys' : List Block) (p : Ptr) (n m : ℕ) (ls ls' : ℕ → List Ptr)
    → Inv a (xs ++ record { ptr = p; size = n + m; free = true } ∷ ys) ls
    → Inv a' (xs' ++ used_block p n ∷ ys') ls'
    → a'.pages_head ≡ a.pages_head
    → free_size (xs' ++ used_block p n ∷ ys') + n
      ≡ free_size (xs ++ record { ptr = p; size = n + m; free = true } ∷ ys)
    → ((x : Ptr) → (x < p) ⊎ (page_at p (n + m) ≤ x) → a'.store.used x ≡ a.store.used x)
    → ((i : ℕ) → n ≤ i → i < n + m → a'.store.used (page_at p i) ≡ false)
    → (k : ℕ) → p ≡ page_at a.pages_head k
    → k + (n + m) ≤ a.pages_count
    → Taken a a' k n
Taken-of_blocks a a' xs ys xs' ys' p n m ls ls' v v' head sum outside rest k e le =
    let (w, _) = Tiles-block a.store a.pages_head _ xs ys _ v.tiles in
    let (w', _) = Tiles-block a'.store a'.pages_head _ xs' ys' _ v'.tiles in
    let at : (i : ℕ) → page_at a.pages_head (k + i) ≡ page_at p i = λ i. omega arith in
    record {
      head = head;
      within = omega arith;
      was_free = λ i h. ap a.store.used (at i) ∙ w.flags i (omega arith);
      now_used = λ i h. rw head (ap a'.store.used (at i) ∙ w'.flags i h);
      others = λ j out. rw head (elim (dec_lt j k) [
        | yes before ↦ outside _ (omega arith)
        | no from ↦ elim (dec_lt j (k + (n + m))) [
          | no behind ↦ outside _ (omega arith)
          | yes inside ↦
              let there : page_at a.pages_head j ≡ page_at p (j - k) = omega arith in
              ap a'.store.used there
              ∙ (rest (j - k) (omega arith) (omega arith)
                  ∙ sym (ap a.store.used there ∙ w.flags (j - k) (omega arith)))
        ]
      ]);
      counter = omega (arith, v.free, v'.free, sum);
      size = ap a'.store.group_size (sym e) ∙ w'.first;
    }
