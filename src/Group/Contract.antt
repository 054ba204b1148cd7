-- ===== src/Group/Contract.antt =====
-- lib/group.hpp: what the functions on groups promise their callers.
use native.Mathlib.Decide.{dec_lt}
use liballocator.Base.{ℕ, suc, ◌+◌, ◌-◌, ◌*◌, ◌^◌, ◌≤◌, ◌<◌, ◌≡◌, refl, ap, ◌⊎◌, inl, inr, arith}
use liballocator.Store.{Ptr, null, Store}
use liballocator.Page.{page_at}
use liballocator.Group.{floor_log2, group_idx, init_group, clear_group, split_group, join_group}
use liballocator.Group.Index.{floor_log2_bounds, group_idx-lt}
use liballocator.Group.Sizes.{
  split_group-IsSplit, split_group-parts, group_size-init_group, group_size-clear_group,
  group_size-join_group,
}

-- A group: its size stands in its first and in its last page.
pub record IsGroup (s : Store) (group : Ptr) (size : ℕ) : Type 0 where
  pub first : s.group_size group ≡ size
  pub last : s.group_size (group + 32 * size - 32) ≡ size

-- Sizes that fit the bit-field and the address space.
abbrev pub Fits : Ptr → ℕ → Type 0
Fits group size = (0 < size) × (size < 2 ^ 21) × (page_at group size < 2 ^ 64)

-- The functions that the header declares, on the memory that the pointers lead to. A function that
-- returns nothing, or the group that it is given, returns the memory.
pub record Functions : Type 0 where
  pub group_idx : ℕ → ℕ
  pub init_group : Store → Ptr → ℕ → Store
  pub clear_group : Store → Ptr → Store
  pub split_group : Store → Ptr → ℕ → Store × Ptr × Ptr
  pub join_group : Store → Ptr → Ptr → Store

-- What they do with groups that fit. `groupIdx` is the logarithm of the number of pages less 1, and 0
-- for one page or none, and it is an index of the array of groups; `initGroup` makes a group,
-- `clearGroup` unmakes it, `splitGroup` makes a group of the demanded size and one of the remaining
-- size and writes no size outside, or returns null in place of the second if the group has the demanded
-- size, and `joinGroup` makes one of two neighbours.
pub record IsGroups (f : Functions) : Type 0 where
  pub none : (n : ℕ) → n < 2 → f.group_idx n ≡ 0
  pub index :
      (n : ℕ)
      → 2 ≤ n
      → n < 2 ^ 21
      → (2 ^ suc (f.group_idx n) ≤ n) × (n < 2 ^ suc (suc (f.group_idx n))) × (f.group_idx n < 20)
  pub inits : (s : Store) (g : Ptr) (n : ℕ) → Fits g n → IsGroup (f.init_group s g n) g n
  pub clears :
      (s : Store) (g : Ptr) (n : ℕ)
      → IsGroup s g n
      → Fits g n
      → ((f.clear_group s g).group_size g ≡ 0)
        × ((f.clear_group s g).group_size (g + 32 * n - 32) ≡ 0)
  pub splits :
      (s : Store) (g : Ptr) (n m : ℕ)
      → IsGroup s g (n + m)
      → 0 < n
      → 0 < m
      → Fits g (n + m)
      → ((f.split_group s g n).1 ≡ g)
        × ((f.split_group s g n).2 ≡ page_at g n)
        × IsGroup (f.split_group s g n).0 g n
        × IsGroup (f.split_group s g n).0 (page_at g n) m
        × ((x : Ptr)
            → (x < g) ⊎ (page_at g (n + m) ≤ x)
            → (f.split_group s g n).0.group_size x ≡ s.group_size x)
  pub keeps : (s : Store) (g : Ptr) (n : ℕ) → IsGroup s g n → f.split_group s g n ≡ (s, g, null)
  pub joins :
      (s : Store) (g : Ptr) (n m : ℕ)
      → IsGroup s g n
      → IsGroup s (page_at g n) m
      → 0 < n
      → 0 < m
      → Fits g (n + m)
      → IsGroup (f.join_group s g (page_at g n)) g (n + m)

split_whole : (s : Store) (g : Ptr) (n : ℕ) → IsGroup s g n → split_group s g n ≡ (s, g, null)
unfolding split_group
split_whole s g n w = rw w.first (ground arith)

group_idx_small : (n : ℕ) → n < 2 → group_idx n ≡ 0
unfolding group_idx
group_idx_small n less = ground arith

group_idx_exact :
    (n : ℕ)
    → 2 ≤ n
    → n < 2 ^ 21
    → (2 ^ suc (group_idx n) ≤ n) × (n < 2 ^ suc (suc (group_idx n))) × (group_idx n < 20)
unfolding group_idx
group_idx_exact n two small =
    let bounds = floor_log2_bounds n (omega arith) in
    let some_bits : 0 < floor_log2 n = elim (dec_lt 0 (floor_log2 n)) [
      | yes pos ↦ pos
      | no none ↦
          let zero_bits : floor_log2 n ≡ 0 = omega arith in
          absurd (omega (arith, bounds, ap (λ k. 2 ^ suc k) zero_bits))
    ] in
    let same : suc (group_idx n) ≡ floor_log2 n = ground (arith, two, some_bits) in
    (
      omega (arith, bounds, ap (λ k. 2 ^ k) same),
      omega (arith, bounds, ap (λ k. 2 ^ suc k) same),
      group_idx-lt n small,
    )

-- The functions of lib/group.cpp.
abbrev pub functions : Functions
functions = record {
  group_idx = group_idx;
  init_group = init_group;
  clear_group = clear_group;
  split_group = split_group;
  join_group = join_group;
}

-- `groupIdx` of fewer than 2 pages is 0, and of `n` pages, from 2 on and below 2²¹, it is the exponent
-- of the greatest power of two up to `n`, less 1, and below 20. For groups of less than 2²¹ pages whose
-- descriptors end below 2⁶⁴, `initGroup` writes the size to the first and to the last page, `clearGroup`
-- takes it from both, `splitGroup` makes two groups of both sizes out of one and writes no size outside,
-- and `joinGroup` makes one out of two neighbours. `splitGroup` at the size of the group changes nothing
-- and returns null as the second group.
pub contract_kept : IsGroups functions
contract_kept = record {
  none = group_idx_small;
  index = group_idx_exact;
  inits = λ s g n (pos, small, high). record {
    first = ground (arith, group_size-init_group s g n pos small high g);
    last = ground (arith, group_size-init_group s g n pos small high (g + 32 * n - 32));
  };
  clears = λ s g n w (pos, small, high).
      let size = w.first in
      let sizes = group_size-clear_group s g (omega (arith, size)) (omega (arith, size)) in
      (ground (arith, sizes g), ground (arith, sizes (g + 32 * n - 32)));
  splits = λ s g n m w pos pos' (_, small, high).
      let sizes = split_group-IsSplit s g n m pos pos' small high w.first in
      let parts = split_group-parts s g n m pos pos' small high w.first in
      (
        ap (λ t. t.1) parts,
        ap (λ t. t.2) parts,
        record { first = sizes.first; last = sizes.first_last },
        record { first = sizes.second; last = sizes.second_last },
        sizes.outside,
      );
  keeps = split_whole;
  joins = λ s g n m w w' pos pos' (_, small, high).
      let sizes = group_size-join_group s g n m pos pos' small high w.first w'.first in
      record {
        first = ground (arith, sizes g (inr (inl refl)));
        last = ground (arith, sizes (g + 32 * (n + m) - 32) (inr (inr (inl refl))));
      };
}
