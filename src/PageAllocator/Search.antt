-- ===== src/PageAllocator/Search.antt =====
-- The search of `allocate` through the free lists.
use native.Mathlib.Decide.{ℕ_discrete as dec_eq}
use liballocator.Base.{
  ℕ, zero, suc, ◌+◌, ◌*◌, ◌≤◌, ◌<◌, ◌≡◌, ◌≢◌, refl, ◌⊎◌, inl, inr, some, List, [], ◌∷◌, arith,
  count, length, ltb, length-same_counts, Bool-cases,
}
use liballocator.Store.{null, Ptr, Store}
use liballocator.ListNode.Chain.{Chain}
use liballocator.PageAllocator.{PageAllocator, find_in_list, find_group}
use liballocator.PageAllocator.Blocks.{Block, Tiles, firsts, free_size, Tiles-free_size}
use liballocator.PageAllocator.Invariant.{Inv}

-- What a search through some nodes finds: null if all are too small, or a node that is not.
abbrev pub Finds : Store → ℕ → List Ptr → Ptr → Type 0
Finds s want xs g =
    ((g ≡ null) × ((x : Ptr) → 0 < count x xs → s.group_size x < want))
    ⊎ ((g ≢ null) × (0 < count g xs) × (want ≤ s.group_size g))

pub find_in_list-Finds :
    (fuel : ℕ) (s : Store) (before p : Ptr) (want : ℕ) (xs : List Ptr)
    → Chain s.links before p xs
    → length xs < fuel
    → (g : Ptr) × (find_in_list fuel s p want ≡ some g) × Finds s want xs g
unfolding find_in_list
find_in_list-Finds zero s before p want xs c h = absurd (omega arith)
find_in_list-Finds (suc fuel) s before p want [] c h =
    (null, ground arith, inl (refl, λ x k. elim k [ ]))
find_in_list-Finds (suc fuel) s before p want (x ∷ xs) (e, ne, back, rest) h =
    let (g, run, found) = find_in_list-Finds fuel s x (s.links.next x) want xs rest (omega arith) in
    elim (Bool-cases (ltb (s.group_size x) want)) [
      | inl small ↦ (
        g,
        ground arith,
        elim found [
          | inl (no_g, all) ↦ inl (no_g, λ y k. ground (arith, all y))
          | inr (a, b, c) ↦ inr (a, omega arith, c)
        ],
      )
      | inr fits ↦ (x, ground arith, inr (ne, ground arith, ground arith))
    ]

length-firsts :
    (s : Store) (p e : Ptr) (bs : List Block) (i : ℕ)
    → Tiles s p bs e
    → length (firsts i bs) ≤ free_size bs
length-firsts s p e [] i t = omega arith
length-firsts s p e (b ∷ bs) i t =
    ground (arith, t.1.pos, length-firsts s (p + 32 * b.size) e bs i t.2)

module _ (a : PageAllocator) (bs : List Block) (ls : ℕ → List Ptr) (v : Inv a bs ls) where
  -- A list has no more nodes than there are pages.
  pub length-le-pages : (i : ℕ) → length (ls i) ≤ a.pages_count
  length-le-pages i = omega (
    arith,
    length-same_counts (ls i) (firsts i bs) (v.bag i),
    length-firsts a.store a.pages_head _ bs i v.tiles,
    Tiles-free_size a.store a.pages_head bs _ v.tiles,
  )

  -- What a search through the lists from `i` on, `n` of them, finds.
  abbrev pub FindsFrom : ℕ → ℕ → ℕ → Ptr → Type 0
  FindsFrom n i want g =
      ((g ≡ null)
        × ((j x : ℕ) → i ≤ j → j < i + n → 0 < count x (ls j) → a.store.group_size x < want))
      ⊎ ((g ≢ null) × ((j : ℕ) × (0 < count g (ls j))) × (want ≤ a.store.group_size g))

  -- In a valid state, the search of `allocate` through `n` lists from index `i` on ends within the
  -- fuel. It finds a group in a list that has as many pages as are wanted, or null, and then every
  -- group in those lists has fewer.
  pub find_group-FindsFrom :
      (n i want : ℕ)
      → (g : Ptr) × (find_group n (a.pages_count + 1) i a want ≡ some g) × FindsFrom n i want g
  unfolding find_group
  find_group-FindsFrom zero i want = (null, refl, inl (refl, λ j x h k. absurd (omega arith)))
  find_group-FindsFrom (suc n) i want =
      let (g, run, found) =
        find_in_list-Finds (a.pages_count + 1) a.store null (a.free_group_lists i) want (ls i)
          (v.lists i) (omega (arith, length-le-pages i)) in
      let (g', run', found') = find_group-FindsFrom n (i + 1) want in
      elim found [
        | inl (e, all) ↦ (
          g',
          ground (arith, e),
          elim found' [
            | inl (e', all') ↦ inl (
              e',
              λ j x h k at. elim (dec_eq i j) [
                | yes same ↦ all x (rw same at)
                | no other ↦ all' j x (omega arith) (omega arith) at
              ],
            )
            | inr r ↦ inr r
          ],
        )
        | inr (ne, at, fits) ↦ (g, ground (arith, ne), inr (ne, (i, at), fits))
      ]
