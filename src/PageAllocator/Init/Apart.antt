-- ===== src/PageAllocator/Init/Apart.antt =====
-- The regions that the first loop of `init` finds do not overlap, if those of the list do not.
use native.Mathlib.Decide.{ℕ_discrete as dec_eq}
use liballocator.Base.{
  ℕ, ◌+◌, ◌≤◌, ◌<◌, ◌≡◌, refl, ◌⊎◌, inl, inr, Bool, true, false, ◌&&◌, ◌||◌, List, [], ◌∷◌, arith,
  leb, ◌==◌, if◌then◌else◌, length, get_or-set, get_or-set_other, Bool-cases,
}
use liballocator.RegionInfo.{Region, RegionInfo, clear_region_info}
use liballocator.PageAllocator.{PageAllocator}
use liballocator.PageAllocator.Init.{region_at, push_region}

-- The addresses from `start` up to `end` belong to no region of the list, which ends at the first empty
-- one.
unfoldable pub off : ℕ → ℕ → List Region → Bool
off start end [] = true
off start end (r ∷ rs) =
    if r.size == 0
    then true
    else (leb end r.address || leb (r.address + r.size) start) && off start end rs

-- No two regions of the list overlap.
unfoldable pub separate : List Region → Bool
unfolding off
separate [] = true
separate (r ∷ rs) =
    if r.size == 0 then true else off r.address (r.address + r.size) rs && separate rs

-- One region of the table ends in front of the other.
abbrev pub Before : RegionInfo → RegionInfo → Type 0
Before r r' = (r.aligned_end ≤ r'.aligned_start) ⊎ (r'.aligned_end ≤ r.aligned_start)

-- No two valid regions of the table overlap.
abbrev pub Separated : PageAllocator → Type 0
Separated a =
    (j k : ℕ)
    → j < k
    → k < a.valid_regions_count
    → Before (region_at a.regions_info j) (region_at a.regions_info k)

-- Neither do they overlap with a region that is still to come.
pub record Apart (a : PageAllocator) (rs : List Region) : Type 0 where
  pub table : Separated a
  pub ahead :
      (j : ℕ)
      → j < a.valid_regions_count
      → off (region_at a.regions_info j).aligned_start (region_at a.regions_info j).aligned_end rs
        ≡ true
  pub list : separate rs ≡ true

off-within :
    (s e s' e' : ℕ) (rs : List Region) → s ≤ s' → e' ≤ e → off s e rs ≡ true → off s' e' rs ≡ true
unfolding off
off-within s e s' e' [] low high o = refl
off-within s e s' e' (r ∷ rs) low high o = ground (arith, off-within s e s' e' rs low high)

module _ (a : PageAllocator) (r : Region) (rs : List Region) (w : Apart a (r ∷ rs))
    (more : (r.size == 0) ≡ false) where
  -- The region at the head of the list ends in front of region `j` of the table, or behind it.
  ahead_head :
      (j : ℕ)
      → j < a.valid_regions_count
      → ((region_at a.regions_info j).aligned_end ≤ r.address)
        ⊎ (r.address + r.size ≤ (region_at a.regions_info j).aligned_start)
  unfolding off
  ahead_head j lt =
      let o = w.ahead j lt in
      elim (Bool-cases (leb (region_at a.regions_info j).aligned_end r.address)) [
        | inl front ↦ inl (ground arith)
        | inr back ↦ inr (ground (arith, o, more, back))
      ]

  ahead_rest :
      (j : ℕ)
      → j < a.valid_regions_count
      → off (region_at a.regions_info j).aligned_start (region_at a.regions_info j).aligned_end rs
        ≡ true
  unfolding off
  ahead_rest j lt = ground (arith, w.ahead j lt, more)

  list_rest : (off r.address (r.address + r.size) rs ≡ true) × (separate rs ≡ true)
  unfolding separate
  list_rest = (ground (arith, w.list, more), ground (arith, w.list, more))

  pub Apart-skip : Apart a rs
  Apart-skip = record { table = w.table; ahead = ahead_rest; list = list_rest.1 }

  pub Apart-push :
      (info : RegionInfo)
      → a.valid_regions_count < length a.regions_info
      → r.address ≤ info.aligned_start
      → info.aligned_end ≤ r.address + r.size
      → Apart (push_region a info) rs
  Apart-push info room low high =
      let v = a.valid_regions_count in
      let here = get_or-set a.regions_info v info clear_region_info room in
      let there : (j : ℕ)
          → j < v
          → region_at (push_region a info).regions_info j ≡ region_at a.regions_info j =
        λ j lt. get_or-set_other a.regions_info v j info clear_region_info (omega arith) in
      record {
        table = λ j k lt bound. elim (dec_eq k v) [
          | yes e ↦
              rw (e, here, there j (omega arith))
                (elim (ahead_head j (omega arith)) [
                  | inl front ↦ inl (omega arith)
                  | inr back ↦ inr (omega arith)
                ])
          | no ne ↦ rw (there j (omega arith), there k (omega arith)) (w.table j k lt (omega arith))
        ];
        ahead = λ j lt. elim (dec_eq j v) [
          | yes e ↦ rw (e, here) (off-within _ _ _ _ rs low high list_rest.0)
          | no ne ↦ rw (there j (omega arith)) (ahead_rest j (omega arith))
        ];
        list = list_rest.1;
      }
