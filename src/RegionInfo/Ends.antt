-- ===== src/RegionInfo/Ends.antt =====
-- lib/RegionInfo.hpp: what the functions on regions promise, on every branch.
use native.Mathlib.Nat.{one-le-pow}
use liballocator.Base.{
  ℕ, ◌+◌, ◌*◌, ◌/◌, ◌^◌, ◌≤◌, ◌<◌, ◌≡◌, inl, inr, false, Option, none, some, arith, ltb, Bool-cases,
}
use liballocator.Word.{add, align_down}
use liballocator.Word.Align.{align_down_lem, align_down_bounds}
use liballocator.RegionInfo.{Region, aligned_start, aligned_end}

-- The number is a multiple.
abbrev pub IsMultiple : ℕ → ℕ → Type 0
IsMultiple n page_size = (m : ℕ) × (n ≡ m * page_size)

-- The first multiple of the page size from the start of the region on, if it does not lie behind the
-- end.
abbrev pub StartsAt : Region → ℕ → Option ℕ → Type 0
StartsAt r page_size (some s) =
    IsMultiple s page_size
    × (r.address ≤ s)
    × (s < r.address + page_size)
    × (s ≤ r.address + r.size)
StartsAt r page_size none =
    (s : ℕ) × IsMultiple s page_size
    × (r.address ≤ s)
    × (s < r.address + page_size)
    × (r.address + r.size < s)

-- The last multiple of the page size up to the end of the region, if it does not lie before the start.
abbrev pub EndsAt : Region → ℕ → Option ℕ → Type 0
EndsAt r page_size (some e) =
    IsMultiple e page_size
    × (e ≤ r.address + r.size)
    × (r.address + r.size < e + page_size)
    × (r.address ≤ e)
EndsAt r page_size none =
    (e : ℕ) × IsMultiple e page_size
    × (e ≤ r.address + r.size)
    × (r.address + r.size < e + page_size)
    × (e < r.address)

module _ (r : Region) (k : ℕ) (h : k ≤ 63) (fits : r.address + r.size + 2 ^ k ≤ 2 ^ 64) where
  -- For a page size `2 ^ k` with `k` up to 63 and a region that ends at least a page before the end of
  -- the address space, `alignedStart` returns the first multiple of the page size from the start of the
  -- region on; it returns none just if that lies behind the end of the region.
  pub aligned_start_lem : StartsAt r (2 ^ k) (aligned_start r (2 ^ k))
  unfolding aligned_start
  aligned_start_lem =
      let whole : add r.address r.size ≡ r.address + r.size =
        omega (arith, one-le-pow k 2 (omega arith)) in
      let small : r.address < 2 ^ 64 = omega (arith, one-le-pow k 2 (omega arith)) in
      let down = align_down r.address (2 ^ k) in
      let multiple = align_down_lem k r.address h small in
      let (low, high) = align_down_bounds k r.address h small in
      elim (Bool-cases (ltb down r.address)) [
        | inl below ↦
            let up : add down (2 ^ k) ≡ down + 2 ^ k = ground arith in
            let next : down + 2 ^ k ≡ (r.address / 2 ^ k + 1) * 2 ^ k = omega arith in
            elim (Bool-cases (ltb (r.address + r.size) (down + 2 ^ k))) [
              | inl behind ↦
                  rw (below, up, whole, behind)
                    (
                      down + 2 ^ k,
                      (r.address / 2 ^ k + 1, next),
                      ground arith,
                      ground arith,
                      ground arith,
                    )
              | inr within ↦
                  rw (below, up, whole, within)
                    ((r.address / 2 ^ k + 1, next), ground arith, ground arith, ground arith)
            ]
        | inr at ↦
            let within : ltb (r.address + r.size) down ≡ false = ground arith in
            rw (at, whole, within)
              (
                (r.address / 2 ^ k, multiple),
                ground arith,
                ground (arith, one-le-pow k 2 (omega arith)),
                ground arith,
              )
      ]

  -- For such a page size and region, `alignedEnd` returns the last multiple of the page size up to the
  -- end of the region; it returns none just if that lies before the start.
  pub aligned_end_lem : EndsAt r (2 ^ k) (aligned_end r (2 ^ k))
  unfolding aligned_end
  aligned_end_lem =
      let whole : add r.address r.size ≡ r.address + r.size =
        omega (arith, one-le-pow k 2 (omega arith)) in
      let end = align_down (r.address + r.size) (2 ^ k) in
      let multiple =
        align_down_lem k (r.address + r.size) h (omega (arith, one-le-pow k 2 (omega arith))) in
      let (low, high) =
        align_down_bounds k (r.address + r.size) h (omega (arith, one-le-pow k 2 (omega arith))) in
      elim (Bool-cases (ltb end r.address)) [
        | inl before ↦
            rw (whole, before)
              (end, ((r.address + r.size) / 2 ^ k, multiple), low, high, ground arith)
        | inr from ↦
            rw (whole, from) (((r.address + r.size) / 2 ^ k, multiple), low, high, ground arith)
      ]
