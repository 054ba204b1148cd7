-- ===== src/Group/Index.antt =====
-- The array of free lists has room for the index of every group, and the index grows with the size.
use native.Mathlib.Nat.{pow-suc, pow-le-pow_right}
use native.Mathlib.Decide.{dec_lt}
use liballocator.Base.{ℕ, zero, suc, ◌/◌, ◌^◌, ◌≤◌, ◌<◌, arith}
use liballocator.Group.{log2_loop, floor_log2, group_idx}

log2_loop_bounds :
    (fuel n : ℕ) → 0 < n → n ≤ fuel → (2 ^ log2_loop fuel n ≤ n) × (n < 2 ^ suc (log2_loop fuel n))
unfolding log2_loop
log2_loop_bounds zero n h k = absurd (omega arith)
log2_loop_bounds (suc fuel) n h k = ground (
  arith,
  log2_loop_bounds fuel (n / 2),
  pow-suc 2 (log2_loop fuel (n / 2)),
  pow-suc 2 (suc (log2_loop fuel (n / 2))),
)

-- For a positive `n`, `floor(log2(n))` is the exponent of the largest power of two up to `n`.
pub floor_log2_bounds : (n : ℕ) → 0 < n → (2 ^ floor_log2 n ≤ n) × (n < 2 ^ suc (floor_log2 n))
unfolding floor_log2
floor_log2_bounds n h = log2_loop_bounds n n h (omega arith)

floor_log2-lt : (k n : ℕ) → 0 < n → n < 2 ^ k → floor_log2 n < k
floor_log2-lt k n h small = elim (dec_lt (floor_log2 n) k) [
  | yes lt ↦ lt
  | no le ↦ absurd (
      omega (
        arith,
        floor_log2_bounds n h,
        pow-le-pow_right {n = 2} (omega arith) {i = k} {j = floor_log2 n} (omega arith),
      ))
]

floor_log2_mono : (m n : ℕ) → 0 < m → m ≤ n → floor_log2 m ≤ floor_log2 n
floor_log2_mono m n h le = omega (
  arith,
  floor_log2-lt (suc (floor_log2 n)) m h (omega (arith, floor_log2_bounds n (omega arith))),
)

-- The index of every size that fits the bit-field of 21 bits is one of the 20 of the array.
pub group_idx-lt : (size : ℕ) → size < 2 ^ 21 → group_idx size < 20
unfolding group_idx
group_idx-lt size h = ground (arith, floor_log2-lt 21 size)

pub group_idx_mono : (m n : ℕ) → m ≤ n → group_idx m ≤ group_idx n
unfolding group_idx
group_idx_mono m n h = ground (arith, floor_log2_mono m n)
