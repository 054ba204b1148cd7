-- ===== src/Word/Align.antt =====
-- What `addr & ~(pageSize - 1)` is for a page size that is a power of two.
use native.Mathlib.Nat.{
  one-le-pow, pow-suc, pow-le-pow_right, mod-add-div', mod-lt, div-lt_iff_lt-mul,
}
use Prim.Native.Nat.{bit_and}
use liballocator.Base.{ℕ, zero, suc, ◌+◌, ◌-◌, ◌*◌, ◌/◌, ◌^◌, ◌≤◌, ◌<◌, ◌≡◌, arith, ap, ◌∙◌}
use liballocator.Word.{complement, sub, align_down}
use liballocator.Word.Bits.{bit_and_ones, bit_and_shifted}

pub two_pow-add : (k j n : ℕ) → k + j ≡ n → 2 ^ k * 2 ^ j ≡ 2 ^ n
two_pow-add zero j n e = let same : j ≡ n = omega arith in omega (arith, ap (λ t. 2 ^ t) same)
two_pow-add (suc k) j zero e = absurd (omega arith)
two_pow-add (suc k) j (suc n) e =
    omega (arith, two_pow-add k j n (omega arith), pow-suc 2 n, ap (λ r. r * 2 ^ j) (pow-suc 2 k))

mul_sub_one : (a b : ℕ) → 1 ≤ b → a * (b - 1) + a ≡ a * b
mul_sub_one a zero le = absurd (omega arith)
mul_sub_one a (suc b) le =
    let back : suc b - 1 ≡ b = omega arith in omega (arith, ap (λ t. a * t) back)

-- The mask of a page size is ones above zeros.
mask-eq : (k : ℕ) → k ≤ 63 → complement (sub (2 ^ k) 1) ≡ 2 ^ k * (2 ^ (64 - k) - 1)
mask-eq k h =
    let whole : 2 ^ k * 2 ^ (64 - k) ≡ 2 ^ 64 = two_pow-add k (64 - k) 64 (omega arith) in
    omega (
      arith,
      whole,
      one-le-pow k 2 (omega arith),
      one-le-pow (64 - k) 2 (omega arith),
      pow-le-pow_right {n = 2} (omega arith) {i = k} {j = 63} h,
      mul_sub_one (2 ^ k) (2 ^ (64 - k)) (one-le-pow (64 - k) 2 (omega arith)),
    )

-- For a page size `2 ^ k` with `k` up to 63, the mask rounds an address down to a multiple of it.
pub align_down_lem :
    (k addr : ℕ) → k ≤ 63 → addr < 2 ^ 64 → align_down addr (2 ^ k) ≡ addr / 2 ^ k * 2 ^ k
unfolding align_down
align_down_lem k addr h small =
    let whole : 2 ^ k * 2 ^ (64 - k) ≡ 2 ^ 64 = two_pow-add k (64 - k) 64 (omega arith) in
    let high : addr / 2 ^ k < 2 ^ (64 - k) =
      (div-lt_iff_lt-mul (one-le-pow k 2 (omega arith))).1 (omega arith) in
    ap (bit_and addr) (mask-eq k h)
    ∙ (bit_and_shifted k (2 ^ (64 - k) - 1) addr
        ∙ ap (λ t. t * 2 ^ k) (bit_and_ones (64 - k) (addr / 2 ^ k) high))

-- For a page size `2 ^ k` with `k` up to 63, what the mask leaves of an address is not above the
-- address, and less than a page below it.
pub align_down_bounds :
    (k addr : ℕ)
    → k ≤ 63
    → addr < 2 ^ 64
    → (align_down addr (2 ^ k) ≤ addr) × (addr < align_down addr (2 ^ k) + 2 ^ k)
align_down_bounds k addr h small =
    let size = one-le-pow k 2 (omega arith) in
    omega (arith, align_down_lem k addr h small, mod-add-div' addr (2 ^ k), mod-lt addr size)
