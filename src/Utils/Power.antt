-- ===== src/Utils/Power.antt =====
-- `isPowerOf2` decides whether a word is a power of two.
use Prim.Native.Nat.{bit_and}
use native.Mathlib.Nat.{pow-suc, one-le-pow}
use native.Mathlib.Decide.{ℕ_discrete as dec_eq}
use liballocator.Base.{ℕ, zero, suc, ◌-◌, ◌/◌, ◌%◌, ◌^◌, ◌≤◌, ◌<◌, ◌≡◌, ◌↔◌, ap, true, arith}
use liballocator.Word.{sub}
use liballocator.Word.Bits.{bit_and_lowest, bit_and-zero}
use liballocator.Utils.{is_power_of2}

bit_and_self : (n a : ℕ) → a ≤ n → bit_and a a ≡ a
bit_and_self n zero h = bit_and-zero 0
bit_and_self zero (suc a) h = absurd (omega arith)
bit_and_self (suc n) (suc a) h =
    omega (arith, bit_and_lowest (suc a) (suc a), bit_and_self n (suc a / 2) (omega arith))

-- The lowest digit that is set is the only one.
power_of_test : (n v : ℕ) → v ≤ n → 0 < v → bit_and v (v - 1) ≡ 0 → (k : ℕ) × (v ≡ 2 ^ k)
power_of_test zero v h pos e = absurd (omega arith)
power_of_test (suc n) v h pos e = elim (dec_eq (v % 2) 0) [
  | yes even ↦
      let half : (v - 1) / 2 ≡ v / 2 - 1 = omega arith in
      let (k, e') =
        power_of_test n (v / 2) (omega arith) (omega arith)
          (omega (arith, bit_and_lowest v (v - 1), ap (bit_and (v / 2)) half)) in
      (suc k, omega (arith, pow-suc 2 k, e'))
  | no odd ↦
      let same : (v - 1) / 2 ≡ v / 2 = omega arith in
      (
        0,
        omega (
          arith,
          bit_and_lowest v (v - 1),
          ap (bit_and (v / 2)) same,
          bit_and_self (v / 2) (v / 2) (omega arith),
        ),
      )
]

test_of_power : (k : ℕ) → bit_and (2 ^ k) (2 ^ k - 1) ≡ 0
test_of_power zero = bit_and-zero 1
test_of_power (suc k) =
    let pos = one-le-pow k 2 (omega arith) in
    let whole : 2 ^ suc k / 2 ≡ 2 ^ k = omega (arith, pow-suc 2 k) in
    let mask : (2 ^ suc k - 1) / 2 ≡ 2 ^ k - 1 = omega (arith, pow-suc 2 k) in
    omega (
      arith,
      pow-suc 2 k,
      bit_and_lowest (2 ^ suc k) (2 ^ suc k - 1),
      ap (λ t. bit_and t ((2 ^ suc k - 1) / 2)) whole,
      ap (bit_and (2 ^ k)) mask,
      test_of_power k,
    )

-- Among the words of 64 bits, `isPowerOf2` accepts exactly the powers of two.
pub is_power_of2_iff : (v : ℕ) → v < 2 ^ 64 → (is_power_of2 v ≡ true) ↔ ((k : ℕ) × (v ≡ 2 ^ k))
unfolding is_power_of2
is_power_of2_iff v h = (
  λ e. power_of_test v v (omega arith) (ground arith) (
      let one : 0 < v = ground arith in
      let less : sub v 1 ≡ v - 1 = omega arith in ground (arith, ap (bit_and v) less)),
  λ (k, e).
      let pos : 0 < v = omega (arith, one-le-pow k 2 (omega arith)) in
      let less : sub v 1 ≡ v - 1 = omega arith in
      ground (arith, ap (bit_and v) less, ap (λ t. bit_and t (t - 1)) e, test_of_power k),
)
