-- ===== src/Utils/Round.antt =====
-- `roundPowerOf2` rounds up to a power of two.
use Prim.Native.Nat.{bit_or, max}
use native.Mathlib.Nat.{
  pow-suc, pow-succ', one-le-pow, div-div-eq-div-mul, pow-le-pow_right, le-div_iff_mul-le,
  div-lt_iff_lt-mul,
}
use native.Mathlib.Decide.{dec_lt, ℕ_discrete as dec_eq}
use liballocator.Base.{
  ℕ, zero, suc, ◌+◌, ◌-◌, ◌*◌, ◌/◌, ◌%◌, ◌^◌, ◌≤◌, ◌<◌, ◌≡◌, ◌≢◌, ◌⊎◌, inl, inr, ap, sym, ◌∙◌,
  arith,
}
use liballocator.Word.{add, sub}
use liballocator.Word.Bits.{bit_or_lowest}
use liballocator.Group.{floor_log2}
use liballocator.Group.Index.{floor_log2_bounds}
use liballocator.Utils.{smear, round_power_of2}

-- The binary digit of index `p`.
abbrev digit : ℕ → ℕ → ℕ
digit p y = y / 2 ^ p % 2

halves : (y p : ℕ) → y / 2 ^ suc p ≡ y / 2 / 2 ^ p
halves y p = ap (λ r. y / r) (pow-succ' 2 p) ∙ sym (div-div-eq-div-mul y 2 (2 ^ p))

digit-or : (p a b : ℕ) → digit p (bit_or a b) ≡ max (digit p a) (digit p b)
digit-or zero a b = omega (arith, bit_or_lowest a b)
digit-or (suc p) a b =
    let half : bit_or a b / 2 ≡ bit_or (a / 2) (b / 2) = omega (arith, bit_or_lowest a b) in
    ap (λ t. t % 2) (halves (bit_or a b) p ∙ ap (λ t. t / 2 ^ p) half)
    ∙ (digit-or p (a / 2) (b / 2)
        ∙ sym (
            ap (λ t. max (t % 2) (digit (suc p) b)) (halves a p)
            ∙ ap (λ t. max (a / 2 / 2 ^ p % 2) (t % 2)) (halves b p)))

shifts : (s p y : ℕ) → y / 2 ^ s / 2 ^ p ≡ y / 2 ^ (s + p)
shifts zero p y =
    let same : 0 + p ≡ p = omega arith in
    let whole : y / 1 ≡ y = omega arith in
    ap (λ t. t / 2 ^ p) whole ∙ ap (λ t. y / 2 ^ t) (sym same)
shifts (suc s) p y =
    let next : suc (s + p) ≡ suc s + p = omega arith in
    ap (λ t. t / 2 ^ p) (halves y s)
    ∙ (shifts s p (y / 2) ∙ (sym (halves y (s + p)) ∙ ap (λ t. y / 2 ^ t) next))

-- A digit that is set is set afterwards, and so is the one `s` below it.
digit-smear : (s p q y : ℕ) → (p ≡ q) ⊎ (p ≡ s + q) → digit p y ≡ 1 → digit q (smear s y) ≡ 1
digit-smear s p q y (inl e) set = omega (arith, digit-or q y (y / 2 ^ s), ap (λ t. digit t y) e)
digit-smear s p q y (inr e) set =
    omega (arith, digit-or q y (y / 2 ^ s), ap (λ t. digit t y) e, ap (λ t. t % 2) (shifts s q y))

smear-half : (s y : ℕ) → smear s y / 2 ≡ smear s (y / 2)
smear-half s y =
    let next : s + 1 ≡ suc s = omega arith in
    let half : y / 2 ^ s / 2 ≡ y / 2 / 2 ^ s =
      shifts s 1 y ∙ (ap (λ t. y / 2 ^ t) next ∙ halves y s) in
    omega (arith, bit_or_lowest y (y / 2 ^ s), ap (bit_or (y / 2)) half)

abbrev smears : ℕ → ℕ
smears y = smear 16 (smear 8 (smear 4 (smear 2 (smear 1 y))))

-- The digits reach the lowest one.
digit-smears : (p y : ℕ) → p < 32 → digit p y ≡ 1 → digit 0 (smears y) ≡ 1
digit-smears p y h set =
    let a = p / 2 * 2 in
    let b = p / 4 * 4 in
    let c = p / 8 * 8 in
    let d = p / 16 * 16 in
    let one = digit-smear 1 p a y (lower p a 1 (omega arith)) set in
    let two = digit-smear 2 a b (smear 1 y) (lower a b 2 (omega arith)) one in
    let four = digit-smear 4 b c (smear 2 (smear 1 y)) (lower b c 4 (omega arith)) two in
    let eight =
      digit-smear 8 c d (smear 4 (smear 2 (smear 1 y))) (lower c d 8 (omega arith)) four in
    digit-smear 16 d 0 (smear 8 (smear 4 (smear 2 (smear 1 y)))) (lower d 0 16 (omega arith)) eight
  where
    lower : (p q s : ℕ) → (p ≢ q → p ≡ s + q) → (p ≡ q) ⊎ (p ≡ s + q)
    lower p q s other = elim (dec_eq p q) [ yes e ↦ inl e | no ne ↦ inr (other ne) ]

smears-half : (y : ℕ) → smears y / 2 ≡ smears (y / 2)
smears-half y =
    smear-half 16 (smear 8 (smear 4 (smear 2 (smear 1 y))))
    ∙ ap (smear 16) (
        smear-half 8 (smear 4 (smear 2 (smear 1 y)))
        ∙ ap (smear 8) (
            smear-half 4 (smear 2 (smear 1 y))
            ∙ ap (smear 4) (smear-half 2 (smear 1 y) ∙ ap (smear 2) (smear-half 1 y))))

top_digit : (k y : ℕ) → 2 ^ k ≤ y → y < 2 ^ suc k → digit k y ≡ 1
top_digit k y low high =
    let pos = one-le-pow k 2 (omega arith) in
    let above : 1 ≤ y / 2 ^ k = (le-div_iff_mul-le pos).1 (omega arith) in
    let below : y / 2 ^ k < 2 = (div-lt_iff_lt-mul pos).1 (omega (arith, pow-suc 2 k)) in
    omega arith

-- All digits up to the highest one are ones.
smears-ones : (k y : ℕ) → k < 32 → 2 ^ k ≤ y → y < 2 ^ suc k → smears y ≡ 2 ^ suc k - 1
smears-ones zero y h low high = let one : y ≡ 1 = omega arith in ap smears one
smears-ones (suc k) y h low high = omega (
  arith,
  smears-half y,
  smears-ones k (y / 2) (omega arith) (omega (arith, pow-suc 2 k))
      (omega (arith, pow-suc 2 (suc k))),
  digit-smears (suc k) y h (top_digit (suc k) y low high),
  pow-suc 2 (suc k),
  one-le-pow (suc k) 2 (omega arith),
)

round_power_of2-eq : (v : ℕ) → 0 < v → v ≤ 2 ^ 32 → round_power_of2 v ≡ add (smears (v - 1)) 1
unfolding round_power_of2
round_power_of2-eq v pos small =
    let less : sub v 1 ≡ v - 1 = omega arith in ap (λ t. add (smears t) 1) less

-- For a value from 1 to `2 ^ 32`, `roundPowerOf2` returns the least power of two that is not below it.
pub round_power_of2_lem :
    (v : ℕ)
    → 0 < v
    → v ≤ 2 ^ 32
    → (k : ℕ) × (k ≤ 32) × (round_power_of2 v ≡ 2 ^ k) × (v ≤ 2 ^ k) × (2 ^ k < 2 * v)
round_power_of2_lem v pos small = elim (dec_eq v 1) [
  | yes e ↦
      let none : v - 1 ≡ 0 = omega arith in
      (
        0,
        omega arith,
        omega (arith, round_power_of2-eq v pos small, ap smears none),
        omega arith,
        omega arith,
      )
  | no more ↦
      let k = floor_log2 (v - 1) in
      let (low, high) = floor_log2_bounds (v - 1) (omega arith) in
      let short = log_lt (v - 1) (omega arith) (omega arith) in
      let ones = smears-ones k (v - 1) short low high in
      let room = pow-le-pow_right {n = 2} (omega arith) {i = suc k} {j = 32} short in
      let next = pow-suc 2 k in
      (
        suc k,
        short,
        omega (arith, round_power_of2-eq v pos small, one-le-pow (suc k) 2 (omega arith)),
        omega arith,
        omega arith,
      )
]
  where
    log_lt : (x : ℕ) → 0 < x → x < 2 ^ 32 → floor_log2 x < 32
    log_lt x at h = elim (dec_lt (floor_log2 x) 32) [
      | yes lt ↦ lt
      | no le ↦ absurd (
          omega (
            arith,
            floor_log2_bounds x at,
            pow-le-pow_right {n = 2} (omega arith) {i = 32} {j = floor_log2 x} (omega arith),
          ))
    ]
