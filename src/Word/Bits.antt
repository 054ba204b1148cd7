-- ===== src/Word/Bits.antt =====
-- `&` and `|` on binary digits, at variables.
use Prim.Native.Nat.{bit_and, bit_or, digits, bit_and-bitwise, bit_or-bitwise, min, max}
use native.Mathlib.Nat.{pow-suc, pow-succ', one-le-pow, div-div-eq-div-mul}
use liballocator.Base.{
  ℕ, zero, suc, ◌+◌, ◌-◌, ◌*◌, ◌/◌, ◌%◌, ◌^◌, ◌≤◌, ◌<◌, ◌≡◌, refl, arith, ap, sym, ◌∙◌,
}

module _ (f : ℕ → ℕ) (g : ℕ → ℕ → ℕ) where
  digits-zero : (n b : ℕ) → digits f g n 0 b ≡ f b
  digits-zero zero b = refl
  digits-zero (suc n) b = refl

  -- More rounds than the first number has digits make no difference.
  digits_enough : (n m a b : ℕ) → a ≤ n → a ≤ m → digits f g n a b ≡ digits f g m a b
  digits_enough n m zero b h k = digits-zero n b ∙ sym (digits-zero m b)
  digits_enough zero m (suc a) b h k = absurd (omega arith)
  digits_enough (suc n) zero (suc a) b h k = absurd (omega arith)
  digits_enough (suc n) (suc m) (suc a) b h k =
      omega (arith, digits_enough n m (suc a / 2) (b / 2) (omega arith) (omega arith))

  -- The lowest digit, and the others.
  digits_lowest :
      (a b : ℕ)
      → digits f g (suc a) (suc a) b
        ≡ digits f g (suc a / 2) (suc a / 2) (b / 2) * 2 + g (suc a % 2) (b % 2)
  digits_lowest a b =
      omega (arith, digits_enough a (suc a / 2) (suc a / 2) (b / 2) (omega arith) (omega arith))

pub zero-bit_and : (b : ℕ) → bit_and 0 b ≡ 0
zero-bit_and b = bit_and-bitwise 0 b

pub bit_and_lowest : (a b : ℕ) → bit_and a b ≡ bit_and (a / 2) (b / 2) * 2 + min (a % 2) (b % 2)
bit_and_lowest zero b = omega (arith, zero-bit_and b, zero-bit_and (b / 2))
bit_and_lowest (suc a) b = omega (
  arith,
  bit_and-bitwise (suc a) b,
  bit_and-bitwise (suc a / 2) (b / 2),
  digits_lowest (λ b. 0) min a b,
)

pub zero-bit_or : (b : ℕ) → bit_or 0 b ≡ b
zero-bit_or b = bit_or-bitwise 0 b

pub bit_or_lowest : (a b : ℕ) → bit_or a b ≡ bit_or (a / 2) (b / 2) * 2 + max (a % 2) (b % 2)
bit_or_lowest zero b = omega (arith, zero-bit_or b, zero-bit_or (b / 2))
bit_or_lowest (suc a) b = omega (
  arith,
  bit_or-bitwise (suc a) b,
  bit_or-bitwise (suc a / 2) (b / 2),
  digits_lowest (λ b. b) max a b,
)

bit_and-zero_below : (n a : ℕ) → a ≤ n → bit_and a 0 ≡ 0
bit_and-zero_below n zero h = zero-bit_and 0
bit_and-zero_below zero (suc a) h = absurd (omega arith)
bit_and-zero_below (suc n) (suc a) h =
    omega (arith, bit_and_lowest (suc a) 0, bit_and-zero_below n (suc a / 2) (omega arith))

pub bit_and-zero : (a : ℕ) → bit_and a 0 ≡ 0
bit_and-zero a = bit_and-zero_below a a (omega arith)

-- A mask of `j` ones keeps a number of `j` digits.
pub bit_and_ones : (j a : ℕ) → a < 2 ^ j → bit_and a (2 ^ j - 1) ≡ a
bit_and_ones zero a h = bit_and-zero a ∙ omega arith
bit_and_ones (suc j) a h =
    let half = bit_and_ones j (a / 2) (omega (arith, pow-suc 2 j)) in
    let mask : (2 ^ suc j - 1) / 2 ≡ 2 ^ j - 1 =
      omega (arith, pow-suc 2 j, one-le-pow j 2 (omega arith)) in
    let odd : (2 ^ suc j - 1) % 2 ≡ 1 = omega (arith, pow-suc 2 j, one-le-pow j 2 (omega arith)) in
    omega (arith, bit_and_lowest a (2 ^ suc j - 1), ap (λ t. bit_and (a / 2) t) mask, half, odd)

-- Zeros at the end of a mask clear the lowest digits.
pub bit_and_shifted : (k t a : ℕ) → bit_and a (2 ^ k * t) ≡ bit_and (a / 2 ^ k) t * 2 ^ k
bit_and_shifted zero t a =
    let one : 1 * t ≡ t = omega arith in
    let same : a / 1 ≡ a = omega arith in
    ap (bit_and a) one ∙ (ap (λ r. bit_and r t) (sym same) ∙ omega arith)
bit_and_shifted (suc k) t a =
    let m = 2 ^ k * t in
    let mask : 2 ^ suc k * t ≡ 2 * m = omega (arith, ap (λ r. r * t) (pow-suc 2 k)) in
    let half : 2 * m / 2 ≡ m = omega arith in
    let split : a / 2 ^ suc k ≡ a / 2 / 2 ^ k =
      ap (λ r. a / r) (pow-succ' 2 k) ∙ sym (div-div-eq-div-mul a 2 (2 ^ k)) in
    ap (bit_and a) mask
    ∙ (bit_and_lowest a (2 * m)
        ∙ omega (
          arith,
          ap (bit_and (a / 2)) half,
          bit_and_shifted k t (a / 2),
          ap (λ r. bit_and r t * 2 ^ suc k) split,
          ap (λ r. bit_and (a / 2 / 2 ^ k) t * r) (pow-suc 2 k),
        ))
