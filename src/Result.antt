-- ===== src/Result.antt =====
-- The result of a call in lib/ZoneAllocator.cpp, lib/allocator.cpp and what stands on them: a value, or
-- how the call ended without one.
use liballocator.Base.{Bool, if◌then◌else◌, Option, none, some, ◌≡◌, refl, ap}

-- `std::array::at` threw `std::out_of_range`; a null pointer was taken for the page allocator; an
-- assertion of the zone allocator failed; the fuel of a loop ran out; or a call of the page allocator
-- has no result, since its assertion failed or its fuel ran out.
pub data Error : Type 0 where
  out_of_range null_pointer assertion no_fuel page_allocator : Error

pub data Result {ℓ} (V : Type ℓ) : Type ℓ where
  err : (reason : Error) → Result V
  ok : (value : V) → Result V

-- A test that ends the call with `reason` unless it holds.
abbrev pub guard : Bool → Error → Result (Unit {0})
guard holds reason = if holds then ok tt else err reason

-- The call goes on with the value, and keeps the reason for which there is none.
infixl 5 ◌>>=◌
abbrev pub ◌>>=◌ {ℓ ℓ'} : {V : Type ℓ} {W : Type ℓ'} → Result V → (V → Result W) → Result W
◌>>=◌ (err reason) go = err reason
◌>>=◌ (ok value) go = go value

infixl 5 ◌>>◌
abbrev pub ◌>>◌ {ℓ ℓ'} : {V : Type ℓ} {W : Type ℓ'} → Result V → Result W → Result W
◌>>◌ first second = first >>= (λ value. second)

-- A call of the page allocator.
abbrev pub paged {ℓ} : {A : Type ℓ} → Option A → Result A
paged none = err page_allocator
paged (some a) = ok a

-- The value, or a default.
value_or {ℓ} : {A : Type ℓ} → A → Result A → A
value_or d (ok a) = a
value_or d (err e) = d

pub ok-injective {ℓ} : {A : Type ℓ} (x y : A) → ok x ≡ ok y → x ≡ y
unfolding value_or
ok-injective x y e = ap (value_or x) e

-- A chain that ends goes through its first step.
pub bind-ok {ℓ κ} :
    {A : Type ℓ} {B : Type κ} (m : Result A) (k : A → Result B) (b : B)
    → (m >>= k) ≡ ok b
    → (x : A) × (m ≡ ok x) × (k x ≡ ok b)
bind-ok (err c) k b e = cc
bind-ok (ok x) k b e = (x, refl, e)
