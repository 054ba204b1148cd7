-- ===== src/Utils.antt =====
-- lib/utils.hpp
pub mod Power
pub mod Round
use Prim.Native.Nat.{bit_and, bit_or}
use liballocator.Base.{ℕ, ◌+◌, ◌/◌, ◌^◌, Bool, ◌&&◌, ltb, ◌==◌}
use liballocator.Store.{Ptr}
use liballocator.Word.{add, sub}

-- `isPowerOf2(value)`
unfoldable pub is_power_of2 : ℕ → Bool
is_power_of2 value = ltb 0 value && bit_and value (sub value 1) == 0

-- `result |= (result >> shift)`
abbrev pub smear : ℕ → ℕ → ℕ
smear shift result = bit_or result (result / 2 ^ shift)

-- `roundPowerOf2(value)`
unfoldable pub round_power_of2 : ℕ → ℕ
round_power_of2 value = add (smear 16 (smear 8 (smear 4 (smear 2 (smear 1 (sub value 1)))))) 1

-- `movePtr(ptr, step)`, inside an object
unfoldable pub move_ptr : Ptr → ℕ → Ptr
move_ptr ptr step = ptr + step
