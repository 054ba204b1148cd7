-- ===== src/Word.antt =====
-- Machine words of 64 bits, as `std::size_t` and `std::uintptr_t` are on the host that the tests run
-- on, and the mask by which lib/RegionInfo.cpp and lib/PageAllocator.cpp align an address.
pub mod Bits
pub mod Align
use Prim.Native.Nat.{bit_and}
use liballocator.Base.{ℕ, ◌+◌, ◌-◌, ◌%◌, ◌^◌}

abbrev pub word_mod : ℕ
word_mod = 2 ^ 64

-- `a + b` and `a - b`
abbrev pub add : ℕ → ℕ → ℕ
add a b = (a + b) % word_mod

abbrev pub sub : ℕ → ℕ → ℕ
sub a b = (a + word_mod - b) % word_mod

-- `~a`
abbrev pub complement : ℕ → ℕ
complement a = word_mod - 1 - a

-- `addr & ~(pageSize - 1)`
unfoldable pub align_down : ℕ → ℕ → ℕ
align_down addr page_size = bit_and addr (complement (sub page_size 1))
