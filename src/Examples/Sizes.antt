-- ===== src/Examples/Sizes.antt =====
-- Tests of the functions on sizes and regions.
use liballocator.Base.{ℕ, ◌+◌, ◌-◌, ◌*◌, ◌^◌, ◌≤◌, ◌<◌, ◌≡◌, refl, true, arith}
use liballocator.Result.{out_of_range, err}
use liballocator.Page.{is_naturally_aligned}
use liballocator.Utils.{round_power_of2}
use liballocator.Utils.Round.{round_power_of2_lem}
use liballocator.ZoneAllocator.{ZoneAllocator, zone_is_naturally_aligned, chunk_size, zone_idx, at}
use liballocator.ZoneAllocator.Allocate.{page_count, allocate}
use liballocator.ZoneAllocator.Sizes.{
  chunk_size_lem, zone_idx-lt, allocate-out_of_range, page_count_lem,
}
use liballocator.Examples.Facade.{fresh}

round_power_of2_lem_example :
    (k : ℕ) × (k ≤ 32) × (round_power_of2 1000 ≡ 2 ^ k) × (1000 ≤ 2 ^ k) × (2 ^ k < 2 * 1000)
round_power_of2_lem_example = round_power_of2_lem 1000 (omega arith) (omega arith)

chunk_size_lem_example :
    (k : ℕ) × (4 ≤ k)
    × (chunk_size 100 ≡ 2 ^ k)
    × (100 ≤ 2 ^ k)
    × (16 < 2 ^ k → 2 ^ k < 2 * 100)
    × (zone_idx (chunk_size 100) ≡ k - 4)
chunk_size_lem_example = chunk_size_lem 100 (omega arith) (omega arith)

small_chunk : chunk_size 2000 < 4096
unfolding chunk_size round_power_of2
small_chunk = omega arith

zone_idx-lt_example : zone_idx (chunk_size 2000) < 8
zone_idx-lt_example = zone_idx-lt 2000 4096 (omega arith) (omega arith) (omega arith) small_chunk

-- An allocator with pages of 8 KiB.
abbrev wide : ZoneAllocator
wide = record fresh {
  attached = true;
  page_size = 8192;
  zone_desc_chunk_size = 64;
  zone_desc_idx = 2;
}

allocate-out_of_range_example :
    (zone_idx (chunk_size 3000) ≡ 8)
    × (at (zone_idx (chunk_size 3000)) ≡ err out_of_range)
    × (allocate wide 3000 ≡ err out_of_range)
allocate-out_of_range_example =
    allocate-out_of_range wide 3000 (omega arith) (omega arith) (omega arith)

page_count_lem_example :
    (1000 ≤ page_count 1000 256 * 256) × (page_count 1000 256 * 256 < 1000 + 256)
page_count_lem_example = page_count_lem 1000 256 (omega arith) (omega arith) (omega arith)

-- What the two `static_assert`s say.
static_asserts : (is_naturally_aligned ≡ true) × (zone_is_naturally_aligned ≡ true)
static_asserts = (refl, refl)
