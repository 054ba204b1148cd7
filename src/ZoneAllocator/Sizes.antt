-- ===== src/ZoneAllocator/Sizes.antt =====
-- The sizes of chunks and their indices in `m_zones`, and the number of pages of a large block.
use native.Mathlib.Nat.{pow-suc, one-le-pow, pow-le-pow_right, mod-add-div', mod-lt}
use native.Mathlib.Decide.{dec_lt}
use liballocator.Base.{
  ℕ, suc, ◌+◌, ◌-◌, ◌*◌, ◌^◌, ◌≤◌, ◌<◌, ◌≡◌, refl, ap, false, arith, ltb, leb, ◌==◌, ◌||◌,
  if◌then◌else◌,
}
use liballocator.Result.{out_of_range, err}
use liballocator.Group.{floor_log2}
use liballocator.Group.Index.{floor_log2_bounds}
use liballocator.Utils.Round.{round_power_of2_lem}
use liballocator.ZoneAllocator.{ZoneAllocator, chunk_size, zone_idx, at, should_allocate_zone}
use liballocator.ZoneAllocator.Allocate.{to_double, page_count, allocate, allocate_small}

floor_log2-pow : (k : ℕ) → floor_log2 (2 ^ k) ≡ k
floor_log2-pow k = elim (dec_lt (floor_log2 (2 ^ k)) k) [
  | yes below ↦ absurd (
      omega (
        arith,
        floor_log2_bounds (2 ^ k) (one-le-pow k 2 (omega arith)),
        pow-le-pow_right {n = 2} (omega arith) {i = suc (floor_log2 (2 ^ k))} {j = k} (omega arith),
      ))
  | no from ↦ elim (dec_lt k (floor_log2 (2 ^ k))) [
    | no equal ↦ omega arith
    | yes above ↦ absurd (
        omega (
          arith,
          floor_log2_bounds (2 ^ k) (one-le-pow k 2 (omega arith)),
          pow-le-pow_right {n = 2} (omega arith) {i = suc k} {j = floor_log2 (2 ^ k)} (omega arith),
          pow-suc 2 k,
          one-le-pow k 2 (omega arith),
        ))
  ]
]

-- For a size from 1 to `2 ^ 32`, the chunk is the least power of two from 16 on that has room for it, and
-- its index is the exponent less 4.
pub chunk_size_lem :
    (size : ℕ)
    → 0 < size
    → size ≤ 2 ^ 32
    → (k : ℕ) × (4 ≤ k)
      × (chunk_size size ≡ 2 ^ k)
      × (size ≤ 2 ^ k)
      × (16 < 2 ^ k → 2 ^ k < 2 * size)
      × (zone_idx (chunk_size size) ≡ k - 4)
unfolding chunk_size zone_idx
chunk_size_lem size pos small =
    let wanted = if ltb size 16 then 16 else size in
    let (k, le, e, fits, least) = round_power_of2_lem wanted (ground arith) (ground arith) in
    let four : 4 ≤ k = elim (dec_lt k 4) [
      | yes below ↦
          absurd
            (ground (arith, pow-le-pow_right {n = 2} (omega arith) {i = k} {j = 3} (omega arith)))
      | no from ↦ omega arith
    ] in
    let tight : 16 < 2 ^ k → 2 ^ k < 2 * size = λ more. elim (dec_lt 4 k) [
      | yes above ↦
          ground (arith, pow-le-pow_right {n = 2} (omega arith) {i = 5} {j = k} (omega arith))
      | no at_most ↦
          absurd
            (omega (arith, pow-le-pow_right {n = 2} (omega arith) {i = k} {j = 4} (omega arith)))
    ] in
    (k, four, e, ground arith, tight, omega (arith, ap floor_log2 e, floor_log2-pow k))

-- For a page size of at most 4096 and a size from 1 to `2 ^ 32`, the index of every chunk that is
-- smaller than a page is one of the 8 of `m_zones`.
pub zone_idx-lt :
    (size page_size : ℕ)
    → 0 < size
    → size ≤ 2 ^ 32
    → page_size ≤ 4096
    → chunk_size size < page_size
    → zone_idx (chunk_size size) < 8
zone_idx-lt size page_size pos small bound less =
    let (k, four, e, fits, tight, idx) = chunk_size_lem size pos small in
    elim (dec_lt k 12) [
      | yes below ↦ omega arith
      | no from ↦
          absurd
            (omega (arith, pow-le-pow_right {n = 2} (omega arith) {i = 12} {j = k} (omega arith)))
    ]

-- For a page size above 4096, the index of the chunks for a request of more than 2048 and at most 4096
-- bytes is 8, for which `m_zones.at` throws `std::out_of_range`, and so does `allocate` in whatever
-- state.
pub allocate-out_of_range :
    (a : ZoneAllocator) (size : ℕ)
    → 4096 < a.page_size
    → 2048 < size
    → size ≤ 4096
    → (zone_idx (chunk_size size) ≡ 8)
      × (at (zone_idx (chunk_size size)) ≡ err out_of_range)
      × (allocate a size ≡ err out_of_range)
unfolding allocate allocate_small should_allocate_zone
allocate-out_of_range a size large low high =
    let (k, four, e, fits, tight, idx) = chunk_size_lem size (omega arith) (omega arith) in
    let twelve : k ≡ 12 = elim (dec_lt k 12) [
      | yes below ↦
          absurd
            (omega (arith, pow-le-pow_right {n = 2} (omega arith) {i = k} {j = 11} (omega arith)))
      | no from ↦ elim (dec_lt 12 k) [
        | yes above ↦ absurd (
            omega
              (arith, pow-le-pow_right {n = 2} (omega arith) {i = 13} {j = k} (omega arith), tight))
        | no equal ↦ omega arith
      ]
    ] in
    let chunk : chunk_size size ≡ 4096 = omega (arith, ap (λ t. 2 ^ t) twelve) in
    let eight : zone_idx (chunk_size size) ≡ 8 = omega arith in
    let not_zero : (size == 0) ≡ false = ground arith in
    let small : (leb a.page_size size || leb a.page_size (chunk_size size)) ≡ false =
      ground arith in
    (eight, rw eight refl, rw (not_zero, small, eight) refl)

-- Below `2 ^ 53`, the pages are just enough for the size.
pub page_count_lem :
    (size page_size : ℕ)
    → 0 < size
    → size < 2 ^ 53
    → 0 < page_size
    → (size ≤ page_count size page_size * page_size)
      × (page_count size page_size * page_size < size + page_size)
unfolding page_count to_double
page_count_lem size page_size pos small page =
    let exact : to_double size ≡ size = ground arith in
    let n = to_double size + (page_size - 1) in
    omega (arith, mod-add-div' n page_size, mod-lt n page)
