-- ===== src/ZoneAllocator/Query.antt =====
-- `ZoneAllocator::getStats`.
use liballocator.Base.{ℕ, zero, suc, ◌+◌, ◌-◌, ◌*◌, ◌%◌, ◌^◌, ltb, ◌==◌, if◌then◌else◌}
use liballocator.Result.{no_fuel, Result, ok, err, ◌>>=◌}
use liballocator.Store.{Ptr, null}
use liballocator.Word.{word_mod, add, sub}
use liballocator.Zone.{Zones}
use liballocator.ZoneAllocator.{ZoneAllocator, max_zone_idx}

pub record Stats : Type 0 where
  pub used_memory_size : ℕ
  pub reserved_memory_size : ℕ
  pub free_memory_size : ℕ
  pub allocated_memory_size : ℕ

-- The number of zones in a list.
unfoldable pub count_loop : ℕ → Zones → Ptr → ℕ → Result ℕ
count_loop zero z zone count = err no_fuel
count_loop (suc fuel) z zone count =
    let rest = count_loop fuel z (z.store.links.next zone) (count + 1) in
    if zone == null then ok count else rest

-- The first `std::accumulate`, over the lists from index `i` on, `n` of them. The sum is an `unsigned`
-- of 32 bits, since the start value `0U` is.
unfoldable pub count_zones : ℕ → ℕ → ZoneAllocator → ℕ → Result ℕ
count_zones zero i a sum = ok sum
count_zones (suc n) i a sum = elim (count_loop (a.pages.pages_count + 1) a.zones (a.heads i) 0) [
  | err e ↦ err e
  | ok count ↦ count_zones n (i + 1) a (add sum count % 2 ^ 32)
]

-- The second one.
unfoldable pub sum_free : ℕ → ℕ → ZoneAllocator → ℕ → ℕ
sum_free zero i a sum = sum
sum_free (suc n) i a sum = sum_free n (i + 1) a (
    if a.heads i == null
    then sum
    else add sum (a.zones.chunk_size (a.heads i) * a.free_chunks_counts i) % 2 ^ 32)

-- `getStats()`
unfoldable pub get_stats : ZoneAllocator → Result Stats
get_stats a = do
  zones ← count_zones max_zone_idx 0 a 0
  ok (
      let used = zones * a.page_size % word_mod in
      let reserved = if ltb 0 zones then (zones - 1) * a.zone_desc_chunk_size % word_mod else 0 in
      let free = sum_free max_zone_idx 0 a 0 in
      record {
        used_memory_size = used;
        reserved_memory_size = reserved;
        free_memory_size = free;
        allocated_memory_size = sub (sub used reserved) free;
      })
