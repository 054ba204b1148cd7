-- ===== src/PageAllocator/Init/Establish.antt =====
-- `init` from any state.
use mathlib.Core.Path.{subst}
use mathlib.Core.Option.{some-injective}
use native.Mathlib.Decide.{dec_lt}
use native.Mathlib.Nat.{pow-le-pow_right, one-le-pow}
use liballocator.Base.{
  ◌+◌, ◌⊎◌, ℕ, zero, suc, ◌^◌, ◌≤◌, ◌<◌, ◌≡◌, refl, sym, ap, ◌∙◌, inl, inr, Bool, true, false,
  Option, some, List, arith, get_or, replicate, Bool-cases,
}
use liballocator.Utils.Power.{is_power_of2_iff}
use liballocator.RegionInfo.{Region, RegionInfo, clear_region_info}
use liballocator.PageAllocator.{PageAllocator}
use liballocator.PageAllocator.Live.{Live, Sound}
use liballocator.PageAllocator.Kept.{Reach-SameLayout}
use liballocator.PageAllocator.Balance.{total, Reach-balance}
use liballocator.PageAllocator.History.{Reach, Reach-Sound}
use liballocator.PageAllocator.Init.{is_valid_page_size, clear, init}
use liballocator.PageAllocator.Init.Apart.{separate, Separated}
use liballocator.PageAllocator.Init.Begun.{Begun}
use liballocator.PageAllocator.Init.Sums.{page_sum}
use liballocator.PageAllocator.Init.Scan.{usable, total_pages, Scanned}
use liballocator.PageAllocator.Init.Start.{scan_regions-Scans}
use liballocator.PageAllocator.Init.Valid.{build_lem}

get_or-replicate : (n j : ℕ) (r : RegionInfo) → get_or (replicate n r) j r ≡ r
get_or-replicate zero j r = refl
get_or-replicate (suc n) zero r = refl
get_or-replicate (suc n) (suc j) r = get_or-replicate n j r

clear-Scanned : (page_size : ℕ) (a : PageAllocator) → Scanned page_size (clear a)
unfolding clear
clear-Scanned page_size a = record {
  length = refl;
  fits = omega arith;
  found = λ j lt. absurd (omega arith);
  cleared = λ j h. get_or-replicate 8 j clear_region_info;
  lists = λ i. refl;
  free = refl;
}

-- A word that passes the test of the page size is a power of two.
valid_page_size :
    (page_size : ℕ)
    → page_size < 2 ^ 64
    → is_valid_page_size page_size ≡ true
    → (k : ℕ) × (k ≤ 63) × (page_size ≡ 2 ^ k) × (128 ≤ 2 ^ k)
unfolding is_valid_page_size
valid_page_size page_size small ok =
    let (k, e) = (is_power_of2_iff page_size small).0 (ground arith) in
    let large : 128 ≤ page_size = ground arith in
    elim (dec_lt k 64) [
      | yes lt ↦ (k, omega arith, e, omega arith)
      | no ge ↦
          absurd
            (omega (arith, pow-le-pow_right {n = 2} (omega arith) {i = 64} {j = k} (omega arith)))
    ]

-- A page size of a word.
abbrev pub IsPower : ℕ → Type 0
IsPower page_size = (k : ℕ) × (k ≤ 63) × (page_size ≡ 2 ^ k)

-- `init` ends, and what holds if it answers true.
abbrev Ended : PageAllocator → List Region → ℕ → Type 0
Ended a regions page_size =
    (done : Bool) × (a' : PageAllocator) × (init a regions page_size ≡ some (done, a'))
    × (done ≡ true
        → Begun page_size a'
          × (a'.pages_count ≤ total_pages regions page_size)
          × (separate regions ≡ true → Separated a')
          × IsPower page_size)

init-power :
    (a : PageAllocator) (regions : List Region) (k : ℕ)
    → k ≤ 63
    → 128 ≤ 2 ^ k
    → is_valid_page_size (2 ^ k) ≡ true
    → usable regions ≡ true
    → total_pages regions (2 ^ k) < 2 ^ 21
    → Ended a regions (2 ^ k)
unfolding init page_sum clear
init-power a regions k h large ok good few =
    let (fits, b, scan, w, sum, apart) =
      scan_regions-Scans k h large 0 regions (clear a) good (clear-Scanned (2 ^ k) a) (omega arith)
        (omega arith) in
    let (done, a', run, valid) =
      build_lem b (2 ^ k) w (one-le-pow k 2 (omega arith)) (omega (arith, sum, few)) in
    elim (Bool-cases fits) [
      | inl all ↦ (
        done,
        a',
        rw (ok, scan, all) run,
        λ e.
            let (begun, count, separated) = valid e in
            (
              begun,
              omega (arith, count, sum),
              λ list. separated (
                  apart (record {
                    table = λ j k lt bound. absurd (omega arith);
                    ahead = λ j lt. absurd (omega arith);
                    list = list;
                  })),
              (k, h, refl),
            ),
      )
      | inr many ↦ (false, b, rw (ok, scan, many) refl, λ e. ground arith)
    ]

init-Ended :
    (a : PageAllocator) (regions : List Region) (page_size : ℕ)
    → page_size < 2 ^ 64
    → usable regions ≡ true
    → total_pages regions page_size < 2 ^ 21
    → Ended a regions page_size
unfolding init
init-Ended a regions page_size small good few = elim (Bool-cases (is_valid_page_size page_size)) [
  | inl ok ↦
      let (k, h, e, large) = valid_page_size page_size small ok in
      subst (Ended a regions) (sym e)
        (init-power a regions k h large (rw (← e) ok) good (rw (← e) few))
  | inr bad ↦ (false, clear a, rw bad refl, λ e. ground arith)
]

-- `init` ends, and either answers false or has begun with at most the pages that fit the regions.
abbrev pub Establishes : PageAllocator → List Region → ℕ → Type 0
Establishes a regions page_size =
    (a' : PageAllocator) × ((init a regions page_size ≡ some (false, a'))
      ⊎ ((init a regions page_size ≡ some (true, a'))
          × Begun page_size a'
          × (a'.pages_count ≤ total_pages regions page_size)))

-- For regions that, up to the first empty one, do not begin at address 0 and end 64 MiB at least in
-- front of the end of the address space, and that hold less than 2²¹ pages in all, `init` runs to its
-- end, from any state. Either it answers false, or it answers true and leaves a valid state that has no
-- more pages than fit the regions. In that state the descriptors of the regions of the table stand one
-- behind the other from the start of one of the regions on and have the addresses of all their pages,
-- and all pages are counted as free but those that are reserved for the descriptors.
pub init_lem :
    (a : PageAllocator) (regions : List Region) (page_size : ℕ)
    → page_size < 2 ^ 64
    → usable regions ≡ true
    → total_pages regions page_size < 2 ^ 21
    → Establishes a regions page_size
init_lem a regions page_size small good few =
    let (done, a', run, valid) = init-Ended a regions page_size small good few in
    elim (Bool-cases done) [
      | inl answer ↦
          let (begun, count, separated, power) = valid answer in
          (a', inr (subst (λ d. init a regions page_size ≡ some (d, a')) answer run, begun, count))
      | inr answer ↦ (a', inl (subst (λ d. init a regions page_size ≡ some (d, a')) answer run))
    ]

-- What holds in the state of an `init` that answers true.
module _ (a s : PageAllocator) (regions : List Region) (page_size : ℕ) (small : page_size < 2 ^ 64)
    (good : usable regions ≡ true) (few : total_pages regions page_size < 2 ^ 21)
    (run : init a regions page_size ≡ some (true, s)) where
  pub init-Begun : Begun page_size s × (separate regions ≡ true → Separated s) × IsPower page_size
  init-Begun =
      let (done, s', run', valid) = init-Ended a regions page_size small good few in
      let same : ◌≡◌ {A = Option (Bool × PageAllocator)} (some (done, s')) (some (true, s)) =
        sym run' ∙ run in
      let both = some-injective _ _ same in
      let (begun, count, separated, power) = valid (ap (λ r. r.0) both) in
      subst (λ t. Begun page_size t × (separate regions ≡ true → Separated t) × IsPower page_size)
        (ap (λ r. r.1) both) (begun, separated, power)

-- For a page size that is a word, and for regions that are usable and hold less than 2²¹ pages in all:
-- after an `init` that answers true, and whatever calls of `allocate` and `release` a client makes
-- that releases only what it was given and holds, every page of the runs that it holds is in use, and
-- no two of the runs have a page in common.
init-Sound :
    (a s b : PageAllocator) (regions : List Region) (page_size : ℕ) (live : Live)
    → page_size < 2 ^ 64
    → usable regions ≡ true
    → total_pages regions page_size < 2 ^ 21
    → init a regions page_size ≡ some (true, s)
    → Reach s b live
    → Sound b live
init-Sound a s b regions page_size live small good few run reach =
    Reach-Sound s b live (init-Begun a s regions page_size small good few run).0.valid reach

-- For a page size that is a word, and for regions that are usable and hold less than 2²¹ pages in all:
-- after an `init` that answers true, and whatever calls of `allocate` and `release` a client makes
-- that releases only what it was given and holds, the counters of free pages and of pages reserved for
-- the descriptors and the pages of the runs that the client holds add up to all pages.
pub init-balance :
    (a s b : PageAllocator) (regions : List Region) (page_size : ℕ) (live : Live)
    → page_size < 2 ^ 64
    → usable regions ≡ true
    → total_pages regions page_size < 2 ^ 21
    → init a regions page_size ≡ some (true, s)
    → Reach s b live
    → b.free_pages_count + total live + b.desc_pages_count ≡ b.pages_count
init-balance a s b regions page_size live small good few run reach =
    let (begun, _, _) = init-Begun a s regions page_size small good few run in
    let same = Reach-SameLayout s b live begun.valid reach in
    omega
      (arith, Reach-balance s b live begun.valid reach, begun.counters, same.desc_pages, same.count)
