-- ===== src/Demo/Passed.antt =====
-- When the demo exits with success.
use Prim.Native.String.{String}
use mathlib.Core.Path.{subst}
use liballocator.Base.{
  ℕ, [], ◌∷◌, ◌+◌, ◌==◌, if◌then◌else◌, ◌≡◌, refl, sym, ap, ◌∙◌, Bool, not, true, false, List,
  arith,
}
use liballocator.Result.{Result, ok, ok-injective, bind-ok}
use liballocator.Store.{Ptr, null}
use liballocator.ZoneAllocator.{ZoneAllocator}
use liballocator.Allocator
use liballocator.Allocator.{init_range}
use liballocator.Demo.{
  Demo, Containers, free_memory, show_stats, test_start, test_end, test_smart_pointers, test_vector,
  test_map, run_tests, app_main, unless_failed, push_loop, print_loop, print_entries, operator_new,
  operator_delete,
}

-- `EXIT_FAILURE` is not `EXIT_SUCCESS`.
exit_code : (d d' : Demo) → ◌≡◌ {A = Result (ℕ × Demo)} (ok (1, d)) (ok (0, d')) → ⊥
exit_code d d' e =
    let code : ◌≡◌ {A = ℕ} 1 0 = ap (λ r. r.0) (ok-injective _ _ e) in omega (arith, code)

-- What is left as it is by output.
abbrev Shows : Demo → Demo → Type 0
Shows d d' = (d'.allocator ≡ d.allocator) × (d'.initial_free_memory ≡ d.initial_free_memory)

show_stats-Shows : (d d' : Demo) → show_stats d ≡ ok d' → Shows d d'
unfolding show_stats
show_stats-Shows d d' e =
    let (s, _, last) = bind-ok (Allocator.get_stats d.allocator) _ d' e in
    let same = sym (ok-injective _ _ last) in
    (ap (λ t. t.allocator) same, ap (λ t. t.initial_free_memory) same)

test_start-Shows :
    (description : String) (d d' : Demo) → test_start description d ≡ ok d' → Shows d d'
unfolding test_start
test_start-Shows description d d' e = show_stats-Shows _ d' e

-- A test passes: the free memory is what it was at the start.
abbrev Passes : Demo → Demo → Type 0
Passes d d' =
    (d'.initial_free_memory ≡ d.initial_free_memory)
    × (free_memory d'.allocator ≡ ok d'.initial_free_memory)

test_end-Passes : (d d' : Demo) → test_end d ≡ ok (true, d') → Passes d d'
unfolding test_end
test_end-Passes d d' e =
    let (d1, shown, e1) = bind-ok (show_stats d) _ (true, d') e in
    let (free, found, e2) = bind-ok (free_memory d1.allocator) _ (true, d') e1 in
    let last = ok-injective _ _ e2 in
    let same = ap (λ t. t.1) last in
    let equal : d1.initial_free_memory ≡ free = ground (arith, ap (λ t. t.0) last) in
    (
      ap (λ t. t.initial_free_memory) (sym same) ∙ (show_stats-Shows d d1 shown).1,
      subst (λ t. free_memory t.allocator ≡ ok t.initial_free_memory) same
          (found ∙ ap ok (sym equal)),
    )

test_smart_pointers-Passes : (d d' : Demo) → test_smart_pointers d ≡ ok (true, d') → Passes d d'
unfolding test_smart_pointers
test_smart_pointers-Passes d d' e =
    let (d1, start, e1) =
      bind-ok (test_start "Testing allocator with smart pointers" d) _ (true, d') e in
    let ((ptr, a), new, e2) = bind-ok (operator_new 113 d1.allocator) _ (true, d') e1 in
    let (d3, shown, e3) = bind-ok (show_stats _) _ (true, d') e2 in
    let (b, gone, e4) =
      bind-ok (if ptr == null then ok d3.allocator else operator_delete ptr d3.allocator) _
        (true, d') e3 in
    let (kept, free) = test_end-Passes _ d' e4 in
    (kept ∙ ((show_stats-Shows _ d3 shown).1 ∙ (test_start-Shows _ d d1 start).1), free)

module _ {V M : Type 0} (std : Containers V M) where
  print_loop-initial :
      (i : ℕ) (xs : List ℕ) (d : Demo)
      → (print_loop std i xs d).initial_free_memory ≡ d.initial_free_memory
  unfolding print_loop
  print_loop-initial i [] d = refl
  print_loop-initial i (x ∷ xs) d = print_loop-initial (i + 1) xs _

  print_entries-initial :
      (xs : List (ℕ × String)) (d : Demo)
      → (print_entries std xs d).initial_free_memory ≡ d.initial_free_memory
  unfolding print_entries
  print_entries-initial [] d = refl
  print_entries-initial ((key, value) ∷ rest) d = print_entries-initial rest _

  test_vector-Passes : (d d' : Demo) → test_vector std d ≡ ok (true, d') → Passes d d'
  unfolding test_vector
  test_vector-Passes d d' e =
      let (d1, start, e1) = bind-ok (test_start _ d) _ (true, d') e in
      let ((vec, a), pushed, e2) =
        bind-ok (push_loop std 16 0 std.vector d1.allocator) _ (true, d') e1 in
      let (b, gone, e3) = bind-ok (std.destroy_vector vec _) _ (true, d') e2 in
      let (kept, free) = test_end-Passes _ d' e3 in
      (kept ∙ (print_loop-initial 0 (std.elements vec) _ ∙ (test_start-Shows _ d d1 start).1), free)

  test_map-Passes : (d d' : Demo) → test_map std d ≡ ok (true, d') → Passes d d'
  unfolding test_map
  test_map-Passes d d' e =
      let (d1, start, e1) = bind-ok (test_start _ d) _ (true, d') e in
      let ((m0, a0), _, f0) = bind-ok (std.assign std.map 0 _ d1.allocator) _ (true, d') e1 in
      let ((m1, a1), _, f1) = bind-ok (std.assign m0 1 _ a0) _ (true, d') f0 in
      let ((m2, a2), _, f2) = bind-ok (std.assign m1 2 _ a1) _ (true, d') f1 in
      let ((m3, a3), _, f3) = bind-ok (std.assign m2 3 _ a2) _ (true, d') f2 in
      let ((m4, a4), _, f4) = bind-ok (std.assign m3 4 _ a3) _ (true, d') f3 in
      let (b, gone, e3) = bind-ok (std.destroy_map m4 _) _ (true, d') f4 in
      let (kept, free) = test_end-Passes _ d' e3 in
      (kept ∙ (print_entries-initial (std.entries m4) _ ∙ (test_start-Shows _ d d1 start).1), free)

  unless_failed-success :
      (passed : Bool) (d d' : Demo) (rest : Result (ℕ × Demo))
      → unless_failed std passed d rest ≡ ok (0, d')
      → (passed ≡ true) × (rest ≡ ok (0, d'))
  unfolding unless_failed
  unless_failed-success true d d' rest e = (refl, e)
  unless_failed-success false d d' rest e = absurd (exit_code _ d' e)

  run_tests-Passes :
      (liballocator_version : Ptr) (d d' : Demo)
      → run_tests std liballocator_version d ≡ ok (0, d')
      → (free_memory d.allocator ≡ ok d'.initial_free_memory)
        × (free_memory d'.allocator ≡ ok d'.initial_free_memory)
  unfolding run_tests
  run_tests-Passes liballocator_version d d' e =
      let (free, found, e1) = bind-ok (free_memory d.allocator) _ (0, d') e in
      let ((p, d2), first, e2) = bind-ok (test_smart_pointers _) _ (0, d') e1 in
      let (was, e3) = unless_failed-success p d2 d' _ e2 in
      let ((p', d3), second, e4) = bind-ok (test_vector std d2) _ (0, d') e3 in
      let (was', e5) = unless_failed-success p' d3 d' _ e4 in
      let ((p'', d4), third, e6) = bind-ok (test_map std d3) _ (0, d') e5 in
      let (was'', e7) = unless_failed-success p'' d4 d' _ e6 in
      let a = test_smart_pointers-Passes _ d2 (first ∙ λ t. ok (was t, d2)) in
      let b = test_vector-Passes d2 d3 (second ∙ λ t. ok (was' t, d3)) in
      let c = test_map-Passes d3 d4 (third ∙ λ t. ok (was'' t, d4)) in
      let last = ap (λ r. r.1) (ok-injective _ _ e7) in
      let initial = ap (λ t. t.initial_free_memory) (sym last) ∙ (c.0 ∙ (b.0 ∙ a.0)) in
      (
        found ∙ ap ok (sym initial),
        subst (λ t. free_memory t.allocator ≡ ok t.initial_free_memory) last c.1,
      )

  behind_init :
      (done : Bool) (d d' : Demo) (rest : Result (ℕ × Demo))
      → (if not done then ok (1, d) else rest) ≡ ok (0, d')
      → (done ≡ true) × (rest ≡ ok (0, d'))
  behind_init true d d' rest e = (refl, e)
  behind_init false d d' rest e = absurd (exit_code d d' e)

  -- The demo exits with success only if the platform and the allocator could be initialised, with 512
  -- bytes a page, and as much memory is free at the end as right behind the initialisation.
  pub app_main-Passes :
      (platform_init : Bool) (heap_min heap_max liballocator_version : Ptr) (d d' : Demo)
      → app_main std platform_init heap_min heap_max liballocator_version d ≡ ok (0, d')
      → (platform_init ≡ true)
        × (a : ZoneAllocator) × (init_range d.allocator heap_min heap_max 512 ≡ ok (true, a))
        × (free : ℕ) × (free_memory a ≡ ok free)
        × (free_memory d'.allocator ≡ ok free)
  unfolding app_main
  app_main-Passes false heap_min heap_max liballocator_version d d' e = absurd (exit_code _ d' e)
  app_main-Passes true heap_min heap_max liballocator_version d d' e =
      let ((done, a), started, e1) =
        bind-ok (init_range d.allocator heap_min heap_max 512) _ (0, d') e in
      let (was, e2) = behind_init done _ d' _ e1 in
      let (before, behind) = run_tests-Passes liballocator_version _ d' e2 in
      (refl, a, started ∙ (λ t. ok (was t, a)), d'.initial_free_memory, before, behind)
