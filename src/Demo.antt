-- ===== src/Demo.antt =====
-- test/liballocator-demo/appMain.cpp: the demo, which runs tests of `new` and `delete` on the allocator.
-- The containers of the standard library, `platform::init`, the bounds of the heap and the text of the
-- version are parameters: what a container allocates is up to the library that the demo is built with.
pub mod Passed
use Prim.Native.String.{String}
use liballocator.Base.{ℕ, zero, suc, ◌+◌, Bool, List, [], ◌∷◌, ◌==◌, not, if◌then◌else◌}
use liballocator.Result.{Result, ok, ◌>>=◌}
use liballocator.Store.{Ptr, null}
use liballocator.ZoneAllocator.{ZoneAllocator}
use liballocator.Allocator

-- An argument of `fmt::print`, which is a function of another library: its calls are recorded.
pub data Arg : Type 0 where
  number : ℕ → Arg
  address : Ptr → Arg
  text : String → Arg

-- A call of `fmt::print`: the format and the arguments.
pub record Output : Type 0 where
  pub format : String
  pub args : List Arg

-- The state of the program: the allocator, the static variable `initialFreeMemory`, and what is
-- printed, the last call first.
pub record Demo : Type 0 where
  pub allocator : ZoneAllocator
  pub initial_free_memory : ℕ
  pub output : List Output

-- What the demo uses of `std::vector<int>` and of `std::map<int, std::string>`, which call `operator new`
-- and `operator delete`.
pub record Containers (V M : Type 0) : Type 0 where
  pub vector : V
  pub push_back : V → ℕ → ZoneAllocator → Result (V × ZoneAllocator)
  pub elements : V → List ℕ
  pub destroy_vector : V → ZoneAllocator → Result ZoneAllocator
  pub map : M
  pub assign : M → ℕ → String → ZoneAllocator → Result (M × ZoneAllocator)
  pub entries : M → List (ℕ × String)
  pub destroy_map : M → ZoneAllocator → Result ZoneAllocator

abbrev pub print : String → List Arg → Demo → Demo
print format args d = record d { output = record { format = format; args = args } ∷ d.output }

-- A step of the allocator.
abbrev pub with_allocator : Demo → ZoneAllocator → Demo
with_allocator d a = record d { allocator = a }

-- `operator new(size)`
unfoldable pub operator_new : ℕ → ZoneAllocator → Result (Ptr × ZoneAllocator)
operator_new size a = Allocator.allocate a size

-- `operator delete(ptr)`
unfoldable pub operator_delete : Ptr → ZoneAllocator → Result ZoneAllocator
operator_delete ptr a = Allocator.release a ptr

-- `operator delete(ptr, sz)`
unfoldable pub operator_delete_sized : Ptr → ℕ → ZoneAllocator → Result ZoneAllocator
operator_delete_sized ptr sz a = operator_delete ptr a

-- `freeMemory()`
unfoldable pub free_memory : ZoneAllocator → Result ℕ
free_memory a = do stats ← Allocator.get_stats a; ok stats.free_memory_size

-- `showStats()`
unfoldable pub show_stats : Demo → Result Demo
show_stats d = do
  stats ← Allocator.get_stats d.allocator
  let d1 = print "Total memory size     : {} B\n" (number stats.total_memory_size ∷ []) d
  let d2 = print "Reserved memory size  : {} B\n" (number stats.reserved_memory_size ∷ []) d1
  let d3 = print "User memory size      : {} B\n" (number stats.user_memory_size ∷ []) d2
  let d4 = print "Allocated memory size : {} B\n" (number stats.allocated_memory_size ∷ []) d3
  let d5 = print "Free memory size      : {} B\n" (number stats.free_memory_size ∷ []) d4
  ok (print "\n" [] d5)

-- `testStart(description)`
unfoldable pub test_start : String → Demo → Result Demo
test_start description d = show_stats (
    print "{}\n\n" (text description ∷ [])
      (print "------------------------------------------------\n" [] d))

-- `testEnd()`
unfoldable pub test_end : Demo → Result (Bool × Demo)
test_end d = do
  d1 ← show_stats d
  free ← free_memory d1.allocator
  ok (d1.initial_free_memory == free, d1)

-- `testSmartPointers()`; the array of 113 bytes is allocated by `operator new` and released by `operator
-- delete` unless the pointer is null.
unfoldable pub test_smart_pointers : Demo → Result (Bool × Demo)
test_smart_pointers d = do
  d1 ← test_start "Testing allocator with smart pointers" d
  let d2 = print "Allocate 113 B (std::make_unique<char[]>)...\n" [] d1
  (ptr, a) ← operator_new 113 d2.allocator
  d3 ← show_stats (print "ptr = {}\n" (address ptr ∷ []) (with_allocator d2 a))
  let d4 = print "Release memory (ptr.reset())...\n" [] d3
  b ← (if ptr == null then ok d4.allocator else operator_delete ptr d4.allocator)
  test_end (with_allocator d4 b)

module _ {V M : Type 0} (std : Containers V M) where
  -- The first loop of `testVector`, `n` rounds from `i` on.
  unfoldable pub push_loop : ℕ → ℕ → V → ZoneAllocator → Result (V × ZoneAllocator)
  push_loop zero i vec a = ok (vec, a)
  push_loop (suc n) i vec a = do (vec', b) ← std.push_back vec i a; push_loop n (i + 1) vec' b

  -- The second loop.
  unfoldable pub print_loop : ℕ → List ℕ → Demo → Demo
  print_loop i [] d = d
  print_loop i (x ∷ xs) d =
      print_loop (i + 1) xs (print "vec[{}] = {}\n" (number i ∷ number x ∷ []) d)

  -- `testVector()`
  unfoldable pub test_vector : Demo → Result (Bool × Demo)
  test_vector d = do
    d1 ← test_start "Testing allocator with std::vector<int>" d
    (vec, a) ← push_loop 16 0 std.vector d1.allocator
    let d2 = print_loop 0 (std.elements vec) (with_allocator d1 a)
    b ← std.destroy_vector vec d2.allocator
    test_end (with_allocator d2 b)

  -- The loop of `testMap`.
  unfoldable pub print_entries : List (ℕ × String) → Demo → Demo
  print_entries [] d = d
  print_entries ((key, value) ∷ rest) d =
      print_entries rest (print "map[{}] = {}\n" (number key ∷ text value ∷ []) d)

  -- `testMap()`
  unfoldable pub test_map : Demo → Result (Bool × Demo)
  test_map d = do
    d1 ← test_start "Testing allocator with std::map<int, std::string>" d
    (m0, a0) ← std.assign std.map 0 "Great resources on modern C++:" d1.allocator
    (m1, a1) ← std.assign m0 1 "C++ Weekly - YouTube channel hosted by Jason Turner" a0
    (m2, a2) ← std.assign m1 2 "\"Effective\" books by Scott Meyers" a1
    (m3, a3) ←
        std.assign m2 3
          "C++ Core Guidelines - set of guidelines, rules, and best practices about coding in C++"
          a2
    (m4, a4) ← std.assign m3 4 "CppCast - the first podcast for C++ developers by C++ developers" a3
    let d2 = print_entries (std.entries m4) (with_allocator d1 a4)
    b ← std.destroy_map m4 d2.allocator
    test_end (with_allocator d2 b)

  -- `if (!test()) { print; return EXIT_FAILURE; }`, and what comes behind it.
  unfoldable pub unless_failed : Bool → Demo → Result (ℕ × Demo) → Result (ℕ × Demo)
  unless_failed passed d rest = if not passed then ok (1, print "FAILED\n" [] d) else rest

  -- What `appMain` does behind the initialisation.
  unfoldable pub run_tests : Ptr → Demo → Result (ℕ × Demo)
  run_tests liballocator_version d = do
    let d1 =
        print "Initialized liballocator v{}.\n\n"
          (address (Allocator.version liballocator_version) ∷ []) d
    free ← free_memory d1.allocator
    (passed, d2) ← test_smart_pointers (record d1 { initial_free_memory = free })
    unless_failed passed d2 (do
      (passed', d3) ← test_vector d2
      unless_failed passed' d3 (do
        (passed'', d4) ← test_map d3
        unless_failed passed'' d4 (ok (0, print "PASSED\n" [] d4))))

  -- `appMain`: the exit code, where `EXIT_FAILURE` is 1.
  unfoldable pub app_main : Bool → Ptr → Ptr → Ptr → Demo → Result (ℕ × Demo)
  app_main platform_init heap_min heap_max liballocator_version d =
      if not platform_init then ok (1, d) else (do
        (done, a) ← Allocator.init_range d.allocator heap_min heap_max 512
        let d1 = with_allocator d a
        (if not done
            then ok
                (1, print "FAILED\n" [] (print "error: Failed to initialize liballocator.\n" [] d1))
            else run_tests liballocator_version d1))
