-- ===== src/Examples/Nodes.antt =====
-- Tests of the lists, of the sizes of groups and of the functions on words.
use mathlib.Core.Logic.{◌↔◌}
use liballocator.Base.{
  ℕ, suc, ◌^◌, ◌≤◌, ◌<◌, ◌≡◌, refl, true, [], ◌∷◌, arith, ◌==◌, if◌then◌else◌, erase, Once,
}
use liballocator.Store.{null, Links}
use liballocator.ListNode.{add_to_list, remove_from_list}
use liballocator.ListNode.Chain.{IsList}
use liballocator.ListNode.Add.{add_to_list-IsList}
use liballocator.ListNode.Remove.{remove_from_list-IsList}
use liballocator.Group.{floor_log2}
use liballocator.Group.Index.{floor_log2_bounds}
use liballocator.Utils.{is_power_of2}
use liballocator.Utils.Power.{is_power_of2_iff}

-- The list 32, 64, 96, and the list 128.
abbrev three : Links
three = record {
  next = λ p. if p == 32 then 64 else if p == 64 then 96 else null;
  prev = λ p. if p == 64 then 32 else if p == 96 then 64 else null;
}

three-IsList : IsList three 32 (32 ∷ 64 ∷ 96 ∷ [])
three-IsList = ground arith

three-Once : Once (32 ∷ 64 ∷ 96 ∷ [])
three-Once = λ a. ground arith

remove_from_list-IsList_example :
    IsList
      (remove_from_list three 64 32).0
      (remove_from_list three 64 32).1
      (erase 64 (32 ∷ 64 ∷ 96 ∷ []))
remove_from_list-IsList_example =
    remove_from_list-IsList three 64 32 (32 ∷ 64 ∷ 96 ∷ []) three-IsList (omega arith) three-Once

add_to_list-IsList_example : IsList (add_to_list three 160 32).0 160 (160 ∷ 32 ∷ 64 ∷ 96 ∷ [])
add_to_list-IsList_example =
    add_to_list-IsList three 160 32 (32 ∷ 64 ∷ 96 ∷ []) three-IsList (ground arith) refl three-Once
      (refl, refl)

is_power_of2_iff_example : (is_power_of2 4096 ≡ true) ↔ ((k : ℕ) × (4096 ≡ 2 ^ k))
is_power_of2_iff_example = is_power_of2_iff 4096 (omega arith)

floor_log2_bounds_example : (2 ^ floor_log2 100 ≤ 100) × (100 < 2 ^ suc (floor_log2 100))
floor_log2_bounds_example = floor_log2_bounds 100 (omega arith)
