-- ===== src/Examples/Pages.antt =====
-- Tests of `allocate`, `release` and the operations on groups, on the four pages of the parent module.
use liballocator.Base.{◌<◌, ◌≡◌, refl, inl, true, false, some, [], ◌∷◌, arith, ◌⊎◌}
use liballocator.Store.{Ptr, null}
use liballocator.Page.{page_at}
use liballocator.Group.{group_idx, floor_log2, log2_loop, split_group, join_group}
use liballocator.PageAllocator.{
  PageAllocator, allocate, release, find_group, find_in_list, take_group, add_group, remove_group,
}
use liballocator.PageAllocator.Invariant.{Inv}
use liballocator.PageAllocator.Remove.{marked, unlisted, remove_group-Inv}
use liballocator.PageAllocator.Add.{listed, add_group-Inv}
use liballocator.PageAllocator.Split.{used_block, split_group-Inv, join_group-Inv}
use liballocator.PageAllocator.Search.{FindsFrom, find_group-FindsFrom}
use liballocator.PageAllocator.Allocate.{TooSmall, Succeeds, allocate_lem}
use liballocator.PageAllocator.Release.{ReleasesTo, Released, release_lem}
use liballocator.PageAllocator.Live.{Sound}
use liballocator.PageAllocator.History.{Reach, allocated, start, call, Reach-Sound, Reach-release}
use liballocator.Examples.{four, four_blocks, four_lists, free_three, four-Inv}

-- The state after `allocate(2)`.
abbrev after : PageAllocator
after = take_group four 4128 2

four-allocate : allocate four 2 ≡ some (page_at four.pages_head 1, after)
unfolding allocate find_group find_in_list group_idx floor_log2 log2_loop
four-allocate = refl

four-Reach : Reach four after ((1, 2) ∷ [])
four-Reach = call start (allocated 2 1 four-allocate (ground arith))

allocate_lem_example :
    ((allocate four 2 ≡ some (null, four)) × (0 < 2 → TooSmall four_blocks 2))
    ⊎ Succeeds four four_blocks 2 (allocate four 2)
allocate_lem_example = allocate_lem four four_blocks four_lists four-Inv 2

release_lem_example : ReleasesTo four four_blocks 0 1 (release four (page_at four.pages_head 0))
release_lem_example = release_lem four four_blocks four_lists 0 1 four-Inv (inl refl)

Reach-Sound_example : Sound after ((1, 2) ∷ [])
Reach-Sound_example =
    Reach-Sound four after ((1, 2) ∷ []) (four_blocks, four_lists, four-Inv) four-Reach

Reach-release_example :
    (a' : PageAllocator) × (release after (page_at after.pages_head 1) ≡ some a')
    × Released after a' 1 2
Reach-release_example =
    Reach-release four after [] [] 1 2 (four_blocks, four_lists, four-Inv) four-Reach

remove_group-Inv_example :
    Inv
      (remove_group four 4128)
      (used_block 4096 1 ∷ marked free_three false ∷ [])
      (unlisted four_lists free_three)
remove_group-Inv_example =
    remove_group-Inv four (used_block 4096 1 ∷ []) [] free_three four_lists four-Inv refl

add_group-Inv_example :
    Inv
      (add_group four 4096)
      (marked (used_block 4096 1) true ∷ free_three ∷ [])
      (listed four_lists (used_block 4096 1))
add_group-Inv_example =
    add_group-Inv four [] (free_three ∷ []) (used_block 4096 1) four_lists four-Inv refl

-- The state with the free group taken.
abbrev taken : PageAllocator
taken = remove_group four 4128

taken-Inv : Inv taken (used_block 4096 1 ∷ used_block 4128 3 ∷ []) (unlisted four_lists free_three)
taken-Inv = remove_group-Inv four (used_block 4096 1 ∷ []) [] free_three four_lists four-Inv refl

split_group-Inv_example :
    Inv
      (record taken { store = (split_group taken.store 4128 1).0 })
      (used_block 4096 1 ∷ used_block 4128 1 ∷ used_block (page_at 4128 1) 2 ∷ [])
      (unlisted four_lists free_three)
split_group-Inv_example =
    split_group-Inv taken (used_block 4096 1 ∷ []) [] 4128 1 2 (unlisted four_lists free_three)
      (omega arith) (omega arith) taken-Inv

join_group-Inv_example :
    Inv
      (record taken { store = join_group taken.store 4096 4128 })
      (used_block 4096 4 ∷ [])
      (unlisted four_lists free_three)
join_group-Inv_example =
    join_group-Inv taken [] [] 4096 1 3 (unlisted four_lists free_three) (omega arith) (omega arith)
      taken-Inv

find_group-FindsFrom_example :
    (g : Ptr) × (find_group 20 5 0 four 2 ≡ some g)
    × FindsFrom four four_blocks four_lists four-Inv 20 0 2 g
find_group-FindsFrom_example = find_group-FindsFrom four four_blocks four_lists four-Inv 20 0 2
