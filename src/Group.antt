-- ===== src/Group.antt =====
-- lib/group.hpp and lib/group.cpp: groups of neighbouring pages. The size of a group stands in its
-- first and in its last descriptor.
pub mod Index
pub mod Sizes
pub mod Contract
use liballocator.Base.{ℕ, zero, suc, ◌+◌, ◌-◌, ◌/◌, ◌==◌, ltb, if◌then◌else◌}
use liballocator.Store.{Ptr, null, Store}
use liballocator.Page.{page_at, page_back, set_group_size}

-- `std::floor(std::log2(n))` for a positive integer: the rounds of halving that it takes to reach 1.
unfoldable pub log2_loop : ℕ → ℕ → ℕ
log2_loop zero n = 0
log2_loop (suc fuel) n = let rest = log2_loop fuel (n / 2) in if ltb n 2 then 0 else suc rest

unfoldable pub floor_log2 : ℕ → ℕ
unfolding log2_loop
floor_log2 n = log2_loop n n

-- `groupIdx(pageCount)`
unfoldable pub group_idx : ℕ → ℕ
unfolding floor_log2
group_idx page_count = if ltb page_count 2 then 0 else floor_log2 page_count - 1

-- `group + groupSize - 1`
abbrev pub last_page : Ptr → ℕ → Ptr
last_page group size = page_back (page_at group size) 1

-- `initGroup(group, groupSize)`
unfoldable pub init_group : Store → Ptr → ℕ → Store
unfolding set_group_size
init_group s group size = set_group_size (set_group_size s group size) (last_page group size) size

-- `clearGroup(group)`
unfoldable pub clear_group : Store → Ptr → Store
unfolding set_group_size
clear_group s group =
    set_group_size (set_group_size s group 0) (last_page group (s.group_size group)) 0

-- `splitGroup(group, size)`: the memory, and the two groups. The second is null if the group has the
-- demanded size.
unfoldable pub split_group : Store → Ptr → ℕ → Store × Ptr × Ptr
unfolding init_group clear_group
split_group s group size =
    let whole = s.group_size group in
    if size == whole then (s, group, null) else (
      init_group (init_group (clear_group s group) group size) (page_at group size) (whole - size),
      group,
      page_at group size,
    )

-- `joinGroup(firstGroup, secondGroup)`: the memory; the function returns its first argument.
unfoldable pub join_group : Store → Ptr → Ptr → Store
unfolding init_group clear_group
join_group s first second =
    let joined = s.group_size first + s.group_size second in
    init_group (clear_group (clear_group s first) second) first joined
