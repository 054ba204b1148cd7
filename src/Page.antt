-- ===== src/Page.antt =====
-- lib/Page.hpp and lib/Page.cpp: page descriptors. A `Page*` is an address, and the descriptors of
-- neighbouring pages stand `page_bytes` apart.
pub mod Fields
use liballocator.Base.{ℕ, ◌+◌, ◌-◌, ◌*◌, ◌%◌, ◌^◌, Bool, false, update, ◌==◌}
use liballocator.Store.{Ptr, Store}
use liballocator.Word.{word_mod}
use liballocator.ListNode.{init_list_node}

-- `sizeof(Page)`: two pointers, an address and the flags, each a word.
abbrev pub page_bytes : ℕ
page_bytes = 32

-- `Page::isNaturallyAligned()`: the two pointers of the node, the address and the flags, without gaps
abbrev pub is_naturally_aligned : Bool
is_naturally_aligned = 2 * 8 + 8 + 8 == page_bytes

-- `page + n`; the descriptors lie inside a region, so the sum is an address.
abbrev pub page_at : Ptr → ℕ → Ptr
page_at page n = page + page_bytes * n

-- `page - n`, which wraps round below address 0
abbrev pub page_back : Ptr → ℕ → Ptr
page_back page n = (page + word_mod - page_bytes * n) % word_mod

-- `Page::nextSibling()`
abbrev pub next_sibling : Ptr → Ptr
next_sibling page = page_at page 1

-- `Page::prevSibling()`
abbrev pub prev_sibling : Ptr → Ptr
prev_sibling page = page_back page 1

-- The width of the bit-field `groupSize`.
abbrev pub group_size_mod : ℕ
group_size_mod = 2 ^ 21

-- `Page::setAddress(addr)`
unfoldable pub set_address : Store → Ptr → ℕ → Store
set_address s page addr = record s { address = update s.address page addr }

-- `Page::setGroupSize(groupSize)`
unfoldable pub set_group_size : Store → Ptr → ℕ → Store
set_group_size s page size = record s {
  group_size = update s.group_size page (size % group_size_mod);
}

-- `Page::setUsed(value)`
unfoldable pub set_used : Store → Ptr → Bool → Store
set_used s page value = record s { used = update s.used page value }

-- `Page::init()`: no links, no address, and the flags are all zero.
unfoldable pub init : Store → Ptr → Store
init s page = record s {
  links = init_list_node s.links page;
  address = update s.address page 0;
  group_size = update s.group_size page 0;
  used = update s.used page false;
}

-- `Page::address()`
abbrev pub address : Store → Ptr → ℕ
address s page = s.address page

-- `Page::groupSize()`
abbrev pub group_size : Store → Ptr → ℕ
group_size s page = s.group_size page

-- `Page::isUsed()`
abbrev pub is_used : Store → Ptr → Bool
is_used s page = s.used page
