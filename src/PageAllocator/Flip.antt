-- ===== src/PageAllocator/Flip.antt =====
-- `addGroup` and `removeGroup`, field by field.
use liballocator.Base.{ℕ, ◌≤◌, ◌<◌, ◌≡◌, refl, ◌∙◌, ◌⊎◌, true, false, arith, update}
use liballocator.Store.{Ptr, Store}
use liballocator.Word.{add, sub}
use liballocator.Page.{page_at}
use liballocator.ListNode.{add_to_list, remove_from_list}
use liballocator.Group.{group_idx}
use liballocator.PageAllocator.{PageAllocator, add_group, remove_group}
use liballocator.PageAllocator.Flags.{
  set_used_loop-group_size, set_used_loop-links, set_used_loop-address, set_used_loop-outside,
  set_used_loop-inside,
}

-- What no operation behind `init` changes: the regions, the descriptors and their addresses.
pub record SameLayout (a a' : PageAllocator) : Type 0 where
  pub head : a'.pages_head ≡ a.pages_head
  pub tail : a'.pages_tail ≡ a.pages_tail
  pub count : a'.pages_count ≡ a.pages_count
  pub page_size : a'.page_size ≡ a.page_size
  pub regions : a'.regions_info ≡ a.regions_info
  pub valid_regions : a'.valid_regions_count ≡ a.valid_regions_count
  pub desc_pages : a'.desc_pages_count ≡ a.desc_pages_count
  pub address : a'.store.address ≡ a.store.address

-- A change of the lists, the counter and the memory that keeps the addresses.
SameLayout-fields :
    (a : PageAllocator) (f : ℕ → Ptr) (n : ℕ) (s : Store)
    → s.address ≡ a.store.address
    → SameLayout a (record a { free_group_lists = f; free_pages_count = n; store = s })
SameLayout-fields a f n s e = record {
  head = refl;
  tail = refl;
  count = refl;
  page_size = refl;
  regions = refl;
  valid_regions = refl;
  desc_pages = refl;
  address = e;
}

pub SameLayout-refl : (a : PageAllocator) → SameLayout a a
SameLayout-refl a = SameLayout-fields a a.free_group_lists a.free_pages_count a.store refl

pub SameLayout-trans : (a b c : PageAllocator) → SameLayout a b → SameLayout b c → SameLayout a c
SameLayout-trans a b c u v = record {
  head = v.head ∙ u.head;
  tail = v.tail ∙ u.tail;
  count = v.count ∙ u.count;
  page_size = v.page_size ∙ u.page_size;
  regions = v.regions ∙ u.regions;
  valid_regions = v.valid_regions ∙ u.valid_regions;
  desc_pages = v.desc_pages ∙ u.desc_pages;
  address = v.address ∙ u.address;
}

pub SameLayout-store :
    (a : PageAllocator) (s : Store)
    → s.address ≡ a.store.address
    → SameLayout a (record a { store = s })
SameLayout-store a s e = SameLayout-fields a a.free_group_lists a.free_pages_count s e

module _ (a : PageAllocator) (g : Ptr) where
  pub remove_group-group_size : (remove_group a g).store.group_size ≡ a.store.group_size
  unfolding remove_group
  remove_group-group_size = set_used_loop-group_size g true (a.store.group_size g) _ 0

  pub remove_group-SameLayout : SameLayout a (remove_group a g)
  unfolding remove_group
  remove_group-SameLayout =
      SameLayout-fields a _ _ _ (set_used_loop-address g true (a.store.group_size g) _ 0)

  pub add_group-group_size : (add_group a g).store.group_size ≡ a.store.group_size
  unfolding add_group
  add_group-group_size = set_used_loop-group_size g false (a.store.group_size g) _ 0

  pub add_group-SameLayout : SameLayout a (add_group a g)
  unfolding add_group
  add_group-SameLayout =
      SameLayout-fields a _ _ _ (set_used_loop-address g false (a.store.group_size g) _ 0)

  module _ (size : ℕ) (e : a.store.group_size g ≡ size) where
    pub remove_group-links :
        (remove_group a g).store.links
        ≡ (remove_from_list a.store.links g (a.free_group_lists (group_idx size))).0
    unfolding remove_group
    remove_group-links = rw (← e) (set_used_loop-links g true (a.store.group_size g) _ 0)

    pub remove_group-lists :
        (remove_group a g).free_group_lists
        ≡ update a.free_group_lists
            (group_idx size)
            (remove_from_list a.store.links g (a.free_group_lists (group_idx size))).1
    unfolding remove_group
    remove_group-lists = rw (← e)

    pub remove_group-free : (remove_group a g).free_pages_count ≡ sub a.free_pages_count size
    unfolding remove_group
    remove_group-free = rw (← e)

    pub remove_group-inside :
        (k : ℕ) → k < size → (remove_group a g).store.used (page_at g k) ≡ true
    unfolding remove_group
    remove_group-inside k h =
        set_used_loop-inside g true (a.store.group_size g) _ 0 k (omega arith) (omega arith)

    pub remove_group-outside :
        (x : Ptr)
        → (x < g) ⊎ (page_at g size ≤ x)
        → (remove_group a g).store.used x ≡ a.store.used x
    unfolding remove_group
    remove_group-outside x h =
        set_used_loop-outside g true (a.store.group_size g) _ 0 x (omega arith)

    pub add_group-links :
        (add_group a g).store.links
        ≡ (add_to_list a.store.links g (a.free_group_lists (group_idx size))).0
    unfolding add_group
    add_group-links = rw (← e) (set_used_loop-links g false (a.store.group_size g) _ 0)

    pub add_group-lists :
        (add_group a g).free_group_lists
        ≡ update a.free_group_lists
            (group_idx size)
            (add_to_list a.store.links g (a.free_group_lists (group_idx size))).1
    unfolding add_group
    add_group-lists = rw (← e)

    pub add_group-free : (add_group a g).free_pages_count ≡ add a.free_pages_count size
    unfolding add_group
    add_group-free = rw (← e)

    pub add_group-inside : (k : ℕ) → k < size → (add_group a g).store.used (page_at g k) ≡ false
    unfolding add_group
    add_group-inside k h =
        set_used_loop-inside g false (a.store.group_size g) _ 0 k (omega arith) (omega arith)

    pub add_group-outside :
        (x : Ptr) → (x < g) ⊎ (page_at g size ≤ x) → (add_group a g).store.used x ≡ a.store.used x
    unfolding add_group
    add_group-outside x h = set_used_loop-outside g false (a.store.group_size g) _ 0 x (omega arith)
