-- ===== src/ListNode.antt =====
-- lib/ListNode.hpp: the intrusive doubly linked list. A node is an address, and a list is the
-- pointer to its first node.
pub mod Chain
pub mod Add
pub mod Remove
use liballocator.Base.{◌==◌, if◌then◌else◌, update}
use liballocator.Store.{Ptr, null, Links}

-- `initListNode()`
unfoldable pub init_list_node : Links → Ptr → Links
init_list_node l this = record { next = update l.next this null; prev = update l.prev this null }

-- `addToList(list)`: the fields afterwards, and the new value of `*list`.
unfoldable pub add_to_list : Links → Ptr → Ptr → Links × Ptr
add_to_list l this head = (
  if head == null
      then l
      else record { next = update l.next this head; prev = update l.prev head this },
  this,
)

-- `if (m_next) m_next->m_prev = m_prev;`
unfoldable pub unlink_next : Links → Ptr → Links
unlink_next l this =
    if l.next this == null then l else record l { prev = update l.prev (l.next this) (l.prev this) }

-- `if (m_prev) m_prev->m_next = m_next;`
unfoldable pub unlink_prev : Links → Ptr → Links
unlink_prev l this =
    if l.prev this == null then l else record l { next = update l.next (l.prev this) (l.next this) }

-- `removeFromList(list)`: the fields afterwards, and the new value of `*list`.
unfoldable pub remove_from_list : Links → Ptr → Ptr → Links × Ptr
unfolding unlink_next unlink_prev init_list_node
remove_from_list l this head =
    let l' = unlink_prev (unlink_next l this) this in
    (init_list_node l' this, if head == this then l'.next this else head)
