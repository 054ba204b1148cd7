-- ===== src/Store.antt =====
-- The memory that the objects of the library live in: lib/ListNode.hpp, lib/Page.hpp and
-- lib/Zone.hpp. A field of a class is a function from the address of the object. `ListNode` is the
-- first base of `Page`, `Zone` and `Chunk`, so the three share the fields `next` and `prev`.
use liballocator.Base.{ℕ, Bool}

abbrev pub Ptr : Type 0
Ptr = ℕ

abbrev pub null : Ptr
null = 0

-- The members of `ListNode<T>`, at each address.
pub record Links : Type 0 where
  pub next : Ptr → Ptr
  pub prev : Ptr → Ptr

pub record Store : Type 0 where
  pub links : Links
  pub address : Ptr → ℕ
  pub group_size : Ptr → ℕ
  pub used : Ptr → Bool
