-- ===== src/ListNode/Add.antt =====
-- `initListNode` and `addToList`: a list with a node more.
use liballocator.Base.{◌≡◌, refl, ◌≢◌, List, [], ◌∷◌, arith, count, Once, Apart}
use liballocator.Store.{Ptr, null, Links}
use liballocator.ListNode.{init_list_node, add_to_list}
use liballocator.ListNode.Chain.{IsList, Chain-frame, count-null, count-head}

-- A node in no list.
abbrev pub IsIdle : Links → Ptr → Type 0
IsIdle l x = (l.next x ≡ null) × (l.prev x ≡ null)

pub init_list_node-IsIdle : (l : Links) (x : Ptr) → IsIdle (init_list_node l x) x
unfolding init_list_node
init_list_node-IsIdle l x = ground arith

module _ (l : Links) (x head : Ptr) where
  -- The fields of a node other than the new one and the old head stay.
  pub add_to_list-other :
      (y : Ptr)
      → y ≢ x
      → ((add_to_list l x head).0.next y ≡ l.next y)
        × (y ≢ head → (add_to_list l x head).0.prev y ≡ l.prev y)
  unfolding add_to_list
  add_to_list-other y ne = ground arith

  pub add_to_list-head : (add_to_list l x head).1 ≡ x
  unfolding add_to_list
  add_to_list-head = refl

  -- `addToList` puts a node without links that is not in the list in front of a well linked list in
  -- which no node stands twice.
  pub add_to_list-IsList :
      (xs : List Ptr)
      → IsList l head xs
      → x ≢ null
      → count x xs ≡ 0
      → Once xs
      → IsIdle l x
      → IsList (add_to_list l x head).0 x (x ∷ xs)
  unfolding add_to_list
  add_to_list-IsList [] c ne out once idle = ground arith
  add_to_list-IsList (y ∷ ys) (e, ny, back, rest) ne out once idle = (
    refl,
    ne,
    ground arith,
    (
      ground arith,
      ny,
      ground arith,
      ground (
        arith,
        once y,
        Chain-frame l (add_to_list l x head).0 y (l.next y) ys rest (λ z h. ground (arith, once y)),
      ),
    ),
  )

  -- Every other list stays.
  pub add_to_list-Apart :
      (xs ys : List Ptr) (h : Ptr)
      → IsList l head xs
      → IsList l h ys
      → count x ys ≡ 0
      → Apart xs ys
      → IsList (add_to_list l x head).0 h ys
  add_to_list-Apart xs ys h c d out apart =
      Chain-frame l (add_to_list l x head).0 null h ys d λ y at.
        let (n, p) = add_to_list-other y (λ e. ground arith) in
        (n, p λ e. ground (arith, apart y, count-null l null h ys d, count-head l null head xs c))
