-- ===== src/ListNode/Remove.antt =====
-- `removeFromList`: a list with a node less.
use liballocator.Base.{
  sym, ℕ, ◌<◌, ◌≡◌, refl, ◌≢◌, inl, inr, List, [], ◌∷◌, arith, ◌==◌, if◌then◌else◌, count, erase,
  Once, Apart, Bool-cases,
}
use mathlib.Core.Path.{subst}
use liballocator.Store.{Ptr, null, Links}
use liballocator.ListNode.{remove_from_list}
use liballocator.ListNode.Chain.{
  Chain, IsList, Chain-frame, count-null, count-head, count-next, count-prev,
}
use liballocator.ListNode.Add.{IsIdle}

-- The fields after a removal of a node that is not its own successor.
module _ (l : Links) (x head : Ptr) (own : l.next x ≢ x) where
  next-remove_from_list :
      (y : Ptr)
      → (remove_from_list l x head).0.next y ≡ (
          if y == x
          then null
          else if l.prev x == null
          then l.next y
          else if y == l.prev x
          then l.next x
          else l.next y)
  unfolding remove_from_list
  next-remove_from_list y = ground arith

  prev-remove_from_list :
      (y : Ptr)
      → (remove_from_list l x head).0.prev y ≡ (
          if y == x
          then null
          else if l.next x == null
          then l.prev y
          else if y == l.next x
          then l.prev x
          else l.prev y)
  unfolding remove_from_list
  prev-remove_from_list y = ground arith

  pub remove_from_list-IsIdle : IsIdle (remove_from_list l x head).0 x
  remove_from_list-IsIdle = ground (arith, next-remove_from_list x, prev-remove_from_list x)

  -- A node that is neither the removed one nor a neighbour keeps its fields.
  pub remove_from_list-other :
      (y : Ptr)
      → y ≢ x
      → (y ≢ null → y ≢ l.next x)
      → (y ≢ null → y ≢ l.prev x)
      → y ≢ null
      → ((remove_from_list l x head).0.next y ≡ l.next y)
        × ((remove_from_list l x head).0.prev y ≡ l.prev y)
  remove_from_list-other y a b c d =
      ground (arith, next-remove_from_list y, prev-remove_from_list y)

  -- The chain behind the removed node moves up.
  Chain-behind :
      (before : Ptr) (ys : List Ptr)
      → l.prev x ≡ before
      → count x ys ≡ 0
      → count before ys ≡ 0
      → Once ys
      → Chain l x (l.next x) ys
      → Chain (remove_from_list l x head).0 before (l.next x) ys
  Chain-behind before [] e out far once c = c
  Chain-behind before (y ∷ ys) e out far once (e', ny, back, rest) = (
    e',
    ny,
    ground (arith, prev-remove_from_list y),
    ground (
      arith,
      next-remove_from_list y,
      Chain-frame l (remove_from_list l x head).0 y (l.next y) ys rest λ z at.
          remove_from_list-other z (ground arith) (λ k. ground (arith, once y)) (λ k. ground arith)
            (λ k. ground (arith, count-null l y (l.next y) ys rest)),
    ),
  )

  -- The node in front of the removed one is linked past it, any other as before.
  next_skip :
      (z p : Ptr) (ws : List Ptr)
      → z ≢ null
      → Chain l z p ws
      → p ≡ l.next z
      → 0 < count x ws
      → Once ws
      → count z ws ≡ 0
      → (remove_from_list l x head).0.next z ≡ (if l.next z == x then l.next x else l.next z)
  next_skip z p [] nz c e at once far = elim at [ ]
  next_skip z p (w ∷ ws) nz (e', nw, back, rest) e at once far =
      ground (arith, next-remove_from_list z, once w, count-prev l w (l.next w) ws x rest)

  prev_kept :
      (z : Ptr) (ws : List Ptr)
      → z ≢ null
      → Chain l z (l.next z) ws
      → 0 < count x ws
      → count z ws ≡ 0
      → (remove_from_list l x head).0.prev z ≡ l.prev z
  prev_kept z ws nz c at far =
      ground (arith, prev-remove_from_list z, count-next l z (l.next z) ws x c at)

  Chain-erase :
      (before p : Ptr) (zs : List Ptr)
      → Chain l before p zs
      → 0 < count x zs
      → Once zs
      → count before zs ≡ 0
      → Chain (remove_from_list l x head).0 before (if p == x then l.next x else p) (erase x zs)
  Chain-erase before p [] c at once far = elim at [ ]
  Chain-erase before p (z ∷ zs) (e, nz, back, rest) at once far = elim (Bool-cases (z == x)) [
    | inl hit ↦
        let same : z ≡ x = ground arith in
        rw (e, hit)
          (Chain-behind before zs (ground arith) (ground (arith, once x)) (ground arith)
            (λ a. ground (arith, once a)) (subst (λ t. Chain l t (l.next t) zs) same rest))
    | inr miss ↦
        let at' : 0 < count x zs = ground arith in
        let far' : count z zs ≡ 0 = ground (arith, once z) in
        let once' : Once zs = λ a. ground (arith, once a) in
        rw (e, miss)
          (
            refl,
            nz,
            ground (arith, prev_kept z zs nz rest at' far'),
            subst (λ t. Chain (remove_from_list l x head).0 z t (erase x zs))
                (sym (next_skip z (l.next z) zs nz rest refl at' once' far'))
                (Chain-erase z (l.next z) zs rest at' once' far'),
          )
  ]

  remove_from_list-head : (if head == x then l.next x else head) ≡ (remove_from_list l x head).1
  unfolding remove_from_list
  remove_from_list-head = ground arith

-- No node of a chain is its own successor.
next-ne_self :
    (l : Links) (before p x : Ptr) (xs : List Ptr)
    → Chain l before p xs
    → 0 < count x xs
    → Once xs
    → l.next x ≢ x
next-ne_self l before p x [] c at once = elim at [ ]
next-ne_self l before p x (z ∷ zs) (e, nz, back, rest) at once = ground (
  arith,
  once z,
  count-head l z (l.next z) zs rest,
  next-ne_self l z (l.next z) x zs rest,
  λ (a : ℕ). once a,
)

module _ (l : Links) (x head : Ptr) (xs : List Ptr) (c : IsList l head xs) (at : 0 < count x xs)
    (once : Once xs) where
  pub next_ne_self : l.next x ≢ x
  next_ne_self = next-ne_self l null head x xs c at once

  -- Of a well linked list in which no node stands twice, `removeFromList` leaves a well linked list
  -- of the other nodes in their order, wherever the node stands in it.
  pub remove_from_list-IsList :
      IsList (remove_from_list l x head).0 (remove_from_list l x head).1 (erase x xs)
  remove_from_list-IsList =
      let own = next_ne_self in
      subst (λ t. IsList (remove_from_list l x head).0 t (erase x xs))
        (remove_from_list-head l x head own)
        (Chain-erase l x head own null head xs c at once (count-null l null head xs c))

  -- A node outside the list keeps its fields.
  pub remove_from_list-outside :
      (y : Ptr)
      → y ≢ null
      → count y xs ≡ 0
      → ((remove_from_list l x head).0.next y ≡ l.next y)
        × ((remove_from_list l x head).0.prev y ≡ l.prev y)
  remove_from_list-outside y ne out =
      remove_from_list-other l x head next_ne_self y (ground arith)
        (λ k e. ground (arith, count-next l null head xs x c at))
        (λ k e. ground (arith, count-prev l null head xs x c at)) ne

  -- A removal from a well linked list in which no node stands twice leaves any other list that has no
  -- node in common with it as it is.
  pub remove_from_list-Apart :
      (ys : List Ptr) (h : Ptr)
      → IsList l h ys
      → Apart xs ys
      → IsList (remove_from_list l x head).0 h ys
  remove_from_list-Apart ys h d apart =
      Chain-frame l (remove_from_list l x head).0 null h ys d λ y here.
        remove_from_list-outside y (ground (arith, count-null l null h ys d))
          (ground (arith, apart y))
