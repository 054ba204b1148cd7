-- ===== src/Group/Sizes.antt =====
-- The sizes that `initGroup`, `clearGroup`, `splitGroup` and `joinGroup` leave in the descriptors.
use liballocator.Base.{ℕ, ◌+◌, ◌-◌, ◌*◌, ◌^◌, ◌≤◌, ◌<◌, ◌≡◌, refl, ◌⊎◌, arith, ◌==◌, if◌then◌else◌}
use liballocator.Store.{Ptr, Store}
use liballocator.Page.{page_at}
use liballocator.Group.{last_page, init_group, clear_group, split_group, join_group}

pub last_page-eq :
    (g : Ptr) (n : ℕ) → 0 < n → page_at g n < 2 ^ 64 → last_page g n ≡ g + 32 * n - 32
last_page-eq g n pos h = omega arith

module _ (s : Store) (g : Ptr) (n : ℕ) (pos : 0 < n) (small : n < 2 ^ 21)
    (high : page_at g n < 2 ^ 64) where
  pub group_size-init_group :
      (x : Ptr)
      → (init_group s g n).group_size x
        ≡ (if x == g + 32 * n - 32 then n else if x == g then n else s.group_size x)
  unfolding init_group
  group_size-init_group x = rw (last_page-eq g n pos high) (ground arith)

module _ (s : Store) (g : Ptr) (pos : 0 < s.group_size g)
    (high : page_at g (s.group_size g) < 2 ^ 64) where
  pub group_size-clear_group :
      (x : Ptr)
      → (clear_group s g).group_size x
        ≡ (if x == g + 32 * s.group_size g - 32 then 0 else if x == g then 0 else s.group_size x)
  unfolding clear_group
  group_size-clear_group x = rw (last_page-eq g (s.group_size g) pos high) (ground arith)

module _ (s : Store) (g : Ptr) (n : ℕ) where
  pub init_group-used : (init_group s g n).used ≡ s.used
  unfolding init_group
  init_group-used = refl

-- `splitGroup` and `joinGroup` write nothing but sizes.
pub split_group-used :
    (s : Store) (g : Ptr) (n : ℕ)
    → ((split_group s g n).0.used ≡ s.used)
      × ((split_group s g n).0.links ≡ s.links)
      × ((split_group s g n).0.address ≡ s.address)
unfolding split_group
split_group-used s g n = ground arith

pub join_group-used :
    (s : Store) (g h : Ptr)
    → ((join_group s g h).used ≡ s.used)
      × ((join_group s g h).links ≡ s.links)
      × ((join_group s g h).address ≡ s.address)
unfolding join_group
join_group-used s g h = (refl, refl, refl)

-- Both parts have their sizes, and nothing outside the group changes.
pub record IsSplit (s s' : Store) (g : Ptr) (n m : ℕ) : Type 0 where
  pub first : s'.group_size g ≡ n
  pub first_last : s'.group_size (g + 32 * n - 32) ≡ n
  pub second : s'.group_size (page_at g n) ≡ m
  pub second_last : s'.group_size (page_at g n + 32 * m - 32) ≡ m
  pub outside : (x : Ptr) → (x < g) ⊎ (page_at g (n + m) ≤ x) → s'.group_size x ≡ s.group_size x

module _ (s : Store) (g : Ptr) (n m : ℕ) (pos : 0 < n) (pos' : 0 < m) (small : n + m < 2 ^ 21)
    (high : page_at g (n + m) < 2 ^ 64) where
  module _ (e : s.group_size g ≡ n + m) where
    -- `splitGroup` inside a group returns both parts.
    pub split_group-parts :
        split_group s g n
        ≡ (init_group (init_group (clear_group s g) g n) (page_at g n) (n + m - n), g, page_at g n)
    unfolding split_group
    split_group-parts = rw e (ground arith)

    split_sizes :
        (x : Ptr)
        → (split_group s g n).0.group_size x ≡ (
            if x == g + 32 * (n + m) - 32
            then m
            else if x == page_at g n
            then m
            else if x == g + 32 * n - 32
            then n
            else if x == g
            then n
            else s.group_size x)
    split_sizes x =
        let c = clear_group s g in
        let one = init_group c g n in
        let left : n + m - n ≡ m = omega arith in
        rw (split_group-parts, left)
          (ground (
            arith,
            e,
            group_size-init_group one (page_at g n) m pos' (omega arith) (omega arith) x,
            group_size-init_group c g n pos (omega arith) (omega arith) x,
            group_size-clear_group s g (omega (arith, e)) (omega (arith, e)) x,
          ))

    -- Inside a group of `n + m` pages, less than `2 ^ 21`, `splitGroup` makes groups of `n` and of `m`
    -- pages, with the sizes in the first and in the last pages of both. Nothing outside the group
    -- changes.
    pub split_group-IsSplit : IsSplit s (split_group s g n).0 g n m
    split_group-IsSplit = record {
      first = ground (arith, split_sizes g);
      first_last = ground (arith, split_sizes (g + 32 * n - 32));
      second = ground (arith, split_sizes (page_at g n));
      second_last = ground (arith, split_sizes (page_at g n + 32 * m - 32));
      outside = λ x h. ground (arith, split_sizes x);
    }

  module _ (e : s.group_size g ≡ n) (e' : s.group_size (page_at g n) ≡ m) where
    join_group-parts :
        join_group s g (page_at g n)
        ≡ init_group (clear_group (clear_group s g) (page_at g n)) g (n + m)
    unfolding join_group
    join_group-parts = rw (e, e')

    -- Of two neighbouring groups of `n` and `m` pages, with `n + m` less than `2 ^ 21`, `joinGroup`
    -- makes one whose first and last pages have the size `n + m`. Nothing outside it changes.
    pub group_size-join_group :
        (x : Ptr)
        → (x < g) ⊎ (x ≡ g) ⊎ (x ≡ g + 32 * (n + m) - 32) ⊎ (page_at g (n + m) ≤ x)
        → (join_group s g (page_at g n)).group_size x
          ≡ (if x == g + 32 * (n + m) - 32 then n + m else if x == g then n + m else s.group_size x)
    group_size-join_group x at =
        let h = page_at g n in
        let c = clear_group s g in
        let sizes = group_size-clear_group s g (omega (arith, e)) (omega (arith, e)) in
        let size : c.group_size h ≡ m = ground (arith, e, e', sizes h) in
        rw join_group-parts (
          ground (
            arith,
            e,
            sizes x,
            group_size-clear_group c h (omega (arith, size)) (omega (arith, size)) x,
            size,
            group_size-init_group (clear_group c h) g (n + m) (omega arith) small high x,
          ))
