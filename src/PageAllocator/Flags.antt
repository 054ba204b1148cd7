-- ===== src/PageAllocator/Flags.antt =====
-- The loop that sets the flag `used` of the pages of a group.
use liballocator.Base.{ℕ, zero, suc, ◌+◌, ◌≤◌, ◌<◌, ◌≡◌, refl, ◌⊎◌, Bool, arith}
use liballocator.Store.{Ptr, Store}
use liballocator.Page.{page_at, set_used}
use liballocator.PageAllocator.{set_used_loop}

module _ (g : Ptr) (v : Bool) where
  pub set_used_loop-group_size :
      (n : ℕ) (s : Store) (i : ℕ) → (set_used_loop n s g i v).group_size ≡ s.group_size
  unfolding set_used_loop
  set_used_loop-group_size zero s i = refl
  set_used_loop-group_size (suc n) s i =
      set_used_loop-group_size n (set_used s (page_at g i) v) (i + 1)

  pub set_used_loop-links : (n : ℕ) (s : Store) (i : ℕ) → (set_used_loop n s g i v).links ≡ s.links
  unfolding set_used_loop
  set_used_loop-links zero s i = refl
  set_used_loop-links (suc n) s i = set_used_loop-links n (set_used s (page_at g i) v) (i + 1)

  pub set_used_loop-address :
      (n : ℕ) (s : Store) (i : ℕ) → (set_used_loop n s g i v).address ≡ s.address
  unfolding set_used_loop
  set_used_loop-address zero s i = refl
  set_used_loop-address (suc n) s i = set_used_loop-address n (set_used s (page_at g i) v) (i + 1)

  -- Pages before the first and behind the last that the loop reaches keep the flag.
  pub set_used_loop-outside :
      (n : ℕ) (s : Store) (i x : ℕ)
      → (x < page_at g i) ⊎ (page_at g (i + n) ≤ x)
      → (set_used_loop n s g i v).used x ≡ s.used x
  unfolding set_used_loop
  set_used_loop-outside zero s i x out = refl
  set_used_loop-outside (suc n) s i x out =
      ground (arith, set_used_loop-outside n (set_used s (page_at g i) v) (i + 1) x)

  pub set_used_loop-inside :
      (n : ℕ) (s : Store) (i k : ℕ)
      → i ≤ k
      → k < i + n
      → (set_used_loop n s g i v).used (page_at g k) ≡ v
  unfolding set_used_loop
  set_used_loop-inside zero s i k h lt = absurd (omega arith)
  set_used_loop-inside (suc n) s i k h lt = ground (
    arith,
    set_used_loop-inside n (set_used s (page_at g i) v) (i + 1) k,
    set_used_loop-outside n (set_used s (page_at g i) v) (i + 1) (page_at g i),
  )
