-- ===== src/Page/Fields.antt =====
-- The getters of lib/Page.cpp behind its setters.
use liballocator.Base.{ℕ, ◌%◌, ◌^◌, ◌≡◌, ◌≢◌, refl, Bool, false, arith}
use liballocator.Store.{Ptr, Store}
use liballocator.Page.{set_address, set_group_size, set_used, init, address, group_size, is_used}

module _ (s : Store) (p : Ptr) where
  -- Each getter returns what its setter wrote, the size of the group as far as it fits the bit-field.
  getters :
      (addr n : ℕ) (value : Bool)
      → (address (set_address s p addr) p ≡ addr)
        × (group_size (set_group_size s p n) p ≡ n % 2 ^ 21)
        × (is_used (set_used s p value) p ≡ value)
  unfolding set_address set_group_size set_used
  getters addr n value = (ground arith, ground arith, ground arith)

  -- The two bit-fields do not disturb each other.
  flags_apart :
      (n : ℕ) (value : Bool) (q : Ptr)
      → (is_used (set_group_size s p n) q ≡ is_used s q)
        × (group_size (set_used s p value) q ≡ group_size s q)
  unfolding set_group_size set_used
  flags_apart n value q = (refl, refl)

  init-getters :
      (address (init s p) p ≡ 0) × (group_size (init s p) p ≡ 0) × (is_used (init s p) p ≡ false)
  unfolding init
  init-getters = (ground arith, ground arith, ground arith)

  -- Other descriptors stay as they are.
  others_stay :
      (addr n : ℕ) (value : Bool) (q : Ptr)
      → p ≢ q
      → (address (set_address s p addr) q ≡ address s q)
        × (group_size (set_group_size s p n) q ≡ group_size s q)
        × (is_used (set_used s p value) q ≡ is_used s q)
  unfolding set_address set_group_size set_used
  others_stay addr n value q ne = (ground arith, ground arith, ground arith)
