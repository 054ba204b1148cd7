-- ===== src/Zone/Fields.antt =====
-- The getters of lib/Zone.cpp behind `init` and `clear`.
use liballocator.Base.{ℕ, ◌/◌, ◌≡◌, update_same}
use liballocator.Store.{Ptr, null}
use liballocator.Zone.{Zones, init, clear, page, chunk_size, chunks_count, free_chunks_count}

module _ (z : Zones) (this : Ptr) where
  init-getters :
      (p : Ptr) (page_size size : ℕ)
      → (page (init z this p page_size size) this ≡ p)
        × (chunk_size (init z this p page_size size) this ≡ size)
        × (chunks_count (init z this p page_size size) this ≡ page_size / size)
        × (free_chunks_count (init z this p page_size size) this ≡ page_size / size)
  unfolding init
  init-getters p page_size size = (
    update_same (clear z this).page this p,
    update_same (clear z this).chunk_size this size,
    update_same (clear z this).chunks_count this (page_size / size),
    update_same (clear z this).free_chunks_count this (page_size / size),
  )

  clear-getters :
      (page (clear z this) this ≡ null)
      × (chunk_size (clear z this) this ≡ 0)
      × (chunks_count (clear z this) this ≡ 0)
      × (free_chunks_count (clear z this) this ≡ 0)
  unfolding clear
  clear-getters = (
    update_same z.page this null,
    update_same z.chunk_size this 0,
    update_same z.chunks_count this 0,
    update_same z.free_chunks_count this 0,
  )
