-- ===== src/Zone/Init.antt =====
-- `Zone::init`: the chunks that it makes.
use native.Mathlib.Nat.{div-le_self}
use liballocator.Base.{
  ◌≤◌, ℕ, zero, suc, ◌+◌, ◌*◌, ◌/◌, ◌^◌, ◌<◌, ◌≡◌, ◌≢◌, ◌⊎◌, inl, inr, refl, List, [], ◌∷◌, arith,
  length, count, Once, update_same,
}
use native.Mathlib.Decide.{ℕ_discrete as dec_eq}
use liballocator.Store.{Ptr, null, Links}
use liballocator.ListNode.{init_list_node, add_to_list}
use liballocator.ListNode.Chain.{IsList, Chain-frame}
use liballocator.ListNode.Add.{init_list_node-IsIdle, add_to_list-IsList}
use liballocator.Utils.{move_ptr}
use liballocator.Zone.{Zones, chunk_loop, clear, init}
use liballocator.Zone.Chunks.{IsZone}

-- The chunks that the loop of `init` puts in front of a list.
abbrev pub chunk_stack : ℕ → Ptr → ℕ → List Ptr → List Ptr
chunk_stack zero chunk size xs = xs
chunk_stack (suc n) chunk size xs = chunk_stack n (chunk + size) size (chunk ∷ xs)

-- All addresses of a list are below another one.
abbrev Below : List Ptr → Ptr → Type 0
Below xs c = (y : Ptr) → 0 < count y xs → y < c

length-chunk_stack :
    (n : ℕ) (chunk : Ptr) (size : ℕ) (xs : List Ptr)
    → length (chunk_stack n chunk size xs) ≡ n + length xs
length-chunk_stack zero chunk size xs = omega arith
length-chunk_stack (suc n) chunk size xs =
    omega (arith, length-chunk_stack n (chunk + size) size (chunk ∷ xs))

Below-next :
    (chunk size : ℕ) (xs : List Ptr) → 0 < size → Below xs chunk → Below (chunk ∷ xs) (chunk + size)
Below-next chunk size xs pos low = λ y h. ground (arith, low y)

Once-next : (chunk : ℕ) (xs : List Ptr) → Once xs → Below xs chunk → Once (chunk ∷ xs)
Once-next chunk xs once low = λ y. ground (arith, once y, low y)

Once-chunk_stack :
    (n : ℕ) (chunk : Ptr) (size : ℕ) (xs : List Ptr)
    → 0 < size
    → Once xs
    → Below xs chunk
    → Once (chunk_stack n chunk size xs)
Once-chunk_stack zero chunk size xs pos once low = once
Once-chunk_stack (suc n) chunk size xs pos once low =
    Once-chunk_stack n (chunk + size) size (chunk ∷ xs) pos (Once-next chunk xs once low)
      (Below-next chunk size xs pos low)

-- A node of the result is a chunk, or it was there before.
count-chunk_stack :
    (n : ℕ) (chunk : Ptr) (size : ℕ) (xs : List Ptr) (c : Ptr)
    → 0 < count c (chunk_stack n chunk size xs)
    → ((i : ℕ) × (i < n) × (c ≡ chunk + i * size)) ⊎ (0 < count c xs)
count-chunk_stack zero chunk size xs c h = inr h
count-chunk_stack (suc n) chunk size xs c h =
    elim (count-chunk_stack n (chunk + size) size (chunk ∷ xs) c h) [
      | inl (i, lt, e) ↦ inl (suc i, omega arith, omega arith)
      | inr at ↦ elim (dec_eq chunk c) [
        | yes e ↦ inl (0, omega arith, omega arith)
        | no other ↦ inr (ground arith)
      ]
    ]

init_list_node-other :
    (l : Links) (x y : Ptr)
    → y ≢ x
    → ((init_list_node l x).next y ≡ l.next y) × ((init_list_node l x).prev y ≡ l.prev y)
unfolding init_list_node
init_list_node-other l x y ne = ground arith

-- The loop puts them in front of a well linked list.
chunk_loop-IsList :
    (n : ℕ) (chunk : Ptr) (size : ℕ) (l : Links) (head : Ptr) (xs : List Ptr)
    → 0 < chunk
    → 0 < size
    → IsList l head xs
    → Once xs
    → Below xs chunk
    → IsList
        (chunk_loop n chunk size l head).0
        (chunk_loop n chunk size l head).1
        (chunk_stack n chunk size xs)
unfolding chunk_loop move_ptr add_to_list
chunk_loop-IsList zero chunk size l head xs here pos c once low = c
chunk_loop-IsList (suc n) chunk size l head xs here pos c once low =
    let l' = init_list_node l chunk in
    let kept : IsList l' head xs =
      Chain-frame l l' null head xs c
        λ y at. init_list_node-other l chunk y (ground (arith, low y)) in
    let out : count chunk xs ≡ 0 = ground (arith, low chunk) in
    let added =
      add_to_list-IsList l' chunk head xs kept (ground arith) out once
        (init_list_node-IsIdle l chunk) in
    chunk_loop-IsList n (chunk + size) size (add_to_list l' chunk head).0 chunk (chunk ∷ xs)
      (omega arith) pos added (Once-next chunk xs once low) (Below-next chunk size xs pos low)

-- For a page that is not at address 0, chunks of 16 bytes at least, which have room for a node, and a
-- page size that is a word, `init` cuts the page into `page_size / chunk_size` chunks, all of which are free, from the last one
-- to the first.
pub init-IsZone :
    (z : Zones) (this page : Ptr) (page_size chunk_size : ℕ)
    → 0 < z.store.address page
    → 16 ≤ chunk_size
    → page_size < 2 ^ 64
    → IsZone
        (init z this page page_size chunk_size)
        this
        (chunk_stack (page_size / chunk_size) (z.store.address page) chunk_size [])
      × ((init z this page page_size chunk_size).free_chunks_count this ≡ page_size / chunk_size)
unfolding init clear
init-IsZone z this page page_size chunk_size here room few =
    let pos : 0 < chunk_size = omega arith in
    let n = page_size / chunk_size in
    let base = z.store.address page in
    let l = init_list_node z.store.links this in
    let cleared = clear z this in
    let head = (chunk_loop n base chunk_size l null).1 in
    let all =
      chunk_loop-IsList n base chunk_size l null [] here pos refl (λ a. omega arith)
        (λ y h. omega arith) in
    (
      record {
        list = rw (update_same cleared.free_chunks this head) all;
        once = Once-chunk_stack n base chunk_size [] pos (λ a. omega arith) (λ y h. omega arith);
        counter =
            rw (update_same cleared.free_chunks_count this n)
              (omega (arith, length-chunk_stack n base chunk_size []));
        room = rw (update_same cleared.chunk_size this chunk_size) room;
        few = ground (arith, div-le_self page_size chunk_size);
        bound = ground (arith, length-chunk_stack n base chunk_size []);
        chunks = λ c h. elim (count-chunk_stack n base chunk_size [] c h) [
          | inl (i, lt, e) ↦ (i, ground arith, ground arith)
          | inr none ↦ absurd (omega arith)
        ];
      },
      ground arith,
    )
