-- ===== src/Zone/Chunks.antt =====
-- The free chunks of a zone as a list of addresses: `takeChunk`, `giveChunk`, `isValidChunk`.
use liballocator.Base.{
  ℕ, zero, suc, ◌+◌, ◌-◌, ◌*◌, ◌^◌, ◌≤◌, ◌<◌, ◌≡◌, ◌≢◌, ◌↔◌, inl, inr, refl, sym, ap, true, List,
  ◌∷◌, arith, length, update_same, count, erase, Once, ◌==◌, Bool-cases,
}
use mathlib.Core.Path.{subst}
use mathlib.Core.Bool.{true≢false}
use native.Mathlib.Decide.{ℕ_discrete as dec_eq}
use liballocator.Store.{Ptr, null}
use liballocator.ListNode.{add_to_list, remove_from_list}
use liballocator.ListNode.Chain.{IsList}
use liballocator.ListNode.Add.{IsIdle, add_to_list-IsList}
use liballocator.ListNode.Remove.{remove_from_list-IsList, remove_from_list-IsIdle, next_ne_self}
use liballocator.Utils.{move_ptr}
use liballocator.Zone.{Zones, take_chunk, give_chunk, valid_loop, is_valid_chunk}

-- The address is that of a chunk of the zone.
abbrev pub IsChunk : Zones → Ptr → Ptr → Type 0
IsChunk z this c =
    (i : ℕ) × (i < z.chunks_count this)
    × (c ≡ z.store.address (z.page this) + i * z.chunk_size this)

-- The free list holds the chunks `xs`, each once, and the counter is their number. A chunk has room for
-- the two pointers of its node, so that no two nodes overlap.
pub record IsZone (z : Zones) (this : Ptr) (xs : List Ptr) : Type 0 where
  pub list : IsList z.store.links (z.free_chunks this) xs
  pub once : Once xs
  pub counter : z.free_chunks_count this ≡ length xs
  pub room : 16 ≤ z.chunk_size this
  pub few : z.chunks_count this < 2 ^ 64
  pub bound : length xs ≤ z.chunks_count this
  pub chunks : (c : Ptr) → 0 < count c xs → IsChunk z this c

erase_first : (x : Ptr) (xs : List Ptr) → erase x (x ∷ xs) ≡ xs
erase_first x xs = ground arith

-- From a zone with a free chunk and with chunks of 16 bytes at least, `takeChunk` returns the first one,
-- without links, and leaves the others free.
pub take_chunk-IsZone :
    (z : Zones) (this x : Ptr) (xs : List Ptr)
    → IsZone z this (x ∷ xs)
    → ((take_chunk z this).0 ≡ x)
      × IsIdle (take_chunk z this).1.store.links x
      × IsZone (take_chunk z this).1 this xs
unfolding take_chunk
take_chunk-IsZone z this x xs w =
    let l = z.store.links in
    let (head, ne, back, rest) = w.list in
    let whole : IsList l x (x ∷ xs) = (refl, ne, back, rest) in
    let at : 0 < count x (x ∷ xs) = ground arith in
    let removed =
      subst (λ t. IsList (remove_from_list l x x).0 (remove_from_list l x x).1 t) (erase_first x xs)
        (remove_from_list-IsList l x x (x ∷ xs) whole at w.once) in
    rw head (
      refl,
      remove_from_list-IsIdle l x x (next_ne_self l x x (x ∷ xs) whole at w.once),
      record {
        list = rw (update_same z.free_chunks this (remove_from_list l x x).1) removed;
        once = λ a. ground (arith, w.once a);
        counter = ground (arith, w.counter, w.few, w.bound);
        room = w.room;
        few = w.few;
        bound = omega (arith, w.bound);
        chunks = λ c h. w.chunks c (ground arith);
      },
    )

-- `giveChunk` of a chunk of a zone with chunks of 16 bytes at least, which is not free, not at address 0
-- and has no links, where fewer than all chunks are free, puts it in front of the free ones.
pub give_chunk-IsZone :
    (z : Zones) (this c : Ptr) (xs : List Ptr)
    → IsZone z this xs
    → IsChunk z this c
    → c ≢ null
    → count c xs ≡ 0
    → IsIdle z.store.links c
    → length xs < z.chunks_count this
    → IsZone (give_chunk z this c) this (c ∷ xs)
unfolding give_chunk add_to_list
give_chunk-IsZone z this c xs w valid ne out idle room =
    let l = z.store.links in
    let head = z.free_chunks this in
    let added = add_to_list-IsList l c head xs w.list ne out w.once idle in
    record {
      list = rw (update_same z.free_chunks this c) added;
      once = λ a. ground (arith, w.once a);
      counter = ground (arith, w.counter, w.few, room);
      room = w.room;
      few = w.few;
      bound = omega (arith, room);
      chunks = λ d h. elim (dec_eq c d) [
        | yes e ↦ subst (IsChunk z this) e valid
        | no other ↦ w.chunks d (ground arith)
      ];
    }

step_back : (i size : ℕ) → 0 < i → i * size ≡ size + (i - 1) * size
step_back zero size pos = absurd (omega arith)
step_back (suc i) size pos =
    let back : suc i - 1 ≡ i = omega arith in omega (arith, ap (λ t. t * size) back)

valid_loop_iff :
    (n it size c : ℕ) → (valid_loop n it size c ≡ true) ↔ ((i : ℕ) × (i < n) × (c ≡ it + i * size))
unfolding valid_loop move_ptr
valid_loop_iff zero it size c =
    (λ e. absurd (true≢false (sym e)), λ (i, lt, e). absurd (omega arith))
valid_loop_iff (suc n) it size c = elim (Bool-cases (it == c)) [
  | inl hit ↦ rw hit (λ _. (0, omega arith, ground arith), λ _. refl)
  | inr miss ↦
      let behind = valid_loop_iff n (it + size) size c in
      rw miss (
        λ e. let (i, lt, at) = behind.0 e in (suc i, omega arith, omega arith),
        λ (i, lt, at).
            let pos : 0 < i = elim (dec_eq i 0) [
              | yes e ↦ absurd (ground (arith, ap (λ t. t * size) e))
              | no ne ↦ omega arith
            ] in
            behind.1 (i - 1, omega arith, omega (arith, step_back i size pos)),
      )
]

-- `isValidChunk` accepts exactly the addresses of the chunks of the zone.
pub is_valid_chunk_iff :
    (z : Zones) (this c : Ptr) → (is_valid_chunk z this c ≡ true) ↔ IsChunk z this c
unfolding is_valid_chunk
is_valid_chunk_iff z this c =
    valid_loop_iff (z.chunks_count this) (z.store.address (z.page this)) (z.chunk_size this) c
