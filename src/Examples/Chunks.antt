-- ===== src/Examples/Chunks.antt =====
-- Tests of the operations of a zone: a page of 128 bytes at address 4224, in chunks of 32 bytes.
use liballocator.Base.{◌<◌, ◌≡◌, ◌↔◌, refl, true, update, [], ◌∷◌, arith}
use liballocator.Store.{null}
use liballocator.ListNode.Add.{IsIdle}
use liballocator.Zone.{Zones, set_links, init, clear, take_chunk, give_chunk, is_valid_chunk}
use liballocator.Zone.Chunks.{
  IsChunk, IsZone, take_chunk-IsZone, give_chunk-IsZone, is_valid_chunk_iff,
}
use liballocator.Zone.History.{
  ChunkReach, start, call, taken, given, written, unlinked, Served, init-Served,
}
use liballocator.Zone.Init.{chunk_stack, init-IsZone}
use liballocator.Examples.{four_store}

abbrev no_zones : Zones
no_zones = record {
  store = four_store;
  page = λ z. null;
  chunk_size = λ z. 0;
  chunks_count = λ z. 0;
  free_chunks_count = λ z. 0;
  free_chunks = λ z. null;
}

abbrev zone : Zones
zone = init no_zones 8192 4128 128 32

init-IsZone_example :
    IsZone zone 8192 (chunk_stack 4 4224 32 []) × (zone.free_chunks_count 8192 ≡ 4)
init-IsZone_example =
    init-IsZone no_zones 8192 4128 128 32 (omega arith) (omega arith) (omega arith)

zone-IsZone : IsZone zone 8192 (4320 ∷ 4288 ∷ 4256 ∷ 4224 ∷ [])
zone-IsZone = (init-IsZone no_zones 8192 4128 128 32 (omega arith) (omega arith) (omega arith)).0

take_chunk-IsZone_example :
    ((take_chunk zone 8192).0 ≡ 4320)
    × IsIdle (take_chunk zone 8192).1.store.links 4320
    × IsZone (take_chunk zone 8192).1 8192 (4288 ∷ 4256 ∷ 4224 ∷ [])
take_chunk-IsZone_example = take_chunk-IsZone zone 8192 4320 (4288 ∷ 4256 ∷ 4224 ∷ []) zone-IsZone

-- The zone with one chunk taken.
abbrev one_taken : Zones
one_taken = (take_chunk zone 8192).1

one_taken-IsZone :
    IsIdle one_taken.store.links 4320 × IsZone one_taken 8192 (4288 ∷ 4256 ∷ 4224 ∷ [])
one_taken-IsZone =
    let (_, idle, w) = take_chunk-IsZone zone 8192 4320 (4288 ∷ 4256 ∷ 4224 ∷ []) zone-IsZone in
    (idle, w)

one_taken-IsChunk : IsChunk one_taken 8192 4320
unfolding take_chunk init clear
one_taken-IsChunk = (3, omega arith, refl)

one_taken_room : 3 < one_taken.chunks_count 8192
unfolding take_chunk init clear
one_taken_room = omega arith

give_chunk-IsZone_example :
    IsZone (give_chunk one_taken 8192 4320) 8192 (4320 ∷ 4288 ∷ 4256 ∷ 4224 ∷ [])
give_chunk-IsZone_example =
    give_chunk-IsZone one_taken 8192 4320 (4288 ∷ 4256 ∷ 4224 ∷ []) one_taken-IsZone.1
      one_taken-IsChunk (ground arith) refl one_taken-IsZone.0 one_taken_room

is_valid_chunk_iff_example : (is_valid_chunk zone 8192 4256 ≡ true) ↔ IsChunk zone 8192 4256
is_valid_chunk_iff_example = is_valid_chunk_iff zone 8192 4256

-- The zone with the chunk overwritten, given back and taken again.
abbrev scratched : Zones
scratched = set_links one_taken (record {
  next = update one_taken.store.links.next (take_chunk zone 8192).0 7;
  prev = one_taken.store.links.prev;
})

abbrev given_back : Zones
given_back = give_chunk (unlinked scratched (take_chunk zone 8192).0) 8192 (take_chunk zone 8192).0

zone-ChunkReach :
    ChunkReach 8192 zone (take_chunk given_back 8192).1 ((take_chunk given_back 8192).0 ∷ [])
unfolding take_chunk give_chunk init clear
zone-ChunkReach =
    let c = (take_chunk zone 8192).0 in
    call
      (call
        (call (call start (taken (omega arith))) (written c _ (ground arith) λ x ne. ground arith))
        (given [] [] c refl))
      (taken (omega arith))

init-Served_example :
    Served 8192 (take_chunk given_back 8192).1 ((take_chunk given_back 8192).0 ∷ [])
init-Served_example =
    init-Served no_zones (take_chunk given_back 8192).1 8192 4128 128 32
      ((take_chunk given_back 8192).0 ∷ []) (omega arith) (omega arith) (omega arith)
      zone-ChunkReach
