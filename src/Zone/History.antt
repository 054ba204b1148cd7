-- ===== src/Zone/History.antt =====
-- Any sequence of calls of `Zone::takeChunk` and `Zone::giveChunk`, as a step relation. A chunk that the
-- client holds is its memory: it may overwrite the links in it.
use mathlib.Core.Path.{subst}
use native.Mathlib.Decide.{ℕ_discrete as dec_eq}
use liballocator.Base.{
  ℕ, suc, ◌+◌, ◌^◌, ◌/◌, ◌≤◌, ◌<◌, ◌≡◌, ◌≢◌, refl, ap, List, [], ◌∷◌, ◌++◌, arith, length,
  length-append, count, count-append, Once, update_same,
}
use liballocator.Store.{Ptr, Links, null}
use liballocator.ListNode.{init_list_node}
use liballocator.ListNode.Add.{IsIdle, init_list_node-IsIdle}
use liballocator.ListNode.Chain.{Chain-frame}
use liballocator.Zone.{Zones, clear, set_links, init, take_chunk, give_chunk}
use liballocator.Zone.Chunks.{IsChunk, IsZone, take_chunk-IsZone, give_chunk-IsZone}
use liballocator.Zone.Init.{init-IsZone}

-- `chunk->initListNode()`, with which `ZoneAllocator::deallocateChunk` begins to give a chunk back.
abbrev pub unlinked : Zones → Ptr → Zones
unlinked z c = set_links z (init_list_node z.store.links c)

-- One call of the client, which has the chunks `held`, or a write to one of them.
pub data ChunkStep (this : Ptr) : Zones → List Ptr → Zones → List Ptr → Type 0 where
  taken :
      {z : Zones} {held : List Ptr}
      → 0 < z.free_chunks_count this
      → ChunkStep this z held (take_chunk z this).1 ((take_chunk z this).0 ∷ held)
  given :
      {z : Zones} {held : List Ptr} (front back : List Ptr) (c : Ptr)
      → held ≡ front ++ c ∷ back
      → ChunkStep this z held (give_chunk (unlinked z c) this c) (front ++ back)
  written :
      {z : Zones} {held : List Ptr} (c : Ptr) (l : Links)
      → 0 < count c held
      → ((x : Ptr) → x ≢ c → (l.next x ≡ z.store.links.next x) × (l.prev x ≡ z.store.links.prev x))
      → ChunkStep this z held (set_links z l) held

pub data ChunkReach (this : Ptr) (s : Zones) : Zones → List Ptr → Type 0 where
  start : ChunkReach this s s []
  call :
      {z z' : Zones} {held held' : List Ptr}
      → ChunkReach this s z held
      → ChunkStep this z held z' held'
      → ChunkReach this s z' held'

-- The chunks `held` and those that are free are all chunks of the zone, each once.
record Holds (this : Ptr) (z : Zones) (held : List Ptr) : Type 0 where
  xs : List Ptr
  zone : IsZone z this xs
  once : (c : Ptr) → count c held + count c xs ≤ 1
  chunks : (c : Ptr) → 0 < count c held → IsChunk z this c
  base : 0 < z.store.address (z.page this)
  all : length held + length xs ≡ z.chunks_count this

first_of : (xs : List Ptr) → 0 < length xs → (x : Ptr) × (rest : List Ptr) × (xs ≡ x ∷ rest)
first_of [] h = elim h [ ]
first_of (x ∷ rest) h = (x, rest, refl)

Holds-taken :
    (this : Ptr) (z : Zones) (held : List Ptr)
    → 0 < z.free_chunks_count this
    → Holds this z held
    → Holds this (take_chunk z this).1 ((take_chunk z this).0 ∷ held)
unfolding take_chunk
Holds-taken this z held some_free w =
    let (x, rest, e) = first_of w.xs (omega (arith, w.zone.counter)) in
    let v = subst (IsZone z this) e w.zone in
    let (at, _, zone) = take_chunk-IsZone z this x rest v in
    let same : (c : Ptr) → count c w.xs ≡ count c (x ∷ rest) = λ c. ap (count c) e in
    record {
      xs = rest;
      zone = zone;
      once = λ c. ground (arith, w.once c, same c, at);
      chunks = λ c h. elim (dec_eq x c) [
        | yes here ↦ v.chunks c (ground arith)
        | no other ↦ w.chunks c (ground (arith, at))
      ];
      base = w.base;
      all = omega (arith, w.all, ap length e);
    }

Holds-given :
    (this : Ptr) (z : Zones) (front back : List Ptr) (c : Ptr)
    → IsIdle z.store.links c
    → Holds this z (front ++ c ∷ back)
    → Holds this (give_chunk z this c) (front ++ back)
unfolding give_chunk
Holds-given this z front back c idle w =
    let among : (d : Ptr)
        → count d (front ++ c ∷ back) ≡ count d (front ++ back) + count d (c ∷ []) =
      λ d. omega (arith, count-append d front (c ∷ back), count-append d front back) in
    let sizes : length (front ++ c ∷ back) ≡ suc (length (front ++ back)) =
      omega (arith, length-append front (c ∷ back), length-append front back) in
    let here : count c (c ∷ []) ≡ 1 = ground arith in
    let valid = w.chunks c (omega (arith, among c)) in
    record {
      xs = c ∷ w.xs;
      zone =
          give_chunk-IsZone z this c w.xs w.zone valid (omega (arith, valid.2, w.base))
            (omega (arith, w.once c, among c)) idle (omega (arith, w.all));
      once = λ d. omega (arith, w.once d, among d);
      chunks = λ d h. w.chunks d (omega (arith, among d));
      base = w.base;
      all = omega (arith, w.all);
    }

Holds-written :
    (this : Ptr) (z : Zones) (held : List Ptr) (c : Ptr) (l : Links)
    → 0 < count c held
    → ((x : Ptr) → x ≢ c → (l.next x ≡ z.store.links.next x) × (l.prev x ≡ z.store.links.prev x))
    → Holds this z held
    → Holds this (set_links z l) held
Holds-written this z held c l at others w = record {
  xs = w.xs;
  zone = record {
    list =
        Chain-frame z.store.links l null (z.free_chunks this) w.xs w.zone.list
          λ y in_list. others y (λ e. omega (arith, w.once c, ap (λ d. count d w.xs) e));
    once = w.zone.once;
    counter = w.zone.counter;
    room = w.zone.room;
    few = w.zone.few;
    bound = w.zone.bound;
    chunks = w.zone.chunks;
  };
  once = w.once;
  chunks = w.chunks;
  base = w.base;
  all = w.all;
}

Holds-unlinked :
    (this : Ptr) (z : Zones) (held : List Ptr) (c : Ptr)
    → 0 < count c held
    → Holds this z held
    → Holds this (unlinked z c) held
unfolding init_list_node
Holds-unlinked this z held c at w =
    Holds-written this z held c (init_list_node z.store.links c) at (λ x ne. ground arith) w

count_first : (c : Ptr) (xs : List Ptr) → 0 < count c (c ∷ xs)
count_first c xs = ground arith

ChunkStep-Holds :
    {this : Ptr} {z z' : Zones} {held held' : List Ptr}
    → ChunkStep this z held z' held'
    → Holds this z held
    → Holds this z' held'
ChunkStep-Holds {this} (taken {z = z} {held = held} some_free) w =
    Holds-taken this z held some_free w
ChunkStep-Holds {this} (given {z = z} front back c e) w =
    Holds-given this (unlinked z c) front back c (init_list_node-IsIdle z.store.links c) (
      Holds-unlinked this z (front ++ c ∷ back) c
        (omega (arith, count-append c front (c ∷ back), count_first c back))
        (subst (Holds this z) e w))
ChunkStep-Holds {this} (written {z = z} {held = held} c l at others) w =
    Holds-written this z held c l at others w

module _ (z : Zones) (this page : Ptr) (page_size chunk_size : ℕ) (low : 0 < z.store.address page)
    (room : 16 ≤ chunk_size) (few : page_size < 2 ^ 64) where
  init-Holds : Holds this (init z this page page_size chunk_size) []
  unfolding init clear
  init-Holds =
      let (zone, counter) = init-IsZone z this page page_size chunk_size low room few in
      let n = page_size / chunk_size in
      let count_of : (init z this page page_size chunk_size).chunks_count this ≡ n =
        update_same (clear z this).chunks_count this n in
      record {
        xs = _;
        zone = zone;
        once = λ c. omega (arith, zone.once c);
        chunks = λ c h. absurd (omega arith);
        base = rw (update_same (clear z this).page this page) low;
        all = omega (arith, zone.counter, counter, count_of);
      }

  ChunkReach-Holds :
      {z' : Zones} {held : List Ptr}
      → ChunkReach this (init z this page page_size chunk_size) z' held
      → Holds this z' held
  ChunkReach-Holds start = init-Holds
  ChunkReach-Holds (call r st) = ChunkStep-Holds st (ChunkReach-Holds r)

-- The chunks that the client holds are chunks of the zone, each once, and with the free ones they are
-- all chunks. The next chunk is none of them.
pub record Served (this : Ptr) (z : Zones) (held : List Ptr) : Type 0 where
  pub once : Once held
  pub chunks : (c : Ptr) → 0 < count c held → IsChunk z this c
  pub counter : z.free_chunks_count this + length held ≡ z.chunks_count this
  pub fresh : 0 < z.free_chunks_count this → count (take_chunk z this).0 held ≡ 0

Holds-Served : (this : Ptr) (z : Zones) (held : List Ptr) → Holds this z held → Served this z held
Holds-Served this z held w = record {
  once = λ c. omega (arith, w.once c);
  chunks = w.chunks;
  counter = omega (arith, w.all, w.zone.counter);
  fresh = λ some_free.
      let c = (take_chunk z this).0 in
      let here : 0 < count c (c ∷ held) = ground arith in
      let after = Holds-taken this z held some_free w in ground (arith, after.once c);
}

-- For a page that is not at address 0, chunks of 16 bytes at least and a page size that is a word: after
-- `init`, whatever calls of `takeChunk` a client makes on a zone with a free chunk, and of `giveChunk`,
-- behind an `initListNode`, of a chunk that it holds, and however it overwrites the links in the chunks
-- that it holds, these are chunks of the zone, each once, with the free ones they are as many as all
-- chunks, and the chunk that the next call of `takeChunk` on a zone with a free chunk returns is none
-- of them.
pub init-Served :
    (z z' : Zones) (this page : Ptr) (page_size chunk_size : ℕ) (held : List Ptr)
    → 0 < z.store.address page
    → 16 ≤ chunk_size
    → page_size < 2 ^ 64
    → ChunkReach this (init z this page page_size chunk_size) z' held
    → Served this z' held
init-Served z z' this page page_size chunk_size held low room few r =
    Holds-Served this z' held (ChunkReach-Holds z this page page_size chunk_size low room few r)
