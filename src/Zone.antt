-- ===== src/Zone.antt =====
-- lib/Zone.hpp and lib/Zone.cpp: a page cut into chunks of one size. A `Zone*` and a `Chunk*` are
-- addresses. The free chunks are nodes of a list; the nodes of zones and of chunks share the fields
-- of `ListNode`, so a zone that stands in a chunk has the links of that chunk. A node has 16 bytes. The
-- model is of chunks that have room for one: the nodes of smaller chunks overlap in memory, which links
-- by address do not show.
pub mod Chunks
pub mod Init
pub mod History
pub mod Fields
use liballocator.Base.{ℕ, zero, suc, ◌/◌, Bool, true, false, ◌==◌, if◌then◌else◌, update}
use liballocator.Store.{Ptr, null, Links, Store}
use liballocator.Word.{add, sub}
use liballocator.Utils.{move_ptr}
use liballocator.ListNode.{init_list_node, add_to_list, remove_from_list}

-- `Chunk`: a node of a list and nothing else, so its members are those of `Links` at its address.
abbrev pub Chunk : Type 0
Chunk = Ptr

-- The members of `Zone`, at each address, with the memory of the page allocator. The links in it are
-- those of nodes that do not overlap.
pub record Zones : Type 0 where
  pub store : Store
  pub page : Ptr → Ptr
  pub chunk_size : Ptr → ℕ
  pub chunks_count : Ptr → ℕ
  pub free_chunks_count : Ptr → ℕ
  pub free_chunks : Ptr → Ptr

-- The links after a call of an operation of `ListNode`.
abbrev pub set_links : Zones → Links → Zones
set_links z links = record z { store = record (z.store) { links = links } }

-- `Zone::clear()`
unfoldable pub clear : Zones → Ptr → Zones
unfolding init_list_node
clear z this = record (set_links z (init_list_node z.store.links this)) {
  page = update z.page this null;
  chunk_size = update z.chunk_size this 0;
  chunks_count = update z.chunks_count this 0;
  free_chunks_count = update z.free_chunks_count this 0;
  free_chunks = update z.free_chunks this null;
}

-- `chunk->initListNode(); chunk->addToList(&m_freeChunks);` for `n` chunks of 16 bytes at least from
-- `chunk` on: the links, and the head of the list.
unfoldable pub chunk_loop : ℕ → Ptr → ℕ → Links → Ptr → Links × Ptr
chunk_loop zero chunk size l head = (l, head)
chunk_loop (suc n) chunk size l head =
    let (l', head') = add_to_list (init_list_node l chunk) chunk head in
    chunk_loop n (move_ptr chunk size) size l' head'

-- `Zone::init(page, pageSize, chunkSize)`
unfoldable pub init : Zones → Ptr → Ptr → ℕ → ℕ → Zones
init z this page page_size chunk_size =
    let cleared = clear z this in
    let count = page_size / chunk_size in
    let (links, head) =
      chunk_loop count (cleared.store.address page) chunk_size cleared.store.links null in
    record (set_links cleared links) {
      page = update cleared.page this page;
      chunk_size = update cleared.chunk_size this chunk_size;
      chunks_count = update cleared.chunks_count this count;
      free_chunks_count = update cleared.free_chunks_count this count;
      free_chunks = update cleared.free_chunks this head;
    }

-- `Zone::takeChunk()`: the chunk, and the memory.
unfoldable pub take_chunk : Zones → Ptr → Chunk × Zones
take_chunk z this =
    let chunk = z.free_chunks this in
    let (links, head) = remove_from_list z.store.links chunk (z.free_chunks this) in
    (
      chunk,
      record (set_links z links) {
        free_chunks = update z.free_chunks this head;
        free_chunks_count = update z.free_chunks_count this (sub (z.free_chunks_count this) 1);
      },
    )

-- `Zone::giveChunk(chunk)`
unfoldable pub give_chunk : Zones → Ptr → Chunk → Zones
give_chunk z this chunk =
    let (links, head) = add_to_list z.store.links chunk (z.free_chunks this) in
    record (set_links z links) {
      free_chunks = update z.free_chunks this head;
      free_chunks_count = update z.free_chunks_count this (add (z.free_chunks_count this) 1);
    }

-- The loop of `isValidChunk`, `n` rounds from the chunk `it` on.
unfoldable pub valid_loop : ℕ → Ptr → ℕ → Ptr → Bool
unfolding move_ptr
valid_loop zero it size chunk = false
valid_loop (suc n) it size chunk =
    if it == chunk then true else valid_loop n (move_ptr it size) size chunk

-- `Zone::isValidChunk(chunk)`
unfoldable pub is_valid_chunk : Zones → Ptr → Chunk → Bool
unfolding valid_loop
is_valid_chunk z this chunk =
    valid_loop (z.chunks_count this) (z.store.address (z.page this)) (z.chunk_size this) chunk

-- `Zone::page()`
abbrev pub page : Zones → Ptr → Ptr
page z this = z.page this

-- `Zone::chunkSize()`
abbrev pub chunk_size : Zones → Ptr → ℕ
chunk_size z this = z.chunk_size this

-- `Zone::chunksCount()`
abbrev pub chunks_count : Zones → Ptr → ℕ
chunks_count z this = z.chunks_count this

-- `Zone::freeChunksCount()`
abbrev pub free_chunks_count : Zones → Ptr → ℕ
free_chunks_count z this = z.free_chunks_count this
