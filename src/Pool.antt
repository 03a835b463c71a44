-- ===== src/Pool.antt =====
-- The memory pools of include/alloc/MemoryPool.hpp. An address is a number, a vector of blocks is a
-- list with its `back` in front, and `operator new` is the address that a call is given.
pub mod Counts
pub mod Blocks
pub mod Total
pub mod Process
pub mod Totals
pub mod Threads
pub mod Manager
pub mod Ends
mod Tests
use high_speed.Prelude.{
  ℕ, zero, suc, ◌+◌, ◌-◌, ◌*◌, ◌/◌, ◌%◌, ◌^◌, min, List, [], ◌∷◌, Option, none, some, ltb, ◌==◌,
  if◌then◌else◌, length,
}

-- `thread_local std::vector<void*> cache`.
abbrev pub Cache : Type 0
Cache = List ℕ

pub record Pool : Type 0 where
  block_size : ℕ
  blocks_per_chunk : ℕ
  cache_limit : ℕ
  free_list : List ℕ
  chunks : List ℕ

-- `alignof(std::max_align_t)`.
abbrev pub max_align : ℕ
max_align = 16

unfoldable pub align_block_size : ℕ → ℕ
align_block_size s = (s + max_align - 1) % 2 ^ 64 / max_align * max_align

unfoldable pub init : ℕ → ℕ → ℕ → Pool
init block_size blocks_per_chunk cache_limit = record {
  block_size = align_block_size block_size;
  blocks_per_chunk = blocks_per_chunk;
  cache_limit = cache_limit;
  free_list = [];
  chunks = [];
}

-- The loop of `allocateChunkToLocal` from block `i` on.
unfoldable pub push_blocks : (chunk size i n : ℕ) → Cache → Cache
push_blocks chunk size i zero local = local
push_blocks chunk size i (suc n) local =
    push_blocks chunk size (suc i) n ((chunk + i * size) ∷ local)

unfoldable pub allocate_chunk_to_local : ℕ → Pool → Cache → Cache × Pool
allocate_chunk_to_local chunk p local = (
  push_blocks chunk p.block_size 0 p.blocks_per_chunk local,
  record p { chunks = chunk ∷ p.chunks },
)

-- The loop of `refillLocalFromGlobal`: what it leaves of the free list, and the cache.
unfoldable pub move_blocks : ℕ → List ℕ → Cache → List ℕ × Cache
move_blocks zero free local = (free, local)
move_blocks (suc n) [] local = ([], local)
move_blocks (suc n) (b ∷ free) local = move_blocks n free (b ∷ local)

unfoldable pub refill_local_from_global : Pool → Cache → Cache × Pool
refill_local_from_global p local =
    let (free, local') = move_blocks (min p.cache_limit (length p.free_list)) p.free_list local in
    (local', record p { free_list = free })

-- The loop of `flushLocalToGlobal`.
unfoldable pub flush_loop : ℕ → Cache → List ℕ → Cache × List ℕ
flush_loop keep [] free = ([], free)
flush_loop keep (b ∷ local) free =
    let flushed = flush_loop keep local (b ∷ free) in
    if ltb keep (suc (length local)) then flushed else (b ∷ local, free)

unfoldable pub flush_local_to_global : Pool → Cache → Cache × Pool
flush_local_to_global p local =
    let (local', free) = flush_loop p.cache_limit local p.free_list in
    (local', record p { free_list = free })

-- `back` and `pop_back`; `none` on an empty vector, which is undefined in the program.
unfoldable pub pop_block : Cache × Pool → Option (ℕ × Cache × Pool)
pop_block ([], p) = none
pop_block (b ∷ local, p) = some (b, local, p)

-- Behind the refill.
unfoldable pub allocate_refilled : ℕ → Cache × Pool → Option (ℕ × Cache × Pool)
allocate_refilled chunk (b ∷ local, p) = some (b, local, p)
allocate_refilled chunk ([], p) = pop_block (allocate_chunk_to_local chunk p [])

-- `allocate` in a thread whose cache is `local`; `chunk` is what `operator new` returns if asked.
unfoldable pub allocate : ℕ → Pool → Cache → Option (ℕ × Cache × Pool)
allocate chunk p (b ∷ local) = some (b, local, p)
allocate chunk p [] = allocate_refilled chunk (refill_local_from_global p [])

-- `deallocate`; the null pointer is 0.
unfoldable pub deallocate : ℕ → Pool → Cache → Cache × Pool
deallocate b p local =
    if b == 0
    then (local, p)
    else if ltb (p.cache_limit * 2) (suc (length local))
    then flush_local_to_global p (b ∷ local)
    else (b ∷ local, p)

-- `~ThreadSafeMemoryPool`: what it gives to `operator delete`.
unfoldable pub delete_chunks : Pool → List ℕ
delete_chunks p = p.chunks
