-- ===== src/Pool/Tests.antt =====
-- Runs of the memory pools of include/alloc/MemoryPool.hpp.
use high_speed.Prelude.{ℕ, ◌+◌, ◌*◌, ◌≤◌, ◌<◌, ◌≡◌, ◌⊎◌, refl, [], ◌∷◌, none, some, length, arith}
use high_speed.Pool.{
  Cache, Pool, align_block_size, init, push_blocks, allocate_chunk_to_local, move_blocks,
  refill_local_from_global, pop_block, allocate_refilled, allocate, flush_loop,
  flush_local_to_global, deallocate,
}
use high_speed.Pool.Counts.{copies}
use high_speed.Pool.Blocks.{Apart}
use high_speed.Pool.Process.{
  Process, AllApart, AllNew, no_more, a_pool, Reachable, starts, steps, allocates, frees, ends,
}
use high_speed.Pool.Totals.{cached, total, in_chunks, free_copies}
use high_speed.Pool.Threads.{Reachable-held}
use high_speed.Pool.Manager.{
  init_pools, size_to_class, align_up, Pools, manager_allocate, manager_deallocate, by_pool,
  size_to_class_lem, allocate-deallocate_other,
}

-- Chunks of two blocks of 16 bytes, and a cache of one block.
abbrev two_blocks : Pool
two_blocks = record {
  block_size = 16;
  blocks_per_chunk = 2;
  cache_limit = 1;
  free_list = [];
  chunks = [];
}

abbrev one_chunk : Pool
one_chunk = record two_blocks { chunks = 4096 ∷ [] }

first_block : allocate 4096 (init 9 2 1) [] ≡ some (4112, 4096 ∷ [], one_chunk)
unfolding init align_block_size allocate refill_local_from_global move_blocks allocate_refilled
    allocate_chunk_to_local push_blocks pop_block
first_block = refl

third_free :
    deallocate 32 one_chunk (16 ∷ 48 ∷ [])
    ≡ (48 ∷ [], record one_chunk { free_list = 16 ∷ 32 ∷ [] })
unfolding deallocate flush_local_to_global flush_loop
third_free = refl

-- A second pool, of 32 bytes.
abbrev other_pool : Pool
other_pool = record {
  block_size = 32;
  blocks_per_chunk = 1;
  cache_limit = 1;
  free_list = [];
  chunks = [];
}

abbrev after_one : Process
after_one = record {
  caches = (4096 ∷ []) ∷ [] ∷ [];
  pools = one_chunk ∷ other_pool ∷ [];
  held = 4112 ∷ [];
  lost = [];
}

nine_fits : 8 ≤ align_block_size 9
unfolding align_block_size
nine_fits = omega arith

two_new : AllNew (init 9 2 1 ∷ init 32 1 1 ∷ [])
unfolding align_block_size
two_new = a_pool 9 2 1 nine_fits (omega arith) (a_pool 32 1 1 (omega arith) (omega arith) no_more)

one_step : Reachable after_one
unfolding init align_block_size
one_step = steps (starts 2 two_new) (
    allocates [] ([] ∷ []) [] (4096 ∷ []) [] (other_pool ∷ []) (init 9 2 1) one_chunk 4096 4112 refl
      refl (omega arith) (AllApart.cons Apart.nil (AllApart.cons Apart.nil AllApart.nil))
      first_block)

-- The block goes back to the other pool.
abbrev given_back : Process
given_back = record after_one { caches = (4112 ∷ 4096 ∷ []) ∷ [] ∷ []; held = [] }

back_step : Reachable given_back
unfolding deallocate flush_local_to_global flush_loop
back_step = steps one_step (
    frees [] ([] ∷ []) (4096 ∷ []) (4112 ∷ 4096 ∷ []) (one_chunk ∷ []) [] other_pool other_pool []
      [] 4112 refl refl refl refl)

-- The first thread has ended with two blocks in its cache.
abbrev one_ended : Process
one_ended = record given_back { caches = [] ∷ []; lost = 4112 ∷ 4096 ∷ [] }

ended_step : Reachable one_ended
ended_step = steps back_step (ends [] ([] ∷ []) (4112 ∷ 4096 ∷ []) refl)

Reachable-held_example :
    (total (in_chunks 4096) one_ended.pools ≤ 1)
    × (copies 4096 one_ended.held
          + cached 4096 one_ended.caches
          + total (free_copies 4096) one_ended.pools
          + copies 4096 one_ended.lost
        ≡ total (in_chunks 4096) one_ended.pools)
Reachable-held_example = Reachable-held ended_step 4096

abbrev full_cache : Cache
full_cache = 16 ∷ 48 ∷ []

abbrev hundred : ℕ
hundred = 100

size_to_class_example :
    ((size_to_class hundred ≡ none) × ((hundred ≡ 0) ⊎ (4096 < hundred)))
    ⊎ ((c : ℕ) × (size_to_class hundred ≡ some c)
        × (c < 512)
        × (c * 8 < hundred)
        × (hundred ≤ (init_pools c).block_size)
        × (hundred ≤ (c + 1) * 8))
size_to_class_example = size_to_class_lem hundred (omega arith)

abbrev empty_cache : Cache
empty_cache = []

class_8 : size_to_class 8 ≡ some 0
unfolding size_to_class align_up
class_8 = refl

class_4096 : size_to_class 4096 ≡ some 511
unfolding size_to_class align_up
class_4096 = refl

room_left : length empty_cache < (init_pools 0).cache_limit * 2
unfolding init_pools init
room_left = omega arith

-- A block of 16 bytes comes back as one of 4096.
allocate-deallocate_other_example :
    (pools' : Pools) × (freed : Pools) × (manager_deallocate 64 8 init_pools []
      ≡ some (64 ∷ [], freed))
    × (manager_allocate 8192 4096 freed (64 ∷ []) ≡ by_pool 64 [] pools')
allocate-deallocate_other_example =
    allocate-deallocate_other 8192 64 8 4096 init_pools [] class_8 class_4096 (omega arith)
      room_left
