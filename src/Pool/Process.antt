-- ===== src/Pool/Process.antt =====
-- Threads on the pools of include/alloc/MemoryPool.hpp. A thread has one cache, which all pools share. A step is
-- a call of one thread on one of the pools: the caches are the threads' own, and the shared lists change
-- under their locks, where a call that finds the free list empty and takes a chunk may as well have
-- done both at once.
use high_speed.Prelude.{ℕ, ◌*◌, ◌^◌, ◌≤◌, ◌<◌, ◌≡◌, replicate, List, [], ◌∷◌, ◌++◌, some}
use high_speed.Pool.{Cache, Pool, align_block_size, init, allocate, deallocate}
use high_speed.Pool.Blocks.{Apart}

-- The caches of the threads, all pools, the blocks that the clients hold, and those of the caches that
-- have ended with their threads.
pub record Process : Type 0 where
  pub caches : List Cache
  pub pools : List Pool
  pub held : List ℕ
  pub lost : List ℕ

-- The `bytes` bytes at `c` overlap no chunk of a pool: what `operator new` promises of live chunks.
pub data AllApart (bytes c : ℕ) : List Pool → Type 0 where
  nil : AllApart bytes c []
  cons :
      {p : Pool} {ps : List Pool}
      → Apart bytes c (p.blocks_per_chunk * p.block_size) p.chunks
      → AllApart bytes c ps
      → AllApart bytes c (p ∷ ps)

-- New pools: the aligned block size is at least a pointer's, as the constructor asserts, and the bytes
-- of a chunk are a `size_t`.
pub data AllNew : List Pool → Type 0 where
  no_more : AllNew []
  a_pool :
      (block_size blocks_per_chunk cache_limit : ℕ) {ps : List Pool}
      → 8 ≤ align_block_size block_size
      → blocks_per_chunk * align_block_size block_size < 2 ^ 64
      → AllNew ps
      → AllNew (init block_size blocks_per_chunk cache_limit ∷ ps)

-- What the clients do: they return only blocks that they hold, once, to whatever pool. Threads begin
-- with an empty cache, and end with theirs, whose blocks nobody takes back.
pub data Step (s : Process) : Process → Type 0 where
  allocates :
      (before after : List Cache) (local local' : Cache) (lower upper : List Pool) (p q : Pool)
      (chunk b : ℕ)
      → s.caches ≡ before ++ local ∷ after
      → s.pools ≡ lower ++ p ∷ upper
      → 0 < chunk
      → AllApart (p.blocks_per_chunk * p.block_size) chunk s.pools
      → allocate chunk p local ≡ some (b, local', q)
      → Step s (record {
        caches = before ++ local' ∷ after;
        pools = lower ++ q ∷ upper;
        held = b ∷ s.held;
        lost = s.lost;
      })
  frees :
      (before after : List Cache) (local local' : Cache) (lower upper : List Pool) (p q : Pool)
      (first last : List ℕ) (b : ℕ)
      → s.caches ≡ before ++ local ∷ after
      → s.pools ≡ lower ++ p ∷ upper
      → s.held ≡ first ++ b ∷ last
      → deallocate b p local ≡ (local', q)
      → Step s (record {
        caches = before ++ local' ∷ after;
        pools = lower ++ q ∷ upper;
        held = first ++ last;
        lost = s.lost;
      })
  begins : Step s (record s { caches = [] ∷ s.caches })
  ends :
      (before after : List Cache) (local : Cache)
      → s.caches ≡ before ++ local ∷ after
      → Step s (record s { caches = before ++ after; lost = local ++ s.lost })

-- The program from new pools and threads with empty caches on.
pub data Reachable : Process → Type 0 where
  starts :
      (threads : ℕ) {pools : List Pool}
      → AllNew pools
      → Reachable (record { caches = replicate threads []; pools = pools; held = []; lost = [] })
  steps : {s t : Process} → Reachable s → Step s t → Reachable t
