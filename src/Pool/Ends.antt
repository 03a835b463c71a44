-- ===== src/Pool/Ends.antt =====
-- The destructors of include/alloc/MemoryPool.hpp.
use high_speed.Prelude.{ℕ, zero, suc, ◌+◌, ◌*◌, ◌≤◌, ◌<◌, ◌≡◌, List, [], ◌∷◌, ◌++◌, arith}
use high_speed.Pool.{Pool, push_blocks, delete_chunks}
use high_speed.Pool.Counts.{copies, chunk_copies, copies-push_blocks}
use high_speed.Pool.Manager.{Pools}
use high_speed.Pool.Process.{Process, Reachable}
use high_speed.Pool.Totals.{total, total-split, in_chunks}
use high_speed.Pool.Threads.{Reachable-held}

-- `~GlobalPoolManager`, from pool `i` on for `n` pools: what their destructors give to `operator delete`.
unfoldable pub delete_pools : (i n : ℕ) → Pools → List ℕ
delete_pools i zero pools = []
delete_pools i (suc n) pools = delete_chunks (pools i) ++ delete_pools (suc i) n pools

-- A chunk is its first block.
first_block_in :
    (a chunk size n : ℕ) → 0 < n → copies a (chunk ∷ []) ≤ copies a (push_blocks chunk size 0 n [])
unfolding push_blocks
first_block_in a chunk size zero h = absurd (omega arith)
first_block_in a chunk size (suc n) h =
    let e : chunk + 0 * size ≡ chunk = omega arith in
    rw e (omega (arith, copies-push_blocks a chunk size 1 n (chunk ∷ [])))

copies-chunks :
    (a size n : ℕ) (chunks : List ℕ) → 0 < n → copies a chunks ≤ chunk_copies a size n chunks
copies-chunks a size n [] h = omega arith
copies-chunks a size n (c ∷ chunks) h =
    omega (arith, first_block_in a c size n h, copies-chunks a size n chunks h)

-- In whatever state that threads reach, the destructor of a pool with at least one block in a chunk
-- deletes no chunk twice.
pub delete_chunks-once :
    {s : Process} (lower upper : List Pool) (p : Pool)
    → Reachable s
    → s.pools ≡ lower ++ p ∷ upper
    → 0 < p.blocks_per_chunk
    → (a : ℕ) → copies a (delete_chunks p) ≤ 1
unfolding delete_chunks
delete_chunks-once {s} lower upper p r e h a =
    let (le, all) = Reachable-held r a in
    let split : total (in_chunks a) s.pools
        ≡ total (in_chunks a) lower + in_chunks a p + total (in_chunks a) upper =
      rw e (total-split (in_chunks a) lower upper p) in
    omega (arith, le, split, copies-chunks a p.block_size p.blocks_per_chunk p.chunks h)
