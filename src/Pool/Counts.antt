-- ===== src/Pool/Counts.antt =====
-- What the moves of include/alloc/MemoryPool.hpp do to the number of copies of a block.
use high_speed.Prelude.{
  ℕ, zero, suc, ◌+◌, ◌*◌, min, ◌≡◌, inl, inr, refl, List, [], ◌∷◌, ◌++◌, Option, none, some, ltb,
  ◌==◌, if◌then◌else◌, length, arith, Bool-cases,
}
use high_speed.Pool.{
  Cache, Pool, push_blocks, allocate_chunk_to_local, move_blocks, refill_local_from_global,
  flush_loop, flush_local_to_global, pop_block, allocate_refilled, allocate, deallocate,
}

-- How often `a` stands in the list.
abbrev pub copies : (block : ℕ) → Cache → ℕ
copies block [] = 0
copies block (b ∷ local) = copies block local + (if block == b then 1 else 0)

pub copies-append :
    (block : ℕ) (front back : Cache)
    → copies block (front ++ back) ≡ copies block front + copies block back
copies-append block [] back = omega arith
copies-append block (b ∷ front) back = omega (arith, copies-append block front back)

pub copies-push_blocks :
    (a chunk size i n : ℕ) (local : Cache)
    → copies a (push_blocks chunk size i n local)
      ≡ copies a (push_blocks chunk size i n []) + copies a local
unfolding push_blocks
copies-push_blocks a chunk size i zero local = omega arith
copies-push_blocks a chunk size i (suc n) local = omega (
  arith,
  copies-push_blocks a chunk size (suc i) n ((chunk + i * size) ∷ local),
  copies-push_blocks a chunk size (suc i) n ((chunk + i * size) ∷ []),
)

pub copies-move_blocks :
    (a n : ℕ) (free : List ℕ) (local : Cache)
    → let (free', local') = move_blocks n free local in
      copies a free' + copies a local' ≡ copies a free + copies a local
unfolding move_blocks
copies-move_blocks a zero free local = refl
copies-move_blocks a (suc n) [] local = refl
copies-move_blocks a (suc n) (b ∷ free) local =
    omega (arith, copies-move_blocks a n free (b ∷ local))

copies-flush_loop :
    (a keep : ℕ) (local : Cache) (free : List ℕ)
    → let (local', free') = flush_loop keep local free in
      copies a local' + copies a free' ≡ copies a local + copies a free
unfolding flush_loop
copies-flush_loop a keep [] free = refl
copies-flush_loop a keep (b ∷ local) free = elim (Bool-cases (ltb keep (suc (length local)))) [
  | inl e ↦ rw e (omega (arith, copies-flush_loop a keep local (b ∷ free)))
  | inr e ↦ rw e refl
]

-- The copies of a block in all chunks.
abbrev pub chunk_copies : (a size n : ℕ) → List ℕ → ℕ
chunk_copies a size n [] = 0
chunk_copies a size n (c ∷ cs) = copies a (push_blocks c size 0 n []) + chunk_copies a size n cs

-- From `p` and the cache `local` to `q` and `local'` with the blocks `out` gone to the client: the
-- sizes stay, and what the chunks gained is what the lists and the client did.
abbrev pub Moves : Pool → Cache → List ℕ → Pool → Cache → Type 0
Moves p local out q local' =
    (q.block_size ≡ p.block_size)
    × (q.blocks_per_chunk ≡ p.blocks_per_chunk)
    × (q.cache_limit ≡ p.cache_limit)
    × ((a : ℕ)
        → copies a out
            + copies a local'
            + copies a q.free_list
            + chunk_copies a p.block_size p.blocks_per_chunk p.chunks
          ≡ copies a local
            + copies a p.free_list
            + chunk_copies a p.block_size p.blocks_per_chunk q.chunks)

-- The same of a call that hands out a block, unless it is undefined.
abbrev pub MovesOut : Pool → Cache → Option (ℕ × Cache × Pool) → Type 0
MovesOut p local none = Unit
MovesOut p local (some (b, local', q)) = Moves p local (b ∷ []) q local'

pop_block-Moves :
    (p q : Pool) (local local' : Cache)
    → Moves p local [] q local'
    → MovesOut p local (pop_block (local', q))
unfolding pop_block
pop_block-Moves p q local [] m = tt
pop_block-Moves p q local (b ∷ rest) (s, n, l, m) = (s, n, l, λ a. omega (arith, m a))

allocate_chunk-Moves :
    (chunk : ℕ) (p q : Pool) (local : Cache)
    → Moves p local [] q []
    → let (local', r) = allocate_chunk_to_local chunk q [] in Moves p local [] r local'
unfolding allocate_chunk_to_local
allocate_chunk-Moves chunk p q local (s, n, l, m) = (s, n, l, λ a. rw (s, n) (omega (arith, m a)))

refilled-Moves :
    (chunk : ℕ) (p q : Pool) (local local' : Cache)
    → Moves p local [] q local'
    → MovesOut p local (allocate_refilled chunk (local', q))
unfolding allocate_refilled
refilled-Moves chunk p q local (b ∷ rest) (s, n, l, m) = (s, n, l, λ a. omega (arith, m a))
refilled-Moves chunk p q local [] m =
    let (local'', r) = allocate_chunk_to_local chunk q [] in
    pop_block-Moves p r local local'' (allocate_chunk-Moves chunk p q local m)

refill-Moves :
    (p : Pool) → let (local', q) = refill_local_from_global p [] in Moves p [] [] q local'
unfolding refill_local_from_global
refill-Moves p = (
  refl,
  refl,
  refl,
  λ a. omega (arith, copies-move_blocks a (min p.cache_limit (length p.free_list)) p.free_list []),
)

pub allocate-Moves :
    (chunk : ℕ) (p : Pool) (local : Cache) → MovesOut p local (allocate chunk p local)
unfolding allocate
allocate-Moves chunk p (c ∷ local) = (refl, refl, refl, λ a. omega arith)
allocate-Moves chunk p [] =
    let (local', q) = refill_local_from_global p [] in
    refilled-Moves chunk p q [] local' (refill-Moves p)

pub deallocate-Moves :
    (b : ℕ) (p : Pool) (local : Cache)
    → let (local', q) = deallocate b p local in
      (q.chunks ≡ p.chunks) × Moves p (if b == 0 then local else b ∷ local) [] q local'
unfolding deallocate flush_local_to_global
deallocate-Moves b p local = elim (Bool-cases (b == 0)) [
  | inl e ↦ rw e (refl, (refl, refl, refl, λ a. omega arith))
  | inr e ↦ elim (Bool-cases (ltb (p.cache_limit * 2) (suc (length local)))) [
    | inl k ↦
        rw (e, k)
          (
            refl,
            (
              refl,
              refl,
              refl,
              λ a. omega (arith, copies-flush_loop a p.cache_limit (b ∷ local) p.free_list),
            ),
          )
    | inr k ↦ rw (e, k) (refl, (refl, refl, refl, λ a. omega arith))
  ]
]
