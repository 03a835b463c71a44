-- ===== src/Pool/Total.antt =====
-- `allocate` of include/alloc/MemoryPool.hpp never reads an empty cache, and `deallocate` bounds it.
use high_speed.Prelude.{
  ℕ, zero, suc, ◌+◌, ◌*◌, ◌≤◌, ◌<◌, ◌≡◌, refl, false, List, [], ◌∷◌, Option, some, ltb, ◌==◌,
  length, arith, inl, inr, Bool-cases, min,
}
use high_speed.Pool.{
  Cache, Pool, push_blocks, allocate_chunk_to_local, refill_local_from_global, flush_loop,
  flush_local_to_global, pop_block, allocate_refilled, allocate, deallocate,
}

length-push_blocks :
    (chunk size i n : ℕ) (local : Cache)
    → length (push_blocks chunk size i n local) ≡ n + length local
unfolding push_blocks
length-push_blocks chunk size i zero local = omega arith
length-push_blocks chunk size i (suc n) local =
    omega (arith, length-push_blocks chunk size (suc i) n ((chunk + i * size) ∷ local))

-- A call that returns a block.
abbrev Gives : Option (ℕ × Cache × Pool) → Type 0
Gives o = (b : ℕ) × (local : Cache) × (p : Pool) × (o ≡ some (b, local, p))

pop_block-Gives : (local : Cache) (p : Pool) → 0 < length local → Gives (pop_block (local, p))
unfolding pop_block
pop_block-Gives [] p h = absurd (omega arith)
pop_block-Gives (b ∷ local) p h = (b, local, p, refl)

refilled-Gives :
    (chunk : ℕ) (local : Cache) (p : Pool)
    → 0 < p.blocks_per_chunk
    → Gives (allocate_refilled chunk (local, p))
unfolding allocate_refilled allocate_chunk_to_local
refilled-Gives chunk (b ∷ local) p h = (b, local, p, refl)
refilled-Gives chunk [] p h =
    let (local', q) = allocate_chunk_to_local chunk p [] in
    pop_block-Gives local' q
      (omega (arith, length-push_blocks chunk p.block_size 0 p.blocks_per_chunk []))

-- A pool with blocks in its chunks gives a block to a thread with any cache, whatever is free.
pub allocate-Gives :
    (chunk : ℕ) (p : Pool) (local : Cache)
    → 0 < p.blocks_per_chunk
    → (b : ℕ) × (local' : Cache) × (q : Pool) × (allocate chunk p local ≡ some (b, local', q))
unfolding allocate refill_local_from_global
allocate-Gives chunk p (b ∷ local) h = (b, local, p, refl)
allocate-Gives chunk p [] h =
    let (local', q) = refill_local_from_global p [] in refilled-Gives chunk local' q h

length-flush_loop :
    (keep : ℕ) (local : Cache) (free : List ℕ)
    → length (flush_loop keep local free).0 ≡ min keep (length local)
unfolding flush_loop
length-flush_loop keep [] free = omega arith
length-flush_loop keep (b ∷ local) free = elim (Bool-cases (ltb keep (suc (length local)))) [
  | inl e ↦ rw e (ground (arith, length-flush_loop keep local (b ∷ free)))
  | inr e ↦ rw e (ground arith)
]

-- Behind the `deallocate` of a block that is not null the cache holds at most twice its limit: the
-- block more than before if there was room, and just the limit if there was none.
pub length-deallocate :
    (b : ℕ) (p : Pool) (local : Cache)
    → (b == 0) ≡ false
    → let (local', q) = deallocate b p local in
      (length local' ≤ p.cache_limit * 2)
      × ((length local < p.cache_limit * 2) → local' ≡ b ∷ local)
      × ((p.cache_limit * 2 ≤ length local) → length local' ≡ p.cache_limit)
unfolding deallocate flush_local_to_global
length-deallocate b p local live =
    elim (Bool-cases (ltb (p.cache_limit * 2) (suc (length local)))) [
      | inl e ↦
          let kept = length-flush_loop p.cache_limit (b ∷ local) p.free_list in
          rw (live, e) (ground arith, λ h. absurd (ground arith), λ h. ground arith)
      | inr e ↦ rw (live, e) (ground arith, λ h. refl, λ h. absurd (ground arith))
    ]
