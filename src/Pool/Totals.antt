-- ===== src/Pool/Totals.antt =====
-- The blocks of all caches and of all pools of include/alloc/MemoryPool.hpp.
use high_speed.Prelude.{
  ℕ, zero, suc, ◌+◌, ◌*◌, ◌≤◌, ◌<◌, ◌≡◌, ◌⊎◌, inl, inr, refl, replicate, List, [], ◌∷◌, ◌++◌, arith,
}
use high_speed.Pool.{Cache, Pool, push_blocks}
use high_speed.Pool.Process.{AllApart}
use high_speed.Pool.Counts.{copies, chunk_copies}
use high_speed.Pool.Blocks.{push_blocks-le, push_blocks-null, chunk_copies-Apart}

-- The copies of a block in the caches.
abbrev pub cached : ℕ → List Cache → ℕ
cached a [] = 0
cached a (l ∷ ls) = copies a l + cached a ls

pub cached-split :
    (a : ℕ) (before after : List Cache) (l : Cache)
    → cached a (before ++ l ∷ after) ≡ cached a before + copies a l + cached a after
cached-split a [] after l = omega arith
cached-split a (b ∷ before) after l = omega (arith, cached-split a before after l)

pub cached-append :
    (a : ℕ) (before after : List Cache)
    → cached a (before ++ after) ≡ cached a before + cached a after
cached-append a [] after = omega arith
cached-append a (l ∷ before) after = omega (arith, cached-append a before after)

pub cached-replicate : (a threads : ℕ) → cached a (replicate threads []) ≡ 0
cached-replicate a zero = refl
cached-replicate a (suc n) = omega (arith, cached-replicate a n)

-- A number that each pool has, over all pools.
abbrev pub total : (Pool → ℕ) → List Pool → ℕ
total f [] = 0
total f (p ∷ ps) = f p + total f ps

pub total-split :
    (f : Pool → ℕ) (lower upper : List Pool) (p : Pool)
    → total f (lower ++ p ∷ upper) ≡ total f lower + f p + total f upper
total-split f [] upper p = omega arith
total-split f (q ∷ lower) upper p = omega (arith, total-split f lower upper p)

-- The copies of a block in the chunks of a pool, and in its free list.
abbrev pub in_chunks : ℕ → Pool → ℕ
in_chunks a p = chunk_copies a p.block_size p.blocks_per_chunk p.chunks

abbrev pub free_copies : ℕ → Pool → ℕ
free_copies a p = copies a p.free_list

pub data AllPositive : List Pool → Type 0 where
  none_left : AllPositive []
  positive : {p : Pool} {ps : List Pool} → 0 < p.block_size → AllPositive ps → AllPositive (p ∷ ps)

pub AllPositive-at :
    (lower upper : List Pool) (p : Pool) → AllPositive (lower ++ p ∷ upper) → 0 < p.block_size
AllPositive-at [] upper p (positive h ps) = h
AllPositive-at (q ∷ lower) upper p (positive h ps) = AllPositive-at lower upper p ps

pub AllPositive-changed :
    (lower upper : List Pool) (p q : Pool)
    → q.block_size ≡ p.block_size
    → AllPositive (lower ++ p ∷ upper)
    → AllPositive (lower ++ q ∷ upper)
AllPositive-changed [] upper p q e (positive h ps) = positive (omega arith) ps
AllPositive-changed (r ∷ lower) upper p q e (positive h ps) =
    positive h (AllPositive-changed lower upper p q e ps)

-- A block of a new chunk is in no chunk of a pool.
total-AllApart :
    (a chunk size n : ℕ) {ps : List Pool}
    → 0 < size
    → AllPositive ps
    → AllApart (n * size) chunk ps
    → copies a (push_blocks chunk size 0 n []) ≡ 1
    → total (in_chunks a) ps ≡ 0
total-AllApart a chunk size n pos none_left AllApart.nil here = refl
total-AllApart a chunk size n pos (positive {p} h ps) (AllApart.cons apart rest) here = omega (
  arith,
  chunk_copies-Apart a chunk size n p.block_size p.blocks_per_chunk p.chunks pos h apart here,
  total-AllApart a chunk size n pos ps rest here,
)

-- The chunks that a call leaves.
pub chunks-distinct :
    (a chunk : ℕ) (lower upper : List Pool) (p q : Pool)
    → AllPositive (lower ++ p ∷ upper)
    → 0 < chunk
    → AllApart (p.blocks_per_chunk * p.block_size) chunk (lower ++ p ∷ upper)
    → total (in_chunks a) (lower ++ p ∷ upper) ≤ 1
    → (q.block_size ≡ p.block_size) × (q.blocks_per_chunk ≡ p.blocks_per_chunk)
    → (q.chunks ≡ p.chunks) ⊎ (q.chunks ≡ chunk ∷ p.chunks)
    → (total (in_chunks a) (lower ++ q ∷ upper) ≤ 1)
      × (total (in_chunks 0) (lower ++ p ∷ upper) ≡ 0
          → total (in_chunks 0) (lower ++ q ∷ upper) ≡ 0)
chunks-distinct a chunk lower upper p q ps h apart le (bs, n) (inl e) =
    let same : (x : ℕ) → in_chunks x q ≡ in_chunks x p = (λ x. rw (bs, n, e) refl) in
    (
      omega (
        arith,
        same a,
        total-split (in_chunks a) lower upper p,
        total-split (in_chunks a) lower upper q,
      ),
      λ null. omega (
        arith,
        same 0,
        total-split (in_chunks 0) lower upper p,
        total-split (in_chunks 0) lower upper q,
      ),
    )
chunks-distinct a chunk lower upper p q ps h apart le (bs, n) (inr e) =
    let pos = AllPositive-at lower upper p ps in
    let new : (x : ℕ)
        → in_chunks x q
          ≡ copies x (push_blocks chunk p.block_size 0 p.blocks_per_chunk []) + in_chunks x p =
      (λ x. rw (bs, n, e) refl) in
    (
      elim (push_blocks-le a chunk p.block_size p.blocks_per_chunk pos) [
        | inl k ↦ omega (
          arith,
          new a,
          total-split (in_chunks a) lower upper p,
          total-split (in_chunks a) lower upper q,
        )
        | inr k ↦ omega (
          arith,
          new a,
          total-split (in_chunks a) lower upper p,
          total-split (in_chunks a) lower upper q,
          total-AllApart a chunk p.block_size p.blocks_per_chunk pos ps apart k,
        )
      ],
      λ null. omega (
        arith,
        new 0,
        push_blocks-null chunk p.block_size p.blocks_per_chunk pos h,
        total-split (in_chunks 0) lower upper p,
        total-split (in_chunks 0) lower upper q,
      ),
    )
