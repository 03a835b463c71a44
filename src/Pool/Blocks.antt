-- ===== src/Pool/Blocks.antt =====
-- The blocks of one chunk of include/alloc/MemoryPool.hpp are distinct and lie inside it.
use high_speed.Prelude.{
  ℕ, zero, suc, ◌+◌, ◌*◌, ◌≤◌, ◌<◌, ◌≡◌, ◌⊎◌, inl, inr, refl, ap, List, [], ◌∷◌, Option, none, some,
  ◌==◌, ==→eq, arith, Bool-cases,
}
use high_speed.Pool.{
  Cache, Pool, push_blocks, allocate_chunk_to_local, refill_local_from_global, pop_block,
  allocate_refilled, allocate,
}
use high_speed.Pool.Counts.{copies, copies-push_blocks, chunk_copies}

-- The `bytes` bytes at `c` overlap none of the chunks at the list's addresses, of `other` bytes each.
pub data Apart (bytes c other : ℕ) : List ℕ → Type 0 where
  nil : Apart bytes c other []
  cons :
      {d : ℕ} {ds : List ℕ}
      → (c + bytes ≤ d) ⊎ (d + other ≤ c)
      → Apart bytes c other ds
      → Apart bytes c other (d ∷ ds)

-- No block or one, and then inside.
push_blocks-Within :
    (a chunk size i n : ℕ)
    → 0 < size
    → let k = copies a (push_blocks chunk size i n []) in
      (k ≡ 0) ⊎ ((k ≡ 1) × (chunk + i * size ≤ a) × (a < chunk + i * size + n * size))
unfolding push_blocks
push_blocks-Within a chunk size i zero pos = inl refl
push_blocks-Within a chunk size i (suc n) pos =
    let rest = copies-push_blocks a chunk size (suc i) n ((chunk + i * size) ∷ []) in
    let next : suc i * size ≡ i * size + size = omega arith in
    let more : suc n * size ≡ n * size + size = omega arith in
    elim (push_blocks-Within a chunk size (suc i) n pos) [
      | inl zero_left ↦ elim (Bool-cases (a == chunk + i * size)) [
        | inl e ↦
            let at : a ≡ chunk + i * size = ==→eq a (chunk + i * size) e in
            let one : copies a ((chunk + i * size) ∷ []) ≡ 1 = rw e refl in
            inr (omega arith, omega arith, omega arith)
        | inr e ↦ let no : copies a ((chunk + i * size) ∷ []) ≡ 0 = rw e refl in inl (omega arith)
      ]
      | inr (one, low, high) ↦
          let no : copies a ((chunk + i * size) ∷ []) ≡ 0 = ground arith in
          inr (omega arith, omega arith, omega arith)
    ]

-- A block of a new chunk is in no old one.
pub chunk_copies-Apart :
    (a chunk size n size' n' : ℕ) (ds : List ℕ)
    → 0 < size
    → 0 < size'
    → Apart (n * size) chunk (n' * size') ds
    → copies a (push_blocks chunk size 0 n []) ≡ 1
    → chunk_copies a size' n' ds ≡ 0
chunk_copies-Apart a chunk size n size' n' [] pos pos' nil here = refl
chunk_copies-Apart a chunk size n size' n' (d ∷ ds) pos pos' (cons far apart) here =
    let later = chunk_copies-Apart a chunk size n size' n' ds pos pos' apart here in
    elim (push_blocks-Within a chunk size 0 n pos) [
      | inl k ↦ absurd (omega arith)
      | inr (one, low, high) ↦ elim (push_blocks-Within a d size' 0 n' pos') [
        | inl k ↦ omega arith
        | inr (other, low', high') ↦ elim far [
          | inl before ↦ absurd (omega arith)
          | inr behind ↦ absurd (omega arith)
        ]
      ]
    ]

-- The blocks of a chunk are distinct.
pub push_blocks-le :
    (a chunk size n : ℕ)
    → 0 < size
    → let k = copies a (push_blocks chunk size 0 n []) in (k ≡ 0) ⊎ (k ≡ 1)
push_blocks-le a chunk size n pos = elim (push_blocks-Within a chunk size 0 n pos) [
  | inl k ↦ inl k
  | inr (one, low, high) ↦ inr one
]

-- The null pointer is no block.
pub push_blocks-null :
    (chunk size n : ℕ) → 0 < size → 0 < chunk → copies 0 (push_blocks chunk size 0 n []) ≡ 0
push_blocks-null chunk size n pos h = elim (push_blocks-Within 0 chunk size 0 n pos) [
  | inl k ↦ k
  | inr (one, low, high) ↦ absurd (omega arith)
]

-- Behind an `allocate` the chunks are those before, or one more.
abbrev pub ChunksOf : ℕ → Pool → Option (ℕ × Cache × Pool) → Type 0
ChunksOf chunk p none = Unit
ChunksOf chunk p (some (b, local, q)) = (q.chunks ≡ p.chunks) ⊎ (q.chunks ≡ chunk ∷ p.chunks)

popped-ChunksOf :
    (chunk : ℕ) (p q : Pool) (local' : Cache)
    → q.chunks ≡ chunk ∷ p.chunks
    → ChunksOf chunk p (pop_block (local', q))
unfolding pop_block
popped-ChunksOf chunk p q [] e = tt
popped-ChunksOf chunk p q (b ∷ bs) e = inr e

refilled-ChunksOf :
    (chunk : ℕ) (p q : Pool) (local' : Cache)
    → q.chunks ≡ p.chunks
    → ChunksOf chunk p (allocate_refilled chunk (local', q))
unfolding allocate_refilled allocate_chunk_to_local
refilled-ChunksOf chunk p q (b ∷ bs) e = inl e
refilled-ChunksOf chunk p q [] e =
    let (local', r) = allocate_chunk_to_local chunk q [] in
    popped-ChunksOf chunk p r local' (ap (λ cs. chunk ∷ cs) e)

pub allocate-ChunksOf :
    (chunk : ℕ) (p : Pool) (local : Cache) → ChunksOf chunk p (allocate chunk p local)
unfolding allocate refill_local_from_global
allocate-ChunksOf chunk p (c ∷ local) = inl refl
allocate-ChunksOf chunk p [] =
    let (local', q) = refill_local_from_global p [] in refilled-ChunksOf chunk p q local' refl
