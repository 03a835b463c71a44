-- ===== src/Pool/Manager.antt =====
-- `GlobalPoolManager` of include/alloc/MemoryPool.hpp: a pool for each multiple of 8 up to 4096. The
-- cache is `thread_local` in a static member function, so one thread has one cache for all pools.
use high_speed.Prelude.{
  ℕ, suc, ◌+◌, ◌-◌, ◌*◌, ◌/◌, ◌%◌, ◌^◌, ◌≤◌, ◌<◌, ◌≡◌, ◌⊎◌, ◌≢◌, inl, inr, refl, false, ◌∷◌, Option,
  none, some, ltb, ◌==◌, if◌then◌else◌, length, arith, Bool-cases,
}
use high_speed.Pool.{Cache, Pool, align_block_size, init, allocate, deallocate}

abbrev pub align : ℕ
align = 8

abbrev pub max_pool_size : ℕ
max_pool_size = 4096

-- The mask clears the three low bits.
unfoldable pub align_up : ℕ → ℕ
align_up n = (n + align - 1) % 2 ^ 64 / align * align

-- `none` is -1, which `n / ALIGN - 1` gives for 0 too.
unfoldable pub size_to_class : ℕ → Option ℕ
size_to_class n =
    let aligned = align_up n in
    if ltb max_pool_size aligned
    then none
    else if aligned / align == 0
    then none
    else some (aligned / align - 1)

-- `pools_`.
abbrev pub Pools : Type 0
Pools = ℕ → Pool

unfoldable pub set_pool : ℕ → Pool → Pools → Pools
set_pool c p pools i = if i == c then p else pools i

unfoldable pub init_pools : Pools
init_pools i = init ((i + 1) * align) 1024 64

-- What the program returns or does: `std::malloc` and `std::free` are the allocator's.
pub data Placed : Type 0 where
  by_malloc : Placed
  by_pool : ℕ → Cache → Pools → Placed
  undefined : Placed

unfoldable pub manager_allocate : ℕ → ℕ → Pools → Cache → Placed
manager_allocate chunk size pools local = elim (size_to_class size) [
  | none ↦ by_malloc
  | some c ↦ elim (allocate chunk (pools c) local) [
    | none ↦ undefined
    | some (b, local', p) ↦ by_pool b local' (set_pool c p pools)
  ]
]

-- `none` if the block goes to `std::free`.
unfoldable pub manager_deallocate : ℕ → ℕ → Pools → Cache → Option (Cache × Pools)
manager_deallocate b size pools local = elim (size_to_class size) [
  | none ↦ none
  | some c ↦ let (local', p) = deallocate b (pools c) local in some (local', set_pool c p pools)
]

-- For sizes that `align_up` does not wrap: a size has no class just if it is 0 or over 4096, and else
-- its class `c` is below 512, the size is over `8 * c` and at most `8 * (c + 1)`, and the blocks of
-- that pool hold it.
pub size_to_class_lem :
    (n : ℕ)
    → n + 7 < 2 ^ 64
    → ((size_to_class n ≡ none) × ((n ≡ 0) ⊎ (4096 < n)))
      ⊎ ((c : ℕ) × (size_to_class n ≡ some c)
          × (c < 512)
          × (c * 8 < n)
          × (n ≤ (init_pools c).block_size)
          × (n ≤ (c + 1) * 8))
unfolding size_to_class align_up init_pools init align_block_size
size_to_class_lem n h = elim (Bool-cases (ltb max_pool_size (align_up n))) [
  | inl e ↦ inl (rw e refl, inr (ground arith))
  | inr e ↦ elim (Bool-cases (align_up n / align == 0)) [
    | inl z ↦ inl (rw (e, z) refl, inl (ground arith))
    | inr z ↦ inr (
      align_up n / align - 1,
      rw (e, z) refl,
      ground arith,
      ground arith,
      ground arith,
      ground arith,
    )
  ]
]

-- With room in the thread's cache, a block that is not null, returned under a size with a class, is
-- what the thread's next request of any size with a class gets, however small the block is.
pub allocate-deallocate_other :
    (chunk b size other : ℕ) {c d : ℕ} (pools : Pools) (local : Cache)
    → size_to_class size ≡ some c
    → size_to_class other ≡ some d
    → b ≢ 0
    → length local < (pools c).cache_limit * 2
    → (pools' : Pools) × (freed : Pools) × (manager_deallocate b size pools local
        ≡ some (b ∷ local, freed))
      × (manager_allocate chunk other freed (b ∷ local) ≡ by_pool b local pools')
unfolding manager_deallocate manager_allocate deallocate allocate
allocate-deallocate_other chunk b size other {c} {d} pools local hc hd nonzero room =
    let freed = set_pool c (pools c) pools in
    let live : (b == 0) ≡ false = ground arith in
    let small : ltb ((pools c).cache_limit * 2) (suc (length local)) ≡ false = ground arith in
    (
      set_pool d (freed d) freed,
      freed,
      rw (manager_deallocate, hc, live, small) refl,
      rw (manager_allocate, hd) refl,
    )
