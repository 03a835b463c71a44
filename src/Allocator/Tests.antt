-- ===== src/Allocator/Tests.antt =====
-- Runs of the allocator of include/alloc/alloc.hpp, and the theorem at one.
use high_speed.Prelude.{ℕ, ◌^◌, ◌≡◌, ◌<◌, ◌⊎◌, refl, true, false, [], ◌∷◌, ◌++◌, ◌==◌}
use high_speed.Allocator.{
  allocate, deallocate, construct, destroy, construct_from, destroy_from, array_built, array_size,
  alloc_array, dealloc_array,
}
use high_speed.Allocator.Arrays.{constructs, destroys, NoneThrows, alloc_array_lem}

-- The second construction throws: the elements 1 and 2 are destroyed and were never constructed.
third_throws :
    alloc_array (λ i. i == 1) 16 3
    ≡ (false, allocate 48 ∷ construct 0 ∷ destroy 0 ∷ destroy 1 ∷ destroy 2 ∷ deallocate 48 ∷ [])
unfolding alloc_array array_built construct_from destroy_from
third_throws = refl

-- The size of 2^61 elements of 16 bytes is 0.
wrapped_size : array_size 16 (2 ^ 61) ≡ 0
wrapped_size = refl

returned_array : dealloc_array true 8 2 ≡ destroy 0 ∷ destroy 1 ∷ deallocate 16 ∷ []
unfolding dealloc_array destroy_from
returned_array = refl

alloc_array_lem_example :
    (NoneThrows (λ i. i == 1) 0 3
      × (alloc_array (λ i. i == 1) 16 3 ≡ (true, allocate (array_size 16 3) ∷ constructs 0 3)))
    ⊎ ((k : ℕ) × (k < 3)
        × NoneThrows (λ i. i == 1) 0 k
        × ((k == 1) ≡ true)
        × (alloc_array (λ i. i == 1) 16 3 ≡ (
          false,
          allocate (array_size 16 3)
              ∷ (constructs 0 k ++ (destroys 0 3 ++ deallocate (array_size 16 3) ∷ [])),
        )))
alloc_array_lem_example = alloc_array_lem (λ i. i == 1) 16 3
