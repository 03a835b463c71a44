-- ===== src/Allocator.antt =====
-- `Allocator` of include/alloc/alloc.hpp: the calls that it makes of the memory pool, of constructors and of
-- destructors, in their order. Which constructions throw is a parameter; destructors do not.
pub mod Arrays
mod Tests
use high_speed.Prelude.{
  ℕ, zero, suc, ◌+◌, ◌*◌, ◌%◌, ◌^◌, Bool, true, false, List, [], ◌∷◌, ◌++◌, if◌then◌else◌,
}

-- A call of `gMemoryPool`, with the size; of a constructor or a destructor, with the element's index.
pub data Call : Type 0 where
  allocate : ℕ → Call
  deallocate : ℕ → Call
  construct : ℕ → Call
  destroy : ℕ → Call

-- Whether a function returned or threw, and its calls.
abbrev pub Outcome : Type 0
Outcome = Bool × List Call

-- `sizeof(T) * n`.
abbrev pub array_size : ℕ → ℕ → ℕ
array_size size n = size * n % 2 ^ 64

-- The loop of placement `new` over `n` elements from `i` on.
unfoldable pub construct_from : (ℕ → Bool) → ℕ → ℕ → Outcome
construct_from throws i zero = (true, [])
construct_from throws i (suc n) =
    let (returned, calls) = construct_from throws (suc i) n in
    if throws i then (false, []) else (returned, construct i ∷ calls)

-- The loop of destructor calls over `n` elements from `i` on.
unfoldable pub destroy_from : ℕ → ℕ → List Call
destroy_from i zero = []
destroy_from i (suc n) = destroy i ∷ destroy_from (suc i) n

-- `catch (...)` of `alloc_array`.
unfoldable pub array_built : ℕ → ℕ → Outcome → Outcome
array_built size n (true, calls) = (true, allocate (array_size size n) ∷ calls)
array_built size n (false, calls) = (
  false,
  allocate (array_size size n)
      ∷ (calls ++ (destroy_from 0 n ++ deallocate (array_size size n) ∷ [])),
)

-- Both overloads.
unfoldable pub alloc_array : (ℕ → Bool) → ℕ → ℕ → Outcome
alloc_array throws size n = array_built size n (construct_from throws 0 n)

unfoldable pub alloc : Bool → ℕ → Outcome
alloc true size = (false, allocate size ∷ deallocate size ∷ [])
alloc false size = (true, allocate size ∷ construct 0 ∷ [])

-- Of a pointer, whether it is not null.
unfoldable pub dealloc : Bool → ℕ → List Call
dealloc true size = destroy 0 ∷ deallocate size ∷ []
dealloc false size = []

unfoldable pub dealloc_array : Bool → ℕ → ℕ → List Call
dealloc_array true size n = destroy_from 0 n ++ deallocate (array_size size n) ∷ []
dealloc_array false size n = []
