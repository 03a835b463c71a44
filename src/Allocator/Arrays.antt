-- ===== src/Allocator/Arrays.antt =====
-- What `alloc_array` of include/alloc/alloc.hpp constructs and destroys.
use high_speed.Prelude.{
  ℕ, zero, suc, ◌+◌, ◌≤◌, ◌<◌, ◌≡◌, ◌⊎◌, inl, inr, refl, ap, ◌∙◌, Bool, true, false, List, [], ◌∷◌,
  ◌++◌, arith, Bool-cases, ◌==◌, ==→eq,
}
use high_speed.Allocator.{
  Call, allocate, deallocate, construct, destroy, array_size, construct_from, destroy_from,
  array_built, alloc_array,
}

-- The constructions of `n` elements from `i` on.
abbrev pub constructs : ℕ → ℕ → List Call
constructs i zero = []
constructs i (suc n) = construct i ∷ constructs (suc i) n

-- The destructions of `n` elements from `i` on.
abbrev pub destroys : ℕ → ℕ → List Call
destroys i zero = []
destroys i (suc n) = destroy i ∷ destroys (suc i) n

destroy_from-destroys : (i n : ℕ) → destroy_from i n ≡ destroys i n
unfolding destroy_from
destroy_from-destroys i zero = refl
destroy_from-destroys i (suc n) = ap (λ calls. destroy i ∷ calls) (destroy_from-destroys (suc i) n)

module _ (throws : ℕ → Bool) where
  -- No construction of the `n` elements from `i` on throws.
  abbrev pub NoneThrows : ℕ → ℕ → Type 0
  NoneThrows i n = (j : ℕ) → i ≤ j → j < i + n → throws j ≡ false

  NoneThrows-suc : (i n : ℕ) → throws i ≡ false → NoneThrows (suc i) n → NoneThrows i (suc n)
  NoneThrows-suc i n e h j le lt = elim (Bool-cases (j == i)) [
    | inl same ↦ ap throws (==→eq j i same) ∙ e
    | inr other ↦ h j (ground arith) (omega arith)
  ]

  construct_from_lem :
      (i n : ℕ)
      → (NoneThrows i n × (construct_from throws i n ≡ (true, constructs i n)))
        ⊎ ((k : ℕ) × (k < n)
            × NoneThrows i k
            × (throws (i + k) ≡ true)
            × (construct_from throws i n ≡ (false, constructs i k)))
  unfolding construct_from
  construct_from_lem i zero = inl (λ j le lt. absurd (omega arith), refl)
  construct_from_lem i (suc n) = elim (Bool-cases (throws i)) [
    | inl e ↦
        inr (
          0,
          omega arith,
          λ j le lt. absurd (omega arith),
          ap throws (omega arith) ∙ e,
          rw (e) refl,
        )
    | inr e ↦ elim (construct_from_lem (suc i) n) [
      | inl (h, f) ↦ inl (NoneThrows-suc i n e h, rw (e, f) refl)
      | inr (k, lt, h, t, f) ↦
          inr (
            suc k,
            omega arith,
            NoneThrows-suc i k e h,
            ap throws (omega arith) ∙ t,
            rw (e, f) refl,
          )
    ]
  ]

  -- `alloc_array` either constructs all elements in order, where no construction throws; or
  -- construction `k` is the first that throws, and then, behind the constructions before it, the
  -- destructors of all `n` elements are called, those that were never constructed included, the memory
  -- is given back with the size it was asked for, and the call throws.
  pub alloc_array_lem :
      (size n : ℕ)
      → (NoneThrows 0 n
          × (alloc_array throws size n ≡ (true, allocate (array_size size n) ∷ constructs 0 n)))
        ⊎ ((k : ℕ) × (k < n)
            × NoneThrows 0 k
            × (throws k ≡ true)
            × (alloc_array throws size n ≡ (
              false,
              allocate (array_size size n)
                  ∷ (constructs 0 k ++ (destroys 0 n ++ deallocate (array_size size n) ∷ [])),
            )))
  unfolding alloc_array array_built
  alloc_array_lem size n = elim (construct_from_lem 0 n) [
    | inl (h, e) ↦ inl (h, ap (array_built size n) e)
    | inr (k, lt, h, t, e) ↦
        inr (
          k,
          lt,
          h,
          ap throws (omega arith) ∙ t,
          rw (e, array_built, destroy_from-destroys 0 n) refl,
        )
  ]
