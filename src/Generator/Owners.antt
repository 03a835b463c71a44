-- ===== src/Generator/Owners.antt =====
-- The frames behind `Generator` variables of include/coro/Generator.hpp: moves, assignments and destructors.
use high_speed.Prelude.{
  ℕ, ◌+◌, ◌≡◌, refl, ap, ◌∙◌, List, [], ◌∷◌, Option, none, some, ltb, ◌==◌, get_elem?, total,
  is_one, owns, flag, Bool-cases, inl, inr, arith,
}
use high_speed.Handles.{
  Handles, no_handles, make, make_empty, move_out, move, assign_over, move_assign, end_of, destruct,
}
use high_speed.Handles.Owned.{
  IsOwned, no_handles-IsOwned, make-IsOwned, make_empty-IsOwned, move-IsOwned, move_assign-IsOwned,
  destruct-IsOwned,
}

-- What a program does with its generators: it calls the coroutine, makes an empty generator, makes one
-- from another, assigns `std::move` of the second to the first, or ends the life of one.
pub data Use : Type 0 where
  calls defaults : Use
  moves destructs : ℕ → Use
  assigns : ℕ → ℕ → Use

unfoldable pub use_once : Use → Handles → Handles
use_once calls s = make s
use_once defaults s = make_empty s
use_once (moves i) s = move i s
use_once (assigns i j) s = move_assign i j s
use_once (destructs i) s = destruct i s

unfoldable pub use_all : List Use → Handles → Handles
use_all [] s = s
use_all (u ∷ us) s = use_all us (use_once u s)

use_once-IsOwned : (h : ℕ) (u : Use) (s : Handles) → IsOwned h s → IsOwned h (use_once u s)
unfolding use_once
use_once-IsOwned h calls s k = make-IsOwned h s k
use_once-IsOwned h defaults s k = make_empty-IsOwned h s k
use_once-IsOwned h (moves i) s k = move-IsOwned h i s k
use_once-IsOwned h (assigns i j) s k = move_assign-IsOwned h i j s k
use_once-IsOwned h (destructs i) s k = destruct-IsOwned h i s k

use_all-IsOwned : (h : ℕ) (us : List Use) (s : Handles) → IsOwned h s → IsOwned h (use_all us s)
unfolding use_all
use_all-IsOwned h [] s k = k
use_all-IsOwned h (u ∷ us) s k = use_all-IsOwned h us (use_once u s) (use_once-IsOwned h u s k)

-- A generator keeps its handle to itself.
released-move_out :
    (i : ℕ) (o : Option (Option ℕ)) (s : Handles) → (move_out i o s).released ≡ s.released
unfolding move_out
released-move_out i none s = refl
released-move_out i (some o) s = refl

released-assign_over :
    (i j : ℕ) (o p : Option (Option ℕ)) (s : Handles)
    → (assign_over i j o p s).released ≡ s.released
unfolding assign_over
released-assign_over i j none p s = refl
released-assign_over i j (some o) none s = refl
released-assign_over i j (some o) (some p) s = refl

released-end_of :
    (i : ℕ) (o : Option (Option ℕ)) (s : Handles) → (end_of i o s).released ≡ s.released
unfolding end_of
released-end_of i none s = refl
released-end_of i (some o) s = refl

released-use_once : (u : Use) (s : Handles) → (use_once u s).released ≡ s.released
unfolding use_once make make_empty move move_assign destruct
released-use_once calls s = refl
released-use_once defaults s = refl
released-use_once (moves i) s = released-move_out i (get_elem? s.variables i) s
released-use_once (assigns i j) s = elim (Bool-cases (i == j)) [
  | inl e ↦ rw e refl
  | inr e ↦ rw e (released-assign_over i j (get_elem? s.variables i) (get_elem? s.variables j) s)
]
released-use_once (destructs i) s = released-end_of i (get_elem? s.variables i) s

released-use_all : (us : List Use) (s : Handles) → (use_all us s).released ≡ s.released
unfolding use_all
released-use_all [] s = refl
released-use_all (u ∷ us) s = released-use_all us (use_once u s) ∙ released-use_once u s

-- After any history of calls of the coroutine, moves, assignments, also to itself, and destructors: each
-- frame that was made was destroyed once and no generator has it, or was not destroyed and one generator
-- has it; and no generator has, and none destroyed, a frame that was not made.
pub use_all-owned :
    (us : List Use) (h : ℕ)
    → let s = use_all us no_handles in
      total (is_one h) s.destroyed + total (owns h) s.variables ≡ flag (ltb h s.made)
unfolding IsOwned
use_all-owned us h = omega (
  arith,
  use_all-IsOwned h us no_handles (no_handles-IsOwned h),
  ap (total (is_one h)) (released-use_all us no_handles),
)
