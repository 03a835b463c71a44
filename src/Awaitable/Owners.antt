-- ===== src/Awaitable/Owners.antt =====
-- The frames behind `Awaitable` variables of include/coro/Awaitable.hpp: moves, destructors, `co_await` of a
-- variable, and `co_spawn`.
use high_speed.Prelude.{ℕ, ◌+◌, ◌≡◌, List, [], ◌∷◌, ltb, length, total, is_one, owns, flag}
use high_speed.Handles.{Handles, no_handles, make, move, move_assign, destruct, release}
use high_speed.Handles.Owned.{
  IsOwned, no_handles-IsOwned, make-IsOwned, move-IsOwned, move_assign-IsOwned, destruct-IsOwned,
  release-IsOwned,
}

-- What a program does with its awaitables: it calls the coroutine, makes an awaitable from another,
-- assigns `std::move` of the second to the first, ends the life of one, awaits one, or spawns one.
pub data Use : Type 0 where
  calls : Use
  moves destructs awaits spawns : ℕ → Use
  assigns : ℕ → ℕ → Use

-- `await_transform`: its parameter is made from the variable, what it returns from the parameter, which
-- then ends. What it returns lives to the end of the `co_await`, by a later `destructs`.
unfoldable pub transform : ℕ → Handles → Handles
transform i s = let parameter = length s.variables in destruct parameter (move parameter (move i s))

unfoldable pub use_once : Use → Handles → Handles
use_once calls s = make s
use_once (moves i) s = move i s
use_once (assigns i j) s = move_assign i j s
use_once (destructs i) s = destruct i s
use_once (awaits i) s = transform i s
-- `co_spawn` throws if the handle is null, and then does nothing.
use_once (spawns i) s = release i s

unfoldable pub use_all : List Use → Handles → Handles
use_all [] s = s
use_all (u ∷ us) s = use_all us (use_once u s)

use_once-IsOwned : (h : ℕ) (u : Use) (s : Handles) → IsOwned h s → IsOwned h (use_once u s)
unfolding use_once transform
use_once-IsOwned h calls s k = make-IsOwned h s k
use_once-IsOwned h (moves i) s k = move-IsOwned h i s k
use_once-IsOwned h (assigns i j) s k = move_assign-IsOwned h i j s k
use_once-IsOwned h (destructs i) s k = destruct-IsOwned h i s k
use_once-IsOwned h (awaits i) s k =
    let n = length s.variables in
    destruct-IsOwned h n (move n (move i s)) (move-IsOwned h n (move i s) (move-IsOwned h i s k))
use_once-IsOwned h (spawns i) s k = release-IsOwned h i s k

use_all-IsOwned : (h : ℕ) (us : List Use) (s : Handles) → IsOwned h s → IsOwned h (use_all us s)
unfolding use_all
use_all-IsOwned h [] s k = k
use_all-IsOwned h (u ∷ us) s k = use_all-IsOwned h us (use_once u s) (use_once-IsOwned h u s k)

-- After any history of calls of the coroutine, moves, assignments, also to itself, destructors, awaits and
-- spawns: each frame that was made was destroyed once, or was given to a pool once, or one awaitable has
-- it, and only one of these; and none of them is so of a frame that was not made.
pub frame_has_one_owner :
    (us : List Use) (h : ℕ)
    → let s = use_all us no_handles in
      total (is_one h) s.destroyed + total (is_one h) s.released + total (owns h) s.variables
      ≡ flag (ltb h s.made)
unfolding IsOwned
frame_has_one_owner us h = use_all-IsOwned h us no_handles (no_handles-IsOwned h)
