-- ===== src/Handles.antt =====
-- Variables that own a coroutine frame by its handle, as `Generator` (include/coro/Generator.hpp) and
-- `Awaitable` (include/coro/Awaitable.hpp) do: a handle moves from one to another, and the last one
-- destroys the frame. The variables are numbered in the order in which they were made.
pub mod Owned
use high_speed.Prelude.{
  ℕ, ◌+◌, List, [], ◌∷◌, ◌++◌, Option, none, some, ◌==◌, if◌then◌else◌, get_elem?, put, remove,
}

-- What each variable holds, `none` for a null handle; how many frames were made, which are the handles
-- below that number; the frames that were destroyed; the handles that were taken out of a variable.
pub record Handles : Type 0 where
  pub variables : List (Option ℕ)
  pub made : ℕ
  pub destroyed : List ℕ
  pub released : List ℕ

abbrev pub no_handles : Handles
no_handles = record { variables = []; made = 0; destroyed = []; released = [] }

-- A call of the coroutine.
unfoldable pub make : Handles → Handles
make s = record s { variables = s.variables ++ some s.made ∷ []; made = s.made + 1 }

-- The default constructor.
unfoldable pub make_empty : Handles → Handles
make_empty s = record s { variables = s.variables ++ none ∷ [] }

-- `if (handle) handle.destroy()`
unfoldable pub destroys : Option ℕ → List ℕ
destroys none = []
destroys (some h) = h ∷ []

-- The move constructor, from the variable `i` that holds `other`.
unfoldable pub move_out : ℕ → Option (Option ℕ) → Handles → Handles
move_out i none s = s
move_out i (some other) s = record s { variables = put i none s.variables ++ other ∷ [] }

unfoldable pub move : ℕ → Handles → Handles
move i s = move_out i (get_elem? s.variables i) s

-- The move assignment to the variable `i`, which holds `this`, from another variable `j`.
unfoldable pub assign_over : ℕ → ℕ → Option (Option ℕ) → Option (Option ℕ) → Handles → Handles
assign_over i j none other s = s
assign_over i j (some this) none s = s
assign_over i j (some this) (some other) s = record s {
  variables = put j none (put i other s.variables);
  destroyed = s.destroyed ++ destroys this;
}

unfoldable pub move_assign : ℕ → ℕ → Handles → Handles
move_assign i j s =
    if i == j then s else assign_over i j (get_elem? s.variables i) (get_elem? s.variables j) s

-- The destructor.
unfoldable pub end_of : ℕ → Option (Option ℕ) → Handles → Handles
end_of i none s = s
end_of i (some h) s = record s {
  variables = remove i s.variables;
  destroyed = s.destroyed ++ destroys h;
}

unfoldable pub destruct : ℕ → Handles → Handles
destruct i s = end_of i (get_elem? s.variables i) s

-- `std::exchange(handle, {})`, for a handle that is not null.
unfoldable pub release_from : ℕ → Option (Option ℕ) → Handles → Handles
release_from i none s = s
release_from i (some none) s = s
release_from i (some (some h)) s = record s {
  variables = put i none s.variables;
  released = s.released ++ h ∷ [];
}

unfoldable pub release : ℕ → Handles → Handles
release i s = release_from i (get_elem? s.variables i) s
