-- ===== src/Generator/Tests.antt =====
-- Runs of include/coro/Generator.hpp.
use high_speed.Prelude.{
  ℕ, ◌+◌, ltb, total, is_one, owns, flag, ◌≡◌, refl, List, [], ◌∷◌, some, map, arith,
}
use high_speed.Generator.{Resumed, yields, throws, visited, create}
use high_speed.Generator.Loops.{for_each, while_next, breaks, more, Yields, for_each-Yields}
use high_speed.Handles.{
  no_handles, make, move_out, move, assign_over, move_assign, end_of, destruct,
}
use high_speed.Generator.Owners.{
  Use, calls, moves, destructs, assigns, use_once, use_all, use_all-owned,
}

-- A body that yields the numbers of a list, and then throws 7.
abbrev numbers : List ℕ → Resumed (List ℕ) ℕ ℕ
numbers [] = throws 7
numbers (n ∷ ns) = yields n ns

abbrev two_down : List ℕ
two_down = 2 ∷ 1 ∷ []

numbers-Yields : Yields numbers two_down two_down (some 7)
numbers-Yields = more refl (more refl (breaks refl))

for_each-Yields_example :
    (for_each numbers 3 (create numbers two_down) ≡ visited two_down)
    × (while_next numbers 3 (create numbers two_down) ≡ visited (map some two_down))
for_each-Yields_example = for_each-Yields numbers 3 numbers-Yields (omega arith)

-- Two generators, of which the second is assigned to the first and both end.
abbrev swapped_out : List Use
swapped_out = calls ∷ calls ∷ moves 1 ∷ assigns 0 2 ∷ assigns 0 0 ∷ destructs 2 ∷ destructs 1 ∷ []

-- The first frame was destroyed by the assignment, the second one is in the first generator.
swapped_out_lem : (use_all swapped_out no_handles).variables ≡ some 1 ∷ []
unfolding use_all use_once make move move_out move_assign assign_over destruct end_of
swapped_out_lem = refl

use_all-owned_example :
    let s = use_all swapped_out no_handles in
    total (is_one 0) s.destroyed + total (owns 0) s.variables ≡ flag (ltb 0 s.made)
use_all-owned_example = use_all-owned swapped_out 0
