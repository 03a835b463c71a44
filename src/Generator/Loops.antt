-- ===== src/Generator/Loops.antt =====
-- Loops over a generator of include/coro/Generator.hpp.
use high_speed.Prelude.{
  ℕ, zero, suc, ◌<◌, ◌≡◌, refl, ap, ◌∙◌, Bool, true, false, List, [], ◌∷◌, Option, none, some,
  if◌then◌else◌, length, map, arith,
}
use high_speed.Generator.{
  resumed, Resumed, yields, returns, throws, Frame, Call, returned, rethrown, Iterator, end,
  iterator_eq, item, ended_iterator, bad_optional, Visit, visited, failed, undefined, out_of_fuel,
  visit, create, resume, check, next, begin, increment, dereference,
}

module _ {S A E : Type 0} (body : S → Resumed S A E) where
  -- The rest of `for (auto& v : generator)` behind `begin` or `++`: `it != end()`, `*it`, `++it`.
  unfoldable pub for_rest : ℕ → Call S A E Iterator → Visit A E
  for_rest fuel (rethrown e h) = failed [] e
  for_rest zero (returned it h) = out_of_fuel
  for_rest (suc fuel) (returned it h) =
      let rest = for_rest fuel (increment body it h) in
      if iterator_eq it end then visited [] else elim (dereference body it h) [
        | item a ↦ visit a rest
        | ended_iterator ↦ undefined
        | bad_optional ↦ undefined
      ]

  unfoldable pub for_each : ℕ → Option (Frame S A E) → Visit A E
  for_each fuel h = for_rest fuel (begin body h)

  -- `while (g.next())`: how often the body ran, what the promise held each time.
  unfoldable pub while_turn :
      (Frame S A E → Visit (Option A) E) → Call S A E Bool → Visit (Option A) E
  while_turn rest (rethrown e h) = failed [] e
  while_turn rest (returned false h) = visited []
  while_turn rest (returned true none) = undefined
  while_turn rest (returned true (some f)) = visit f.value_ (rest f)

  unfoldable pub while_next : ℕ → Option (Frame S A E) → Visit (Option A) E
  while_next zero h = out_of_fuel
  while_next (suc fuel) h = while_turn (λ f. while_next fuel (some f)) (next body h)

  -- The body from `s` on yields `vs`, then returns or throws.
  pub data Yields : S → List A → Option E → Type 0 where
    ends : {s : S} → body s ≡ returns → Yields s [] none
    breaks : {s : S} {e : E} → body s ≡ throws e → Yields s [] (some e)
    more :
        {s s' : S} {a : A} {vs : List A} {last : Option E}
        → body s ≡ yields a s'
        → Yields s' vs last
        → Yields s (a ∷ vs) last

  -- A frame that has not ended.
  abbrev live : S → Option A → Frame S A E
  live s a = record { state = s; value_ = a; exception_ = none; done = false }

  abbrev going : Iterator
  going = record { attached = true; is_end = false }

  abbrev over : Iterator
  over = record { attached = true; is_end = true }

  increment-yields :
      {s s' : S} {a : A} (before : Option A)
      → body s ≡ yields a s'
      → increment body going (some (live s before)) ≡ returned going (some (live s' (some a)))
  unfolding increment check resume resumed
  increment-yields {s} before e = ap (λ r. check body over going (resumed body r (live s before))) e

  increment-returns :
      {s : S} (before : Option A)
      → body s ≡ returns
      → increment body going (some (live s before))
        ≡ returned over (some (record (live s before) { done = true }))
  unfolding increment check resume resumed
  increment-returns {s} before e =
      ap (λ r. check body over going (resumed body r (live s before))) e

  increment-throws :
      {s : S} {e : E} (before : Option A)
      → body s ≡ throws e
      → increment body going (some (live s before))
        ≡ returned over (some (record (live s before) { exception_ = some e; done = true }))
  unfolding increment check resume resumed
  increment-throws {s} before e = ap (λ r. check body over going (resumed body r (live s before))) e

  -- One turn of the loop at a value.
  for_rest-going :
      (fuel : ℕ) (s : S) (a : A)
      → for_rest (suc fuel) (returned going (some (live s (some a))))
        ≡ visit a (for_rest fuel (increment body going (some (live s (some a)))))
  unfolding for_rest iterator_eq end dereference
  for_rest-going fuel s a = refl

  for_rest-over :
      (fuel : ℕ) (h : Option (Frame S A E)) → for_rest (suc fuel) (returned over h) ≡ visited []
  unfolding for_rest iterator_eq end
  for_rest-over fuel h = refl

  for_rest-Yields :
      (fuel : ℕ) (before : Option A) {s : S} {vs : List A} {last : Option E}
      → Yields s vs last
      → length vs < fuel
      → for_rest fuel (increment body going (some (live s before))) ≡ visited vs
  unfolding visit
  for_rest-Yields zero before y h = absurd (omega arith)
  for_rest-Yields (suc fuel) before (ends e) h =
      ap (for_rest (suc fuel)) (increment-returns before e) ∙ for_rest-over fuel _
  for_rest-Yields (suc fuel) before (breaks e) h =
      ap (for_rest (suc fuel)) (increment-throws before e) ∙ for_rest-over fuel _
  for_rest-Yields (suc fuel) before (more {s' = s'} {a = a} e y) h =
      ap (for_rest (suc fuel)) (increment-yields before e)
      ∙ (for_rest-going fuel s' a ∙ ap (visit a) (for_rest-Yields fuel (some a) y (omega arith)))

  next-yields :
      {s s' : S} {a : A} (before : Option A)
      → body s ≡ yields a s'
      → next body (some (live s before)) ≡ returned true (some (live s' (some a)))
  unfolding next check resume resumed
  next-yields {s} before e = ap (λ r. check body false true (resumed body r (live s before))) e

  next-returns :
      {s : S} (before : Option A)
      → body s ≡ returns
      → next body (some (live s before))
        ≡ returned false (some (record (live s before) { done = true }))
  unfolding next check resume resumed
  next-returns {s} before e = ap (λ r. check body false true (resumed body r (live s before))) e

  next-throws :
      {s : S} {e : E} (before : Option A)
      → body s ≡ throws e
      → next body (some (live s before))
        ≡ returned false (some (record (live s before) { exception_ = some e; done = true }))
  unfolding next check resume resumed
  next-throws {s} before e = ap (λ r. check body false true (resumed body r (live s before))) e

  while-Yields :
      (fuel : ℕ) (before : Option A) {s : S} {vs : List A} {last : Option E}
      → Yields s vs last
      → length vs < fuel
      → while_next fuel (some (live s before)) ≡ visited (map some vs)
  unfolding while_next while_turn visit
  while-Yields zero before y h = absurd (omega arith)
  while-Yields (suc fuel) before (ends e) h =
      ap (while_turn (λ f. while_next fuel (some f))) (next-returns before e)
  while-Yields (suc fuel) before (breaks e) h =
      ap (while_turn (λ f. while_next fuel (some f))) (next-throws before e)
  while-Yields (suc fuel) before (more {a = a} e y) h =
      ap (while_turn (λ f. while_next fuel (some f))) (next-yields before e)
      ∙ ap (visit (some a)) (while-Yields fuel (some a) y (omega arith))

  -- A range-based `for` over a new generator visits exactly the values that its body yields, in
  -- order, and ends normally, whether the body returns or throws at last. `next` on a new generator is
  -- true once for each of them, with that value in the promise, and then false; it never throws.
  pub for_each-Yields :
      {s : S} {vs : List A} {last : Option E} (fuel : ℕ)
      → Yields s vs last
      → length vs < fuel
      → (for_each fuel (create body s) ≡ visited vs)
        × (while_next fuel (create body s) ≡ visited (map some vs))
  unfolding for_each begin create increment
  for_each-Yields fuel y h = (for_rest-Yields fuel none y h, while-Yields fuel none y h)
