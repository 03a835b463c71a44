-- ===== src/Generator.antt =====
-- `Generator` of include/coro/Generator.hpp. The coroutine's body is a parameter: from a state it
-- yields a value and a next state, returns, or throws. A handle is the frame that it points to, or
-- none for a null handle; the iterators of one generator share its frame.
pub mod Loops
pub mod Owners
mod Tests
use high_speed.Prelude.{
  ℕ, zero, suc, Bool, true, false, not, ◌||◌, List, [], ◌∷◌, Option, none, some, if◌then◌else◌,
}

pub data Resumed (S A E : Type 0) : Type 0 where
  yields : A → S → Resumed S A E
  returns : Resumed S A E
  throws : E → Resumed S A E

-- `promise_type`, with the coroutine's own state and `done()`.
pub record Frame (S A E : Type 0) : Type 0 where
  pub state : S
  pub value_ : Option A
  pub exception_ : Option E
  pub done : Bool

-- A call that returns, or rethrows; both with the handle that they leave.
pub data Call (S A E B : Type 0) : Type 0 where
  returned : B → Option (Frame S A E) → Call S A E B
  rethrown : E → Option (Frame S A E) → Call S A E B

-- Whether `coro_` is the generator's handle (else it is null), and `is_end_`.
pub record Iterator : Type 0 where
  pub attached : Bool
  pub is_end : Bool

unfoldable pub end : Iterator
end = record { attached = false; is_end = true }

-- `operator==` of iterators of one generator.
unfoldable pub iterator_eq : Iterator → Iterator → Bool
iterator_eq i j =
    if i.is_end
    then j.is_end
    else if j.is_end
    then false
    else if i.attached
    then j.attached
    else not j.attached

-- What `operator*` gives.
pub data Item (A : Type 0) : Type 0 where
  item : A → Item A
  ended_iterator bad_optional : Item A

-- A range-based `for`: the values that its body saw, and the exception that ended it, if any.
pub data Visit (A E : Type 0) : Type 0 where
  visited : List A → Visit A E
  failed : List A → E → Visit A E
  undefined out_of_fuel : Visit A E

unfoldable pub visit : {A E : Type 0} → A → Visit A E → Visit A E
visit a (visited vs) = visited (a ∷ vs)
visit a (failed vs e) = failed (a ∷ vs) e
visit a undefined = undefined
visit a out_of_fuel = out_of_fuel

module _ {S A E : Type 0} (body : S → Resumed S A E) where
  -- A new coroutine, suspended before its first statement.
  unfoldable pub create : S → Option (Frame S A E)
  create s = some (record { state = s; value_ = none; exception_ = none; done = false })

  -- What the body's next stop leaves: `yield_value`, `return_void` or `unhandled_exception`.
  unfoldable pub resumed : Resumed S A E → Frame S A E → Frame S A E
  resumed (yields a s) f = record f { state = s; value_ = some a }
  resumed returns f = record f { done = true }
  resumed (throws e) f = record f { exception_ = some e; done = true }

  unfoldable pub resume : Frame S A E → Frame S A E
  resume f = resumed (body f.state) f

  -- The test behind a `resume`: `ended` at the end, else an exception is rethrown.
  unfoldable pub check : {B : Type 0} → B → B → Frame S A E → Call S A E B
  check ended going f =
      if f.done
      then returned ended (some f)
      else elim f.exception_ [ none ↦ returned going (some f) | some e ↦ rethrown e (some f) ]

  unfoldable pub next : Option (Frame S A E) → Call S A E Bool
  next none = returned false none
  next (some f) = if f.done then returned false (some f) else check false true (resume f)

  unfoldable pub begin : Option (Frame S A E) → Call S A E Iterator
  begin none = returned end none
  begin (some f) =
      if f.done
      then returned end (some f)
      else check (record { attached = true; is_end = true })
          (record { attached = true; is_end = false }) (resume f)

  -- `operator++`.
  unfoldable pub increment : Iterator → Option (Frame S A E) → Call S A E Iterator
  increment it none = returned (record it { is_end = true }) none
  increment it (some f) =
      if it.is_end || (not it.attached || f.done)
      then returned (record it { is_end = true }) (some f)
      else check (record it { is_end = true }) it (resume f)

  -- `operator*`.
  unfoldable pub dereference : Iterator → Option (Frame S A E) → Item A
  dereference it none = ended_iterator
  dereference it (some f) =
      if it.is_end || (not it.attached || f.done)
      then ended_iterator
      else elim f.value_ [ none ↦ bad_optional | some a ↦ item a ]

  -- `operator bool`.
  unfoldable pub is_valid : Option (Frame S A E) → Bool
  is_valid none = false
  is_valid (some f) = not f.done
