-- ===== src/Task.antt =====
-- `Task` of include/coro/Task.hpp: a coroutine that hands its result to a `std::promise`, is given to the
-- scheduler by the call that makes it, and belongs to `Task` variables, which hold its handle.
pub mod Once
pub mod Discarded
mod Tests
use high_speed.Prelude.{
  ℕ, zero, suc, ◌+◌, ◌-◌, Bool, true, false, List, [], ◌∷◌, ◌++◌, Option, none, some, if◌then◌else◌,
  length, get_elem?, put, remove,
}

-- What a `std::promise` is set to.
pub data Stored (V E : Type 0) : Type 0 where
  stored : V → Stored V E
  failure : E → Stored V E

-- A `std::promise`: its value, and whether `get_future` was called.
pub record Shared (V E : Type 0) : Type 0 where
  pub state : Option (Stored V E)
  pub retrieved : Bool

-- The code of a coroutine from a point on: a `co_await` that suspends it, `co_return`, or an exception
-- that leaves it.
pub data Body (V E : Type 0) : Type 0 where
  suspends : Body V E → Body V E
  returns : V → Body V E
  throws : E → Body V E

pub data Point (V E : Type 0) : Type 0 where
  in_body : Body V E → Point V E
  at_end : Point V E

-- `promise_type`, and where the coroutine goes on.
pub record TaskFrame (V E : Type 0) : Type 0 where
  pub value_ : Shared V E
  pub point : Point V E

-- What `get` does: it returns, throws what the coroutine threw, waits for the coroutine's end, or throws
-- the `std::future_error` of `get_future`.
pub data Got (V E : Type 0) : Type 0 where
  got : V → Got V E
  rethrown : E → Got V E
  blocks already_retrieved : Got V E

module _ {V E : Type 0} where
  -- Suspended before its first statement.
  unfoldable pub start : Body V E → TaskFrame V E
  start body = record { value_ = record { state = none; retrieved = false }; point = in_body body }

  -- `return_value` or `unhandled_exception`, and `final_suspend`.
  unfoldable pub settle : Stored V E → TaskFrame V E → TaskFrame V E
  settle r f = record f { value_ = record f.value_ { state = some r }; point = at_end }

  -- `resume()` of the handle; at the final suspension it is not allowed.
  unfoldable pub resume_point : Point V E → TaskFrame V E → Option (TaskFrame V E)
  resume_point (in_body (suspends body)) f = some (record f { point = in_body body })
  resume_point (in_body (returns v)) f = some (settle (stored v) f)
  resume_point (in_body (throws e)) f = some (settle (failure e) f)
  resume_point at_end f = none

  -- `result.get()` of the future.
  unfoldable pub future_get : Option (Stored V E) → Got V E
  future_get none = blocks
  future_get (some (stored v)) = got v
  future_get (some (failure e)) = rethrown e

  -- `Task::get`.
  unfoldable pub get : TaskFrame V E → Got V E × TaskFrame V E
  get f =
      if f.value_.retrieved
      then (already_retrieved, f)
      else (future_get f.value_.state, record f { value_ = record f.value_ { retrieved = true } })

-- `Task<void>` has a promise of `bool`: `co_return` sets it to `true`, and `get` drops it.
abbrev pub return_void : {E : Type 0} → Body Bool E
return_void = returns true

unfoldable pub drop_value : {E : Type 0} → Got Bool E → Got Unit E
drop_value (got b) = got tt
drop_value (rethrown e) = rethrown e
drop_value blocks = blocks
drop_value already_retrieved = already_retrieved

unfoldable pub get_void : {E : Type 0} → TaskFrame Bool E → Got Unit E × TaskFrame Bool E
get_void f = let (r, g) = get f in (drop_value r, g)

-- The frames by handle, `none` where destroyed; the `Task` variables, `none` for a null handle; the
-- scheduler's queue; whether a destroyed frame was used, or a coroutine resumed at its end.
pub record Tasks (V E : Type 0) : Type 0 where
  pub frames : List (Option (TaskFrame V E))
  pub tasks : List (Option ℕ)
  pub coroutines : List ℕ
  pub undefined : Bool

module _ {V E : Type 0} where
  -- A call of the coroutine: `get_return_object`, which adds the handle to the scheduler.
  unfoldable pub call : Body V E → Tasks V E → Tasks V E
  call body s = record s {
    frames = s.frames ++ some (start body) ∷ [];
    tasks = s.tasks ++ some (length s.frames) ∷ [];
    coroutines = s.coroutines ++ length s.frames ∷ [];
  }

  -- The copy constructor, which the compiler makes: it copies the handle.
  unfoldable pub copy_of : Option (Option ℕ) → Tasks V E → Tasks V E
  copy_of none s = s
  copy_of (some h) s = record s { tasks = s.tasks ++ h ∷ [] }

  unfoldable pub copy : ℕ → Tasks V E → Tasks V E
  copy i s = copy_of (get_elem? s.tasks i) s

  -- `coro_.destroy()`
  unfoldable pub destroy_frame : ℕ → Option (Option (TaskFrame V E)) → Tasks V E → Tasks V E
  destroy_frame h none s = record s { undefined = true }
  destroy_frame h (some none) s = record s { undefined = true }
  destroy_frame h (some (some f)) s = record s { frames = put h none s.frames }

  unfoldable pub destroy_handle : Option ℕ → Tasks V E → Tasks V E
  destroy_handle none s = s
  destroy_handle (some h) s = destroy_frame h (get_elem? s.frames h) s

  -- `~Task`.
  unfoldable pub destruct_of : ℕ → Option (Option ℕ) → Tasks V E → Tasks V E
  destruct_of i none s = s
  destruct_of i (some h) s = destroy_handle h (record s { tasks = remove i s.tasks })

  unfoldable pub destruct : ℕ → Tasks V E → Tasks V E
  destruct i s = destruct_of i (get_elem? s.tasks i) s

  -- A worker of the scheduler resumes a handle that it took from the queue.
  unfoldable pub resumed : ℕ → Option (TaskFrame V E) → Tasks V E → Tasks V E
  resumed h none s = record s { undefined = true }
  resumed h (some f) s = record s { frames = put h (some f) s.frames }

  unfoldable pub resume_frame : ℕ → Option (Option (TaskFrame V E)) → Tasks V E → Tasks V E
  resume_frame h none s = record s { undefined = true }
  resume_frame h (some none) s = record s { undefined = true }
  resume_frame h (some (some f)) s = resumed h (resume_point f.point f) s

  unfoldable pub resume : ℕ → Tasks V E → Tasks V E
  resume h s = resume_frame h (get_elem? s.frames h) s
