-- ===== src/Awaitable.antt =====
-- The coroutines of include/coro/Awaitable.hpp: promises, the awaiting of one coroutine by another, and
-- `co_spawn`. A coroutine's own code is a value of `Body`. One pool runs the jobs in their order.
pub mod Turns
pub mod Direct
pub mod Owners
mod Tests
use high_speed.Prelude.{
  ℕ, zero, suc, ◌+◌, Bool, true, false, List, [], ◌∷◌, ◌++◌, Option, none, some, ◌==◌,
  if◌then◌else◌,
}

-- What `await_resume` returns or throws.
pub data Result (V E : Type 0) : Type 0 where
  ok : V → Result V E
  thrown : E → Result V E

-- The code of a coroutine from a point on: `co_return`, an exception that leaves it, or a `co_await` of a
-- call of another coroutine, and what follows for each result, in a `catch` or not.
pub data Body (V E : Type 0) : Type 0 where
  returns : V → Body V E
  throws : E → Body V E
  awaits : Body V E → (Result V E → Body V E) → Body V E

-- `promise_type`; of the executor, whether there is one.
pub record Promise (V E : Type 0) : Type 0 where
  pub executor : Bool
  pub awaiting : Option ℕ
  pub value : Option V
  pub exception : Option E

-- Where a coroutine goes on at the next `resume()`; in a `co_await`, with the handle in the `Awaitable`
-- that its frame holds.
pub data Point (V E : Type 0) : Type 0 where
  in_body : Body V E → Point V E
  in_await : ℕ → (Result V E → Body V E) → Point V E
  at_end : Point V E

pub record Frame (V E : Type 0) : Type 0 where
  pub promise : Promise V E
  pub point : Point V E

-- The frames that are not destroyed, by handle; the next handle; the coroutine that a thread is in; the
-- jobs of the pool; whether an assertion failed or a handle without a frame was used.
pub record Machine (V E : Type 0) : Type 0 where
  pub frames : List (ℕ × Frame V E)
  pub next : ℕ
  pub active : Option ℕ
  pub jobs : List ℕ
  pub failed : Bool

unfoldable pub frame_of : {V E : Type 0} → ℕ → List (ℕ × Frame V E) → Option (Frame V E)
frame_of h [] = none
frame_of h ((h', f) ∷ fs) = if h' == h then some f else frame_of h fs

unfoldable pub put_frame :
    {V E : Type 0} → ℕ → Frame V E → List (ℕ × Frame V E) → List (ℕ × Frame V E)
put_frame h f [] = []
put_frame h f ((h', f') ∷ fs) = if h' == h then (h, f) ∷ fs else (h', f') ∷ put_frame h f fs

-- `handle.destroy()`.
unfoldable pub destroy : {V E : Type 0} → ℕ → List (ℕ × Frame V E) → List (ℕ × Frame V E)
destroy h [] = []
destroy h ((h', f) ∷ fs) = if h' == h then fs else (h', f) ∷ destroy h fs

-- A call of a coroutine: `get_return_object` and `initial_suspend`.
unfoldable pub call : {V E : Type 0} → Body V E → Frame V E
call body = record {
  promise = record { executor = false; awaiting = none; value = none; exception = none };
  point = in_body body;
}

-- `await_transform`, for the executor of the promise that awaits.
unfoldable pub await_transform : {V E : Type 0} → Bool → Frame V E → Frame V E
await_transform executor f = record f { promise = record f.promise { executor = executor } }

-- `await_suspend` of the awaitable with the handle `child`, for the coroutine `h`.
unfoldable pub await_suspend : {V E : Type 0} → ℕ → ℕ → Frame V E → Machine V E → Machine V E
await_suspend h child f m =
    if f.promise.executor
    then record m {
      frames = (child, record f { promise = record f.promise { awaiting = some h } }) ∷ m.frames;
      jobs = m.jobs ++ child ∷ [];
    }
    else record m { failed = true }

-- `await_resume`; `bad_access` is what `std::optional::value` throws.
unfoldable pub await_resume : {V E : Type 0} → E → Promise V E → Result V E
await_resume bad_access p = elim p.exception [
  | some e ↦ thrown e
  | none ↦ elim p.value [ some v ↦ ok v | none ↦ thrown bad_access ]
]

-- `return_value` or `unhandled_exception`, and `final_suspend` with its awaiter.
unfoldable pub finish : {V E : Type 0} → ℕ → Promise V E → Machine V E → Machine V E
finish h p m = record m {
  frames = put_frame h (record { promise = p; point = at_end }) m.frames;
  active = p.awaiting;
}

-- The coroutine `h` runs its code up to the next suspension, or through a `co_await` to the code behind
-- it, where the awaitable is destroyed.
unfoldable pub run_point :
    {V E : Type 0} → E → ℕ → Promise V E → Point V E → Machine V E → Machine V E
run_point bad h p (in_body (returns v)) m = finish h (record p { value = some v }) m
run_point bad h p (in_body (throws e)) m = finish h (record p { exception = some e }) m
run_point bad h p (in_body (awaits body k)) m =
    await_suspend h m.next (await_transform p.executor (call body)) (record m {
      frames = put_frame h (record { promise = p; point = in_await m.next k }) m.frames;
      next = m.next + 1;
      active = none;
    })
run_point bad h p (in_await child k) m = elim (frame_of child m.frames) [
  | none ↦ record m { failed = true }
  | some f ↦ record m {
    frames =
        put_frame h (record { promise = p; point = in_body (k (await_resume bad f.promise)) })
          (destroy child m.frames);
  }
]
-- `resume()` at the final suspension is not allowed.
run_point bad h p at_end m = record m { failed = true }

unfoldable pub resume : {V E : Type 0} → E → ℕ → Machine V E → Machine V E
resume bad h m = elim (frame_of h m.frames) [
  | none ↦ record m { failed = true }
  | some f ↦ run_point bad h f.promise f.point m
]

-- The next stretch of a thread of the pool: of the coroutine it is in, or of the next job.
unfoldable pub turn_from : {V E : Type 0} → E → Option ℕ → List ℕ → Machine V E → Machine V E
turn_from bad (some h) jobs m = resume bad h m
turn_from bad none (h ∷ jobs) m = record m { active = some h; jobs = jobs }
turn_from bad none [] m = m

unfoldable pub turn : {V E : Type 0} → E → Machine V E → Machine V E
turn bad m = turn_from bad m.active m.jobs m

unfoldable pub turns : {V E : Type 0} → E → ℕ → Machine V E → Machine V E
turns bad zero m = m
turns bad (suc n) m = turns bad n (turn bad m)

-- `co_spawn`, of a call of a coroutine: the handle is taken out of the awaitable.
unfoldable pub co_spawn : {V E : Type 0} → Body V E → Machine V E → Machine V E
co_spawn body m = record m {
  frames = (m.next, await_transform true (call body)) ∷ m.frames;
  next = m.next + 1;
  jobs = m.jobs ++ m.next ∷ [];
}
