-- ===== src/Task/Tests.antt =====
-- Tasks of include/coro/Task.hpp, and the theorems at them.
use high_speed.Prelude.{ℕ, ◌+◌, ◌≡◌, refl, true, false, [], ◌∷◌, some, ◌==◌, if◌then◌else◌, arith}
use high_speed.Task.{
  Body, suspends, returns, TaskFrame, already_retrieved, blocks, start, get, Tasks, call, copy_of,
  stored, got, settle, future_get, return_void, drop_value, get_void, copy, destroy_frame,
  destroy_handle, destruct_of, destruct, resume,
}
use high_speed.Task.Once.{rounds, outcome, resumes, get-get}
use high_speed.Task.Discarded.{resume-destruct-call}

-- A coroutine that suspends once and then returns 5.
abbrev five : Body ℕ ℕ
five = suspends (returns 5)

get-get_example :
    (f : TaskFrame ℕ ℕ) × (g : TaskFrame ℕ ℕ) × (resumes 2 (some (start five)) ≡ some f)
    × ((get f).0 ≡ (if 2 == rounds five + 1 then outcome five else blocks))
    × (resumes 0 (some (get f).1) ≡ some g)
    × ((get g).0 ≡ already_retrieved)
get-get_example = get-get five 2 0 (omega arith)

abbrev no_tasks : Tasks ℕ ℕ
no_tasks = record { frames = []; tasks = []; coroutines = []; undefined = false }

resume-destruct-call_example :
    let t = destruct 0 (call five no_tasks) in
    (t.coroutines ≡ 0 ∷ []) × ((resume 0 t).undefined ≡ true)
resume-destruct-call_example = resume-destruct-call five no_tasks

-- A copied `Task` and the one that it was copied from both destroy the frame.
both_destroy : (destruct 0 (destruct 0 (copy 0 (call five no_tasks)))).undefined ≡ true
unfolding call copy copy_of destruct destruct_of destroy_handle destroy_frame
both_destroy = refl

-- A `Task<void>` at its end.
void_done : (get_void (settle (stored true) (start {E = ℕ} return_void))).0 ≡ got tt
unfolding get_void drop_value get future_get settle start
void_done = refl
