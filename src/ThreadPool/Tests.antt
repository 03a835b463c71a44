-- ===== src/ThreadPool/Tests.antt =====
-- Runs of the thread pool of include/tools/ThreadPool.hpp, and the theorems at them.
use high_speed.Prelude.{ℕ, List, ◌≡◌, refl, true, false, [], ◌∷◌, ◌++◌, length, flag, arith}
use high_speed.ThreadPool.{
  halted, exited, nil, cons, halt, halt_from, returns, at_lock, waiting, in_task, not_called,
  ThreadPool, init, add_task, run_from, run, worker_turn, worker_enters, worker_sleeps, with_worker,
  Step, adds, runs, enters, sleeps, Reachable, starts, steps,
}
use high_speed.ThreadPool.Totals.{counted, holding, tally}
use high_speed.ThreadPool.Counts.{Reachable-exact}
use high_speed.ThreadPool.Progress.{Inside, head_is_taken}
use high_speed.ThreadPool.Graceful.{Before, here, further, stop_waits}
use high_speed.ThreadPool.Stuck.{hung, is_outside, stop_hangs}

-- One worker has taken the first of two tasks, the other is not yet at the lock.
abbrev one_taken : ThreadPool ℕ
one_taken = record {
  task_queue = 6 ∷ [];
  task_num = 1;
  waiting_threads = 0;
  running = true;
  threads = (in_task 5, true) ∷ (at_lock, true) ∷ [];
  locked = false;
  pushed = 2;
  stop = not_called;
  added = 5 ∷ 6 ∷ [];
  removed = 5 ∷ [];
}

one_taken-Reachable : Reachable one_taken
unfolding init add_task run run_from worker_turn worker_enters with_worker
one_taken-Reachable =
    steps (steps (steps (steps starts (runs refl)) (adds 5 refl)) (adds 6 refl))
      (enters [] ((at_lock, true) ∷ []) true refl refl)

Reachable-exact_example :
    (one_taken.task_num ≡ length one_taken.task_queue)
    × (one_taken.waiting_threads ≡ tally counted one_taken.threads)
    × (one_taken.added ≡ one_taken.removed ++ one_taken.task_queue)
    × (tally holding one_taken.threads ≡ flag one_taken.locked)
Reachable-exact_example = Reachable-exact one_taken-Reachable

-- A worker waits, and a task has come whose caller is still to notify.
abbrev one_waits : ThreadPool ℕ
one_waits = record {
  task_queue = 7 ∷ [];
  task_num = 1;
  waiting_threads = 1;
  running = true;
  threads = (waiting, true) ∷ (at_lock, true) ∷ [];
  locked = false;
  pushed = 1;
  stop = not_called;
  added = 7 ∷ [];
  removed = [];
}

one_waits-Reachable : Reachable one_waits
unfolding init add_task run run_from worker_turn worker_enters worker_sleeps with_worker
one_waits-Reachable =
    steps
      (steps (steps (steps starts (runs refl)) (enters [] ((at_lock, true) ∷ []) true refl refl))
        (sleeps [] ((at_lock, true) ∷ []) true refl))
      (adds 7 refl)

head_is_taken_example :
    (q : ThreadPool ℕ) × Inside one_waits q × (q.removed ≡ 7 ∷ []) × (q.task_queue ≡ [])
head_is_taken_example = head_is_taken one_waits-Reachable refl (omega arith)

stop_hangs_example :
    Reachable {A = ℕ} (hung (5 ∷ 6 ∷ []))
    × ((q : ThreadPool ℕ) (step : Step (hung (5 ∷ 6 ∷ [])) q) → is_outside step ≡ true)
stop_hangs_example = stop_hangs (5 ∷ 6 ∷ [])

-- The pool has run no task, `stop` clears `running_`, and a task comes before the workers return.
abbrev two_ready : ThreadPool ℕ
two_ready = record {
  task_queue = 5 ∷ [];
  task_num = 1;
  waiting_threads = 0;
  running = true;
  threads = (at_lock, true) ∷ (at_lock, true) ∷ [];
  locked = false;
  pushed = 1;
  stop = not_called;
  added = 5 ∷ [];
  removed = [];
}

two_ready-Reachable : Reachable two_ready
unfolding init add_task run run_from
two_ready-Reachable = steps (steps starts (runs refl)) (adds 5 refl)

abbrev both_exited : ThreadPool ℕ
both_exited = record two_ready {
  task_queue = [];
  task_num = 0;
  running = false;
  threads = (exited, true) ∷ (exited, true) ∷ [];
  stop = halted false;
  removed = 5 ∷ [];
}

both_exited-Before : Before (halt false two_ready) both_exited
unfolding halt halt_from with_worker worker_enters worker_turn
both_exited-Before =
    further
      (further
        (further (further here (enters [] ((at_lock, true) ∷ []) true refl refl) refl)
          (returns [] ((at_lock, true) ∷ []) true 5 refl) refl)
        (enters [] ((at_lock, true) ∷ []) true refl refl) refl)
      (enters ((exited, true) ∷ []) [] true refl refl) refl

stop_waits_example : (r : List ℕ) × (both_exited.removed ≡ two_ready.added ++ r)
stop_waits_example =
    stop_waits two_ready-Reachable refl refl both_exited-Before (cons (cons nil)) (omega arith)
