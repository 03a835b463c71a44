-- ===== src/Scheduler/Tests.antt =====
-- Runs of the scheduler of include/coro/Scheduler.hpp, and the theorems at them.
use high_speed.Prelude.{
  ℕ, ◌+◌, ◌≡◌, refl, true, false, [], ◌∷◌, ◌++◌, length, total, flag, inl, arith,
}
use high_speed.Scheduler.{
  at_loop, resuming, Scheduler, init, run, enter, push, tell, count, loop_test, worker_turn,
  worker_locks, with_worker, not_called, Step, enters, pushes, tells_none, counts, tests, locks,
  Reachable, starts, steps,
}
use high_speed.Scheduler.Totals.{failing, sleeping, holding}
use high_speed.Scheduler.Counts.{Reachable-sound}
use high_speed.Scheduler.Asleep.{all_asleep, is_outside, lost_wakeup}

-- A worker has taken the first of two coroutines, whose second caller is still inside.
abbrev one_taken : Scheduler ℕ
one_taken = record {
  coroutines = 6 ∷ [];
  threads = resuming 5 ∷ at_loop ∷ [];
  waiting_threads = 0;
  running = true;
  task_num = 0;
  locked = false;
  entering = [];
  pushed = 1;
  told = 0;
  stop = not_called;
  added = 5 ∷ 6 ∷ [];
  taken = 5 ∷ [];
}

one_taken-Reachable : Reachable 2 one_taken
unfolding init run enter push tell count loop_test worker_turn worker_locks with_worker
one_taken-Reachable =
    steps
      (steps
        (steps
          (steps
            (steps
              (steps (steps (steps starts (enters 5 refl)) (pushes [] [] 5 refl refl))
                (tells_none (omega arith) (inl refl)))
              (counts (omega arith)))
            (tests [] (at_loop ∷ []) refl))
          (enters 6 refl))
        (pushes [] [] 6 refl refl))
      (locks [] (at_loop ∷ []) refl refl)

Reachable-sound_example :
    (total failing one_taken.threads ≡ 0)
    × (length one_taken.coroutines ≡ one_taken.task_num + one_taken.pushed + one_taken.told)
    × (one_taken.added ≡ one_taken.taken ++ one_taken.coroutines)
    × (one_taken.waiting_threads ≡ total sleeping one_taken.threads)
    × (total holding one_taken.threads ≡ flag one_taken.locked)
Reachable-sound_example = Reachable-sound one_taken-Reachable

lost_wakeup_example :
    Reachable {A = ℕ} 8 (all_asleep 8 5)
    × ((t : Scheduler ℕ) (step : Step (all_asleep 8 5) t) → is_outside step ≡ true)
lost_wakeup_example = lost_wakeup 7 5
