-- ===== src/Scheduler/Totals.antt =====
-- Totals over the worker threads of include/coro/Scheduler.hpp.
use high_speed.Prelude.{ℕ, ◌≡◌, refl, List, [], ◌∷◌, map, total, arith}
use high_speed.Scheduler.{
  Worker, at_loop, at_lock, checked, waiting, notified, exited, broken, resuming, notify,
}

module _ {A : Type 0} where
  -- 1 for a worker that `waiting_threads_` counts.
  abbrev pub sleeping : Worker A → ℕ
  sleeping at_loop = 0
  sleeping at_lock = 0
  sleeping checked = 0
  sleeping waiting = 1
  sleeping notified = 1
  sleeping exited = 0
  sleeping broken = 0
  sleeping (resuming a) = 0

  -- 1 for a worker that holds the lock.
  abbrev pub holding : Worker A → ℕ
  holding at_loop = 0
  holding at_lock = 0
  holding checked = 1
  holding waiting = 0
  holding notified = 0
  holding exited = 0
  holding broken = 0
  holding (resuming a) = 0

  -- 1 for a worker whose assertion failed.
  abbrev pub failing : Worker A → ℕ
  failing at_loop = 0
  failing at_lock = 0
  failing checked = 0
  failing waiting = 0
  failing notified = 0
  failing exited = 0
  failing broken = 1
  failing (resuming a) = 0

  pub total-notify :
      (f : Worker A → ℕ) (ws : List (Worker A))
      → f notified ≡ f waiting
      → total f (map notify ws) ≡ total f ws
  unfolding notify
  total-notify f [] h = refl
  total-notify f (at_loop ∷ ws) h = omega (arith, total-notify f ws h)
  total-notify f (at_lock ∷ ws) h = omega (arith, total-notify f ws h)
  total-notify f (checked ∷ ws) h = omega (arith, total-notify f ws h)
  total-notify f (waiting ∷ ws) h = omega (arith, total-notify f ws h)
  total-notify f (notified ∷ ws) h = omega (arith, total-notify f ws h)
  total-notify f (exited ∷ ws) h = omega (arith, total-notify f ws h)
  total-notify f (broken ∷ ws) h = omega (arith, total-notify f ws h)
  total-notify f (resuming a ∷ ws) h = omega (arith, total-notify f ws h)
