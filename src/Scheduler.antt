-- ===== src/Scheduler.antt =====
-- The coroutine scheduler of include/coro/Scheduler.hpp: what its threads and callers do between two
-- points where another thread can come in. The handles of coroutines are a type `A`.
pub mod Totals
pub mod Counts
pub mod Asleep
mod Tests
use high_speed.Prelude.{
  ℕ, zero, suc, ◌+◌, ◌-◌, ◌<◌, ◌≡◌, ◌⊎◌, Bool, true, false, ◌||◌, List, [], ◌∷◌, ◌++◌, map,
  replicate, ltb, if◌then◌else◌,
}

-- Where a worker thread is: at the test of its loop; before the lock; behind the test that it has to
-- wait, with the lock; in `cv_.wait`; there, and notified; in a coroutine; returned; at the failed
-- assertion that the queue is not empty.
pub data Worker (A : Type 0) : Type 0 where
  at_loop at_lock checked waiting notified exited broken : Worker A
  resuming : A → Worker A

-- How far `stop` has come. Its assertion is that no task is left.
pub data Stop : Type 0 where
  not_called halted told_all stopped assert_failed : Stop

-- The members of `Scheduler`; whether the mutex is held across a step; the callers of `add_coroutine`
-- before the lock, before the notification and before `task_num_++`; `stop`; the handles in the order of
-- their push, and in the order they were taken.
pub record Scheduler (A : Type 0) : Type 0 where
  pub coroutines : List A
  pub threads : List (Worker A)
  pub waiting_threads : ℕ
  pub running : Bool
  pub task_num : ℕ
  pub locked : Bool
  pub entering : List A
  pub pushed : ℕ
  pub told : ℕ
  pub stop : Stop
  pub added : List A
  pub taken : List A

unfoldable pub init : {A : Type 0} → Scheduler A
init = record {
  coroutines = [];
  threads = [];
  waiting_threads = 0;
  running = false;
  task_num = 0;
  locked = false;
  entering = [];
  pushed = 0;
  told = 0;
  stop = not_called;
  added = [];
  taken = [];
}

-- `run`, for `n` threads.
unfoldable pub run : {A : Type 0} → ℕ → Scheduler A → Scheduler A
run n s = record s { running = true; threads = s.threads ++ replicate n at_loop }

-- In `add_coroutine`: behind the assertion; the push; the notification; the count.
unfoldable pub enter : {A : Type 0} → A → Scheduler A → Scheduler A
enter a s = record s { entering = a ∷ s.entering }

unfoldable pub push : {A : Type 0} → List A → A → Scheduler A → Scheduler A
push entering a s = record s {
  entering = entering;
  coroutines = s.coroutines ++ a ∷ [];
  pushed = s.pushed + 1;
  added = s.added ++ a ∷ [];
}

unfoldable pub tell : {A : Type 0} → List (Worker A) → Scheduler A → Scheduler A
tell threads s = record s { threads = threads; pushed = s.pushed - 1; told = s.told + 1 }

unfoldable pub count : {A : Type 0} → Scheduler A → Scheduler A
count s = record s { told = s.told - 1; task_num = s.task_num + 1 }

-- `while (running_.load() || task_num_ > 0)`.
unfoldable pub loop_test : {A : Type 0} → Scheduler A → Worker A
loop_test s = if s.running || ltb 0 s.task_num then at_lock else exited

-- With the lock, from `task_num_`, `running_` and the queue, up to the wait, the return or the task.
unfoldable pub worker_turn : {A : Type 0} → ℕ → Bool → List A → Scheduler A → Worker A × Scheduler A
worker_turn zero true coroutines s = (checked, record s { locked = true })
worker_turn zero false coroutines s = (exited, s)
worker_turn (suc n) running [] s = (broken, s)
worker_turn (suc n) running (a ∷ coroutines) s =
    (resuming a, record s { coroutines = coroutines; task_num = n; taken = s.taken ++ a ∷ [] })

unfoldable pub worker_locks : {A : Type 0} → Scheduler A → Worker A × Scheduler A
worker_locks s = worker_turn s.task_num s.running s.coroutines s

-- `waiting_threads_++`, and `cv_.wait` gives the lock back.
unfoldable pub worker_sleeps : {A : Type 0} → Scheduler A → Worker A × Scheduler A
worker_sleeps s = (waiting, record s { waiting_threads = s.waiting_threads + 1; locked = false })

-- `cv_.wait` returns with the lock.
unfoldable pub worker_wakes : {A : Type 0} → Scheduler A → Worker A × Scheduler A
worker_wakes s = worker_locks (record s { waiting_threads = s.waiting_threads - 1 })

unfoldable pub with_worker :
    {A : Type 0} → List (Worker A) → List (Worker A) → Worker A × Scheduler A → Scheduler A
with_worker before after (w, s) = record s { threads = before ++ w ∷ after }

unfoldable pub notify : {A : Type 0} → Worker A → Worker A
notify waiting = notified
notify at_loop = at_loop
notify at_lock = at_lock
notify checked = checked
notify notified = notified
notify exited = exited
notify broken = broken
notify (resuming a) = resuming a

-- `stop`: the flag; `cv_.notify_all()`; behind the joins.
unfoldable pub halt : {A : Type 0} → Scheduler A → Scheduler A
halt s = record s { running = false; stop = halted }

unfoldable pub notify_all : {A : Type 0} → Scheduler A → Scheduler A
notify_all s = record s { threads = map notify s.threads; stop = told_all }

unfoldable pub finish_stop : {A : Type 0} → Scheduler A → Scheduler A
finish_stop s = record s { stop = if ltb 0 s.task_num then assert_failed else stopped }

-- What `stop` waits for by its joins.
pub data AllExited {A : Type 0} : List (Worker A) → Type 0 where
  nil : AllExited []
  cons : {ws : List (Worker A)} → AllExited ws → AllExited (exited ∷ ws)

-- No worker to notify.
pub data NoneWaits {A : Type 0} : List (Worker A) → Type 0 where
  nil : NoneWaits []
  cons : {w : Worker A} {ws : List (Worker A)} → notify w ≡ w → NoneWaits ws → NoneWaits (w ∷ ws)

pub data Step {A : Type 0} (s : Scheduler A) : Scheduler A → Type 0 where
  enters : (a : A) → s.running ≡ true → Step s (enter a s)
  pushes :
      (before after : List A) (a : A)
      → s.entering ≡ before ++ a ∷ after
      → s.locked ≡ false
      → Step s (push (before ++ after) a s)
  tells_one :
      (before after : List (Worker A))
      → 0 < s.pushed
      → 0 < s.waiting_threads
      → s.threads ≡ before ++ waiting ∷ after
      → Step s (tell (before ++ notified ∷ after) s)
  tells_none :
      0 < s.pushed → (s.waiting_threads ≡ 0) ⊎ NoneWaits s.threads → Step s (tell s.threads s)
  counts : 0 < s.told → Step s (count s)
  tests :
      (before after : List (Worker A))
      → s.threads ≡ before ++ at_loop ∷ after
      → Step s (with_worker before after (loop_test s, s))
  locks :
      (before after : List (Worker A))
      → s.threads ≡ before ++ at_lock ∷ after
      → s.locked ≡ false
      → Step s (with_worker before after (worker_locks s))
  sleeps :
      (before after : List (Worker A))
      → s.threads ≡ before ++ checked ∷ after
      → Step s (with_worker before after (worker_sleeps s))
  wakes :
      (before after : List (Worker A))
      → s.threads ≡ before ++ notified ∷ after
      → s.locked ≡ false
      → Step s (with_worker before after (worker_wakes s))
  -- `cv_.wait` may also return by itself.
  stirs :
      (before after : List (Worker A))
      → s.threads ≡ before ++ waiting ∷ after
      → Step s (with_worker before after (notified, s))
  -- The coroutine suspends or ends.
  returns :
      (before after : List (Worker A)) (a : A)
      → s.threads ≡ before ++ resuming a ∷ after
      → Step s (with_worker before after (at_loop, s))
  halts : Step s (halt s)
  tells_all : s.stop ≡ halted → Step s (notify_all s)
  joins : s.stop ≡ told_all → AllExited s.threads → Step s (finish_stop s)

-- From `get_instance`, which runs the scheduler with `n` threads.
pub data Reachable {A : Type 0} (n : ℕ) : Scheduler A → Type 0 where
  starts : Reachable n (run n init)
  steps : {s t : Scheduler A} → Reachable n s → Step s t → Reachable n t
