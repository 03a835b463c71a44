-- ===== src/ThreadPool.antt =====
-- The thread pool of include/tools/ThreadPool.hpp: what its workers and callers do between two points
-- where another thread can come in.
pub mod Totals
pub mod Counts
pub mod Wakes
pub mod Progress
pub mod Staff
pub mod Graceful
pub mod Stuck
mod Tests
use high_speed.Prelude.{
  ℕ, zero, suc, ◌+◌, ◌-◌, ◌<◌, ◌≡◌, ◌⊎◌, Bool, true, false, List, [], ◌∷◌, ◌++◌, map, replicate,
}

-- Where a worker thread is: before the lock; behind the predicate that lets it wait, with the lock; in
-- `cv_.wait`; there, and notified; in a task; returned.
pub data Worker (A : Type 0) : Type 0 where
  at_lock checked waiting notified exited : Worker A
  in_task : A → Worker A

-- A worker, and whether `threads_` has it: `stopHard` detaches it.
abbrev pub Thread : Type 0 → Type 0
Thread A = Worker A × Bool

-- How far `stop` has come, or (`true`) `stopHard`.
pub data Stop : Type 0 where
  not_called joined : Stop
  halted told_all : Bool → Stop

-- The members of `ThreadPool`; whether the mutex is held across a step; the callers of `_addTask` before
-- the notification; `stop`; all tasks in the order they were added, and in the order they left the queue.
-- `threads` has the detached workers too.
pub record ThreadPool (A : Type 0) : Type 0 where
  pub task_queue : List A
  pub task_num : ℕ
  pub waiting_threads : ℕ
  pub running : Bool
  pub threads : List (Thread A)
  pub locked : Bool
  pub pushed : ℕ
  pub stop : Stop
  pub added : List A
  pub removed : List A

abbrev pub threads_num : ℕ
threads_num = 2

unfoldable pub init : {A : Type 0} → ThreadPool A
init = record {
  task_queue = [];
  task_num = 0;
  waiting_threads = 0;
  running = false;
  threads = [];
  locked = false;
  pushed = 0;
  stop = not_called;
  added = [];
  removed = [];
}

-- `_addTask`: under the lock; the notification, from the threads it leaves.
unfoldable pub add_task : {A : Type 0} → A → ThreadPool A → ThreadPool A
add_task a p = record p {
  task_queue = p.task_queue ++ a ∷ [];
  task_num = p.task_num + 1;
  pushed = p.pushed + 1;
  added = p.added ++ a ∷ [];
}

unfoldable pub tell : {A : Type 0} → List (Thread A) → ThreadPool A → ThreadPool A
tell threads p = record p { threads = threads; pushed = p.pushed - 1 }

-- `run`, from the value that `running_` had.
unfoldable pub run_from : {A : Type 0} → Bool → ThreadPool A → ThreadPool A
run_from true p = p
run_from false p = record p {
  running = true;
  threads = p.threads ++ replicate threads_num (at_lock, true);
}

unfoldable pub run : {A : Type 0} → ThreadPool A → ThreadPool A
run p = run_from p.running p

-- `worker` with the lock, from the queue and `running_`: it is about to wait, returns, or takes the first
-- task. `n` counts the other threads in `wait`.
unfoldable pub worker_turn :
    {A : Type 0} → (n : ℕ) → Bool → List A → ThreadPool A → Worker A × ThreadPool A
worker_turn n true [] p = (checked, record p { waiting_threads = n + 1; locked = true })
worker_turn n false [] p = (exited, record p { waiting_threads = n })
worker_turn n running (a ∷ queue) p = (
  in_task a,
  record p {
    task_queue = queue;
    task_num = p.task_num - 1;
    waiting_threads = n;
    removed = p.removed ++ a ∷ [];
  },
)

-- Behind the lock: `waiting_threads_++`, and the test of the predicate.
unfoldable pub worker_enters : {A : Type 0} → ThreadPool A → Worker A × ThreadPool A
worker_enters p = worker_turn p.waiting_threads p.running p.task_queue p

-- `cv_.wait` gives the lock back and blocks.
unfoldable pub worker_sleeps : {A : Type 0} → ThreadPool A → Worker A × ThreadPool A
worker_sleeps p = (waiting, record p { locked = false })

-- With the lock again, which counts this thread among those that wait.
unfoldable pub worker_wakes : {A : Type 0} → ThreadPool A → Worker A × ThreadPool A
worker_wakes p = worker_turn (p.waiting_threads - 1) p.running p.task_queue p

-- `running_.exchange(false)` of `stop` and of `stopHard`, from the value that `running_` had.
unfoldable pub halt_from : {A : Type 0} → Bool → Bool → ThreadPool A → ThreadPool A
halt_from hard false p = p
halt_from hard true p = record p { running = false; stop = halted hard }

unfoldable pub halt : {A : Type 0} → Bool → ThreadPool A → ThreadPool A
halt hard p = halt_from hard p.running p

unfoldable pub notify : {A : Type 0} → Thread A → Thread A
notify (waiting, j) = (notified, j)
notify (at_lock, j) = (at_lock, j)
notify (checked, j) = (checked, j)
notify (notified, j) = (notified, j)
notify (exited, j) = (exited, j)
notify (in_task a, j) = (in_task a, j)

-- `cv_.notify_all()`.
unfoldable pub notify_all : {A : Type 0} → Bool → ThreadPool A → ThreadPool A
notify_all hard p = record p { threads = map notify p.threads; stop = told_all hard }

-- `threads_.clear()` behind the joins: the threads that are left.
unfoldable pub detached_only : {A : Type 0} → List (Thread A) → List (Thread A)
detached_only [] = []
detached_only ((w, true) ∷ ts) = detached_only ts
detached_only ((w, false) ∷ ts) = (w, false) ∷ detached_only ts

unfoldable pub join_all : {A : Type 0} → ThreadPool A → ThreadPool A
join_all p = record p { threads = detached_only p.threads; stop = joined }

-- The loop that empties the queue at the end of `stop`.
unfoldable pub drain : {A : Type 0} → List A → ThreadPool A → ThreadPool A
drain [] p = record p { task_queue = [] }
drain (a ∷ queue) p =
    drain queue (record p { task_num = p.task_num - 1; removed = p.removed ++ a ∷ [] })

unfoldable pub finish_stop : {A : Type 0} → ThreadPool A → ThreadPool A
finish_stop p = drain p.task_queue (record p { stop = not_called })

-- The end of `stopHard`: it detaches each thread and clears `threads_`.
unfoldable pub detach : {A : Type 0} → Thread A → Thread A
detach (w, j) = (w, false)

unfoldable pub detach_all : {A : Type 0} → ThreadPool A → ThreadPool A
detach_all p = record p { threads = map detach p.threads; stop = not_called }

unfoldable pub with_worker :
    {A : Type 0} → List (Thread A) → List (Thread A) → Bool → Worker A × ThreadPool A → ThreadPool A
with_worker before after j (w, p) = record p { threads = before ++ (w, j) ∷ after }

-- What `stop` waits for by its joins.
pub data AllExited {A : Type 0} : List (Thread A) → Type 0 where
  nil : AllExited []
  cons : {ts : List (Thread A)} → AllExited ts → AllExited ((exited, true) ∷ ts)
  detached : {w : Worker A} {ts : List (Thread A)} → AllExited ts → AllExited ((w, false) ∷ ts)

-- No worker to notify.
pub data NoneWaits {A : Type 0} : List (Thread A) → Type 0 where
  nil : NoneWaits []
  cons : {t : Thread A} {ts : List (Thread A)} → notify t ≡ t → NoneWaits ts → NoneWaits (t ∷ ts)

-- `run` and the two stops exclude each other, as they change `threads_` without the mutex.
pub data Step {A : Type 0} (p : ThreadPool A) : ThreadPool A → Type 0 where
  adds : (a : A) → p.locked ≡ false → Step p (add_task a p)
  tells_one :
      (before after : List (Thread A)) (j : Bool)
      → 0 < p.pushed
      → 0 < p.waiting_threads
      → p.threads ≡ before ++ (waiting, j) ∷ after
      → Step p (tell (before ++ (notified, j) ∷ after) p)
  tells_none :
      0 < p.pushed → (p.waiting_threads ≡ 0) ⊎ NoneWaits p.threads → Step p (tell p.threads p)
  runs : p.stop ≡ not_called → Step p (run p)
  halts : (hard : Bool) → p.stop ≡ not_called → Step p (halt hard p)
  tells_all : (hard : Bool) → p.stop ≡ halted hard → Step p (notify_all hard p)
  joins : p.stop ≡ told_all false → AllExited p.threads → Step p (join_all p)
  drains : p.stop ≡ joined → p.locked ≡ false → Step p (finish_stop p)
  detaches : p.stop ≡ told_all true → Step p (detach_all p)
  enters :
      (before after : List (Thread A)) (j : Bool)
      → p.threads ≡ before ++ (at_lock, j) ∷ after
      → p.locked ≡ false
      → Step p (with_worker before after j (worker_enters p))
  sleeps :
      (before after : List (Thread A)) (j : Bool)
      → p.threads ≡ before ++ (checked, j) ∷ after
      → Step p (with_worker before after j (worker_sleeps p))
  wakes :
      (before after : List (Thread A)) (j : Bool)
      → p.threads ≡ before ++ (notified, j) ∷ after
      → p.locked ≡ false
      → Step p (with_worker before after j (worker_wakes p))
  -- `cv_.wait` may also return by itself.
  stirs :
      (before after : List (Thread A)) (j : Bool)
      → p.threads ≡ before ++ (waiting, j) ∷ after
      → Step p (with_worker before after j (notified, p))
  -- The task returns, or its exception is caught.
  returns :
      (before after : List (Thread A)) (j : Bool) (a : A)
      → p.threads ≡ before ++ (in_task a, j) ∷ after
      → Step p (with_worker before after j (at_lock, p))

pub data Reachable {A : Type 0} : ThreadPool A → Type 0 where
  starts : Reachable init
  steps : {p q : ThreadPool A} → Reachable p → Step p q → Reachable q
