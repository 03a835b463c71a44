-- ===== src/Strand.antt =====
-- The strand of include/net/Strand.hpp: its two critical sections, and the threads around them. The
-- executor is the thread pool; here it may start a job handed to it at any time, in any order, or drop
-- it, as `stop` of include/thread/ThreadPool.hpp does when it empties the pool's queue.
pub mod Serial
pub mod Dropped
mod Tests
use high_speed.Prelude.{
  ℕ, suc, ◌+◌, Bool, true, false, List, [], ◌∷◌, ◌++◌, ◌≡◌, Option, none, some, if◌then◌else◌,
}

-- What the mutex guards.
pub record Strand (A : Type 0) : Type 0 where
  pub queue : List A
  pub running : Bool

-- In `addTask`: push, and `running_.exchange(true)`; the result is `needSchedule`.
unfoldable pub push_task : {A : Type 0} → A → Strand A → Bool × Strand A
push_task a s =
    (if s.running then false else true, record { queue = s.queue ++ a ∷ []; running = true })

unfoldable pub pop_front : {A : Type 0} → Strand A → List A → Option A × Strand A
pop_front s [] = (none, record { queue = []; running = false })
pop_front s (a ∷ as') = (some a, record s { queue = as' })

-- In `scheduleNext`.
unfoldable pub take_next : {A : Type 0} → Strand A → Option A × Strand A
take_next s = pop_front s s.queue

-- The strand; the calls of `scheduleNext` that have not taken the lock; the jobs handed to the
-- executor that have not begun; those whose task runs; all tasks in the order they were added; all in
-- the order they began; those whose job the executor dropped.
pub record System (A : Type 0) : Type 0 where
  pub strand : Strand A
  pub callers : ℕ
  pub posted : List A
  pub executing : List A
  pub added : List A
  pub begun : List A
  pub lost : List A

unfoldable pub add_task : {A : Type 0} → A → System A → System A
add_task a s =
    let (need_schedule, strand') = push_task a s.strand in
    record s {
      strand = strand';
      callers = if need_schedule then suc s.callers else s.callers;
      added = s.added ++ a ∷ [];
    }

-- One of the callers goes on: it returns, or hands the job to the executor.
unfoldable pub post : {A : Type 0} → ℕ → Option A × Strand A → System A → System A
post callers (none, strand') s = record s { strand = strand'; callers = callers }
post callers (some a, strand') s = record s {
  strand = strand';
  callers = callers;
  posted = s.posted ++ a ∷ [];
}

unfoldable pub schedule_next : {A : Type 0} → ℕ → System A → System A
schedule_next callers s = post callers (take_next s.strand) s

-- The executor gives up a job that it was handed.
unfoldable pub drop_job : {A : Type 0} → List A → List A → A → System A → System A
drop_job before after a s = record s { posted = before ++ after; lost = s.lost ++ a ∷ [] }

pub data Step {A : Type 0} (s : System A) : System A → Type 0 where
  adds : (a : A) → Step s (add_task a s)
  schedules : (callers : ℕ) → s.callers ≡ suc callers → Step s (schedule_next callers s)
  -- The executor starts a job: `next()` begins.
  begins :
      (before after : List A) (a : A)
      → s.posted ≡ before ++ a ∷ after
      → Step s (record s {
        posted = before ++ after;
        executing = a ∷ s.executing;
        begun = s.begun ++ a ∷ [];
      })
  drops :
      (before after : List A) (a : A)
      → s.posted ≡ before ++ a ∷ after
      → Step s (drop_job before after a s)
  -- `next()` returns, and the job calls `scheduleNext`.
  finishes :
      (before after : List A) (a : A)
      → s.executing ≡ before ++ a ∷ after
      → Step s (record s { executing = before ++ after; callers = suc s.callers })

unfoldable pub start : {A : Type 0} → System A
start = record {
  strand = record { queue = []; running = false };
  callers = 0;
  posted = [];
  executing = [];
  added = [];
  begun = [];
  lost = [];
}

pub data Reachable {A : Type 0} : System A → Type 0 where
  starts : Reachable start
  steps : {s t : System A} → Reachable s → Step s t → Reachable t
