-- ===== src/Scheduler/Counts.antt =====
-- What the mutex of include/coro/Scheduler.hpp and its counters keep in every state.
use high_speed.Prelude.{
  ℕ, zero, suc, ◌+◌, ◌-◌, ◌≡◌, refl, sym, ap, ◌∙◌, subst, Bool, true, false, ◌||◌, List, [], ◌∷◌,
  ◌++◌, append_assoc, length, length-append, ltb, total, total-append, total-swap, total-replicate,
  if◌then◌else◌, flag, flag_le, arith,
}
use high_speed.Scheduler.{
  Worker, at_loop, at_lock, checked, waiting, notified, exited, resuming, Scheduler, init, run,
  enter, push, tell, count, loop_test, worker_turn, worker_locks, worker_sleeps, worker_wakes,
  with_worker, halt, notify_all, finish_stop, Step, enters, pushes, tells_one, tells_none, counts,
  tests, locks, sleeps, wakes, stirs, returns, halts, tells_all, joins, Reachable, starts, steps,
}
use high_speed.Scheduler.Totals.{sleeping, holding, failing, total-notify}

module _ {A : Type 0} where
  -- The queue and its count.
  abbrev IsQueued : Scheduler A → Type 0
  IsQueued s =
      (s.task_num + s.pushed + s.told ≡ length s.coroutines) × (s.added ≡ s.taken ++ s.coroutines)

  -- The threads and what is said of them.
  abbrev IsManned : ℕ → Bool → List (Worker A) → Type 0
  IsManned asleep locked threads =
      (asleep ≡ total sleeping threads)
      × (flag locked ≡ total holding threads)
      × (total failing threads ≡ 0)

  IsSound : Scheduler A → Type 0
  IsSound s = IsQueued s × IsManned s.waiting_threads s.locked s.threads

  -- A worker changes its place.
  moved :
      (before after : List (Worker A)) (w w' : Worker A) (asleep asleep' : ℕ)
      (locked locked' : Bool)
      → IsManned asleep locked (before ++ w ∷ after)
      → asleep' + sleeping w ≡ asleep + sleeping w'
      → flag locked' + holding w ≡ flag locked + holding w'
      → failing w' ≡ 0
      → IsManned asleep' locked' (before ++ w' ∷ after)
  moved before after w w' asleep asleep' locked locked' (a, b, c) h k l = (
    omega (arith, total-swap sleeping before after w w'),
    omega (arith, total-swap holding before after w w'),
    omega (arith, total-swap failing before after w w'),
  )

  worker_turn-IsQueued :
      (n : ℕ) (running : Bool) (coroutines : List A) (s : Scheduler A)
      → n ≡ s.task_num
      → coroutines ≡ s.coroutines
      → s.locked ≡ false
      → IsQueued s
      → let (w, t) = worker_turn n running coroutines s in
        IsQueued t
        × (t.waiting_threads ≡ s.waiting_threads)
        × (flag t.locked ≡ holding w)
        × (sleeping w ≡ 0)
        × (failing w ≡ 0)
  unfolding worker_turn
  worker_turn-IsQueued zero true coroutines s e f k (q, o) = ((q, o), refl, refl, refl, refl)
  worker_turn-IsQueued zero false coroutines s e f k (q, o) = ((q, o), refl, ap flag k, refl, refl)
  worker_turn-IsQueued (suc n) running [] s e f k (q, o) = absurd (omega (arith, ap length f))
  worker_turn-IsQueued (suc n) running (a ∷ coroutines) s e f k (q, o) = (
    (
      omega (arith, ap length f),
      o ∙ ap (λ xs. s.taken ++ xs) (sym f) ∙ sym (append_assoc s.taken (a ∷ []) coroutines),
    ),
    refl,
    ap flag k,
    refl,
    refl,
  )

  -- A worker that has taken the lock.
  locked_turn :
      (before after : List (Worker A)) (w : Worker A) (s : Scheduler A) (asleep : ℕ)
      → s.locked ≡ false
      → IsQueued s
      → IsManned asleep s.locked (before ++ w ∷ after)
      → asleep ≡ s.waiting_threads + sleeping w
      → holding w ≡ 0
      → IsSound (with_worker before after (worker_locks s))
  unfolding IsSound with_worker worker_locks
  locked_turn before after w s asleep k q m h l =
      let (w', t) = worker_turn s.task_num s.running s.coroutines s in
      let (q', a, b, c, d) =
        worker_turn-IsQueued s.task_num s.running s.coroutines s refl refl k q in
      (
        q',
        moved before after w w' asleep t.waiting_threads s.locked t.locked m (omega arith)
            (omega (arith, ap flag k)) d,
      )

  -- A worker that takes its step without the lock.
  moved_free :
      (before after : List (Worker A)) (w w' : Worker A) (s : Scheduler A)
      → IsManned s.waiting_threads s.locked s.threads
      → s.threads ≡ before ++ w ∷ after
      → sleeping w ≡ sleeping w'
      → holding w ≡ holding w'
      → failing w' ≡ 0
      → IsManned s.waiting_threads s.locked (before ++ w' ∷ after)
  moved_free before after w w' s m e h k l =
      moved before after w w' s.waiting_threads s.waiting_threads s.locked s.locked
        (subst (IsManned s.waiting_threads s.locked) e m) (omega arith) (omega arith) l

  loop_test_moved :
      (before after : List (Worker A)) (s : Scheduler A) (b : Bool)
      → IsManned s.waiting_threads s.locked s.threads
      → s.threads ≡ before ++ at_loop ∷ after
      → IsManned s.waiting_threads s.locked (before ++ (if b then at_lock else exited) ∷ after)
  loop_test_moved before after s true m e =
      moved_free before after at_loop at_lock s m e refl refl refl
  loop_test_moved before after s false m e =
      moved_free before after at_loop exited s m e refl refl refl

  sleeps_moved :
      (before after : List (Worker A)) (s : Scheduler A)
      → IsManned s.waiting_threads s.locked s.threads
      → s.threads ≡ before ++ checked ∷ after
      → IsManned (s.waiting_threads + 1) false (before ++ waiting ∷ after)
  sleeps_moved before after s m e =
      let m' = subst (IsManned s.waiting_threads s.locked) e m in
      moved before after checked waiting s.waiting_threads (s.waiting_threads + 1) s.locked false m'
        (omega arith)
        (omega (arith, flag_le s.locked, m'.1, total-append holding before (checked ∷ after))) refl

  wakes_moved :
      (before after : List (Worker A)) (s : Scheduler A)
      → IsSound s
      → s.threads ≡ before ++ notified ∷ after
      → s.locked ≡ false
      → IsSound (with_worker before after (worker_wakes s))
  unfolding IsSound worker_wakes
  wakes_moved before after s (q, m) e h =
      let m' = subst (IsManned s.waiting_threads s.locked) e m in
      locked_turn before after notified (record s { waiting_threads = s.waiting_threads - 1 })
        s.waiting_threads h q m'
        (omega (arith, m'.0, total-append sleeping before (notified ∷ after))) refl

  Step-IsSound : {s t : Scheduler A} → IsSound s → Step s t → IsSound t
  unfolding IsSound enter push tell count worker_sleeps with_worker halt notify_all finish_stop
      loop_test
  Step-IsSound {s} ((q, o), m) (enters a h) = ((q, o), m)
  Step-IsSound {s} ((q, o), m) (pushes before after a e h) = (
    (
      omega (arith, length-append s.coroutines (a ∷ [])),
      ap (λ xs. xs ++ a ∷ []) o ∙ append_assoc s.taken s.coroutines (a ∷ []),
    ),
    m,
  )
  Step-IsSound {s} ((q, o), m) (tells_one before after h k e) =
      ((omega arith, o), moved_free before after waiting notified s m e refl refl refl)
  Step-IsSound {s} ((q, o), m) (tells_none h k) = ((omega arith, o), m)
  Step-IsSound {s} ((q, o), m) (counts h) = ((omega arith, o), m)
  Step-IsSound {s} ((q, o), m) (tests before after e) =
      ((q, o), loop_test_moved before after s (s.running || ltb 0 s.task_num) m e)
  Step-IsSound {s} ((q, o), m) (locks before after e h) =
      locked_turn before after at_lock s s.waiting_threads h (q, o)
        (subst (IsManned s.waiting_threads s.locked) e m) (omega arith) refl
  Step-IsSound {s} ((q, o), m) (sleeps before after e) = ((q, o), sleeps_moved before after s m e)
  Step-IsSound {s} ((q, o), m) (wakes before after e h) = wakes_moved before after s ((q, o), m) e h
  Step-IsSound {s} ((q, o), m) (stirs before after e) =
      ((q, o), moved_free before after waiting notified s m e refl refl refl)
  Step-IsSound {s} ((q, o), m) (returns before after a e) =
      ((q, o), moved_free before after (resuming a) at_loop s m e refl refl refl)
  Step-IsSound {s} ((q, o), m) halts = ((q, o), m)
  Step-IsSound {s} ((q, o), (a, b, c)) (tells_all h) = (
    (q, o),
    (
      a ∙ sym (total-notify sleeping s.threads refl),
      b ∙ sym (total-notify holding s.threads refl),
      total-notify failing s.threads refl ∙ c,
    ),
  )
  Step-IsSound {s} ((q, o), m) (joins h all) = ((q, o), m)

  -- In every state that a scheduler of `n` threads reaches, whatever its workers and callers do: no
  -- worker is at the failed assertion that the queue is not empty; the queue holds the counted
  -- coroutines and those whose callers are between the push and `task_num_++`; the coroutines have left
  -- it in the order of their pushes; `waiting_threads_` is the number of workers in `wait`; and the
  -- workers that hold the lock are one or none, as the lock is held or not.
  pub Reachable-sound :
      {n : ℕ} {s : Scheduler A}
      → Reachable n s
      → (total failing s.threads ≡ 0)
        × (length s.coroutines ≡ s.task_num + s.pushed + s.told)
        × (s.added ≡ s.taken ++ s.coroutines)
        × (s.waiting_threads ≡ total sleeping s.threads)
        × (total holding s.threads ≡ flag s.locked)
  unfolding IsSound run init
  Reachable-sound r = let ((q, o), (a, b, c)) = go r in (c, sym q, o, a, sym b)
    where
      go : {n : ℕ} {s : Scheduler A} → Reachable n s → IsSound s
      go {n} starts = (
        (refl, refl),
        (
          sym (total-replicate sleeping n at_loop refl),
          sym (total-replicate holding n at_loop refl),
          total-replicate failing n at_loop refl,
        ),
      )
      go (steps r step) = Step-IsSound (go r) step
