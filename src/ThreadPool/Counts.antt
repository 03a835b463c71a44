-- ===== src/ThreadPool/Counts.antt =====
-- The counters of include/tools/ThreadPool.hpp tell the truth, and its queue is first in, first out.
use high_speed.Prelude.{
  ℕ, ◌+◌, ◌-◌, ◌≡◌, refl, sym, ap, ◌∙◌, subst, Bool, true, false, List, [], ◌∷◌, ◌++◌, append_assoc,
  length, length-append, flag, flag_le, arith,
}
use high_speed.ThreadPool.{
  Worker, Thread, at_lock, checked, waiting, notified, in_task, ThreadPool, not_called, init,
  add_task, tell, run_from, run, worker_turn, worker_enters, worker_sleeps, worker_wakes, halt,
  halt_from, notify_all, detach_all, join_all, drain, finish_stop, with_worker, Step, adds,
  tells_one, tells_none, runs, halts, tells_all, joins, drains, detaches, enters, sleeps, wakes,
  stirs, returns, Reachable, starts, steps,
}
use high_speed.ThreadPool.Totals.{
  counted, holding, tally, tally-swap, tally-append, tally-detach, tally-detached_only,
  tally-notify,
}

module _ {A : Type 0} where
  -- The counter and the queue.
  abbrev IsCounted : ThreadPool A → Type 0
  IsCounted p = (p.task_num ≡ length p.task_queue) × (p.added ≡ p.removed ++ p.task_queue)

  -- The threads and what is said of them.
  abbrev IsManned : ℕ → Bool → List (Thread A) → Type 0
  IsManned n locked threads = (n ≡ tally counted threads) × (flag locked ≡ tally holding threads)

  IsExact : ThreadPool A → Type 0
  IsExact p = IsCounted p × IsManned p.waiting_threads p.locked p.threads

  -- A worker changes its place.
  moved :
      (before after : List (Thread A)) (j : Bool) (w w' : Worker A) (n n' : ℕ)
      (locked locked' : Bool)
      → IsManned n locked (before ++ (w, j) ∷ after)
      → n' + counted w ≡ n + counted w'
      → flag locked' + holding w ≡ flag locked + holding w'
      → IsManned n' locked' (before ++ (w', j) ∷ after)
  moved before after j w w' n n' locked locked' (a, b) h k = (
    omega (arith, tally-swap counted before after j w w'),
    omega (arith, tally-swap holding before after j w w'),
  )

  worker_turn-IsCounted :
      (n : ℕ) (running : Bool) (queue : List A) (j : Bool) (p : ThreadPool A)
      → p.task_queue ≡ queue
      → p.locked ≡ false
      → IsCounted p
      → let (w, q) = worker_turn n running queue p in
        IsCounted q × (q.waiting_threads ≡ n + counted w) × (flag q.locked ≡ holding w)
  unfolding worker_turn
  worker_turn-IsCounted n true [] j p e h c = (c, refl, refl)
  worker_turn-IsCounted n false [] j p e h c = (c, omega arith, ap flag h)
  worker_turn-IsCounted n running (a ∷ queue) j p e h (k, o) = (
    (
      omega (arith, ap length e),
      o ∙ ap (λ xs. p.removed ++ xs) e ∙ sym (append_assoc p.removed (a ∷ []) queue),
    ),
    omega arith,
    ap flag h,
  )

  -- A worker that has taken the lock; `n` counts the others in `wait`.
  locked_turn :
      (before after : List (Thread A)) (j : Bool) (w : Worker A) (n : ℕ) (p : ThreadPool A)
      → p.locked ≡ false
      → IsExact p
      → p.threads ≡ before ++ (w, j) ∷ after
      → p.waiting_threads ≡ n + counted w
      → holding w ≡ 0
      → IsExact (with_worker before after j (worker_turn n p.running p.task_queue p))
  unfolding IsExact with_worker
  locked_turn before after j w n p h (c, m) e k l =
      let (w', q) = worker_turn n p.running p.task_queue p in
      let (c', a, b) = worker_turn-IsCounted n p.running p.task_queue j p refl h c in
      (
        c',
        moved before after j w w' p.waiting_threads q.waiting_threads p.locked q.locked
            (subst (IsManned p.waiting_threads p.locked) e m) (omega arith)
            (omega (arith, ap flag h)),
      )

  -- A worker that takes its step without the lock.
  moved_free :
      (before after : List (Thread A)) (j : Bool) (w w' : Worker A) (p : ThreadPool A)
      → IsManned p.waiting_threads p.locked p.threads
      → p.threads ≡ before ++ (w, j) ∷ after
      → counted w ≡ counted w'
      → holding w ≡ holding w'
      → IsManned p.waiting_threads p.locked (before ++ (w', j) ∷ after)
  moved_free before after j w w' p m e h k =
      moved before after j w w' p.waiting_threads p.waiting_threads p.locked p.locked
        (subst (IsManned p.waiting_threads p.locked) e m) (omega arith) (omega arith)

  sleeps_moved :
      (before after : List (Thread A)) (j : Bool) (p : ThreadPool A)
      → IsManned p.waiting_threads p.locked p.threads
      → p.threads ≡ before ++ (checked, j) ∷ after
      → IsManned p.waiting_threads false (before ++ (waiting, j) ∷ after)
  sleeps_moved before after j p m e =
      let m' = subst (IsManned p.waiting_threads p.locked) e m in
      moved before after j checked waiting p.waiting_threads p.waiting_threads p.locked false m'
        (omega arith)
        (omega (arith, flag_le p.locked, m'.1, tally-append holding before ((checked, j) ∷ after)))

  drain-IsExact :
      (queue : List A) (p : ThreadPool A)
      → p.task_num ≡ length queue
      → p.added ≡ p.removed ++ queue
      → IsManned p.waiting_threads p.locked p.threads
      → IsExact (drain queue p)
  unfolding drain IsExact
  drain-IsExact [] p k o m = ((k, o), m)
  drain-IsExact (a ∷ queue) p k o m =
      drain-IsExact queue (record p { task_num = p.task_num - 1; removed = p.removed ++ a ∷ [] })
        (omega arith) (o ∙ sym (append_assoc p.removed (a ∷ []) queue)) m

  run_from-IsExact : (running : Bool) (p : ThreadPool A) → IsExact p → IsExact (run_from running p)
  unfolding run_from IsExact
  run_from-IsExact true p h = h
  run_from-IsExact false p (c, (a, b)) =
      let more : List (Thread A) = (at_lock, true) ∷ (at_lock, true) ∷ [] in
      (
        c,
        (
          omega (arith, tally-append counted p.threads more),
          omega (arith, tally-append holding p.threads more),
        ),
      )

  halt_from-IsExact :
      (hard running : Bool) (p : ThreadPool A) → IsExact p → IsExact (halt_from hard running p)
  unfolding halt_from IsExact
  halt_from-IsExact hard true p h = h
  halt_from-IsExact hard false p h = h

  Step-IsExact : {p q : ThreadPool A} → IsExact p → Step p q → IsExact q
  unfolding IsExact worker_enters worker_sleeps worker_wakes add_task tell run halt notify_all
      detach_all join_all finish_stop with_worker
  Step-IsExact {p} ((k, o), m) (adds a h) = (
    (
      omega (arith, length-append p.task_queue (a ∷ [])),
      ap (λ xs. xs ++ a ∷ []) o ∙ append_assoc p.removed p.task_queue (a ∷ []),
    ),
    m,
  )
  Step-IsExact {p} (c, m) (tells_one before after j h k e) =
      (c, moved_free before after j waiting notified p m e refl refl)
  Step-IsExact {p} x (tells_none h k) = x
  Step-IsExact {p} x (runs h) = run_from-IsExact p.running p x
  Step-IsExact {p} x (halts hard h) = halt_from-IsExact hard p.running p x
  Step-IsExact {p} (c, (a, b)) (tells_all hard h) = (
    c,
    (a ∙ sym (tally-notify counted p.threads refl), b ∙ sym (tally-notify holding p.threads refl)),
  )
  Step-IsExact {p} (c, (a, b)) (joins h all) = (
    c,
    (
      a ∙ sym (tally-detached_only counted refl all),
      b ∙ sym (tally-detached_only holding refl all),
    ),
  )
  Step-IsExact {p} ((k, o), m) (drains h l) =
      drain-IsExact p.task_queue (record p { stop = not_called }) k o m
  Step-IsExact {p} (c, (a, b)) (detaches h) =
      (c, (a ∙ sym (tally-detach counted p.threads), b ∙ sym (tally-detach holding p.threads)))
  Step-IsExact {p} x (enters before after j e h) =
      locked_turn before after j at_lock p.waiting_threads p h x e (omega arith) refl
  Step-IsExact {p} (c, m) (sleeps before after j e) = (c, sleeps_moved before after j p m e)
  Step-IsExact {p} (c, m) (wakes before after j e h) =
      locked_turn before after j notified (p.waiting_threads - 1) p h (c, m) e
        (omega
          (arith, m.0, ap (tally counted) e, tally-append counted before ((notified, j) ∷ after)))
        refl
  Step-IsExact {p} (c, m) (stirs before after j e) =
      (c, moved_free before after j waiting notified p m e refl refl)
  Step-IsExact {p} (c, m) (returns before after j a e) =
      (c, moved_free before after j (in_task a) at_lock p m e refl refl)

  Reachable-IsExact : {p : ThreadPool A} → Reachable p → IsExact p
  unfolding IsExact init
  Reachable-IsExact starts = ((refl, refl), (refl, refl))
  Reachable-IsExact (steps r step) = Step-IsExact (Reachable-IsExact r) step

  -- In every state that the pool reaches, whatever the workers and the clients do: the task count is the
  -- length of the queue, the count of waiting threads is the number of workers that wait or are about to,
  -- the tasks have left the queue in the order in which they were added, and the workers that hold the
  -- lock between two steps are one or none, as the lock is held or not.
  pub Reachable-exact :
      {p : ThreadPool A}
      → Reachable p
      → (p.task_num ≡ length p.task_queue)
        × (p.waiting_threads ≡ tally counted p.threads)
        × (p.added ≡ p.removed ++ p.task_queue)
        × (tally holding p.threads ≡ flag p.locked)
  unfolding IsExact
  Reachable-exact r = let ((k, o), (a, b)) = Reachable-IsExact r in (k, a, o, sym b)
