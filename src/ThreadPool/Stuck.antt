-- ===== src/ThreadPool/Stuck.antt =====
-- `stop` of include/tools/ThreadPool.hpp notifies without the mutex, between a worker's test of the
-- predicate and its wait.
use high_speed.Prelude.{
  ◌≡◌, ◌≢◌, refl, sym, ap, subst, Bool, true, false, List, [], ◌∷◌, ◌++◌, append_assoc, append-nil,
  inl, arith,
}
use high_speed.ThreadPool.{
  Worker, Thread, at_lock, checked, waiting, notified, exited, in_task, not_called, told_all,
  ThreadPool, init, add_task, tell, run_from, run, worker_turn, worker_enters, worker_sleeps,
  worker_wakes, halt, halt_from, notify, notify_all, with_worker, AllExited, nil, cons, detached,
  Step, adds, tells_one, tells_none, runs, halts, tells_all, joins, drains, detaches, enters,
  sleeps, wakes, stirs, returns, Reachable, starts, steps,
}

module _ {A : Type 0} where
  -- The workers have run the tasks `xs`, and are both before the lock.
  abbrev ready : List A → ThreadPool A
  ready xs = record {
    task_queue = [];
    task_num = 0;
    waiting_threads = 0;
    running = true;
    threads = (at_lock, true) ∷ (at_lock, true) ∷ [];
    locked = false;
    pushed = 0;
    stop = not_called;
    added = xs;
    removed = xs;
  }

  -- `stop` is at its joins, a worker has returned, and the other one waits.
  abbrev pub hung : List A → ThreadPool A
  hung xs = record {
    task_queue = [];
    task_num = 0;
    waiting_threads = 1;
    running = false;
    threads = (exited, true) ∷ (waiting, true) ∷ [];
    locked = false;
    pushed = 0;
    stop = told_all false;
    added = xs;
    removed = xs;
  }

  serves : (xs : List A) (a : A) → Reachable (ready xs) → Reachable (ready (xs ++ a ∷ []))
  unfolding add_task tell with_worker worker_enters worker_turn
  serves xs a r =
      let rest : List (Thread A) = (at_lock, true) ∷ [] in
      steps
        (steps (steps (steps r (adds a refl)) (tells_none (omega arith) (inl refl)))
          (enters [] rest true refl refl))
        (returns [] rest true a refl)

  serves_all : (xs ys : List A) → Reachable (ready xs) → Reachable (ready (xs ++ ys))
  serves_all xs [] r = subst (λ zs. Reachable (ready zs)) (sym (append-nil xs)) r
  serves_all xs (y ∷ ys) r =
      subst (λ zs. Reachable (ready zs)) (append_assoc xs (y ∷ []) ys)
        (serves_all (xs ++ y ∷ []) ys (serves xs y r))

  ready-Reachable : (xs : List A) → Reachable (ready xs)
  unfolding init run run_from
  ready-Reachable xs = serves_all [] xs (steps starts (runs refl))

  hung-Reachable : (xs : List A) → Reachable (hung xs)
  unfolding with_worker worker_enters worker_sleeps worker_wakes worker_turn halt halt_from
      notify_all notify
  hung-Reachable xs =
      let first : List (Thread A) = (at_lock, true) ∷ [] in
      steps
        (steps
          (steps
            (steps
              (steps
                (steps (steps (ready-Reachable xs) (enters [] first true refl refl))
                  (sleeps [] first true refl))
                (enters ((waiting, true) ∷ []) [] true refl refl))
              (halts false refl))
            (tells_all false refl))
          (sleeps ((notified, true) ∷ []) [] true refl))
        (wakes [] ((waiting, true) ∷ []) true refl refl)

  -- What neither the workers nor `stop` do by themselves: a new task, and a `wait` that returns by itself.
  abbrev pub is_outside : {p q : ThreadPool A} → Step p q → Bool
  is_outside (adds a h) = true
  is_outside (tells_one before after j h k e) = false
  is_outside (tells_none h k) = false
  is_outside (runs h) = false
  is_outside (halts hard h) = false
  is_outside (tells_all hard h) = false
  is_outside (joins h all) = false
  is_outside (drains h k) = false
  is_outside (detaches h) = false
  is_outside (enters before after j e h) = false
  is_outside (sleeps before after j e) = false
  is_outside (wakes before after j e h) = false
  is_outside (stirs before after j e) = true
  is_outside (returns before after j a e) = false

  -- The places of the workers.
  one_of :
      (before after : List (Thread A)) (j : Bool) (w : Worker A) (ts : List (Thread A))
      → ts ≡ (exited, true) ∷ (waiting, true) ∷ []
      → ts ≡ before ++ (w, j) ∷ after
      → w ≢ exited
      → w ≡ waiting
  one_of [] after j w ts e f h = absurd (h (cc))
  one_of (a ∷ []) after j w ts e f h = cc
  one_of (a ∷ b ∷ []) after j w ts e f h = cc
  one_of (a ∷ b ∷ c ∷ before) after j w ts e f h = cc

  not-AllExited :
      (ts : List (Thread A)) → ts ≡ (exited, true) ∷ (waiting, true) ∷ [] → ¬ AllExited ts
  not-AllExited ts e nil = cc
  not-AllExited ts e (cons nil) = cc
  not-AllExited ts e (cons (cons all)) = cc
  not-AllExited ts e (cons (detached all)) = cc
  not-AllExited ts e (detached all) = cc

  only_outside :
      (xs : List A) {p q : ThreadPool A} (step : Step p q) → p ≡ hung xs → is_outside step ≡ true
  only_outside xs (adds a h) e = refl
  only_outside xs (tells_one before after j h k f) e =
      absurd (omega (arith, ap ThreadPool.pushed e))
  only_outside xs (tells_none h k) e = absurd (omega (arith, ap ThreadPool.pushed e))
  only_outside xs (runs h) e = cc
  only_outside xs (halts hard h) e = cc
  only_outside xs (tells_all hard h) e = cc
  only_outside xs {p} (joins h all) e =
      absurd (not-AllExited p.threads (ap ThreadPool.threads e) all)
  only_outside xs (drains h k) e = cc
  only_outside xs (detaches h) e = cc
  only_outside xs {p} (enters before after j f h) e =
      cc (one_of before after j at_lock p.threads (ap ThreadPool.threads e) f (λ h. cc))
  only_outside xs {p} (sleeps before after j f) e =
      cc (one_of before after j checked p.threads (ap ThreadPool.threads e) f (λ h. cc))
  only_outside xs {p} (wakes before after j f h) e =
      cc (one_of before after j notified p.threads (ap ThreadPool.threads e) f (λ h. cc))
  only_outside xs (stirs before after j f) e = refl
  only_outside xs {p} (returns before after j a f) e =
      cc (one_of before after j (in_task a) p.threads (ap ThreadPool.threads e) f (λ h. cc))

  -- Whatever tasks `xs` have been added and have returned, a state is reached in which `stop` has
  -- notified all and waits for its joins, one worker has returned and the other one is in `wait`, not
  -- notified; and from there each step is a new task or a `wait` that returns by itself, none is a join.
  pub stop_hangs :
      (xs : List A)
      → Reachable (hung xs)
        × ((q : ThreadPool A) (step : Step (hung xs) q) → is_outside step ≡ true)
  stop_hangs xs = (hung-Reachable xs, λ q step. only_outside xs step refl)
