-- ===== src/Scheduler/Asleep.antt =====
-- Threads of include/coro/Scheduler.hpp that wait while a coroutine is queued: `add_coroutine` notifies
-- before it counts, and a worker that is notified goes by the count.
use high_speed.Prelude.{
  ℕ, zero, suc, ◌+◌, ◌≡◌, refl, sym, ap, ◌∙◌, subst, Bool, true, false, List, [], ◌∷◌, ◌++◌,
  append-nil, replicate, arith,
}
use high_speed.Scheduler.{
  Worker, at_loop, at_lock, checked, waiting, notified, resuming, Scheduler, init, run, enter, push,
  tell, count, loop_test, worker_turn, worker_locks, worker_sleeps, worker_wakes, with_worker,
  not_called, Step, enters, pushes, tells_one, tells_none, counts, tests, locks, sleeps, wakes,
  stirs, returns, halts, tells_all, joins, Reachable, starts, steps,
}

module _ {A : Type 0} where
  -- Nothing is queued, and `asleep` threads wait.
  abbrev idle : ℕ → List (Worker A) → Scheduler A
  idle asleep threads = record (run 0 init) { threads = threads; waiting_threads = asleep }

  -- All threads wait, a coroutine is queued and counted, nobody is inside `add_coroutine` or `stop`, and
  -- the lock is free.
  abbrev pub all_asleep : ℕ → A → Scheduler A
  all_asleep n a = record {
    coroutines = a ∷ [];
    threads = replicate n waiting;
    waiting_threads = n;
    running = true;
    task_num = 1;
    locked = false;
    entering = [];
    pushed = 0;
    told = 0;
    stop = not_called;
    added = a ∷ [];
    taken = [];
  }

  replicate-snoc :
      (n : ℕ) (w : Worker A) (ws : List (Worker A))
      → replicate n w ++ w ∷ ws ≡ replicate (suc n) w ++ ws
  replicate-snoc zero w ws = refl
  replicate-snoc (suc n) w ws = ap (λ xs. w ∷ xs) (replicate-snoc n w ws)

  -- A thread goes from the loop's test to its wait.
  falls_asleep :
      {n : ℕ} (asleep : ℕ) (before after : List (Worker A))
      → Reachable n (idle asleep (before ++ at_loop ∷ after))
      → Reachable n (idle (asleep + 1) (before ++ waiting ∷ after))
  unfolding run init loop_test with_worker worker_locks worker_turn worker_sleeps
  falls_asleep asleep before after r =
      steps (steps (steps r (tests before after refl)) (locks before after refl refl))
        (sleeps before after refl)

  all_fall_asleep :
      {n : ℕ} (asleep more : ℕ)
      → Reachable n (idle asleep (replicate asleep waiting ++ replicate more at_loop))
      → Reachable n (idle (asleep + more) (replicate (asleep + more) waiting))
  all_fall_asleep {n} asleep zero r =
      subst (λ (k : ℕ). Reachable n (idle k (replicate k waiting))) (omega arith)
        (subst (λ ws. Reachable n (idle asleep ws)) (append-nil (replicate asleep waiting)) r)
  all_fall_asleep {n} asleep (suc more) r =
      let e : asleep + 1 ≡ suc asleep = omega arith in
      let ws = replicate-snoc asleep waiting (replicate more at_loop) in
      subst (λ (k : ℕ). Reachable n (idle k (replicate k waiting))) (omega arith)
        (all_fall_asleep (suc asleep) more (
          subst (λ ws. Reachable n (idle (suc asleep) ws)) ws
            (subst
              (λ (k : ℕ).
                Reachable n (idle k (replicate asleep waiting ++ waiting ∷ replicate more at_loop)))
              e (falls_asleep asleep (replicate asleep waiting) (replicate more at_loop) r))))

  idle-Reachable : (n : ℕ) → Reachable n (idle n (replicate {A = Worker A} n waiting))
  unfolding run init
  idle-Reachable n =
      subst (λ (k : ℕ). Reachable n (idle k (replicate k waiting))) (omega arith)
        (all_fall_asleep 0 n starts)

  -- What the workers and the callers that are inside do not do by themselves: a new call, a `wait` that
  -- returns by itself, `stop`.
  abbrev pub is_outside : {s t : Scheduler A} → Step s t → Bool
  is_outside (enters a h) = true
  is_outside (pushes before after a e h) = false
  is_outside (tells_one before after h k e) = false
  is_outside (tells_none h k) = false
  is_outside (counts h) = false
  is_outside (tests before after e) = false
  is_outside (locks before after e h) = false
  is_outside (sleeps before after e) = false
  is_outside (wakes before after e h) = false
  is_outside (stirs before after e) = true
  is_outside (returns before after a e) = false
  is_outside halts = true
  is_outside (tells_all h) = false
  is_outside (joins h all) = false

  head_or_tail :
      (n : ℕ) (before after : List (Worker A)) (w : Worker A)
      → replicate n waiting ≡ before ++ w ∷ after
      → w ≡ waiting
  head_or_tail zero [] after w e = cc
  head_or_tail zero (b ∷ before) after w e = cc
  head_or_tail (suc n) [] after w e = cc
  head_or_tail (suc n) (b ∷ before) after w e = head_or_tail n before after w (cc)

  empty_split : (before after : List A) (a : A) → [] ≡ before ++ a ∷ after → ⊥
  empty_split [] after a e = cc
  empty_split (b ∷ before) after a e = cc

  only_outside :
      (n : ℕ) (a : A) {s t : Scheduler A} (step : Step s t)
      → s ≡ all_asleep n a
      → is_outside step ≡ true
  only_outside n a (enters b h) e = refl
  only_outside n a (pushes before after b k h) e =
      absurd (empty_split before after b (sym (ap Scheduler.entering e) ∙ k))
  only_outside n a (tells_one before after h k f) e = absurd (omega (arith, ap Scheduler.pushed e))
  only_outside n a (tells_none h k) e = absurd (omega (arith, ap Scheduler.pushed e))
  only_outside n a (counts h) e = absurd (omega (arith, ap Scheduler.told e))
  only_outside n a (tests before after k) e =
      cc (head_or_tail n before after at_loop (sym (ap Scheduler.threads e) ∙ k))
  only_outside n a (locks before after k h) e =
      cc (head_or_tail n before after at_lock (sym (ap Scheduler.threads e) ∙ k))
  only_outside n a (sleeps before after k) e =
      cc (head_or_tail n before after checked (sym (ap Scheduler.threads e) ∙ k))
  only_outside n a (wakes before after k h) e =
      cc (head_or_tail n before after notified (sym (ap Scheduler.threads e) ∙ k))
  only_outside n a (stirs before after k) e = refl
  only_outside n a (returns before after b k) e =
      cc (head_or_tail n before after (resuming b) (sym (ap Scheduler.threads e) ∙ k))
  only_outside n a halts e = refl
  only_outside n a (tells_all h) e = cc
  only_outside n a (joins h all) e = cc

  all_asleep-Reachable : (n : ℕ) (a : A) → Reachable (suc n) (all_asleep (suc n) a)
  unfolding run init enter push tell count with_worker worker_wakes worker_locks worker_turn
      worker_sleeps
  all_asleep-Reachable n a =
      subst (λ (k : ℕ). Reachable (suc n) (record (all_asleep (suc n) a) { waiting_threads = k }))
        (omega arith)
        (steps
          (steps
            (steps
              (steps
                (steps (steps (idle-Reachable (suc n)) (enters a refl)) (pushes [] [] a refl refl))
                (tells_one [] (replicate n waiting) (omega arith) (omega arith) refl))
              (wakes [] (replicate n waiting) refl refl))
            (sleeps [] (replicate n waiting) refl))
          (counts (omega arith)))

  -- With at least one thread, whatever coroutine is added, a state is reached in which the coroutine is
  -- queued and counted, all threads wait, nobody is inside `add_coroutine` or `stop`; and from there
  -- each step is a new call, a `wait` that returns by itself, or a call of `stop`.
  pub lost_wakeup :
      (n : ℕ) (a : A)
      → Reachable (suc n) (all_asleep (suc n) a)
        × ((t : Scheduler A) (step : Step (all_asleep (suc n) a) t) → is_outside step ≡ true)
  lost_wakeup n a = (all_asleep-Reachable n a, λ t step. only_outside (suc n) a step refl)
