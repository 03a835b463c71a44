-- ===== src/ThreadPool/Wakes.antt =====
-- The notifications of `_addTask` in include/tools/ThreadPool.hpp: no task is left in the queue while
-- every worker waits.
use high_speed.Prelude.{
  ℕ, zero, suc, ◌+◌, ◌-◌, ◌≤◌, ◌<◌, ◌≡◌, ◌⊎◌, inl, inr, refl, ap, Bool, true, false, List, [], ◌∷◌,
  ◌++◌, map, length, flag, arith,
}
use high_speed.ThreadPool.{
  Worker, Thread, at_lock, checked, waiting, notified, exited, in_task, not_called, ThreadPool,
  init, add_task, tell, run_from, run, worker_turn, worker_enters, worker_sleeps, worker_wakes,
  halt, halt_from, notify, notify_all, detach_all, join_all, drain, finish_stop, with_worker,
  NoneWaits, nil, cons, Step, adds, tells_one, tells_none, runs, halts, tells_all, joins, drains,
  detaches, enters, sleeps, wakes, stirs, returns, Reachable, starts, steps,
}
use high_speed.ThreadPool.Totals.{
  counted, holding, asleep, awake, tally, tally-append, tally-swap, tally-detach,
  tally-detached_only, tally-notify,
}
use high_speed.ThreadPool.Counts.{Reachable-exact}

module _ {A : Type 0} where
  -- With the lock held across a step the queue is empty; with a task in it and a worker that sleeps,
  -- somebody is to notify, or is on the way to the queue.
  abbrev IsRoused : ℕ → ℕ → List (Thread A) → Type 0
  IsRoused queued pushed ts =
      (0 < tally holding ts → queued ≡ 0)
      × (0 < queued → 0 < tally asleep ts → 0 < pushed + tally awake ts)

  IsServed : ThreadPool A → Type 0
  IsServed p = IsRoused (length p.task_queue) p.pushed p.threads

  pub asleep_le : (ts : List (Thread A)) → tally asleep ts ≤ tally counted ts
  asleep_le [] = omega arith
  asleep_le ((at_lock, j) ∷ ts) = omega (arith, asleep_le ts)
  asleep_le ((checked, j) ∷ ts) = omega (arith, asleep_le ts)
  asleep_le ((waiting, j) ∷ ts) = omega (arith, asleep_le ts)
  asleep_le ((notified, j) ∷ ts) = omega (arith, asleep_le ts)
  asleep_le ((exited, j) ∷ ts) = omega (arith, asleep_le ts)
  asleep_le ((in_task a, j) ∷ ts) = omega (arith, asleep_le ts)

  NoneWaits-asleep : {ts : List (Thread A)} → NoneWaits ts → tally asleep ts ≤ tally holding ts
  unfolding notify
  NoneWaits-asleep nil = omega arith
  NoneWaits-asleep (cons {t = (at_lock, j)} e none) = omega (arith, NoneWaits-asleep none)
  NoneWaits-asleep (cons {t = (checked, j)} e none) = omega (arith, NoneWaits-asleep none)
  NoneWaits-asleep (cons {t = (waiting, j)} e none) = cc
  NoneWaits-asleep (cons {t = (notified, j)} e none) = omega (arith, NoneWaits-asleep none)
  NoneWaits-asleep (cons {t = (exited, j)} e none) = omega (arith, NoneWaits-asleep none)
  NoneWaits-asleep (cons {t = (in_task a, j)} e none) = omega (arith, NoneWaits-asleep none)

  asleep-notify : (ts : List (Thread A)) → tally asleep (map notify ts) ≡ tally holding ts
  unfolding notify
  asleep-notify [] = refl
  asleep-notify ((at_lock, j) ∷ ts) = omega (arith, asleep-notify ts)
  asleep-notify ((checked, j) ∷ ts) = omega (arith, asleep-notify ts)
  asleep-notify ((waiting, j) ∷ ts) = omega (arith, asleep-notify ts)
  asleep-notify ((notified, j) ∷ ts) = omega (arith, asleep-notify ts)
  asleep-notify ((exited, j) ∷ ts) = omega (arith, asleep-notify ts)
  asleep-notify ((in_task a, j) ∷ ts) = omega (arith, asleep-notify ts)

  tells_none_lem :
      (p : ThreadPool A)
      → IsServed p
      → p.waiting_threads ≡ tally counted p.threads
      → (p.waiting_threads ≡ 0) ⊎ NoneWaits p.threads
      → IsServed (tell p.threads p)
  unfolding IsServed tell
  tells_none_lem p (h, r) e (inl z) = (h, λ k l. absurd (omega (arith, asleep_le p.threads)))
  tells_none_lem p (h, r) e (inr none) =
      (h, λ k l. absurd (omega (arith, h, NoneWaits-asleep none)))

  -- A worker that is on the way to the queue in the place of one that does not hold the lock.
  comes :
      (queued pushed pushed' : ℕ) (before after : List (Thread A)) (j : Bool) (w w' : Worker A)
      (ts : List (Thread A))
      → IsRoused queued pushed ts
      → ts ≡ before ++ (w, j) ∷ after
      → holding w' ≡ 0
      → awake w' ≡ 1
      → IsRoused queued pushed' (before ++ (w', j) ∷ after)
  comes queued pushed pushed' before after j w w' ts (h, r) e k l = (
    λ m. h (omega (arith, ap (tally holding) e, tally-swap holding before after j w w')),
    λ _ _. omega (arith, tally-append awake before ((w', j) ∷ after)),
  )

  -- A worker with the lock: it waits or leaves only if the queue is empty.
  turn-IsServed :
      (n : ℕ) (running : Bool) (queue : List A) (before after : List (Thread A)) (j : Bool)
      (w : Worker A) (p : ThreadPool A)
      → tally holding p.threads ≡ 0
      → p.task_queue ≡ queue
      → p.threads ≡ before ++ (w, j) ∷ after
      → IsServed (with_worker before after j (worker_turn n running queue p))
  unfolding IsServed with_worker worker_turn
  turn-IsServed n true [] before after j w p h e f =
      (λ _. ap length e, λ k. absurd (omega (arith, ap length e)))
  turn-IsServed n false [] before after j w p h e f =
      (λ _. ap length e, λ k. absurd (omega (arith, ap length e)))
  turn-IsServed n running (a ∷ queue) before after j w p h e f = (
    λ m.
        absurd
          (omega (arith, ap (tally holding) f, tally-swap holding before after j w (in_task a))),
    λ _ _. omega (arith, tally-append awake before ((in_task a, j) ∷ after)),
  )

  drain-IsServed : (queue : List A) (p : ThreadPool A) → IsServed (drain queue p)
  unfolding drain IsServed
  drain-IsServed [] p = (λ _. refl, λ k. absurd (omega arith))
  drain-IsServed (a ∷ queue) p =
      drain-IsServed queue (record p { task_num = p.task_num - 1; removed = p.removed ++ a ∷ [] })

  run-IsServed : (running : Bool) (p : ThreadPool A) → IsServed p → IsServed (run_from running p)
  unfolding run_from IsServed
  run-IsServed true p x = x
  run-IsServed false p (h, r) =
      let more : List (Thread A) = (at_lock, true) ∷ (at_lock, true) ∷ [] in
      (
        λ k. h (omega (arith, tally-append holding p.threads more)),
        λ k l. omega (arith, tally-append awake p.threads more),
      )

  halt-IsServed :
      (hard running : Bool) (p : ThreadPool A) → IsServed p → IsServed (halt_from hard running p)
  unfolding halt_from IsServed
  halt-IsServed hard true p x = x
  halt-IsServed hard false p x = x

  Step-IsServed :
      {p q : ThreadPool A}
      → (p.waiting_threads ≡ tally counted p.threads) × (tally holding p.threads ≡ flag p.locked)
      → IsServed p
      → Step p q
      → IsServed q
  unfolding IsServed worker_enters worker_sleeps worker_wakes add_task tell run halt notify_all
      detach_all join_all finish_stop with_worker
  Step-IsServed {p} (m, l) (h, r) (adds a k) =
      (λ n. absurd (omega (arith, ap flag k)), λ _ _. omega arith)
  Step-IsServed {p} x y (tells_one before after j h k e) =
      comes (length p.task_queue) p.pushed (p.pushed - 1) before after j waiting notified p.threads
        y e refl refl
  Step-IsServed {p} (m, l) y (tells_none h k) = tells_none_lem p y m k
  Step-IsServed {p} x y (runs h) = run-IsServed p.running p y
  Step-IsServed {p} x y (halts hard h) = halt-IsServed hard p.running p y
  Step-IsServed {p} x (h, r) (tells_all hard k) = (
    λ n. h (omega (arith, tally-notify holding p.threads refl)),
    λ n m. absurd (omega (arith, h, asleep-notify p.threads)),
  )
  Step-IsServed {p} x (h, r) (joins k all) = (
    λ n. h (omega (arith, tally-detached_only holding refl all)),
    λ n m. omega (
      arith,
      r n (omega (arith, tally-detached_only asleep refl all)),
      tally-detached_only awake refl all,
    ),
  )
  Step-IsServed {p} x y (drains h l) = drain-IsServed p.task_queue (record p { stop = not_called })
  Step-IsServed {p} x (h, r) (detaches k) = (
    λ n. h (omega (arith, tally-detach holding p.threads)),
    λ n m.
        omega
          (arith, r n (omega (arith, tally-detach asleep p.threads)), tally-detach awake p.threads),
  )
  Step-IsServed {p} (m, l) y (enters before after j e h) =
      turn-IsServed p.waiting_threads p.running p.task_queue before after j at_lock p
        (omega (arith, ap flag h)) refl e
  Step-IsServed {p} x (h, r) (sleeps before after j e) =
      let held : 0 < tally holding p.threads =
        omega (arith, ap (tally holding) e, tally-append holding before ((checked, j) ∷ after)) in
      (λ _. h held, λ n. absurd (omega (arith, h held)))
  Step-IsServed {p} (m, l) y (wakes before after j e h) =
      turn-IsServed (p.waiting_threads - 1) p.running p.task_queue before after j notified p
        (omega (arith, ap flag h)) refl e
  Step-IsServed {p} x y (stirs before after j e) =
      comes (length p.task_queue) p.pushed p.pushed before after j waiting notified p.threads y e
        refl refl
  Step-IsServed {p} x y (returns before after j a e) =
      comes (length p.task_queue) p.pushed p.pushed before after j (in_task a) at_lock p.threads y e
        refl refl

  Reachable-IsServed : {p : ThreadPool A} → Reachable p → IsServed p
  unfolding IsServed init
  Reachable-IsServed starts = (λ k. absurd (omega arith), λ k. absurd (omega arith))
  Reachable-IsServed (steps r step) =
      let (k, m, o, l) = Reachable-exact r in Step-IsServed (m, l) (Reachable-IsServed r) step

  -- With a task in the queue the lock is free between two steps, and no worker is about to wait.
  pub nobody_holds :
      {p : ThreadPool A} → Reachable p → 0 < length p.task_queue → tally holding p.threads ≡ 0
  unfolding IsServed
  nobody_holds {p} r k = not_both (tally holding p.threads) (Reachable-IsServed r).0 k
    where
      not_both : (m : ℕ) {n : ℕ} → (0 < m → n ≡ 0) → 0 < n → m ≡ 0
      not_both zero h k = refl
      not_both (suc m) h k = absurd (omega (arith, h (omega arith)))

  -- In every state that the pool reaches, whatever the workers and the clients do: if a task is queued
  -- and some worker waits, or is about to, without having been notified, then a caller of `_addTask` is
  -- still to notify, or some worker is at the lock, notified or in a task.
  pub Reachable-roused :
      {p : ThreadPool A}
      → Reachable p
      → 0 < length p.task_queue
      → 0 < tally asleep p.threads
      → 0 < p.pushed + tally awake p.threads
  unfolding IsServed
  Reachable-roused r k l = (Reachable-IsServed r).1 k l
