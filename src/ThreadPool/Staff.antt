-- ===== src/ThreadPool/Staff.antt =====
-- The threads that `threads_` of include/tools/ThreadPool.hpp has, and those of them that have returned.
use high_speed.Prelude.{
  ℕ, ◌-◌, ◌≤◌, ◌≡◌, refl, ap, ◌∙◌, Bool, true, false, List, [], ◌∷◌, ◌++◌, map, total, total-append,
  total-swap, arith,
}
use high_speed.ThreadPool.{
  Worker, Thread, at_lock, checked, waiting, notified, exited, in_task, Stop, not_called, joined,
  ThreadPool, init, add_task, tell, run_from, run, worker_turn, worker_enters, worker_sleeps,
  worker_wakes, halt, halt_from, notify, notify_all, detach, detach_all, detached_only, join_all,
  drain, finish_stop, with_worker, AllExited, nil, cons, detached, Step, adds, tells_one,
  tells_none, runs, halts, tells_all, joins, drains, detaches, enters, sleeps, wakes, stirs,
  returns, Reachable, starts, steps,
}

module _ {A : Type 0} where
  -- 1 for a thread that `threads_` has.
  abbrev pub owned : Thread A → ℕ
  owned (w, true) = 1
  owned (w, false) = 0

  abbrev pub left : Worker A → Bool → ℕ
  left exited true = 1
  left exited false = 0
  left at_lock j = 0
  left checked j = 0
  left waiting j = 0
  left notified j = 0
  left (in_task a) j = 0

  -- 1 for such a thread that has returned.
  abbrev pub gone : Thread A → ℕ
  gone (w, j) = left w j

  gone_le : (ts : List (Thread A)) → total gone ts ≤ total owned ts
  gone_le [] = omega arith
  gone_le ((at_lock, j) ∷ ts) = omega (arith, gone_le ts)
  gone_le ((checked, j) ∷ ts) = omega (arith, gone_le ts)
  gone_le ((waiting, j) ∷ ts) = omega (arith, gone_le ts)
  gone_le ((notified, j) ∷ ts) = omega (arith, gone_le ts)
  gone_le ((exited, true) ∷ ts) = omega (arith, gone_le ts)
  gone_le ((exited, false) ∷ ts) = omega (arith, gone_le ts)
  gone_le ((in_task a, j) ∷ ts) = omega (arith, gone_le ts)

  pub gone-AllExited : {ts : List (Thread A)} → AllExited ts → total owned ts ≤ total gone ts
  gone-AllExited nil = omega arith
  gone-AllExited (cons all) = omega (arith, gone-AllExited all)
  gone-AllExited (detached all) = omega (arith, gone-AllExited all)

  pub gone-notify : (ts : List (Thread A)) → total gone (map notify ts) ≡ total gone ts
  unfolding notify
  gone-notify [] = refl
  gone-notify ((at_lock, j) ∷ ts) = omega (arith, gone-notify ts)
  gone-notify ((checked, j) ∷ ts) = omega (arith, gone-notify ts)
  gone-notify ((waiting, j) ∷ ts) = omega (arith, gone-notify ts)
  gone-notify ((notified, j) ∷ ts) = omega (arith, gone-notify ts)
  gone-notify ((exited, j) ∷ ts) = omega (arith, gone-notify ts)
  gone-notify ((in_task a, j) ∷ ts) = omega (arith, gone-notify ts)

  owned-detach : (ts : List (Thread A)) → total owned (map detach ts) ≡ 0
  unfolding detach
  owned-detach [] = refl
  owned-detach ((w, j) ∷ ts) = omega (arith, owned-detach ts)

  owned-detached_only : (ts : List (Thread A)) → total owned (detached_only ts) ≡ 0
  unfolding detached_only
  owned-detached_only [] = refl
  owned-detached_only ((w, true) ∷ ts) = owned-detached_only ts
  owned-detached_only ((w, false) ∷ ts) = omega (arith, owned-detached_only ts)

  -- While the pool runs no thread of `threads_` has returned; between two runs there is none.
  abbrev IsStaffed : Bool → Stop → List (Thread A) → Type 0
  IsStaffed running stop ts =
      (running ≡ true → total gone ts ≡ 0)
      × (stop ≡ joined → total owned ts ≡ 0)
      × (stop ≡ not_called → running ≡ false → total owned ts ≡ 0)

  HasStaff : ThreadPool A → Type 0
  HasStaff p = IsStaffed p.running p.stop p.threads

  -- A thread goes on, and does not return while the pool runs.
  stays :
      (before after : List (Thread A)) (j : Bool) (w w' : Worker A) (running : Bool) (stop : Stop)
      (ts : List (Thread A))
      → IsStaffed running stop ts
      → ts ≡ before ++ (w, j) ∷ after
      → (running ≡ true → left w' j ≡ 0)
      → IsStaffed running stop (before ++ (w', j) ∷ after)
  stays before after j w w' running stop ts (a, b, c) e h = (
    λ r. omega (arith, a r, h r, ap (total gone) e, total-swap gone before after (w, j) (w', j)),
    λ s. omega (arith, b s, ap (total owned) e, same before after j w w'),
    λ s r. omega (arith, c s r, ap (total owned) e, same before after j w w'),
  )
    where
      same :
          (before after : List (Thread A)) (j : Bool) (w w' : Worker A)
          → total owned (before ++ (w', j) ∷ after) ≡ total owned (before ++ (w, j) ∷ after)
      same before after true w w' =
          omega (arith, total-swap owned before after (w, true) (w', true))
      same before after false w w' =
          omega (arith, total-swap owned before after (w, false) (w', false))

  turn-HasStaff :
      (n : ℕ) (running : Bool) (queue : List A) (before after : List (Thread A)) (j : Bool)
      (w : Worker A) (p : ThreadPool A)
      → p.running ≡ running
      → p.threads ≡ before ++ (w, j) ∷ after
      → HasStaff p
      → HasStaff (with_worker before after j (worker_turn n running queue p))
  unfolding HasStaff with_worker worker_turn
  turn-HasStaff n true [] before after j w p k e x =
      stays before after j w checked p.running p.stop p.threads x e (λ r. refl)
  turn-HasStaff n false [] before after j w p k e x =
      stays before after j w exited p.running p.stop p.threads x e (λ r. cc)
  turn-HasStaff n running (a ∷ queue) before after j w p k e x =
      stays before after j w (in_task a) p.running p.stop p.threads x e (λ r. refl)

  run-HasStaff :
      (running : Bool) (p : ThreadPool A)
      → p.running ≡ running
      → p.stop ≡ not_called
      → HasStaff p
      → HasStaff (run_from running p)
  unfolding HasStaff run_from
  run-HasStaff true p k h x = x
  run-HasStaff false p k h (a, b, c) =
      let more : List (Thread A) = (at_lock, true) ∷ (at_lock, true) ∷ [] in
      (
        λ r. omega (arith, c h k, gone_le p.threads, total-append gone p.threads more),
        λ s. cc,
        λ s r. cc,
      )

  halt-HasStaff :
      (hard running : Bool) (p : ThreadPool A) → HasStaff p → HasStaff (halt_from hard running p)
  unfolding HasStaff halt_from
  halt-HasStaff hard true p x = (λ r. cc, λ s. cc, λ s. cc)
  halt-HasStaff hard false p x = x

  drain-HasStaff : (queue : List A) (p : ThreadPool A) → HasStaff p → HasStaff (drain queue p)
  unfolding HasStaff drain
  drain-HasStaff [] p x = x
  drain-HasStaff (a ∷ queue) p x =
      drain-HasStaff queue (record p { task_num = p.task_num - 1; removed = p.removed ++ a ∷ [] }) x

  Step-HasStaff : {p q : ThreadPool A} → HasStaff p → Step p q → HasStaff q
  unfolding HasStaff worker_enters worker_sleeps worker_wakes add_task tell run halt notify_all
      detach_all join_all finish_stop with_worker
  Step-HasStaff {p} x (adds a h) = x
  Step-HasStaff {p} x (tells_one before after j h k e) =
      stays before after j waiting notified p.running p.stop p.threads x e (λ r. refl)
  Step-HasStaff {p} x (tells_none h k) = x
  Step-HasStaff {p} x (runs h) = run-HasStaff p.running p refl h x
  Step-HasStaff {p} x (halts hard h) = halt-HasStaff hard p.running p x
  Step-HasStaff {p} (a, b, c) (tells_all hard h) =
      (λ r. gone-notify p.threads ∙ a r, λ s. cc, λ s. cc)
  Step-HasStaff {p} (a, b, c) (joins h all) =
      let none = owned-detached_only p.threads in
      (λ r. omega (arith, none, gone_le (detached_only p.threads)), λ s. none, λ s r. none)
  Step-HasStaff {p} (a, b, c) (drains h l) =
      drain-HasStaff p.task_queue (record p { stop = not_called }) (a, λ s. cc, λ s r. b h)
  Step-HasStaff {p} (a, b, c) (detaches h) =
      let none = owned-detach p.threads in
      (λ r. omega (arith, none, gone_le (map detach p.threads)), λ s. none, λ s r. none)
  Step-HasStaff {p} x (enters before after j e h) =
      turn-HasStaff p.waiting_threads p.running p.task_queue before after j at_lock p refl e x
  Step-HasStaff {p} x (sleeps before after j e) =
      stays before after j checked waiting p.running p.stop p.threads x e (λ r. refl)
  Step-HasStaff {p} x (wakes before after j e h) =
      turn-HasStaff (p.waiting_threads - 1) p.running p.task_queue before after j notified p refl e
        x
  Step-HasStaff {p} x (stirs before after j e) =
      stays before after j waiting notified p.running p.stop p.threads x e (λ r. refl)
  Step-HasStaff {p} x (returns before after j a e) =
      stays before after j (in_task a) at_lock p.running p.stop p.threads x e (λ r. refl)

  -- While the pool runs, no thread that `threads_` has returned.
  pub nobody_gone : {p : ThreadPool A} → Reachable p → p.running ≡ true → total gone p.threads ≡ 0
  unfolding HasStaff init
  nobody_gone r h = (go r).0 h
    where
      go : {p : ThreadPool A} → Reachable p → HasStaff p
      go starts = (λ r. refl, λ s. refl, λ s r. refl)
      go (steps r step) = Step-HasStaff (go r) step
