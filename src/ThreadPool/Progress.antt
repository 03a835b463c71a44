-- ===== src/ThreadPool/Progress.antt =====
-- The pool of include/tools/ThreadPool.hpp never gets stuck with a task in its queue.
use high_speed.Prelude.{
  ℕ, ◌+◌, ◌-◌, ◌<◌, ◌≡◌, ◌⊎◌, inl, inr, refl, sym, ap, ◌∙◌, Bool, true, false, List, [], ◌∷◌, ◌++◌,
  length, flag, arith,
}
use high_speed.ThreadPool.{
  Worker, Thread, at_lock, checked, waiting, notified, exited, in_task, ThreadPool, tell,
  worker_turn, worker_enters, worker_wakes, with_worker, Step, adds, tells_one, tells_none, runs,
  halts, tells_all, joins, drains, detaches, enters, sleeps, wakes, stirs, returns, Reachable,
}
use high_speed.ThreadPool.Totals.{holding, asleep, awake, tally, tally-append}
use high_speed.ThreadPool.Counts.{Reachable-exact}
use high_speed.ThreadPool.Wakes.{asleep_le, nobody_holds, Reachable-roused}

free : (b : Bool) → flag b ≡ 0 → b ≡ false
free true h = absurd (omega arith)
free false h = refl

module _ {A : Type 0} where
  -- 1 for a worker that has not returned.
  abbrev pub alive : Worker A → ℕ
  alive at_lock = 1
  alive checked = 1
  alive waiting = 1
  alive notified = 1
  alive exited = 0
  alive (in_task a) = 1

  -- What the workers, and the callers that are in `_addTask`, do by themselves.
  abbrev pub is_inside : {p q : ThreadPool A} → Step p q → Bool
  is_inside (adds a h) = false
  is_inside (tells_one before after j h k e) = true
  is_inside (tells_none h k) = true
  is_inside (runs h) = false
  is_inside (halts hard h) = false
  is_inside (tells_all hard h) = false
  is_inside (joins h all) = false
  is_inside (drains h k) = false
  is_inside (detaches h) = false
  is_inside (enters before after j e h) = true
  is_inside (sleeps before after j e) = true
  is_inside (wakes before after j e h) = true
  is_inside (stirs before after j e) = false
  is_inside (returns before after j a e) = true

  -- Such steps, one after the other.
  pub data Inside : ThreadPool A → ThreadPool A → Type 0 where
    one_step : {p q : ThreadPool A} (step : Step p q) → is_inside step ≡ true → Inside p q
    more_steps :
        {p q r : ThreadPool A} (step : Step p q) → is_inside step ≡ true → Inside q r → Inside p r

  -- The first task is with a worker.
  abbrev pub Takes : ThreadPool A → A → List A → Type 0
  Takes p a queue =
      (q : ThreadPool A) × Inside p q × (q.removed ≡ p.removed ++ a ∷ []) × (q.task_queue ≡ queue)

  somewhere :
      (f : Worker A → ℕ) (ts : List (Thread A))
      → 0 < tally f ts
      → (before : List (Thread A)) × (w : Worker A) × (j : Bool) × (after : List (Thread A)) × (ts
          ≡ before ++ (w, j) ∷ after)
        × (0 < f w)
  somewhere f [] h = absurd (omega arith)
  somewhere f ((w, j) ∷ ts) h = elim (positive (f w)) [
    | inl k ↦ ([], w, j, ts, refl, k)
    | inr k ↦
        let (before, w', j', after, e, l) = somewhere f ts (omega arith) in
        ((w, j) ∷ before, w', j', after, ap (λ us. (w, j) ∷ us) e, l)
  ]
    where
      positive : (n : ℕ) → (0 < n) ⊎ (n ≡ 0)
      positive n = omega arith

  turn-Takes :
      (n : ℕ) (before after : List (Thread A)) (j : Bool) (p : ThreadPool A) {a : A}
      {queue : List A}
      → p.task_queue ≡ a ∷ queue
      → let q = with_worker before after j (worker_turn n p.running p.task_queue p) in
        (q.removed ≡ p.removed ++ a ∷ []) × (q.task_queue ≡ queue)
  unfolding with_worker worker_turn
  turn-Takes n before after j p e = (
    ap (λ xs. (with_worker before after j (worker_turn n p.running xs p)).removed) e,
    ap (λ xs. (with_worker before after j (worker_turn n p.running xs p)).task_queue) e,
  )

  enters-Takes :
      (before after : List (Thread A)) (j : Bool) (p : ThreadPool A) {a : A} {queue : List A}
      → p.task_queue ≡ a ∷ queue
      → p.threads ≡ before ++ (at_lock, j) ∷ after
      → p.locked ≡ false
      → Takes p a queue
  unfolding worker_enters
  enters-Takes before after j p e f l = (
    with_worker before after j (worker_enters p),
    one_step (enters before after j f l) refl,
    (turn-Takes p.waiting_threads before after j p e).0,
    (turn-Takes p.waiting_threads before after j p e).1,
  )

  wakes-Takes :
      (before after : List (Thread A)) (j : Bool) (p : ThreadPool A) {a : A} {queue : List A}
      → p.task_queue ≡ a ∷ queue
      → p.threads ≡ before ++ (notified, j) ∷ after
      → p.locked ≡ false
      → Takes p a queue
  unfolding worker_wakes
  wakes-Takes before after j p e f l = (
    with_worker before after j (worker_wakes p),
    one_step (wakes before after j f l) refl,
    (turn-Takes (p.waiting_threads - 1) before after j p e).0,
    (turn-Takes (p.waiting_threads - 1) before after j p e).1,
  )

  -- By a worker that is on its way.
  awake-Takes :
      (before after : List (Thread A)) (j : Bool) (w : Worker A) (p : ThreadPool A) {a : A}
      {queue : List A}
      → p.task_queue ≡ a ∷ queue
      → p.threads ≡ before ++ (w, j) ∷ after
      → p.locked ≡ false
      → 0 < awake w
      → Takes p a queue
  unfolding with_worker
  awake-Takes before after j at_lock p e f l h = enters-Takes before after j p e f l
  awake-Takes before after j checked p e f l h = absurd (omega arith)
  awake-Takes before after j waiting p e f l h = absurd (omega arith)
  awake-Takes before after j notified p e f l h = wakes-Takes before after j p e f l
  awake-Takes before after j exited p e f l h = absurd (omega arith)
  awake-Takes before after j (in_task b) p e f l h =
      let (q, steps, r, s) =
        enters-Takes before after j (with_worker before after j (at_lock, p)) e refl l in
      (q, more_steps (returns before after j b f) refl steps, r, s)

  -- By a worker that waits, behind the notification of a caller.
  asleep-Takes :
      (before after : List (Thread A)) (j : Bool) (w : Worker A) (p : ThreadPool A) {a : A}
      {queue : List A}
      → p.task_queue ≡ a ∷ queue
      → p.threads ≡ before ++ (w, j) ∷ after
      → p.locked ≡ false
      → 0 < asleep w
      → tally holding p.threads ≡ 0
      → 0 < p.pushed
      → 0 < p.waiting_threads
      → Takes p a queue
  unfolding tell
  asleep-Takes before after j at_lock p e f l h n k m = absurd (omega arith)
  asleep-Takes before after j checked p e f l h n k m =
      absurd
        (omega (arith, n, ap (tally holding) f, tally-append holding before ((checked, j) ∷ after)))
  asleep-Takes before after j waiting p e f l h n k m =
      let p' = tell (before ++ (notified, j) ∷ after) p in
      let (q, steps, r, s) = wakes-Takes before after j p' e refl l in
      (q, more_steps (tells_one before after j k m f) refl steps, r, s)
  asleep-Takes before after j notified p e f l h n k m = absurd (omega arith)
  asleep-Takes before after j exited p e f l h n k m = absurd (omega arith)
  asleep-Takes before after j (in_task b) p e f l h n k m = absurd (omega arith)

  alive_split : (ts : List (Thread A)) → tally alive ts ≡ tally awake ts + tally asleep ts
  alive_split [] = refl
  alive_split ((at_lock, j) ∷ ts) = omega (arith, alive_split ts)
  alive_split ((checked, j) ∷ ts) = omega (arith, alive_split ts)
  alive_split ((waiting, j) ∷ ts) = omega (arith, alive_split ts)
  alive_split ((notified, j) ∷ ts) = omega (arith, alive_split ts)
  alive_split ((exited, j) ∷ ts) = omega (arith, alive_split ts)
  alive_split ((in_task a, j) ∷ ts) = omega (arith, alive_split ts)

  -- In every state that the pool reaches in which a task is queued and some worker has not returned, the
  -- workers and the callers that are in `_addTask` can do, by themselves and without a `wait` that
  -- returns by itself, what brings the first task to a worker: no wake-up is lost and nothing is
  -- deadlocked, whatever stops and runs came before.
  pub head_is_taken :
      {p : ThreadPool A} {a : A} {queue : List A}
      → Reachable p
      → p.task_queue ≡ a ∷ queue
      → 0 < tally alive p.threads
      → Takes p a queue
  head_is_taken {p} r e h =
      let some_task : 0 < length p.task_queue = omega (arith, ap length e) in
      let none_holds = nobody_holds r some_task in
      let (k, n, o, held) = Reachable-exact r in
      let l = free p.locked (sym held ∙ none_holds) in
      elim (awake_or (tally awake p.threads)) [
        | inl k ↦
            let (before, w, j, after, f, c) = somewhere awake p.threads k in
            awake-Takes before after j w p e f l c
        | inr z ↦
            let some_asleep : 0 < tally asleep p.threads = omega (arith, alive_split p.threads) in
            let (before, w, j, after, f, c) = somewhere asleep p.threads some_asleep in
            asleep-Takes before after j w p e f l c none_holds
              (omega (arith, Reachable-roused r some_task some_asleep))
              (omega (arith, asleep_le p.threads))
      ]
    where
      awake_or : (n : ℕ) → (0 < n) ⊎ (n ≡ 0)
      awake_or n = omega arith
