-- ===== src/ThreadPool/Graceful.antt =====
-- `stop` of include/tools/ThreadPool.hpp waits for the tasks that were added before it.
use high_speed.Prelude.{
  ℕ, ◌-◌, ◌<◌, ◌≡◌, ◌⊎◌, inl, inr, refl, sym, ap, ◌∙◌, subst, Bool, true, false, List, [], ◌∷◌,
  ◌++◌, append_assoc, append-nil, total, total-swap, arith,
}
use high_speed.ThreadPool.{
  Worker, Thread, at_lock, checked, waiting, notified, in_task, Stop, not_called, halted, told_all,
  ThreadPool, add_task, tell, worker_turn, worker_enters, worker_sleeps, worker_wakes, halt,
  halt_from, notify_all, with_worker, AllExited, Step, adds, tells_one, tells_none, runs, halts,
  tells_all, joins, drains, detaches, enters, sleeps, wakes, stirs, returns, Reachable, steps,
}
use high_speed.ThreadPool.Counts.{Reachable-exact}
use high_speed.ThreadPool.Staff.{owned, gone, left, gone-AllExited, gone-notify, nobody_gone}

-- `stop` has not come to its joins.
abbrev IsStopping : Stop → Type 0
IsStopping s = (s ≡ halted false) ⊎ (s ≡ told_all false)

tells_all-IsStopping :
    (hard : Bool) (s : Stop) → s ≡ halted hard → IsStopping s → IsStopping (told_all hard)
tells_all-IsStopping true s e (inl f) = cc
tells_all-IsStopping true s e (inr f) = cc
tells_all-IsStopping false s e x = inr refl

module _ {A : Type 0} where
  abbrev pub is_join : {p q : ThreadPool A} → Step p q → Bool
  is_join (adds a h) = false
  is_join (tells_one before after j h k e) = false
  is_join (tells_none h k) = false
  is_join (runs h) = false
  is_join (halts hard h) = false
  is_join (tells_all hard h) = false
  is_join (joins h all) = true
  is_join (drains h k) = false
  is_join (detaches h) = false
  is_join (enters before after j e h) = false
  is_join (sleeps before after j e) = false
  is_join (wakes before after j e h) = false
  is_join (stirs before after j e) = false
  is_join (returns before after j a e) = false

  -- Steps that are not the joins of `stop`, one after the other.
  pub data Before (p : ThreadPool A) : ThreadPool A → Type 0 where
    here : Before p p
    further :
        {q r : ThreadPool A} → Before p q → (step : Step q r) → is_join step ≡ false → Before p r

  -- The first tasks were `xs`, and they have left the queue if a thread has returned.
  abbrev IsServed : List A → List (Thread A) → List A → List A → Type 0
  IsServed xs ts added removed =
      ((r : List A) × (added ≡ xs ++ r)) × (0 < total gone ts → (r : List A) × (removed ≡ xs ++ r))

  IsHalting : List A → ThreadPool A → Type 0
  IsHalting xs p = IsStopping p.stop × (p.running ≡ false) × IsServed xs p.threads p.added p.removed

  -- A thread goes on without returning.
  keeps :
      (xs : List A) (before after : List (Thread A)) (j : Bool) (w w' : Worker A)
      (ts : List (Thread A)) (added removed : List A)
      → IsServed xs ts added removed
      → ts ≡ before ++ (w, j) ∷ after
      → left w' j ≡ left w j
      → IsServed xs (before ++ (w', j) ∷ after) added removed
  keeps xs before after j w w' ts added removed (a, b) e h = (
    a,
    λ k. b (omega (arith, k, h, ap (total gone) e, total-swap gone before after (w, j) (w', j))),
  )

  grows :
      (xs ys : List A) (a : A)
      → ((r : List A) × (ys ≡ xs ++ r))
      → (r : List A) × (ys ++ a ∷ [] ≡ xs ++ r)
  grows xs ys a (r, e) = (r ++ a ∷ [], ap (λ zs. zs ++ a ∷ []) e ∙ append_assoc xs r (a ∷ []))

  turn-IsHalting :
      (n : ℕ) (running : Bool) (queue : List A) (xs : List A) (before after : List (Thread A))
      (j : Bool) (w : Worker A) (p : ThreadPool A)
      → p.running ≡ running
      → p.task_queue ≡ queue
      → p.added ≡ p.removed ++ p.task_queue
      → p.threads ≡ before ++ (w, j) ∷ after
      → left w j ≡ 0
      → IsHalting xs p
      → IsHalting xs (with_worker before after j (worker_turn n running queue p))
  unfolding IsHalting with_worker worker_turn
  turn-IsHalting n true [] xs before after j w p k q o e h (s, r, x) = cc
  turn-IsHalting n false [] xs before after j w p k q o e h (s, r, ((more, f), b)) =
      let all_removed : p.removed ≡ p.added =
        sym (o ∙ ap (λ ys. p.removed ++ ys) q ∙ append-nil p.removed) in
      (s, r, ((more, f), λ _. (more, all_removed ∙ f)))
  turn-IsHalting n running (a ∷ queue) xs before after j w p k q o e h (s, r, (x, b)) =
      let (y, c) =
        keeps xs before after j w (in_task a) p.threads p.added p.removed (x, b) e (sym h) in
      (s, r, (y, λ g. grows xs p.removed a (c g)))

  Step-IsHalting :
      (xs : List A) {p q : ThreadPool A}
      → Reachable p
      → IsHalting xs p
      → (step : Step p q) → is_join step ≡ false
      → IsHalting xs q
  unfolding IsHalting worker_enters worker_sleeps worker_wakes add_task tell notify_all with_worker
  Step-IsHalting xs {p} z (s, r, (x, b)) (adds a h) k = (s, r, (grows xs p.added a x, b))
  Step-IsHalting xs {p} z (s, r, x) (tells_one before after j h m e) k =
      (s, r, keeps xs before after j waiting notified p.threads p.added p.removed x e refl)
  Step-IsHalting xs z x (tells_none h m) k = x
  Step-IsHalting xs z (inl s, r, x) (runs h) k = cc
  Step-IsHalting xs z (inr s, r, x) (runs h) k = cc
  Step-IsHalting xs z (inl s, r, x) (halts hard h) k = cc
  Step-IsHalting xs z (inr s, r, x) (halts hard h) k = cc
  Step-IsHalting xs {p} z (s, r, (x, b)) (tells_all hard h) k = (
    tells_all-IsStopping hard p.stop h s,
    r,
    (x, λ g. b (omega (arith, g, gone-notify p.threads))),
  )
  Step-IsHalting xs z x (joins h all) k = cc
  Step-IsHalting xs z (inl s, r, x) (drains h l) k = cc
  Step-IsHalting xs z (inr s, r, x) (drains h l) k = cc
  Step-IsHalting xs z (inl s, r, x) (detaches h) k = cc
  Step-IsHalting xs z (inr s, r, x) (detaches h) k = cc
  Step-IsHalting xs {p} z x (enters before after j e h) k =
      let (a, b, o, d) = Reachable-exact z in
      turn-IsHalting p.waiting_threads p.running p.task_queue xs before after j at_lock p refl refl
        o e refl x
  Step-IsHalting xs {p} z (s, r, x) (sleeps before after j e) k =
      (s, r, keeps xs before after j checked waiting p.threads p.added p.removed x e refl)
  Step-IsHalting xs {p} z x (wakes before after j e h) k =
      let (a, b, o, d) = Reachable-exact z in
      turn-IsHalting (p.waiting_threads - 1) p.running p.task_queue xs before after j notified p
        refl refl o e refl x
  Step-IsHalting xs {p} z (s, r, x) (stirs before after j e) k =
      (s, r, keeps xs before after j waiting notified p.threads p.added p.removed x e refl)
  Step-IsHalting xs {p} z (s, r, x) (returns before after j a e) k =
      (s, r, keeps xs before after j (in_task a) at_lock p.threads p.added p.removed x e refl)

  Before-IsHalting :
      (xs : List A) {p q : ThreadPool A}
      → Reachable p
      → IsHalting xs p
      → Before p q
      → Reachable q × IsHalting xs q
  Before-IsHalting xs z x here = (z, x)
  Before-IsHalting xs z x (further path step k) =
      let (z', x') = Before-IsHalting xs z x path in (steps z' step, Step-IsHalting xs z' x' step k)

  halt-IsHalting :
      {p : ThreadPool A} → Reachable p → p.running ≡ true → IsHalting p.added (halt false p)
  unfolding IsHalting halt halt_from
  halt-IsHalting {p} z r =
      subst (λ b. IsHalting p.added (halt_from false b p)) (sym r)
        (
          inl refl,
          refl,
          (([], sym (append-nil p.added)), λ g. absurd (omega (arith, nobody_gone z r))),
        )

  -- When the joins of `stop` return, whatever the workers and the callers have done since it cleared
  -- `running_` and whatever tasks came in between: all tasks that were added before have left the queue,
  -- before any later one and in their order, so that the loop behind the joins drops none of them. The
  -- pool ran, no other `stop` was under way, and it has threads to join.
  pub stop_waits :
      {p q : ThreadPool A}
      → Reachable p
      → p.running ≡ true
      → p.stop ≡ not_called
      → Before (halt false p) q
      → AllExited q.threads
      → 0 < total owned q.threads
      → (r : List A) × (q.removed ≡ p.added ++ r)
  unfolding IsHalting
  stop_waits {p} z r n path all h =
      let (z', (s, k, (a, b))) =
        Before-IsHalting p.added (steps z (halts false n)) (halt-IsHalting z r) path in
      b (omega (arith, gone-AllExited all))
