-- ===== src/ThreadPool/Totals.antt =====
-- Totals over the worker threads of include/tools/ThreadPool.hpp.
use high_speed.Prelude.{
  ℕ, ◌+◌, ◌≡◌, refl, List, [], ◌∷◌, ◌++◌, map, total, total-append, total-swap, ap, Bool, arith,
}
use high_speed.ThreadPool.{
  Worker, at_lock, checked, waiting, notified, exited, in_task, Thread, notify, detached_only,
  detach, AllExited, nil, cons, detached,
}

module _ {A : Type 0} where
  -- 1 for a worker that `waiting_threads_` counts.
  abbrev pub counted : Worker A → ℕ
  counted at_lock = 0
  counted checked = 1
  counted waiting = 1
  counted notified = 1
  counted exited = 0
  counted (in_task a) = 0

  -- 1 for a worker that holds the lock.
  abbrev pub holding : Worker A → ℕ
  holding at_lock = 0
  holding checked = 1
  holding waiting = 0
  holding notified = 0
  holding exited = 0
  holding (in_task a) = 0

  -- 1 for a worker that waits, or is about to, and that nobody has notified.
  abbrev pub asleep : Worker A → ℕ
  asleep at_lock = 0
  asleep checked = 1
  asleep waiting = 1
  asleep notified = 0
  asleep exited = 0
  asleep (in_task a) = 0

  -- 1 for a worker that comes to the queue by itself.
  abbrev pub awake : Worker A → ℕ
  awake at_lock = 1
  awake checked = 0
  awake waiting = 0
  awake notified = 1
  awake exited = 0
  awake (in_task a) = 1

  -- The threads, counted by where they are.
  abbrev pub tally : (Worker A → ℕ) → List (Thread A) → ℕ
  tally f = total (λ t. f t.0)

  -- A thread in its place.
  pub tally-swap :
      (f : Worker A → ℕ) (before after : List (Thread A)) (j : Bool) (w w' : Worker A)
      → tally f (before ++ (w', j) ∷ after) + f w ≡ tally f (before ++ (w, j) ∷ after) + f w'
  tally-swap f before after j w w' = total-swap (λ t. f t.0) before after (w, j) (w', j)

  pub tally-append :
      (f : Worker A → ℕ) (xs ys : List (Thread A)) → tally f (xs ++ ys) ≡ tally f xs + tally f ys
  tally-append f = total-append (λ t. f t.0)

  pub tally-detach :
      (f : Worker A → ℕ) (ts : List (Thread A)) → tally f (map detach ts) ≡ tally f ts
  unfolding detach
  tally-detach f [] = refl
  tally-detach f ((w, j) ∷ ts) = ap (λ n. f w + n) (tally-detach f ts)

  pub tally-detached_only :
      (f : Worker A → ℕ) {ts : List (Thread A)}
      → f exited ≡ 0
      → AllExited ts
      → tally f (detached_only ts) ≡ tally f ts
  unfolding detached_only
  tally-detached_only f h nil = refl
  tally-detached_only f h (cons all) = omega (arith, tally-detached_only f h all)
  tally-detached_only f h (detached all) = omega (arith, tally-detached_only f h all)

  pub tally-notify :
      (f : Worker A → ℕ) (ts : List (Thread A))
      → f notified ≡ f waiting
      → tally f (map notify ts) ≡ tally f ts
  unfolding notify
  tally-notify f [] h = refl
  tally-notify f ((at_lock, j) ∷ ts) h = omega (arith, tally-notify f ts h)
  tally-notify f ((checked, j) ∷ ts) h = omega (arith, tally-notify f ts h)
  tally-notify f ((waiting, j) ∷ ts) h = omega (arith, tally-notify f ts h)
  tally-notify f ((notified, j) ∷ ts) h = omega (arith, tally-notify f ts h)
  tally-notify f ((exited, j) ∷ ts) h = omega (arith, tally-notify f ts h)
  tally-notify f ((in_task a, j) ∷ ts) h = omega (arith, tally-notify f ts h)
