-- ===== src/Strand/Dropped.antt =====
-- A strand of include/net/Strand.hpp whose job the executor drops: `stop` of the thread pool empties the
-- pool's queue.
use high_speed.Prelude.{◌≡◌, refl, ap, ◌∙◌, true, List, ◌∷◌, ◌++◌, length, length-append, arith}
use high_speed.Strand.{
  push_task, System, add_task, Step, adds, schedules, begins, drop_job, drops, finishes, Reachable,
}
use high_speed.Strand.Serial.{at_work, drop_job-Serves, Reachable-Serves}

module _ {A : Type 0} where
  -- Steps of a strand, one after the other.
  pub data Steps : System A → System A → Type 0 where
    none_more : {s : System A} → Steps s s
    more : {s t u : System A} → Step s t → Steps t u → Steps s u

  -- Marked as running, with nobody at work.
  abbrev IsDead : System A → Type 0
  IsDead s = (s.strand.running ≡ true) × (at_work s ≡ 0)

  nowhere :
      {B : Type 0} (xs before after : List A) (a : A) → length xs ≡ 0 → xs ≡ before ++ a ∷ after → B
  nowhere xs before after a h e =
      absurd (omega (arith, ap length e, length-append before (a ∷ after)))

  Step-IsDead : {s t : System A} → IsDead s → Step s t → IsDead t × (t.begun ≡ s.begun)
  unfolding add_task push_task
  Step-IsDead {s} (r, w) (adds a) = ((refl, rw r w), refl)
  Step-IsDead {s} (r, w) (schedules callers c) = absurd (omega arith)
  Step-IsDead {s} (r, w) (begins before after a e) = nowhere s.posted before after a (omega arith) e
  Step-IsDead {s} (r, w) (drops before after a e) = nowhere s.posted before after a (omega arith) e
  Step-IsDead {s} (r, w) (finishes before after a e) =
      nowhere s.executing before after a (omega arith) e

  Steps-IsDead : {s t : System A} → IsDead s → Steps s t → IsDead t × (t.begun ≡ s.begun)
  Steps-IsDead d none_more = (d, refl)
  Steps-IsDead d (more step rest) =
      let (d', e) = Step-IsDead d step in let (d'', e') = Steps-IsDead d' rest in (d'', e' ∙ e)

  -- If the executor drops the job that a strand has handed to it, in whatever state that the strand
  -- reaches: whatever tasks are added from then on and whatever the threads do, no task of the strand
  -- begins any more, and the strand stays marked as running with nobody at work for it.
  pub nothing_begins :
      {s t : System A} (before after : List A) (a : A)
      → Reachable s
      → s.posted ≡ before ++ a ∷ after
      → Steps (drop_job before after a s) t
      → (t.begun ≡ s.begun) × (t.strand.running ≡ true) × (at_work t ≡ 0)
  unfolding drop_job
  nothing_begins {s} before after a r e steps =
      let (running, works, lost) = drop_job-Serves s before after a (Reachable-Serves r) e in
      let ((still, none_works), same) = Steps-IsDead (running, works) steps in
      (same, still, none_works)
