-- ===== src/Strand/Serial.antt =====
-- A strand of include/net/Strand.hpp runs its tasks one at a time, in the order they were added.
use high_speed.Prelude.{
  ℕ, suc, ◌+◌, ◌≤◌, ◌<◌, ◌≡◌, refl, sym, ap, ◌∙◌, true, false, List, [], ◌∷◌, ◌++◌, append_assoc,
  length, length-append, arith,
}
use high_speed.Strand.{
  Strand, push_task, pop_front, take_next, System, add_task, post, schedule_next, Step, adds,
  schedules, begins, drop_job, drops, finishes, start, Reachable, starts, steps,
}

module _ {A : Type 0} where
  -- The threads that are between two critical sections of the strand's work.
  abbrev pub at_work : System A → ℕ
  at_work s = s.callers + length s.posted + length s.executing

  -- One thread works for the strand if it is marked as running, else none and the queue is empty; or the
  -- strand is marked as running, but its one job was dropped.
  pub data Serves (s : System A) : Type 0 where
    busy : s.strand.running ≡ true → at_work s ≡ 1 → s.lost ≡ [] → Serves s
    idle : s.strand.running ≡ false → at_work s ≡ 0 → s.strand.queue ≡ [] → s.lost ≡ [] → Serves s
    dead : s.strand.running ≡ true → at_work s ≡ 0 → length s.lost ≡ 1 → Serves s

  -- The tasks that have not begun, in order.
  abbrev pub waiting : System A → List A
  waiting s = s.lost ++ (s.posted ++ s.strand.queue)

  abbrev Orders : System A → Type 0
  Orders s = s.added ≡ s.begun ++ waiting s

  add_task-Serves : (a : A) (s : System A) → Serves s → Serves (add_task a s)
  unfolding add_task push_task
  add_task-Serves a s (busy r w l) = busy refl (rw r w) l
  add_task-Serves a s (idle r w q l) = busy refl (rw r (omega arith)) l
  add_task-Serves a s (dead r w l) = dead refl (rw r w) l

  add_task-Orders : (a : A) (s : System A) → Orders s → Orders (add_task a s)
  unfolding add_task push_task
  add_task-Orders a s o = rw o (
      append_assoc s.begun (waiting s) (a ∷ [])
      ∙ ap (λ xs. s.begun ++ xs)
          (append_assoc s.lost (s.posted ++ s.strand.queue) (a ∷ [])
            ∙ ap (λ xs. s.lost ++ xs) (append_assoc s.posted s.strand.queue (a ∷ []))))

  post-Serves :
      (callers : ℕ) (s : System A) (queue : List A)
      → s.strand.running ≡ true
      → at_work s ≡ 1
      → s.callers ≡ suc callers
      → s.lost ≡ []
      → Serves (post callers (pop_front s.strand queue) s)
  unfolding post pop_front
  post-Serves callers s [] r w c l = idle refl (omega arith) refl l
  post-Serves callers s (a ∷ queue) r w c l =
      busy r (omega (arith, length-append s.posted (a ∷ []))) l

  schedule_next-Serves :
      (callers : ℕ) (s : System A)
      → Serves s
      → s.callers ≡ suc callers
      → Serves (schedule_next callers s)
  unfolding schedule_next take_next
  schedule_next-Serves callers s (busy r w l) c = post-Serves callers s s.strand.queue r w c l
  schedule_next-Serves callers s (idle r w q l) c = absurd (omega arith)
  schedule_next-Serves callers s (dead r w l) c = absurd (omega arith)

  post-Orders :
      (callers : ℕ) (s : System A) (queue : List A)
      → s.added ≡ s.begun ++ (s.lost ++ (s.posted ++ queue))
      → Orders (post callers (pop_front s.strand queue) s)
  unfolding post pop_front
  post-Orders callers s [] o = o
  post-Orders callers s (a ∷ queue) o =
      o ∙ ap (λ xs. s.begun ++ (s.lost ++ xs)) (sym (append_assoc s.posted (a ∷ []) queue))

  schedule_next-Orders : (callers : ℕ) (s : System A) → Orders s → Orders (schedule_next callers s)
  unfolding schedule_next take_next
  schedule_next-Orders callers s o = post-Orders callers s s.strand.queue o

  -- Where at most one element stands, it stands alone.
  alone :
      (before after : List A) (a : A)
      → length (before ++ a ∷ after) ≤ 1
      → (before ≡ []) × (after ≡ [])
  alone [] [] a h = (refl, refl)
  alone [] (b ∷ after) a h = absurd (omega arith)
  alone (b ∷ before) after a h = absurd (omega (arith, length-append before (a ∷ after)))

  at_work-le : (s : System A) → Serves s → at_work s ≤ 1
  at_work-le s (busy r w l) = omega arith
  at_work-le s (idle r w q l) = omega arith
  at_work-le s (dead r w l) = omega arith

  -- A job that is posted is the one at work, and none was dropped.
  posted_one :
      (s : System A) (before after : List A) (a : A)
      → Serves s
      → s.posted ≡ before ++ a ∷ after
      → (s.strand.running ≡ true) × (s.lost ≡ []) × (at_work s ≡ 1)
  posted_one s before after a (busy r w l) e = (r, l, w)
  posted_one s before after a (idle r w q l) e =
      absurd (omega (arith, ap length e, length-append before (a ∷ after)))
  posted_one s before after a (dead r w l) e =
      absurd (omega (arith, ap length e, length-append before (a ∷ after)))

  begins-Orders :
      (s : System A) (before after : List A) (a : A)
      → Serves s
      → Orders s
      → s.posted ≡ before ++ a ∷ after
      → s.added ≡ (s.begun ++ a ∷ []) ++ (s.lost ++ ((before ++ after) ++ s.strand.queue))
  begins-Orders s before after a serves o e =
      let (r, l, w) = posted_one s before after a serves e in
      let few : length (before ++ a ∷ after) ≤ 1 =
        omega (arith, at_work-le s serves, ap length e) in
      let (b, c) = alone before after a few in
      let one : s.posted ≡ a ∷ [] = e ∙ rw (b, c) refl in
      rw (b, c, l)
        (o
          ∙ ap (λ ls. s.begun ++ (ls ++ (s.posted ++ s.strand.queue))) l
          ∙ ap (λ xs. s.begun ++ (xs ++ s.strand.queue)) one
          ∙ sym (append_assoc s.begun (a ∷ []) s.strand.queue))

  drop_job-Orders :
      (s : System A) (before after : List A) (a : A)
      → Serves s
      → Orders s
      → s.posted ≡ before ++ a ∷ after
      → Orders (drop_job before after a s)
  unfolding drop_job
  drop_job-Orders s before after a serves o e =
      let few : length (before ++ a ∷ after) ≤ 1 =
        omega (arith, at_work-le s serves, ap length e) in
      let (b, c) = alone before after a few in
      let one : s.posted ≡ a ∷ [] = e ∙ rw (b, c) refl in
      rw (b, c)
        (o
          ∙ ap (λ xs. s.begun ++ (s.lost ++ (xs ++ s.strand.queue))) one
          ∙ ap (λ xs. s.begun ++ xs) (sym (append_assoc s.lost (a ∷ []) s.strand.queue)))

  pub drop_job-Serves :
      (s : System A) (before after : List A) (a : A)
      → Serves s
      → s.posted ≡ before ++ a ∷ after
      → (s.strand.running ≡ true)
        × (at_work (drop_job before after a s) ≡ 0)
        × (length (drop_job before after a s).lost ≡ 1)
  unfolding drop_job
  drop_job-Serves s before after a serves e =
      let (r, l, w) = posted_one s before after a serves e in
      (
        r,
        omega (arith, ap length e, length-append before (a ∷ after), length-append before after),
        rw l refl,
      )

  moves-Serves :
      (s t : System A)
      → t.strand ≡ s.strand
      → at_work t ≡ at_work s
      → t.lost ≡ s.lost
      → Serves s
      → Serves t
  moves-Serves s t e n k (busy r w l) =
      busy (ap (λ (x : Strand A). x.running) e ∙ r) (n ∙ w) (k ∙ l)
  moves-Serves s t e n k (idle r w q l) =
      idle (ap (λ (x : Strand A). x.running) e ∙ r) (n ∙ w) (ap (λ (x : Strand A). x.queue) e ∙ q)
        (k ∙ l)
  moves-Serves s t e n k (dead r w l) =
      dead (ap (λ (x : Strand A). x.running) e ∙ r) (n ∙ w) (ap length k ∙ l)

  Step-Serves : {s t : System A} → Serves s → Orders s → Step s t → Serves t × Orders t
  unfolding drop_job
  Step-Serves {s} v o (adds a) = (add_task-Serves a s v, add_task-Orders a s o)
  Step-Serves {s} v o (schedules callers c) =
      (schedule_next-Serves callers s v c, schedule_next-Orders callers s o)
  Step-Serves {s} {t} v o (begins before after a e) = (
    moves-Serves s t refl
        (omega (arith, ap length e, length-append before (a ∷ after), length-append before after))
        refl v,
    begins-Orders s before after a v o e,
  )
  Step-Serves {s} v o (drops before after a e) =
      let (r, w, l) = drop_job-Serves s before after a v e in
      (dead r w l, drop_job-Orders s before after a v o e)
  Step-Serves {s} {t} v o (finishes before after a e) = (
    moves-Serves s t refl
        (omega (arith, ap length e, length-append before (a ∷ after), length-append before after))
        refl v,
    o,
  )

  reachable : {s : System A} → Reachable s → Serves s × Orders s
  unfolding start
  reachable starts = (idle refl refl refl refl, refl)
  reachable (steps r step) = let (v, o) = reachable r in Step-Serves v o step

  pub Reachable-Serves : {s : System A} → Reachable s → Serves s
  Reachable-Serves r = (reachable r).0

  -- In every reachable state, jobs that the executor drops included: at most one task of the strand runs;
  -- the tasks begin in the order in which they were added, so that those not begun are the dropped one,
  -- the posted ones and then the queue; at most one is ever dropped; and as long as none is and a task
  -- waits in the queue, some thread is at work for the strand.
  pub Reachable-serial :
      {s : System A}
      → Reachable s
      → (length s.executing ≤ 1)
        × (s.added ≡ s.begun ++ (s.lost ++ (s.posted ++ s.strand.queue)))
        × (length s.lost ≤ 1)
        × (s.lost ≡ [] → 0 < length s.strand.queue → at_work s ≡ 1)
  Reachable-serial {s} r =
      let (v, o) = reachable r in
      (omega (arith, at_work-le s v), o, lost-le v, λ none_lost h. waits v none_lost h)
    where
      lost-le : {s : System A} → Serves s → length s.lost ≤ 1
      lost-le (busy r w l) = omega (arith, ap length l)
      lost-le (idle r w q l) = omega (arith, ap length l)
      lost-le (dead r w l) = omega arith

      waits : {s : System A} → Serves s → s.lost ≡ [] → 0 < length s.strand.queue → at_work s ≡ 1
      waits (busy r w l) k h = w
      waits (idle r w q l) k h = absurd (omega (arith, ap length q))
      waits (dead r w l) k h = absurd (omega (arith, ap length k))
