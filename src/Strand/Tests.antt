-- ===== src/Strand/Tests.antt =====
-- A run of a strand of include/net/Strand.hpp.
use high_speed.Prelude.{true, ℕ, ◌≤◌, ◌<◌, ◌≡◌, refl, [], ◌∷◌, ◌++◌, length}
use high_speed.Strand.{
  push_task, pop_front, take_next, System, add_task, post, schedule_next, adds, schedules, begins,
  drop_job, drops, start, Reachable, starts, steps,
}
use high_speed.Strand.Serial.{at_work, Reachable-serial}
use high_speed.Strand.Dropped.{none_more, more, nothing_begins}

-- Two tasks, of which the first runs.
abbrev two_tasks : System ℕ
two_tasks = record {
  strand = record { queue = 2 ∷ []; running = true };
  callers = 0;
  posted = [];
  executing = 1 ∷ [];
  added = 1 ∷ 2 ∷ [];
  begun = 1 ∷ [];
  lost = [];
}

two_tasks-Reachable : Reachable two_tasks
unfolding start add_task push_task schedule_next take_next pop_front post
two_tasks-Reachable =
    steps (steps (steps (steps starts (adds 1)) (adds 2)) (schedules 0 refl)) (begins [] [] 1 refl)

-- One task is dropped, and another stays in the queue.
abbrev one_dropped : System ℕ
one_dropped = record {
  strand = record { queue = 2 ∷ []; running = true };
  callers = 0;
  posted = [];
  executing = [];
  added = 1 ∷ 2 ∷ [];
  begun = [];
  lost = 1 ∷ [];
}

one_dropped-Reachable : Reachable one_dropped
unfolding start add_task push_task schedule_next take_next pop_front post drop_job
one_dropped-Reachable =
    steps (steps (steps (steps starts (adds 1)) (schedules 0 refl)) (drops [] [] 1 refl)) (adds 2)

dropped_serial :
    one_dropped.added
    ≡ one_dropped.begun ++ (one_dropped.lost ++ (one_dropped.posted ++ one_dropped.strand.queue))
dropped_serial = let (few, ordered, one, served) = Reachable-serial one_dropped-Reachable in ordered

Reachable-serial_example :
    (length two_tasks.executing ≤ 1)
    × (two_tasks.added
        ≡ two_tasks.begun ++ (two_tasks.lost ++ (two_tasks.posted ++ two_tasks.strand.queue)))
    × (length two_tasks.lost ≤ 1)
    × (two_tasks.lost ≡ [] → 0 < length two_tasks.strand.queue → at_work two_tasks ≡ 1)
Reachable-serial_example = Reachable-serial two_tasks-Reachable

-- The first task is handed to the executor, which drops it, and a second one is added.
abbrev one_posted : System ℕ
one_posted = record {
  strand = record { queue = []; running = true };
  callers = 0;
  posted = 1 ∷ [];
  executing = [];
  added = 1 ∷ [];
  begun = [];
  lost = [];
}

one_posted-Reachable : Reachable one_posted
unfolding start add_task push_task schedule_next take_next pop_front post
one_posted-Reachable = steps (steps starts (adds 1)) (schedules 0 refl)

nothing_begins_example :
    let t = add_task 2 (drop_job [] [] 1 one_posted) in
    (t.begun ≡ []) × (t.strand.running ≡ true) × (at_work t ≡ 0)
nothing_begins_example = nothing_begins [] [] 1 one_posted-Reachable refl (more (adds 2) none_more)
