-- ===== src/Awaitable/Direct.antt =====
-- Coroutines of include/coro/Awaitable.hpp that await each other compute what plain calls would.
use high_speed.Prelude.{
  ℕ, suc, ◌+◌, ◌<◌, ◌≡◌, refl, ◌∙◌, true, false, List, [], ◌∷◌, none, some, arith,
}
use high_speed.Awaitable.{
  Result, ok, thrown, Body, Promise, in_body, in_await, at_end, Frame, Machine, call,
  await_transform, await_resume, turn_from, turn, turns, co_spawn,
}
use high_speed.Awaitable.Turns.{
  running, ended, awaited, turn-returns, turn-throws, turn-awaits, turn_resumes,
}

-- The code as plain calls: a `co_await` is a call, and exceptions go up.
abbrev pub direct : {V E : Type 0} → Body V E → Result V E
direct (Body.returns v) = ok v
direct (Body.throws e) = thrown e
direct (Body.awaits body k) = direct (k (direct body))

-- No thread is in a coroutine, and no job is left.
abbrev pub idle : {V E : Type 0} → List (ℕ × Frame V E) → ℕ → Machine V E
idle frames next = record { frames = frames; next = next; active = none; jobs = []; failed = false }

-- The frame of a coroutine that `co_spawn` has started, at its end.
abbrev pub ended_frame : {V E : Type 0} → Result V E → Frame V E
ended_frame (ok v) = record {
  promise = record { executor = true; awaiting = none; value = some v; exception = none };
  point = at_end;
}
ended_frame (thrown e) = record {
  promise = record { executor = true; awaiting = none; value = none; exception = some e };
  point = at_end;
}

module _ {V E : Type 0} where
  abbrev pub settled : Result V E → Promise V E → Promise V E
  settled (ok v) p = record p { value = some v }
  settled (thrown e) p = record p { exception = some e }

  settled-awaiting : (h : ℕ) (r : Result V E) → (settled r (awaited h)).awaiting ≡ some h
  settled-awaiting h (ok v) = refl
  settled-awaiting h (thrown e) = refl

module _ {V E : Type 0} (bad : E) where
  data Runs : Machine V E → Machine V E → Type 0 where
    here : {m : Machine V E} → Runs m m
    step : {m m' : Machine V E} → Runs (turn bad m) m' → Runs m m'

  both : {m m' m'' : Machine V E} → Runs m m' → Runs m' m'' → Runs m m''
  both here s = s
  both (step r) s = step (both r s)

  Runs-turns : {m m' : Machine V E} → Runs m m' → (n : ℕ) × (turns bad n m ≡ m')
  unfolding turns
  Runs-turns here = (0, refl)
  Runs-turns (step r) = let (n, e) = Runs-turns r in (suc n, e)

  await_resume-settled : (h : ℕ) (r : Result V E) → await_resume bad (settled r (awaited h)) ≡ r
  unfolding await_resume
  await_resume-settled h (ok v) = refl
  await_resume-settled h (thrown e) = refl

  reaches_end :
      (body : Body V E) (h : ℕ) (p : Promise V E) (fs : List (ℕ × Frame V E)) (next : ℕ)
      → h < next
      → p.executor ≡ true
      → (next' : ℕ) × (h < next')
        × Runs (running h p (in_body body) fs next) (ended h (settled (direct body) p) fs next')
  reaches_end (Body.returns v) h p fs next l x =
      (next, l, step (rw (turn-returns bad h p v fs next) here))
  reaches_end (Body.throws e) h p fs next l x =
      (next, l, step (rw (turn-throws bad h p e fs next) here))
  reaches_end (Body.awaits body k) h p fs next l x =
      let below : Frame V E = record { promise = p; point = in_await next k } in
      let r = direct body in
      let (next', l', first) =
        reaches_end body next (awaited h) ((h, below) ∷ fs) (next + 1) (omega arith) refl in
      let (next'', l'', second) = reaches_end (k r) h p fs next' (omega arith) x in
      (
        next'',
        l'',
        step (
            step (
              rw (turn-awaits bad h p body k fs next x) (
                both first (
                  step (
                    rw
                      (
                        turn_resumes bad h next p (settled r (awaited h)) k fs next' (ground arith)
                            (settled-awaiting h r),
                        await_resume-settled h r,
                      )
                      second))))),
      )

  abbrev spawned : Promise V E
  spawned = record { executor = true; awaiting = none; value = none; exception = none }

  ended-idle :
      (h : ℕ) (r : Result V E) (fs : List (ℕ × Frame V E)) (next : ℕ)
      → ended h (settled r spawned) fs next ≡ idle ((h, ended_frame r) ∷ fs) next
  ended-idle h (ok v) fs next = refl
  ended-idle h (thrown e) fs next = refl

  turn-co_spawn :
      (body : Body V E) (fs : List (ℕ × Frame V E)) (next : ℕ)
      → turn bad (co_spawn body (idle fs next)) ≡ running next spawned (in_body body) fs (next + 1)
  unfolding turn turn_from co_spawn await_transform call
  turn-co_spawn body fs next = refl

  -- A coroutine that is spawned on an idle pool comes to its end in finitely many turns, however it and
  -- the coroutines it awaits await others: the pool is idle, nothing has failed, and of the frames made
  -- there is left exactly that of the spawned coroutine, with the value or the exception in its promise
  -- that the code has as plain calls.
  pub co_spawn-direct :
      (body : Body V E) (fs : List (ℕ × Frame V E)) (next : ℕ)
      → (n : ℕ) × (next' : ℕ) × (turns bad n (co_spawn body (idle fs next))
          ≡ idle ((next, ended_frame (direct body)) ∷ fs) next')
  co_spawn-direct body fs next =
      let (next', l, r) = reaches_end body next spawned fs (next + 1) (omega arith) refl in
      let (n, e) = Runs-turns (step (rw (turn-co_spawn body fs next) r)) in
      (n, next', e ∙ ended-idle next (direct body) fs next')
