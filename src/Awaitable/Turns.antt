-- ===== src/Awaitable/Turns.antt =====
-- What one turn of a pool's thread does to the coroutines of include/coro/Awaitable.hpp.
use high_speed.Prelude.{
  ℕ, ◌+◌, ◌≡◌, refl, ap, ◌∙◌, Bool, true, false, List, [], ◌∷◌, none, some, ◌==◌, ==_refl,
}
use high_speed.Awaitable.{
  Result, Body, Promise, Point, in_body, in_await, at_end, Frame, Machine, frame_of, put_frame,
  destroy, call, await_transform, await_suspend, await_resume, finish, run_point, resume, turn_from,
  turn,
}

module _ {V E : Type 0} where
  -- A coroutine in its code, on top of the frames `fs`.
  abbrev pub running : ℕ → Promise V E → Point V E → List (ℕ × Frame V E) → ℕ → Machine V E
  running h p point fs next = record {
    frames = (h, record { promise = p; point = point }) ∷ fs;
    next = next;
    active = some h;
    jobs = [];
    failed = false;
  }

  -- The same at its end, the awaiting coroutine resumed.
  abbrev pub ended : ℕ → Promise V E → List (ℕ × Frame V E) → ℕ → Machine V E
  ended h p fs next = record {
    frames = (h, record { promise = p; point = at_end }) ∷ fs;
    next = next;
    active = p.awaiting;
    jobs = [];
    failed = false;
  }

  abbrev pub awaited : ℕ → Promise V E
  awaited h = record { executor = true; awaiting = some h; value = none; exception = none }

  frame_of_head :
      (h : ℕ) (f : Frame V E) (fs : List (ℕ × Frame V E)) → frame_of h ((h, f) ∷ fs) ≡ some f
  unfolding frame_of
  frame_of_head h f fs = rw (==_refl h) refl

  frame_of_tail :
      (h h' : ℕ) (f : Frame V E) (fs : List (ℕ × Frame V E))
      → (h' == h) ≡ false
      → frame_of h ((h', f) ∷ fs) ≡ frame_of h fs
  unfolding frame_of
  frame_of_tail h h' f fs d = rw d refl

  put_frame_head :
      (h : ℕ) (f f' : Frame V E) (fs : List (ℕ × Frame V E))
      → put_frame h f' ((h, f) ∷ fs) ≡ (h, f') ∷ fs
  unfolding put_frame
  put_frame_head h f f' fs = rw (==_refl h) refl

  destroy_head : (h : ℕ) (f : Frame V E) (fs : List (ℕ × Frame V E)) → destroy h ((h, f) ∷ fs) ≡ fs
  unfolding destroy
  destroy_head h f fs = rw (==_refl h) refl

module _ {V E : Type 0} (bad : E) where
  resume_found :
      (h : ℕ) (f : Frame V E) (m : Machine V E)
      → frame_of h m.frames ≡ some f
      → resume bad h m ≡ run_point bad h f.promise f.point m
  unfolding resume
  resume_found h f m e = rw (resume, e) refl

  turn_running :
      (h : ℕ) (p : Promise V E) (point : Point V E) (fs : List (ℕ × Frame V E)) (next : ℕ)
      → turn bad (running h p point fs next) ≡ run_point bad h p point (running h p point fs next)
  unfolding turn turn_from
  turn_running h p point fs next =
      resume_found h (record { promise = p; point = point }) (running h p point fs next)
        (frame_of_head h (record { promise = p; point = point }) fs)

  pub turn-returns :
      (h : ℕ) (p : Promise V E) (v : V) (fs : List (ℕ × Frame V E)) (next : ℕ)
      → turn bad (running h p (in_body (Body.returns v)) fs next)
        ≡ ended h (record p { value = some v }) fs next
  unfolding run_point finish
  turn-returns h p v fs next =
      turn_running h p (in_body (Body.returns v)) fs next
      ∙ rw
          (
            run_point,
            finish,
            put_frame_head h (record { promise = p; point = in_body (Body.returns v) })
                (record { promise = record p { value = some v }; point = at_end }) fs,
          )
          refl

  pub turn-throws :
      (h : ℕ) (p : Promise V E) (e : E) (fs : List (ℕ × Frame V E)) (next : ℕ)
      → turn bad (running h p (in_body (Body.throws e)) fs next)
        ≡ ended h (record p { exception = some e }) fs next
  unfolding run_point finish
  turn-throws h p e fs next =
      turn_running h p (in_body (Body.throws e)) fs next
      ∙ rw
          (
            run_point,
            finish,
            put_frame_head h (record { promise = p; point = in_body (Body.throws e) })
                (record { promise = record p { exception = some e }; point = at_end }) fs,
          )
          refl

  -- Behind the suspension in a `co_await`, for the frames that remain.
  abbrev suspended : ℕ → Bool → Body V E → List (ℕ × Frame V E) → ℕ → Machine V E
  suspended h executor body frames next =
      await_suspend h next (await_transform executor (call body))
        (record { frames = frames; next = next + 1; active = none; jobs = []; failed = false })

  run_point_found :
      (h child : ℕ) (p : Promise V E) (k : Result V E → Body V E) (f : Frame V E) (m : Machine V E)
      → frame_of child m.frames ≡ some f
      → run_point bad h p (in_await child k) m ≡ record m {
        frames =
            put_frame h
              (record { promise = p; point = in_body (k (await_resume bad f.promise)) })
              (destroy child m.frames);
      }
  unfolding run_point
  run_point_found h child p k f m e = rw (run_point, e) refl

  -- The job of the coroutine that is awaited is posted, and taken.
  pub turn-awaits :
      (h : ℕ) (p : Promise V E) (body : Body V E) (k : Result V E → Body V E)
      (fs : List (ℕ × Frame V E)) (next : ℕ)
      → p.executor ≡ true
      → turn bad (turn bad (running h p (in_body (Body.awaits body k)) fs next))
        ≡ running next
            (awaited h)
            (in_body body)
            ((h, record { promise = p; point = in_await next k }) ∷ fs)
            (next + 1)
  unfolding turn turn_from run_point await_suspend await_transform call
  turn-awaits h p body k fs next x =
      ap (turn bad) (turn_running h p (in_body (Body.awaits body k)) fs next)
      ∙ ap (λ fr. turn bad (suspended h p.executor body fr next))
          (put_frame_head h (record { promise = p; point = in_body (Body.awaits body k) })
            (record { promise = p; point = in_await next k }) fs)
      ∙ ap
          (λ b.
            turn bad
              (suspended h b body ((h, record { promise = p; point = in_await next k }) ∷ fs) next))
          x

  -- The coroutine that awaits takes the result, and destroys the one it awaited.
  pub turn_resumes :
      (h child : ℕ) (p q : Promise V E) (k : Result V E → Body V E) (fs : List (ℕ × Frame V E))
      (next : ℕ)
      → (child == h) ≡ false
      → q.awaiting ≡ some h
      → turn bad (ended child q ((h, record { promise = p; point = in_await child k }) ∷ fs) next)
        ≡ running h p (in_body (k (await_resume bad q))) fs next
  unfolding turn turn_from
  turn_resumes h child p q k fs next d a =
      let below : Frame V E = record { promise = p; point = in_await child k } in
      let top : Frame V E = record { promise = q; point = at_end } in
      let behind : Frame V E = record { promise = p; point = in_body (k (await_resume bad q)) } in
      let m = ended child q ((h, below) ∷ fs) next in
      ap (λ o. turn_from bad o [] m) a
      ∙ resume_found h below m
          (frame_of_tail h child top ((h, below) ∷ fs) d ∙ frame_of_head h below fs)
      ∙ run_point_found h child p k top m (frame_of_head child top ((h, below) ∷ fs))
      ∙ ap (λ o. record m { frames = put_frame h behind (destroy child m.frames); active = o }) a
      ∙ ap (λ fr. record m { frames = fr; active = some h })
          (ap (put_frame h behind) (destroy_head child top ((h, below) ∷ fs))
            ∙ put_frame_head h below behind fs)
