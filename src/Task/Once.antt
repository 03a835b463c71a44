-- ===== src/Task/Once.antt =====
-- How often the result of a coroutine of include/coro/Task.hpp can be asked for.
use high_speed.Prelude.{
  ℕ, zero, suc, ◌+◌, ◌≤◌, ◌≡◌, refl, ap, ◌∙◌, true, false, Option, none, some, ◌==◌, if◌then◌else◌,
  arith,
}
use high_speed.Task.{
  stored, failure, Shared, Body, suspends, returns, throws, in_body, at_end, TaskFrame, Got, got,
  rethrown, blocks, already_retrieved, start, settle, resume_point, future_get, get,
}

module _ {V E : Type 0} where
  -- How often the code suspends, and how it ends.
  abbrev pub rounds : Body V E → ℕ
  rounds (suspends body) = suc (rounds body)
  rounds (returns v) = 0
  rounds (throws e) = 0

  abbrev pub outcome : Body V E → Got V E
  outcome (suspends body) = outcome body
  outcome (returns v) = got v
  outcome (throws e) = rethrown e

  unfoldable pub resume_frame : Option (TaskFrame V E) → Option (TaskFrame V E)
  resume_frame none = none
  resume_frame (some f) = resume_point f.point f

  -- The coroutine after `n` resumptions; `none` if it was resumed at its end.
  unfoldable pub resumes : ℕ → Option (TaskFrame V E) → Option (TaskFrame V E)
  resumes zero o = o
  resumes (suc n) o = resumes n (resume_frame o)

  frame : Shared V E → Body V E → TaskFrame V E
  frame p body = record { value_ = p; point = in_body body }

  -- The frame after `n` resumptions of the code, at most to its end.
  after : ℕ → Body V E → Shared V E → TaskFrame V E
  after zero body p = frame p body
  after (suc n) (suspends body) p = after n body p
  after (suc n) (returns v) p = record {
    value_ = record p { state = some (stored v) };
    point = at_end;
  }
  after (suc n) (throws e) p = record {
    value_ = record p { state = some (failure e) };
    point = at_end;
  }

  resumes-frame :
      (n : ℕ) (body : Body V E) (p : Shared V E)
      → n ≤ rounds body + 1
      → resumes n (some (frame p body)) ≡ some (after n body p)
  unfolding resumes resume_frame resume_point settle frame after
  resumes-frame zero body p h = refl
  resumes-frame (suc n) (suspends body) p h = resumes-frame n body p (omega arith)
  resumes-frame (suc zero) (returns v) p h = refl
  resumes-frame (suc (suc n)) (returns v) p h = absurd (omega arith)
  resumes-frame (suc zero) (throws v) p h = refl
  resumes-frame (suc (suc n)) (throws v) p h = absurd (omega arith)

  resumes-after :
      (m n : ℕ) (body : Body V E) (p : Shared V E)
      → n + m ≤ rounds body + 1
      → resumes m (some (after n body p)) ≡ some (after (n + m) body p)
  unfolding resumes resume_frame resume_point settle frame after
  resumes-after m zero body p h =
      let e : m ≡ 0 + m = omega arith in
      resumes-frame m body p (omega arith) ∙ ap (λ (k : ℕ). some (after k body p)) e
  resumes-after m (suc n) (suspends body) p h =
      let e : suc (n + m) ≡ suc n + m = omega arith in
      resumes-after m n body p (omega arith) ∙ ap (λ (k : ℕ). some (after k (suspends body) p)) e
  resumes-after zero (suc n) (returns v) p h =
      let e : suc n ≡ suc n + 0 = omega arith in ap (λ (k : ℕ). some (after k (returns v) p)) e
  resumes-after (suc m) (suc n) (returns v) p h = absurd (omega arith)
  resumes-after zero (suc n) (throws v) p h =
      let e : suc n ≡ suc n + 0 = omega arith in ap (λ (k : ℕ). some (after k (throws v) p)) e
  resumes-after (suc m) (suc n) (throws v) p h = absurd (omega arith)

  abbrev fresh : Shared V E
  fresh = record { state = none; retrieved = false }

  abbrev asked : Shared V E
  asked = record { state = none; retrieved = true }

  -- What the first `get` finds, and what it leaves.
  get-after :
      (n : ℕ) (body : Body V E)
      → n ≤ rounds body + 1
      → get (after n body fresh)
        ≡ ((if n == rounds body + 1 then outcome body else blocks), after n body asked)
  unfolding get future_get after frame
  get-after zero body h = rw (zero_eq (rounds body)) refl
    where
      zero_eq : (k : ℕ) → (0 == k + 1) ≡ false
      zero_eq k = ground arith
  get-after (suc n) (suspends body) h =
      get-after n body (omega arith)
      ∙ ap (λ b. ((if b then outcome body else blocks), after n body asked)) (ground arith)
  get-after (suc zero) (returns v) h = refl
  get-after (suc (suc n)) (returns v) h = absurd (omega arith)
  get-after (suc zero) (throws v) h = refl
  get-after (suc (suc n)) (throws v) h = absurd (omega arith)

  get-asked : (n : ℕ) (body : Body V E) → (get (after n body asked)).0 ≡ already_retrieved
  unfolding get after frame
  get-asked zero body = refl
  get-asked (suc n) (suspends body) = get-asked n body
  get-asked (suc n) (returns v) = refl
  get-asked (suc n) (throws v) = refl

  -- A coroutine that is resumed `n` times, then asked for its result, then resumed `m` times more and
  -- asked again, at most up to its end: the resumptions are allowed; the first `get` returns or throws
  -- what the coroutine did, if it has ended, and waits for its end otherwise; the second one throws
  -- the error of `get_future`.
  pub get-get :
      (body : Body V E) (n m : ℕ)
      → n + m ≤ rounds body + 1
      → (f : TaskFrame V E) × (g : TaskFrame V E) × (resumes n (some (start body)) ≡ some f)
        × ((get f).0 ≡ (if n == rounds body + 1 then outcome body else blocks))
        × (resumes m (some (get f).1) ≡ some g)
        × ((get g).0 ≡ already_retrieved)
  unfolding start frame
  get-get body n m h =
      let e = get-after n body (omega arith) in
      (
        after n body fresh,
        after (n + m) body asked,
        resumes-frame n body fresh (omega arith),
        ap (λ r. r.0) e,
        ap (λ r. resumes m (some r.1)) e ∙ resumes-after m n body asked h,
        get-asked (n + m) body,
      )
