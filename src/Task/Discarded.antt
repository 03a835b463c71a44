-- ===== src/Task/Discarded.antt =====
-- A `Task` of include/coro/Task.hpp that ends before the scheduler resumes its coroutine.
use high_speed.Prelude.{
  ◌≡◌, refl, ap, ◌∙◌, true, List, [], ◌∷◌, ◌++◌, none, some, length, get_elem?, put, remove,
}
use high_speed.Task.{
  Body, Tasks, start, call, destroy_frame, destroy_handle, destruct_of, destruct, resume_frame,
  resume,
}

module _ {ℓ} {A : Type ℓ} where
  get_elem?-snoc : (xs : List A) (x : A) → get_elem? (xs ++ x ∷ []) (length xs) ≡ some x
  get_elem?-snoc [] x = refl
  get_elem?-snoc (y ∷ xs) x = get_elem?-snoc xs x

  put-snoc : (xs : List A) (x y : A) → put (length xs) y (xs ++ x ∷ []) ≡ xs ++ y ∷ []
  put-snoc [] x y = refl
  put-snoc (z ∷ xs) x y = ap (λ zs. z ∷ zs) (put-snoc xs x y)

  remove-snoc : (xs : List A) (x : A) → remove (length xs) (xs ++ x ∷ []) ≡ xs
  remove-snoc [] x = refl
  remove-snoc (z ∷ xs) x = ap (λ zs. z ∷ zs) (remove-snoc xs x)

module _ {V E : Type 0} where
  -- What is left of a call whose `Task` has ended.
  abbrev pub discarded : Tasks V E → Tasks V E
  discarded s = record s {
    frames = s.frames ++ none ∷ [];
    coroutines = s.coroutines ++ length s.frames ∷ [];
  }

  destruct-call :
      (body : Body V E) (s : Tasks V E) → destruct (length s.tasks) (call body s) ≡ discarded s
  unfolding destruct destruct_of destroy_handle destroy_frame call
  destruct-call body s =
      ap (λ o. destruct_of (length s.tasks) o (call body s)) (get_elem?-snoc s.tasks _)
      ∙ rw (remove-snoc s.tasks (some (length s.frames))) (
          ap (λ o. destroy_frame (length s.frames) o (record (call body s) { tasks = s.tasks }))
            (get_elem?-snoc s.frames (some (start body)))
          ∙ ap (λ fs. record (discarded s) { frames = fs })
              (put-snoc s.frames (some (start body)) none))

  -- A coroutine that is called and whose `Task` ends at once, as in a statement that is a call: the
  -- scheduler's queue has the handle of the destroyed frame, and to resume it is undefined.
  pub resume-destruct-call :
      (body : Body V E) (s : Tasks V E)
      → let t = destruct (length s.tasks) (call body s) in
        (t.coroutines ≡ s.coroutines ++ length s.frames ∷ [])
        × ((resume (length s.frames) t).undefined ≡ true)
  unfolding resume resume_frame
  resume-destruct-call body s = rw (destruct-call body s) (
    refl,
    ap (λ o. (resume_frame (length s.frames) o (discarded s)).undefined)
        (get_elem?-snoc s.frames none),
  )
