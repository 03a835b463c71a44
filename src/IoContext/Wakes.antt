-- ===== src/IoContext/Wakes.antt =====
-- Which handles the event loop of include/net/IOContext.hpp gives to the pool.
use high_speed.Prelude.{
  ℕ, ◌≡◌, refl, sym, ap, ◌∙◌, Bool, true, false, not, ◌&&◌, List, [], ◌∷◌, ◌++◌, append_assoc,
  append-nil, Option, none, some, arith, ◌==◌, ==_refl, Bool-cases, Option-cases, inl, inr,
}
use high_speed.IoContext.{
  Waiter, IoContext, EpollCtl, ctl_mod, find_waiter, put_waiter, erase_waiter, epoll, modify_fd,
  register, settle_from, settle, await_suspend, get_events, dispatch_one, dispatch,
}

-- No event is for the descriptor.
abbrev pub none_for : ℕ → List (ℕ × ℕ) → Bool
none_for fd [] = true
none_for fd ((fd', bits) ∷ events) = not (fd' == fd) && none_for fd events

module _ {H : Type 0} where
  find_waiter-put_waiter :
      (fd : ℕ) (w : Waiter H) (ws : List (ℕ × Waiter H))
      → find_waiter fd (put_waiter fd w ws) ≡ some w
  unfolding find_waiter put_waiter
  find_waiter-put_waiter fd w [] = rw (==_refl fd) refl
  find_waiter-put_waiter fd w ((fd', w') ∷ ws) = elim (Bool-cases (fd' == fd)) [
    | inl e ↦ rw (e, find_waiter, e) refl
    | inr e ↦ rw (e, find_waiter, e) (find_waiter-put_waiter fd w ws)
  ]

  find_waiter-erase_waiter :
      (fd fd' : ℕ) (ws : List (ℕ × Waiter H))
      → (fd' == fd) ≡ false
      → find_waiter fd (erase_waiter fd' ws) ≡ find_waiter fd ws
  unfolding find_waiter erase_waiter
  find_waiter-erase_waiter fd fd' [] d = refl
  find_waiter-erase_waiter fd fd' ((k, w) ∷ ws) d = elim (Bool-cases (k == fd')) [
    | inl e ↦ let other : (k == fd) ≡ false = ground arith in rw (e, other) refl
    | inr e ↦ rw (e, find_waiter, find_waiter-erase_waiter fd fd' ws d) refl
  ]

module _ {H K : Type 0} (epoll_ctl : EpollCtl K) where
  dispatch_one_found :
      (fd : ℕ) (w : Waiter H) (s : IoContext H K)
      → find_waiter fd s.waiters ≡ some w
      → (dispatch_one epoll_ctl fd s).posted ≡ s.posted ++ w.handle ∷ []
  unfolding dispatch_one
  dispatch_one_found fd w s e = rw (dispatch_one, e) refl

  dispatch_one_other :
      (fd fd' : ℕ) (s : IoContext H K)
      → (fd' == fd) ≡ false
      → find_waiter fd (dispatch_one epoll_ctl fd' s).waiters ≡ find_waiter fd s.waiters
  unfolding dispatch_one
  dispatch_one_other fd fd' s d = elim (Option-cases (find_waiter fd' s.waiters)) [
    | inl e ↦ rw (dispatch_one, e) refl
    | inr (w, e) ↦ rw (dispatch_one, e) (find_waiter-erase_waiter fd fd' s.waiters d)
  ]

  dispatch_one_posts :
      (fd : ℕ) (s : IoContext H K)
      → (new : List (Option H)) × ((dispatch_one epoll_ctl fd s).posted ≡ s.posted ++ new)
  unfolding dispatch_one
  dispatch_one_posts fd s = elim (Option-cases (find_waiter fd s.waiters)) [
    | inl e ↦ ([], rw (dispatch_one, e) (sym (append-nil s.posted)))
    | inr (w, e) ↦ (w.handle ∷ [], rw (dispatch_one, e) refl)
  ]

  -- What is posted stays posted.
  dispatch_posts :
      (events : List (ℕ × ℕ)) (s : IoContext H K)
      → (new : List (Option H)) × ((dispatch epoll_ctl events s).posted ≡ s.posted ++ new)
  unfolding dispatch
  dispatch_posts [] s = ([], sym (append-nil s.posted))
  dispatch_posts ((fd, bits) ∷ events) s =
      let (new, e) = dispatch_one_posts fd s in
      let (newer, f) = dispatch_posts events (dispatch_one epoll_ctl fd s) in
      (new ++ newer, f ∙ ap (λ hs. hs ++ newer) e ∙ append_assoc s.posted new newer)

  await_suspend_good :
      (h : H) (fd events : ℕ) (s : IoContext H K)
      → (epoll_ctl ctl_mod fd events s.kernel).0 ≡ true
      → find_waiter fd (await_suspend epoll_ctl h fd events s).waiters
        ≡ some (record { handle = some h; events = events })
  unfolding await_suspend settle settle_from modify_fd epoll register
  await_suspend_good h fd events s good =
      rw (good) (find_waiter-put_waiter fd (record { handle = some h; events = events }) s.waiters)

  await_suspend-posted :
      (h : H) (fd events : ℕ) (s : IoContext H K)
      → (await_suspend epoll_ctl h fd events s).posted ≡ s.posted
  unfolding await_suspend settle settle_from modify_fd epoll register
  await_suspend-posted h fd events s = elim (Bool-cases (epoll_ctl ctl_mod fd events s.kernel).0) [
    | inl e ↦ rw (e) refl
    | inr e ↦ rw (e) refl
  ]

  dispatch_found :
      (fd bits events : ℕ) (h : H) (others more : List (ℕ × ℕ)) (s : IoContext H K)
      → find_waiter fd s.waiters ≡ some (record { handle = some h; events = events })
      → none_for fd others ≡ true
      → (after : List (Option H)) × ((dispatch epoll_ctl (others ++ (fd, bits) ∷ more) s).posted
          ≡ (dispatch epoll_ctl others s).posted ++ some h ∷ after)
  unfolding dispatch
  dispatch_found fd bits events h [] more s e n =
      let (new, f) = dispatch_posts more (dispatch_one epoll_ctl fd s) in
      (
        new,
        f
            ∙ ap (λ hs. hs ++ new)
                (dispatch_one_found fd (record { handle = some h; events = events }) s e)
            ∙ append_assoc s.posted (some h ∷ []) new,
      )
  dispatch_found fd bits events h ((fd', bits') ∷ others) more s e n =
      dispatch_found fd bits events h others more (dispatch_one epoll_ctl fd' s)
        (dispatch_one_other fd fd' s (ground arith) ∙ e) (ground arith)

  -- A coroutine that awaits a descriptor, where `epoll_ctl` takes the events: nothing is given to the
  -- pool by that, and the first event for the descriptor gives it the coroutine, behind what the
  -- events for other descriptors before it give, whatever waited there before.
  pub dispatch-await_suspend :
      (h : H) (fd events bits : ℕ) (others more : List (ℕ × ℕ)) (s : IoContext H K)
      → (epoll_ctl ctl_mod fd events s.kernel).0 ≡ true
      → none_for fd others ≡ true
      → let s' = await_suspend epoll_ctl h fd events s in
        (s'.posted ≡ s.posted)
        × ((after : List (Option H)) × ((dispatch epoll_ctl (others ++ (fd, bits) ∷ more) s').posted
              ≡ (dispatch epoll_ctl others s').posted ++ some h ∷ after))
  dispatch-await_suspend h fd events bits others more s good n = (
    await_suspend-posted h fd events s,
    dispatch_found fd bits events h others more (await_suspend epoll_ctl h fd events s)
        (await_suspend_good h fd events s good) n,
  )

  -- After `get_events` of a descriptor without a waiter, an event for it posts a null handle, which the
  -- job of the pool would resume.
  pub dispatch-get_events :
      (fd bits : ℕ) (s : IoContext H K)
      → find_waiter fd s.waiters ≡ none
      → (dispatch epoll_ctl ((fd, bits) ∷ []) (get_events epoll_ctl fd s).1).posted
        ≡ s.posted ++ none ∷ []
  unfolding dispatch get_events
  dispatch-get_events fd bits s e =
      rw (get_events, e)
        (dispatch_one_found fd (record { handle = none; events = 0 })
          (record s { waiters = put_waiter fd (record { handle = none; events = 0 }) s.waiters })
          (find_waiter-put_waiter fd (record { handle = none; events = 0 }) s.waiters))
