-- ===== src/IoContext/Tally.antt =====
-- No coroutine that waits in include/net/IOContext.hpp is lost without a trace or resumed twice.
use high_speed.Prelude.{
  ℕ, ◌+◌, ◌≡◌, refl, ap, ◌∙◌, Bool, true, false, List, [], ◌∷◌, ◌++◌, Option, none, some, arith,
  ◌==◌, if◌then◌else◌, Bool-cases, Option-cases, inl, inr,
}
use high_speed.IoContext.{
  Waiter, IoContext, EpollCtl, find_waiter, put_waiter, erase_waiter, epoll, add_fd, modify_fd,
  remove_fd, register, settle_from, settle, ctl_mod, get_events, dispatch_one, held, System, Step,
  registers, settles, reads_events, removes, adds, modifies, dispatches, start, Reachable, starts,
  steps,
}

module _ {H : Type 0} (p : Option H → Bool) where
  abbrev one : Option H → ℕ
  one h = if p h then 1 else 0

  -- How many of the handles `p` holds of.
  abbrev pub tally : List (Option H) → ℕ
  tally [] = 0
  tally (h ∷ hs) = one h + tally hs

  abbrev pub tally_waiters : List (ℕ × Waiter H) → ℕ
  tally_waiters [] = 0
  tally_waiters ((fd, w) ∷ ws) = one w.handle + tally_waiters ws

  tally-append : (xs ys : List (Option H)) → tally (xs ++ ys) ≡ tally xs + tally ys
  tally-append [] ys = omega arith
  tally-append (x ∷ xs) ys = omega (arith, tally-append xs ys)

  tally-put_waiter :
      (fd : ℕ) (w : Waiter H) (ws : List (ℕ × Waiter H))
      → tally_waiters (put_waiter fd w ws) + tally (held fd ws) ≡ tally_waiters ws + one w.handle
  unfolding put_waiter
  tally-put_waiter fd w [] = omega arith
  tally-put_waiter fd w ((fd', w') ∷ ws) = elim (Bool-cases (fd' == fd)) [
    | inl e ↦ rw e (omega arith)
    | inr e ↦ rw e (omega (arith, tally-put_waiter fd w ws))
  ]

  tally-erase_waiter :
      (fd : ℕ) (ws : List (ℕ × Waiter H))
      → tally_waiters (erase_waiter fd ws) + tally (held fd ws) ≡ tally_waiters ws
  unfolding erase_waiter
  tally-erase_waiter fd [] = refl
  tally-erase_waiter fd ((fd', w') ∷ ws) = elim (Bool-cases (fd' == fd)) [
    | inl e ↦ rw e (omega arith)
    | inr e ↦ rw e (omega (arith, tally-erase_waiter fd ws))
  ]

  abbrev found : Option (Waiter H) → List (Option H)
  found none = []
  found (some w) = w.handle ∷ []

  found-if :
      (b : Bool) (w : Waiter H) (o : Option (Waiter H)) (hs : List (Option H))
      → hs ≡ found o
      → (if b then w.handle ∷ [] else hs) ≡ found (if b then some w else o)
  found-if true w o hs e = refl
  found-if false w o hs e = e

  held-find_waiter :
      (fd : ℕ) (ws : List (ℕ × Waiter H)) (o : Option (Waiter H))
      → find_waiter fd ws ≡ o
      → tally (held fd ws) ≡ tally (found o)
  unfolding find_waiter
  held-find_waiter fd ws o e = ap tally (go ws ∙ ap found e)
    where
      go : (ws : List (ℕ × Waiter H)) → held fd ws ≡ found (find_waiter fd ws)
      go [] = refl
      go ((fd', w) ∷ ws) = found-if (fd' == fd) w (find_waiter fd ws) (held fd ws) (go ws)

  -- All handles that came in are posted, dropped or in the map.
  abbrev IsBalanced : {K : Type 0} → System H K → Type 0
  IsBalanced s =
      tally s.entered ≡ tally s.context.posted + tally s.dropped + tally_waiters s.context.waiters

  module _ {K : Type 0} (epoll_ctl : EpollCtl K) where
    registers-IsBalanced :
        (h : H) (fd events : ℕ) (s : System H K)
        → IsBalanced s
        → tally (s.entered ++ some h ∷ [])
          ≡ tally s.context.posted
            + tally (s.dropped ++ held fd s.context.waiters)
            + tally_waiters (register epoll_ctl h fd events s.context).waiters
    unfolding register
    registers-IsBalanced h fd events s b = omega (
      arith,
      tally-append s.entered (some h ∷ []),
      tally-append s.dropped (held fd s.context.waiters),
      tally-put_waiter fd (record { handle = some h; events = events }) s.context.waiters,
    )

    settles-IsBalanced :
        (fd : ℕ) (good : Bool) (s : System H K) (c : IoContext H K)
        → c.waiters ≡ s.context.waiters
        → c.posted ≡ s.context.posted
        → IsBalanced s
        → tally s.entered
          ≡ tally (settle_from epoll_ctl fd (good, c)).posted
            + tally (s.dropped ++ (if good then [] else held fd s.context.waiters))
            + tally_waiters (settle_from epoll_ctl fd (good, c)).waiters
    unfolding settle_from
    settles-IsBalanced fd true s c e f b = rw (e, f) (omega (arith, tally-append s.dropped []))
    settles-IsBalanced fd false s c e f b =
        rw (e, f)
          (omega (
            arith,
            tally-append s.dropped (held fd s.context.waiters),
            tally-erase_waiter fd s.context.waiters,
          ))

    removes-IsBalanced :
        (fd : ℕ) (s : System H K)
        → IsBalanced s
        → tally s.entered
          ≡ tally s.context.posted
            + tally (s.dropped ++ held fd s.context.waiters)
            + tally_waiters (erase_waiter fd s.context.waiters)
    removes-IsBalanced fd s b = omega (
      arith,
      tally-append s.dropped (held fd s.context.waiters),
      tally-erase_waiter fd s.context.waiters,
    )

    reads_events-IsBalanced :
        (fd : ℕ) (s : System H K)
        → IsBalanced s
        → tally (
            s.entered ++ elim (find_waiter fd s.context.waiters) [ some w ↦ [] | none ↦ none ∷ [] ])
          ≡ tally (get_events epoll_ctl fd s.context).1.posted
            + tally s.dropped
            + tally_waiters (get_events epoll_ctl fd s.context).1.waiters
    unfolding get_events
    reads_events-IsBalanced fd s b = elim (Option-cases (find_waiter fd s.context.waiters)) [
      | inl e ↦
          rw (get_events, e)
            (omega (
              arith,
              tally-append s.entered (none ∷ []),
              tally-put_waiter fd (record { handle = none; events = 0 }) s.context.waiters,
              held-find_waiter fd s.context.waiters none e,
            ))
      | inr (w, e) ↦ rw (get_events, e) (omega (arith, tally-append s.entered []))
    ]

    dispatches-IsBalanced :
        (fd : ℕ) (s : System H K)
        → IsBalanced s
        → tally s.entered
          ≡ tally (dispatch_one epoll_ctl fd s.context).posted
            + tally s.dropped
            + tally_waiters (dispatch_one epoll_ctl fd s.context).waiters
    unfolding dispatch_one
    dispatches-IsBalanced fd s b = elim (Option-cases (find_waiter fd s.context.waiters)) [
      | inl e ↦ rw (dispatch_one, e) b
      | inr (w, e) ↦
          rw (dispatch_one, e)
            (omega (
              arith,
              tally-append s.context.posted (w.handle ∷ []),
              tally-erase_waiter fd s.context.waiters,
              held-find_waiter fd s.context.waiters (some w) e,
            ))
    ]

    Step-IsBalanced : {s t : System H K} → IsBalanced s → Step epoll_ctl s t → IsBalanced t
    unfolding settle remove_fd add_fd modify_fd epoll register
    Step-IsBalanced {s} b (registers h fd events) = registers-IsBalanced h fd events s b
    Step-IsBalanced {s} b (settles before after fd events e) =
        let (good, kernel') = epoll_ctl ctl_mod fd events s.context.kernel in
        settles-IsBalanced fd good s (record s.context { kernel = kernel' }) refl refl b
    Step-IsBalanced {s} b (reads_events fd) = reads_events-IsBalanced fd s b
    Step-IsBalanced {s} b (removes fd) = removes-IsBalanced fd s b
    Step-IsBalanced {s} b (adds fd events) = b
    Step-IsBalanced {s} b (modifies fd events) = b
    Step-IsBalanced {s} b (dispatches fd) = dispatches-IsBalanced fd s b

    -- As long as no access of the map falls into another one, which the code does not ensure, since
    -- `await_suspend` writes the map without the mutex: in every state that the context reaches, in
    -- whatever order coroutines, the event loop and other callers go on and whatever `epoll_ctl` answers,
    -- of the handles that came into the map, those posted to the pool, those dropped, and those in the map
    -- are together all, each as often. A property of handles picks the ones to count.
    pub Reachable-balanced :
        {s : System H K}
        → Reachable epoll_ctl s
        → tally s.entered
          ≡ tally s.context.posted + tally s.dropped + tally_waiters s.context.waiters
    unfolding start
    Reachable-balanced (starts kernel) = refl
    Reachable-balanced (steps r step) = Step-IsBalanced (Reachable-balanced r) step
