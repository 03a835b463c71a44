-- ===== src/IoContext.antt =====
-- The I/O context of include/net/IOContext.hpp over the calls of include/net/Epoll.hpp. The handles of
-- coroutines are a type `H`; `epoll_ctl` is a parameter, on a state `K` of the kernel.
pub mod Tally
pub mod Wakes
mod Tests
use high_speed.Prelude.{
  ℕ, zero, suc, ◌+◌, ◌≡◌, Bool, true, false, List, [], ◌∷◌, ◌++◌, Option, none, some, ◌==◌,
  if◌then◌else◌,
}

-- `EPOLL_CTL_ADD`, `EPOLL_CTL_MOD`, `EPOLL_CTL_DEL`.
pub data Ctl : Type 0 where
  ctl_add ctl_mod ctl_del : Ctl

-- `epoll_ctl` on a descriptor and its events: whether the result is not negative, and the kernel then.
abbrev pub EpollCtl : Type 0 → Type 0
EpollCtl K = Ctl → ℕ → ℕ → K → Bool × K

-- `Waiter`; the handle may be null.
pub record Waiter (H : Type 0) : Type 0 where
  pub handle : Option H
  pub events : ℕ

-- The members of `IOContext`, with the kernel behind `ev_` and the handles that were given to the pool.
pub record IoContext (H K : Type 0) : Type 0 where
  pub waiters : List (ℕ × Waiter H)
  pub running : Bool
  pub kernel : K
  pub posted : List (Option H)

module _ {H : Type 0} where
  unfoldable pub find_waiter : ℕ → List (ℕ × Waiter H) → Option (Waiter H)
  find_waiter fd [] = none
  find_waiter fd ((fd', w) ∷ ws) = if fd' == fd then some w else find_waiter fd ws

  -- `waiters_[fd] = w`.
  unfoldable pub put_waiter : ℕ → Waiter H → List (ℕ × Waiter H) → List (ℕ × Waiter H)
  put_waiter fd w [] = (fd, w) ∷ []
  put_waiter fd w ((fd', w') ∷ ws) =
      if fd' == fd then (fd', w) ∷ ws else (fd', w') ∷ put_waiter fd w ws

  -- `waiters_.erase(fd)`.
  unfoldable pub erase_waiter : ℕ → List (ℕ × Waiter H) → List (ℕ × Waiter H)
  erase_waiter fd [] = []
  erase_waiter fd ((fd', w) ∷ ws) = if fd' == fd then ws else (fd', w) ∷ erase_waiter fd ws

module _ {H K : Type 0} (epoll_ctl : EpollCtl K) where
  -- `add`, `modify` and `remove` of `Epoll`: false is the `std::runtime_error`.
  unfoldable pub epoll : Ctl → ℕ → ℕ → IoContext H K → Bool × IoContext H K
  epoll ctl fd events s =
      let (good, kernel') = epoll_ctl ctl fd events s.kernel in
      (good, record s { kernel = kernel' })

  unfoldable pub add_fd : ℕ → ℕ → IoContext H K → Bool × IoContext H K
  add_fd fd events s = epoll ctl_add fd events s

  unfoldable pub modify_fd : ℕ → ℕ → IoContext H K → Bool × IoContext H K
  modify_fd fd events s = epoll ctl_mod fd events s

  unfoldable pub remove_fd : ℕ → IoContext H K → Bool × IoContext H K
  remove_fd fd s = epoll ctl_del fd 0 (record s { waiters = erase_waiter fd s.waiters })

  -- `FdAwaiter::await_suspend` up to `modify`.
  unfoldable pub register : H → ℕ → ℕ → IoContext H K → IoContext H K
  register h fd events s = record s {
    waiters = put_waiter fd (record { handle = some h; events = events }) s.waiters;
  }

  -- From `modify` on.
  unfoldable pub settle_from : ℕ → Bool × IoContext H K → IoContext H K
  settle_from fd (true, s) = s
  settle_from fd (false, s) = record s { waiters = erase_waiter fd s.waiters }

  unfoldable pub settle : ℕ → ℕ → IoContext H K → IoContext H K
  settle fd events s = settle_from fd (modify_fd fd events s)

  unfoldable pub await_suspend : H → ℕ → ℕ → IoContext H K → IoContext H K
  await_suspend h fd events s = settle fd events (register h fd events s)

  -- `waiters_[fd].events`, which makes an entry where there is none.
  unfoldable pub get_events : ℕ → IoContext H K → ℕ × IoContext H K
  get_events fd s = elim (find_waiter fd s.waiters) [
    | some w ↦ (w.events, s)
    | none ↦
        (0, record s { waiters = put_waiter fd (record { handle = none; events = 0 }) s.waiters })
  ]

  -- The body of the loop of `run` over the events.
  unfoldable pub dispatch_one : ℕ → IoContext H K → IoContext H K
  dispatch_one fd s = elim (find_waiter fd s.waiters) [
    | none ↦ s
    | some w ↦ record s { waiters = erase_waiter fd s.waiters; posted = s.posted ++ w.handle ∷ [] }
  ]

  -- The loop over the events of one `wait`, each with its descriptor and bits.
  unfoldable pub dispatch : List (ℕ × ℕ) → IoContext H K → IoContext H K
  dispatch [] s = s
  dispatch ((fd, events) ∷ more) s = dispatch more (dispatch_one fd s)

  -- The outer loop of `run` over the results of `wait`, `none` where it is negative.
  unfoldable pub run_loop : List (Option (List (ℕ × ℕ))) → IoContext H K → IoContext H K
  run_loop [] s = s
  run_loop (none ∷ waits) s = run_loop waits s
  run_loop (some events ∷ waits) s = run_loop waits (dispatch events s)

  unfoldable pub run : List (Option (List (ℕ × ℕ))) → IoContext H K → IoContext H K
  run waits s = run_loop waits (record s { running = true })

  unfoldable pub stop : IoContext H K → IoContext H K
  stop s = record s { running = false }

-- The handle of the waiter of `fd`, if there is one.
abbrev pub held : {H : Type 0} → ℕ → List (ℕ × Waiter H) → List (Option H)
held fd [] = []
held fd ((fd', w) ∷ ws) = if fd' == fd then w.handle ∷ [] else held fd ws

-- The context; the calls of `await_suspend` before `modify`, with descriptor and events; all handles
-- that came into the map, the null ones of `get_events` among them; and all that left it unposted.
pub record System (H K : Type 0) : Type 0 where
  pub context : IoContext H K
  pub suspending : List (ℕ × ℕ)
  pub entered : List (Option H)
  pub dropped : List (Option H)

-- What the coroutines, the event loop and other callers do, in any order. Each step accesses the map as a
-- whole. The mutex ensures that of `run`, `remove_fd` and `get_events`, but `await_suspend` writes the map
-- without it: a state here is one of the program as long as no other access falls into these writes.
pub data Step {H K : Type 0} (epoll_ctl : EpollCtl K) (s : System H K) : System H K → Type 0 where
  registers :
      (h : H) (fd events : ℕ)
      → Step epoll_ctl s (record s {
        context = register epoll_ctl h fd events s.context;
        suspending = (fd, events) ∷ s.suspending;
        entered = s.entered ++ some h ∷ [];
        dropped = s.dropped ++ held fd s.context.waiters;
      })
  settles :
      (before after : List (ℕ × ℕ)) (fd events : ℕ)
      → s.suspending ≡ before ++ (fd, events) ∷ after
      → Step epoll_ctl s (record s {
        context = settle epoll_ctl fd events s.context;
        suspending = before ++ after;
        dropped =
            s.dropped
            ++ (if (modify_fd epoll_ctl fd events s.context).0
                then []
                else held fd s.context.waiters);
      })
  reads_events :
      (fd : ℕ)
      → Step epoll_ctl s (record s {
        context = (get_events epoll_ctl fd s.context).1;
        entered =
            s.entered ++ elim (find_waiter fd s.context.waiters) [ some w ↦ [] | none ↦ none ∷ [] ];
      })
  removes :
      (fd : ℕ)
      → Step epoll_ctl s (record s {
        context = (remove_fd epoll_ctl fd s.context).1;
        dropped = s.dropped ++ held fd s.context.waiters;
      })
  adds :
      (fd events : ℕ)
      → Step epoll_ctl s (record s { context = (add_fd epoll_ctl fd events s.context).1 })
  modifies :
      (fd events : ℕ)
      → Step epoll_ctl s (record s { context = (modify_fd epoll_ctl fd events s.context).1 })
  dispatches :
      (fd : ℕ) → Step epoll_ctl s (record s { context = dispatch_one epoll_ctl fd s.context })

unfoldable pub start : {H K : Type 0} → K → System H K
start kernel = record {
  context = record { waiters = []; running = false; kernel = kernel; posted = [] };
  suspending = [];
  entered = [];
  dropped = [];
}

pub data Reachable {H K : Type 0} (epoll_ctl : EpollCtl K) : System H K → Type 0 where
  starts : (kernel : K) → Reachable epoll_ctl (start kernel)
  steps : {s t : System H K} → Reachable epoll_ctl s → Step epoll_ctl s t → Reachable epoll_ctl t
