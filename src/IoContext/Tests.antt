-- ===== src/IoContext/Tests.antt =====
-- Runs of the I/O context of include/net/IOContext.hpp, and the theorems at them.
use high_speed.Prelude.{ℕ, ◌+◌, ◌≡◌, refl, true, false, not, [], ◌∷◌, none, some, ◌==◌}
use high_speed.IoContext.{
  IoContext, EpollCtl, ctl_add, ctl_mod, ctl_del, find_waiter, put_waiter, erase_waiter, epoll,
  modify_fd, register, settle_from, settle, await_suspend, get_events, dispatch_one, dispatch,
  run_loop, run, System, registers, settles, dispatches, start, Reachable, starts, steps,
}
use high_speed.IoContext.Tally.{tally, tally_waiters, Reachable-balanced}
use high_speed.IoContext.Wakes.{dispatch-get_events}

-- A kernel that counts the calls, and refuses to modify the descriptor 9.
abbrev counting : EpollCtl ℕ
counting ctl_add fd events n = (true, n + 1)
counting ctl_mod fd events n = (not (fd == 9), n + 1)
counting ctl_del fd events n = (true, n + 1)

abbrev context : IoContext ℕ ℕ
context = record {
  waiters =
      (4, record { handle = some 40; events = 1 })
      ∷ (5, record { handle = some 50; events = 4 })
      ∷ [];
  running = false;
  kernel = 0;
  posted = [];
}

-- One handle for two events of a descriptor, in the order of the events.
batches :
    (run counting
      (some ((5, 4) ∷ (7, 1) ∷ (5, 1) ∷ []) ∷ none ∷ some ((4, 1) ∷ []) ∷ [])
      context).posted
    ≡ some 50 ∷ some 40 ∷ []
unfolding run run_loop dispatch dispatch_one find_waiter erase_waiter
batches = refl

-- The waiter of a call that fails is gone.
refused : (await_suspend counting 90 9 1 context).waiters ≡ context.waiters
unfolding await_suspend register settle settle_from modify_fd epoll put_waiter erase_waiter
refused = refl

abbrev two_calls : System ℕ ℕ
two_calls = record {
  context = record { waiters = []; running = false; kernel = 2; posted = some 41 ∷ [] };
  suspending = [];
  entered = some 40 ∷ some 41 ∷ [];
  dropped = some 40 ∷ [];
}

-- Two coroutines wait for one descriptor: the first is dropped.
two_calls-Reachable : Reachable counting two_calls
unfolding start register settle settle_from modify_fd epoll put_waiter dispatch_one find_waiter
    erase_waiter
two_calls-Reachable =
    steps
      (steps
        (steps (steps (steps (starts 0) (registers 40 4 1)) (settles [] [] 4 1 refl))
          (registers 41 4 4))
        (settles [] [] 4 4 refl))
      (dispatches 4)

Reachable-balanced_example :
    tally (λ h. true) two_calls.entered
    ≡ tally (λ h. true) two_calls.context.posted
      + tally (λ h. true) two_calls.dropped
      + tally_waiters (λ h. true) two_calls.context.waiters
Reachable-balanced_example = Reachable-balanced (λ h. true) counting two_calls-Reachable

dispatch-get_events_example :
    (dispatch counting ((7, 1) ∷ []) (get_events counting 7 context).1).posted ≡ none ∷ []
unfolding find_waiter
dispatch-get_events_example = dispatch-get_events counting 7 1 context refl
