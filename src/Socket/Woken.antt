-- ===== src/Socket/Woken.antt =====
-- A coroutine of include/net/Socket.hpp that found its descriptor not ready is resumed by the event loop
-- of include/net/IOContext.hpp.
use high_speed.Prelude.{
  ℕ, ◌≡◌, refl, ap, ◌∙◌, subst, true, List, [], ◌∷◌, ◌++◌, Option, some, Option-cases, inl, inr,
  Bytes,
}
use high_speed.Buffer.{Buffer, Outcome, failed, areas, read_fd}
use high_speed.Buffer.Inv.{IsValid}
use high_speed.Buffer.Calls.{ReadvLaw, Received, read_fd_lem}
use high_speed.IoContext.{EpollCtl, ctl_mod, IoContext, find_waiter, get_events, dispatch}
use high_speed.IoContext.Wakes.{none_for, dispatch-await_suspend}
use high_speed.Socket.{eagain, epollin, suspended, wait_for, async_read}
use high_speed.Socket.Calls.{read_failed}
use Prim.Native.Nat.{bit_or}

module _ {H K : Type 0} (epoll_ctl : EpollCtl K) where
  get_events-kernel : (fd : ℕ) (s : IoContext H K) → (get_events epoll_ctl fd s).1.kernel ≡ s.kernel
  unfolding get_events
  get_events-kernel fd s = elim (Option-cases (find_waiter fd s.waiters)) [
    | inl e ↦ rw (get_events, e) refl
    | inr (w, e) ↦ rw (get_events, e) refl
  ]

  get_events-posted : (fd : ℕ) (s : IoContext H K) → (get_events epoll_ctl fd s).1.posted ≡ s.posted
  unfolding get_events
  get_events-posted fd s = elim (Option-cases (find_waiter fd s.waiters)) [
    | inl e ↦ rw (get_events, e) refl
    | inr (w, e) ↦ rw (get_events, e) refl
  ]

  -- `async_read` whose `readv` says `EAGAIN`, on a valid buffer, where `epoll_ctl` takes any events for
  -- the descriptor: the coroutine is suspended with the buffer as it was, and nothing is given to the
  -- pool by that; the first event for the descriptor gives it the coroutine, behind what the events for
  -- other descriptors that come before give, whatever events come behind.
  pub dispatch-async_read :
      (self : H) (fd bits : ℕ) (readv : List ℕ → Outcome Bytes) (b : Buffer) (s : IoContext H K)
      (others more : List (ℕ × ℕ))
      → ReadvLaw readv
      → IsValid b
      → readv (areas b) ≡ failed eagain
      → ((events : ℕ) → (epoll_ctl ctl_mod fd events s.kernel).0 ≡ true)
      → none_for fd others ≡ true
      → let (progress, s') =
          async_read epoll_ctl self fd
            (record { answer = readv; meanwhile = λ c. c; resumed = λ t. t } ∷ [])
            b
            s in
        (progress ≡ suspended b)
        × (s'.posted ≡ s.posted)
        × ((after : List (Option H)) × ((dispatch epoll_ctl (others ++ (fd, bits) ∷ more) s').posted
              ≡ (dispatch epoll_ctl others s').posted ++ some self ∷ after))
  unfolding async_read wait_for
  dispatch-async_read self fd bits readv b s others more law v e good n =
      let (prev_events, s') = get_events epoll_ctl fd s in
      let p =
        read_failed epoll_ctl self fd
          (record { answer = readv; meanwhile = λ c. c; resumed = λ t. t }) [] b eagain s
          (subst (λ o. Received b o (read_fd readv b)) e (read_fd_lem readv law v)) in
      let (still, woken) =
        dispatch-await_suspend epoll_ctl self fd (bit_or prev_events epollin) bits others more s'
          (ap (λ k. (epoll_ctl ctl_mod fd (bit_or prev_events epollin) k).0)
              (get_events-kernel fd s)
            ∙ good (bit_or prev_events epollin))
          n in
      rw (p) (refl, still ∙ get_events-posted fd s, woken)
