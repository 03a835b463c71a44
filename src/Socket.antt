-- ===== src/Socket.antt =====
-- The coroutines and the descriptor of include/net/Socket.hpp, over the buffer and the I/O context. The
-- system calls are parameters: each round of a loop brings its answer, and what the rest of the
-- program does to the buffer and to the context until the coroutine is resumed.
pub mod Calls
pub mod Woken
pub mod Owners
pub mod Listener
mod Tests
use high_speed.Prelude.{
  ℕ, zero, suc, ◌+◌, ◌≡◌, Bool, true, false, ◌||◌, List, [], ◌∷◌, ◌++◌, Option, none, some, ◌==◌,
  if◌then◌else◌, Bytes,
}
use high_speed.Buffer.{Buffer, Outcome, failed, done, read_fd, write_fd, readable_bytes}
use high_speed.IoContext.{EpollCtl, IoContext, add_fd, await_suspend, get_events, remove_fd}
use Prim.Native.Nat.{bit_or}

-- `EAGAIN`, which is also `EWOULDBLOCK`.
abbrev pub eagain : ℕ
eagain = 11

-- `EPOLLIN` and `EPOLLOUT`.
abbrev pub epollin : ℕ
epollin = 1

abbrev pub epollout : ℕ
epollout = 4

-- Where a coroutine has come to: its value; the `std::system_error`; the `std::length_error` of the
-- buffer; a `co_await` that is not resumed.
pub data Progress : Type 0 where
  returned : ℕ → Buffer → Progress
  threw : ℕ → Buffer → Progress
  overflow : Progress
  suspended : Buffer → Progress

-- A round of `async_read` or `async_write`: the answer of the system call, to what it is given; and, where
-- that says `EAGAIN`, what others do to the buffer, which is held by reference, and to the context
-- until the coroutine is resumed.
pub record Round (H K A B : Type 0) : Type 0 where
  pub answer : A → Outcome B
  pub meanwhile : Buffer → Buffer
  pub resumed : IoContext H K → IoContext H K

module _ {H K : Type 0} (epoll_ctl : EpollCtl K) (self : H) where
  -- `get_events`, and `co_await` of the descriptor with one more event.
  unfoldable pub wait_for : ℕ → ℕ → IoContext H K → IoContext H K
  wait_for event fd s =
      let (prev_events, s') = get_events epoll_ctl fd s in
      await_suspend epoll_ctl self fd (bit_or prev_events event) s'

  -- What follows a call of `readFd` or `writeFd`; `again` is the next round.
  unfoldable pub after_call :
      (Buffer → Progress × IoContext H K)
      → Outcome ℕ × Buffer
      → IoContext H K
      → Progress × IoContext H K
  after_call again (done n, b) s = (returned n b, s)
  after_call again (failed e, b) s =
      let rest = again b in if e == eagain then rest else (threw e b, s)

  unfoldable pub async_read :
      ℕ → List (Round H K (List ℕ) Bytes) → Buffer → IoContext H K → Progress × IoContext H K
  async_read fd [] b s = (suspended b, s)
  async_read fd (r ∷ rounds) b s = elim (read_fd r.answer b) [
    | none ↦ (overflow, s)
    | some called ↦
        after_call (λ b'. async_read fd rounds (r.meanwhile b') (r.resumed (wait_for epollin fd s)))
          called s
  ]

  unfoldable pub async_write :
      ℕ → List (Round H K Bytes ℕ) → Buffer → IoContext H K → Progress × IoContext H K
  async_write fd [] b s = if readable_bytes b == 0 then (returned 0 b, s) else (suspended b, s)
  async_write fd (r ∷ rounds) b s =
      let next =
        after_call
          (λ b'. async_write fd rounds (r.meanwhile b') (r.resumed (wait_for epollout fd s)))
          (write_fd r.answer b) s in
      if readable_bytes b == 0 then (returned 0 b, s) else next

-- What `async_accept` has come to: a socket; the exception of `accept4` or of the socket's `add_fd`, the
-- descriptor then left open; a `co_await` that is not resumed.
pub data Accepting : Type 0 where
  accepted : ℕ → Accepting
  refused : ℕ → Accepting
  leaked : ℕ → Accepting
  listening : Accepting

-- A round of `async_accept`.
pub record AcceptRound (H K : Type 0) : Type 0 where
  pub answer : Outcome ℕ
  pub resumed : IoContext H K → IoContext H K

module _ {H K : Type 0} (epoll_ctl : EpollCtl K) (self : H) where
  -- `Socket{ cfd, ctx_ }`.
  unfoldable pub make_socket : ℕ → Bool × IoContext H K → Accepting × IoContext H K
  make_socket cfd (true, s) = (accepted cfd, s)
  make_socket cfd (false, s) = (leaked cfd, s)

  unfoldable pub async_accept :
      ℕ → List (AcceptRound H K) → IoContext H K → Accepting × IoContext H K
  async_accept listenfd [] s = (listening, s)
  async_accept listenfd (r ∷ rounds) s = elim r.answer [
    | done cfd ↦ make_socket cfd (add_fd epoll_ctl cfd epollin s)
    | failed e ↦
        let rest =
          async_accept listenfd rounds
            (r.resumed (await_suspend epoll_ctl self listenfd epollin s)) in
        if e == eagain then rest else (refused e, s)
  ]
