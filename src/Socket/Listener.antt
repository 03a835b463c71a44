-- ===== src/Socket/Listener.antt =====
-- The listening descriptor of `Acceptor` in include/net/Socket.hpp: its constructor and `close`. The results of
-- `socket`, `bind` and `listen` are parameters; those of `setsockopt` and `fcntl` are not looked at.
use high_speed.Prelude.{ℕ, Bool, true, false, Option, none, some, if◌then◌else◌}
use high_speed.Buffer.{Outcome, failed, done}
use high_speed.IoContext.{EpollCtl, IoContext, add_fd, remove_fd}
use high_speed.Socket.{epollin}
use high_speed.Socket.Owners.{Closing, thrown, no_descriptor, descriptor}

-- What the constructor comes to: the acceptor of a descriptor; an exception before there is one; an
-- exception behind `socket`, where no destructor runs.
pub data Opening : Type 0 where
  listening : ℕ → Opening
  no_socket : ℕ → Opening
  left_open : ℕ → Opening

-- The result of `bind` or `listen`: whether it is not negative.
abbrev pub Bound : Type 0
Bound = ℕ → Bool

module _ {H K : Type 0} (epoll_ctl : EpollCtl K) where
  -- `add_fd`, at the end.
  unfoldable pub registered : ℕ → Bool × IoContext H K → Opening × IoContext H K
  registered fd (true, s) = (listening fd, s)
  registered fd (false, s) = (left_open fd, s)

  unfoldable pub make_acceptor : Outcome ℕ → Bound → Bound → IoContext H K → Opening × IoContext H K
  make_acceptor (failed e) bind listen s = (no_socket e, s)
  make_acceptor (done fd) bind listen s =
      if bind fd
      then (if listen fd then registered fd (add_fd epoll_ctl fd epollin s) else (left_open fd, s))
      else (left_open fd, s)

  -- `Acceptor::close`, from the descriptor, -1 being `none`.
  unfoldable pub close_acceptor : Option ℕ → IoContext H K → Closing × IoContext H K
  close_acceptor none s = (no_descriptor, s)
  close_acceptor (some fd) s =
      let (good, s') = remove_fd epoll_ctl fd s in (if good then descriptor fd else thrown, s')
