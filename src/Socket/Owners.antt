-- ===== src/Socket/Owners.antt =====
-- The descriptors of include/net/Socket.hpp: what `close`, the moves and the destructor of `Socket` do with
-- them. Whether `epoll_ctl` takes a descriptor out is a parameter.
pub mod Once
use high_speed.Prelude.{
  ℕ, ◌≡◌, Bool, true, false, List, [], ◌∷◌, ◌++◌, Option, none, some, if◌then◌else◌,
}

-- A `Socket`: `none` is the descriptor -1; of the context, whether there is one.
pub record Handle : Type 0 where
  pub sockfd : Option ℕ
  pub ctx : Bool

-- The moved-from socket, and a default one.
abbrev pub empty : Handle
empty = record { sockfd = none; ctx = false }

-- The sockets that live; the descriptors of all sockets in the order they were made, and those given to
-- `::close`; whether an exception left a function that is `noexcept`.
pub record Sockets : Type 0 where
  pub live : List Handle
  pub opened : List ℕ
  pub closed : List ℕ
  pub terminated : Bool

-- The exception of `remove_fd`, or the descriptor closed, if there was one.
pub data Closing : Type 0 where
  thrown : Closing
  no_descriptor : Closing
  descriptor : ℕ → Closing

module _ (removable : ℕ → Bool) where
  -- `remove_fd` and `::close`, and the socket then.
  unfoldable pub close_fd : ℕ → Bool → Handle → Closing × Handle
  close_fd fd true h = (descriptor fd, record h { sockfd = none })
  close_fd fd false h = (thrown, h)

  unfoldable pub close_from : Option ℕ → Handle → Closing × Handle
  close_from none h = (no_descriptor, h)
  close_from (some fd) h = close_fd fd (if h.ctx then removable fd else true) h

  -- `Socket::close`.
  unfoldable pub close : Handle → Closing × Handle
  close h = close_from h.sockfd h

  abbrev pub closes : Closing → List ℕ
  closes thrown = []
  closes no_descriptor = []
  closes (descriptor fd) = fd ∷ []

  abbrev pub throws : Closing → Bool
  throws thrown = true
  throws no_descriptor = false
  throws (descriptor fd) = false

  pub data Step (s : Sockets) : Sockets → Type 0 where
    -- `Socket(fd, ctx)`, of a descriptor that `add_fd` takes.
    makes :
        (fd : ℕ)
        → Step s (record s {
          live = record { sockfd = some fd; ctx = true } ∷ s.live;
          opened = s.opened ++ fd ∷ [];
        })
    defaults : Step s (record s { live = empty ∷ s.live })
    -- A call of `close`, which may throw.
    calls_close :
        (before after : List Handle) (h : Handle)
        → s.live ≡ before ++ h ∷ after
        → Step s (record s {
          live = before ++ (close h).1 ∷ after;
          closed = s.closed ++ closes (close h).0;
        })
    -- `Socket(Socket&&)`.
    moves :
        (before after : List Handle) (other : Handle)
        → s.live ≡ before ++ other ∷ after
        → Step s (record s { live = other ∷ (before ++ empty ∷ after) })
    -- `operator=(Socket&&)`, of another socket on the right or on the left in the list.
    assigns_right :
        (before middle after : List Handle) (this other : Handle)
        → s.live ≡ before ++ this ∷ (middle ++ other ∷ after)
        → throws (close this).0 ≡ false
        → Step s (record s {
          live = before ++ other ∷ (middle ++ empty ∷ after);
          closed = s.closed ++ closes (close this).0;
        })
    assigns_left :
        (before middle after : List Handle) (this other : Handle)
        → s.live ≡ before ++ other ∷ (middle ++ this ∷ after)
        → throws (close this).0 ≡ false
        → Step s (record s {
          live = before ++ empty ∷ (middle ++ other ∷ after);
          closed = s.closed ++ closes (close this).0;
        })
    -- The destructor.
    destroys :
        (before after : List Handle) (h : Handle)
        → s.live ≡ before ++ h ∷ after
        → throws (close h).0 ≡ false
        → Step s (record s { live = before ++ after; closed = s.closed ++ closes (close h).0 })
    -- `close` throws in the destructor or in the move assignment.
    terminates :
        (before after : List Handle) (h : Handle)
        → s.live ≡ before ++ h ∷ after
        → throws (close h).0 ≡ true
        → Step s (record s { terminated = true })

  unfoldable pub start : Sockets
  start = record { live = []; opened = []; closed = []; terminated = false }

  pub data Reachable : Sockets → Type 0 where
    starts : Reachable start
    steps : {s t : Sockets} → Reachable s → Step s t → Reachable t
