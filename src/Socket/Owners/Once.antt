-- ===== src/Socket/Owners/Once.antt =====
-- Each descriptor of include/net/Socket.hpp has one owner, and is closed once.
use high_speed.Prelude.{
  ℕ, ◌+◌, ◌≡◌, refl, ap, Bool, true, false, List, [], ◌∷◌, ◌++◌, Option, none, some, arith,
  if◌then◌else◌, total, total-append, is_one, owns,
}
use high_speed.Socket.Owners.{
  Handle, empty, Sockets, close_fd, close_from, close, closes, throws, Step, makes, defaults,
  calls_close, moves, assigns_right, assigns_left, destroys, terminates, start, Reachable, starts,
  steps,
}

module _ (fd : ℕ) where
  -- How often the descriptor stands in a list.
  abbrev pub times : List ℕ → ℕ
  times = total (is_one fd)

  -- How many sockets own the descriptor.
  abbrev pub owners : List Handle → ℕ
  owners = total (λ h. owns fd h.sockfd)

  times-append : (xs ys : List ℕ) → times (xs ++ ys) ≡ times xs + times ys
  times-append = total-append (is_one fd)

  owners-append : (xs ys : List Handle) → owners (xs ++ ys) ≡ owners xs + owners ys
  owners-append = total-append (λ h. owns fd h.sockfd)

  module _ (removable : ℕ → Bool) where
    close_fd-owns :
        (n : ℕ) (good : Bool) (h : Handle)
        → h.sockfd ≡ some n
        → times (closes removable (close_fd removable n good h).0)
            + owns fd (close_fd removable n good h).1.sockfd
          ≡ owns fd (some n)
    unfolding close_fd
    close_fd-owns n true h e = omega arith
    close_fd-owns n false h e = rw e (omega arith)

    close_from-owns :
        (o : Option ℕ) (h : Handle)
        → h.sockfd ≡ o
        → times (closes removable (close_from removable o h).0)
            + owns fd (close_from removable o h).1.sockfd
          ≡ owns fd o
    unfolding close_from
    close_from-owns none h e = omega (arith, ap (owns fd) e)
    close_from-owns (some n) h e = close_fd-owns n (if h.ctx then removable n else true) h e

    -- `close` gives up what it closes.
    close-owns :
        (h : Handle)
        → times (closes removable (close removable h).0) + owns fd (close removable h).1.sockfd
          ≡ owns fd h.sockfd
    unfolding close
    close-owns h = close_from-owns h.sockfd h refl

    -- Without an exception nothing is left.
    close_fd-gives :
        (n : ℕ) (good : Bool) (h : Handle)
        → throws removable (close_fd removable n good h).0 ≡ false
        → times (closes removable (close_fd removable n good h).0) ≡ owns fd (some n)
    unfolding close_fd
    close_fd-gives n true h k = omega arith
    close_fd-gives n false h k = cc

    close_from-gives :
        (o : Option ℕ) (h : Handle)
        → throws removable (close_from removable o h).0 ≡ false
        → times (closes removable (close_from removable o h).0) ≡ owns fd o
    unfolding close_from
    close_from-gives none h k = refl
    close_from-gives (some n) h k = close_fd-gives n (if h.ctx then removable n else true) h k

    close-gives :
        (h : Handle)
        → throws removable (close removable h).0 ≡ false
        → times (closes removable (close removable h).0) ≡ owns fd h.sockfd
    unfolding close
    close-gives h k = close_from-gives h.sockfd h k

    Step-kept :
        {s t : Sockets}
        → Step removable s t
        → times s.opened ≡ times s.closed + owners s.live
        → times t.opened ≡ times t.closed + owners t.live
    Step-kept {s} (makes n) k = omega (arith, times-append s.opened (n ∷ []))
    Step-kept {s} defaults k = omega arith
    Step-kept {s} (calls_close before after h e) k = omega (
      arith,
      ap owners e,
      close-owns h,
      times-append s.closed (closes removable (close removable h).0),
      owners-append before (h ∷ after),
      owners-append before ((close removable h).1 ∷ after),
    )
    Step-kept {s} (moves before after other e) k = omega (
      arith,
      ap owners e,
      owners-append before (other ∷ after),
      owners-append before (empty ∷ after),
    )
    Step-kept {s} (assigns_right before middle after this other e h) k = omega (
      arith,
      ap owners e,
      close-gives this h,
      times-append s.closed (closes removable (close removable this).0),
      owners-append before (this ∷ (middle ++ other ∷ after)),
      owners-append middle (other ∷ after),
      owners-append before (other ∷ (middle ++ empty ∷ after)),
      owners-append middle (empty ∷ after),
    )
    Step-kept {s} (assigns_left before middle after this other e h) k = omega (
      arith,
      ap owners e,
      close-gives this h,
      times-append s.closed (closes removable (close removable this).0),
      owners-append before (other ∷ (middle ++ this ∷ after)),
      owners-append middle (this ∷ after),
      owners-append before (empty ∷ (middle ++ other ∷ after)),
      owners-append middle (other ∷ after),
    )
    Step-kept {s} (destroys before after h e g) k = omega (
      arith,
      ap owners e,
      close-gives h g,
      times-append s.closed (closes removable (close removable h).0),
      owners-append before (h ∷ after),
      owners-append before after,
    )
    Step-kept {s} (terminates before after h e g) k = k

    -- In every state that sockets reach by being made, moved, assigned, closed and destroyed: a
    -- descriptor was handed to `::close` as often as a socket was made with it, less the sockets that
    -- own it now.
    pub Reachable-owned :
        {s : Sockets} → Reachable removable s → times s.opened ≡ times s.closed + owners s.live
    unfolding start
    Reachable-owned starts = refl
    Reachable-owned (steps r step) = Step-kept step (Reachable-owned r)
