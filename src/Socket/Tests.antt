-- ===== src/Socket/Tests.antt =====
-- Runs of the coroutines of include/net/Socket.hpp, and the theorems at them.
use high_speed.Prelude.{
  ℕ, ◌+◌, ◌≡◌, refl, true, false, List, [], ◌∷◌, ◌++◌, Option, some, Bytes, codes, take, replicate,
  length-take, arith,
}
use high_speed.Buffer.{Buffer, Outcome, failed, done}
use high_speed.Buffer.Inv.{IsValid}
use high_speed.Buffer.Calls.{ReadvLaw}
use high_speed.IoContext.{remove_fd, erase_waiter, IoContext, EpollCtl, dispatch, add_fd, epoll}
use high_speed.Socket.{
  suspended, Round, accepted, leaked, AcceptRound, make_socket, async_read, async_write,
  async_accept,
}
use high_speed.Socket.Calls.{
  nil, cons, none_left, keeps, HasRead, HasWritten, async_read_lem, async_write_lem,
}
use high_speed.Socket.Woken.{dispatch-async_read}
use high_speed.Socket.Owners.{
  descriptor, empty, Sockets, close, close_from, close_fd, makes, assigns_right, start, Reachable,
  starts, steps,
}
use high_speed.Socket.Listener.{listening, left_open, registered, make_acceptor, close_acceptor}
use high_speed.Socket.Owners.Once.{times, owners, Reachable-owned}

-- The five bytes "hello", with two bytes of room behind them.
abbrev hello : Buffer
hello = record {
  buffer = replicate 8 0 ++ (codes "hello" ++ replicate 2 0);
  read_index = 8;
  write_index = 13;
}

hello-IsValid : IsValid hello
hello-IsValid = omega arith

abbrev agreeing : EpollCtl ℕ
agreeing ctl fd events n = (true, n + 1)

abbrev context : IoContext ℕ ℕ
context = record { waiters = []; running = true; kernel = 0; posted = [] }

abbrev not_ready : List ℕ → Outcome Bytes
not_ready sizes = failed 11

abbrev one_byte : List ℕ → Outcome Bytes
one_byte [] = failed 5
one_byte (n ∷ sizes) = done (take n (codes "!"))

not_ready-ReadvLaw : ReadvLaw not_ready
not_ready-ReadvLaw sizes ds e = cc

one_byte-ReadvLaw : ReadvLaw one_byte
one_byte-ReadvLaw [] ds e = cc
one_byte-ReadvLaw (n ∷ sizes) ds e = ground (arith, length-take n (codes "!"))

-- The byte that others leave in the buffer while the coroutine is suspended.
abbrev taken_from : Buffer
taken_from = record {
  buffer = replicate 8 0 ++ (codes "hello" ++ replicate 2 0);
  read_index = 12;
  write_index = 13;
}

taken_from-IsValid : IsValid taken_from
taken_from-IsValid = omega arith

-- All of it read by others.
abbrev emptied : Buffer
emptied = record {
  buffer = replicate 8 0 ++ (codes "hello" ++ replicate 2 0);
  read_index = 8;
  write_index = 8;
}

emptied-IsValid : IsValid emptied
emptied-IsValid = omega arith

abbrev reads : List (Round ℕ ℕ (List ℕ) Bytes)
reads =
    record { answer = not_ready; meanwhile = λ b. taken_from; resumed = λ s. s }
    ∷ record { answer = one_byte; meanwhile = λ b. b; resumed = λ s. s }
    ∷ []

async_read_lem_example :
    HasRead taken_from (some (done (codes "!"))) (async_read agreeing 70 4 reads hello context).0
async_read_lem_example =
    async_read_lem agreeing 70 4 reads hello context
      (cons not_ready-ReadvLaw (cons one_byte-ReadvLaw nil))
      (keeps (λ b v. taken_from-IsValid) (keeps (λ b v. v) none_left)) hello-IsValid

abbrev writes : List (Round ℕ ℕ Bytes ℕ)
writes =
    record { answer = λ bytes. failed 11; meanwhile = λ b. taken_from; resumed = λ s. s }
    ∷ record { answer = λ bytes. done 1; meanwhile = λ b. b; resumed = λ s. s }
    ∷ []

async_write_lem_example :
    HasWritten taken_from (some (done 1)) (async_write agreeing 70 4 writes hello context).0
async_write_lem_example =
    async_write_lem agreeing 70 4 writes hello context
      (keeps (λ b v. taken_from-IsValid) (keeps (λ b v. v) none_left)) hello-IsValid

abbrev too_late : List (Round ℕ ℕ Bytes ℕ)
too_late =
    record { answer = λ bytes. failed 11; meanwhile = λ b. emptied; resumed = λ s. s }
    ∷ record { answer = λ bytes. done 1; meanwhile = λ b. b; resumed = λ s. s }
    ∷ []

-- Nothing is left to write when the coroutine is resumed.
emptied_run :
    HasWritten emptied (some (done 0)) (async_write agreeing 70 4 too_late hello context).0
emptied_run =
    async_write_lem agreeing 70 4 too_late hello context
      (keeps (λ b v. emptied-IsValid) (keeps (λ b v. v) none_left)) hello-IsValid

dispatch-async_read_example :
    let (progress, s') =
      async_read agreeing 70 4
        (record { answer = not_ready; meanwhile = λ c. c; resumed = λ t. t } ∷ [])
        hello
        context in
    (progress ≡ suspended hello)
    × (s'.posted ≡ [])
    × ((after : List (Option ℕ)) × ((dispatch agreeing ((9, 1) ∷ (4, 1) ∷ []) s').posted
          ≡ (dispatch agreeing ((9, 1) ∷ []) s').posted ++ some 70 ∷ after))
dispatch-async_read_example =
    dispatch-async_read agreeing 70 4 1 not_ready hello context ((9, 1) ∷ []) [] not_ready-ReadvLaw
      hello-IsValid refl (λ events. refl) refl

abbrev accepts : List (AcceptRound ℕ ℕ)
accepts =
    record { answer = failed 11; resumed = λ s. s }
    ∷ record { answer = done 6; resumed = λ s. s }
    ∷ []

accepts_run : (async_accept agreeing 70 3 accepts context).0 ≡ accepted 6
unfolding async_accept make_socket add_fd epoll
accepts_run = refl

-- A socket whose descriptor the kernel does not take leaves it open.
refused_run : (async_accept (λ ctl fd events n. (false, n)) 70 3 accepts context).0 ≡ leaked 6
unfolding async_accept make_socket add_fd epoll
refused_run = refl

abbrev handed_over : Sockets
handed_over = record {
  live = record { sockfd = some 7; ctx = true } ∷ empty ∷ [];
  opened = 7 ∷ 8 ∷ [];
  closed = 8 ∷ [];
  terminated = false;
}

-- The second socket is made from 8, and assigned the first.
handed_over-Reachable : Reachable (λ fd. true) handed_over
unfolding start close close_from close_fd
handed_over-Reachable = steps (steps (steps starts (makes 7)) (makes 8)) (
    assigns_right [] [] [] (record { sockfd = some 8; ctx = true })
      (record { sockfd = some 7; ctx = true }) refl refl)

Reachable-owned_example :
    times 7 handed_over.opened ≡ times 7 handed_over.closed + owners 7 handed_over.live
Reachable-owned_example = Reachable-owned 7 (λ fd. true) handed_over-Reachable

-- A port in use: `bind` fails, and the descriptor of `socket` stays open.
port_in_use : (make_acceptor agreeing (done 3) (λ fd. false) (λ fd. true) context).0 ≡ left_open 3
unfolding make_acceptor
port_in_use = refl

opened_run : (make_acceptor agreeing (done 3) (λ fd. true) (λ fd. true) context).0 ≡ listening 3
unfolding make_acceptor registered add_fd epoll
opened_run = refl

closed_run : (close_acceptor agreeing (some 3) context).0 ≡ descriptor 3
unfolding close_acceptor remove_fd erase_waiter epoll
closed_run = refl
