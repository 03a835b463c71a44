-- ===== src/Socket/Calls.antt =====
-- What `async_read` and `async_write` of include/net/Socket.hpp do to the buffer.
use high_speed.Prelude.{
  ℕ, ◌+◌, ◌≡◌, ◌<◌, ◌⊎◌, inl, inr, refl, ap, sym, subst, false, List, [], ◌∷◌, ◌++◌, Option, none,
  some, ◌==◌, if◌then◌else◌, Bytes, length, drop, Bool-cases,
}
use high_speed.Buffer.{
  Buffer, Outcome, failed, done, areas, max_size, read_fd, write_fd, readable_bytes,
}
use high_speed.Buffer.Inv.{IsValid}
use high_speed.Buffer.Refine.{contents, length-contents}
use high_speed.Buffer.Calls.{ReadvLaw, Received, read_fd_lem, Sent, write_fd_lem}
use high_speed.IoContext.{EpollCtl, IoContext}
use high_speed.Socket.{
  eagain, epollin, epollout, Progress, returned, threw, overflow, suspended, Round, wait_for,
  after_call, async_read, async_write,
}

-- An answer of a call on this buffer, or what comes later, if it says `EAGAIN`.
abbrev pub counted :
    {B : Type 0} → Buffer → Buffer × Option (Outcome B) → Outcome B → Buffer × Option (Outcome B)
counted b later (done x) = (b, some (done x))
counted b later (failed e) = if e == eagain then later else (b, some (failed e))

module _ {H K : Type 0} where
  -- The first answer that is not `EAGAIN`, and the buffer at that call; each `readv` is offered the areas
  -- of the buffer as it then is.
  abbrev pub first_read : Buffer → List (Round H K (List ℕ) Bytes) → Buffer × Option (Outcome Bytes)
  first_read b [] = (b, none)
  first_read b (r ∷ rounds) =
      let rest = first_read (r.meanwhile b) rounds in counted b rest (r.answer (areas b))

  -- The same for `write`, which is offered the bytes of the queue; none written where there are none.
  abbrev pub first_write : Buffer → List (Round H K Bytes ℕ) → Buffer × Option (Outcome ℕ)
  first_write b [] = (b, if length (contents b) == 0 then some (done 0) else none)
  first_write b (r ∷ rounds) =
      let rest = first_write (r.meanwhile b) rounds in
      let next = counted b rest (r.answer (contents b)) in
      if length (contents b) == 0 then (b, some (done 0)) else next

  -- Others keep the buffer valid while the coroutine is suspended.
  pub data AllKeep {A B : Type 0} : List (Round H K A B) → Type 0 where
    none_left : AllKeep []
    keeps :
        {r : Round H K A B} {rounds : List (Round H K A B)}
        → ((b : Buffer) → IsValid b → IsValid (r.meanwhile b))
        → AllKeep rounds
        → AllKeep (r ∷ rounds)

  -- Each call of `readv` keeps to the areas it is given.
  pub data AllReadv : List (Round H K (List ℕ) Bytes) → Type 0 where
    nil : AllReadv []
    cons :
        {r : Round H K (List ℕ) Bytes} {rounds : List (Round H K (List ℕ) Bytes)}
        → ReadvLaw r.answer
        → AllReadv rounds
        → AllReadv (r ∷ rounds)

-- What `async_read` comes to, by the buffer at the last call and its answer.
abbrev pub HasRead : Buffer → Option (Outcome Bytes) → Progress → Type 0
HasRead b none p = p ≡ suspended b
HasRead b (some (failed e)) p = p ≡ threw e b
HasRead b (some (done ds)) p =
    ((p ≡ overflow) × (max_size < b.write_index + length ds))
    ⊎ ((b' : Buffer) × (p ≡ returned (length ds) b')
        × IsValid b'
        × (contents b' ≡ contents b ++ ds))

-- The same of `async_write`.
abbrev pub HasWritten : Buffer → Option (Outcome ℕ) → Progress → Type 0
HasWritten b none p = p ≡ suspended b
HasWritten b (some (failed e)) p = p ≡ threw e b
HasWritten b (some (done n)) p =
    (b' : Buffer) × (p ≡ returned n b') × IsValid b' × (contents b' ≡ drop n (contents b))

module _ {H K : Type 0} (epoll_ctl : EpollCtl K) (self : H) where
  read_none :
      (fd : ℕ) (r : Round H K (List ℕ) Bytes) (rounds : List (Round H K (List ℕ) Bytes))
      (b : Buffer) (s : IoContext H K)
      → read_fd r.answer b ≡ none
      → async_read epoll_ctl self fd (r ∷ rounds) b s ≡ (overflow, s)
  unfolding async_read after_call
  read_none fd r rounds b s e = rw (async_read, e) refl

  read_done :
      (fd : ℕ) (r : Round H K (List ℕ) Bytes) (rounds : List (Round H K (List ℕ) Bytes))
      (b b' : Buffer) (n : ℕ) (s : IoContext H K)
      → read_fd r.answer b ≡ some (done n, b')
      → async_read epoll_ctl self fd (r ∷ rounds) b s ≡ (returned n b', s)
  unfolding async_read after_call
  read_done fd r rounds b b' n s e = rw (async_read, e) refl

  pub read_failed :
      (fd : ℕ) (r : Round H K (List ℕ) Bytes) (rounds : List (Round H K (List ℕ) Bytes))
      (b : Buffer) (e : ℕ) (s : IoContext H K)
      → read_fd r.answer b ≡ some (failed e, b)
      → async_read epoll_ctl self fd (r ∷ rounds) b s ≡ (
          if e == eagain
          then async_read epoll_ctl self fd rounds
              (r.meanwhile b)
              (r.resumed (wait_for epoll_ctl self epollin fd s))
          else (threw e b, s))
  unfolding async_read after_call
  read_failed fd r rounds b e s k = rw (async_read, k) refl

  -- `async_read` on a valid buffer, where `readv` keeps to the areas it is given, and others may change
  -- the buffer between the rounds but keep it valid, and do anything to the context: its outcome is that
  -- of the first call that does not say `EAGAIN`, and the buffer `b'` at that call. It is suspended if
  -- there is none; an error is thrown and the buffer stays; bytes that were read stand behind the
  -- old ones in a valid buffer, and their number is returned, unless the storage would pass `max_size`.
  pub async_read_lem :
      (fd : ℕ) (rounds : List (Round H K (List ℕ) Bytes)) (b : Buffer) (s : IoContext H K)
      → AllReadv rounds
      → AllKeep rounds
      → IsValid b
      → let (b', answer) = first_read b rounds in
        HasRead b' answer (async_read epoll_ctl self fd rounds b s).0
  unfolding async_read
  async_read_lem fd [] b s laws keep v = refl
  async_read_lem fd (r ∷ rounds) b s (cons law laws) (keeps k keep) v =
      go (r.answer (areas b)) (read_fd_lem r.answer law v) (
        async_read_lem fd rounds (r.meanwhile b) (r.resumed (wait_for epoll_ctl self epollin fd s))
          laws keep (k b v))
    where
      go :
          (o : Outcome Bytes)
          → Received b o (read_fd r.answer b)
          → (let (b', answer) = first_read (r.meanwhile b) rounds in
              HasRead b' answer
                (async_read epoll_ctl self fd rounds
                  (r.meanwhile b)
                  (r.resumed (wait_for epoll_ctl self epollin fd s))).0)
          → let (b', answer) = counted b (first_read (r.meanwhile b) rounds) o in
            HasRead b' answer (async_read epoll_ctl self fd (r ∷ rounds) b s).0
      go (failed e) received ih = elim (Bool-cases (e == eagain)) [
        | inl again ↦ rw (read_failed fd r rounds b e s received, again) ih
        | inr other ↦ rw (read_failed fd r rounds b e s received, other) refl
      ]
      go (done ds) (inl (e, large)) ih = inl (ap (λ r. r.0) (read_none fd r rounds b s e), large)
      go (done ds) (inr (b', e, valid, c)) ih =
          inr (b', ap (λ r. r.0) (read_done fd r rounds b b' (length ds) s e), valid, c)

  write_done :
      (fd : ℕ) (r : Round H K Bytes ℕ) (rounds : List (Round H K Bytes ℕ)) (b b' : Buffer) (n : ℕ)
      (s : IoContext H K)
      → (readable_bytes b == 0) ≡ false
      → write_fd r.answer b ≡ (done n, b')
      → async_write epoll_ctl self fd (r ∷ rounds) b s ≡ (returned n b', s)
  unfolding async_write after_call
  write_done fd r rounds b b' n s z e = rw (async_write, z, e) refl

  pub write_failed :
      (fd : ℕ) (r : Round H K Bytes ℕ) (rounds : List (Round H K Bytes ℕ)) (b : Buffer) (e : ℕ)
      (s : IoContext H K)
      → (readable_bytes b == 0) ≡ false
      → write_fd r.answer b ≡ (failed e, b)
      → async_write epoll_ctl self fd (r ∷ rounds) b s ≡ (
          if e == eagain
          then async_write epoll_ctl self fd rounds
              (r.meanwhile b)
              (r.resumed (wait_for epoll_ctl self epollout fd s))
          else (threw e b, s))
  unfolding async_write after_call
  write_failed fd r rounds b e s z k = rw (async_write, z, k) refl

  -- `async_write` of a valid buffer, where others may change the buffer between the rounds but keep it
  -- valid, and do anything to the context: its outcome is that of the first `write`, offered exactly the
  -- bytes that the queue then has, that does not say `EAGAIN`, or 0 with the buffer unchanged once the
  -- queue is found empty. It is suspended if it comes to neither; an error is thrown and the buffer stays;
  -- of `n` bytes written the queue drops the first `n`, and `n` is returned.
  pub async_write_lem :
      (fd : ℕ) (rounds : List (Round H K Bytes ℕ)) (b : Buffer) (s : IoContext H K)
      → AllKeep rounds
      → IsValid b
      → let (b', answer) = first_write b rounds in
        HasWritten b' answer (async_write epoll_ctl self fd rounds b s).0
  unfolding async_write
  async_write_lem fd [] b s keep v = elim (Bool-cases (readable_bytes b == 0)) [
    | inl z ↦ rw (z, length-contents v, z) (b, refl, v, refl)
    | inr z ↦ rw (z, length-contents v, z) refl
  ]
  async_write_lem fd (r ∷ rounds) b s (keeps k keep) v = elim (Bool-cases (readable_bytes b == 0)) [
    | inl z ↦ rw (z, length-contents v, z) (b, refl, v, refl)
    | inr z ↦
        subst
          (λ (b', answer). HasWritten b' answer (async_write epoll_ctl self fd (r ∷ rounds) b s).0)
          (sym (rw (length-contents v, z) refl))
          (go z (r.answer (contents b)) (write_fd_lem r.answer v) (
            async_write_lem fd rounds (r.meanwhile b)
              (r.resumed (wait_for epoll_ctl self epollout fd s)) keep (k b v)))
  ]
    where
      go :
          (readable_bytes b == 0) ≡ false
          → (o : Outcome ℕ) → Sent b o (write_fd r.answer b)
          → (let (b', answer) = first_write (r.meanwhile b) rounds in
              HasWritten b' answer
                (async_write epoll_ctl self fd rounds
                  (r.meanwhile b)
                  (r.resumed (wait_for epoll_ctl self epollout fd s))).0)
          → let (b', answer) = counted b (first_write (r.meanwhile b) rounds) o in
            HasWritten b' answer (async_write epoll_ctl self fd (r ∷ rounds) b s).0
      go z (failed e) (f, same) ih = elim (Bool-cases (e == eagain)) [
        | inl again ↦ rw (write_failed fd r rounds b e s z (λ i. (f i, same i)), again) ih
        | inr other ↦ rw (write_failed fd r rounds b e s z (λ i. (f i, same i)), other) refl
      ]
      go z (done n) (f, valid, c) ih = (
        _,
        ap (λ r. r.0)
            (write_done fd r rounds b (write_fd r.answer b).1 n s z
              (λ i. (f i, (write_fd r.answer b).1))),
        valid,
        c,
      )
