-- ===== src/Buffer/Calls.antt =====
-- The calls of include/io/Buffer.hpp that move bytes out, or in and out of a file descriptor.
use high_speed.Prelude.{
  ℕ, zero, suc, take-nil, drop-nil, ◌⊎◌, ◌+◌, ◌≤◌, ◌<◌, min, ◌≡◌, refl, sym, ap, ◌∙◌, inl, inr,
  List, [], ◌∷◌, ◌++◌, Option, none, some, arith, tests, false, leb, Bool-cases, length, take, drop,
  length-take, length-drop, take-append-drop, append_assoc, Bytes,
}
use high_speed.Buffer.{
  Buffer, max_size, add_size, readable_bytes, writable_bytes, retrieve, retrieve_as_string, copy_to,
  Outcome, failed, done, areas, read_fd, write_fd,
}
use high_speed.Buffer.Copy.{length-copy_to, slice-copy_to, take-slice}
use high_speed.Buffer.Inv.{IsValid}
use high_speed.Buffer.Refine.{contents, sizes, length-contents, append-Fits, retrieve_lem}

take-min : (n : ℕ) (xs : Bytes) → take (min n (length xs)) xs ≡ take n xs
take-min zero xs = let e : min 0 (length xs) ≡ 0 = omega arith in rw e
take-min (suc n) [] = take-nil (min (suc n) 0)
take-min (suc n) (x ∷ xs) =
    let e : min (suc n) (suc (length xs)) ≡ suc (min n (length xs)) = omega arith in
    rw e (ap (◌∷◌ x) (take-min n xs))

drop-min : (n : ℕ) (xs : Bytes) → drop (min n (length xs)) xs ≡ drop n xs
drop-min zero xs = let e : min 0 (length xs) ≡ 0 = omega arith in rw e
drop-min (suc n) [] = drop-nil (min (suc n) 0)
drop-min (suc n) (x ∷ xs) =
    let e : min (suc n) (suc (length xs)) ≡ suc (min n (length xs)) = omega arith in
    rw e (drop-min n xs)

-- `retrieve_as_string` returns the first `len` bytes of the queue, all of it if it is shorter, and
-- leaves a valid buffer with the others, its write index not further.
pub retrieve_as_string_lem :
    (len : ℕ) {b : Buffer}
    → IsValid b
    → let (out, b') = retrieve_as_string len b in
      (out ≡ take len (contents b))
      × IsValid b'
      × (contents b' ≡ drop len (contents b))
      × (b'.write_index ≤ b.write_index)
unfolding retrieve_as_string
retrieve_as_string_lem len {b} v =
    let cut = retrieve_lem (min len (readable_bytes b)) v in
    (
      sym (
            take-slice b.buffer b.read_index b.write_index (min len (readable_bytes b))
              (omega arith))
          ∙ rw (← length-contents v) (take-min len (contents b)),
      cut.0,
      cut.1 ∙ rw (← length-contents v) (drop-min len (contents b)),
      cut.2,
    )

abbrev sum : List ℕ → ℕ
sum [] = 0
sum (n ∷ ns) = n + sum ns

-- The documented bound of `readv`: no more bytes than the areas hold.
abbrev pub ReadvLaw : (List ℕ → Outcome Bytes) → Type 0
ReadvLaw readv = (sizes : List ℕ) (ds : Bytes) → readv sizes ≡ done ds → length ds ≤ sum sizes

abbrev pub Received : Buffer → Outcome Bytes → Option (Outcome ℕ × Buffer) → Type 0
Received b (failed e) r = r ≡ some (failed e, b)
Received b (done ds) r =
    ((r ≡ none) × (max_size < b.write_index + length ds))
    ⊎ ((b' : Buffer) × (r ≡ some (done (length ds), b'))
        × IsValid b'
        × (contents b' ≡ contents b ++ ds))

read_fd-short :
    (ds : Bytes) {b : Buffer}
    → IsValid b
    → length ds ≤ writable_bytes b
    → let b' = record b {
      buffer = copy_to b.buffer b.write_index ds;
      write_index = add_size b.write_index (length ds);
    } in
      IsValid b' × (contents b' ≡ contents b ++ ds)
read_fd-short ds {b} v h = (
  omega (arith, v, length-copy_to b.buffer b.write_index ds),
  slice-copy_to b.buffer ds b.read_index b.write_index (add_size b.write_index (length ds))
      v.ordered (omega arith) (omega arith),
)

-- The buffer after the first area of `readv` is full.
abbrev filled : Buffer → Bytes → Buffer
filled b ds = record b {
  buffer = copy_to b.buffer b.write_index (take (writable_bytes b) ds);
  write_index = length b.buffer;
}

filled_lem :
    (ds : Bytes) {b : Buffer}
    → IsValid b
    → writable_bytes b < length ds
    → IsValid (filled b ds) × (contents (filled b ds) ≡ contents b ++ take (writable_bytes b) ds)
filled_lem ds {b} v h =
    let cut = length-take (writable_bytes b) ds in
    (
      omega (arith, v, length-copy_to b.buffer b.write_index (take (writable_bytes b) ds)),
      slice-copy_to b.buffer (take (writable_bytes b) ds) b.read_index b.write_index
          (length b.buffer) v.ordered (omega (arith, cut)) (omega arith),
    )

extra-le-max_size :
    (ds : Bytes) (b : Buffer)
    → length ds ≤ sum (areas b)
    → length (drop (writable_bytes b) ds) ≤ max_size
extra-le-max_size ds b s = ground (arith, length-drop (writable_bytes b) ds)

read_fd-long :
    (readv : List ℕ → Outcome Bytes) (ds : Bytes) {b : Buffer}
    → IsValid b
    → readv (areas b) ≡ done ds
    → leb (length ds) (writable_bytes b) ≡ false
    → length (drop (writable_bytes b) ds) ≤ max_size
    → Received b (done ds) (read_fd readv b)
unfolding read_fd
read_fd-long readv ds {b} v e long s =
    let (valid, front) = filled_lem ds v (omega tests) in
    elim (append-Fits (drop (writable_bytes b) ds) valid s) [
      | inl (e', h) ↦
          inl (rw (e, read_fd, long, e'), omega (tests, length-drop (writable_bytes b) ds))
      | inr (b', e', v', c, _) ↦ inr (
        b',
        rw (e, read_fd, long, e'),
        v',
        rw (c, front, append_assoc, take-append-drop (writable_bytes b) ds),
      )
    ]

read_fd-done :
    (readv : List ℕ → Outcome Bytes) (ds : Bytes) {b : Buffer}
    → IsValid b
    → readv (areas b) ≡ done ds
    → length ds ≤ sum (areas b)
    → Received b (done ds) (read_fd readv b)
unfolding read_fd
read_fd-done readv ds {b} v e s = elim (Bool-cases (leb (length ds) (writable_bytes b))) [
  | inl short ↦
      let (valid, holds) = read_fd-short ds v (omega tests) in
      rw (e, read_fd, short) (inr (_, refl, valid, holds))
  | inr long ↦ read_fd-long readv ds v e long (extra-le-max_size ds b s)
]

-- `read_fd`: a failed `readv` changes nothing and its error is saved. Otherwise all that was read
-- stands behind the old bytes of a valid buffer, also what went through the extra area, unless the
-- storage would pass `max_size`; the result is the number of bytes read.
pub read_fd_lem :
    (readv : List ℕ → Outcome Bytes) {b : Buffer}
    → ReadvLaw readv
    → IsValid b
    → Received b (readv (areas b)) (read_fd readv b)
unfolding read_fd
read_fd_lem readv {b} law v = go (readv (areas b)) refl
  where
    go : (o : Outcome Bytes) → readv (areas b) ≡ o → Received b o (read_fd readv b)
    go (failed n) e = rw (e, read_fd)
    go (done ds) e = read_fd-done readv ds v e (law (areas b) ds e)

abbrev pub Sent : Buffer → Outcome ℕ → Outcome ℕ × Buffer → Type 0
Sent b (failed e) (o, b') = (o ≡ failed e) × (b' ≡ b)
Sent b (done n) (o, b') = (o ≡ done n) × IsValid b' × (contents b' ≡ drop n (contents b))

-- `write_fd` offers `write` exactly the bytes of the queue. On an error nothing changes, and of `n`
-- bytes written the queue drops the first `n`.
pub write_fd_lem :
    (write : Bytes → Outcome ℕ) {b : Buffer}
    → IsValid b
    → Sent b (write (contents b)) (write_fd write b)
unfolding write_fd
write_fd_lem write {b} v = rw ((sizes v).0, write_fd) (go (write (contents b)))
  where
    go :
        (o : Outcome ℕ)
        → Sent b o (elim o [ failed e ↦ (failed e, b) | done n ↦ (done n, retrieve n b) ])
    go (failed e) = (refl, refl)
    go (done n) = let (valid, holds, _) = retrieve_lem n v in (refl, valid, holds)
