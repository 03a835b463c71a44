-- ===== src/Buffer/Refine.antt =====
-- A valid buffer of include/io/Buffer.hpp is a queue of the bytes between its two indices.
use high_speed.Prelude.{
  ℕ, ◌+◌, ◌-◌, ◌≤◌, ◌<◌, ◌≡◌, refl, sym, ap, ◌∙◌, ◌⊎◌, inl, inr, ◌++◌, tests, Option, none, some,
  arith, ltb, if◌then◌else◌, Bool-cases, length, drop, replicate, length-append, length-replicate,
  Bytes,
}
use high_speed.Buffer.{
  Buffer, cheap_prepend, max_size, add_size, readable_bytes, writable_bytes, prependable_bytes,
  retrieve, copy_to, slice, make_space, grow, compact, append,
}
use high_speed.Buffer.Copy.{
  length-copy_to, slice-copy_to, slice-append, take_all, drop_all, slice-drop, length-slice,
}
use high_speed.Buffer.Inv.{IsValid}

abbrev pub contents : Buffer → Bytes
contents b = slice b.buffer b.read_index b.write_index

-- No index difference of a valid buffer wraps.
pub sizes :
    {b : Buffer}
    → IsValid b
    → (readable_bytes b ≡ b.write_index - b.read_index)
      × (writable_bytes b ≡ length b.buffer - b.write_index)
sizes v = omega arith

pub length-contents : {b : Buffer} → IsValid b → length (contents b) ≡ readable_bytes b
length-contents {b} v =
    omega (arith, length-slice b.buffer b.read_index b.write_index v.ordered v.within)

-- What `make_space` and `append` leave: the error, for want of an allowed size, or a valid buffer.
abbrev pub Fits : Buffer → ℕ → Bytes → Option Buffer → Type 0
Fits b n bytes r =
    ((r ≡ none) × (max_size < b.write_index + n))
    ⊎ ((b' : Buffer) × (r ≡ some b')
        × IsValid b'
        × (contents b' ≡ bytes)
        × (b'.write_index ≤ b.write_index + n))

-- The room that `make_space` leaves.
abbrev HasRoom : Buffer → ℕ → Option Buffer → Type 0
HasRoom b n r =
    ((r ≡ none) × (max_size < b.write_index + n))
    ⊎ ((b' : Buffer) × (r ≡ some b')
        × IsValid b'
        × (contents b' ≡ contents b)
        × (b'.write_index + n ≤ length b'.buffer)
        × (b'.write_index ≤ b.write_index))

grown_zeros : Buffer → ℕ → Bytes
grown_zeros b len = replicate (add_size b.write_index len - length b.buffer) 0

grow-HasRoom :
    (b : Buffer) (len : ℕ)
    → IsValid b
    → writable_bytes b < len
    → len ≤ max_size
    → HasRoom b len (grow len b)
unfolding grow grown_zeros
grow-HasRoom b len v w s = elim (Bool-cases (ltb max_size (add_size b.write_index len))) [
  | inl e ↦ inl (rw (e, grow), ground arith)
  | inr e ↦ inr (
    record b { buffer = b.buffer ++ grown_zeros b len },
    rw (e, grow, take_all (add_size b.write_index len) b.buffer (omega arith)),
    record {
      prepend = v.prepend;
      ordered = v.ordered;
      within = omega (arith, length-append b.buffer (grown_zeros b len));
      small = omega (
        tests,
        length-append b.buffer (grown_zeros b len),
        length-replicate (add_size b.write_index len - length b.buffer) (let z : ℕ = 0 in z),
      );
    },
    slice-append b.buffer (grown_zeros b len) b.read_index b.write_index v.ordered v.within,
    omega (
      tests,
      length-append b.buffer (grown_zeros b len),
      length-replicate (add_size b.write_index len - length b.buffer) (let z : ℕ = 0 in z),
    ),
    omega arith,
  )
]

compact-IsValid : (b : Buffer) → IsValid b → IsValid (compact b)
unfolding compact
compact-IsValid b v = ground (arith, length-copy_to b.buffer cheap_prepend (contents b))

contents-compact : (b : Buffer) → IsValid b → contents (compact b) ≡ contents b
unfolding compact
contents-compact b v =
    slice-copy_to b.buffer (contents b) cheap_prepend cheap_prepend
      (add_size cheap_prepend (readable_bytes b)) (omega arith) (omega (arith, length-contents v))
      (omega (arith))

make_space-HasRoom :
    (b : Buffer) (len : ℕ)
    → IsValid b
    → writable_bytes b < len
    → len ≤ max_size
    → HasRoom b len (make_space len b)
unfolding make_space compact
make_space-HasRoom b len v w s =
    elim (Bool-cases
      (ltb (add_size (writable_bytes b) (prependable_bytes b)) (add_size len cheap_prepend))) [
        | inl e ↦ rw (e, make_space) (grow-HasRoom b len v w s)
        | inr e ↦ inr (
          compact b,
          rw (e, make_space),
          compact-IsValid b v,
          contents-compact b v,
          ground (arith, length-copy_to b.buffer cheap_prepend (contents b)),
          omega arith,
        )
      ]

append-into-HasRoom :
    (ds : Bytes) (b : Buffer)
    → IsValid b
    → length ds ≤ max_size
    → HasRoom b
        (length ds)
        (if ltb (writable_bytes b) (length ds) then make_space (length ds) b else some b)
append-into-HasRoom ds b v s = elim (Bool-cases (ltb (writable_bytes b) (length ds))) [
  | inl e ↦ rw e (make_space-HasRoom b (length ds) v (omega (tests)) s)
  | inr e ↦ rw e (inr (b, refl, v, refl, omega tests, omega arith))
]

-- `append` either throws `std::length_error`, and then the data does not fit behind the write index
-- within `max_size`; or it leaves a valid buffer that holds the old bytes and then the new ones, its
-- write index at most their number further.
pub append-Fits :
    (ds : Bytes) {b : Buffer}
    → IsValid b
    → length ds ≤ max_size
    → Fits b (length ds) (contents b ++ ds) (append ds b)
unfolding append
append-Fits ds {b} v s = elim (append-into-HasRoom ds b v s) [
  | inl (e, h) ↦ inl (rw e, h)
  | inr (b', e, v', c, r, low) ↦ inr (
    record b' {
      buffer = copy_to b'.buffer b'.write_index ds;
      write_index = add_size b'.write_index (length ds);
    },
    rw e,
    omega (arith, v', length-copy_to b'.buffer b'.write_index ds),
    slice-copy_to b'.buffer ds b'.read_index b'.write_index (add_size b'.write_index (length ds))
          v'.ordered (omega arith) (omega arith)
        ∙ ap (λ front. front ++ ds) c,
    omega arith,
  )
]

-- `retrieve` keeps the invariant, takes `len` bytes from the front of the queue and moves the write
-- index at most back.
pub retrieve_lem :
    (len : ℕ) {b : Buffer}
    → IsValid b
    → IsValid (retrieve len b)
      × (contents (retrieve len b) ≡ drop len (contents b))
      × ((retrieve len b).write_index ≤ b.write_index)
unfolding retrieve
retrieve_lem len {b} v = elim (Bool-cases (ltb len (readable_bytes b))) [
  | inl e ↦
      let end : add_size b.read_index len ≡ b.read_index + len = omega tests in
      rw e (ground arith, rw end (slice-drop b.buffer b.read_index b.write_index len), omega arith)
  | inr e ↦
      let none_left = drop_all len (contents b) (omega (tests, length-contents v)) in
      rw e (ground arith, sym none_left, omega arith)
]
