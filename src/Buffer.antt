-- ===== src/Buffer.antt =====
-- include/io/Buffer.hpp: the network buffer, its indices `size_t` values modulo 2 ^ 64. The calls
-- of `readv` and `write` are arguments, functions from what they are given to their outcome.
pub mod Copy
pub mod Inv
pub mod Refine
pub mod Calls
pub mod Script
mod Tests
use high_speed.Prelude.{
  ℕ, zero, suc, ◌+◌, ◌-◌, ◌%◌, ◌^◌, min, List, [], ◌∷◌, ◌++◌, Option, none, some, ltb, leb,
  if◌then◌else◌, length, take, drop, replicate, Bytes,
}

-- `kCheapPrepend`
abbrev pub cheap_prepend : ℕ
cheap_prepend = 8

-- `std::vector<char>::max_size()`
abbrev pub max_size : ℕ
max_size = 2 ^ 63 - 1

-- `sizeof(extraBuf)`
abbrev pub extra_size : ℕ
extra_size = 65536

abbrev pub add_size : ℕ → ℕ → ℕ
add_size a b = (a + b) % 2 ^ 64

abbrev pub sub_size : ℕ → ℕ → ℕ
sub_size a b = (a + 2 ^ 64 - b) % 2 ^ 64

pub record Buffer : Type 0 where
  pub buffer : Bytes
  pub read_index : ℕ
  pub write_index : ℕ

pub init : ℕ → Buffer
init initial_size = record {
  buffer = replicate (cheap_prepend + initial_size) 0;
  read_index = cheap_prepend;
  write_index = cheap_prepend;
}

abbrev pub readable_bytes : Buffer → ℕ
readable_bytes b = sub_size b.write_index b.read_index

abbrev pub writable_bytes : Buffer → ℕ
writable_bytes b = sub_size (length b.buffer) b.write_index

abbrev pub prependable_bytes : Buffer → ℕ
prependable_bytes b = b.read_index

-- The bytes from `peek()` on.
abbrev pub peek : Buffer → Bytes
peek b = drop b.read_index b.buffer

pub retrieve_all : Buffer → Buffer
retrieve_all b = record b { read_index = cheap_prepend; write_index = cheap_prepend }

pub retrieve : ℕ → Buffer → Buffer
unfolding retrieve_all
retrieve len b =
    if ltb len (readable_bytes b)
    then record b { read_index = add_size b.read_index len }
    else retrieve_all b

pub retrieve_as_string : ℕ → Buffer → Bytes × Buffer
retrieve_as_string len b = let n = min len (readable_bytes b) in (take n (peek b), retrieve n b)

pub retrieve_all_as_string : Buffer → Bytes × Buffer
unfolding retrieve_as_string
retrieve_all_as_string b = retrieve_as_string (readable_bytes b) b

-- `std::copy` to index `i`. What would go past the end is dropped: the invariant rules it out.
pub copy_to : Bytes → ℕ → Bytes → Bytes
copy_to [] i ds = []
copy_to (x ∷ xs) zero [] = x ∷ xs
copy_to (x ∷ xs) zero (d ∷ ds) = d ∷ copy_to xs zero ds
copy_to (x ∷ xs) (suc i) ds = x ∷ copy_to xs i ds

-- `buffer_.resize(n)`: `none` is the `std::length_error`.
pub resize : ℕ → Bytes → Option Bytes
resize n xs = if ltb max_size n then none else some (take n xs ++ replicate (n - length xs) 0)

infixl 5 ◌>>=◌
abbrev ◌>>=◌ : {A B : Type 0} → Option A → (A → Option B) → Option B
none >>= f = none
some a >>= f = f a

-- The bytes of `[i, j)`.
abbrev pub slice : Bytes → ℕ → ℕ → Bytes
slice xs i j = take (j - i) (drop i xs)

-- The first branch of `makeSpace`.
pub grow : ℕ → Buffer → Option Buffer
unfolding resize
grow len b = do
  grown ← resize (add_size b.write_index len) b.buffer
  some (record b { buffer = grown })

-- The second branch of `makeSpace`.
pub compact : Buffer → Buffer
compact b = record b {
  buffer = copy_to b.buffer cheap_prepend (slice b.buffer b.read_index b.write_index);
  read_index = cheap_prepend;
  write_index = add_size cheap_prepend (readable_bytes b);
}

pub make_space : ℕ → Buffer → Option Buffer
make_space len b =
    if ltb (add_size (writable_bytes b) (prependable_bytes b)) (add_size len cheap_prepend)
    then grow len b
    else some (compact b)

-- The bytes from `data` on, `len` of them, are one list.
pub append : Bytes → Buffer → Option Buffer
unfolding make_space
append ds b = do
  b' ← (if ltb (writable_bytes b) (length ds) then make_space (length ds) b else some b)
  some (record b' {
    buffer = copy_to b'.buffer b'.write_index ds;
    write_index = add_size b'.write_index (length ds);
  })

-- What a system call returns: -1 with `errno`, or its data (`readv`), or a count (`write`).
pub data Outcome {ℓ} (A : Type ℓ) : Type ℓ where
  failed : ℕ → Outcome A
  done : A → Outcome A

-- The lengths of the areas that `readFd` offers: the free tail, and `extraBuf` if that is short.
abbrev pub areas : Buffer → List ℕ
areas b =
    let writable = writable_bytes b in
    if ltb writable extra_size then writable ∷ extra_size ∷ [] else writable ∷ []

-- `readFd`: the lengths of the areas go to `readv`, which fills them in order. The result is the
-- return value, or `*savedErrno`.
pub read_fd : (List ℕ → Outcome Bytes) → Buffer → Option (Outcome ℕ × Buffer)
unfolding append
read_fd readv b =
    let writable = writable_bytes b in
    elim (readv (areas b)) [
      | failed e ↦ some (failed e, b)
      | done ds ↦
          if leb (length ds) writable
          then some (
            done (length ds),
            record b {
              buffer = copy_to b.buffer b.write_index ds;
              write_index = add_size b.write_index (length ds);
            },
          )
          else (do
            b' ← append (drop writable ds) (record b {
              buffer = copy_to b.buffer b.write_index (take writable ds);
              write_index = length b.buffer;
            })
            some (done (length ds), b'))
    ]

-- `writeFd`: `write` gets the readable bytes.
pub write_fd : (Bytes → Outcome ℕ) → Buffer → Outcome ℕ × Buffer
unfolding retrieve
write_fd write b = elim (write (take (readable_bytes b) (peek b))) [
  | failed e ↦ (failed e, b)
  | done n ↦ (done n, retrieve n b)
]
