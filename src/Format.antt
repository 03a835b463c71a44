-- ===== src/Format.antt =====
-- `format` of include/log/format.hpp over bytes. A position in the format string is the string from it
-- on. An argument is a function of its specifier and of the state of the output stream, which holds
-- the flags that manipulators leave.
pub mod Spelling
pub mod Pieces
pub mod Explicit
pub mod Total
pub mod Args
pub mod Floats
mod Tests
use high_speed.Prelude.{
  ℕ, zero, suc, ◌+◌, ◌-◌, ◌*◌, ◌%◌, ◌^◌, Bool, true, false, ◌&&◌, List, [], ◌∷◌, ◌++◌, Option, none,
  some, ltb, leb, ◌==◌, if◌then◌else◌, length, Bytes,
}

-- The texts of the `format_error`s.
pub data Error : Type 0 where
  unmatched_close unmatched_open too_few invalid_index index_out_of_range too_many : Error

-- `out_of_fuel` has no counterpart in the program.
pub data Result {ℓ} (A : Type ℓ) : Type ℓ where
  ok : A → Result A
  err : Error → Result A
  out_of_fuel : Result A

infixl 5 ◌>>=◌
abbrev pub ◌>>=◌ {ℓ κ} : {A : Type ℓ} {B : Type κ} → Result A → (A → Result B) → Result B
ok a >>= f = f a
err e >>= f = err e
out_of_fuel >>= f = out_of_fuel

abbrev pub Arg : Type 0 → Type 0
Arg S = Bytes → S → Bytes × S

-- `get_arg`, `none` where it throws.
unfoldable pub get_arg : {S : Type 0} → List (Arg S) → ℕ → Option (Arg S)
get_arg [] i = none
get_arg (a ∷ args) zero = some a
get_arg (a ∷ args) (suc i) = get_arg args i

-- The digits in front as a number on top of `n`; with no digit at all, `none`.
unfoldable pub digits_value : (n : ℕ) (any : Bool) → Bytes → Option ℕ
digits_value n any [] = if any then some n else none
digits_value n any (c ∷ cs) =
    let more = digits_value (n * 10 + (c - b'0')) true cs in
    let stop = if any then some n else none in if leb b'0' c && leb c b'9' then more else stop

-- What `std::stoul` makes of the digits: it throws above `ULONG_MAX`.
unfoldable pub in_range : Option ℕ → Option ℕ
in_range none = none
in_range (some n) = if ltb n (2 ^ 64) then some n else none

-- A minus negates modulo 2^64.
unfoldable pub negated : Option ℕ → Option ℕ
negated none = none
negated (some n) = some ((2 ^ 64 - n) % 2 ^ 64)

-- `std::stoul` in base 10, `none` where it throws.
unfoldable pub stoul : Bytes → Option ℕ
stoul [] = none
stoul (c ∷ cs) =
    let spaced = stoul cs in
    if c == b' '
    then spaced
    else if leb 9 c && leb c 13
    then spaced
    else if c == b'+'
    then in_range (digits_value 0 false cs)
    else if c == b'-'
    then negated (in_range (digits_value 0 false cs))
    else in_range (digits_value 0 false (c ∷ cs))

-- `format_spec.find(':')`: the index, and the specifier, empty without a colon.
unfoldable pub split_colon : Bytes → Bytes × Bytes
split_colon [] = ([], [])
split_colon (c ∷ cs) =
    let (index, spec) = split_colon cs in if c == b':' then ([], cs) else (c ∷ index, spec)

-- `fmt.find('}')`: what stands before it and behind it.
unfoldable pub find_close : Bytes → Option (Bytes × Bytes)
find_close [] = none
find_close (c ∷ cs) =
    let later = find_close cs in
    if c == b'}'
    then some ([], cs)
    else elim later [ none ↦ none | some (spec, rest) ↦ some (c ∷ spec, rest) ]

module _ {S : Type 0} (args : List (Arg S)) where
  -- `{0}` and `{0:x}`.
  unfoldable pub manual : Bytes → Bytes × S → Result (Bytes × S)
  manual format_spec (out, s) =
      let (index_str, spec_str) = split_colon format_spec in
      elim (stoul index_str) [
        | none ↦ err invalid_index
        | some index ↦ elim (get_arg args index) [
          | none ↦ err index_out_of_range
          | some a ↦ let (t, s') = a spec_str s in ok (out ++ t, s')
        ]
      ]

  -- `{}`, and the count of the arguments used by it.
  unfoldable pub automatic : ℕ → Bytes × S → Result ((Bytes × S) × ℕ)
  automatic arg_index (out, s) = elim (get_arg args arg_index) [
    | none ↦ err too_few
    | some a ↦ let (t, s') = a [] s in ok ((out ++ t, s'), suc arg_index)
  ]

  unfoldable pub argument : ℕ → Bytes → Bytes × S → Result ((Bytes × S) × ℕ)
  argument arg_index [] stream = automatic arg_index stream
  argument arg_index (c ∷ cs) stream = do stream' ← manual (c ∷ cs) stream; ok (stream', arg_index)

  -- Behind a `}`.
  unfoldable pub close_brace : ℕ → Bytes × S → Bytes → Result ((Bytes × S) × ℕ × Bytes)
  close_brace arg_index stream [] = err unmatched_close
  close_brace arg_index (out, s) (c ∷ cs) =
      if c == b'}' then ok ((out ++ b'}' ∷ [], s), arg_index, cs) else err unmatched_close

  -- Behind a `{` that no second one follows.
  unfoldable pub placeholder : ℕ → Bytes × S → Bytes → Result ((Bytes × S) × ℕ × Bytes)
  placeholder arg_index stream bs = elim (find_close bs) [
    | none ↦ err unmatched_open
    | some (format_spec, rest) ↦ do
      (stream', arg_index') ← argument arg_index format_spec stream
      ok (stream', arg_index', rest)
  ]

  unfoldable pub open_brace : ℕ → Bytes × S → Bytes → Result ((Bytes × S) × ℕ × Bytes)
  open_brace arg_index stream [] = placeholder arg_index stream []
  open_brace arg_index (out, s) (c ∷ cs) =
      if c == b'{'
      then ok ((out ++ b'{' ∷ [], s), arg_index, cs)
      else placeholder arg_index (out, s) (c ∷ cs)

  -- One round of the loop of `vformat`, with text before a brace taken byte by byte.
  unfoldable pub round : ℕ → Bytes × S → ℕ → Bytes → Result ((Bytes × S) × ℕ × Bytes)
  round arg_index (out, s) c cs =
      if c == b'}'
      then close_brace arg_index (out, s) cs
      else if c == b'{'
      then open_brace arg_index (out, s) cs
      else ok ((out ++ c ∷ [], s), arg_index, cs)

  unfoldable pub vformat_loop : ℕ → ℕ → Bytes × S → Bytes → Result ((Bytes × S) × ℕ)
  vformat_loop fuel arg_index stream [] = ok (stream, arg_index)
  vformat_loop zero arg_index stream (c ∷ cs) = out_of_fuel
  vformat_loop (suc fuel) arg_index stream (c ∷ cs) = do
    (stream', arg_index', rest) ← round arg_index stream c cs
    vformat_loop fuel arg_index' stream' rest

  -- The check behind the loop.
  unfoldable pub all_used : (Bytes × S) × ℕ → Result (Bytes × S)
  all_used (stream, arg_index) = if ltb arg_index (length args) then err too_many else ok stream

  -- `vformat` on a new stream; each round takes at least one byte of the fuel.
  unfoldable pub vformat : S → Bytes → Result (Bytes × S)
  vformat s fmt = vformat_loop (length fmt) 0 ([], s) fmt >>= all_used
