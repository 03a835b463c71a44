-- ===== src/Format/Floats.antt =====
-- `format_impl` of include/log/format.hpp for floating point. What the stream prints for a number is a
-- parameter, a function of the flags.
use high_speed.Prelude.{
  List, ◌∙◌, ℕ, ◌^◌, ◌≡◌, refl, Bool, true, false, ◌&&◌, ◌||◌, [], ◌∷◌, ◌++◌, Option, none, some,
  ltb, leb, ◌==◌, if◌then◌else◌, Bytes, bytes_eq, codes,
}
use high_speed.Format.{Arg, ok, stoul, in_range, digits_value, vformat}
use high_speed.Format.Args.{
  FloatField, defaultfloat, fixed, scientific, Precision, digits_of, minus, Stream, fresh,
}
use high_speed.Format.Spelling.{
  lacks, Piece, byte, next, place, spell, cons_byte, cons_next, cons_place, nil, render,
}
use high_speed.Format.Pieces.{vformat-render}

-- Within the range of `int`.
unfoldable pub int_above : Option ℕ → Option Precision
int_above none = none
int_above (some n) = if ltb n (2 ^ 31) then some (digits_of n) else none

unfoldable pub int_below : Option ℕ → Option Precision
int_below none = none
int_below (some n) = if leb n (2 ^ 31) then some (minus n) else none

-- `std::stoi` in base 10, `none` where it throws.
unfoldable pub stoi : Bytes → Option Precision
stoi [] = none
stoi (c ∷ cs) =
    let spaced = stoi cs in
    if c == b' '
    then spaced
    else if leb 9 c && leb c 13
    then spaced
    else if c == b'+'
    then int_above (digits_value 0 false cs)
    else if c == b'-'
    then int_below (digits_value 0 false cs)
    else int_above (digits_value 0 false (c ∷ cs))

module _ {N : Type 0} (show : FloatField → Precision → (uppercase : Bool) → N → Bytes) where
  -- `os << value`
  unfoldable pub print_float : N → Stream → Bytes
  print_float v s = show s.floatfield s.precision s.uppercase v

  -- Printed with the flags `s`, which then leave `uppercase` off.
  unfoldable pub print_lower : N → Stream → Bytes × Stream
  print_lower v s = (print_float v s, record s { uppercase = false })

  -- `std::fixed << std::setprecision(precision) << value`, or without a precision just the value.
  unfoldable pub with_precision : N → Option Precision → Stream → Bytes × Stream
  with_precision v none s = (print_float v s, s)
  with_precision v (some n) s =
      let s' = record s { floatfield = fixed; precision = n } in (print_float v s', s')

  unfoldable pub format_float : N → Arg Stream
  format_float v [] s = (print_float v s, s)
  format_float v (c ∷ spec) s =
      if bytes_eq (c ∷ spec) (codes "f") || bytes_eq (c ∷ spec) (codes "F")
      then (print_float v (record s { floatfield = fixed }), record s { floatfield = fixed })
      else if bytes_eq (c ∷ spec) (codes "e")
      then print_lower v (record s { floatfield = scientific })
      else if bytes_eq (c ∷ spec) (codes "E")
      then print_lower v (record s { floatfield = scientific; uppercase = true })
      else if bytes_eq (c ∷ spec) (codes "g")
      then print_lower v (record s { floatfield = defaultfloat })
      else if bytes_eq (c ∷ spec) (codes "G")
      then print_lower v (record s { floatfield = defaultfloat; uppercase = true })
      else if c == b'.'
      then with_precision v (stoi spec) s
      else (print_float v s, s)

  format_float_precision :
      (v : N) (spec : Bytes) (s : Stream) {n : Precision}
      → stoi spec ≡ some n
      → format_float v (b'.' ∷ spec) s ≡ with_precision v (some n) s
  unfolding format_float bytes_eq
  format_float_precision v spec s e = rw (format_float, e) refl

  -- `{0:.` with a precision, then a `{}`, a blank and another `{}`.
  abbrev pieces : Bytes → List Piece
  pieces spec = place (codes "0") (some (b'.' ∷ spec)) ∷ byte b' ' ∷ next ∷ byte b' ' ∷ next ∷ []

  -- A precision stays: behind a placeholder `{0:.n}` each `{}` for a floating-point number prints with
  -- `std::fixed` and `n` digits too, whatever the numbers are.
  pub vformat-precision :
      (v w : N) (spec : Bytes) (n : Precision)
      → lacks b'}' spec ≡ true
      → stoi spec ≡ some n
      → vformat
          (format_float v ∷ format_float w ∷ [])
          fresh
          (b'{' ∷ b'0' ∷ (b':' ∷ b'.' ∷ spec ++ b'}' ∷ codes " {} {}"))
        ≡ ok (
          show fixed n false v
              ++ (b' ' ∷ [])
              ++ show fixed n false v
              ++ (b' ' ∷ [])
              ++ show fixed n false w,
          record fresh { floatfield = fixed; precision = n },
        )
  unfolding spell render stoul in_range digits_value with_precision print_float format_float
  vformat-precision v w spec n h e =
      vformat-render (format_float v ∷ format_float w ∷ []) fresh (
        cons_place {index = codes "0"} {spec = some (b'.' ∷ spec)} refl h refl
          (cons_byte b' ' (cons_next (cons_byte b' ' (cons_next nil)))))
      ∙ rw (format_float_precision v spec fresh e) refl
