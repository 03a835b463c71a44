-- ===== src/Format/Tests.antt =====
-- Runs of include/log/format.hpp.
use high_speed.Prelude.{◌⊎◌}
use high_speed.Format.Total.{vformat-total}
use high_speed.Prelude.{
  none, some, ℕ, ◌+◌, ◌++◌, Bool, if◌then◌else◌, true, false, bytes_eq, ◌≡◌, refl, List, [], ◌∷◌,
  codes, Bytes, arith,
}
use high_speed.Format.{
  Error, ok, err, too_many, Arg, get_arg, digits_value, in_range, stoul, split_colon, find_close,
  manual, automatic, argument, close_brace, placeholder, open_brace, round, vformat_loop, all_used,
  vformat,
}
use high_speed.Format.Spelling.{
  Piece, byte, next, place, spell, cons_byte, cons_next, cons_place, nil, render,
}
use high_speed.Format.Pieces.{vformat-render}
use high_speed.Format.Args.{
  FloatField, defaultfloat, fixed, scientific, Precision, digits_of, minus, format_char, fresh,
  digits, print_radix, print_int, print_bits, format_hex, format_int, format_bool,
}
use high_speed.Format.Explicit.{none_left, any_byte, any_place, vformat-explicit}
use high_speed.Format.Floats.{
  int_above, stoi, print_float, print_lower, with_precision, format_float,
}

-- A text that ignores its specifier, on a stream with nothing to remember.
abbrev fixed_text : Bytes → Arg Unit
fixed_text t spec s = (t, s)

abbrev two_args : List (Arg Unit)
two_args = fixed_text (codes "ab") ∷ fixed_text (codes "c") ∷ []

hello : vformat two_args tt (codes "{{{}-{1:x}{}}}") ≡ ok (codes "{ab-cc}", tt)
unfolding vformat vformat_loop round open_brace close_brace placeholder argument automatic manual
    find_close split_colon stoul in_range digits_value get_arg all_used
hello = refl

named : vformat two_args tt (codes "{0}{1}") ≡ err too_many
unfolding vformat vformat_loop round open_brace close_brace placeholder argument automatic manual
    find_close split_colon stoul in_range digits_value get_arg all_used
named = refl

-- A byte, a `short` and a truth value, the number first as hexadecimal digits.
printed :
    vformat
      (format_int (record { width = 8; signed = false; bits = 171 })
        ∷ format_int (record { width = 16; signed = true; bits = 65534 })
        ∷ format_bool true
        ∷ [])
      fresh
      (codes "{0:X} {} {} {} {0:b}")
    ≡ ok (codes "AB 171 -2 true 0b10101011", record fresh { boolalpha = true })
unfolding vformat vformat_loop round open_brace close_brace placeholder argument automatic manual
    find_close split_colon stoul in_range digits_value get_arg all_used format_int format_hex
    format_bool print_int print_radix print_bits digits bytes_eq
printed = refl

abbrev mixed : List Piece
mixed = byte b'{' ∷ next ∷ place (codes "1") (some (codes "x")) ∷ next ∷ []

vformat-render_example : vformat two_args tt (spell mixed) ≡ render two_args mixed two_args ([], tt)
vformat-render_example =
    vformat-render two_args tt
      (cons_byte b'{' (cons_next (cons_place refl refl refl (cons_next nil))))

abbrev only_named : List Piece
only_named = place (codes "0") none ∷ byte b' ' ∷ place (codes "1") none ∷ []

vformat-explicit_example : (e : Error) × (vformat two_args tt (spell only_named) ≡ err e)
vformat-explicit_example =
    vformat-explicit two_args tt (omega arith)
      (cons_place refl refl refl (cons_byte b' ' (cons_place refl refl refl nil)))
      (any_place (any_byte (any_place none_left)))

vformat-total_example :
    ((out : Bytes × Unit) × (vformat two_args tt (codes "{9}") ≡ ok out))
    ⊎ ((e : Error) × (vformat two_args tt (codes "{9}") ≡ err e))
vformat-total_example = vformat-total two_args tt (codes "{9}")

-- A number that prints as its field and its precision.
abbrev flags : FloatField → Precision → Bool → ℕ → Bytes
flags defaultfloat p u v = codes "g"
flags fixed (digits_of n) u v = codes "f" ++ (48 + n) ∷ []
flags fixed (minus n) u v = codes "f-"
flags scientific p u v = if u then codes "E" else codes "e"

-- The fields of `{0:E}` and `{0:.2}` stay, the upper case does not.
sticky :
    vformat
      (format_float flags 0 ∷ format_float flags 0 ∷ format_char 65 ∷ [])
      fresh
      (codes "{} {0:E} {} {0:.2} {1} {}")
    ≡ ok (codes "g E e f2 f2 A", record fresh { floatfield = fixed; precision = digits_of 2 })
unfolding vformat vformat_loop round open_brace close_brace placeholder argument automatic manual
    find_close split_colon stoul in_range digits_value get_arg all_used bytes_eq format_float
    format_char print_float print_lower with_precision stoi int_above
sticky = refl
