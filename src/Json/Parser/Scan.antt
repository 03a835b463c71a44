-- ===== src/Json/Parser/Scan.antt =====
-- The tokens that the parser of include/protocol/Json.hpp scans by itself, and its results.
unfoldable pub use high_speed.Prelude.{is_space}
use high_speed.Prelude.{
  ℕ, Bool, ◌&&◌, ◌||◌, [], ◌∷◌, ◌++◌, Option, none, some, leb, ◌==◌, if◌then◌else◌, Bytes,
}

-- The texts of the `std::runtime_error`s.
pub data Error : Type 0 where
  extra_characters unexpected_end invalid_value : Error
  expected_key expected_colon end_in_object expected_object_separator : Error
  end_in_array expected_array_separator : Error
  bad_escape invalid_number invalid_boolean invalid_null : Error

-- `out_of_fuel` has no counterpart in the program.
pub data Result {ℓ} (A : Type ℓ) : Type ℓ where
  ok : A → Result A
  err : Error → Result A
  out_of_fuel : Result A

infixl 5 ◌>>=◌
abbrev pub ◌>>=◌ {ℓ κ} : {A : Type ℓ} {B : Type κ} → Result A → (A → Result B) → Result B
ok a >>= f = f a
err e >>= f = err e
out_of_fuel >>= f = out_of_fuel

-- `isdigit` of the C locale.
unfoldable pub is_digit : ℕ → Bool
is_digit c = leb b'0' c && leb c b'9'

unfoldable pub skip_spaces : Bytes → Bytes
skip_spaces [] = []
skip_spaces (c ∷ cs) = if is_space c then skip_spaces cs else c ∷ cs

-- The switch of `parseString`.
unfoldable pub unescape : ℕ → ℕ
unescape e =
    if e == b'b'
    then 8
    else if e == b'f'
    then 12
    else if e == b'n'
    then b'\n'
    else if e == b'r'
    then b'\r'
    else if e == b't'
    then b'\t'
    else e

-- The loop of `parseString`, behind the opening quote.
unfoldable pub string_loop : Bytes → Bytes → Result (Bytes × Bytes)
string_loop out [] = ok (out, [])
string_loop out (c ∷ []) =
    if c == b'"'
    then ok (out, [])
    else if c == b'\\'
    then err bad_escape
    else ok (out ++ c ∷ [], [])
string_loop out (c ∷ e ∷ cs) =
    let escaped = string_loop (out ++ unescape e ∷ []) cs in
    let plain = string_loop (out ++ c ∷ []) (e ∷ cs) in
    if c == b'"' then ok (out, e ∷ cs) else if c == b'\\' then escaped else plain

-- `++pos` and the loop.
unfoldable pub parse_string : Bytes → Result (Bytes × Bytes)
parse_string [] = ok ([], [])
parse_string (c ∷ cs) = string_loop [] cs

-- The digits in front, and what follows.
unfoldable pub span_digits : Bytes → Bytes × Bytes
span_digits [] = ([], [])
span_digits (c ∷ cs) =
    let (ds, rest) = span_digits cs in if is_digit c then (c ∷ ds, rest) else ([], c ∷ cs)

unfoldable pub scan_sign : Bytes → Bytes × Bytes
scan_sign [] = ([], [])
scan_sign (c ∷ cs) = if c == b'-' then (c ∷ [], cs) else ([], c ∷ cs)

unfoldable pub scan_fraction : Bytes → Bytes × Bytes
scan_fraction [] = ([], [])
scan_fraction (c ∷ cs) =
    let (ds, rest) = span_digits cs in if c == b'.' then (c ∷ ds, rest) else ([], c ∷ cs)

unfoldable pub scan_exponent_sign : Bytes → Bytes × Bytes
scan_exponent_sign [] = ([], [])
scan_exponent_sign (c ∷ cs) = if c == b'+' || c == b'-' then (c ∷ [], cs) else ([], c ∷ cs)

unfoldable pub scan_exponent : Bytes → Bytes × Bytes
scan_exponent [] = ([], [])
scan_exponent (c ∷ cs) =
    let (sign, behind) = scan_exponent_sign cs in
    let (ds, rest) = span_digits behind in
    if c == b'e' || c == b'E' then (c ∷ (sign ++ ds), rest) else ([], c ∷ cs)

-- The text of a number, `[start, pos)`, and what follows.
unfoldable pub scan_number : Bytes → Bytes × Bytes
scan_number bs =
    let (sign, bs₁) = scan_sign bs in
    let (ds, bs₂) = span_digits bs₁ in
    let (fraction, bs₃) = scan_fraction bs₂ in
    let (exponent, bs₄) = scan_exponent bs₃ in (sign ++ (ds ++ (fraction ++ exponent)), bs₄)

-- `json.compare(pos, n, word) == 0`, with what stands behind the word.
unfoldable pub strip : Bytes → Bytes → Option Bytes
strip [] bs = some bs
strip (w ∷ ws) [] = none
strip (w ∷ ws) (b ∷ bs) = if b == w then strip ws bs else none
