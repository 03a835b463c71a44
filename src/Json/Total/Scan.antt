-- ===== src/Json/Total/Scan.antt =====
-- How much of its input each scanner of include/protocol/Json.hpp leaves.
use high_speed.Prelude.{
  ℕ, ◌+◌, ◌≤◌, ◌≡◌, true, ◌||◌, [], ◌∷◌, arith, inl, inr, Bool-cases, ◌==◌, some, length, Bytes,
}
use high_speed.Json.Parser.{
  is_digit, skip_spaces, span_digits, scan_sign, scan_fraction, scan_exponent_sign, scan_exponent,
  scan_number, strip,
}

pub length-skip_spaces : (bs : Bytes) → length (skip_spaces bs) ≤ length bs
unfolding skip_spaces
length-skip_spaces [] = omega arith
length-skip_spaces (c ∷ cs) = ground (arith, length-skip_spaces cs)

span_digits-le : (bs : Bytes) → length (span_digits bs).1 ≤ length bs
unfolding span_digits
span_digits-le [] = omega arith
span_digits-le (c ∷ cs) = ground (arith, span_digits-le cs)

scan_fraction-le : (bs : Bytes) → length (scan_fraction bs).1 ≤ length bs
unfolding scan_fraction
scan_fraction-le [] = omega arith
scan_fraction-le (c ∷ cs) = ground (arith, span_digits-le cs)

scan_exponent_sign-le : (bs : Bytes) → length (scan_exponent_sign bs).1 ≤ length bs
unfolding scan_exponent_sign
scan_exponent_sign-le [] = omega arith
scan_exponent_sign-le (c ∷ cs) = ground arith

scan_exponent-le : (bs : Bytes) → length (scan_exponent bs).1 ≤ length bs
unfolding scan_exponent
scan_exponent-le [] = omega arith
scan_exponent-le (c ∷ cs) =
    ground (arith, scan_exponent_sign-le cs, span_digits-le (scan_exponent_sign cs).1)

-- The sign and the digits of a number are not both empty.
pub scan_digits-lt :
    (c : ℕ) (cs : Bytes)
    → (c == b'-' || is_digit c) ≡ true
    → length (span_digits (scan_sign (c ∷ cs)).1).1 ≤ length cs
unfolding scan_sign
scan_digits-lt c cs h = elim (Bool-cases (c == b'-')) [
  | inl e ↦ rw e (span_digits-le cs)
  | inr e ↦ rw e (unfold span_digits in ground (arith, span_digits-le cs))
]

pub scan_number-lt :
    (c : ℕ) (cs : Bytes)
    → (c == b'-' || is_digit c) ≡ true
    → length (scan_number (c ∷ cs)).1 ≤ length cs
unfolding scan_number
scan_number-lt c cs h =
    let behind = (span_digits (scan_sign (c ∷ cs)).1).1 in
    omega (
      arith,
      scan_digits-lt c cs h,
      scan_fraction-le behind,
      scan_exponent-le (scan_fraction behind).1,
    )

pub strip-le :
    (ws bs : Bytes) {rest : Bytes} → strip ws bs ≡ some rest → length rest + length ws ≤ length bs
unfolding strip
strip-le [] bs e = ground arith
strip-le (w ∷ ws) [] e = ground arith
strip-le (w ∷ ws) (b ∷ bs) {rest} e = ground (arith, strip-le ws bs {rest = rest})
