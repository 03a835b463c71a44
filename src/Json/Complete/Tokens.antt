-- ===== src/Json/Complete/Tokens.antt =====
-- The tokens of include/protocol/Json.hpp: each scanner reads what the grammar allows and stops
-- behind it.
use high_speed.Prelude.{
  ℕ, ◌≡◌, refl, ◌∙◌, Bool, true, false, ◌||◌, [], ◌∷◌, ◌++◌, append_assoc, append-nil, arith,
  Bool-cases, ◌==◌, inl, inr, Bytes,
}
use high_speed.Json.Parser.{
  ok, is_space, is_digit, skip_spaces, unescape, string_loop, span_digits, scan_sign, scan_fraction,
  scan_exponent_sign, scan_exponent, scan_number,
}
use high_speed.Json.Grammar.{
  space_byte, digit_byte, Escape, backspace, tab, line_feed, form_feed, carriage_return, itself,
  AllSpace, AllDigits, SpellsText, plain, escaped, IsSign, minus, IsFraction, whole, point,
  IsExponentSign, signed, IsExponent, absent, present, IsNumberText, number_text,
}

pub is_space-space_byte : (c : ℕ) → is_space c ≡ space_byte c
unfolding is_space
is_space-space_byte c = ground arith

pub is_digit-digit_byte : (c : ℕ) → is_digit c ≡ digit_byte c
unfolding is_digit
is_digit-digit_byte c = refl

pub Escape-unescape : {e c : ℕ} → Escape e c → unescape e ≡ c
unfolding unescape
Escape-unescape backspace = refl
Escape-unescape tab = refl
Escape-unescape line_feed = refl
Escape-unescape form_feed = refl
Escape-unescape carriage_return = refl
Escape-unescape (itself {e} h) = ground arith

pub skip_spaces-append :
    {w : Bytes} (bs : Bytes) → AllSpace w → skip_spaces (w ++ bs) ≡ skip_spaces bs
unfolding skip_spaces
skip_spaces-append bs AllSpace.nil = refl
skip_spaces-append bs (AllSpace.cons {c} h s) =
    rw (is_space-space_byte c, h) (skip_spaces-append bs s)

pub skip_spaces_idem : (bs : Bytes) → skip_spaces (skip_spaces bs) ≡ skip_spaces bs
unfolding skip_spaces
skip_spaces_idem [] = refl
skip_spaces_idem (c ∷ cs) = elim (Bool-cases (is_space c)) [
  | inl e ↦ rw e (skip_spaces_idem cs)
  | inr e ↦ simp e
]

string_loop-quote : (out cs : Bytes) → string_loop out (b'"' ∷ cs) ≡ ok (out, cs)
unfolding string_loop
string_loop-quote out [] = refl
string_loop-quote out (c ∷ cs) = refl

pub string_loop-plain :
    (out : Bytes) (c : ℕ) (cs : Bytes)
    → (c == b'"') ≡ false
    → (c == b'\\') ≡ false
    → string_loop out (c ∷ cs) ≡ string_loop (out ++ c ∷ []) cs
unfolding string_loop
string_loop-plain out c [] q b = rw (q, b)
string_loop-plain out c (e ∷ cs) q b = rw (q, b)

pub string_loop-backslash :
    (out : Bytes) (e : ℕ) (cs : Bytes)
    → string_loop out (b'\\' ∷ e ∷ cs) ≡ string_loop (out ++ unescape e ∷ []) cs
unfolding string_loop
string_loop-backslash out e cs = refl

pub string_loop_reads :
    {s t : Bytes} (out rest : Bytes)
    → SpellsText s t
    → string_loop out (t ++ b'"' ∷ rest) ≡ ok (out ++ s, rest)
string_loop_reads out rest SpellsText.nil = rw append-nil (string_loop-quote out rest)
string_loop_reads out rest (plain {c} {s} {t} q b h) =
    string_loop-plain out c (t ++ b'"' ∷ rest) q b
    ∙ string_loop_reads (out ++ c ∷ []) rest h
    ∙ rw append_assoc
string_loop_reads out rest (escaped {c} {e} {s} {t} u h) =
    string_loop-backslash out e (t ++ b'"' ∷ rest)
    ∙ rw (Escape-unescape u) (string_loop_reads (out ++ c ∷ []) rest h ∙ rw append_assoc)

-- Whether the first byte passes a test.
abbrev pub head_is : (ℕ → Bool) → Bytes → Bool
head_is p [] = false
head_is p (c ∷ cs) = p c

-- The bytes that may go on a number.
unfoldable pub is_number_byte : ℕ → Bool
unfolding is_digit
is_number_byte c = is_digit c || c == b'.' || c == b'e' || c == b'E' || c == b'+' || c == b'-'

span_digits_reads :
    {ds : Bytes} (rest : Bytes)
    → AllDigits ds
    → head_is is_digit rest ≡ false
    → span_digits (ds ++ rest) ≡ (ds, rest)
unfolding span_digits
span_digits_reads [] AllDigits.nil h = refl
span_digits_reads (c ∷ cs) AllDigits.nil h = rw h
span_digits_reads rest (AllDigits.cons {c} d ds) h =
    rw (is_digit-digit_byte c, d, span_digits_reads rest ds h)

-- What follows a token that may be continued.
abbrev Stops : Bytes → Type 0
Stops rest = head_is is_number_byte rest ≡ false

Stops-digit : (rest : Bytes) → Stops rest → head_is is_digit rest ≡ false
unfolding is_number_byte
Stops-digit [] h = refl
Stops-digit (c ∷ cs) h = ground arith

scan_sign_reads :
    {sign : Bytes} (d : ℕ) (rest : Bytes)
    → IsSign sign
    → digit_byte d ≡ true
    → scan_sign (sign ++ d ∷ rest) ≡ (sign, d ∷ rest)
unfolding scan_sign is_digit
scan_sign_reads d rest IsSign.unsigned h = ground arith
scan_sign_reads d rest minus h = refl

scan_exponent_sign_reads :
    {sign ds : Bytes} (rest : Bytes)
    → IsExponentSign sign
    → AllDigits ds
    → Stops rest
    → scan_exponent_sign (sign ++ (ds ++ rest)) ≡ (sign, ds ++ rest)
unfolding scan_exponent_sign is_number_byte is_digit
scan_exponent_sign_reads [] IsExponentSign.unsigned AllDigits.nil h = refl
scan_exponent_sign_reads (c ∷ cs) IsExponentSign.unsigned AllDigits.nil h = ground arith
scan_exponent_sign_reads rest IsExponentSign.unsigned (AllDigits.cons d ds) h = ground arith
scan_exponent_sign_reads rest (signed e) d h = rw e

scan_exponent_reads :
    {exponent : Bytes} (rest : Bytes)
    → IsExponent exponent
    → Stops rest
    → scan_exponent (exponent ++ rest) ≡ (exponent, rest)
unfolding scan_exponent
scan_exponent_reads [] absent h = refl
scan_exponent_reads (c ∷ cs) absent h = unfold is_number_byte in ground arith
scan_exponent_reads rest (present {c} {sign} {ds} e s d) h = rw (
  append_assoc sign ds rest,
  scan_exponent_sign_reads rest s d h,
  span_digits_reads rest d (Stops-digit rest h),
  e,
)

-- An exponent text and what stops it continue no digits and begin no fraction.
exponent_head :
    {exponent : Bytes} (rest : Bytes)
    → IsExponent exponent
    → Stops rest
    → (head_is is_digit (exponent ++ rest) ≡ false)
      × (head_is (λ c. c == b'.') (exponent ++ rest) ≡ false)
unfolding is_number_byte is_digit
exponent_head [] absent h = (refl, refl)
exponent_head (c ∷ cs) absent h = (ground arith, ground arith)
exponent_head rest (present e s d) h = (ground arith, ground arith)

scan_fraction_reads :
    {fraction : Bytes} (rest : Bytes)
    → IsFraction fraction
    → head_is is_digit rest ≡ false
    → head_is (λ c. c == b'.') rest ≡ false
    → scan_fraction (fraction ++ rest) ≡ (fraction, rest)
unfolding scan_fraction
scan_fraction_reads [] whole h k = refl
scan_fraction_reads (c ∷ cs) whole h k = rw k
scan_fraction_reads rest (point d) h k = rw (span_digits_reads rest d h)

fraction_head :
    {fraction : Bytes} (rest : Bytes)
    → IsFraction fraction
    → head_is is_digit rest ≡ false
    → head_is is_digit (fraction ++ rest) ≡ false
unfolding is_digit
fraction_head rest whole h = h
fraction_head rest (point d) h = refl

-- A number text is scanned whole.
pub scan_number_reads :
    {t : Bytes} (rest : Bytes)
    → IsNumberText t
    → head_is is_number_byte rest ≡ false
    → scan_number (t ++ rest) ≡ (t, rest)
unfolding scan_number
scan_number_reads rest (number_text d {sign} {ds} {fraction} {exponent} s hd hds hf he) h =
    let (x, y) = exponent_head rest he h in
    rw (
      append_assoc sign ((d ∷ ds) ++ (fraction ++ exponent)) rest,
      append_assoc ds (fraction ++ exponent) rest,
      append_assoc fraction exponent rest,
      scan_sign_reads d (ds ++ (fraction ++ (exponent ++ rest))) s hd,
      span_digits_reads (fraction ++ (exponent ++ rest)) (AllDigits.cons {c = d} hd hds)
          (fraction_head (exponent ++ rest) hf x),
      scan_fraction_reads (exponent ++ rest) hf x y,
      scan_exponent_reads rest he h,
    )
