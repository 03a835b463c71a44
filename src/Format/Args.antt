-- ===== src/Format/Args.antt =====
-- `format_impl` of include/log/format.hpp for integers, characters, texts, pointers and truth values: what
-- an argument prints, and the flags of the stream that it leaves.
use high_speed.Prelude.{
  ℕ, zero, suc, ◌+◌, ◌-◌, ◌/◌, ◌%◌, ◌^◌, ◌≡◌, Bool, true, false, ◌||◌, [], ◌∷◌, ltb, leb, ◌==◌,
  if◌then◌else◌, Bytes, bytes_eq, codes, arith,
}
use high_speed.Format.{Arg}

-- `std::dec`, `std::hex`, `std::oct`.
pub data Base : Type 0 where
  dec hex oct : Base

-- `std::defaultfloat`, `std::fixed`, `std::scientific`.
pub data FloatField : Type 0 where
  defaultfloat fixed scientific : FloatField

-- A value of `int`: the number, or the number below zero.
pub data Precision : Type 0 where
  digits_of minus : ℕ → Precision

-- The flags of the `std::ostream` that the printing of the arguments reads.
pub record Stream : Type 0 where
  pub base : Base
  pub uppercase : Bool
  pub boolalpha : Bool
  pub floatfield : FloatField
  pub precision : Precision

-- The flags of a stream that has just been made.
abbrev pub fresh : Stream
fresh = record {
  base = dec;
  uppercase = false;
  boolalpha = false;
  floatfield = defaultfloat;
  precision = digits_of 6;
}

-- An integer of a type of `width` bits, in two's complement.
pub record IntValue : Type 0 where
  pub width : ℕ
  pub signed : Bool
  pub bits : ℕ

abbrev pub digit : Bool → ℕ → ℕ
digit upper d = if ltb d 10 then 48 + d else if upper then 55 + d else 87 + d

-- The digits in front of `acc`, at most `fuel` of them.
unfoldable pub digits : (fuel radix : ℕ) → Bool → ℕ → Bytes → Bytes
digits zero radix upper n acc = acc
digits (suc fuel) radix upper n acc = elim (ltb n radix) [
  | true ↦ digit upper n ∷ acc
  | false ↦ digits fuel radix upper (n / radix) (digit upper (n % radix) ∷ acc)
]

-- The number in the base; a type of `width` bits has no more digits than bits.
unfoldable pub print_radix : Base → Bool → IntValue → Bytes
print_radix hex upper v = digits v.width 16 upper v.bits []
print_radix oct upper v = digits v.width 8 upper v.bits []
print_radix dec upper v =
    if (if v.signed then leb (2 ^ (v.width - 1)) v.bits else false)
    then b'-' ∷ digits v.width 10 upper (2 ^ v.width - v.bits) []
    else digits v.width 10 upper v.bits []

-- `os << value`
unfoldable pub print_int : IntValue → Stream → Bytes
print_int v s = print_radix s.base s.uppercase v

-- The loop over the bits below `n`, the highest first.
unfoldable pub print_bits : ℕ → ℕ → Bytes
print_bits zero n = []
print_bits (suc i) n = (48 + n / 2 ^ i % 2) ∷ print_bits i n

-- The case of `x` and of `X`.
unfoldable pub format_hex : Bool → IntValue → Stream → Bytes × Stream
format_hex upper v s =
    let s' = record s { base = hex; uppercase = if upper then true else s.uppercase } in
    (print_int v s', record s' { base = dec; uppercase = false })

unfoldable pub format_int : IntValue → Arg Stream
format_int v [] s = (print_int v s, s)
format_int v (c ∷ spec) s =
    if c == b'x'
    then format_hex false v s
    else if c == b'X'
    then format_hex true v s
    else if c == b'o'
    then (print_int v (record s { base = oct }), record s { base = dec })
    else if c == b'b'
    then (b'0' ∷ b'b' ∷ print_bits v.width v.bits, s)
    else (print_int v s, s)

-- A text is printed as it is, whatever the specifier.
unfoldable pub format_string : Bytes → Arg Stream
format_string text spec s = (text, s)

-- A `char`, which the stream prints as a character in any base, so that only `b` makes a difference.
unfoldable pub format_char : ℕ → Arg Stream
format_char code [] s = (code ∷ [], s)
format_char code (c ∷ spec) s =
    if c == b'b'
    then (b'0' ∷ b'b' ∷ print_bits 8 code, s)
    else if c == b'x' || c == b'X'
    then (code ∷ [], record s { base = dec; uppercase = false })
    else if c == b'o'
    then (code ∷ [], record s { base = dec })
    else (code ∷ [], s)

-- A pointer, of which `address` is what the stream makes.
unfoldable pub format_pointer : Bytes → Arg Stream
format_pointer address spec s = (address, s)

abbrev pub truth : Bool → Bytes
truth true = codes "true"
truth false = codes "false"

unfoldable pub format_bool : Bool → Arg Stream
format_bool b [] s = (truth b, record s { boolalpha = true })
format_bool b (c ∷ spec) s =
    if bytes_eq (c ∷ spec) (codes "d")
    then ((if b then 49 else 48) ∷ [], s)
    else if bytes_eq (c ∷ spec) (codes "s")
    then (truth b, s)
    else (truth b, record s { boolalpha = true })

-- An integer leaves no flag behind that changes how a later one prints, whatever its specifier.
pub format_int_plain :
    (v : IntValue) (spec : Bytes) (s : Stream)
    → s.base ≡ dec
    → s.uppercase ≡ false
    → ((format_int v spec s).1.base ≡ dec) × ((format_int v spec s).1.uppercase ≡ false)
unfolding format_int format_hex
format_int_plain v [] s e f = (e, f)
format_int_plain v (c ∷ spec) s e f = (ground arith, ground arith)
