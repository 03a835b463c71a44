-- ===== src/Json/Tests.antt =====
-- Runs of include/protocol/Json.hpp, and the theorems at concrete inputs.
use high_speed.Prelude.{
  ◌^◌, arith, ◌≡◌, refl, [], ◌∷◌, some, none, Option, true, false, ◌⊎◌, codes, Bytes,
}
use high_speed.Json.{
  Doubles, Json, Elements, object, array, string, number, boolean, null, no_members, member,
  no_elements, element, vacant, to_string, dump, pos, dump_at, in_range, member_comma,
}
use high_speed.Json.Parser.{
  Error, ok, err, expected_key, expected_colon, is_space, is_digit, skip_spaces, unescape,
  string_loop, span_digits, scan_sign, scan_fraction, scan_exponent_sign, scan_exponent,
  scan_number, strip, parse_boolean, parse_null, expect_colon, parse_key, after_member,
  object_round, object_body, after_element, array_round, array_body, parse_number, value_case,
  parse_value, parse,
}
use high_speed.Json.Nesting.{nests}
use high_speed.Json.Grammar.{
  AllSpace, AllDigits, IsSign, IsNumberText, whole, absent, number_text, Spells, a_true, a_null,
  an_array, an_element, end_elements, more_elements,
}
use high_speed.Json.Complete.{parse-Spells}
use high_speed.Json.Printable.{IsPlain, IsPrintable, PrintableMembers, PrintableElements}
use high_speed.Json.RoundTrip.{settle, parse-to_string}
use high_speed.Json.Indented.{parse-dump}
use high_speed.Json.Total.{parse-total}
use high_speed.Json.Lenient.{parse-quote_in_key}

-- Doubles that are 7 only.
data Seven : Type 0 where
  seven : Seven

read : Bytes → Option Seven
read [] = none
read (c ∷ cs) = some seven

abbrev sevens : Doubles
sevens = record { Num = Seven; zero_num = seven; print = λ n. b'7' ∷ []; stod = read }

-- {"x":7,"y":[true, <null pointer>, "hi\n"]}
abbrev sample : Json Seven
sample = object (member (codes "x") (number seven) (member (codes "y") (array items) no_members))
  where
    items : Elements Seven
    items = element (boolean true) (vacant (element (string (codes "hi\n")) no_elements))

parse_array :
    parse sevens (codes " [7, false ] ")
    ≡ ok (array (element (number seven) (element (boolean false) no_elements)))
unfolding parse parse_value value_case object_body array_body object_round array_round skip_spaces
    string_loop scan_number span_digits after_member after_element unescape is_digit is_space
    parse_key parse_number scan_sign scan_fraction scan_exponent scan_exponent_sign parse_boolean
    parse_null strip read
parse_array = refl

trailing_comma : parse sevens (codes "{\"a\":null,}") ≡ err expected_key
unfolding parse parse_value value_case object_body object_round skip_spaces string_loop after_member
    unescape is_space parse_key expect_colon parse_null strip
trailing_comma = refl

dump_sample :
    dump sevens (pos 2) (pos 0) (object (member (codes "x") (array no_elements) no_members))
    ≡ some (codes "{\n  \"x\": [\n  ]\n}")
unfolding dump dump_at in_range member_comma
dump_sample = refl

seven-IsNumberText : IsNumberText (b'7' ∷ [])
unfolding is_digit
seven-IsNumberText = number_text b'7' IsSign.unsigned refl AllDigits.nil whole absent

sample-IsPrintable : IsPrintable sevens sample
unfolding read
sample-IsPrintable = IsPrintable.object (
    PrintableMembers.member (IsPlain.cons refl refl IsPlain.nil)
      (IsPrintable.number seven-IsNumberText refl)
      (PrintableMembers.member (IsPlain.cons refl refl IsPlain.nil)
        (IsPrintable.array (
          PrintableElements.element (IsPrintable.boolean true) (
            PrintableElements.vacant
              (PrintableElements.element (IsPrintable.string _) PrintableElements.no_elements))))
        PrintableMembers.no_members))

two_words :
    Spells sevens (array (element (boolean true) (element null no_elements))) (codes "[ true,null]")
unfolding is_space
two_words = an_array (
    an_element {a = b' ' ∷ []} (AllSpace.cons refl AllSpace.nil) a_true AllSpace.nil
      (more_elements (an_element {a = []} AllSpace.nil a_null AllSpace.nil end_elements)))

line_break : AllSpace (b'\n' ∷ [])
unfolding is_space
line_break = AllSpace.cons refl AllSpace.nil

parse-Spells_example :
    parse sevens (codes "\n[ true,null]\n")
    ≡ ok (array (element (boolean true) (element null no_elements)))
parse-Spells_example = parse-Spells sevens two_words line_break line_break

parse-to_string_example : parse sevens (to_string sevens sample) ≡ ok (settle sample)
parse-to_string_example = parse-to_string sevens sample-IsPrintable

-- The padding of a line behind 2^30 levels at an indent of 2 is too long for `int`.
too_deep : dump sevens (pos 2) (pos (2 ^ 30)) (array no_elements) ≡ none
unfolding dump in_range
too_deep = refl

parse-dump_example :
    (text : Bytes) × (dump sevens (pos 2) (pos 0) sample ≡ some text)
    × (parse sevens text ≡ ok (settle sample))
unfolding nests
parse-dump_example =
    parse-dump sevens (pos 2) 0 2 sample-IsPrintable refl (omega arith, omega arith)

parse-total_example :
    ((v : Json Seven) × (parse sevens (codes "[[{") ≡ ok v))
    ⊎ ((e : Error) × (parse sevens (codes "[[{") ≡ err e))
parse-total_example = parse-total sevens (codes "[[{")

parse-quote_in_key_example :
    parse sevens (to_string sevens (object (member (codes "a\"b") null no_members)))
    ≡ err expected_colon
unfolding is_space
parse-quote_in_key_example =
    parse-quote_in_key sevens (codes "b") null no_members (IsPlain.cons refl refl IsPlain.nil) refl
