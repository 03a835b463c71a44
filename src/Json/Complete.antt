-- ===== src/Json/Complete.antt =====
-- The parser of include/protocol/Json.hpp reads every text of the grammar as its tree.
pub mod Tokens
pub mod Rounds
pub mod Steps
use high_speed.Prelude.{
  ◌==◌, ℕ, zero, suc, ◌+◌, ◌*◌, ◌≤◌, ◌<◌, ◌≡◌, refl, sym, ap, ◌∙◌, true, some, false, [], ◌∷◌, ◌++◌,
  append_assoc, append-nil, arith, length, length-append, codes, Bytes,
}
use high_speed.Json.{
  Doubles, Json, Members, Elements, object, array, string, number, boolean, null, no_members,
  member, no_elements, element,
}
use high_speed.Json.Parser.{
  ok, is_space, skip_spaces, string_loop, strip, parse_boolean, parse_null, after_member,
  object_round, object_body, after_element, array_round, array_body, value_case, parse_value,
  object_loop, array_loop, finish, parse,
}
use high_speed.Json.Grammar.{
  AllSpace, SpellsText, IsNumberText, Spells, a_string, a_number, a_true, a_false, a_null,
  empty_object, an_object, empty_array, an_array, SpellsMembers, a_member, EndsMembers, end_members,
  more_members, SpellsElements, an_element, EndsElements, end_elements, more_elements,
}
use Tokens.{
  is_space-space_byte, skip_spaces-append, skip_spaces_idem, string_loop_reads, head_is,
  is_number_byte,
}
use Rounds.{
  Starts, IsNumberText-head, Spells-Starts, skip_spaces-Starts, EndsMembers-skip, EndsElements-skip,
  Members-stop, Elements-stop, parse_key_reads, object_body_reads, array_body_reads,
  value_case-number, object_loop-skip, array_loop-skip,
}
use Steps.{
  string_value, true_value, false_value, null_value, number_value, empty_object_value,
  empty_array_value, object_value, array_value, member_round, element_round,
}

-- Fuel above a bound is a successor.
burn {ℓ} : (n : ℕ) (P : ℕ → Type ℓ) → ((f : ℕ) → n ≤ f → P (suc f)) → (f : ℕ) → n < f → P f
burn n P k zero h = absurd (omega arith)
burn n P k (suc f) h = k f (omega arith)

length-append_bytes : (xs ys : Bytes) → length (xs ++ ys) ≡ length xs + length ys
length-append_bytes = length-append

ruleset lengths = (arith, length-append_bytes)

spaces-stop : {w : Bytes} → AllSpace w → head_is is_number_byte w ≡ false
unfolding is_space is_number_byte
spaces-stop AllSpace.nil = refl
spaces-stop (AllSpace.cons h s) = ground arith

skip_spaces_all : {w : Bytes} → AllSpace w → skip_spaces w ≡ []
unfolding skip_spaces
skip_spaces_all AllSpace.nil = refl
skip_spaces_all (AllSpace.cons {c} h s) = rw (is_space-space_byte c, h) (skip_spaces_all s)

module _ (D : Doubles) where
  open D use {Num}

  EndsElements-pos : {es : Elements Num} {t : Bytes} → EndsElements D es t → 0 < length t
  EndsElements-pos end_elements = omega arith
  EndsElements-pos (more_elements m) = omega arith

  mutual
    unfolding after_member after_element

    value_reads :
        {v : Json Num} {t : Bytes}
        → Spells D v t
        → (rest : Bytes) → head_is is_number_byte rest ≡ false
        → (f : ℕ) → length t < f
        → parse_value D f (t ++ rest) ≡ ok (v, rest)
    value_reads (a_string h) rest stop = burn _ _ λ f _. string_value D f rest h
    value_reads (a_number h e) rest stop =
        burn _ _ λ f _. number_value D f rest (a_number h e) h e stop
    value_reads a_true rest stop = burn _ _ λ f _. true_value D f rest
    value_reads a_false rest stop = burn _ _ λ f _. false_value D f rest
    value_reads a_null rest stop = burn _ _ λ f _. null_value D f rest
    value_reads (empty_object h) rest stop = burn _ _ λ f _. empty_object_value D f rest h
    value_reads (an_object m) rest stop =
        burn _ _ λ f h. object_value D f rest m (members_read m rest f (omega arith))
    value_reads (empty_array h) rest stop = burn _ _ λ f _. empty_array_value D f rest h
    value_reads (an_array m) rest stop =
        burn _ _ λ f h. array_value D f rest m (elements_read m rest f (omega arith))

    members_read :
        {ms : Members Num} {t : Bytes}
        → SpellsMembers D ms t
        → (rest : Bytes) (f : ℕ) → length t < f
        → object_loop D f (t ++ rest) ≡ ok (ms, rest)
    members_read (a_member {k} {key} {text} {a} {b} {c} {d} {tail} {v} {ms} sa s sb sc x sd e)
          rest =
        burn _ _ λ f h. simp append_assoc (
          member_round D f rest sa s sb sc x sd e
            (value_reads x (d ++ (tail ++ rest)) (Members-stop D rest sd e) f (omega lengths))
            (members_end e k v rest f (omega lengths)))

    members_end :
        {ms : Members Num} {t : Bytes}
        → EndsMembers D ms t
        → (k : Bytes) (v : Json Num) (rest : Bytes) (f : ℕ) → length t ≤ f
        → after_member (object_loop D f) k v (t ++ rest) ≡ ok (member k v ms, rest)
    members_end end_members k v rest f h = refl
    members_end (more_members m) k v rest f h = rw (members_read m rest f (omega arith))

    elements_read :
        {es : Elements Num} {t : Bytes}
        → SpellsElements D es t
        → (rest : Bytes) (f : ℕ) → length t < f
        → array_loop D f (t ++ rest) ≡ ok (es, rest)
    elements_read (an_element {text} {a} {d} {tail} {v} {es} sa x sd e) rest = burn _ _ λ f h.
        simp append_assoc (
          element_round D f rest sa x sd e
            (value_reads x (d ++ (tail ++ rest)) (Elements-stop D rest sd e) f
              (omega (lengths, EndsElements-pos e)))
            (elements_end e v rest f (omega lengths)))

    elements_end :
        {es : Elements Num} {t : Bytes}
        → EndsElements D es t
        → (v : Json Num) (rest : Bytes) (f : ℕ) → length t ≤ f
        → after_element (array_loop D f) v (t ++ rest) ≡ ok (element v es, rest)
    elements_end end_elements v rest f h = refl
    elements_end (more_elements m) v rest f h = rw (elements_read m rest f (omega arith))

  -- A text of the grammar with spaces around it parses as its tree. The grammar has its own spaces, digits
  -- and escapes; a byte without a short escape may be escaped as itself, `u` too, so that this is not
  -- the escape of JSON.
  pub parse-Spells :
      {v : Json Num} {t before behind : Bytes}
      → Spells D v t
      → AllSpace before
      → AllSpace behind
      → parse D (before ++ (t ++ behind)) ≡ ok v
  unfolding parse
  parse-Spells {v} {t} {before} {behind} x sb se =
      let fuel = 2 * length (before ++ (t ++ behind)) + 2 in
      rw (
        skip_spaces-append (t ++ behind) sb,
        skip_spaces-Starts behind (Spells-Starts D x),
        value_reads x behind (spaces-stop se) fuel (
            omega
              (lengths, length-append_bytes before (t ++ behind), length-append_bytes t behind)),
        skip_spaces_all se,
      )
