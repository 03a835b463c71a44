-- ===== src/Json/Parser.antt =====
-- The parser of include/protocol/Json.hpp. A position in the text is the text from it on, so the
-- position that one error message names is not kept.
mod Scan
unfoldable pub use Scan.*
use high_speed.Prelude.{
  ℕ, zero, suc, ◌+◌, ◌*◌, Bool, true, false, ◌&&◌, ◌||◌, [], ◌∷◌, ◌++◌, Option, none, some, leb,
  ◌==◌, if◌then◌else◌, length, codes, Bytes,
}
use high_speed.Json.{
  Doubles, Json, Members, Elements, object, array, string, number, boolean, null, no_members,
  member, no_elements, element,
}

module _ {N : Type 0} where
  unfoldable pub parse_boolean : Bytes → Result (Json N × Bytes)
  parse_boolean bs = elim (strip (codes "true") bs) [
    | some rest ↦ ok (boolean true, rest)
    | none ↦ elim (strip (codes "false") bs) [
      | some rest ↦ ok (boolean false, rest)
      | none ↦ err invalid_boolean
    ]
  ]

  unfoldable pub parse_null : Bytes → Result (Json N × Bytes)
  parse_null bs = elim (strip (codes "null") bs) [
    | some rest ↦ ok (null, rest)
    | none ↦ err invalid_null
  ]

-- Behind a key.
unfoldable pub expect_colon : Bytes → Result Bytes
expect_colon [] = err expected_colon
expect_colon (c ∷ cs) = if c == b':' then ok cs else err expected_colon

-- The key of a member and its colon; the spaces in front are skipped.
unfoldable pub parse_key : Bytes → Result (Bytes × Bytes)
unfolding expect_colon
parse_key [] = err expected_key
parse_key (c ∷ cs) =
    if c == b'"'
    then (do
      (key, behind) ← string_loop [] cs
      rest ← expect_colon (skip_spaces behind)
      ok (key, rest))
    else err expected_key

module _ {N : Type 0} where
  -- Behind the value of a member. `more` is the next round of the loop.
  unfoldable pub after_member :
      (Bytes → Result (Members N × Bytes)) → Bytes → Json N → Bytes → Result (Members N × Bytes)
  after_member more k v [] = err end_in_object
  after_member more k v (c ∷ cs) =
      let next = do (ms, rest) ← more cs; ok (member k v ms, rest)
      in if c == b'}'
        then ok (member k v no_members, cs)
        else if c == b','
        then next
        else err expected_object_separator

  -- One round of the loop of `parseObject`.
  unfoldable pub object_round :
      (Bytes → Result (Json N × Bytes))
      → (Bytes → Result (Members N × Bytes))
      → Bytes
      → Result (Members N × Bytes)
  object_round value more bs = do
    (key, behind) ← parse_key (skip_spaces bs)
    (v, rest) ← value (skip_spaces behind)
    after_member more key v (skip_spaces rest)

  -- `parseObject` behind the brace, the spaces skipped.
  unfoldable pub object_body :
      (Bytes → Result (Members N × Bytes)) → Bytes → Result (Json N × Bytes)
  object_body loop [] = do (ms, rest) ← loop []; ok (object ms, rest)
  object_body loop (c ∷ cs) =
      let filled = do (ms, rest) ← loop (c ∷ cs); ok (object ms, rest)
      in if c == b'}' then ok (object no_members, cs) else filled

  unfoldable pub after_element :
      (Bytes → Result (Elements N × Bytes)) → Json N → Bytes → Result (Elements N × Bytes)
  after_element more v [] = err end_in_array
  after_element more v (c ∷ cs) =
      let next = do (es, rest) ← more cs; ok (element v es, rest)
      in if c == b']'
        then ok (element v no_elements, cs)
        else if c == b','
        then next
        else err expected_array_separator

  -- One round of the loop of `parseArray`.
  unfoldable pub array_round :
      (Bytes → Result (Json N × Bytes))
      → (Bytes → Result (Elements N × Bytes))
      → Bytes
      → Result (Elements N × Bytes)
  array_round value more bs = do
    (v, rest) ← value (skip_spaces bs)
    after_element more v (skip_spaces rest)

  unfoldable pub array_body :
      (Bytes → Result (Elements N × Bytes)) → Bytes → Result (Json N × Bytes)
  array_body loop [] = do (es, rest) ← loop []; ok (array es, rest)
  array_body loop (c ∷ cs) =
      let filled = do (es, rest) ← loop (c ∷ cs); ok (array es, rest)
      in if c == b']' then ok (array no_elements, cs) else filled

module _ (D : Doubles) where
  open D use {Num, stod}

  unfoldable pub parse_number : Bytes → Result (Json Num × Bytes)
  parse_number bs =
      let (text, rest) = scan_number bs in
      elim (stod text) [ none ↦ err invalid_number | some n ↦ ok (number n, rest) ]

  -- `parseValue` behind the spaces. `obj` and `arr` go on behind the bracket.
  unfoldable pub value_case :
      (Bytes → Result (Json Num × Bytes))
      → (Bytes → Result (Json Num × Bytes))
      → Bytes
      → Result (Json Num × Bytes)
  unfolding parse_string
  value_case obj arr [] = err unexpected_end
  value_case obj arr (c ∷ cs) =
      let in_object = obj (skip_spaces cs) in
      let in_array = arr (skip_spaces cs) in
      let text = do (s, rest) ← parse_string (c ∷ cs); ok (string s, rest)
      in if c == b'{'
        then in_object
        else if c == b'['
        then in_array
        else if c == b'"'
        then text
        else if c == b't' || c == b'f'
        then parse_boolean (c ∷ cs)
        else if c == b'n'
        then parse_null (c ∷ cs)
        else if c == b'-' || is_digit c
        then parse_number (c ∷ cs)
        else err invalid_value

  -- Each round of a loop and each value costs a unit of fuel.
  unfoldable mutual
    pub parse_value : ℕ → Bytes → Result (Json Num × Bytes)
    parse_value zero bs = out_of_fuel
    parse_value (suc f) bs =
        value_case (object_body (object_loop f)) (array_body (array_loop f)) (skip_spaces bs)

    pub object_loop : ℕ → Bytes → Result (Members Num × Bytes)
    object_loop zero bs = out_of_fuel
    object_loop (suc f) bs = object_round (parse_value f) (object_loop f) bs

    pub array_loop : ℕ → Bytes → Result (Elements Num × Bytes)
    array_loop zero bs = out_of_fuel
    array_loop (suc f) bs = array_round (parse_value f) (array_loop f) bs

  -- Only spaces may follow the root.
  unfoldable pub finish : Json Num → Bytes → Result (Json Num)
  finish v [] = ok v
  finish v (c ∷ cs) = err extra_characters

  unfoldable pub parse : Bytes → Result (Json Num)
  unfolding finish
  parse bs = do
    (v, rest) ← parse_value (2 * length bs + 2) (skip_spaces bs)
    finish v (skip_spaces rest)
