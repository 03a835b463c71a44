-- ===== src/Json/Total.antt =====
-- The parser of include/protocol/Json.hpp ends on every input: the fuel that `parse` hands out is
-- never spent.
mod Scan
mod Rounds
use high_speed.Prelude.{
  ℕ, zero, suc, ◌+◌, ◌*◌, ◌≤◌, ◌<◌, ◌≡◌, ◌⊎◌, refl, Bool, true, false, ◌||◌, [], ◌∷◌, ◌++◌, arith,
  inl, inr, Bool-cases, Option-cases, ◌==◌, Option, some, none, if◌then◌else◌, length, codes, Bytes,
}
use high_speed.Json.{
  Doubles, Json, Members, Elements, object, array, string, member, element, no_members, no_elements,
}
use high_speed.Json.Parser.{
  Error, Result, ok, err, out_of_fuel, ◌>>=◌, is_digit, skip_spaces, unescape, string_loop,
  parse_string, span_digits, scan_sign, scan_fraction, scan_exponent_sign, scan_exponent,
  scan_number, strip, parse_boolean, parse_null, expect_colon, parse_key, after_member,
  object_round, object_body, after_element, array_round, array_body, parse_number, value_case,
  parse_value, object_loop, array_loop, finish, parse,
}
use Scan.{length-skip_spaces, scan_number-lt, strip-le}
use Rounds.{
  Ends, leaves, refuses, Ends-bind, Ends-if, Ends-mono, EndsBelow, string_loop-Ends,
  parse_boolean-Ends, parse_null-Ends, parse_key-Ends, object_round-Ends, array_round-Ends,
}

object_body-Ends :
    {N : Type 0} (loop : Bytes → Result (Members N × Bytes)) (bs : Bytes)
    → Ends (length bs) (loop bs)
    → Ends (length bs) (object_body loop bs)
unfolding object_body
object_body-Ends loop [] h = Ends-bind _ h λ ms rest lt. leaves lt
object_body-Ends loop (c ∷ cs) h =
    Ends-if (c == b'}') (λ _. leaves (omega arith)) (λ _. Ends-bind _ h λ ms rest lt. leaves lt)

array_body-Ends :
    {N : Type 0} (loop : Bytes → Result (Elements N × Bytes)) (bs : Bytes)
    → Ends (length bs) (loop bs)
    → Ends (length bs) (array_body loop bs)
unfolding array_body
array_body-Ends loop [] h = Ends-bind _ h λ es rest lt. leaves lt
array_body-Ends loop (c ∷ cs) h =
    Ends-if (c == b']') (λ _. leaves (omega arith)) (λ _. Ends-bind _ h λ es rest lt. leaves lt)

module _ (D : Doubles) where
  open D use {Num}

  parse_number-Ends :
      (c : ℕ) (cs : Bytes)
      → (c == b'-' || is_digit c) ≡ true
      → Ends (length (c ∷ cs)) (parse_number D (c ∷ cs))
  unfolding parse_number
  parse_number-Ends c cs h = elim (Option-cases (D.stod (scan_number (c ∷ cs)).0)) [
    | inl e ↦ rw (e, parse_number) (refuses _)
    | inr (n, e) ↦ rw (e, parse_number) (leaves (omega (arith, scan_number-lt c cs h)))
  ]

  value_case-Ends :
      (obj arr : Bytes → Result (Json Num × Bytes)) (bs : Bytes)
      → EndsBelow (length bs) obj
      → EndsBelow (length bs) arr
      → Ends (length bs) (value_case D obj arr bs)
  unfolding value_case
  value_case-Ends obj arr [] ho ha = refuses _
  value_case-Ends obj arr (c ∷ cs) ho ha =
      let skipped = length-skip_spaces cs in
      Ends-if (c == b'{') (λ _. Ends-mono (omega arith) (ho (skip_spaces cs) (omega arith)))
        (λ _.
          Ends-if (c == b'[') (λ _. Ends-mono (omega arith) (ha (skip_spaces cs) (omega arith)))
            (λ _.
              Ends-if (c == b'"') (λ _. Ends-bind _ (string_loop-Ends [] cs) λ s rest lt. leaves lt)
                (λ _.
                  Ends-if (c == b't' || c == b'f') (λ _. parse_boolean-Ends (c ∷ cs))
                    (λ _.
                      Ends-if (c == b'n') (λ _. parse_null-Ends (c ∷ cs))
                        (λ _.
                          Ends-if (c == b'-' || is_digit c) (λ h. parse_number-Ends c cs h)
                            (λ _. refuses _))))))

  -- A value costs at most two units of fuel for each byte, a loop one more.
  mutual
    unfolding parse_value object_loop array_loop

    value-Ends : (f : ℕ) (bs : Bytes) → 2 * length bs < f → Ends (length bs) (parse_value D f bs)
    value-Ends zero bs h = absurd (omega arith)
    value-Ends (suc f) bs h =
        let skipped = length-skip_spaces bs in
        Ends-mono skipped (
          value_case-Ends (object_body (object_loop D f)) (array_body (array_loop D f))
            (skip_spaces bs)
            (λ cs lt. object_body-Ends (object_loop D f) cs (object_loop-Ends f cs (omega arith)))
            (λ cs lt. array_body-Ends (array_loop D f) cs (array_loop-Ends f cs (omega arith))))

    object_loop-Ends :
        (f : ℕ) (bs : Bytes) → 2 * length bs + 1 < f → Ends (length bs) (object_loop D f bs)
    object_loop-Ends zero bs h = absurd (omega arith)
    object_loop-Ends (suc f) bs h =
        object_round-Ends (length bs) (parse_value D f) (object_loop D f) bs
          (λ cs lt. value-Ends f cs (omega arith)) (λ cs lt. object_loop-Ends f cs (omega arith))
          (omega arith)

    array_loop-Ends :
        (f : ℕ) (bs : Bytes) → 2 * length bs + 1 < f → Ends (length bs) (array_loop D f bs)
    array_loop-Ends zero bs h = absurd (omega arith)
    array_loop-Ends (suc f) bs h =
        let skipped = length-skip_spaces bs in
        array_round-Ends (length bs) (parse_value D f) (array_loop D f) bs
          (value-Ends f (skip_spaces bs) (omega arith))
          (λ cs lt. array_loop-Ends f cs (omega arith)) (omega arith)

  -- `parse` returns a tree or an error on every text.
  pub parse-total :
      (bs : Bytes) → ((v : Json Num) × (parse D bs ≡ ok v)) ⊎ ((e : Error) × (parse D bs ≡ err e))
  unfolding parse
  parse-total bs =
      go (value-Ends (2 * length bs + 2) (skip_spaces bs) (omega (arith, length-skip_spaces bs)))
    where
      go :
          {n : ℕ} {r : Result (Json Num × Bytes)}
          → Ends n r
          → let p = r >>= (λ (v, rest). finish D v (skip_spaces rest)) in
            ((v : Json Num) × (p ≡ ok v)) ⊎ ((e : Error) × (p ≡ err e))
      go (leaves {a = v} {rest} h) = last v (skip_spaces rest)
        where
          last :
              (v : Json Num) (rest : Bytes)
              → ((w : Json Num) × (finish D v rest ≡ ok w))
                ⊎ ((e : Error) × (finish D v rest ≡ err e))
          last v [] = inl (v, refl)
          last v (c ∷ cs) = inr (_, refl)
      go (refuses e) = inr (e, refl)
