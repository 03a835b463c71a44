-- ===== src/Json/Complete/Rounds.antt =====
-- One step of each loop of include/protocol/Json.hpp on a text of the grammar, the calls that it
-- makes given as functions with what they return.
use high_speed.Prelude.{
  ℕ, zero, suc, ◌≡◌, refl, ◌∙◌, true, false, ◌||◌, [], ◌∷◌, ◌++◌, arith, ◌==◌, some, Bytes,
}
use high_speed.Json.{Doubles, Json, Members, Elements, object, array, number}
use high_speed.Json.Parser.{
  Result, ok, is_space, is_digit, skip_spaces, parse_key, object_round, object_body, array_round,
  array_body, parse_number, value_case, object_loop, array_loop,
}
use high_speed.Json.Grammar.{
  AllSpace, SpellsText, IsNumberText, IsSign, minus, number_text, Spells, a_string, a_number,
  EndsMembers, end_members, more_members, EndsElements, end_elements, more_elements,
}
use high_speed.Json.Complete.Tokens.{
  skip_spaces-append, skip_spaces_idem, string_loop_reads, head_is, is_number_byte,
  scan_number_reads,
}

-- The first byte of a value.
pub record Starts (t : Bytes) : Type 0 where
  pub first : ℕ
  pub behind : Bytes
  pub splits : t ≡ first ∷ behind
  pub no_space : is_space first ≡ false
  pub no_bracket : (first == b']') ≡ false

-- The first byte of a number.
pub IsNumberText-head :
    {t : Bytes}
    → IsNumberText t
    → (c : ℕ) × (q : Bytes) × (t ≡ c ∷ q) × ((c == b'-' || is_digit c) ≡ true)
unfolding is_digit
IsNumberText-head
      (number_text d {ds = ds} {fraction = fraction} {exponent = exponent} IsSign.unsigned h _ _
        _) =
    (d, ds ++ (fraction ++ exponent), refl, ground arith)
IsNumberText-head
      (number_text d {ds = ds} {fraction = fraction} {exponent = exponent} minus h _ _ _) =
    (b'-', (d ∷ ds) ++ (fraction ++ exponent), refl, refl)

number-start :
    (c : ℕ) → (c == b'-' || is_digit c) ≡ true → (is_space c ≡ false) × ((c == b']') ≡ false)
unfolding is_space is_digit
number-start c h = (ground arith, ground arith)

module _ (D : Doubles) where
  open D use {Num, stod}

  pub Spells-Starts : {v : Json Num} {t : Bytes} → Spells D v t → Starts t
  unfolding is_space
  Spells-Starts (a_number n e) =
      let (c, q, s, h) = IsNumberText-head n in
      record {
        first = c;
        behind = q;
        splits = s;
        no_space = (number-start c h).0;
        no_bracket = (number-start c h).1;
      }
  Spells-Starts (a_string {t = t} s) = record {
    first = b'"';
    behind = t ++ b'"' ∷ [];
    splits = refl;
    no_space = refl;
    no_bracket = refl;
  }
  Spells-Starts _ = record {
    first = _;
    behind = _;
    splits = refl;
    no_space = refl;
    no_bracket = refl;
  }

pub skip_spaces-Starts : {t : Bytes} (rest : Bytes) → Starts t → skip_spaces (t ++ rest) ≡ t ++ rest
unfolding skip_spaces
skip_spaces-Starts rest s = rw (s.splits, s.no_space)

module _ (D : Doubles) where
  open D use {Num, stod}

  pub EndsMembers-skip :
      {ms : Members Num} {t : Bytes} (rest : Bytes)
      → EndsMembers D ms t
      → skip_spaces (t ++ rest) ≡ t ++ rest
  unfolding skip_spaces is_space
  EndsMembers-skip rest end_members = refl
  EndsMembers-skip rest (more_members m) = refl

  pub EndsElements-skip :
      {es : Elements Num} {t : Bytes} (rest : Bytes)
      → EndsElements D es t
      → skip_spaces (t ++ rest) ≡ t ++ rest
  unfolding skip_spaces is_space
  EndsElements-skip rest end_elements = refl
  EndsElements-skip rest (more_elements m) = refl

  -- What stands behind a value stops a number.
  pub Members-stop :
      {ms : Members Num} {d t : Bytes} (rest : Bytes)
      → AllSpace d
      → EndsMembers D ms t
      → head_is is_number_byte (d ++ (t ++ rest)) ≡ false
  unfolding is_space is_number_byte
  Members-stop rest AllSpace.nil end_members = refl
  Members-stop rest AllSpace.nil (more_members m) = refl
  Members-stop rest (AllSpace.cons h s) e = ground arith

  pub Elements-stop :
      {es : Elements Num} {d t : Bytes} (rest : Bytes)
      → AllSpace d
      → EndsElements D es t
      → head_is is_number_byte (d ++ (t ++ rest)) ≡ false
  unfolding is_space is_number_byte
  Elements-stop rest AllSpace.nil end_elements = refl
  Elements-stop rest AllSpace.nil (more_elements m) = refl
  Elements-stop rest (AllSpace.cons h s) e = ground arith

pub parse_key_reads :
    {k key a b : Bytes} (rest : Bytes)
    → AllSpace a
    → SpellsText k key
    → AllSpace b
    → parse_key (skip_spaces (a ++ b'"' ∷ (key ++ b'"' ∷ (b ++ b':' ∷ rest)))) ≡ ok (k, rest)
unfolding parse_key skip_spaces is_space
parse_key_reads {k} {key} {a} {b} rest sa s sb = rw (
  skip_spaces-append (b'"' ∷ (key ++ b'"' ∷ (b ++ b':' ∷ rest))) sa,
  string_loop_reads [] (b ++ b':' ∷ rest) s,
  skip_spaces-append (b':' ∷ rest) sb,
)

module _ {N : Type 0} where
  -- The loop of an object sees its first key at once.
  pub object_body_reads :
      {ms : Members N} {bs q : Bytes} (loop : Bytes → Result (Members N × Bytes)) (rest : Bytes)
      → bs ≡ b'"' ∷ q
      → loop bs ≡ ok (ms, rest)
      → object_body loop bs ≡ ok (object ms, rest)
  unfolding object_body
  object_body_reads loop rest e l = rw (e, object_body) (rw (rw e at l))

  pub array_body_reads :
      {es : Elements N} {c : ℕ} {bs q : Bytes} (loop : Bytes → Result (Elements N × Bytes))
      (rest : Bytes)
      → bs ≡ c ∷ q
      → (c == b']') ≡ false
      → loop bs ≡ ok (es, rest)
      → array_body loop bs ≡ ok (array es, rest)
  unfolding array_body
  array_body_reads loop rest e n l = rw (e, array_body, n) (rw (rw e at l))

module _ (D : Doubles) where
  open D use {Num, stod}

  value_case-dispatch :
      (obj arr : Bytes → Result (Json Num × Bytes)) (c : ℕ) (cs : Bytes)
      → (c == b'-' || is_digit c) ≡ true
      → value_case D obj arr (c ∷ cs) ≡ parse_number D (c ∷ cs)
  unfolding value_case is_digit
  value_case-dispatch obj arr c cs start = ground arith

  pub value_case-number :
      (obj arr : Bytes → Result (Json Num × Bytes)) {t : Bytes} {n : Num} (rest : Bytes)
      → IsNumberText t
      → stod t ≡ some n
      → head_is is_number_byte rest ≡ false
      → value_case D obj arr (t ++ rest) ≡ ok (number n, rest)
  unfolding parse_number
  value_case-number obj arr {t} rest h e s =
      let (c, q, split, start) = IsNumberText-head h in
      let dispatch : value_case D obj arr (t ++ rest) ≡ parse_number D (t ++ rest) =
        rw split (value_case-dispatch obj arr c (q ++ rest) start) in
      let scanned = scan_number_reads rest h s in dispatch ∙ rw (parse_number, scanned, e, scanned)

  pub object_loop-skip :
      (f : ℕ) (bs : Bytes) → object_loop D f (skip_spaces bs) ≡ object_loop D f bs
  unfolding object_loop object_round
  object_loop-skip zero bs = refl
  object_loop-skip (suc f) bs = rw (skip_spaces_idem bs)

  pub array_loop-skip : (f : ℕ) (bs : Bytes) → array_loop D f (skip_spaces bs) ≡ array_loop D f bs
  unfolding array_loop array_round
  array_loop-skip zero bs = refl
  array_loop-skip (suc f) bs = rw (skip_spaces_idem bs)
