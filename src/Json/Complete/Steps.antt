-- ===== src/Json/Complete/Steps.antt =====
-- One value, or one round of a loop, of include/protocol/Json.hpp on a text of the grammar, from
-- what the calls in it return.
use high_speed.Prelude.{
  ◌==◌, ℕ, suc, ◌≡◌, refl, ap, ◌∙◌, true, some, false, [], ◌∷◌, ◌++◌, append_assoc, codes, Bytes,
}
use high_speed.Json.{
  Doubles, Json, Members, Elements, object, array, string, number, boolean, null, no_members,
  member, no_elements, element,
}
use high_speed.Json.Parser.{
  ok, is_space, skip_spaces, strip, parse_boolean, parse_null, after_member, object_round,
  object_body, after_element, array_round, array_body, value_case, parse_value, object_loop,
  array_loop,
}
use high_speed.Json.Grammar.{
  AllSpace, SpellsText, IsNumberText, Spells, SpellsMembers, a_member, EndsMembers, SpellsElements,
  an_element, EndsElements,
}
use high_speed.Json.Complete.Tokens.{skip_spaces-append, string_loop_reads, head_is, is_number_byte}
use high_speed.Json.Complete.Rounds.{
  Spells-Starts, skip_spaces-Starts, EndsMembers-skip, EndsElements-skip, parse_key_reads,
  object_body_reads, array_body_reads, value_case-number, object_loop-skip, array_loop-skip,
}

module _ (D : Doubles) where
  open D use {Num}

  -- The text of members begins, behind spaces, with a quote.
  pub SpellsMembers-quote :
      {ms : Members Num} {t : Bytes} (rest : Bytes)
      → SpellsMembers D ms t
      → (q : Bytes) × (skip_spaces (t ++ rest) ≡ b'"' ∷ q)
  unfolding skip_spaces is_space
  SpellsMembers-quote rest (a_member {key = key} {text} {a} {b} {c} {d} {tail} sa _ _ _ _ _ _) =
      let behind = key ++ b'"' ∷ (b ++ b':' ∷ (c ++ (text ++ (d ++ tail)))) in
      (
        behind ++ rest,
        rw (append_assoc a (b'"' ∷ behind) rest) (skip_spaces-append (b'"' ∷ (behind ++ rest)) sa),
      )

  -- The text of elements begins, behind spaces, with no bracket.
  pub SpellsElements-start :
      {es : Elements Num} {t : Bytes} (rest : Bytes)
      → SpellsElements D es t
      → (c : ℕ) × (q : Bytes) × (skip_spaces (t ++ rest) ≡ c ∷ q) × ((c == b']') ≡ false)
  SpellsElements-start rest (an_element {text} {a} {d} {tail} sa v sd e) =
      let s = Spells-Starts D v in
      (
        s.first,
        s.behind ++ ((d ++ tail) ++ rest),
        rw (append_assoc a (text ++ (d ++ tail)) rest, append_assoc text (d ++ tail) rest)
            (skip_spaces-append (text ++ ((d ++ tail) ++ rest)) sa
              ∙ skip_spaces-Starts ((d ++ tail) ++ rest) s
              ∙ ap (λ front. front ++ ((d ++ tail) ++ rest)) s.splits),
        s.no_bracket,
      )

  -- One value or one round, from what the calls in it return.
  pub string_value :
      {s t : Bytes} (f : ℕ) (rest : Bytes)
      → SpellsText s t
      → parse_value D (suc f) ((b'"' ∷ (t ++ b'"' ∷ [])) ++ rest) ≡ ok (string s, rest)
  unfolding parse_value value_case skip_spaces is_space
  string_value {s} {t} f rest h = rw (append_assoc t (b'"' ∷ []) rest, string_loop_reads [] rest h)

  pub true_value :
      (f : ℕ) (rest : Bytes)
      → parse_value D (suc f) (codes "true" ++ rest) ≡ ok (boolean true, rest)
  unfolding parse_value value_case skip_spaces is_space parse_boolean strip
  true_value f rest = refl

  pub false_value :
      (f : ℕ) (rest : Bytes)
      → parse_value D (suc f) (codes "false" ++ rest) ≡ ok (boolean false, rest)
  unfolding parse_value value_case skip_spaces is_space parse_boolean strip
  false_value f rest = refl

  pub null_value :
      (f : ℕ) (rest : Bytes) → parse_value D (suc f) (codes "null" ++ rest) ≡ ok (null, rest)
  unfolding parse_value value_case skip_spaces is_space parse_null strip
  null_value f rest = refl

  pub number_value :
      {n : Num} {t : Bytes} (f : ℕ) (rest : Bytes)
      → Spells D (number n) t
      → IsNumberText t
      → D.stod t ≡ some n
      → head_is is_number_byte rest ≡ false
      → parse_value D (suc f) (t ++ rest) ≡ ok (number n, rest)
  unfolding parse_value
  number_value f rest x h e stop =
      rw (skip_spaces-Starts rest (Spells-Starts D x)) (value_case-number D _ _ rest h e stop)

  pub empty_object_value :
      {w : Bytes} (f : ℕ) (rest : Bytes)
      → AllSpace w
      → parse_value D (suc f) ((b'{' ∷ (w ++ b'}' ∷ [])) ++ rest) ≡ ok (object no_members, rest)
  unfolding parse_value value_case object_body skip_spaces is_space
  empty_object_value {w} f rest h =
      rw (append_assoc w (b'}' ∷ []) rest, skip_spaces-append (b'}' ∷ rest) h)

  pub empty_array_value :
      {w : Bytes} (f : ℕ) (rest : Bytes)
      → AllSpace w
      → parse_value D (suc f) ((b'[' ∷ (w ++ b']' ∷ [])) ++ rest) ≡ ok (array no_elements, rest)
  unfolding parse_value value_case array_body skip_spaces is_space
  empty_array_value {w} f rest h =
      rw (append_assoc w (b']' ∷ []) rest, skip_spaces-append (b']' ∷ rest) h)

  pub object_value :
      {ms : Members Num} {t : Bytes} (f : ℕ) (rest : Bytes)
      → SpellsMembers D ms t
      → object_loop D f (t ++ rest) ≡ ok (ms, rest)
      → parse_value D (suc f) ((b'{' ∷ t) ++ rest) ≡ ok (object ms, rest)
  unfolding parse_value value_case skip_spaces is_space
  object_value {ms} {t} f rest m e =
      object_body_reads (object_loop D f) rest (SpellsMembers-quote rest m).1
        (object_loop-skip D f (t ++ rest) ∙ e)

  pub array_value :
      {es : Elements Num} {t : Bytes} (f : ℕ) (rest : Bytes)
      → SpellsElements D es t
      → array_loop D f (t ++ rest) ≡ ok (es, rest)
      → parse_value D (suc f) ((b'[' ∷ t) ++ rest) ≡ ok (array es, rest)
  unfolding parse_value value_case skip_spaces is_space
  array_value {es} {t} f rest m e =
      let (c, q, s, n) = SpellsElements-start rest m in
      array_body_reads (array_loop D f) rest s n (array_loop-skip D f (t ++ rest) ∙ e)

  pub member_round :
      {k key text a b c d tail : Bytes} {v : Json Num} {ms : Members Num} (f : ℕ) (rest : Bytes)
      → AllSpace a
      → SpellsText k key
      → AllSpace b
      → AllSpace c
      → Spells D v text
      → AllSpace d
      → EndsMembers D ms tail
      → parse_value D f (text ++ (d ++ (tail ++ rest))) ≡ ok (v, d ++ (tail ++ rest))
      → after_member (object_loop D f) k v (tail ++ rest) ≡ ok (member k v ms, rest)
      → object_loop D
          (suc f)
          (a ++ b'"' ∷ (key ++ b'"' ∷ (b ++ b':' ∷ (c ++ (text ++ (d ++ (tail ++ rest)))))))
        ≡ ok (member k v ms, rest)
  unfolding object_loop object_round
  member_round {text = text} {c = c} {d = d} {tail = tail} f rest sa s sb sc x sd e value end =
      let behind = text ++ (d ++ (tail ++ rest)) in
      rw (
        parse_key_reads (c ++ behind) sa s sb,
        skip_spaces-append behind sc,
        skip_spaces-Starts (d ++ (tail ++ rest)) (Spells-Starts D x),
        value,
        skip_spaces-append (tail ++ rest) sd,
        EndsMembers-skip D rest e,
        end,
      )

  pub element_round :
      {text a d tail : Bytes} {v : Json Num} {es : Elements Num} (f : ℕ) (rest : Bytes)
      → AllSpace a
      → Spells D v text
      → AllSpace d
      → EndsElements D es tail
      → parse_value D f (text ++ (d ++ (tail ++ rest))) ≡ ok (v, d ++ (tail ++ rest))
      → after_element (array_loop D f) v (tail ++ rest) ≡ ok (element v es, rest)
      → array_loop D (suc f) (a ++ (text ++ (d ++ (tail ++ rest)))) ≡ ok (element v es, rest)
  unfolding array_loop array_round
  element_round {text} {d = d} {tail = tail} f rest sa x sd e value end = rw (
    skip_spaces-append (text ++ (d ++ (tail ++ rest))) sa,
    skip_spaces-Starts (d ++ (tail ++ rest)) (Spells-Starts D x),
    value,
    skip_spaces-append (tail ++ rest) sd,
    EndsElements-skip D rest e,
    end,
  )
