-- ===== src/Json/Lenient.antt =====
-- Where include/protocol/Json.hpp takes or writes what is not JSON.
use high_speed.Prelude.{
  ℕ, suc, ◌+◌, ◌*◌, ◌≡◌, refl, ◌∙◌, false, ◌||◌, [], ◌∷◌, ◌++◌, append_assoc, append-nil, arith,
  ◌==◌, length, Bytes,
}
use high_speed.Json.{Doubles, Json, Members, object, member, string, to_string, members_text}
use high_speed.Json.Parser.{
  ok, err, expected_colon, is_space, skip_spaces, string_loop, expect_colon, parse_key,
  object_round, object_body, value_case, parse_value, object_loop, parse,
}
use high_speed.Json.Grammar.{SpellsText, plain, escaped}
use high_speed.Json.Printable.{IsPlain}
use high_speed.Json.RoundTrip.{IsPlain-SpellsText}
use high_speed.Json.Complete.Tokens.{Escape-unescape, head_is, string_loop_reads, string_loop-plain}

string_loop-unclosed :
    {s t : Bytes} (out : Bytes) → SpellsText s t → string_loop out t ≡ ok (out ++ s, [])
unfolding string_loop
string_loop-unclosed out SpellsText.nil = rw append-nil
string_loop-unclosed out (plain {c} {s} {t} q b h) =
    string_loop-plain out c t q b ∙ string_loop-unclosed (out ++ c ∷ []) h ∙ rw append_assoc
string_loop-unclosed out (escaped {c} {e} {s} {t} u h) =
    rw (Escape-unescape u) (string_loop-unclosed (out ++ c ∷ []) h ∙ rw append_assoc)

module _ (D : Doubles) where
  open D use {Num}

  -- A string without its closing quote, at the end of the text, parses as if it had one.
  pub parse-unclosed : {s t : Bytes} → SpellsText s t → parse D (b'"' ∷ t) ≡ ok (string s)
  unfolding parse parse_value value_case skip_spaces is_space
  parse-unclosed {s} {t} h =
      let fuel : 2 * length (b'"' ∷ t) + 2 ≡ suc (2 * length (b'"' ∷ t) + 1) = omega arith in
      rw (fuel, string_loop-unclosed [] h)

  -- A key is read up to its first quote.
  object_loop-broken :
      {p : Bytes} (q : Bytes) (f : ℕ) (rest : Bytes)
      → IsPlain p
      → head_is (λ c. is_space c || c == b':') (q ++ b'"' ∷ rest) ≡ false
      → object_loop D (suc f) (b'"' ∷ ((p ++ b'"' ∷ q) ++ b'"' ∷ rest)) ≡ err expected_colon
  unfolding object_loop object_round parse_key skip_spaces is_space
  object_loop-broken {p} q f rest h n = rw (
    append_assoc p (b'"' ∷ q) (b'"' ∷ rest),
    string_loop_reads [] (q ++ b'"' ∷ rest) (IsPlain-SpellsText h),
    no_colon (q ++ b'"' ∷ rest) n,
  )
    where
      no_colon :
          (bs : Bytes)
          → head_is (λ c. is_space c || c == b':') bs ≡ false
          → expect_colon (skip_spaces bs) ≡ err expected_colon
      no_colon [] e = refl
      no_colon (c ∷ cs) e = ground arith

  parse-broken :
      {p : Bytes} (q rest : Bytes)
      → IsPlain p
      → head_is (λ c. is_space c || c == b':') (q ++ b'"' ∷ rest) ≡ false
      → parse D (b'{' ∷ b'"' ∷ ((p ++ b'"' ∷ q) ++ b'"' ∷ rest)) ≡ err expected_colon
  unfolding parse parse_value value_case object_body skip_spaces is_space
  parse-broken {p} q rest h n =
      let n_bytes = length (b'"' ∷ ((p ++ b'"' ∷ q) ++ b'"' ∷ rest)) in
      let fuel : 2 * suc n_bytes + 2 ≡ suc (suc (2 * n_bytes + 2)) = omega arith in
      rw (fuel, object_loop-broken q (2 * n_bytes + 2) rest h n)

  -- `toString` writes keys without escapes: an object whose first key has a quote in it, with
  -- neither a space nor a colon next, prints as a text that `parse` refuses.
  pub parse-quote_in_key :
      {p : Bytes} (q : Bytes) (v : Json Num) (ms : Members Num)
      → IsPlain p
      → head_is (λ c. is_space c || c == b':') q ≡ false
      → parse D (to_string D (object (member (p ++ b'"' ∷ q) v ms))) ≡ err expected_colon
  unfolding to_string
  parse-quote_in_key {p} q v ms h n =
      parse-broken q (b':' ∷ (to_string D v ++ members_text D false ms)) h (next_byte q _ n)
    where
      next_byte :
          (q rest : Bytes)
          → head_is (λ c. is_space c || c == b':') q ≡ false
          → head_is (λ c. is_space c || c == b':') (q ++ b'"' ∷ rest) ≡ false
      next_byte [] rest e = unfold is_space in refl
      next_byte (c ∷ cs) rest e = e
