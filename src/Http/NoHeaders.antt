-- ===== src/Http/NoHeaders.antt =====
-- `parse_from_string` of include/protocol/Http.hpp where a part of the message is missing.
use high_speed.Prelude.{
  ◌+◌, ◌-◌, ◌%◌, ◌^◌, ◌<◌, ◌≡◌, refl, ap, ◌∙◌, subst, true, false, [], ◌++◌, arith, ◌⊎◌, inl, inr,
  Option-cases, length, length-append, take, drop, take-length, take_all, drop-length, Bytes,
}
use high_speed.Http.{
  HttpMessage, start_line, serialize_to_string, line_sep, blank_line, find, header_lines, get_lines,
  add_line, add_lines, parse_start_line, parse_headers, parse_from_string, pop_return, split_colon,
}
use high_speed.Http.Find.{find-line_sep, find-blank_line_here}
use high_speed.Http.Lines.{known_version, is_word}
use high_speed.Http.RoundTrip.{
  start_line-lacks, parse_from_string-found, parse_start_line-start_line,
}

-- The length `header_end - header_start` is 2^64 - 2.
wrapped_part :
    (start body : Bytes)
    → length (start ++ (blank_line ++ body)) < 2 ^ 64
    → take
        ((length start + 2 ^ 64 - (length start + 2)) % 2 ^ 64)
        (drop (length start + 2) (start ++ (blank_line ++ body)))
      ≡ line_sep ++ body
wrapped_part start body n =
    ap (take ((length start + 2 ^ 64 - (length start + 2)) % 2 ^ 64))
      (drop-length 2 start (blank_line ++ body))
    ∙ take_all ((length start + 2 ^ 64 - (length start + 2)) % 2 ^ 64) (line_sep ++ body)
        (omega (arith, length-append {0} start (blank_line ++ body)))

first_line :
    (body : Bytes)
    → add_lines (get_lines [] (line_sep ++ body)) [] ≡ add_lines (get_lines [] body) []
unfolding add_lines get_lines add_line pop_return split_colon
first_line body = refl

parse_headers-wrapped :
    (start body : Bytes) (m : HttpMessage)
    → length (start ++ (blank_line ++ body)) < 2 ^ 64
    → parse_headers (length start) (length start) (start ++ (blank_line ++ body)) m
      ≡ record m { headers = add_lines (get_lines [] body) []; body = body }
unfolding parse_headers
parse_headers-wrapped start body m n = λ i. record m {
  headers =
      (ap (λ t. add_lines (get_lines [] t) []) (wrapped_part start body n) ∙ first_line body) i;
  body = drop-length 4 start (blank_line ++ body) i;
}

-- A message without headers, whose URL is one word, is written and read again, into any message:
-- the call succeeds, and the headers read are those that the lines of the body spell.
pub parse_from_string_no_headers :
    (m m0 : HttpMessage)
    → m.headers ≡ []
    → is_word m.url ≡ true
    → length (serialize_to_string m) < 2 ^ 64
    → parse_from_string (serialize_to_string m) m0 ≡ (
      true,
      record m { version = known_version m.version; headers = add_lines (get_lines [] m.body) [] },
    )
unfolding serialize_to_string header_lines
parse_from_string_no_headers m m0 e word small =
    let text : Bytes = start_line m ++ (blank_line ++ m.body) in
    let written : serialize_to_string m ≡ text =
      ap (λ hs. start_line m ++ (line_sep ++ (header_lines hs ++ (line_sep ++ m.body)))) e in
    let lacking = start_line-lacks m word in
    rw written (
      parse_from_string-found text (length (start_line m)) (length (start_line m)) m0
        (find-line_sep (start_line m) (line_sep ++ m.body) lacking)
        (find-blank_line_here (start_line m) m.body lacking)
      ∙ rw
          (
            take-length (start_line m) (blank_line ++ m.body),
            parse_start_line-start_line m m0 word,
            parse_headers-wrapped (start_line m) m.body
                (record m0 { method = m.method; version = known_version m.version; url = m.url })
                (subst (λ t. length t < 2 ^ 64) written small),
          )
          refl)

-- The outcome of a call: it is true, and the message is the same whatever message stood there before;
-- or it is false, and the headers and the body stand as before.
pub parse_from_string_replaces :
    (d : Bytes) (m m0 : HttpMessage)
    → (((parse_from_string d m).0 ≡ true) × (parse_from_string d m ≡ parse_from_string d m0))
      ⊎ (((parse_from_string d m).0 ≡ false)
          × ((parse_from_string d m).1.headers ≡ m.headers)
          × ((parse_from_string d m).1.body ≡ m.body))
unfolding parse_from_string parse_headers parse_start_line
parse_from_string_replaces d m m0 = elim (Option-cases (find line_sep d)) [
  | inl e ↦ rw (parse_from_string, e) (inr (refl, refl, refl))
  | inr (p, e) ↦ elim (Option-cases (find blank_line d)) [
    | inl f ↦ rw (parse_from_string, e, f) (inr (refl, refl, refl))
    | inr (q, f) ↦ rw (parse_from_string, e, f) (inl (refl, refl))
  ]
]
