-- ===== src/Http/RoundTrip.antt =====
-- `parse_from_string` of include/protocol/Http.hpp on what `serialize_to_string` writes.
use high_speed.Prelude.{
  ℕ, suc, ◌+◌, ◌-◌, ◌%◌, ◌^◌, ◌<◌, ◌≡◌, refl, sym, ap, ◌∙◌, subst, true, List, [], ◌∷◌, ◌++◌, map,
  append_assoc, append-nil, some, arith, length, length-append, take, drop, take-length,
  drop-length, Bytes, is_space,
}
use high_speed.Http.{
  HttpMethod, HttpVersion, HttpMessage, get, post, put, delete, head, options, trace, connect,
  patch, http_1_0, http_1_1, http_2_0, method_to_str, version_to_str, start_line,
  serialize_to_string, line_sep, blank_line, find, header_lines, get_lines, add_lines, next_word,
  parse_start_line, parse_headers, parse_from_string,
}
use high_speed.Http.Find.{lacks, lacks-append, find-line_sep, find-blank_line}
use high_speed.Http.Lines.{
  parse_method-method_to_str, known_version, parse_version-version_to_str, no_spaces, is_word,
  next_word-word, next_word-end, next_word-space, next_word-skip,
}
use high_speed.Http.Headers.{
  are_headers, header_line, join, are_lines, header_lines-are_lines, header_lines-join,
  starts_with-join, find-join, add_lines-join, add_lines-header_lines,
}

method-is_word : (m : HttpMethod) → is_word (method_to_str m) ≡ true
unfolding method_to_str is_space
method-is_word get = refl
method-is_word post = refl
method-is_word put = refl
method-is_word delete = refl
method-is_word head = refl
method-is_word options = refl
method-is_word trace = refl
method-is_word connect = refl
method-is_word patch = refl
method-is_word HttpMethod.unknown = refl

version-is_word : (v : HttpVersion) → is_word (version_to_str v) ≡ true
unfolding version_to_str is_space
version-is_word http_1_0 = refl
version-is_word http_1_1 = refl
version-is_word http_2_0 = refl
version-is_word HttpVersion.unknown = refl

no_spaces-lacks : (cs : Bytes) → no_spaces cs ≡ true → lacks b'\r' cs ≡ true
unfolding is_space
no_spaces-lacks [] h = refl
no_spaces-lacks (c ∷ cs) h = ground (arith, no_spaces-lacks cs)

is_word-lacks : (cs : Bytes) → is_word cs ≡ true → lacks b'\r' cs ≡ true
unfolding is_space
is_word-lacks [] h = refl
is_word-lacks (c ∷ cs) h = ground (arith, no_spaces-lacks cs)

pub start_line-lacks : (m : HttpMessage) → is_word m.url ≡ true → lacks b'\r' (start_line m) ≡ true
unfolding start_line
start_line-lacks m h =
    lacks-append b'\r' (method_to_str m.method)
      (b' ' ∷ (m.url ++ (b' ' ∷ version_to_str m.version)))
      (is_word-lacks (method_to_str m.method) (method-is_word m.method))
      (lacks-append b'\r' m.url (b' ' ∷ version_to_str m.version) (is_word-lacks m.url h)
        (is_word-lacks (version_to_str m.version) (version-is_word m.version)))

next_word-version : (v : HttpVersion) → next_word true (version_to_str v) ≡ (version_to_str v, [])
next_word-version v =
    ap (next_word true) (sym (append-nil (version_to_str v)))
    ∙ next_word-word (version_to_str v) [] (version-is_word v) next_word-end

-- The three words of the start line are read back.
pub parse_start_line-start_line :
    (m m0 : HttpMessage)
    → is_word m.url ≡ true
    → parse_start_line (start_line m) m0
      ≡ record m0 { method = m.method; version = known_version m.version; url = m.url }
unfolding parse_start_line start_line
parse_start_line-start_line m m0 h =
    rw
      (
        next_word-word (method_to_str m.method)
            (b' ' ∷ (m.url ++ (b' ' ∷ version_to_str m.version))) (method-is_word m.method)
            (next_word-space (m.url ++ (b' ' ∷ version_to_str m.version))),
        next_word-skip (m.url ++ (b' ' ∷ version_to_str m.version)),
        next_word-word m.url (b' ' ∷ version_to_str m.version) h
            (next_word-space (version_to_str m.version)),
        next_word-skip (version_to_str m.version),
        next_word-version m.version,
        parse_method-method_to_str m.method,
        parse_version-version_to_str m.version,
      )
      refl

pub parse_from_string-found :
    (d : Bytes) (p q : ℕ) (m : HttpMessage)
    → find line_sep d ≡ some p
    → find blank_line d ≡ some q
    → parse_from_string d m ≡ (true, parse_headers p q d (parse_start_line (take p d) m))
unfolding parse_from_string
parse_from_string-found d p q m e f = rw (parse_from_string, e, f) refl

headers_part :
    (start block rest : Bytes)
    → length block < 2 ^ 64
    → take
        ((length start + (2 + length block) + 2 ^ 64 - (length start + 2)) % 2 ^ 64)
        (drop (length start + 2) (start ++ (line_sep ++ (block ++ rest))))
      ≡ block
headers_part start block rest n =
    ap (take ((length start + (2 + length block) + 2 ^ 64 - (length start + 2)) % 2 ^ 64))
      (drop-length 2 start (line_sep ++ (block ++ rest)))
    ∙ ap (λ k. take k (block ++ rest)) (omega arith)
    ∙ take-length block rest

body_part :
    (start block body : Bytes)
    → drop
        (length start + (2 + length block) + 4)
        (start ++ (line_sep ++ (block ++ (blank_line ++ body))))
      ≡ body
body_part start block body =
    ap (λ k. drop k (start ++ (line_sep ++ (block ++ (blank_line ++ body))))) (omega arith)
    ∙ drop-length (suc (suc (length block + 4))) start (line_sep ++ (block ++ (blank_line ++ body)))
    ∙ drop-length 4 block (blank_line ++ body)

parse_headers-parts :
    (start block body : Bytes) (m : HttpMessage)
    → length block < 2 ^ 64
    → parse_headers
        (length start)
        (length start + (2 + length block))
        (start ++ (line_sep ++ (block ++ (blank_line ++ body))))
        m
      ≡ record m { headers = add_lines (get_lines [] block) []; body = body }
unfolding parse_headers
parse_headers-parts start block body m n = λ i. record m {
  headers = add_lines (get_lines [] (headers_part start block (blank_line ++ body) n i)) [];
  body = body_part start block body i;
}

small_block :
    (start block body : Bytes)
    → length (start ++ (line_sep ++ (block ++ (blank_line ++ body)))) < 2 ^ 64
    → length block < 2 ^ 64
small_block start block body n = omega (
  arith,
  length-append {0} start (line_sep ++ (block ++ (blank_line ++ body))),
  length-append {0} block (blank_line ++ body),
)

-- A text of a start line, lines of headers and a body is taken apart.
parse_from_string-parts :
    (start l body : Bytes) (ls : List Bytes) (m : HttpMessage)
    → lacks b'\r' start ≡ true
    → are_lines l ls ≡ true
    → length (start ++ (line_sep ++ (join l ls ++ (blank_line ++ body)))) < 2 ^ 64
    → parse_from_string (start ++ (line_sep ++ (join l ls ++ (blank_line ++ body)))) m
      ≡ (true, record (parse_start_line start m) { headers = add_lines (l ∷ ls) []; body = body })
parse_from_string-parts start l body ls m h k n =
    parse_from_string-found (start ++ (line_sep ++ (join l ls ++ (blank_line ++ body))))
      (length start) (length start + (2 + length (join l ls))) m
      (find-line_sep start (join l ls ++ (blank_line ++ body)) h)
      (find-blank_line start (join l ls ++ (blank_line ++ body)) (length (join l ls)) h
        (starts_with-join l ls (blank_line ++ body) k) (find-join l ls body k))
    ∙ ap (λ r. (true, r))
        (rw (take-length start (line_sep ++ (join l ls ++ (blank_line ++ body)))) (
          parse_headers-parts start (join l ls) body (parse_start_line start m)
            (small_block start (join l ls) body n)
          ∙ rw (add_lines-join l ls [] k) refl))

pub serialize_to_string-parts :
    (m : HttpMessage) (h : Bytes × Bytes) (hs : List (Bytes × Bytes))
    → m.headers ≡ h ∷ hs
    → serialize_to_string m
      ≡ start_line m
        ++ (line_sep ++ (join (header_line h) (map header_line hs) ++ (blank_line ++ m.body)))
unfolding serialize_to_string
serialize_to_string-parts m h hs e =
    ap (λ t. start_line m ++ (line_sep ++ (t ++ (line_sep ++ m.body))))
      (ap header_lines e ∙ header_lines-join h hs)
    ∙ ap (λ t. start_line m ++ (line_sep ++ t))
        (append_assoc (join (header_line h) (map header_line hs)) line_sep (line_sep ++ m.body))

-- A message that is written and read again, into any message, is the same message, but for an unknown
-- version, which becomes 1.1. The message has headers; their keys differ, have no colon and no line
-- end; their values have no line end and do not start with a space; the URL is one word; and the
-- text is shorter than 2^64 bytes.
pub parse_from_string-serialize_to_string :
    (m m0 : HttpMessage) (h : Bytes × Bytes) (hs : List (Bytes × Bytes))
    → m.headers ≡ h ∷ hs
    → are_headers [] m.headers ≡ true
    → is_word m.url ≡ true
    → length (serialize_to_string m) < 2 ^ 64
    → parse_from_string (serialize_to_string m) m0
      ≡ (true, record m { version = known_version m.version })
parse_from_string-serialize_to_string m m0 h hs e good word small =
    rw (serialize_to_string-parts m h hs e) (
      parse_from_string-parts (start_line m) (header_line h) m.body (map header_line hs) m0
        (start_line-lacks m word)
        (header_lines-are_lines h hs [] (ap (are_headers []) (sym e) ∙ good))
        (subst (λ t. length t < 2 ^ 64) (serialize_to_string-parts m h hs e) small)
      ∙ rw
          (
            parse_start_line-start_line m m0 word,
            add_lines-header_lines (h ∷ hs) [] (ap (are_headers []) (sym e) ∙ good),
          )
          (λ i. (true, record m { version = known_version m.version; headers = sym e i })))
