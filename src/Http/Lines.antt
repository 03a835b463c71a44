-- ===== src/Http/Lines.antt =====
-- How the pieces of `parse_from_string` of include/protocol/Http.hpp read what `serialize_to_string` writes.
use high_speed.Prelude.{
  ◌≡◌, refl, ◌∙◌, Bool, true, false, not, ◌&&◌, [], ◌∷◌, ◌++◌, append_assoc, append-nil, some,
  arith, ◌==◌, Bool-cases, inl, inr, Bytes, is_space, bytes_eq,
}
use high_speed.Http.{
  HttpMethod, HttpVersion, get, post, put, delete, head, options, trace, connect, patch, http_1_0,
  http_1_1, http_2_0, method_to_str, parse_method, version_to_str, parse_version, next_word,
  get_lines, pop_return, skip_blanks, split_colon,
}
use high_speed.Http.Find.{lacks}

pub parse_method-method_to_str : (m : HttpMethod) → parse_method (method_to_str m) ≡ m
unfolding parse_method method_to_str bytes_eq
parse_method-method_to_str get = refl
parse_method-method_to_str post = refl
parse_method-method_to_str put = refl
parse_method-method_to_str delete = refl
parse_method-method_to_str head = refl
parse_method-method_to_str options = refl
parse_method-method_to_str trace = refl
parse_method-method_to_str connect = refl
parse_method-method_to_str patch = refl
parse_method-method_to_str HttpMethod.unknown = refl

-- Only the unknown version is printed as another.
abbrev pub known_version : HttpVersion → HttpVersion
known_version HttpVersion.unknown = http_1_1
known_version http_1_0 = http_1_0
known_version http_1_1 = http_1_1
known_version http_2_0 = http_2_0

pub parse_version-version_to_str :
    (v : HttpVersion) → parse_version (version_to_str v) ≡ known_version v
unfolding parse_version version_to_str bytes_eq
parse_version-version_to_str http_1_0 = refl
parse_version-version_to_str http_1_1 = refl
parse_version-version_to_str http_2_0 = refl
parse_version-version_to_str HttpVersion.unknown = refl

-- No byte of the text is a space.
abbrev pub no_spaces : Bytes → Bool
no_spaces [] = true
no_spaces (c ∷ cs) = not (is_space c) && no_spaces cs

-- A word: not empty, without spaces.
abbrev pub is_word : Bytes → Bool
is_word [] = false
is_word (c ∷ cs) = not (is_space c) && no_spaces cs

next_word-in_word :
    (word tail : Bytes)
    → no_spaces word ≡ true
    → next_word false tail ≡ ([], tail)
    → next_word false (word ++ tail) ≡ (word, tail)
unfolding next_word
next_word-in_word [] tail h e = e
next_word-in_word (c ∷ cs) tail h e = elim (Bool-cases (is_space c)) [
  | inl s ↦ absurd (ground arith)
  | inr s ↦ rw (s, next_word-in_word cs tail (ground arith) e) refl
]

-- `operator>>` reads a word up to a space or the end.
pub next_word-word :
    (word tail : Bytes)
    → is_word word ≡ true
    → next_word false tail ≡ ([], tail)
    → next_word true (word ++ tail) ≡ (word, tail)
unfolding next_word
next_word-word [] tail h e = cc
next_word-word (c ∷ cs) tail h e = elim (Bool-cases (is_space c)) [
  | inl s ↦ absurd (ground arith)
  | inr s ↦ rw (s, next_word-in_word cs tail (ground arith) e) refl
]

pub next_word-end : next_word false [] ≡ ([], [])
unfolding next_word
next_word-end = refl

pub next_word-space : (rest : Bytes) → next_word false (b' ' ∷ rest) ≡ ([], b' ' ∷ rest)
unfolding next_word is_space
next_word-space rest = refl

pub next_word-skip : (rest : Bytes) → next_word true (b' ' ∷ rest) ≡ next_word true rest
unfolding next_word is_space
next_word-skip rest = refl

abbrev pub is_empty : Bytes → Bool
is_empty [] = true
is_empty (c ∷ cs) = false

-- A line and its end.
pub get_lines-line :
    (line l rest : Bytes)
    → lacks b'\n' l ≡ true
    → get_lines line (l ++ b'\n' ∷ rest) ≡ (line ++ l) ∷ get_lines [] rest
unfolding get_lines
get_lines-line [] [] rest h = refl
get_lines-line (x ∷ line) [] rest h = rw (append-nil line) refl
get_lines-line [] (c ∷ l) rest h = elim (Bool-cases (c == b'\n')) [
  | inl e ↦ absurd (ground arith)
  | inr e ↦ rw e (get_lines-line (c ∷ []) l rest (ground arith))
]
get_lines-line (x ∷ line) (c ∷ l) rest h = elim (Bool-cases (c == b'\n')) [
  | inl e ↦ absurd (ground arith)
  | inr e ↦ rw e (
      get_lines-line (x ∷ (line ++ c ∷ [])) l rest (ground arith)
      ∙ rw (append_assoc line (c ∷ []) l) refl)
]

-- The last line, which has no end.
pub get_lines-last :
    (line l : Bytes)
    → is_empty (line ++ l) ≡ false
    → lacks b'\n' l ≡ true
    → get_lines line l ≡ (line ++ l) ∷ []
unfolding get_lines
get_lines-last [] [] k h = cc
get_lines-last (x ∷ line) [] k h = rw (append-nil line) refl
get_lines-last [] (c ∷ l) k h = elim (Bool-cases (c == b'\n')) [
  | inl e ↦ absurd (ground arith)
  | inr e ↦ rw e (get_lines-last (c ∷ []) l refl (ground arith))
]
get_lines-last (x ∷ line) (c ∷ l) k h = elim (Bool-cases (c == b'\n')) [
  | inl e ↦ absurd (ground arith)
  | inr e ↦ rw e (
      get_lines-last (x ∷ (line ++ c ∷ [])) l refl (ground arith)
      ∙ rw (append_assoc line (c ∷ []) l) refl)
]

pub pop_return-append : (l : Bytes) → pop_return (l ++ b'\r' ∷ []) ≡ l
unfolding pop_return
pop_return-append [] = refl
pop_return-append (c ∷ []) = refl
pop_return-append (c ∷ d ∷ cs) = rw (pop_return-append (d ∷ cs)) refl

pub pop_return_same : (l : Bytes) → lacks b'\r' l ≡ true → pop_return l ≡ l
unfolding pop_return
pop_return_same [] h = refl
pop_return_same (c ∷ []) h = ground arith
pop_return_same (c ∷ d ∷ cs) h = rw (pop_return_same (d ∷ cs) (ground arith)) refl

pub split_colon-append :
    (key rest : Bytes) → lacks b':' key ≡ true → split_colon (key ++ b':' ∷ rest) ≡ some (key, rest)
unfolding split_colon
split_colon-append [] rest h = refl
split_colon-append (c ∷ key) rest h = elim (Bool-cases (c == b':')) [
  | inl e ↦ absurd (ground arith)
  | inr e ↦ rw (e, split_colon-append key rest (ground arith)) refl
]

-- The text does not start with a space.
abbrev pub no_blank_first : Bytes → Bool
no_blank_first [] = true
no_blank_first (c ∷ cs) = not (c == b' ')

pub skip_blanks_lem : (v : Bytes) → no_blank_first v ≡ true → skip_blanks (b' ' ∷ v) ≡ v
unfolding skip_blanks
skip_blanks_lem [] h = refl
skip_blanks_lem (c ∷ cs) h = ground arith
