-- ===== src/Http.antt =====
-- HTTP messages of include/protocol/Http.hpp over bytes. The map of headers is a list of its entries in
-- the order of iteration; a new key comes last, where the program's order is unspecified.
pub mod Find
pub mod Lines
pub mod RoundTrip
pub mod Headers
pub mod NoHeaders
mod Tests
use mathlib.Core.Option
use high_speed.Prelude.{
  ℕ, zero, suc, ◌+◌, ◌-◌, ◌%◌, ◌^◌, Bool, true, false, not, ◌&&◌, ◌||◌, List, [], ◌∷◌, ◌++◌, Option,
  none, some, ◌==◌, if◌then◌else◌, length, take, drop, codes, Bytes, bytes_eq, is_space,
}

pub data HttpMethod : Type 0 where
  get post put delete head options trace connect patch unknown : HttpMethod

pub data HttpVersion : Type 0 where
  http_1_0 http_1_1 http_2_0 unknown : HttpVersion

pub record HttpMessage : Type 0 where
  pub method : HttpMethod
  pub version : HttpVersion
  pub url : Bytes
  pub headers : List (Bytes × Bytes)
  pub body : Bytes

unfoldable pub method_to_str : HttpMethod → Bytes
method_to_str get = codes "GET"
method_to_str post = codes "POST"
method_to_str put = codes "PUT"
method_to_str delete = codes "DELETE"
method_to_str head = codes "HEAD"
method_to_str options = codes "OPTIONS"
method_to_str trace = codes "TRACE"
method_to_str connect = codes "CONNECT"
method_to_str patch = codes "PATCH"
method_to_str HttpMethod.unknown = codes "UNKNOWN"

unfoldable pub parse_method : Bytes → HttpMethod
parse_method s =
    if bytes_eq s (codes "GET")
    then get
    else if bytes_eq s (codes "POST")
    then post
    else if bytes_eq s (codes "PUT")
    then put
    else if bytes_eq s (codes "DELETE")
    then delete
    else if bytes_eq s (codes "HEAD")
    then head
    else if bytes_eq s (codes "OPTIONS")
    then options
    else if bytes_eq s (codes "TRACE")
    then trace
    else if bytes_eq s (codes "CONNECT")
    then connect
    else if bytes_eq s (codes "PATCH")
    then patch
    else HttpMethod.unknown

unfoldable pub version_to_str : HttpVersion → Bytes
version_to_str http_1_0 = codes "HTTP/1.0"
version_to_str http_1_1 = codes "HTTP/1.1"
version_to_str http_2_0 = codes "HTTP/2.0"
version_to_str HttpVersion.unknown = codes "HTTP/1.1"

unfoldable pub parse_version : Bytes → HttpVersion
parse_version s =
    if bytes_eq s (codes "HTTP/1.0")
    then http_1_0
    else if bytes_eq s (codes "HTTP/1.1")
    then http_1_1
    else if bytes_eq s (codes "HTTP/2.0")
    then http_2_0
    else HttpVersion.unknown

-- `headers_[key] = value`, also in `add_header`.
unfoldable pub set_header : Bytes → Bytes → List (Bytes × Bytes) → List (Bytes × Bytes)
set_header key value [] = (key, value) ∷ []
set_header key value ((k, v) ∷ hs) =
    if bytes_eq k key then (k, value) ∷ hs else (k, v) ∷ set_header key value hs

abbrev pub line_sep : Bytes
line_sep = b'\r' ∷ b'\n' ∷ []

abbrev pub blank_line : Bytes
blank_line = b'\r' ∷ b'\n' ∷ b'\r' ∷ b'\n' ∷ []

unfoldable pub header_lines : List (Bytes × Bytes) → Bytes
header_lines [] = []
header_lines ((k, v) ∷ hs) = k ++ (b':' ∷ b' ' ∷ (v ++ (line_sep ++ header_lines hs)))

unfoldable pub start_line : HttpMessage → Bytes
start_line m = method_to_str m.method ++ (b' ' ∷ (m.url ++ (b' ' ∷ version_to_str m.version)))

unfoldable pub serialize_to_string : HttpMessage → Bytes
serialize_to_string m =
    start_line m ++ (line_sep ++ (header_lines m.headers ++ (line_sep ++ m.body)))

unfoldable pub starts_with : Bytes → Bytes → Bool
starts_with [] bs = true
starts_with (p ∷ ps) [] = false
starts_with (p ∷ ps) (b ∷ bs) = b == p && starts_with ps bs

-- `std::string::find`, for a pattern that is not empty.
unfoldable pub find : Bytes → Bytes → Option ℕ
find pattern [] = none
find pattern (b ∷ bs) =
    if starts_with pattern (b ∷ bs) then some 0 else Option.map suc (find pattern bs)

-- `std::string::substr` within the text.
abbrev pub substr : ℕ → ℕ → Bytes → Bytes
substr pos n data' = take n (drop pos data')

-- `operator>>` into a string: the word, and what follows; `skip` while no byte of it was read.
unfoldable pub next_word : Bool → Bytes → Bytes × Bytes
next_word skip [] = ([], [])
next_word true (c ∷ cs) =
    let (word, rest) = next_word (is_space c) cs in
    if is_space c then (word, rest) else (c ∷ word, rest)
next_word false (c ∷ cs) =
    let (word, rest) = next_word false cs in if is_space c then ([], c ∷ cs) else (c ∷ word, rest)

-- `std::getline` to the end; a last line that is empty is none.
unfoldable pub get_lines : Bytes → Bytes → List Bytes
get_lines [] [] = []
get_lines (l ∷ line) [] = (l ∷ line) ∷ []
get_lines line (c ∷ cs) =
    let next = get_lines [] cs in
    let longer = get_lines (line ++ c ∷ []) cs in if c == b'\n' then line ∷ next else longer

-- `line.pop_back()` if it is a carriage return.
unfoldable pub pop_return : Bytes → Bytes
pop_return [] = []
pop_return (c ∷ []) = if c == b'\r' then [] else c ∷ []
pop_return (c ∷ d ∷ cs) = c ∷ pop_return (d ∷ cs)

unfoldable pub skip_blanks : Bytes → Bytes
skip_blanks [] = []
skip_blanks (c ∷ cs) = if c == b' ' then skip_blanks cs else c ∷ cs

-- The key before the first colon, and what stands behind it.
unfoldable pub split_colon : Bytes → Option (Bytes × Bytes)
split_colon [] = none
split_colon (c ∷ cs) =
    let later = Option.map (λ (k, v). (c ∷ k, v)) (split_colon cs) in
    if c == b':' then some ([], cs) else later

-- One round of the loop over the lines.
unfoldable pub add_line : Bytes → List (Bytes × Bytes) → List (Bytes × Bytes)
add_line line hs = elim (split_colon (pop_return line)) [
  | none ↦ hs
  | some (key, value) ↦ set_header key (skip_blanks value) hs
]

unfoldable pub add_lines : List Bytes → List (Bytes × Bytes) → List (Bytes × Bytes)
add_lines [] hs = hs
add_lines (l ∷ ls) hs = add_lines ls (add_line l hs)

unfoldable pub parse_start_line : Bytes → HttpMessage → HttpMessage
parse_start_line line m =
    let (method_s, rest) = next_word true line in
    let (url_s, rest') = next_word true rest in
    let (version_s, rest'') = next_word true rest' in
    record m { method = parse_method method_s; url = url_s; version = parse_version version_s }

-- Behind the start line, which ends at `pos`. The length is a size_t, and `substr` stops at the end.
unfoldable pub parse_headers : ℕ → ℕ → Bytes → HttpMessage → HttpMessage
parse_headers pos header_end data' m =
    let header_start = pos + 2 in
    let block = substr header_start ((header_end + 2 ^ 64 - header_start) % 2 ^ 64) data' in
    record m { headers = add_lines (get_lines [] block) []; body = drop (header_end + 4) data' }

unfoldable pub parse_from_string : Bytes → HttpMessage → Bool × HttpMessage
parse_from_string data' m = elim (find line_sep data') [
  | none ↦ (false, m)
  | some pos ↦
      let m' = parse_start_line (take pos data') m in
      elim (find blank_line data') [
        | none ↦ (false, m')
        | some header_end ↦ (true, parse_headers pos header_end data' m')
      ]
]
