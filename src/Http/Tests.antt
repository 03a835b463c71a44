-- ===== src/Http/Tests.antt =====
-- The code of include/protocol/Http.hpp on messages, and the theorems at them.
use high_speed.Prelude.{◌≡◌, refl, true, false, [], ◌∷◌, ◌++◌, codes, bytes_eq, is_space, arith}
use high_speed.Http.{
  HttpMessage, HttpMethod, HttpVersion, get, post, http_1_0, http_1_1, method_to_str, parse_method,
  version_to_str, parse_version, set_header, header_lines, start_line, serialize_to_string,
  starts_with, find, next_word, get_lines, pop_return, skip_blanks, split_colon, add_line,
  add_lines, parse_start_line, parse_headers, parse_from_string, line_sep, blank_line,
}
use high_speed.Http.RoundTrip.{parse_from_string-serialize_to_string}
use high_speed.Http.NoHeaders.{parse_from_string_no_headers}

abbrev request : HttpMessage
request = record {
  method = get;
  version = HttpVersion.unknown;
  url = codes "/index";
  headers = (codes "Host", codes "a") ∷ (codes "Accept", codes "x: y ") ∷ (codes "X", []) ∷ [];
  body = codes "a:1";
}

abbrev form : HttpMessage
form = record {
  method = post;
  version = http_1_0;
  url = codes "/";
  headers = [];
  body = codes "user: root";
}

request_text :
    serialize_to_string request
    ≡ codes "GET /index HTTP/1.1"
      ++ line_sep
      ++ codes "Host: a"
      ++ line_sep
      ++ codes "Accept: x: y "
      ++ line_sep
      ++ codes "X: "
      ++ blank_line
      ++ codes "a:1"
unfolding serialize_to_string start_line header_lines method_to_str version_to_str
request_text = refl

-- A header that the sender repeats has its last value.
repeated_header :
    parse_from_string
      (codes "GET / HTTP/2.0"
        ++ line_sep
        ++ codes "a:1"
        ++ line_sep
        ++ codes "b"
        ++ line_sep
        ++ codes "a:2"
        ++ blank_line)
      form
    ≡ (
      true,
      record {
        method = get;
        version = HttpVersion.http_2_0;
        url = codes "/";
        headers = (codes "a", codes "2") ∷ [];
        body = [];
      },
    )
unfolding parse_from_string parse_headers parse_start_line add_lines add_line get_lines pop_return
    split_colon skip_blanks set_header bytes_eq next_word is_space parse_method parse_version find
    starts_with
repeated_header = refl

-- A failed call has changed the start line.
failed_call :
    parse_from_string (codes "PUT /up HTTP/1.1" ++ line_sep ++ codes "a:1") form
    ≡ (false, record form { method = HttpMethod.put; version = http_1_1; url = codes "/up" })
unfolding parse_from_string parse_start_line bytes_eq next_word is_space parse_method parse_version
    find starts_with
failed_call = refl

parse_from_string-serialize_to_string_example :
    parse_from_string (serialize_to_string request) form
    ≡ (true, record request { version = http_1_1 })
unfolding serialize_to_string start_line header_lines method_to_str version_to_str is_space bytes_eq
parse_from_string-serialize_to_string_example =
    parse_from_string-serialize_to_string request form (codes "Host", codes "a")
      ((codes "Accept", codes "x: y ") ∷ (codes "X", []) ∷ []) refl refl refl (omega arith)

parse_from_string_no_headers_example :
    parse_from_string (serialize_to_string form) request
    ≡ (true, record form { headers = (codes "user", codes "root") ∷ [] })
unfolding serialize_to_string start_line header_lines method_to_str version_to_str is_space bytes_eq
    add_lines add_line get_lines pop_return split_colon skip_blanks set_header
parse_from_string_no_headers_example =
    parse_from_string_no_headers form request refl refl (omega arith)
