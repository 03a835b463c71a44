-- ===== src/Json.antt =====
-- include/protocol/Json.hpp: JSON trees, their two printers, the parser and the editing proxy.
-- A `double` is abstract: `Doubles` holds what the code asks of the C++ library about it.
pub mod Parser
pub mod Grammar
pub mod Complete
pub mod Printable
pub mod RoundTrip
pub mod Nesting
pub mod Indented
pub mod Total
pub mod Lenient
pub mod Tree
mod Tests
use high_speed.Prelude.{
  ℕ, zero, suc, ◌+◌, ◌*◌, ◌^◌, ltb, ◌&&◌, none, some, Bool, true, false, List, [], ◌∷◌, ◌++◌,
  Option, ◌==◌, if◌then◌else◌, replicate, codes, Bytes,
}

-- `double`, `0.0`, `oss << value` and `std::stod` (`none` is an exception).
pub record Doubles : Type 1 where
  pub Num : Type 0
  pub zero_num : Num
  pub print : Num → Bytes
  pub stod : Bytes → Option Num

-- The subclasses of `JsonBase`. `vacant` is a null pointer among the elements of an array.
mutual
  pub data Json (N : Type 0) : Type 0 where
    object : Members N → Json N
    array : Elements N → Json N
    string : Bytes → Json N
    number : N → Json N
    boolean : Bool → Json N
    null : Json N

  pub data Members (N : Type 0) : Type 0 where
    no_members : Members N
    member : Bytes → Json N → Members N → Members N

  pub data Elements (N : Type 0) : Type 0 where
    no_elements : Elements N
    element : Json N → Elements N → Elements N
    vacant : Elements N → Elements N

pub data JsonType : Type 0 where
  is_object is_array is_string is_number is_boolean is_null : JsonType

-- An `int` argument: `negsuc n` is -(n + 1).
pub data ℤ : Type 0 where
  pos : ℕ → ℤ
  negsuc : ℕ → ℤ

module _ {N : Type 0} where
  unfoldable pub get_type : Json N → JsonType
  get_type (object ms) = is_object
  get_type (array es) = is_array
  get_type (string s) = is_string
  get_type (number n) = is_number
  get_type (boolean b) = is_boolean
  get_type null = is_null

-- The switch of `JsonString::toString`.
unfoldable pub escape_byte : ℕ → Bytes
escape_byte c =
    if c == b'"'
    then b'\\' ∷ b'"' ∷ []
    else if c == b'\\'
    then b'\\' ∷ b'\\' ∷ []
    else if c == b'\n'
    then b'\\' ∷ b'n' ∷ []
    else if c == b'\r'
    then b'\\' ∷ b'r' ∷ []
    else if c == b'\t'
    then b'\\' ∷ b't' ∷ []
    else c ∷ []

unfoldable pub escape : Bytes → Bytes
escape [] = []
escape (c ∷ s) = escape_byte c ++ escape s

-- `JsonString::toString`
unfoldable pub string_text : Bytes → Bytes
string_text s = b'"' ∷ (escape s ++ b'"' ∷ [])

-- `JsonBoolean::toString`
unfoldable pub boolean_text : Bool → Bytes
boolean_text b = if b then codes "true" else codes "false"

abbrev pub comma_unless : Bool → Bytes
comma_unless first = if first then [] else b',' ∷ []

module _ (D : Doubles) where
  open D use {Num, print}

  unfoldable mutual
    pub to_string : Json Num → Bytes
    to_string (object ms) = b'{' ∷ members_text true ms
    to_string (array es) = b'[' ∷ elements_text true es
    to_string (string s) = string_text s
    to_string (number n) = print n
    to_string (boolean b) = boolean_text b
    to_string null = codes "null"

    pub members_text : Bool → Members Num → Bytes
    members_text first no_members = b'}' ∷ []
    members_text first (member k v ms) =
        comma_unless first ++ b'"' ∷ (k ++ b'"' ∷ b':' ∷ (to_string v ++ members_text false ms))

    pub elements_text : Bool → Elements Num → Bytes
    elements_text first no_elements = b']' ∷ []
    elements_text first (element v es) =
        comma_unless first ++ (to_string v ++ elements_text false es)
    elements_text first (vacant es) = comma_unless first ++ (codes "null" ++ elements_text false es)

module _ {N : Type 0} where
  -- "," if another member follows.
  unfoldable pub member_comma : Members N → Bytes
  member_comma no_members = []
  member_comma (member k v ms) = b',' ∷ []

  unfoldable pub element_comma : Elements N → Bytes
  element_comma no_elements = []
  element_comma (element v es) = b',' ∷ []
  element_comma (vacant es) = b',' ∷ []

-- `std::string(n, ' ')`
abbrev pub blanks : ℕ → Bytes
blanks n = replicate n b' '

module _ (D : Doubles) (indent : ℕ) where
  open D use {Num, print}

  -- `dump` at an indent and a depth of at least 0, where the products are in the range of `int`.
  unfoldable mutual
    pub dump_at : ℕ → Json Num → Bytes
    dump_at depth (object ms) =
        b'{' ∷ b'\n' ∷ (dump_members depth ms ++ (blanks (depth * indent) ++ b'}' ∷ []))
    dump_at depth (array es) =
        b'[' ∷ b'\n' ∷ (dump_elements depth es ++ (blanks (depth * indent) ++ b']' ∷ []))
    dump_at depth (string s) = string_text s
    dump_at depth (number n) = print n
    dump_at depth (boolean b) = boolean_text b
    dump_at depth null = codes "null"

    pub dump_members : ℕ → Members Num → Bytes
    dump_members depth no_members = []
    dump_members depth (member k v ms) =
        blanks ((depth + 1) * indent)
        ++ b'"'
          ∷ (k
              ++ b'"'
                ∷ b':'
                ∷ b' '
                ∷ (dump_at (depth + 1) v ++ (member_comma ms ++ b'\n' ∷ dump_members depth ms)))

    pub dump_elements : ℕ → Elements Num → Bytes
    dump_elements depth no_elements = []
    dump_elements depth (element v es) =
        blanks ((depth + 1) * indent)
        ++ (dump_at (depth + 1) v ++ (element_comma es ++ b'\n' ∷ dump_elements depth es))
    dump_elements depth (vacant es) =
        blanks ((depth + 1) * indent)
        ++ (codes "null" ++ (element_comma es ++ b'\n' ∷ dump_elements depth es))

-- Whether `depth + 1` and its product with the indent stay in the range of `int`.
abbrev pub is_int : (indent depth : ℕ) → Bool
is_int indent depth = ltb (depth + 1) (2 ^ 31) && ltb ((depth + 1) * indent) (2 ^ 31)

-- Every container computes them.
module _ {N : Type 0} (indent : ℕ) where
  unfoldable mutual
    pub in_range : ℕ → Json N → Bool
    in_range depth (object ms) = is_int indent depth && members_in_range depth ms
    in_range depth (array es) = is_int indent depth && elements_in_range depth es
    in_range depth (string s) = true
    in_range depth (number n) = true
    in_range depth (boolean b) = true
    in_range depth null = true

    pub members_in_range : ℕ → Members N → Bool
    members_in_range depth no_members = true
    members_in_range depth (member k v ms) = in_range (depth + 1) v && members_in_range depth ms

    pub elements_in_range : ℕ → Elements N → Bool
    elements_in_range depth no_elements = true
    elements_in_range depth (element v es) = in_range (depth + 1) v && elements_in_range depth es
    elements_in_range depth (vacant es) = elements_in_range depth es

module _ (D : Doubles) where
  open D use {Num}

  -- `dump(indent, depth)`, `none` where it throws `std::length_error` or an `int` overflows. A depth below 0
  -- makes the length of a container's padding negative, unless the indent is 0.
  unfoldable pub dump : ℤ → ℤ → Json Num → Option Bytes
  dump (negsuc n) depth v = some (to_string D v)
  dump (pos n) (pos depth) v = if in_range n depth v then some (dump_at D n depth v) else none
  dump (pos zero) (negsuc d) v = some (dump_at D 0 0 v)
  dump (pos (suc n)) (negsuc d) (object ms) = none
  dump (pos (suc n)) (negsuc d) (array es) = none
  dump (pos (suc n)) (negsuc d) v = some (to_string D v)
