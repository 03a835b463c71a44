-- ===== src/Json/Grammar.antt =====
-- The JSON texts of a tree, described without the parser of include/protocol/Json.hpp: spaces are
-- free between tokens, a string may spell a byte plainly or by an escape, a number is any text of
-- the number grammar that `stod` reads as its value. There is no `\u` escape of a code point: a byte
-- without a short escape of its own is escaped as itself, `u` too.
use high_speed.Prelude.{
  ℕ, Bool, true, false, leb, ◌||◌, ◌&&◌, [], ◌∷◌, ◌++◌, ◌≡◌, some, ◌==◌, codes, Bytes,
}
use high_speed.Json.{
  Doubles, Json, Members, Elements, object, array, string, number, boolean, null, no_members,
  member, no_elements, element,
}

-- A blank, a tab, a line feed, a vertical tab, a form feed, a carriage return.
abbrev pub space_byte : ℕ → Bool
space_byte c = c == b' ' || c == 9 || c == 10 || c == 11 || c == 12 || c == 13

abbrev pub digit_byte : ℕ → Bool
digit_byte c = leb b'0' c && leb c b'9'

-- The byte behind a backslash, and the byte that it stands for.
pub data Escape : ℕ → ℕ → Type 0 where
  backspace : Escape b'b' 8
  tab : Escape b't' 9
  line_feed : Escape b'n' 10
  form_feed : Escape b'f' 12
  carriage_return : Escape b'r' 13
  itself :
      {e : ℕ} → (e == b'b' || e == b't' || e == b'n' || e == b'f' || e == b'r') ≡ false → Escape e e

pub data AllSpace : Bytes → Type 0 where
  nil : AllSpace []
  cons : {c : ℕ} {cs : Bytes} → space_byte c ≡ true → AllSpace cs → AllSpace (c ∷ cs)

pub data AllDigits : Bytes → Type 0 where
  nil : AllDigits []
  cons : {c : ℕ} {cs : Bytes} → digit_byte c ≡ true → AllDigits cs → AllDigits (c ∷ cs)

-- What may stand between the quotes for a string.
pub data SpellsText : Bytes → Bytes → Type 0 where
  nil : SpellsText [] []
  plain :
      {c : ℕ} {s t : Bytes}
      → (c == b'"') ≡ false
      → (c == b'\\') ≡ false
      → SpellsText s t
      → SpellsText (c ∷ s) (c ∷ t)
  escaped :
      {c e : ℕ} {s t : Bytes} → Escape e c → SpellsText s t → SpellsText (c ∷ s) (b'\\' ∷ e ∷ t)

pub data IsSign : Bytes → Type 0 where
  unsigned : IsSign []
  minus : IsSign (b'-' ∷ [])

pub data IsFraction : Bytes → Type 0 where
  whole : IsFraction []
  point : {ds : Bytes} → AllDigits ds → IsFraction (b'.' ∷ ds)

pub data IsExponentSign : Bytes → Type 0 where
  unsigned : IsExponentSign []
  signed : {c : ℕ} → ((c == b'+') || (c == b'-')) ≡ true → IsExponentSign (c ∷ [])

pub data IsExponent : Bytes → Type 0 where
  absent : IsExponent []
  present :
      {c : ℕ} {sign ds : Bytes}
      → ((c == b'e') || (c == b'E')) ≡ true
      → IsExponentSign sign
      → AllDigits ds
      → IsExponent (c ∷ (sign ++ ds))

-- An optional sign, a digit and more digits, an optional fraction and exponent.
pub data IsNumberText : Bytes → Type 0 where
  number_text :
      (d : ℕ) {sign ds fraction exponent : Bytes}
      → IsSign sign
      → digit_byte d ≡ true
      → AllDigits ds
      → IsFraction fraction
      → IsExponent exponent
      → IsNumberText (sign ++ ((d ∷ ds) ++ (fraction ++ exponent)))

module _ (D : Doubles) where
  open D use {Num, stod}

  -- `SpellsMembers` and `SpellsElements` are of at least one item, closing bracket included.
  mutual
    pub data Spells : Json Num → Bytes → Type 0 where
      a_string : {s t : Bytes} → SpellsText s t → Spells (string s) (b'"' ∷ (t ++ b'"' ∷ []))
      a_number : {n : Num} {t : Bytes} → IsNumberText t → stod t ≡ some n → Spells (number n) t
      a_true : Spells (boolean true) (codes "true")
      a_false : Spells (boolean false) (codes "false")
      a_null : Spells null (codes "null")
      empty_object : {w : Bytes} → AllSpace w → Spells (object no_members) (b'{' ∷ (w ++ b'}' ∷ []))
      an_object :
          {ms : Members Num} {t : Bytes} → SpellsMembers ms t → Spells (object ms) (b'{' ∷ t)
      empty_array : {w : Bytes} → AllSpace w → Spells (array no_elements) (b'[' ∷ (w ++ b']' ∷ []))
      an_array :
          {es : Elements Num} {t : Bytes} → SpellsElements es t → Spells (array es) (b'[' ∷ t)

    pub data SpellsMembers : Members Num → Bytes → Type 0 where
      a_member :
          {k key text a b c d tail : Bytes} {v : Json Num} {ms : Members Num}
          → AllSpace a
          → SpellsText k key
          → AllSpace b
          → AllSpace c
          → Spells v text
          → AllSpace d
          → EndsMembers ms tail
          → SpellsMembers
              (member k v ms)
              (a ++ b'"' ∷ (key ++ b'"' ∷ (b ++ b':' ∷ (c ++ (text ++ (d ++ tail))))))

    pub data EndsMembers : Members Num → Bytes → Type 0 where
      end_members : EndsMembers no_members (b'}' ∷ [])
      more_members : {ms : Members Num} {t : Bytes} → SpellsMembers ms t → EndsMembers ms (b',' ∷ t)

    pub data SpellsElements : Elements Num → Bytes → Type 0 where
      an_element :
          {text a d tail : Bytes} {v : Json Num} {es : Elements Num}
          → AllSpace a
          → Spells v text
          → AllSpace d
          → EndsElements es tail
          → SpellsElements (element v es) (a ++ (text ++ (d ++ tail)))

    pub data EndsElements : Elements Num → Bytes → Type 0 where
      end_elements : EndsElements no_elements (b']' ∷ [])
      more_elements :
          {es : Elements Num} {t : Bytes} → SpellsElements es t → EndsElements es (b',' ∷ t)
