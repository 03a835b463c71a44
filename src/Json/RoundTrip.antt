-- ===== src/Json/RoundTrip.antt =====
-- What the printers of include/protocol/Json.hpp write is a text of the grammar, so it parses back.
use high_speed.Prelude.{
  subst, sym, ==→eq, ℕ, zero, suc, ◌≡◌, refl, Bool, true, false, [], ◌∷◌, ◌++◌, append-nil, ◌==◌,
  Bool-cases, inl, inr, Bytes,
}
use high_speed.Json.{
  Doubles, Json, Members, Elements, object, array, string, number, boolean, null, no_members,
  member, no_elements, element, vacant, escape_byte, escape, string_text, boolean_text, to_string,
  members_text, elements_text, blanks,
}
use high_speed.Json.Parser.{ok, is_space, parse}
use high_speed.Json.Grammar.{
  Escape, tab, line_feed, carriage_return, itself, AllSpace, SpellsText, plain, escaped, Spells,
  a_string, a_number, a_true, a_false, a_null, empty_object, an_object, empty_array, an_array,
  SpellsMembers, a_member, EndsMembers, end_members, more_members, an_element, EndsElements,
  end_elements, more_elements,
}
use high_speed.Json.Printable.{IsPlain, IsPrintable, PrintableMembers, PrintableElements}
use high_speed.Json.Complete.{parse-Spells}

module _ {N : Type 0} where
  -- Null pointers among the elements become `JsonNull`s.
  unfoldable mutual
    pub settle : Json N → Json N
    settle (object ms) = object (settle_members ms)
    settle (array es) = array (settle_elements es)
    settle (string s) = string s
    settle (number n) = number n
    settle (boolean b) = boolean b
    settle null = null

    pub settle_members : Members N → Members N
    settle_members no_members = no_members
    settle_members (member k v ms) = member k (settle v) (settle_members ms)

    pub settle_elements : Elements N → Elements N
    settle_elements no_elements = no_elements
    settle_elements (element v es) = element (settle v) (settle_elements es)
    settle_elements (vacant es) = element null (settle_elements es)

Escape-eq : {e b c : ℕ} → Escape e b → (c == b) ≡ true → Escape e c
Escape-eq {e} {b} {c} h same = subst (λ x. Escape e x) (sym (==→eq c b same)) h

escape_byte-SpellsText :
    (c : ℕ) {s t : Bytes} → SpellsText s t → SpellsText (c ∷ s) (escape_byte c ++ t)
unfolding escape_byte
escape_byte-SpellsText c h = elim (Bool-cases (c == b'"')) [
  | inl e ↦ rw e (escaped (Escape-eq (itself refl) e) h)
  | inr quote ↦ elim (Bool-cases (c == b'\\')) [
    | inl e ↦ rw (quote, e) (escaped (Escape-eq (itself refl) e) h)
    | inr slash ↦ elim (Bool-cases (c == b'\n')) [
      | inl e ↦ rw (quote, slash, e) (escaped (Escape-eq line_feed e) h)
      | inr line ↦ elim (Bool-cases (c == b'\r')) [
        | inl e ↦ rw (quote, slash, line, e) (escaped (Escape-eq carriage_return e) h)
        | inr return ↦ elim (Bool-cases (c == b'\t')) [
          | inl e ↦ rw (quote, slash, line, return, e) (escaped (Escape-eq tab e) h)
          | inr other ↦ rw (quote, slash, line, return, other) (plain quote slash h)
        ]
      ]
    ]
  ]
]

pub escape-SpellsText : (s : Bytes) → SpellsText s (escape s)
unfolding escape
escape-SpellsText [] = SpellsText.nil
escape-SpellsText (c ∷ s) = escape_byte-SpellsText c (escape-SpellsText s)

pub IsPlain-SpellsText : {k : Bytes} → IsPlain k → SpellsText k k
IsPlain-SpellsText IsPlain.nil = SpellsText.nil
IsPlain-SpellsText (IsPlain.cons q b h) = plain q b (IsPlain-SpellsText h)

pub blanks-AllSpace : (n : ℕ) {w : Bytes} → AllSpace w → AllSpace (blanks n ++ w)
unfolding is_space
blanks-AllSpace zero h = h
blanks-AllSpace (suc n) h = AllSpace.cons refl (blanks-AllSpace n h)

module _ (D : Doubles) where
  open D use {Num}

  pub boolean-Spells : (b : Bool) → Spells D (boolean b) (boolean_text b)
  unfolding boolean_text
  boolean-Spells true = a_true
  boolean-Spells false = a_false

  -- A member with no spaces, and one with a space behind the colon.
  tight_member :
      {k text tail : Bytes} {v : Json Num} {ms : Members Num}
      → IsPlain k
      → Spells D v text
      → EndsMembers D ms tail
      → SpellsMembers D (member k v ms) (b'"' ∷ (k ++ b'"' ∷ b':' ∷ (text ++ tail)))
  tight_member p x e =
      a_member AllSpace.nil (IsPlain-SpellsText p) AllSpace.nil AllSpace.nil x AllSpace.nil e

  mutual
    unfolding to_string string_text settle

    value-Spells : {v : Json Num} → IsPrintable D v → Spells D (settle v) (to_string D v)
    value-Spells (IsPrintable.object PrintableMembers.no_members) = empty_object AllSpace.nil
    value-Spells (IsPrintable.object (PrintableMembers.member k x m)) =
        an_object (tight_member k (value-Spells x) (members_end_spell m))
    value-Spells (IsPrintable.array PrintableElements.no_elements) = empty_array AllSpace.nil
    value-Spells (IsPrintable.array (PrintableElements.element x m)) =
        an_array (an_element AllSpace.nil (value-Spells x) AllSpace.nil (elements_end_spell m))
    value-Spells (IsPrintable.array (PrintableElements.vacant m)) =
        an_array (an_element AllSpace.nil a_null AllSpace.nil (elements_end_spell m))
    value-Spells (IsPrintable.string s) = a_string (escape-SpellsText s)
    value-Spells (IsPrintable.number h e) = a_number h e
    value-Spells (IsPrintable.boolean b) = boolean-Spells b
    value-Spells IsPrintable.null = a_null

    members_end_spell :
        {ms : Members Num}
        → PrintableMembers D ms
        → EndsMembers D (settle_members ms) (members_text D false ms)
    members_end_spell PrintableMembers.no_members = end_members
    members_end_spell (PrintableMembers.member k x m) =
        more_members (tight_member k (value-Spells x) (members_end_spell m))

    elements_end_spell :
        {es : Elements Num}
        → PrintableElements D es
        → EndsElements D (settle_elements es) (elements_text D false es)
    elements_end_spell PrintableElements.no_elements = end_elements
    elements_end_spell (PrintableElements.element x m) =
        more_elements (an_element AllSpace.nil (value-Spells x) AllSpace.nil (elements_end_spell m))
    elements_end_spell (PrintableElements.vacant m) =
        more_elements (an_element AllSpace.nil a_null AllSpace.nil (elements_end_spell m))

  -- `toString` writes a text of the grammar.
  pub to_string-Spells : {v : Json Num} → IsPrintable D v → Spells D (settle v) (to_string D v)
  to_string-Spells x = value-Spells x

  -- What `toString` writes for a printable tree parses as the tree, null pointers settled.
  pub parse-to_string : {v : Json Num} → IsPrintable D v → parse D (to_string D v) ≡ ok (settle v)
  parse-to_string {v} x =
      let whole = parse-Spells D (to_string-Spells x) AllSpace.nil AllSpace.nil in
      rw append-nil at whole
