-- ===== src/Json/Indented.antt =====
-- What `dump` of include/protocol/Json.hpp writes at any indent is a text of the grammar.
use high_speed.Prelude.{
  ℕ, ◌+◌, ◌*◌, ◌≡◌, refl, true, some, [], ◌∷◌, ◌++◌, append_assoc, append-nil, codes, Bytes,
}
use high_speed.Json.{
  Doubles, Json, Members, Elements, ℤ, pos, negsuc, null, member, element, to_string, string_text,
  member_comma, element_comma, blanks, dump_at, dump_members, dump_elements, dump,
}
use high_speed.Json.Parser.{ok, is_space, parse}
use high_speed.Json.Grammar.{
  AllSpace, Spells, a_string, a_number, a_null, empty_object, an_object, empty_array, an_array,
  SpellsMembers, a_member, EndsMembers, end_members, more_members, SpellsElements, an_element,
  EndsElements, end_elements, more_elements,
}
use high_speed.Json.Printable.{IsPlain, IsPrintable, PrintableMembers, PrintableElements}
use high_speed.Json.Nesting.{nests, IsFitting, nests-in_range}
use high_speed.Json.Complete.{parse-Spells}
use high_speed.Json.RoundTrip.{
  settle, settle_members, settle_elements, escape-SpellsText, IsPlain-SpellsText, blanks-AllSpace,
  boolean-Spells, to_string-Spells,
}

-- A line break and blanks.
new_line : (n : ℕ) → AllSpace (b'\n' ∷ blanks n)
unfolding is_space
new_line n = AllSpace.cons refl (rw append-nil at (blanks-AllSpace n AllSpace.nil))

one_blank : AllSpace (b' ' ∷ [])
unfolding is_space
one_blank = AllSpace.cons refl AllSpace.nil

module _ (D : Doubles) (indent : ℕ) where
  open D use {Num}

  -- The lines of a list of items up to the closing bracket, from the line break before them.
  abbrev MembersBlock : ℕ → Members Num → Bytes
  MembersBlock depth ms =
      b'\n' ∷ (dump_members D indent depth ms ++ (blanks (depth * indent) ++ b'}' ∷ []))

  abbrev ElementsBlock : ℕ → Elements Num → Bytes
  ElementsBlock depth es =
      b'\n' ∷ (dump_elements D indent depth es ++ (blanks (depth * indent) ++ b']' ∷ []))

  -- A member on a line of its own; `d` and `tail` are what follows its value.
  member_line :
      (n : ℕ) {k text d tail : Bytes} {v : Json Num} {ms : Members Num}
      → IsPlain k
      → Spells D v text
      → AllSpace d
      → EndsMembers D ms tail
      → SpellsMembers D
          (member k v ms)
          (b'\n' ∷ (blanks n ++ b'"' ∷ (k ++ b'"' ∷ b':' ∷ b' ' ∷ (text ++ (d ++ tail)))))
  member_line n {k} {text} {d} {tail} p x sd e =
      a_member {a = b'\n' ∷ blanks n} {b = []} {c = b' ' ∷ []} (new_line n) (IsPlain-SpellsText p)
        AllSpace.nil one_blank x sd e

  element_line :
      (n : ℕ) {text d tail : Bytes} {v : Json Num} {es : Elements Num}
      → Spells D v text
      → AllSpace d
      → EndsElements D es tail
      → SpellsElements D (element v es) (b'\n' ∷ (blanks n ++ (text ++ (d ++ tail))))
  element_line n x sd e = an_element {a = b'\n' ∷ blanks n} (new_line n) x sd e

  mutual
    unfolding dump_at string_text settle member_comma element_comma

    value_dumps :
        {v : Json Num}
        → IsPrintable D v
        → (depth : ℕ) → Spells D (settle v) (dump_at D indent depth v)
    value_dumps (IsPrintable.object PrintableMembers.no_members) depth =
        empty_object (new_line (depth * indent))
    value_dumps (IsPrintable.object (PrintableMembers.member {v = v} k x m)) depth =
        an_object (members_dump v k m depth (value_dumps x (depth + 1)))
    value_dumps (IsPrintable.array PrintableElements.no_elements) depth =
        empty_array (new_line (depth * indent))
    value_dumps (IsPrintable.array (PrintableElements.element {v} x m)) depth = an_array (
        elements_dump (settle v) (dump_at D indent (depth + 1) v) m depth
          (value_dumps x (depth + 1)))
    value_dumps (IsPrintable.array (PrintableElements.vacant m)) depth =
        an_array (elements_dump null (codes "null") m depth a_null)
    value_dumps (IsPrintable.string s) depth = a_string (escape-SpellsText s)
    value_dumps (IsPrintable.number h e) depth = a_number h e
    value_dumps (IsPrintable.boolean b) depth = boolean-Spells D b
    value_dumps IsPrintable.null depth = a_null

    members_dump :
        {k : Bytes} (v : Json Num) {ms : Members Num}
        → IsPlain k
        → PrintableMembers D ms
        → (depth : ℕ) → Spells D (settle v) (dump_at D indent (depth + 1) v)
        → SpellsMembers D
            (member k (settle v) (settle_members ms))
            (MembersBlock depth (member k v ms))
    members_dump v p PrintableMembers.no_members depth x =
        simp append_assoc
          (member_line ((depth + 1) * indent) p x (new_line (depth * indent)) end_members)
    members_dump v p (PrintableMembers.member {v = w} q y m) depth x =
        let next = members_dump w q m depth (value_dumps y (depth + 1)) in
        let line = member_line ((depth + 1) * indent) p x AllSpace.nil (more_members next) in
        simp append_assoc (simp append_assoc at line)

    -- `text` is the element's, "null" for a null pointer.
    elements_dump :
        (v : Json Num) (text : Bytes) {es : Elements Num}
        → PrintableElements D es
        → (depth : ℕ) → Spells D v text
        → SpellsElements D (element v (settle_elements es)) (
            b'\n'
            ∷ ((blanks ((depth + 1) * indent)
                  ++ (text ++ (element_comma es ++ b'\n' ∷ dump_elements D indent depth es)))
                ++ (blanks (depth * indent) ++ b']' ∷ [])))
    elements_dump v text PrintableElements.no_elements depth x =
        simp append_assoc
          (element_line ((depth + 1) * indent) x (new_line (depth * indent)) end_elements)
    elements_dump v text (PrintableElements.element {v = w} y m) depth x =
        let next =
          elements_dump (settle w) (dump_at D indent (depth + 1) w) m depth
            (value_dumps y (depth + 1)) in
        let line = element_line ((depth + 1) * indent) x AllSpace.nil (more_elements next) in
        simp append_assoc (simp append_assoc at line)
    elements_dump v text (PrintableElements.vacant m) depth x =
        let next = elements_dump null (codes "null") m depth a_null in
        let line = element_line ((depth + 1) * indent) x AllSpace.nil (more_elements next) in
        simp append_assoc (simp append_assoc at line)

  dump_at-Spells :
      {v : Json Num}
      → IsPrintable D v
      → (depth : ℕ) → Spells D (settle v) (dump_at D indent depth v)
  dump_at-Spells x depth = value_dumps x depth

-- For a printable tree whose containers stand at most `n` deep inside each other, at an indent below 0, or
-- where the padding of the deepest lines has a length in the range of `int`: `dump` at a depth of at
-- least 0 returns a text, and this parses as the tree, null pointers settled.
pub parse-dump :
    (D : Doubles) (indent : ℤ) (depth n : ℕ) {v : Json D.Num}
    → IsPrintable D v
    → nests n v ≡ true
    → IsFitting indent (depth + n)
    → (text : Bytes) × (dump D indent (pos depth) v ≡ some text) × (parse D text ≡ ok (settle v))
unfolding dump
parse-dump D (negsuc k) depth n {v} x flat fits =
    let whole = parse-Spells D (to_string-Spells D x) AllSpace.nil AllSpace.nil in
    (to_string D v, refl, rw append-nil at whole)
parse-dump D (pos indent) depth n {v} x flat fits =
    let whole = parse-Spells D (dump_at-Spells D indent x depth) AllSpace.nil AllSpace.nil in
    (
      dump_at D indent depth v,
      rw (nests-in_range indent n depth v flat fits) refl,
      rw append-nil at whole,
    )
