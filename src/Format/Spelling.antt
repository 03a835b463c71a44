-- ===== src/Format/Spelling.antt =====
-- Format strings of include/log/format.hpp put together from pieces, and what the pieces print, stated without
-- the functions of `vformat`.
use high_speed.Prelude.{
  ℕ, ◌≡◌, Bool, true, false, ◌&&◌, not, List, [], ◌∷◌, ◌++◌, Option, none, some, ◌==◌,
  if◌then◌else◌, drop, Bytes,
}
use high_speed.Format.{
  Error, too_few, too_many, invalid_index, index_out_of_range, Result, ok, err, ◌>>=◌, Arg, stoul,
}

-- No byte of the text is `c`.
abbrev pub lacks : ℕ → Bytes → Bool
lacks c [] = true
lacks c (b ∷ bs) = not (b == c) && lacks c bs

-- A byte to print, a `{}`, and a placeholder `{index}` or `{index:spec}`.
pub data Piece : Type 0 where
  byte : ℕ → Piece
  next : Piece
  place : (index : Bytes) (spec : Option Bytes) → Piece

-- A brace to print is doubled.
abbrev pub spell_byte : ℕ → Bytes
spell_byte c = if c == b'{' then c ∷ c ∷ [] else if c == b'}' then c ∷ c ∷ [] else c ∷ []

-- What stands between the braces.
abbrev pub content : Bytes → Option Bytes → Bytes
content index none = index
content index (some spec) = index ++ b':' ∷ spec

unfoldable pub spell : List Piece → Bytes
spell [] = []
spell (byte c ∷ ps) = spell_byte c ++ spell ps
spell (next ∷ ps) = b'{' ∷ b'}' ∷ spell ps
spell (place index spec ∷ ps) = b'{' ∷ (content index spec ++ b'}' ∷ spell ps)

-- There is a first byte, and it is no `{`.
abbrev pub starts_plain : Bytes → Bool
starts_plain [] = false
starts_plain (c ∷ cs) = not (c == b'{')

-- The bytes of a placeholder are not `}`, the first is no brace at all, and the index has no colon.
pub data AllPieces : List Piece → Type 0 where
  nil : AllPieces []
  cons_byte : (c : ℕ) {ps : List Piece} → AllPieces ps → AllPieces (byte c ∷ ps)
  cons_next : {ps : List Piece} → AllPieces ps → AllPieces (next ∷ ps)
  cons_place :
      {index : Bytes} {spec : Option Bytes} {ps : List Piece}
      → starts_plain (content index spec) ≡ true
      → lacks b'}' (content index spec) ≡ true
      → lacks b':' index ≡ true
      → AllPieces ps
      → AllPieces (place index spec ∷ ps)

module _ {S : Type 0} where
  -- The first of some arguments printed behind the output; an error if there is none.
  abbrev pub print_first : List (Arg S) → (spec : Bytes) → Error → Bytes × S → Result (Bytes × S)
  print_first [] spec e stream = err e
  print_first (a ∷ more) spec e (out, s) = ok (out ++ (a spec s).0, (a spec s).1)

  -- Nothing may be left when the format string ends.
  abbrev pub none_left_over : List (Arg S) → Bytes × S → Result (Bytes × S)
  none_left_over [] stream = ok stream
  none_left_over (a ∷ more) stream = err too_many

module _ {S : Type 0} (args : List (Arg S)) where
  -- A placeholder: its index is read by `std::stoul`, and that argument printed by its specifier.
  abbrev pub print_placed : (index : Bytes) (spec : Option Bytes) → Bytes × S → Result (Bytes × S)
  print_placed index spec stream = elim (stoul index) [
    | none ↦ err invalid_index
    | some i ↦
        print_first (drop i args) (elim spec [ none ↦ [] | some t ↦ t ]) index_out_of_range stream
  ]

  -- The pieces one after the other, with the arguments that no `{}` has taken yet.
  unfoldable pub render : List Piece → List (Arg S) → Bytes × S → Result (Bytes × S)
  render [] left stream = none_left_over left stream
  render (byte c ∷ ps) left (out, s) = render ps left (out ++ c ∷ [], s)
  render (next ∷ ps) left stream = do
    stream' ← print_first left [] too_few stream
    render ps (drop 1 left) stream'
  render (place index spec ∷ ps) left stream = do
    stream' ← print_placed index spec stream
    render ps left stream'
