-- ===== src/Http/Headers.antt =====
-- The block of headers in include/protocol/Http.hpp: its lines, joined by line ends.
use high_speed.Prelude.{
  ℕ, ◌≡◌, refl, sym, ap, ◌∙◌, Bool, true, false, not, ◌&&◌, ◌||◌, List, [], ◌∷◌, ◌++◌, map,
  append_assoc, append-nil, some, arith, Bool-cases, inl, inr, length, length-append, Bytes,
  bytes_eq,
}
use high_speed.Http.{
  line_sep, blank_line, find, starts_with, header_lines, get_lines, add_line, add_lines, set_header,
}
use high_speed.Http.Find.{lacks, lacks-append, find-blank_line, find-blank_line_here}
use high_speed.Http.Lines.{
  is_empty, get_lines-line, get_lines-last, pop_return-append, pop_return_same, split_colon-append,
  no_blank_first, skip_blanks_lem,
}

-- A header as a line can carry it.
abbrev pub is_header : Bytes × Bytes → Bool
is_header (k, v) =
    lacks b':' k
    && (lacks b'\r' k && (lacks b'\n' k && (lacks b'\r' v && (lacks b'\n' v && no_blank_first v))))

abbrev pub has_key : Bytes → List (Bytes × Bytes) → Bool
has_key key [] = false
has_key key ((k, v) ∷ hs) = bytes_eq k key || has_key key hs

-- Headers that lines can carry, with keys that differ from each other and from those seen.
abbrev pub are_headers : List (Bytes × Bytes) → List (Bytes × Bytes) → Bool
are_headers seen [] = true
are_headers seen ((k, v) ∷ hs) =
    is_header (k, v) && (not (has_key k seen) && are_headers (seen ++ (k, v) ∷ []) hs)

abbrev pub header_line : Bytes × Bytes → Bytes
header_line (k, v) = k ++ (b':' ∷ b' ' ∷ v)

abbrev pub join : Bytes → List Bytes → Bytes
join l [] = l
join l (l' ∷ ls) = l ++ (line_sep ++ join l' ls)

-- A line that is not empty and holds no part of a line end.
abbrev is_line : Bytes → Bool
is_line l = not (is_empty l) && (lacks b'\r' l && lacks b'\n' l)

abbrev pub are_lines : Bytes → List Bytes → Bool
are_lines l [] = is_line l
are_lines l (l' ∷ ls) = is_line l && are_lines l' ls

is_empty-append : (k v : Bytes) (c : ℕ) → is_empty (k ++ c ∷ v) ≡ false
is_empty-append [] v c = refl
is_empty-append (x ∷ k) v c = refl

header_line-is_line : (h : Bytes × Bytes) → is_header h ≡ true → is_line (header_line h) ≡ true
header_line-is_line (k, v) h = ground (
  arith,
  is_empty-append k (b' ' ∷ v) b':',
  lacks-append b'\r' k (b':' ∷ b' ' ∷ v),
  lacks-append b'\n' k (b':' ∷ b' ' ∷ v),
)

pub header_lines-are_lines :
    (h : Bytes × Bytes) (hs seen : List (Bytes × Bytes))
    → are_headers seen (h ∷ hs) ≡ true
    → are_lines (header_line h) (map header_line hs) ≡ true
header_lines-are_lines (k, v) [] seen e = header_line-is_line (k, v) (ground arith)
header_lines-are_lines (k, v) (h' ∷ hs) seen e =
    ground (arith, header_line-is_line (k, v), header_lines-are_lines h' hs (seen ++ (k, v) ∷ []))

header_lines-cons :
    (h : Bytes × Bytes) (hs : List (Bytes × Bytes))
    → header_lines (h ∷ hs) ≡ header_line h ++ (line_sep ++ header_lines hs)
unfolding header_lines
header_lines-cons (k, v) hs = sym (append_assoc k (b':' ∷ b' ' ∷ v) (line_sep ++ header_lines hs))

-- What the loop of `serialize_to_string` writes is the lines, each with its end.
pub header_lines-join :
    (h : Bytes × Bytes) (hs : List (Bytes × Bytes))
    → header_lines (h ∷ hs) ≡ join (header_line h) (map header_line hs) ++ line_sep
header_lines-join h [] = header_lines-cons h [] ∙ unfold header_lines in refl
header_lines-join h (h' ∷ hs) =
    header_lines-cons h (h' ∷ hs)
    ∙ rw (header_lines-join h' hs) (
        sym (
          append_assoc (header_line h) (line_sep ++ join (header_line h') (map header_line hs))
            line_sep))

pub starts_with-join :
    (l : Bytes) (ls : List Bytes) (rest : Bytes)
    → are_lines l ls ≡ true
    → starts_with line_sep (join l ls ++ rest) ≡ false
unfolding starts_with
starts_with-join [] [] rest h = cc
starts_with-join [] (l' ∷ ls) rest h = cc
starts_with-join (c ∷ l) [] rest h = ground arith
starts_with-join (c ∷ l) (l' ∷ ls) rest h = ground arith

-- The first blank line stands behind the last line.
pub find-join :
    (l : Bytes) (ls : List Bytes) (rest : Bytes)
    → are_lines l ls ≡ true
    → find blank_line (join l ls ++ (blank_line ++ rest)) ≡ some (length (join l ls))
find-join l [] rest h = find-blank_line_here l rest (ground arith)
find-join l (l' ∷ ls) rest h = rw (append_assoc l (line_sep ++ join l' ls) (blank_line ++ rest)) (
    find-blank_line l (join l' ls ++ (blank_line ++ rest)) (length (join l' ls)) (ground arith)
      (starts_with-join l' ls (blank_line ++ rest) (ground arith))
      (find-join l' ls rest (ground arith))
    ∙ ap some (omega (arith, length-append {0} l (line_sep ++ join l' ls))))

-- The carriage return that `getline` leaves is not seen.
add_line-return :
    (l : Bytes) (hs : List (Bytes × Bytes))
    → lacks b'\r' l ≡ true
    → add_line (l ++ b'\r' ∷ []) hs ≡ add_line l hs
unfolding add_line
add_line-return l hs h = rw (add_line, pop_return-append l, pop_return_same l h) refl

-- The loop over the lines of the block sees each of them.
pub add_lines-join :
    (l : Bytes) (ls : List Bytes) (hs : List (Bytes × Bytes))
    → are_lines l ls ≡ true
    → add_lines (get_lines [] (join l ls)) hs ≡ add_lines (l ∷ ls) hs
unfolding add_lines
add_lines-join l [] hs h = rw (get_lines-last [] l (ground arith) (ground arith)) refl
add_lines-join l (l' ∷ ls) hs h =
    ap (λ t. add_lines (get_lines [] t) hs) (sym (append_assoc l (b'\r' ∷ []) (b'\n' ∷ join l' ls)))
    ∙ rw
        (
          get_lines-line [] (l ++ b'\r' ∷ []) (join l' ls)
              (lacks-append b'\n' l (b'\r' ∷ []) (ground arith) refl),
          add_lines,
          add_line-return l hs (ground arith),
        )
        (add_lines-join l' ls (add_line l hs) (ground arith))

set_header_fresh :
    (k v : Bytes) (hs : List (Bytes × Bytes))
    → has_key k hs ≡ false
    → set_header k v hs ≡ hs ++ (k, v) ∷ []
unfolding set_header
set_header_fresh k v [] h = refl
set_header_fresh k v ((k', v') ∷ hs) h = elim (Bool-cases (bytes_eq k' k)) [
  | inl e ↦ absurd (ground arith)
  | inr e ↦ rw (e, set_header_fresh k v hs (ground arith)) refl
]

add_line_header :
    (k v : Bytes) (hs : List (Bytes × Bytes))
    → is_header (k, v) ≡ true
    → has_key k hs ≡ false
    → add_line (header_line (k, v)) hs ≡ hs ++ (k, v) ∷ []
unfolding add_line
add_line_header k v hs h f =
    rw
      (
        add_line,
        pop_return_same (header_line (k, v)) (ground (arith, header_line-is_line (k, v))),
        split_colon-append k (b' ' ∷ v) (ground arith),
        skip_blanks_lem v (ground arith),
      )
      (set_header_fresh k v hs f)

pub add_lines-header_lines :
    (hs seen : List (Bytes × Bytes))
    → are_headers seen hs ≡ true
    → add_lines (map header_line hs) seen ≡ seen ++ hs
unfolding add_lines
add_lines-header_lines [] seen e = sym (append-nil seen)
add_lines-header_lines ((k, v) ∷ hs) seen e =
    rw (add_lines, add_line_header k v seen (ground arith) (ground arith))
      (add_lines-header_lines hs (seen ++ (k, v) ∷ []) (ground arith)
        ∙ append_assoc seen ((k, v) ∷ []) hs)
