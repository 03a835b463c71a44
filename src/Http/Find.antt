-- ===== src/Http/Find.antt =====
-- Where `find` of include/protocol/Http.hpp stops in texts put together from lines.
use high_speed.Prelude.{
  inl, inr, ℕ, ◌+◌, ◌≡◌, refl, ap, ◌∙◌, Bool, true, false, not, ◌&&◌, [], ◌∷◌, ◌++◌, some, arith,
  ◌==◌, Bool-cases, length, Bytes,
}
use high_speed.Http.{line_sep, blank_line, starts_with, find}

-- No byte of the text is `c`.
abbrev pub lacks : ℕ → Bytes → Bool
lacks c [] = true
lacks c (b ∷ bs) = not (b == c) && lacks c bs

pub lacks-append :
    (c : ℕ) (xs ys : Bytes) → lacks c xs ≡ true → lacks c ys ≡ true → lacks c (xs ++ ys) ≡ true
lacks-append c [] ys h k = k
lacks-append c (x ∷ xs) ys h k = ground (arith, lacks-append c xs ys)

-- A text without the pattern's first byte is passed over.
pub find-skip :
    (c : ℕ) (pattern line rest : Bytes) (n : ℕ)
    → lacks c line ≡ true
    → find (c ∷ pattern) rest ≡ some n
    → find (c ∷ pattern) (line ++ rest) ≡ some (length line + n)
unfolding find starts_with
find-skip c pattern [] rest n h e = e ∙ ap some (omega arith)
find-skip c pattern (b ∷ line) rest n h e = elim (Bool-cases (b == c)) [
  | inl k ↦ absurd (ground arith)
  | inr k ↦ rw (k, find-skip c pattern line rest n (ground arith) e) (ap some (omega arith))
]

pub find-line_sep :
    (line rest : Bytes)
    → lacks b'\r' line ≡ true
    → find line_sep (line ++ (line_sep ++ rest)) ≡ some (length line)
find-line_sep line rest h =
    find-skip b'\r' (b'\n' ∷ []) line (line_sep ++ rest) 0 h (unfold find starts_with in refl)
    ∙ ap some (omega arith)

line_sep-blank_line :
    (rest : Bytes) (n : ℕ)
    → starts_with line_sep rest ≡ false
    → find blank_line rest ≡ some n
    → find blank_line (line_sep ++ rest) ≡ some (2 + n)
unfolding find starts_with
line_sep-blank_line rest n s e = rw (s, e) (ap some (omega arith))

-- The first blank line is not between a line and a text that does not start with a line end.
pub find-blank_line :
    (line rest : Bytes) (n : ℕ)
    → lacks b'\r' line ≡ true
    → starts_with line_sep rest ≡ false
    → find blank_line rest ≡ some n
    → find blank_line (line ++ (line_sep ++ rest)) ≡ some (length line + (2 + n))
find-blank_line line rest n h s e =
    find-skip b'\r' (b'\n' ∷ line_sep) line (line_sep ++ rest) (2 + n) h
      (line_sep-blank_line rest n s e)

pub find-blank_line_here :
    (line rest : Bytes)
    → lacks b'\r' line ≡ true
    → find blank_line (line ++ (blank_line ++ rest)) ≡ some (length line)
find-blank_line_here line rest h =
    find-skip b'\r' (b'\n' ∷ line_sep) line (blank_line ++ rest) 0 h
      (unfold find starts_with in refl)
    ∙ ap some (omega arith)
