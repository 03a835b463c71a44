-- ===== src/Format/Pieces.antt =====
-- What `vformat` of include/log/format.hpp does to a format string put together from pieces.
use high_speed.Prelude.{
  ℕ, zero, suc, ◌≤◌, ◌<◌, ◌≡◌, ◌⊎◌, inl, inr, refl, sym, ap, ==→eq, ◌∙◌, true, false, List, [], ◌∷◌,
  ◌++◌, Option, none, some, ltb, ◌==◌, length, length-append, drop, drop-nil, arith, Bool-cases,
  Option-cases, Bytes,
}
use high_speed.Format.{
  too_few, Result, ok, err, out_of_fuel, ◌>>=◌, Arg, get_arg, stoul, split_colon, find_close,
  manual, automatic, argument, close_brace, placeholder, open_brace, round, vformat_loop, all_used,
  vformat,
}
use high_speed.Format.Spelling.{
  lacks, Piece, spell_byte, content, spell, starts_plain, AllPieces, nil, cons_byte, cons_next,
  cons_place, print_first, none_left_over, print_placed, render,
}

find_close-append :
    (spec rest : Bytes)
    → lacks b'}' spec ≡ true
    → find_close (spec ++ b'}' ∷ rest) ≡ some (spec, rest)
unfolding find_close
find_close-append [] rest h = refl
find_close-append (c ∷ cs) rest h = elim (Bool-cases (c == b'}')) [
  | inl e ↦ absurd (ground arith)
  | inr e ↦ rw (e, find_close-append cs rest (ground arith)) refl
]

spell_byte-lt : (c : ℕ) → 0 < length (spell_byte c)
spell_byte-lt c = ground arith

bind_ext :
    {A B : Type 0} (r : Result A) {f g : A → Result B}
    → ((a : A) → f a ≡ g a)
    → (r >>= f) ≡ (r >>= g)
bind_ext (ok a) h = h a
bind_ext (err e) h = refl
bind_ext out_of_fuel h = refl

split_colon-content :
    (index : Bytes) (spec : Option Bytes)
    → lacks b':' index ≡ true
    → split_colon (content index spec) ≡ (index, elim spec [ none ↦ [] | some t ↦ t ])
unfolding split_colon
split_colon-content [] none h = refl
split_colon-content [] (some spec) h = refl
split_colon-content (c ∷ cs) none h =
    let other : (c == b':') ≡ false = ground arith in
    rw (other, split_colon-content cs none (ground arith)) refl
split_colon-content (c ∷ cs) (some spec) h =
    let other : (c == b':') ≡ false = ground arith in
    rw (other, split_colon-content cs (some spec) (ground arith)) refl

module _ {S : Type 0} where
  -- `get_arg` finds the head of what `drop` leaves.
  get_arg-drop :
      (args : List (Arg S)) (i : ℕ)
      → ((get_arg args i ≡ none) × (drop i args ≡ []))
        ⊎ ((a : Arg S) × (get_arg args i ≡ some a) × (drop i args ≡ a ∷ drop (suc i) args))
  unfolding get_arg
  get_arg-drop [] zero = inl (refl, refl)
  get_arg-drop [] (suc i) = inl (refl, refl)
  get_arg-drop (a ∷ args) zero = inr (a, refl, refl)
  get_arg-drop (a ∷ args) (suc i) = get_arg-drop args i

  drop_one : (args : List (Arg S)) (k : ℕ) → drop 1 (drop k args) ≡ drop (suc k) args
  drop_one [] zero = refl
  drop_one [] (suc k) = refl
  drop_one (a ∷ args) zero = refl
  drop_one (a ∷ args) (suc k) = drop_one args k

  automatic-print_first :
      (args : List (Arg S)) (k : ℕ) (stream : Bytes × S)
      → automatic args k stream
        ≡ (print_first (drop k args) [] too_few stream >>= λ stream'. ok (stream', suc k))
  unfolding automatic
  automatic-print_first args k stream = elim (get_arg-drop args k) [
    | inl (e, f) ↦ rw (automatic, e, f) refl
    | inr (a, e, f) ↦ rw (automatic, e, f) refl
  ]

  manual-print_placed :
      (args : List (Arg S)) (index : Bytes) (spec : Option Bytes) (stream : Bytes × S)
      → lacks b':' index ≡ true
      → manual args (content index spec) stream ≡ print_placed args index spec stream
  unfolding manual
  manual-print_placed args index spec stream h = elim (Option-cases (stoul index)) [
    | inl e ↦ rw (manual, print_placed, split_colon-content index spec h, e) refl
    | inr (i, e) ↦ elim (get_arg-drop args i) [
      | inl (f, g) ↦ rw (manual, print_placed, split_colon-content index spec h, e, f, g) refl
      | inr (a, f, g) ↦
          rw
            (
              manual,
              print_placed,
              split_colon-content index spec h,
              e,
              f,
              g,
              ap (λ (p : Bytes × Bytes). p.1) (split_colon-content index spec h),
            )
            refl
    ]
  ]

  all_used-none_left_over :
      (args : List (Arg S)) (k : ℕ) (stream : Bytes × S)
      → all_used args (stream, k) ≡ none_left_over (drop k args) stream
  unfolding all_used
  all_used-none_left_over [] k stream = rw (drop-nil k) (ground arith)
  all_used-none_left_over (a ∷ args) zero stream = ground arith
  all_used-none_left_over (a ∷ args) (suc k) stream =
      let same : ltb (suc k) (length (a ∷ args)) ≡ ltb k (length args) = ground arith in
      rw same (all_used-none_left_over args k stream)

module _ {S : Type 0} (args : List (Arg S)) where
  loop-byte :
      (fuel k c : ℕ) (out : Bytes) (s : S) (rest : Bytes)
      → vformat_loop args (suc fuel) k (out, s) (spell_byte c ++ rest)
        ≡ vformat_loop args fuel k (out ++ c ∷ [], s) rest
  unfolding vformat_loop round open_brace close_brace
  loop-byte fuel k c out s rest = elim (Bool-cases (c == b'{')) [
    | inl e ↦ let at : c ≡ b'{' = ==→eq c b'{' e in rw at refl
    | inr e ↦ elim (Bool-cases (c == b'}')) [
      | inl e' ↦ let at : c ≡ b'}' = ==→eq c b'}' e' in rw at refl
      | inr e' ↦ rw (e, e', round, e', e) refl
    ]
  ]

  -- The rounds on `rest`, and the check behind them.
  abbrev Finish : (fuel : ℕ) (rest : Bytes) → ℕ → Bytes × S → Result (Bytes × S)
  Finish fuel rest k stream = vformat_loop args fuel k stream rest >>= all_used args

  next_finished :
      (fuel k : ℕ) (rest : Bytes) (r : Result (Bytes × S))
      → ((((r >>= λ stream. ok (stream, suc k)) >>= λ (stream, k'). ok (stream, k', rest))
            >>= λ (stream, k', behind). vformat_loop args fuel k' stream behind)
          >>= all_used args)
        ≡ (r >>= Finish fuel rest (suc k))
  next_finished fuel k rest (ok p) = refl
  next_finished fuel k rest (err e) = refl
  next_finished fuel k rest out_of_fuel = refl

  place_finished :
      (fuel k : ℕ) (rest : Bytes) (r : Result (Bytes × S))
      → ((((r >>= λ stream. ok (stream, k)) >>= λ (stream, k'). ok (stream, k', rest))
            >>= λ (stream, k', behind). vformat_loop args fuel k' stream behind)
          >>= all_used args)
        ≡ (r >>= Finish fuel rest k)
  place_finished fuel k rest (ok p) = refl
  place_finished fuel k rest (err e) = refl
  place_finished fuel k rest out_of_fuel = refl

  loop-next :
      (fuel k : ℕ) (stream : Bytes × S) (rest : Bytes)
      → Finish (suc fuel) (b'{' ∷ b'}' ∷ rest) k stream
        ≡ (print_first (drop k args) [] too_few stream >>= Finish fuel rest (suc k))
  unfolding vformat_loop round open_brace placeholder argument find_close
  loop-next fuel k stream rest =
      rw (automatic-print_first args k stream)
        (next_finished fuel k rest (print_first (drop k args) [] too_few stream))

  loop-place :
      (fuel k : ℕ) (text : Bytes) (stream : Bytes × S) (rest : Bytes)
      → starts_plain text ≡ true
      → lacks b'}' text ≡ true
      → Finish (suc fuel) (b'{' ∷ (text ++ b'}' ∷ rest)) k stream
        ≡ (manual args text stream >>= Finish fuel rest k)
  unfolding vformat_loop round open_brace placeholder argument
  loop-place fuel k [] stream rest n h = absurd (ground arith)
  loop-place fuel k (c ∷ cs) stream rest n h =
      let plain : (c == b'{') ≡ false = ground arith in
      rw (plain, placeholder, find_close-append (c ∷ cs) rest h)
        (place_finished fuel k rest (manual args (c ∷ cs) stream))

  -- Enough fuel for the bytes spells out the pieces' meaning.
  loop-render :
      (fuel k : ℕ) (stream : Bytes × S) {ps : List Piece}
      → AllPieces ps
      → length (spell ps) ≤ fuel
      → Finish fuel (spell ps) k stream ≡ render args ps (drop k args) stream
  unfolding spell render vformat_loop
  loop-render zero k stream nil h = all_used-none_left_over args k stream
  loop-render (suc fuel) k stream nil h = all_used-none_left_over args k stream
  loop-render zero k stream (cons_byte c {ps} all) h =
      absurd (omega (arith, length-append (spell_byte c) (spell ps), spell_byte-lt c))
  loop-render zero k stream (cons_next all) h = absurd (omega arith)
  loop-render zero k stream (cons_place n l i all) h = absurd (omega arith)
  loop-render (suc fuel) k (out, s) (cons_byte c {ps} all) h =
      ap (λ r. r >>= all_used args) (loop-byte fuel k c out s (spell ps))
      ∙ loop-render fuel k (out ++ c ∷ [], s) all
          (omega (arith, length-append (spell_byte c) (spell ps), spell_byte-lt c))
  loop-render (suc fuel) k stream (cons_next {ps} all) h =
      loop-next fuel k stream (spell ps)
      ∙ bind_ext (print_first (drop k args) [] too_few stream) (λ stream'.
        loop-render fuel (suc k) stream' all (omega arith)
        ∙ ap (λ left. render args ps left stream') (sym (drop_one args k)))
  loop-render (suc fuel) k stream (cons_place {index} {spec} {ps} n l i all) h =
      loop-place fuel k (content index spec) stream (spell ps) n l
      ∙ ap (λ r. r >>= Finish fuel (spell ps) k) (manual-print_placed args index spec stream i)
      ∙ bind_ext (print_placed args index spec stream) (λ stream'.
        loop-render fuel k stream' all
          (omega (arith, length-append (content index spec) (b'}' ∷ spell ps))))

  -- A format string put together from bytes, `{}`s and placeholders, with the braces among the bytes
  -- doubled, prints them in order: a `{}` the next argument, a placeholder the one whose index
  -- `std::stoul` reads, by its specifier. The call fails at the first piece that finds no index or no
  -- argument, or at the end if there are more arguments than `{}`s.
  pub vformat-render :
      (s : S) {ps : List Piece}
      → AllPieces ps
      → vformat args s (spell ps) ≡ render args ps args ([], s)
  unfolding vformat
  vformat-render s {ps} all = loop-render (length (spell ps)) 0 ([], s) all (omega arith)
