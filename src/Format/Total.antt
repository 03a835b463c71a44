-- ===== src/Format/Total.antt =====
-- The loop of `vformat` in include/log/format.hpp ends within the fuel that it is given.
use high_speed.Prelude.{
  ℕ, zero, suc, ◌≤◌, ◌≡◌, ◌⊎◌, inl, inr, refl, subst, ltb, List, [], ◌∷◌, Option, none, some, ◌==◌,
  arith, Bool-cases, Option-cases, length, Bytes,
}
use high_speed.Format.{
  Error, Result, ok, err, ◌>>=◌, Arg, get_arg, find_close, automatic, argument, close_brace,
  placeholder, open_brace, round, vformat_loop, all_used, vformat, too_few, unmatched_open,
  too_many,
}
use high_speed.Format.Explicit.{manual_cases}

-- A call that kept within its fuel.
data Ends {A : Type 0} : Result A → Type 0 where
  returns : (a : A) → Ends (ok a)
  throws : (e : Error) → Ends (err e)

-- A round that leaves at most `n` bytes of the format string.
data Shrinks {S : Type 0} (n : ℕ) : Result ((Bytes × S) × ℕ × Bytes) → Type 0 where
  leaves :
      {stream : Bytes × S} {k : ℕ} {rest : Bytes}
      → length rest ≤ n
      → Shrinks n (ok (stream, k, rest))
  refuses : (e : Error) → Shrinks n (err e)

-- A search that leaves at most `n` bytes if it finds anything.
abbrev Fits : ℕ → Option (Bytes × Bytes) → Type 0
Fits n none = Unit
Fits n (some (spec, rest)) = length rest ≤ n

Fits-further :
    (n c : ℕ) (o : Option (Bytes × Bytes))
    → Fits n o
    → Fits (suc n) (elim o [ none ↦ none | some (spec, rest) ↦ some (c ∷ spec, rest) ])
Fits-further n c none h = tt
Fits-further n c (some (spec, rest)) h = omega arith

find_close-Fits : (bs : Bytes) → Fits (length bs) (find_close bs)
unfolding find_close
find_close-Fits [] = tt
find_close-Fits (c ∷ cs) = elim (Bool-cases (c == b'}')) [
  | inl h ↦ rw h (omega arith)
  | inr h ↦ rw h (Fits-further (length cs) c (find_close cs) (find_close-Fits cs))
]

module _ {S : Type 0} (args : List (Arg S)) where
  argument-Ends : (k : ℕ) (spec : Bytes) (stream : Bytes × S) → Ends (argument args k spec stream)
  unfolding argument automatic
  argument-Ends k [] (out, s) = elim (Option-cases (get_arg args k)) [
    | inl h ↦ rw (automatic, h) (throws too_few)
    | inr (a, h) ↦ rw (automatic, h) (returns _)
  ]
  argument-Ends k (c ∷ cs) stream = elim (manual_cases args (c ∷ cs) stream) [
    | inl (stream', h) ↦ rw h (returns _)
    | inr (e, h) ↦ rw h (throws e)
  ]

  bind-Shrinks :
      {n : ℕ} (r : Result ((Bytes × S) × ℕ)) (rest : Bytes)
      → Ends r
      → length rest ≤ n
      → Shrinks n (r >>= λ (stream, k). ok (stream, k, rest))
  bind-Shrinks r rest (returns a) h = leaves h
  bind-Shrinks r rest (throws e) h = refuses e

  placeholder-Shrinks :
      (k : ℕ) (stream : Bytes × S) (bs : Bytes) → Shrinks (length bs) (placeholder args k stream bs)
  unfolding placeholder
  placeholder-Shrinks k stream bs = elim (Option-cases (find_close bs)) [
    | inl h ↦ rw (placeholder, h) (refuses unmatched_open)
    | inr ((spec, rest), h) ↦
        rw (placeholder, h)
          (bind-Shrinks (argument args k spec stream) rest (argument-Ends k spec stream)
            (subst (Fits (length bs)) h (find_close-Fits bs)))
  ]

  Shrinks-mono :
      {m n : ℕ} {r : Result ((Bytes × S) × ℕ × Bytes)} → m ≤ n → Shrinks m r → Shrinks n r
  Shrinks-mono h (leaves k) = leaves (omega arith)
  Shrinks-mono h (refuses e) = refuses e

  close_brace-Shrinks :
      (k : ℕ) (stream : Bytes × S) (cs : Bytes) → Shrinks (length cs) (close_brace args k stream cs)
  unfolding close_brace
  close_brace-Shrinks k stream [] = refuses _
  close_brace-Shrinks k stream (c ∷ cs) = elim (Bool-cases (c == b'}')) [
    | inl h ↦ rw h (leaves (omega arith))
    | inr h ↦ rw h (refuses _)
  ]

  open_brace-Shrinks :
      (k : ℕ) (stream : Bytes × S) (cs : Bytes) → Shrinks (length cs) (open_brace args k stream cs)
  unfolding open_brace
  open_brace-Shrinks k stream [] = placeholder-Shrinks k stream []
  open_brace-Shrinks k stream (c ∷ cs) = elim (Bool-cases (c == b'{')) [
    | inl h ↦ rw h (leaves (omega arith))
    | inr h ↦ rw h (placeholder-Shrinks k stream (c ∷ cs))
  ]

  round-Shrinks :
      (k : ℕ) (stream : Bytes × S) (c : ℕ) (cs : Bytes)
      → Shrinks (length cs) (round args k stream c cs)
  unfolding round
  round-Shrinks k stream c cs = elim (Bool-cases (c == b'}')) [
    | inl h ↦ rw h (close_brace-Shrinks k stream cs)
    | inr h ↦ elim (Bool-cases (c == b'{')) [
      | inl h' ↦ rw (h, h') (open_brace-Shrinks k stream cs)
      | inr h' ↦ rw (h, h') (leaves (omega arith))
    ]
  ]

  bind-Ends :
      {n : ℕ} {B : Type 0} {r : Result ((Bytes × S) × ℕ × Bytes)}
      (f : (Bytes × S) × ℕ × Bytes → Result B)
      → Shrinks n r
      → ((stream : Bytes × S) (k : ℕ) (rest : Bytes) → length rest ≤ n → Ends (f (stream, k, rest)))
      → Ends (r >>= f)
  bind-Ends f (leaves {stream} {k} {rest} h) go = go stream k rest h
  bind-Ends f (refuses e) go = throws e

  loop-Ends :
      (fuel k : ℕ) (stream : Bytes × S) (bs : Bytes)
      → length bs ≤ fuel
      → Ends (vformat_loop args fuel k stream bs)
  unfolding vformat_loop
  loop-Ends zero k stream [] h = returns _
  loop-Ends (suc fuel) k stream [] h = returns _
  loop-Ends zero k stream (c ∷ cs) h = absurd (omega arith)
  loop-Ends (suc fuel) k stream (c ∷ cs) h =
      bind-Ends _ (round-Shrinks k stream c cs)
        λ stream' k' rest le. loop-Ends fuel k' stream' rest (omega arith)

  -- Whatever the format string and the arguments, `vformat` returns a text or throws: it never spends
  -- its fuel, one unit for each byte of the format string.
  pub vformat-total :
      (s : S) (fmt : Bytes)
      → ((out : Bytes × S) × (vformat args s fmt ≡ ok out))
        ⊎ ((e : Error) × (vformat args s fmt ≡ err e))
  unfolding vformat all_used
  vformat-total s fmt = go (loop-Ends (length fmt) 0 ([], s) fmt (omega arith))
    where
      go :
          {r : Result ((Bytes × S) × ℕ)}
          → Ends r
          → ((out : Bytes × S) × ((r >>= all_used args) ≡ ok out))
            ⊎ ((e : Error) × ((r >>= all_used args) ≡ err e))
      go (returns (out, k)) = elim (Bool-cases (ltb k (length args))) [
        | inl h ↦ inr (too_many, rw h refl)
        | inr h ↦ inl (out, rw h refl)
      ]
      go (throws e) = inr (e, refl)
