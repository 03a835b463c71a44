-- ===== src/Format/Explicit.antt =====
-- Format strings of include/log/format.hpp that name all their arguments.
use high_speed.Prelude.{ℕ, ◌<◌, ◌≡◌, refl, List, [], ◌∷◌, ◌++◌, length, arith, Bytes}
use high_speed.Prelude.{◌⊎◌, inl, inr, Option-cases, Option, none, some, drop}
use high_speed.Format.{
  too_many, invalid_index, index_out_of_range, stoul, split_colon, Error, Result, ok, err, Arg,
  get_arg, manual, vformat,
}
use high_speed.Format.Spelling.{
  Piece, byte, place, spell, AllPieces, print_first, print_placed, render,
}
use high_speed.Format.Pieces.{vformat-render}

-- No `{}`.
pub data AllExplicit : List Piece → Type 0 where
  none_left : AllExplicit []
  any_byte : {c : ℕ} {ps : List Piece} → AllExplicit ps → AllExplicit (byte c ∷ ps)
  any_place :
      {index : Bytes} {spec : Option Bytes} {ps : List Piece}
      → AllExplicit ps
      → AllExplicit (place index spec ∷ ps)

module _ {S : Type 0} (args : List (Arg S)) where
  -- A run that fails in the program.
  abbrev Fails : Result (Bytes × S) → Type 0
  Fails r = (e : Error) × (r ≡ err e)

  pub manual_cases :
      (format_spec : Bytes) (stream : Bytes × S)
      → ((stream' : Bytes × S) × (manual args format_spec stream ≡ ok stream'))
        ⊎ ((e : Error) × (manual args format_spec stream ≡ err e))
  unfolding manual
  manual_cases format_spec (out, s) = elim (Option-cases (stoul (split_colon format_spec).0)) [
    | inl h ↦ inr (invalid_index, rw (manual, h) refl)
    | inr (i, h) ↦ elim (Option-cases (get_arg args i)) [
      | inl k ↦ inr (index_out_of_range, rw (manual, h, k) refl)
      | inr (a, k) ↦
          let (t, s') = a (split_colon format_spec).1 s in
          inl ((out ++ t, s'), rw (manual, h, k) refl)
    ]
  ]

  print_placed_cases :
      (index : Bytes) (spec : Option Bytes) (stream : Bytes × S)
      → ((stream' : Bytes × S) × (print_placed args index spec stream ≡ ok stream'))
        ⊎ ((e : Error) × (print_placed args index spec stream ≡ err e))
  print_placed_cases index spec stream = elim (Option-cases (stoul index)) [
    | inl h ↦ inr (invalid_index, rw (print_placed, h) refl)
    | inr (i, h) ↦
        let text : Bytes = elim spec [ none ↦ [] | some t ↦ t ] in
        rw (print_placed, h) (first_cases (drop i args) text)
  ]
    where
      first_cases :
          (left : List (Arg S)) (text : Bytes)
          → ((stream' : Bytes × S) × (print_first left text index_out_of_range stream ≡ ok stream'))
            ⊎ ((e : Error) × (print_first left text index_out_of_range stream ≡ err e))
      first_cases [] text = inr (index_out_of_range, refl)
      first_cases (a ∷ left) text = inl (_, refl)

  render-Fails :
      (a : Arg S) (left : List (Arg S)) (stream : Bytes × S) {ps : List Piece}
      → AllExplicit ps
      → Fails (render args ps (a ∷ left) stream)
  unfolding render
  render-Fails a left stream none_left = (too_many, refl)
  render-Fails a left stream (any_byte {c} all) =
      render-Fails a left (stream.0 ++ c ∷ [], stream.1) all
  render-Fails a left stream (any_place {index} {spec} {ps} all) =
      elim (print_placed_cases index spec stream) [
        | inl (stream', h) ↦ rw h (render-Fails a left stream' all)
        | inr (e, h) ↦ (e, rw h refl)
      ]

module _ {S : Type 0} where
  -- A format string put together from bytes, with the braces among them doubled, and placeholders, with no
  -- `{}`, fails where there is an argument, though the placeholders may name every argument.
  pub vformat-explicit :
      (args : List (Arg S)) (s : S) {ps : List Piece}
      → 0 < length args
      → AllPieces ps
      → AllExplicit ps
      → (e : Error) × (vformat args s (spell ps) ≡ err e)
  vformat-explicit [] s pos all explicit = absurd (omega arith)
  vformat-explicit (a ∷ args) s {ps} pos all explicit =
      rw (vformat-render (a ∷ args) s all) (render-Fails (a ∷ args) a args ([], s) explicit)
