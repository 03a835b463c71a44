-- ===== src/Json/Total/Rounds.antt =====
-- The fuel that one round of the loops of include/protocol/Json.hpp leaves.
use high_speed.Prelude.{
  ℕ, suc, ◌≤◌, ◌<◌, ◌≡◌, refl, Bool, true, false, [], ◌∷◌, ◌++◌, arith, inl, inr, Bool-cases,
  Option-cases, ◌==◌, if◌then◌else◌, length, codes, Bytes,
}
use high_speed.Json.{Json, Members, Elements}
use high_speed.Json.Parser.{
  Error, Result, ok, err, ◌>>=◌, skip_spaces, unescape, string_loop, strip, parse_boolean,
  parse_null, expect_colon, parse_key, after_member, object_round, after_element, array_round,
}
use high_speed.Json.Total.Scan.{length-skip_spaces, strip-le}

-- A run that kept within its fuel, and if it succeeded left fewer than `n` bytes.
pub data Ends {ℓ} {A : Type ℓ} (n : ℕ) : Result (A × Bytes) → Type ℓ where
  leaves : {a : A} {rest : Bytes} → length rest < n → Ends n (ok (a, rest))
  refuses : (e : Error) → Ends n (err e)

module _ {ℓ} {A : Type ℓ} where
  pub Ends-bind {κ} :
      {B : Type κ} {m n : ℕ} {r : Result (A × Bytes)} (f : A × Bytes → Result (B × Bytes))
      → Ends n r
      → ((a : A) (rest : Bytes) → length rest < n → Ends m (f (a, rest)))
      → Ends m (r >>= f)
  Ends-bind f (leaves {a} {rest} h) k = k a rest h
  Ends-bind f (refuses e) k = refuses e

  pub Ends-if :
      {n : ℕ} (b : Bool) {x y : Result (A × Bytes)}
      → (b ≡ true → Ends n x)
      → (b ≡ false → Ends n y)
      → Ends n (if b then x else y)
  Ends-if true hx hy = hx refl
  Ends-if false hx hy = hy refl

  pub Ends-mono : {m n : ℕ} {r : Result (A × Bytes)} → m ≤ n → Ends m r → Ends n r
  Ends-mono h (leaves k) = leaves (omega arith)
  Ends-mono h (refuses e) = refuses e

pub string_loop-Ends : (out bs : Bytes) → Ends (suc (length bs)) (string_loop out bs)
unfolding string_loop
string_loop-Ends out [] = leaves (omega arith)
string_loop-Ends out (c ∷ []) =
    Ends-if (c == b'"') (λ _. leaves (omega arith))
      (λ _. Ends-if (c == b'\\') (λ _. refuses _) (λ _. leaves (omega arith)))
string_loop-Ends out (c ∷ e ∷ cs) =
    Ends-if (c == b'"') (λ _. leaves (omega arith))
      (λ _.
        Ends-if (c == b'\\')
          (λ _. Ends-mono (omega arith) (string_loop-Ends (out ++ unescape e ∷ []) cs))
          (λ _. Ends-mono (omega arith) (string_loop-Ends (out ++ c ∷ []) (e ∷ cs))))

module _ {N : Type 0} where
  pub parse_boolean-Ends : (bs : Bytes) → Ends (length bs) (parse_boolean {N = N} bs)
  unfolding parse_boolean
  parse_boolean-Ends bs = elim (Option-cases (strip (codes "true") bs)) [
    | inr (rest, e) ↦ rw (e, parse_boolean) (leaves (omega (arith, strip-le (codes "true") bs e)))
    | inl e ↦ elim (Option-cases (strip (codes "false") bs)) [
      | inr (rest, e') ↦
          rw (e, parse_boolean, e') (leaves (omega (arith, strip-le (codes "false") bs e')))
      | inl e' ↦ rw (e, parse_boolean, e') (refuses _)
    ]
  ]

  pub parse_null-Ends : (bs : Bytes) → Ends (length bs) (parse_null {N = N} bs)
  unfolding parse_null
  parse_null-Ends bs = elim (Option-cases (strip (codes "null") bs)) [
    | inr (rest, e) ↦ rw (e, parse_null) (leaves (omega (arith, strip-le (codes "null") bs e)))
    | inl e ↦ rw (e, parse_null) (refuses _)
  ]

key_colon-Ends : (key bs : Bytes) → Ends (length bs) (expect_colon bs >>= λ rest. ok (key, rest))
unfolding expect_colon
key_colon-Ends key [] = refuses _
key_colon-Ends key (c ∷ cs) = elim (Bool-cases (c == b':')) [
  | inl e ↦ rw e (leaves (omega arith))
  | inr e ↦ rw e (refuses _)
]

pub parse_key-Ends : (bs : Bytes) → Ends (length bs) (parse_key bs)
unfolding parse_key
parse_key-Ends [] = refuses _
parse_key-Ends (c ∷ cs) =
    Ends-if (c == b'"')
      (λ _. Ends-bind _ (string_loop-Ends [] cs) λ key behind h.
        Ends-mono (omega (arith, length-skip_spaces behind))
          (key_colon-Ends key (skip_spaces behind)))
      (λ _. refuses _)

-- `call` ends on every text shorter than `n`.
abbrev pub EndsBelow {ℓ} : {A : Type ℓ} → ℕ → (Bytes → Result (A × Bytes)) → Type ℓ
EndsBelow n call = (bs : Bytes) → length bs < n → Ends (length bs) (call bs)

module _ {N : Type 0} (n : ℕ) where
  after_member-Ends :
      (more : Bytes → Result (Members N × Bytes)) (k : Bytes) (v : Json N) (bs : Bytes)
      → EndsBelow n more
      → length bs ≤ n
      → Ends (length bs) (after_member more k v bs)
  unfolding after_member
  after_member-Ends more k v [] h le = refuses _
  after_member-Ends more k v (c ∷ cs) h le =
      Ends-if (c == b'}') (λ _. leaves (omega arith))
        (λ _.
          Ends-if (c == b',')
            (λ _. Ends-bind _ (h cs (omega arith)) λ ms rest lt. leaves (omega arith))
            (λ _. refuses _))

  after_element-Ends :
      (more : Bytes → Result (Elements N × Bytes)) (v : Json N) (bs : Bytes)
      → EndsBelow n more
      → length bs ≤ n
      → Ends (length bs) (after_element more v bs)
  unfolding after_element
  after_element-Ends more v [] h le = refuses _
  after_element-Ends more v (c ∷ cs) h le =
      Ends-if (c == b']') (λ _. leaves (omega arith))
        (λ _.
          Ends-if (c == b',')
            (λ _. Ends-bind _ (h cs (omega arith)) λ es rest lt. leaves (omega arith))
            (λ _. refuses _))

  pub object_round-Ends :
      (value : Bytes → Result (Json N × Bytes)) (more : Bytes → Result (Members N × Bytes))
      (bs : Bytes)
      → EndsBelow n value
      → EndsBelow n more
      → length bs ≤ n
      → Ends (length bs) (object_round value more bs)
  unfolding object_round
  object_round-Ends value more bs hv hm le =
      let skipped = length-skip_spaces bs in
      Ends-bind _ (parse_key-Ends (skip_spaces bs)) λ key behind hk.
        let inner = length-skip_spaces behind in
        Ends-bind _ (hv (skip_spaces behind) (omega arith)) λ v rest hr.
          let outer = length-skip_spaces rest in
          Ends-mono (omega arith) (after_member-Ends more key v (skip_spaces rest) hm (omega arith))

  pub array_round-Ends :
      (value : Bytes → Result (Json N × Bytes)) (more : Bytes → Result (Elements N × Bytes))
      (bs : Bytes)
      → Ends (length (skip_spaces bs)) (value (skip_spaces bs))
      → EndsBelow n more
      → length bs ≤ n
      → Ends (length bs) (array_round value more bs)
  unfolding array_round
  array_round-Ends value more bs hv hm le =
      let skipped = length-skip_spaces bs in
      Ends-bind _ hv λ v rest hr.
        let outer = length-skip_spaces rest in
        Ends-mono (omega arith) (after_element-Ends more v (skip_spaces rest) hm (omega arith))
