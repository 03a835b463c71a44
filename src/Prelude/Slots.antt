-- ===== src/Prelude/Slots.antt =====
-- Numbered variables: a list of what they hold, and totals over it.
use Prim.Native.Nat.{ℕ, zero, suc, ◌+◌}
use mathlib.Core.Path.{◌≡◌, refl, ap}
use mathlib.Core.Logic.{◌≢◌}
use mathlib.Core.Option.{Option, none, some}
use mathlib.Core.List.{List, [], ◌∷◌}
use native.Mathlib.Omega.{arith}
use high_speed.Prelude.Lists.{total}
use high_speed.Prelude.Tests.{◌==◌, if◌then◌else◌}

module _ {ℓ} {A : Type ℓ} where
  abbrev pub get_elem? : List A → ℕ → Option A
  get_elem? [] i = none
  get_elem? (x ∷ xs) zero = some x
  get_elem? (x ∷ xs) (suc i) = get_elem? xs i

  abbrev pub put : ℕ → A → List A → List A
  put i y [] = []
  put zero y (x ∷ xs) = y ∷ xs
  put (suc i) y (x ∷ xs) = x ∷ put i y xs

  -- Without the variable.
  abbrev pub remove : ℕ → List A → List A
  remove i [] = []
  remove zero (x ∷ xs) = xs
  remove (suc i) (x ∷ xs) = x ∷ remove i xs

  pub total-put :
      (f : A → ℕ) (i : ℕ) (xs : List A) {x : A} (y : A)
      → get_elem? xs i ≡ some x
      → total f (put i y xs) + f x ≡ total f xs + f y
  total-put f i [] y e = cc
  total-put f zero (a ∷ xs) {x} y e = let same : a ≡ x = cc in omega (arith, ap f same)
  total-put f (suc i) (a ∷ xs) y e = omega (arith, total-put f i xs y e)

  pub total-remove :
      (f : A → ℕ) (i : ℕ) (xs : List A) {x : A}
      → get_elem? xs i ≡ some x
      → total f (remove i xs) + f x ≡ total f xs
  total-remove f i [] e = cc
  total-remove f zero (a ∷ xs) {x} e = let same : a ≡ x = cc in omega (arith, ap f same)
  total-remove f (suc i) (a ∷ xs) e = omega (arith, total-remove f i xs e)

  pub get_elem?-put_ne :
      (i j : ℕ) (xs : List A) (y : A) → i ≢ j → get_elem? (put i y xs) j ≡ get_elem? xs j
  get_elem?-put_ne i j [] y n = refl
  get_elem?-put_ne zero zero (a ∷ xs) y n = absurd (n refl)
  get_elem?-put_ne zero (suc j) (a ∷ xs) y n = refl
  get_elem?-put_ne (suc i) zero (a ∷ xs) y n = refl
  get_elem?-put_ne (suc i) (suc j) (a ∷ xs) y n = get_elem?-put_ne i j xs y (λ e. n (ap suc e))

-- How often a number stands in a list.
abbrev pub is_one : ℕ → ℕ → ℕ
is_one n k = if k == n then 1 else 0

-- How often a handle stands in a variable.
abbrev pub owns : ℕ → Option ℕ → ℕ
owns n none = 0
owns n (some k) = is_one n k
