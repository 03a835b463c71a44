-- ===== src/Buffer/Copy.antt =====
-- The byte moves of include/io/Buffer.hpp (`std::copy`, `resize`) seen through slices.
use high_speed.Prelude.{
  ℕ, zero, suc, ◌+◌, ◌-◌, ◌≤◌, ◌≡◌, refl, ap, [], ◌∷◌, ◌++◌, arith, length, take, drop, length-take,
  length-drop, Bytes, ◌∙◌, sym, take-nil, drop-nil,
}
use high_speed.Buffer.{copy_to, slice}

pub length-copy_to : (xs : Bytes) (i : ℕ) (ds : Bytes) → length (copy_to xs i ds) ≡ length xs
unfolding copy_to
length-copy_to [] i ds = refl
length-copy_to (x ∷ xs) zero [] = refl
length-copy_to (x ∷ xs) zero (d ∷ ds) = ap suc (length-copy_to xs zero ds)
length-copy_to (x ∷ xs) (suc i) ds = ap suc (length-copy_to xs i ds)

take-copy_to_start :
    (xs ds : Bytes) → length ds ≤ length xs → take (length ds) (copy_to xs zero ds) ≡ ds
unfolding copy_to
take-copy_to_start [] [] h = refl
take-copy_to_start [] (d ∷ ds) h = absurd (omega arith)
take-copy_to_start (x ∷ xs) [] h = refl
take-copy_to_start (x ∷ xs) (d ∷ ds) h = ap (◌∷◌ d) (take-copy_to_start xs ds (omega arith))

take-copy_to :
    (xs : Bytes) (w n : ℕ) (ds : Bytes)
    → n ≡ w + length ds
    → n ≤ length xs
    → take n (copy_to xs w ds) ≡ take w xs ++ ds
unfolding copy_to
take-copy_to xs zero n ds e h =
    let e' : n ≡ length ds = omega arith in rw e' (take-copy_to_start xs ds (omega arith))
take-copy_to [] (suc w) n ds e h = absurd (omega arith)
take-copy_to (x ∷ xs) (suc w) zero ds e h = absurd (omega arith)
take-copy_to (x ∷ xs) (suc w) (suc n) ds e h =
    ap (◌∷◌ x) (take-copy_to xs w n ds (omega arith) (omega arith))

drop-copy_to :
    (xs : Bytes) (r w : ℕ) (ds : Bytes)
    → r ≤ w
    → drop r (copy_to xs w ds) ≡ copy_to (drop r xs) (w - r) ds
unfolding copy_to
drop-copy_to xs zero w ds h = ap (λ k. copy_to xs k ds) (omega arith)
drop-copy_to [] (suc r) w ds h = refl
drop-copy_to (x ∷ xs) (suc r) zero ds h = absurd (omega arith)
drop-copy_to (x ∷ xs) (suc r) (suc w) ds h =
    drop-copy_to xs r w ds (omega arith) ∙ ap (λ k. copy_to (drop r xs) k ds) (omega arith)

-- Bytes copied to the end of a slice extend it.
pub slice-copy_to :
    (xs ds : Bytes) (r w j : ℕ)
    → r ≤ w
    → j ≡ w + length ds
    → j ≤ length xs
    → slice (copy_to xs w ds) r j ≡ slice xs r w ++ ds
slice-copy_to xs ds r w j h e k =
    rw (drop-copy_to xs r w ds h)
      (take-copy_to (drop r xs) (w - r) (j - r) ds (omega arith) (omega (arith, length-drop r xs)))

take-append : (n : ℕ) (xs ys : Bytes) → n ≤ length xs → take n (xs ++ ys) ≡ take n xs
take-append zero xs ys h = refl
take-append (suc n) [] ys h = absurd (omega arith)
take-append (suc n) (x ∷ xs) ys h = ap (◌∷◌ x) (take-append n xs ys (omega arith))

drop-append : (n : ℕ) (xs ys : Bytes) → n ≤ length xs → drop n (xs ++ ys) ≡ drop n xs ++ ys
drop-append zero xs ys h = refl
drop-append (suc n) [] ys h = absurd (omega arith)
drop-append (suc n) (x ∷ xs) ys h = drop-append n xs ys (omega arith)

-- A slice does not see what stands behind it.
pub slice-append :
    (xs ys : Bytes) (r w : ℕ) → r ≤ w → w ≤ length xs → slice (xs ++ ys) r w ≡ slice xs r w
slice-append xs ys r w h k =
    rw (drop-append r xs ys (omega arith))
      (take-append (w - r) (drop r xs) ys (omega (arith, length-drop r xs)))

pub take_all : (n : ℕ) (xs : Bytes) → length xs ≤ n → take n xs ≡ xs
take_all zero [] h = refl
take_all zero (x ∷ xs) h = absurd (omega arith)
take_all (suc n) [] h = refl
take_all (suc n) (x ∷ xs) h = ap (◌∷◌ x) (take_all n xs (omega arith))

pub drop_all : (n : ℕ) (xs : Bytes) → length xs ≤ n → drop n xs ≡ []
drop_all zero [] h = refl
drop_all zero (x ∷ xs) h = absurd (omega arith)
drop_all (suc n) [] h = refl
drop_all (suc n) (x ∷ xs) h = drop_all n xs (omega arith)

drop-drop : (m n : ℕ) (xs : Bytes) → drop m (drop n xs) ≡ drop (n + m) xs
drop-drop m zero xs = ap (λ k. drop k xs) (omega arith)
drop-drop m (suc n) [] = drop-nil m ∙ sym (drop-nil (suc n + m))
drop-drop m (suc n) (x ∷ xs) =
    let e : suc (n + m) ≡ suc n + m = omega arith in rw (← e) (drop-drop m n xs)

drop-take : (k n : ℕ) (xs : Bytes) → drop k (take n xs) ≡ take (n - k) (drop k xs)
drop-take zero n xs = ap (λ j. take j xs) (omega arith)
drop-take (suc k) zero [] = sym (take-nil (0 - suc k))
drop-take (suc k) zero (x ∷ xs) = let e : 0 - suc k ≡ zero = omega arith in rw e
drop-take (suc k) (suc n) [] = sym (take-nil (suc n - suc k))
drop-take (suc k) (suc n) (x ∷ xs) =
    let e : n - k ≡ suc n - suc k = omega arith in rw (← e) (drop-take k n xs)

-- Moving the start of a slice by `k` drops its first `k` bytes.
pub slice-drop : (xs : Bytes) (r w k : ℕ) → slice xs (r + k) w ≡ drop k (slice xs r w)
slice-drop xs r w k =
    rw (drop-take k (w - r) (drop r xs), drop-drop k r xs)
      (ap (λ j. take j (drop (r + k) xs)) (omega arith))

pub length-slice : (xs : Bytes) (r w : ℕ) → r ≤ w → w ≤ length xs → length (slice xs r w) ≡ w - r
length-slice xs r w h k = omega (arith, length-take (w - r) (drop r xs), length-drop r xs)

take-take_le : (m n : ℕ) (xs : Bytes) → m ≤ n → take m (take n xs) ≡ take m xs
take-take_le zero n xs h = refl
take-take_le (suc m) zero xs h = absurd (omega arith)
take-take_le (suc m) (suc n) [] h = refl
take-take_le (suc m) (suc n) (x ∷ xs) h = ap (◌∷◌ x) (take-take_le m n xs (omega arith))

-- The first `k` bytes of a slice, read from its start.
pub take-slice : (xs : Bytes) (r w k : ℕ) → k ≤ w - r → take k (slice xs r w) ≡ take k (drop r xs)
take-slice xs r w k h = take-take_le k (w - r) (drop r xs) h
