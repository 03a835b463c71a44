-- ===== src/Handles/Owned.antt =====
-- Each frame that was made has one owner, was destroyed or was given away.
use high_speed.Prelude.{
  ℕ, ◌+◌, ◌≡◌, ◌≢◌, refl, ◌∙◌, [], ◌∷◌, Option, none, some, inl, inr, ltb, ◌==◌, get_elem?, put,
  total, total-append, total-put, total-remove, get_elem?-put_ne, is_one, owns, flag, Bool-cases,
  arith,
}
use high_speed.Handles.{
  Handles, no_handles, make, make_empty, destroys, move_out, move, assign_over, move_assign, end_of,
  destruct, release_from, release,
}

-- For the handle `h`: destroyed, given away or owned, once if it was made.
unfoldable pub IsOwned : ℕ → Handles → Type 0
IsOwned h s =
    total (is_one h) s.destroyed + total (is_one h) s.released + total (owns h) s.variables
    ≡ flag (ltb h s.made)

pub no_handles-IsOwned : (h : ℕ) → IsOwned h no_handles
unfolding IsOwned
no_handles-IsOwned h = ground arith

made_one : (h m : ℕ) → flag (ltb h (m + 1)) ≡ flag (ltb h m) + is_one h m
made_one h m = ground arith

pub make-IsOwned : (h : ℕ) (s : Handles) → IsOwned h s → IsOwned h (make s)
unfolding IsOwned make
make-IsOwned h s k =
    omega (arith, made_one h s.made, total-append (owns h) s.variables (some s.made ∷ []))

pub make_empty-IsOwned : (h : ℕ) (s : Handles) → IsOwned h s → IsOwned h (make_empty s)
unfolding IsOwned make_empty
make_empty-IsOwned h s k = omega (arith, total-append (owns h) s.variables (none ∷ []))

total-destroys : (h : ℕ) (o : Option ℕ) → total (is_one h) (destroys o) ≡ owns h o
unfolding destroys
total-destroys h none = refl
total-destroys h (some n) = omega arith

move_out-IsOwned :
    (h i : ℕ) (o : Option (Option ℕ)) (s : Handles)
    → get_elem? s.variables i ≡ o
    → IsOwned h s
    → IsOwned h (move_out i o s)
unfolding IsOwned move_out
move_out-IsOwned h i none s e k = k
move_out-IsOwned h i (some other) s e k = omega (
  arith,
  total-put (owns h) i s.variables none e,
  total-append (owns h) (put i none s.variables) (other ∷ []),
)

pub move-IsOwned : (h i : ℕ) (s : Handles) → IsOwned h s → IsOwned h (move i s)
unfolding move
move-IsOwned h i s k = move_out-IsOwned h i (get_elem? s.variables i) s refl k

assign_over-IsOwned :
    (h i j : ℕ) (o p : Option (Option ℕ)) (s : Handles)
    → i ≢ j
    → get_elem? s.variables i ≡ o
    → get_elem? s.variables j ≡ p
    → IsOwned h s
    → IsOwned h (assign_over i j o p s)
unfolding IsOwned assign_over
assign_over-IsOwned h i j none p s n e f k = k
assign_over-IsOwned h i j (some this) none s n e f k = k
assign_over-IsOwned h i j (some this) (some other) s n e f k = omega (
  arith,
  total-put (owns h) i s.variables other e,
  total-put (owns h) j (put i other s.variables) none
      (get_elem?-put_ne i j s.variables other n ∙ f),
  total-append (is_one h) s.destroyed (destroys this),
  total-destroys h this,
)

pub move_assign-IsOwned : (h i j : ℕ) (s : Handles) → IsOwned h s → IsOwned h (move_assign i j s)
unfolding move_assign
move_assign-IsOwned h i j s k = elim (Bool-cases (i == j)) [
  | inl e ↦ rw e k
  | inr e ↦ rw e (
      assign_over-IsOwned h i j (get_elem? s.variables i) (get_elem? s.variables j) s (ground arith)
        refl refl k)
]

end_of-IsOwned :
    (h i : ℕ) (o : Option (Option ℕ)) (s : Handles)
    → get_elem? s.variables i ≡ o
    → IsOwned h s
    → IsOwned h (end_of i o s)
unfolding IsOwned end_of
end_of-IsOwned h i none s e k = k
end_of-IsOwned h i (some o) s e k = omega (
  arith,
  total-remove (owns h) i s.variables e,
  total-append (is_one h) s.destroyed (destroys o),
  total-destroys h o,
)

pub destruct-IsOwned : (h i : ℕ) (s : Handles) → IsOwned h s → IsOwned h (destruct i s)
unfolding destruct
destruct-IsOwned h i s k = end_of-IsOwned h i (get_elem? s.variables i) s refl k

release_from-IsOwned :
    (h i : ℕ) (o : Option (Option ℕ)) (s : Handles)
    → get_elem? s.variables i ≡ o
    → IsOwned h s
    → IsOwned h (release_from i o s)
unfolding IsOwned release_from
release_from-IsOwned h i none s e k = k
release_from-IsOwned h i (some none) s e k = k
release_from-IsOwned h i (some (some g)) s e k =
    omega
      (arith, total-put (owns h) i s.variables none e, total-append (is_one h) s.released (g ∷ []))

pub release-IsOwned : (h i : ℕ) (s : Handles) → IsOwned h s → IsOwned h (release i s)
unfolding release
release-IsOwned h i s k = release_from-IsOwned h i (get_elem? s.variables i) s refl k
