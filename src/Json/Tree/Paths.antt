-- ===== src/Json/Tree/Paths.antt =====
-- Assignments through the proxies of include/protocol/Json.hpp.
use mathlib.Core.Path.{fun_ext}
use high_speed.Prelude.{
  bytes_eq, ℕ, ◌≡◌, ◌≢◌, refl, ap, ◌∙◌, false, List, ◌∷◌, some, inl, inr, ◌⊎◌, Option-cases, Bytes,
}
use high_speed.Json.{Json, Members, Elements, object, array}
use high_speed.Json.Tree.{
  members_of, elements_of, member_at, element_at, ok, err, Access, AccessError, update_member,
  update_element, Step, key, index, update_at, assign, value_at, AllSmall,
}
use high_speed.Json.Tree.Keys.{
  found, found-eq, member_at-update_member, member_at-update_member_ne, update_member-update_member,
}
use high_speed.Json.Tree.Slots.{
  slot, slot-eq, element_at-update_element, element_at-update_element_ne,
  update_element-update_element,
}

module _ {N : Type 0} where
  update_at-found :
      {p : List Step} (x v : Json N) → AllSmall p → value_at p (update_at p (λ _. x) v) ≡ some x
  unfolding update_at value_at
  update_at-found x v AllSmall.nil = refl
  update_at-found x v (AllSmall.below_key k {p} a) =
      rw (member_at-update_member k (update_at p (λ _. x)) (members_of v), value_at)
        (update_at-found x (found (members_of v) k) a)
  update_at-found x v (AllSmall.below_index {i} {p} h a) =
      rw (element_at-update_element i (update_at p (λ _. x)) (elements_of v) h, value_at)
        (update_at-found x (slot (elements_of v) i) a)

  update_at-update_at :
      {p : List Step} (x y v : Json N)
      → AllSmall p
      → update_at p (λ _. y) (update_at p (λ _. x) v) ≡ update_at p (λ _. y) v
  unfolding update_at members_of elements_of
  update_at-update_at x y v AllSmall.nil = refl
  update_at-update_at x y v (AllSmall.below_key k {p} a) = ap object (
      update_member-update_member k (update_at p (λ _. x)) (update_at p (λ _. y)) (members_of v)
      ∙ ap (λ g. update_member k g (members_of v)) (fun_ext (λ w. update_at-update_at x y w a)))
  update_at-update_at x y v (AllSmall.below_index {i} {p} h a) = ap array (
      update_element-update_element i (update_at p (λ _. x)) (update_at p (λ _. y)) (elements_of v)
        h
      ∙ ap (λ g. update_element i g (elements_of v)) (fun_ext (λ w. update_at-update_at x y w a)))

  -- After `root[s1][s2]… = x` the const accessors find `x` along the same steps, whatever the root
  -- was, where no index asks for more elements than a vector can hold: objects and arrays are made and
  -- grown on the way; and a second assignment along the same steps leaves nothing of the first.
  pub value_at-assign :
      {p : List Step} (x y v : Json N)
      → AllSmall p
      → (value_at p (assign p x v) ≡ some x) × (assign p y (assign p x v) ≡ assign p y v)
  unfolding assign
  value_at-assign x y v small = (update_at-found x v small, update_at-update_at x y v small)

Access-cases {ℓ} :
    {A : Type ℓ} (r : Access A) → ((a : A) × (r ≡ ok a)) ⊎ ((e : AccessError) × (r ≡ err e))
Access-cases (ok a) = inl (a, refl)
Access-cases (err e) = inr (e, refl)

-- The paths part at different keys of an object or different indices of an array.
pub data Part : List Step → List Step → Type 0 where
  keys : {k j : Bytes} {p q : List Step} → bytes_eq k j ≡ false → Part (key k ∷ p) (key j ∷ q)
  indices : {i j : ℕ} {p q : List Step} → i ≢ j → Part (index i ∷ p) (index j ∷ q)
  below_key : (k : Bytes) {p q : List Step} → Part p q → Part (key k ∷ p) (key k ∷ q)
  below_index : (i : ℕ) {p q : List Step} → Part p q → Part (index i ∷ p) (index i ∷ q)

module _ {N : Type 0} where
  key-inv :
      (k : Bytes) (q : List Step) (v : Json N) {y : Json N}
      → value_at (key k ∷ q) v ≡ some y
      → (ms : Members N) × (w : Json N) × (v ≡ object ms)
        × (member_at ms k ≡ ok w)
        × (value_at q w ≡ some y)
  unfolding value_at
  key-inv k q (object ms) e = elim (Access-cases (member_at ms k)) [
    | inl (w, f) ↦ (ms, w, refl, f, rw (f, value_at) at e)
    | inr (x, f) ↦ absurd (cc (rw (f, value_at) at e))
  ]
  key-inv k q _ e = cc

  index-inv :
      (i : ℕ) (q : List Step) (v : Json N) {y : Json N}
      → value_at (index i ∷ q) v ≡ some y
      → (es : Elements N) × (w : Json N) × (v ≡ array es)
        × (element_at es i ≡ ok (some w))
        × (value_at q w ≡ some y)
  unfolding value_at
  index-inv i q (array es) e = elim (Access-cases (element_at es i)) [
    | inl (o, f) ↦ elim (Option-cases o) [
      | inl n ↦ absurd (cc (rw (f, value_at, n) at e))
      | inr (w, n) ↦ (es, w, refl, f ∙ ap ok n, rw (f, value_at, n) at e)
    ]
    | inr (x, f) ↦ absurd (cc (rw (f, value_at) at e))
  ]
  index-inv i q _ e = cc

  update_at-frame :
      {p q : List Step} (x v : Json N) {y : Json N}
      → AllSmall p
      → Part p q
      → value_at q v ≡ some y
      → value_at q (update_at p (λ _. x) v) ≡ some y
  unfolding update_at members_of elements_of value_at
  update_at-frame x v small (keys {k} {j} {p} {q} n) e =
      let (ms, w, is, at, rest) = key-inv j q v e in
      rw (is, member_at-update_member_ne k j (update_at p (λ _. x)) ms n, value_at, at) rest
  update_at-frame x v (AllSmall.below_index h a) (indices {i} {j} {p} {q} n) e =
      let (es, w, is, at, rest) = index-inv j q v e in
      rw (is, element_at-update_element_ne i j (update_at p (λ _. x)) es h n at, value_at) rest
  update_at-frame x v (AllSmall.below_key _ a) (below_key k {p} {q} part) e =
      let (ms, w, is, at, rest) = key-inv k q v e in
      rw (is, member_at-update_member k (update_at p (λ _. x)) ms, value_at, found-eq ms k at)
        (update_at-frame x w a part rest)
  update_at-frame x v (AllSmall.below_index h a) (below_index i {p} {q} part) e =
      let (es, w, is, at, rest) = index-inv i q v e in
      rw (is, element_at-update_element i (update_at p (λ _. x)) es h, value_at, slot-eq es i at)
        (update_at-frame x w a part rest)

  -- An assignment along steps of which no index asks for more elements than a vector can hold changes
  -- nothing that was there at a path which parts from its own.
  pub value_at-assign_ne :
      {p q : List Step} (x v : Json N) {y : Json N}
      → AllSmall p
      → Part p q
      → value_at q v ≡ some y
      → value_at q (assign p x v) ≡ some y
  unfolding assign
  value_at-assign_ne x v small part e = update_at-frame x v small part e
