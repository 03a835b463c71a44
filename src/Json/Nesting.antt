-- ===== src/Json/Nesting.antt =====
-- Trees whose depth keeps the padding that `dump` of include/protocol/Json.hpp computes in the range of `int`.
use high_speed.Prelude.{
  ℕ, zero, suc, ◌+◌, ◌*◌, ◌^◌, ◌≤◌, ◌<◌, ◌≡◌, refl, subst, arith, Bool, true, false, ◌&&◌,
}
use high_speed.Json.{
  Json, Members, Elements, ℤ, pos, negsuc, object, array, string, number, boolean, null, no_members,
  member, no_elements, element, vacant, in_range, is_int, members_in_range, elements_in_range,
}

both : (a b : Bool) → (a && b) ≡ true → (a ≡ true) × (b ≡ true)
both true b e = (refl, e)
both false b e = cc

-- Containers stand at most `n` deep inside each other.
unfoldable mutual
  pub nests : {N : Type 0} → ℕ → Json N → Bool
  nests zero (object ms) = false
  nests (suc n) (object ms) = members_nest n ms
  nests zero (array es) = false
  nests (suc n) (array es) = elements_nest n es
  nests n (string s) = true
  nests n (number x) = true
  nests n (boolean b) = true
  nests n null = true

  pub members_nest : {N : Type 0} → ℕ → Members N → Bool
  members_nest n no_members = true
  members_nest n (member k v ms) = nests n v && members_nest n ms

  pub elements_nest : {N : Type 0} → ℕ → Elements N → Bool
  elements_nest n no_elements = true
  elements_nest n (element v es) = nests n v && elements_nest n es
  elements_nest n (vacant es) = elements_nest n es

-- The padding at this depth and indent has a length in the range of `int`.
abbrev pub IsFitting : ℤ → ℕ → Type 0
IsFitting (negsuc n) depth = Unit
IsFitting (pos indent) depth = (depth < 2 ^ 31) × (depth * indent < 2 ^ 31)

is_int-true :
    (indent depth n : ℕ)
    → depth + suc n < 2 ^ 31
    → (depth + suc n) * indent < 2 ^ 31
    → is_int indent depth ≡ true
is_int-true indent depth n h k =
    let less : (depth + 1) * indent ≤ (depth + suc n) * indent = grind arith in ground arith

module _ {N : Type 0} (indent : ℕ) where
  mutual
    unfolding in_range nests

    pub nests-in_range :
        (n depth : ℕ) (v : Json N)
        → nests n v ≡ true
        → IsFitting (pos indent) (depth + n)
        → in_range indent depth v ≡ true
    nests-in_range zero depth (object ms) e h = cc
    nests-in_range (suc n) depth (object ms) e (h, k) =
        rw (is_int-true indent depth n h k) (members-in_range n depth ms e (h, k))
    nests-in_range zero depth (array es) e h = cc
    nests-in_range (suc n) depth (array es) e (h, k) =
        rw (is_int-true indent depth n h k) (elements-in_range n depth es e (h, k))
    nests-in_range n depth (string s) e h = refl
    nests-in_range n depth (number x) e h = refl
    nests-in_range n depth (boolean b) e h = refl
    nests-in_range n depth null e h = refl

    members-in_range :
        (n depth : ℕ) (ms : Members N)
        → members_nest n ms ≡ true
        → IsFitting (pos indent) (depth + suc n)
        → members_in_range indent depth ms ≡ true
    members-in_range n depth no_members e h = refl
    members-in_range n depth (member k v ms) e h =
        let (first, rest) = both (nests n v) (members_nest n ms) e in
        rw (nests-in_range n (depth + 1) v first (subst (IsFitting (pos indent)) (omega arith) h))
          (members-in_range n depth ms rest h)

    elements-in_range :
        (n depth : ℕ) (es : Elements N)
        → elements_nest n es ≡ true
        → IsFitting (pos indent) (depth + suc n)
        → elements_in_range indent depth es ≡ true
    elements-in_range n depth no_elements e h = refl
    elements-in_range n depth (element v es) e h =
        let (first, rest) = both (nests n v) (elements_nest n es) e in
        rw (nests-in_range n (depth + 1) v first (subst (IsFitting (pos indent)) (omega arith) h))
          (elements-in_range n depth es rest h)
    elements-in_range n depth (vacant es) e h = elements-in_range n depth es e h
