-- ===== src/Json/Tree/Proxy.antt =====
-- One `JsonValue` of include/protocol/Json.hpp and the pointer it refers to, `none` where that is null: its
-- constructor, the assignments, `ensureExistsAs` and the accessors by type.
use high_speed.Prelude.{
  ℕ, ◌≡◌, inl, inr, refl, sym, ap, ◌∙◌, Bool, true, false, Option, none, some, Bytes, [], ◌==◌,
  ==_refl, ==→eq, if◌then◌else◌, Bool-cases,
}
use high_speed.Json.{
  Json, Members, Elements, JsonType, object, array, string, number, boolean, null, no_members,
  no_elements, is_object, is_array, is_string, is_number, is_boolean, is_null, get_type,
}
use high_speed.Json.Tree.{Access, as_string, as_number, as_bool, members_of, elements_of, push}

-- The value of the enumerator.
abbrev pub type_number : JsonType → ℕ
type_number is_object = 0
type_number is_array = 1
type_number is_string = 2
type_number is_number = 3
type_number is_boolean = 4
type_number is_null = 5

same_type : (s t : JsonType) → (type_number s == type_number t) ≡ true → s ≡ t
same_type s t e = sym (named s) ∙ ap of_number (==→eq (type_number s) (type_number t) e) ∙ named t
  where
    of_number : ℕ → JsonType
    of_number n =
        if n == 0
        then is_object
        else if n == 1
        then is_array
        else if n == 2
        then is_string
        else if n == 3
        then is_number
        else if n == 4
        then is_boolean
        else is_null

    named : (t : JsonType) → of_number (type_number t) ≡ t
    named is_object = refl
    named is_array = refl
    named is_string = refl
    named is_number = refl
    named is_boolean = refl
    named is_null = refl

module _ {N : Type 0} where
  -- `JsonValue(ref_ptr)`, of a pointer to a slot; also what `operator=(unique_ptr)` leaves.
  unfoldable pub make_value : Option (Json N) → Option (Json N)
  make_value none = some null
  make_value (some v) = some v

  -- `assignString`, `assignNumber`, `assignBool`, `assignNull`: what the slot is then.
  unfoldable pub assign_string : Bytes → Option (Json N) → Option (Json N)
  assign_string s slot = some (string s)

  unfoldable pub assign_number : N → Option (Json N) → Option (Json N)
  assign_number d slot = some (number d)

  unfoldable pub assign_bool : Bool → Option (Json N) → Option (Json N)
  assign_bool b slot = some (boolean b)

  unfoldable pub assign_null : Option (Json N) → Option (Json N)
  assign_null slot = some null

  unfoldable pub value_type : Option (Json N) → JsonType
  value_type none = is_null
  value_type (some v) = get_type v

  -- What `ensureExistsAs` makes, for the number 0.0.
  unfoldable pub made_as : N → JsonType → Json N
  made_as zero_num is_object = object no_members
  made_as zero_num is_array = array no_elements
  made_as zero_num is_string = string []
  made_as zero_num is_number = number zero_num
  made_as zero_num is_boolean = boolean false
  made_as zero_num is_null = null

  -- `ensureExistsAs`, with the test that the type is `t`.
  unfoldable pub ensure_exists_as : N → JsonType → Option (Json N) → Json N
  ensure_exists_as zero_num t none = made_as zero_num t
  ensure_exists_as zero_num t (some v) =
      if type_number (get_type v) == type_number t then v else made_as zero_num t

  -- `asObject` and `asArray`: what the reference is to, and the slot then.
  unfoldable pub value_as_object : N → Option (Json N) → Members N × Option (Json N)
  value_as_object zero_num slot =
      let v = ensure_exists_as zero_num is_object slot in (members_of v, some v)

  unfoldable pub value_as_array : N → Option (Json N) → Elements N × Option (Json N)
  value_as_array zero_num slot =
      let v = ensure_exists_as zero_num is_array slot in (elements_of v, some v)

  -- `asString`, `asNumber` and `asBool`: `none` is the exception for a null pointer.
  unfoldable pub value_as_string : Option (Json N) → Option (Access Bytes)
  value_as_string none = none
  value_as_string (some v) = some (as_string v)

  unfoldable pub value_as_number : Option (Json N) → Option (Access N)
  value_as_number none = none
  value_as_number (some v) = some (as_number v)

  unfoldable pub value_as_bool : Option (Json N) → Option (Access Bool)
  value_as_bool none = none
  value_as_bool (some v) = some (as_bool v)

  -- `push`, of each type of argument.
  unfoldable pub value_push : N → Json N → Option (Json N) → Option (Json N)
  value_push zero_num x slot = some (array (push (value_as_array zero_num slot).0 x))

  made_as-type : (zero_num : N) (t : JsonType) → get_type (made_as zero_num t) ≡ t
  unfolding made_as get_type
  made_as-type z is_object = refl
  made_as-type z is_array = refl
  made_as-type z is_string = refl
  made_as-type z is_number = refl
  made_as-type z is_boolean = refl
  made_as-type z is_null = refl

  -- `ensureExistsAs` leaves a value of the type asked for, and a value that has it stays.
  pub ensure_exists_as-type :
      (zero_num : N) (t : JsonType) (slot : Option (Json N))
      → (get_type (ensure_exists_as zero_num t slot) ≡ t)
        × (ensure_exists_as zero_num t (some (ensure_exists_as zero_num t slot))
            ≡ ensure_exists_as zero_num t slot)
  unfolding ensure_exists_as
  ensure_exists_as-type z t slot =
      (typed z t slot, stays z t (ensure_exists_as z t slot) (typed z t slot))
    where
      typed :
          (z : N) (t : JsonType) (slot : Option (Json N)) → get_type (ensure_exists_as z t slot) ≡ t
      typed z t none = made_as-type z t
      typed z t (some v) = elim (Bool-cases (type_number (get_type v) == type_number t)) [
        | inl e ↦ rw (ensure_exists_as, e) (same_type (get_type v) t e)
        | inr e ↦ rw (ensure_exists_as, e) (made_as-type z t)
      ]

      stays :
          (z : N) (t : JsonType) (v : Json N) → get_type v ≡ t → ensure_exists_as z t (some v) ≡ v
      stays z t v e =
          let same : (type_number (get_type v) == type_number t) ≡ true =
            ap (λ s. type_number s == type_number t) e ∙ ==_refl (type_number t) in
          rw (ensure_exists_as, same) refl
