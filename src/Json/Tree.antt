-- ===== src/Json/Tree.antt =====
-- The members and elements of include/protocol/Json.hpp and the proxy `JsonValue`. A proxy is the
-- path by which `operator[]` led to it from the root; an assignment through it gives a new root.
-- A proxy that is kept while its object or array grows dangles in the program: only the proxies of
-- one expression, as in `root["a"][2] = 1`, are modelled.

pub mod Keys
pub mod Slots
pub mod Paths
pub mod Proxy
mod Tests
use high_speed.Prelude.{
  ℕ, zero, suc, ◌+◌, ◌-◌, ◌%◌, ◌^◌, ◌≤◌, ◌<◌, ◌≡◌, refl, Bool, true, false, ◌&&◌, List, [], ◌∷◌,
  ◌++◌, Option, none, some, leb, ltb, ◌==◌, if◌then◌else◌, Bytes, bytes_eq,
}
use high_speed.Json.{
  Doubles, Json, Members, Elements, JsonType, object, array, string, number, boolean, null,
  no_members, member, no_elements, element, vacant,
}

-- The exceptions of the accessors.
pub data AccessError : Type 0 where
  not_an_object not_an_array not_a_string not_a_number not_a_boolean : AccessError
  key_not_found index_out_of_range : AccessError

pub data Access {ℓ} (A : Type ℓ) : Type ℓ where
  ok : A → Access A
  err : AccessError → Access A

-- `max_size()` of a vector of pointers of 8 bytes.
abbrev pub max_elements : ℕ
max_elements = 2 ^ 60 - 1

module _ {N : Type 0} where
  pub as_object : Json N → Access (Members N)
  as_object (object ms) = ok ms
  as_object _ = err not_an_object

  pub as_array : Json N → Access (Elements N)
  as_array (array es) = ok es
  as_array _ = err not_an_array

  pub as_string : Json N → Access Bytes
  as_string (string s) = ok s
  as_string _ = err not_a_string

  pub as_number : Json N → Access N
  as_number (number n) = ok n
  as_number _ = err not_a_number

  pub as_bool : Json N → Access Bool
  as_bool (boolean b) = ok b
  as_bool _ = err not_a_boolean

  -- `JsonObject::contains`
  pub contains : Members N → Bytes → Bool
  contains no_members key = false
  contains (member k v ms) key = if bytes_eq k key then true else contains ms key

  -- `JsonObject::operator[] const`
  pub member_at : Members N → Bytes → Access (Json N)
  member_at no_members key = err key_not_found
  member_at (member k v ms) key = if bytes_eq k key then ok v else member_at ms key

  -- `JsonObject::insert`, also `add`: no check for the key.
  pub insert : Members N → Bytes → Json N → Members N
  insert no_members key v = member key v no_members
  insert (member k w ms) key v = member k w (insert ms key v)

  -- A write through `getRefForKeyCreate(key)`: to the first member of that key, or to a new null.
  pub update_member : Bytes → (Json N → Json N) → Members N → Members N
  update_member key g no_members = member key (g null) no_members
  update_member key g (member k v ms) =
      if bytes_eq k key then member k (g v) ms else member k v (update_member key g ms)

  pub size : Elements N → ℕ
  size no_elements = 0
  size (element v es) = suc (size es)
  size (vacant es) = suc (size es)

  -- `JsonArray::push`
  pub push : Elements N → Json N → Elements N
  push no_elements v = element v no_elements
  push (element w es) v = element w (push es v)
  push (vacant es) v = vacant (push es v)

  -- `JsonArray::operator[] const`. It reads through a null pointer, too: `none`.
  pub element_at : Elements N → ℕ → Access (Option (Json N))
  element_at no_elements i = err index_out_of_range
  element_at (element v es) zero = ok (some v)
  element_at (vacant es) zero = ok none
  element_at (element v es) (suc i) = element_at es i
  element_at (vacant es) (suc i) = element_at es i

  -- `resize`: elements behind the new size go, null pointers fill up to it.
  pub resize : ℕ → Elements N → Elements N
  resize zero es = no_elements
  resize (suc n) no_elements = vacant (resize n no_elements)
  resize (suc n) (element v es) = element v (resize n es)
  resize (suc n) (vacant es) = vacant (resize n es)

  -- The loop that puts a `JsonNull` wherever there is a null pointer.
  pub fill : Elements N → Elements N
  fill no_elements = no_elements
  fill (element v es) = element v (fill es)
  fill (vacant es) = element null (fill es)

  -- A write to the slot at an index in range, a null first put where there was none.
  pub update_slot : ℕ → (Json N → Json N) → Elements N → Elements N
  update_slot i g no_elements = no_elements
  update_slot zero g (element v es) = element (g v) es
  update_slot zero g (vacant es) = element (g null) es
  update_slot (suc i) g (element v es) = element v (update_slot i g es)
  update_slot (suc i) g (vacant es) = vacant (update_slot i g es)

  -- A write through `getElementRefCreate(idx)`. `idx + 1` is a `size_t`. Where `resize` throws, the array
  -- stays. The largest index of all wraps around to a `resize(0)`; the access behind it is undefined
  -- in the program and writes nothing here.
  pub update_element : ℕ → (Json N → Json N) → Elements N → Elements N
  unfolding resize fill update_slot size
  update_element i g es =
      if leb (size es) i
      then if ltb max_elements ((i + 1) % 2 ^ 64)
        then es
        else update_slot i g (fill (resize ((i + 1) % 2 ^ 64) es))
      else update_slot i g es

  -- `ensureExistsAs(JsonType::Object)`, as `JsonValue::operator[]` does it too.
  pub members_of : Json N → Members N
  members_of (object ms) = ms
  members_of _ = no_members

  -- `ensureArray`
  pub elements_of : Json N → Elements N
  elements_of (array es) = es
  elements_of _ = no_elements

-- The argument of an `operator[]`.
pub data Step : Type 0 where
  key : Bytes → Step
  index : ℕ → Step

-- No index asks for more elements than a vector can hold.
pub data AllSmall : List Step → Type 0 where
  nil : AllSmall []
  below_key : (k : Bytes) {p : List Step} → AllSmall p → AllSmall (key k ∷ p)
  below_index : {i : ℕ} {p : List Step} → i < max_elements → AllSmall p → AllSmall (index i ∷ p)

module _ {N : Type 0} where
  -- What an expression `root[s1][s2]…` does to the root if `g` is done to the value at its end.
  pub update_at : List Step → (Json N → Json N) → Json N → Json N
  update_at [] g v = g v
  update_at (key k ∷ p) g v = object (update_member k (update_at p g) (members_of v))
  update_at (index i ∷ p) g v = array (update_element i (update_at p g) (elements_of v))

  -- `root[s1][s2]… = x`
  pub assign : List Step → Json N → Json N → Json N
  unfolding update_at
  assign p x = update_at p (λ _. x)

  -- `root[s1][s2]….push(x)`
  pub push_at : List Step → Json N → Json N → Json N
  unfolding update_at push
  push_at p x = update_at p (λ v. array (push (elements_of v) x))

  -- The value at a path, by the const accessors; `none` where one throws.
  pub value_at : List Step → Json N → Option (Json N)
  value_at [] v = some v
  value_at (key k ∷ p) (object ms) = elim (member_at ms k) [ ok v ↦ value_at p v | err e ↦ none ]
  value_at (index i ∷ p) (array es) = elim (element_at es i) [
    | ok o ↦ elim o [ some v ↦ value_at p v | none ↦ none ]
    | err e ↦ none
  ]
  value_at _ _ = none
