-- ===== src/Json/Tree/Tests.antt =====
-- The proxies of include/protocol/Json.hpp at concrete trees.
use high_speed.Prelude.{arith, ◌-◌, ◌^◌, bytes_eq, ◌≡◌, refl, true, List, [], ◌∷◌, some, codes}
use high_speed.Json.{
  Json, object, array, number, boolean, null, no_members, member, no_elements, element,
}
use high_speed.Json.Tree.{
  member_at, update_member, update_element, members_of, elements_of, Step, key, index, update_at,
  assign, value_at, AllSmall,
}
use high_speed.Json.Tree.Paths.{value_at-assign, keys, value_at-assign_ne}

data Seven : Type 0 where
  seven : Seven

abbrev sample : Json Seven
sample = object (member (codes "x") (number seven) (member (codes "arr") (boolean true) no_members))

-- A number under "arr" gives way to an array, which grows and is filled with nulls.
assign_grows :
    assign (key (codes "arr") ∷ index 2 ∷ []) (number seven) sample
    ≡ object (
        member (codes "x") (number seven) (
          member
            (codes "arr")
            (array (element null (element null (element (number seven) no_elements))))
            no_members))
unfolding assign update_at update_member update_element members_of elements_of bytes_eq
assign_grows = refl

-- root["arr"][3] and root["name"], of main.cpp
abbrev third : List Step
third = key (codes "arr") ∷ index 3 ∷ []

third-AllSmall : AllSmall third
third-AllSmall = AllSmall.below_key (codes "arr") (AllSmall.below_index (omega arith) AllSmall.nil)

value_at-assign_example :
    (value_at third (assign third (number seven) sample) ≡ some (number seven))
    × (assign third null (assign third (number seven) sample) ≡ assign third null sample)
value_at-assign_example = value_at-assign (number seven) null sample third-AllSmall

-- One more than the largest index is 0 elements.
abbrev lost : Json Seven
lost = assign (index (2 ^ 64 - 1) ∷ []) null (array (element (number seven) no_elements))

assign_wraps : lost ≡ array no_elements
unfolding assign update_at update_element elements_of
assign_wraps = refl

value_at-assign_ne_example :
    value_at (key (codes "x") ∷ []) (assign third null sample) ≡ some (number seven)
unfolding bytes_eq member_at value_at
value_at-assign_ne_example = value_at-assign_ne null sample third-AllSmall (keys {q = []} refl) refl
