-- ===== src/Json/Tree/Keys.antt =====
-- The members of include/protocol/Json.hpp under the writes of the proxy.
use high_speed.Prelude.{
  ◌≡◌, false, arith, if◌then◌else◌, Bool-cases, inl, inr, Bytes, bytes_eq, bytes_eq_refl,
  bytes_eq→eq,
}
use high_speed.Json.{Json, Members, null, no_members, member}
use high_speed.Json.Tree.{ok, member_at, update_member}

module _ {N : Type 0} where
  -- What a proxy finds, a null where there was nothing.
  pub found : Members N → Bytes → Json N
  found no_members key = null
  found (member k v ms) key = if bytes_eq k key then v else found ms key

  pub found-eq :
      (ms : Members N) (key : Bytes) {v : Json N} → member_at ms key ≡ ok v → found ms key ≡ v
  unfolding found member_at
  found-eq no_members key e = cc
  found-eq (member k w ms) key {v} e = ground (arith, found-eq ms key {v = v})

  pub member_at-update_member :
      (key : Bytes) (g : Json N → Json N) (ms : Members N)
      → member_at (update_member key g ms) key ≡ ok (g (found ms key))
  unfolding member_at update_member found
  member_at-update_member key g no_members = rw (bytes_eq_refl key)
  member_at-update_member key g (member k v ms) = elim (Bool-cases (bytes_eq k key)) [
    | inl e ↦ rw (e, e)
    | inr e ↦ rw (e, e) (member_at-update_member key g ms)
  ]

  pub member_at-update_member_ne :
      (key j : Bytes) (g : Json N → Json N) (ms : Members N)
      → bytes_eq key j ≡ false
      → member_at (update_member key g ms) j ≡ member_at ms j
  unfolding member_at update_member
  member_at-update_member_ne key j g no_members n = rw n
  member_at-update_member_ne key j g (member k v ms) n = elim (Bool-cases (bytes_eq k key)) [
    | inl e ↦ let other : bytes_eq k j ≡ false = rw (bytes_eq→eq k key e) n in rw (e, other)
    | inr e ↦ rw (e, member_at-update_member_ne key j g ms n)
  ]

  pub update_member-update_member :
      (key : Bytes) (g h : Json N → Json N) (ms : Members N)
      → update_member key h (update_member key g ms) ≡ update_member key (λ v. h (g v)) ms
  unfolding update_member
  update_member-update_member key g h no_members = rw (bytes_eq_refl key)
  update_member-update_member key g h (member k v ms) = elim (Bool-cases (bytes_eq k key)) [
    | inl e ↦ rw (e, e)
    | inr e ↦ rw (e, e, update_member-update_member key g h ms)
  ]
