-- ===== src/Json/Printable.antt =====
-- The trees whose printed text reads back, of include/protocol/Json.hpp.
use high_speed.Prelude.{ℕ, Bool, false, [], ◌∷◌, ◌≡◌, ◌==◌, some, Bytes}
use high_speed.Json.{Doubles, Json, Members, Elements}
use high_speed.Json.Grammar.{IsNumberText}

-- No quote and no backslash.
pub data IsPlain : Bytes → Type 0 where
  nil : IsPlain []
  cons :
      {c : ℕ} {cs : Bytes}
      → (c == b'"') ≡ false
      → (c == b'\\') ≡ false
      → IsPlain cs
      → IsPlain (c ∷ cs)

module _ (D : Doubles) where
  open D use {Num, print, stod}

  -- Trees whose keys are plain, and whose numbers print as number texts that `stod` reads back.
  mutual
    pub data IsPrintable : Json Num → Type 0 where
      object : {ms : Members Num} → PrintableMembers ms → IsPrintable (Json.object ms)
      array : {es : Elements Num} → PrintableElements es → IsPrintable (Json.array es)
      string : (s : Bytes) → IsPrintable (Json.string s)
      number :
          {n : Num} → IsNumberText (print n) → stod (print n) ≡ some n → IsPrintable (Json.number n)
      boolean : (b : Bool) → IsPrintable (Json.boolean b)
      null : IsPrintable Json.null

    pub data PrintableMembers : Members Num → Type 0 where
      no_members : PrintableMembers Members.no_members
      member :
          {k : Bytes} {v : Json Num} {ms : Members Num}
          → IsPlain k
          → IsPrintable v
          → PrintableMembers ms
          → PrintableMembers (Members.member k v ms)

    pub data PrintableElements : Elements Num → Type 0 where
      no_elements : PrintableElements Elements.no_elements
      element :
          {v : Json Num} {es : Elements Num}
          → IsPrintable v
          → PrintableElements es
          → PrintableElements (Elements.element v es)
      vacant : {es : Elements Num} → PrintableElements es → PrintableElements (Elements.vacant es)
