-- ===== src/Json/Tree/Slots.antt =====
-- The elements of include/protocol/Json.hpp under the writes of the proxy.
use high_speed.Prelude.{
  ℕ, zero, suc, ◌+◌, ◌%◌, ◌^◌, ◌≤◌, ◌<◌, ◌≡◌, ◌≢◌, refl, ap, ◌∙◌, Option, some, arith, leb, ltb,
  false, Bool-cases, if◌then◌else◌, inl, inr, ◌⊎◌,
}
use high_speed.Json.{Json, Elements, null, no_elements, element, vacant}
use high_speed.Json.Tree.{
  ok, size, element_at, max_elements, resize, fill, update_slot, update_element,
}

module _ {N : Type 0} where
  -- What a proxy finds at an index.
  pub slot : Elements N → ℕ → Json N
  slot no_elements i = null
  slot (element v es) zero = v
  slot (vacant es) zero = null
  slot (element v es) (suc i) = slot es i
  slot (vacant es) (suc i) = slot es i

  pub slot-eq :
      (es : Elements N) (i : ℕ) {v : Json N} → element_at es i ≡ ok (some v) → slot es i ≡ v
  unfolding slot element_at
  slot-eq no_elements i e = cc
  slot-eq (element w es) zero e = cc
  slot-eq (vacant es) zero e = cc
  slot-eq (element w es) (suc i) e = slot-eq es i e
  slot-eq (vacant es) (suc i) e = slot-eq es i e

  element_at-update_slot :
      (i : ℕ) (g : Json N → Json N) (es : Elements N)
      → i < size es
      → element_at (update_slot i g es) i ≡ ok (some (g (slot es i)))
  unfolding element_at update_slot slot size
  element_at-update_slot i g no_elements h = absurd (omega arith)
  element_at-update_slot zero g (element v es) h = refl
  element_at-update_slot zero g (vacant es) h = refl
  element_at-update_slot (suc i) g (element v es) h = element_at-update_slot i g es (omega arith)
  element_at-update_slot (suc i) g (vacant es) h = element_at-update_slot i g es (omega arith)

  element_at-update_slot_ne :
      (i j : ℕ) (g : Json N → Json N) (es : Elements N)
      → i ≢ j
      → element_at (update_slot i g es) j ≡ element_at es j
  unfolding element_at update_slot
  element_at-update_slot_ne i j g no_elements n = refl
  element_at-update_slot_ne zero zero g es n = absurd (n refl)
  element_at-update_slot_ne zero (suc j) g (element v es) n = refl
  element_at-update_slot_ne zero (suc j) g (vacant es) n = refl
  element_at-update_slot_ne (suc i) zero g (element v es) n = refl
  element_at-update_slot_ne (suc i) zero g (vacant es) n = refl
  element_at-update_slot_ne (suc i) (suc j) g (element v es) n =
      element_at-update_slot_ne i j g es (omega arith)
  element_at-update_slot_ne (suc i) (suc j) g (vacant es) n =
      element_at-update_slot_ne i j g es (omega arith)

  size-resize : (n : ℕ) (es : Elements N) → size (resize n es) ≡ n
  unfolding size resize
  size-resize zero es = refl
  size-resize (suc n) no_elements = ap suc (size-resize n no_elements)
  size-resize (suc n) (element v es) = ap suc (size-resize n es)
  size-resize (suc n) (vacant es) = ap suc (size-resize n es)

  size-fill : (es : Elements N) → size (fill es) ≡ size es
  unfolding size fill
  size-fill no_elements = refl
  size-fill (element v es) = ap suc (size-fill es)
  size-fill (vacant es) = ap suc (size-fill es)

  size-update_slot :
      (i : ℕ) (g : Json N → Json N) (es : Elements N) → size (update_slot i g es) ≡ size es
  unfolding size update_slot
  size-update_slot i g no_elements = refl
  size-update_slot zero g (element v es) = refl
  size-update_slot zero g (vacant es) = refl
  size-update_slot (suc i) g (element v es) = ap suc (size-update_slot i g es)
  size-update_slot (suc i) g (vacant es) = ap suc (size-update_slot i g es)

  -- Growing keeps what a proxy finds.
  slot-fill : (es : Elements N) (i : ℕ) → slot (fill es) i ≡ slot es i
  unfolding slot fill
  slot-fill no_elements i = refl
  slot-fill (element v es) zero = refl
  slot-fill (vacant es) zero = refl
  slot-fill (element v es) (suc i) = slot-fill es i
  slot-fill (vacant es) (suc i) = slot-fill es i

  slot-resize : (n : ℕ) (es : Elements N) (i : ℕ) → size es ≤ n → slot (resize n es) i ≡ slot es i
  unfolding slot resize size
  slot-resize zero no_elements i h = refl
  slot-resize zero (element v es) i h = absurd (omega arith)
  slot-resize zero (vacant es) i h = absurd (omega arith)
  slot-resize (suc n) no_elements zero h = refl
  slot-resize (suc n) no_elements (suc i) h = slot-resize n no_elements i (omega arith)
  slot-resize (suc n) (element v es) zero h = refl
  slot-resize (suc n) (vacant es) zero h = refl
  slot-resize (suc n) (element v es) (suc i) h = slot-resize n es i (omega arith)
  slot-resize (suc n) (vacant es) (suc i) h = slot-resize n es i (omega arith)

  element_at-fill :
      (es : Elements N) (i : ℕ) {v : Json N}
      → element_at es i ≡ ok (some v)
      → element_at (fill es) i ≡ ok (some v)
  unfolding element_at fill
  element_at-fill no_elements i e = e
  element_at-fill (element v es) zero e = e
  element_at-fill (vacant es) zero e = cc
  element_at-fill (element v es) (suc i) e = element_at-fill es i e
  element_at-fill (vacant es) (suc i) e = element_at-fill es i e

  element_at-resize :
      (n : ℕ) (es : Elements N) (i : ℕ)
      → i < size es
      → size es ≤ n
      → element_at (resize n es) i ≡ element_at es i
  unfolding element_at resize size
  element_at-resize n no_elements i h k = absurd (omega arith)
  element_at-resize zero (element v es) i h k = absurd (omega arith)
  element_at-resize zero (vacant es) i h k = absurd (omega arith)
  element_at-resize (suc n) (element v es) zero h k = refl
  element_at-resize (suc n) (vacant es) zero h k = refl
  element_at-resize (suc n) (element v es) (suc i) h k =
      element_at-resize n es i (omega arith) (omega arith)
  element_at-resize (suc n) (vacant es) (suc i) h k =
      element_at-resize n es i (omega arith) (omega arith)

  element_at-lt :
      (es : Elements N) (i : ℕ) {o : Option (Json N)} → element_at es i ≡ ok o → i < size es
  unfolding element_at size
  element_at-lt no_elements i e = cc
  element_at-lt (element v es) zero e = omega arith
  element_at-lt (vacant es) zero e = omega arith
  element_at-lt (element v es) (suc i) e = omega (arith, element_at-lt es i e)
  element_at-lt (vacant es) (suc i) e = omega (arith, element_at-lt es i e)

  -- The array that the write through `getElementRefCreate` goes to.
  grown : ℕ → Elements N → Elements N
  grown i es = fill (resize (i + 1) es)

  size-grown : (i : ℕ) (es : Elements N) → size (grown i es) ≡ i + 1
  unfolding grown
  size-grown i es = size-fill (resize (i + 1) es) ∙ size-resize (i + 1) es

  update_element_cases :
      (i : ℕ) (g : Json N → Json N) (es : Elements N)
      → i < max_elements
      → ((size es ≤ i) × (update_element i g es ≡ update_slot i g (grown i es)))
        ⊎ ((i < size es) × (update_element i g es ≡ update_slot i g es))
  unfolding update_element grown
  update_element_cases i g es small =
      let wanted : (i + 1) % 2 ^ 64 ≡ i + 1 = omega arith in
      let fits : ltb max_elements (i + 1) ≡ false = ground arith in
      elim (Bool-cases (leb (size es) i)) [
        | inl e ↦ inl (ground arith, rw (update_element, e, wanted, fits) refl)
        | inr e ↦ inr (ground arith, rw (update_element, e) refl)
      ]

  -- A write changes the size only by growing the array to its index.
  pub size-update_element :
      (i : ℕ) (g : Json N → Json N) (es : Elements N)
      → i < max_elements
      → size (update_element i g es) ≡ (if leb (size es) i then i + 1 else size es)
  size-update_element i g es small = elim (update_element_cases i g es small) [
    | inl (h, e) ↦ rw e (ground (arith, size-update_slot i g (grown i es), size-grown i es))
    | inr (h, e) ↦ rw e (ground (arith, size-update_slot i g es))
  ]

  pub element_at-update_element :
      (i : ℕ) (g : Json N → Json N) (es : Elements N)
      → i < max_elements
      → element_at (update_element i g es) i ≡ ok (some (g (slot es i)))
  unfolding grown
  element_at-update_element i g es small = elim (update_element_cases i g es small) [
    | inl (h, e) ↦ rw e (
        element_at-update_slot i g (grown i es) (omega (arith, size-grown i es))
        ∙ rw (slot-fill (resize (i + 1) es) i, slot-resize (i + 1) es i (omega arith)))
    | inr (h, e) ↦ rw e (element_at-update_slot i g es h)
  ]

  pub element_at-update_element_ne :
      (i j : ℕ) (g : Json N → Json N) (es : Elements N) {v : Json N}
      → i < max_elements
      → i ≢ j
      → element_at es j ≡ ok (some v)
      → element_at (update_element i g es) j ≡ ok (some v)
  unfolding grown
  element_at-update_element_ne i j g es small n at = elim (update_element_cases i g es small) [
    | inl (h, e) ↦
        rw (e, element_at-update_slot_ne i j g (grown i es) n)
          (element_at-fill (resize (i + 1) es) j
            (element_at-resize (i + 1) es j (element_at-lt es j at) (omega arith) ∙ at))
    | inr (h, e) ↦ rw (e, element_at-update_slot_ne i j g es n) at
  ]

  update_slot-update_slot :
      (i : ℕ) (g h : Json N → Json N) (es : Elements N)
      → update_slot i h (update_slot i g es) ≡ update_slot i (λ v. h (g v)) es
  unfolding update_slot
  update_slot-update_slot i g h no_elements = refl
  update_slot-update_slot zero g h (element v es) = refl
  update_slot-update_slot zero g h (vacant es) = refl
  update_slot-update_slot (suc i) g h (element v es) =
      ap (element v) (update_slot-update_slot i g h es)
  update_slot-update_slot (suc i) g h (vacant es) = ap vacant (update_slot-update_slot i g h es)

  pub update_element-update_element :
      (i : ℕ) (g h : Json N → Json N) (es : Elements N)
      → i < max_elements
      → update_element i h (update_element i g es) ≡ update_element i (λ v. h (g v)) es
  update_element-update_element i g h es fits =
      elim (update_element_cases i h (update_element i g es) fits) [
        | inl (large, e) ↦ absurd (ground (arith, size-update_element i g es fits))
        | inr (small, e) ↦
            e
            ∙ twice (update_element_cases i g es fits)
                (update_element_cases i (λ v. h (g v)) es fits)
      ]
    where
      twice :
          ((size es ≤ i) × (update_element i g es ≡ update_slot i g (grown i es)))
            ⊎ ((i < size es) × (update_element i g es ≡ update_slot i g es))
          → ((size es ≤ i)
              × (update_element i (λ v. h (g v)) es ≡ update_slot i (λ v. h (g v)) (grown i es)))
            ⊎ ((i < size es)
                × (update_element i (λ v. h (g v)) es ≡ update_slot i (λ v. h (g v)) es))
          → update_slot i h (update_element i g es) ≡ update_element i (λ v. h (g v)) es
      twice (inl (a, e)) (inl (b, k)) = rw (e, k) (update_slot-update_slot i g h (grown i es))
      twice (inr (a, e)) (inr (b, k)) = rw (e, k) (update_slot-update_slot i g h es)
      twice (inl (a, e)) (inr (b, k)) = absurd (omega arith)
      twice (inr (a, e)) (inl (b, k)) = absurd (omega arith)
