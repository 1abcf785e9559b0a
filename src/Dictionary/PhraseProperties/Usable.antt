-- ===== src/Dictionary/PhraseProperties/Usable.antt =====
-- Which unit of a text getFirstUsableIndex and getLastUsableIndex of PhraseProperties.cpp find.
use inflection.Prelude.{
  ℕ, zero, suc, ◌+◌, ◌<◌, ◌≤◌, Bool, true, false, [], ◌∷◌, ltb, length, ok, ℤ, pos, negsuc, ◌≡◌,
  refl, arith, ap, ◌∙◌, inl, inr, Bool-cases,
}
use inflection.Prelude.Strings.{U16String}
use inflection.Util.CodePoints.{code_point_at}
use inflection.Dictionary.PhraseProperties.{
  Icu, contains_at, first_loop, get_first_usable_index, last_loop, get_last_usable_index,
}

-- The calls are their loops, also for an empty text.
index-loop :
    (icu : Icu) (str : U16String) (set : ℕ → Bool)
    → (get_first_usable_index icu str set ≡ first_loop icu set str (length str) 0)
      × (get_last_usable_index icu str set ≡ last_loop icu set str (length str))
unfolding get_first_usable_index get_last_usable_index first_loop last_loop
index-loop icu [] set = (refl, refl)
index-loop icu (x ∷ str) set = (refl, refl)

module _ (icu : Icu) (set : ℕ → Bool) (str : U16String) where
  -- The code point at an index is in the set.
  abbrev usable : ℕ → Bool
  usable i = set (icu.utf16.get str i)

  -- The index is the first, or the last, of the usable ones; -1 is for none.
  abbrev pub IsFirst : ℤ → Type 0
  IsFirst (pos i) = (i < length str) × (usable i ≡ true) × ((j : ℕ) → j < i → usable j ≡ false)
  IsFirst (negsuc n) = (n ≡ 0) × ((j : ℕ) → j < length str → usable j ≡ false)

  abbrev pub IsLast : ℤ → Type 0
  IsLast (pos i) =
      (i < length str) × (usable i ≡ true) × ((j : ℕ) → i < j → j < length str → usable j ≡ false)
  IsLast (negsuc n) = (n ≡ 0) × ((j : ℕ) → j < length str → usable j ≡ false)

  contains_at-usable : (i : ℕ) → i < length str → contains_at icu set str (pos i) ≡ ok (usable i)
  unfolding contains_at code_point_at
  contains_at-usable i h = ground (arith, h)

  first_loop-IsFirst :
      (n index : ℕ)
      → index + n ≡ length str
      → ((j : ℕ) → j < index → usable j ≡ false)
      → (i : ℤ) × (first_loop icu set str n index ≡ ok i) × IsFirst i
  unfolding first_loop
  first_loop-IsFirst zero index e before =
      (negsuc 0, refl, (refl, λ j less. before j (omega (arith, e, less))))
  first_loop-IsFirst (suc n) index e before =
      let here = contains_at-usable index (omega (arith, e)) in
      elim (Bool-cases (usable index)) [
        | inl h ↦ (pos index, ground (arith, here, h), (omega (arith, e), h, before))
        | inr h ↦
            let so_far : (j : ℕ) → j < suc index → usable j ≡ false = λ j less.
              elim (Bool-cases (ltb j index)) [
                | inl near ↦ before j (ground (arith, near))
                | inr far ↦ ap usable {x = j} {y = index} (ground (arith, far, less)) ∙ h
              ] in
            let (i, i_e, first) = first_loop-IsFirst n (suc index) (omega (arith, e)) so_far in
            (i, ground (arith, here, h, i_e), first)
      ]

  last_loop-IsLast :
      (n : ℕ)
      → n ≤ length str
      → ((j : ℕ) → n ≤ j → j < length str → usable j ≡ false)
      → (i : ℤ) × (last_loop icu set str n ≡ ok i) × IsLast i
  unfolding last_loop
  last_loop-IsLast zero e after = (negsuc 0, refl, (refl, λ j less. after j (omega arith) less))
  last_loop-IsLast (suc index) e after =
      let here = contains_at-usable index (omega (arith, e)) in
      elim (Bool-cases (usable index)) [
        | inl h ↦ (
          pos index,
          ground (arith, here, h),
          (omega (arith, e), h, λ j less. after j (omega (arith, less))),
        )
        | inr h ↦
            let so_far : (j : ℕ) → index ≤ j → j < length str → usable j ≡ false = λ j le inside.
              elim (Bool-cases (ltb index j)) [
                | inl far ↦ after j (ground (arith, far)) inside
                | inr near ↦ ap usable {x = j} {y = index} (ground (arith, near, le)) ∙ h
              ] in
            let (i, i_e, last) = last_loop-IsLast index (omega (arith, e)) so_far in
            (i, ground (arith, here, h, i_e), last)
      ]

  -- Both calls end without an exception. They find the first and the last index of a code point in the
  -- set, or -1 if there is none.
  pub usable_index_lem :
      ((i : ℤ) × (get_first_usable_index icu str set ≡ ok i) × IsFirst i)
      × ((i : ℤ) × (get_last_usable_index icu str set ≡ ok i) × IsLast i)
  usable_index_lem =
      let (i, i_e, first) =
        first_loop-IsFirst (length str) 0 (omega arith) (λ j less. absurd (omega (arith, less))) in
      let (k, k_e, last) =
        last_loop-IsLast (length str) (omega arith)
          (λ j le less. absurd (omega (arith, le, less))) in
      let (as_first, as_last) = index-loop icu str set in
      ((i, as_first ∙ i_e, first), (k, as_last ∙ k_e, last))
