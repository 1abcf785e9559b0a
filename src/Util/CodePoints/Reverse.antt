-- ===== src/Util/CodePoints/Reverse.antt =====
-- What reverse of StringUtils.cpp makes of a string.
use inflection.Prelude.{
  ℕ, suc, ◌-◌, ◌/◌, ◌<◌, Bool, true, false, ◌&&◌, ◌||◌, [], ◌∷◌, ◌++◌, ltb, length, get_or, ◌≡◌,
  refl, arith, ap, ◌∙◌, append_assoc, Bool-cases, inl, inr,
}
use inflection.Prelude.Strings.{U16String}
use inflection.Util.CodePoints.{Utf16, swap_loop, restore_pairs, reverse}
use inflection.Util.CodePoints.Swaps.{
  backwards, length-backwards, get_or-backwards, swap_loop-backwards, no_surrogate,
}

-- What ICU says of the macros: a surrogate is a lead or a trail, and none is both.
pub record IsUtf16 (utf16 : Utf16) : Type 0 where
  pub disjoint : (c : ℕ) → utf16.is_trail c ≡ true → utf16.is_lead c ≡ false
  pub surrogate : (c : ℕ) → utf16.is_surrogate c ≡ (utf16.is_lead c || utf16.is_trail c)

module _ (utf16 : Utf16) where
  -- The code points in the opposite order, each with its units in their order: a lead and the trail
  -- behind it are one code point, and any other unit is one of its own.
  abbrev pub code_points_backwards : U16String → U16String
  code_points_backwards [] = []
  code_points_backwards (c ∷ []) = c ∷ []
  code_points_backwards (c1 ∷ (c2 ∷ rest)) = elim (utf16.is_lead c1 && utf16.is_trail c2) [
    | true ↦ code_points_backwards rest ++ (c1 ∷ (c2 ∷ []))
    | false ↦ code_points_backwards (c2 ∷ rest) ++ (c1 ∷ [])
  ]

  abbrev is_pair : ℕ → ℕ → Bool
  is_pair c2 c1 = utf16.is_trail c2 && utf16.is_lead c1

  -- A string may be taken apart in front of a unit that is no lead.
  restore_pairs-append :
      (xs : U16String) (c : ℕ) (ys : U16String)
      → utf16.is_lead c ≡ false
      → restore_pairs utf16 (xs ++ (c ∷ ys))
        ≡ restore_pairs utf16 xs ++ restore_pairs utf16 (c ∷ ys)
  unfolding restore_pairs
  restore_pairs-append [] c ys h = refl
  restore_pairs-append (x ∷ []) c ys h = ground (arith, h)
  restore_pairs-append (x ∷ (y ∷ xs)) c ys h =
      let after = restore_pairs-append xs c ys h in
      let from_next = restore_pairs-append (y ∷ xs) c ys h in ground (arith, after, from_next)

  -- And before a last unit that makes no pair.
  restore_pairs-last :
      (xs : U16String) (c2 c1 : ℕ)
      → is_pair c2 c1 ≡ false
      → restore_pairs utf16 (xs ++ (c2 ∷ (c1 ∷ [])))
        ≡ restore_pairs utf16 (xs ++ (c2 ∷ [])) ++ (c1 ∷ [])
  unfolding restore_pairs
  restore_pairs-last [] c2 c1 h = ground (arith, h)
  restore_pairs-last (x ∷ []) c2 c1 h = ground (arith, h)
  restore_pairs-last (x ∷ (y ∷ xs)) c2 c1 h =
      let after = restore_pairs-last xs c2 c1 h in
      let from_next = restore_pairs-last (y ∷ xs) c2 c1 h in ground (arith, after, from_next)

  restore_pairs-backwards :
      (v : U16String) → IsUtf16 utf16 → restore_pairs utf16 (backwards v) ≡ code_points_backwards v
  unfolding restore_pairs
  restore_pairs-backwards [] h = refl
  restore_pairs-backwards (c ∷ []) h = refl
  restore_pairs-backwards (c1 ∷ (c2 ∷ rest)) h =
      let regroup = append_assoc (backwards rest) (c2 ∷ []) (c1 ∷ []) in
      let after = restore_pairs-backwards rest h in
      let from_next = restore_pairs-backwards (c2 ∷ rest) h in
      ap (restore_pairs utf16) regroup ∙ elim (Bool-cases (is_pair c2 c1)) [
        | inl e ↦
            let no_lead = h.disjoint c2 (ground (arith, e)) in
            restore_pairs-append (backwards rest) c2 (c1 ∷ []) no_lead ∙ ground (arith, e, after)
        | inr e ↦ restore_pairs-last (backwards rest) c2 c1 e ∙ ground (arith, e, from_next)
      ]

  restore_pairs-none :
      (v : U16String)
      → ((k : ℕ) → suc k < length v → is_pair (get_or v k 0) (get_or v (suc k) 0) ≡ false)
      → restore_pairs utf16 v ≡ v
  unfolding restore_pairs
  restore_pairs-none [] h = refl
  restore_pairs-none (c ∷ []) h = refl
  restore_pairs-none (c2 ∷ (c1 ∷ rest)) h =
      let from_next = restore_pairs-none (c1 ∷ rest) (λ k less. h (suc k) (omega (arith, less))) in
      ground (arith, h 0 (omega arith), from_next)

  -- Where the first loop has seen no surrogate, no unit makes a pair with the next.
  no_pair :
      (v : U16String)
      → IsUtf16 utf16
      → (swap_loop utf16 (length v / 2) (length v - 1) false v).1 ≡ false
      → (k : ℕ) → suc k < length (backwards v)
      → is_pair (get_or (backwards v) k 0) (get_or (backwards v) (suc k) 0) ≡ false
  no_pair v h e k less =
      let n = length v - 1 in
      let r = length v / 2 in
      let size = length-backwards v in
      let (_, clean) = no_surrogate utf16 r n false v (omega arith) (omega (arith, less, size)) e in
      let at_k = get_or-backwards v k (n - k) (omega (arith, less, size)) in
      let at_next = get_or-backwards v (suc k) (n - suc k) (omega (arith, less, size)) in
      elim (Bool-cases (ltb k r)) [
        | inl near ↦
            let (_, far) = clean k (ground (arith, near)) in
            let none_here = ap utf16.is_surrogate at_k ∙ far in
            ground (arith, none_here, h.surrogate (get_or (backwards v) k 0))
        | inr other ↦
            let (near, _) = clean (n - suc k) (ground (arith, other, less, size)) in
            let none_next = ap utf16.is_surrogate at_next ∙ near in
            ground (arith, none_next, h.surrogate (get_or (backwards v) (suc k) 0))
      ]

  -- reverse gives the code points of a string in the opposite order, with every pair of surrogates kept
  -- as a pair and every unpaired surrogate as it is, whether its second loop runs or not; the
  -- macros of ICU tell leads from trails, and surrogates are those.
  pub reverse_lem : (v : U16String) → IsUtf16 utf16 → reverse utf16 v ≡ code_points_backwards v
  unfolding reverse
  reverse_lem v h = elim (Bool-cases ((swap_loop utf16 (length v / 2) (length v - 1) false v).1)) [
    | inl e ↦
        let turned = ap (restore_pairs utf16) (swap_loop-backwards utf16 false v) in
        ground (arith, e, turned, restore_pairs-backwards v h)
    | inr e ↦
        let kept = restore_pairs-none (backwards v) (no_pair v h e) in
        ground (arith, e, swap_loop-backwards utf16 false v, kept, restore_pairs-backwards v h)
  ]
