-- ===== src/Dictionary/PhraseProperties/Known.antt =====
-- What the properties of a known word say of its first sound.
use inflection.Prelude.{
  ℕ, ◌^◌, ◌<◌, ◌≤◌, bit_and, true, some, [], ◌∷◌, if◌then◌else◌, ◌==◌, ok, pos, ◌≡◌, arith, inl,
  inr, Bool-cases,
}
use native.Mathlib.Nat.{one-le-pow}
use inflection.Prelude.Bits.{bit, bit-le-one, bit_and-power, bit_and-power_zero, bit_or-zero}
use inflection.Prelude.Strings.{U16String, codes}
use inflection.Dictionary.MetaData.{
  Source, get_combined_binary_type, find_binary_properties, get_values_of_types, values_loop,
  get_value_of_type, convert_identifier_to_bit,
}
use inflection.Dictionary.PhraseProperties.{
  Icu, decide, property_or_zero, decide_by_properties, starts_with_vowel_letter,
  is_starts_with_vowel,
}

bit_test : (t i : ℕ) → (bit_and t (2 ^ i) == 0) ≡ (bit t i == 0)
bit_test t i =
    let positive : 1 ≤ 2 ^ i = one-le-pow i 2 (omega arith) in
    elim (Bool-cases (bit t i == 0)) [
      | inl e ↦ ground (arith, e, bit_and-power_zero t i (ground (arith, e)))
      | inr e ↦
          let (_, set) = bit_and-power t i in
          let one : bit t i ≡ 1 = ground (arith, e, bit-le-one t i) in
          ground (arith, e, set one, positive)
    ]

-- The bit of a name that the dictionary has.
property_or_zero-known :
    (dictionary : Source) (name : U16String) (i : ℕ)
    → dictionary.type_identifier name ≡ pos i
    → i < 64
    → property_or_zero dictionary (name ∷ []) ≡ ok (2 ^ i, true)
unfolding property_or_zero find_binary_properties get_values_of_types values_loop get_value_of_type
    convert_identifier_to_bit
property_or_zero-known dictionary name i e small =
    let positive : 1 ≤ 2 ^ i = one-le-pow i 2 (omega arith) in
    ground (arith, e, small, positive, bit_or-zero (2 ^ i))

-- Where the dictionary has the properties vowel-start and consonant-start: a known word that has exactly
-- one of them starts with a vowel if it is the first; with both or neither the letters of the word
-- decide.
pub is_starts_with_vowel_lem :
    (icu : Icu) (dictionary : Source) (language str : U16String) (v c t : ℕ)
    → dictionary.type_identifier (codes "vowel-start") ≡ pos v
    → dictionary.type_identifier (codes "consonant-start") ≡ pos c
    → v < 64
    → c < 64
    → get_combined_binary_type dictionary str ≡ ok (some t)
    → is_starts_with_vowel icu dictionary language str ≡ (
        if bit t v == bit t c
        then starts_with_vowel_letter icu dictionary language t str
        else ok (bit t v == 1))
unfolding is_starts_with_vowel decide_by_properties decide
is_starts_with_vowel_lem icu dictionary language str v c t v_e c_e v_small c_small known =
    let vowel = property_or_zero-known dictionary (codes "vowel-start") v v_e v_small in
    let consonant = property_or_zero-known dictionary (codes "consonant-start") c c_e c_small in
    ground
      (arith, known, vowel, consonant, bit_test t v, bit_test t c, bit-le-one t v, bit-le-one t c)
