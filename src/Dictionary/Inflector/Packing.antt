-- ===== src/Dictionary/Inflector/Packing.antt =====
-- How a row of the inflections array is packed, and what Inflector_MMappedDictionary.cpp and
-- Inflector_InflectionPattern.cpp read from it.
use inflection.Prelude.{
  ℕ, zero, suc, ◌+◌, ◌-◌, ◌*◌, ◌/◌, ◌%◌, ◌^◌, ◌<◌, bit_and, ◌&&◌, some, List, [], ◌∷◌,
  if◌then◌else◌, ltb, length, get_elem?, get_elem?-some, get_or, ok, throws, illegal_argument,
  index_out_of_bounds, ◌≡◌, arith, ap, ◌∙◌, ℤ, pos, Bool-cases, inl, inr,
}
use native.Mathlib.Nat.{
  div-one, add-mul-mod_self_left, add-mul-div_left, mod-eq_of_lt, div-eq_of_lt, one-le-pow, pow-suc,
}
use inflection.Prelude.Bits.{bit_and-mask}
use inflection.Metadata.CompressedArray.{read, extract_value}
use inflection.Dictionary.Inflector.{
  InflectorDictionary, Pattern, take_field, shift_right, to_signed, element, add, plus, less_than,
  is_true, signed_less, get_inflection_pattern, get_inflection_at_position,
}

-- The lowest field of a word is what is read from it.
pub extract_value-low :
    (w field rest : ℕ)
    → w < 64
    → field < 2 ^ w
    → extract_value (field + 2 ^ w * rest) 0 w ≡ ok field
unfolding extract_value
extract_value-low w field rest h small =
    let low : bit_and ((field + 2 ^ w * rest) / 1) (2 ^ w - 1) ≡ field =
      ap (λ t. bit_and t (2 ^ w - 1)) (div-one (field + 2 ^ w * rest))
      ∙ bit_and-mask w (field + 2 ^ w * rest)
      ∙ add-mul-mod_self_left field (2 ^ w) rest
      ∙ mod-eq_of_lt small in
    ground (arith, h, low)

take_field-low :
    (w field rest : ℕ)
    → w < 64
    → field < 2 ^ w
    → take_field (field + 2 ^ w * rest) w ≡ ok (field, rest)
unfolding take_field shift_right
take_field-low w field rest h small =
    let positive : 0 < 2 ^ w = one-le-pow w 2 (omega arith) in
    let high : (field + 2 ^ w * rest) / 2 ^ w ≡ rest =
      add-mul-div_left field rest positive ∙ omega (arith, div-eq_of_lt small) in
    ground (arith, h, high, extract_value-low w field rest h small)

pub to_signed-small : (w value : ℕ) → value < 2 ^ w → to_signed w value ≡ pos value
unfolding to_signed
to_signed-small w value small =
    let up : 2 ^ (w + 1) ≡ 2 * 2 ^ w =
      ap (λ t. 2 ^ t) {x = w + 1} {y = suc w} (omega arith) ∙ omega (arith, pow-suc 2 w) in
    let low : value % 2 ^ (w + 1) ≡ value = mod-eq_of_lt (omega (arith, up, small)) in
    ground (arith, low, small)

-- The word that a pattern's row starts with, and the word of an inflection.
abbrev pub pattern_word : InflectorDictionary → ℕ → ℕ → ℕ → ℕ → ℕ
pattern_word d inflections suffixes pos_index frequency =
    inflections
    + 2 ^ d.num_bits_for_num_of_inflections
      * (suffixes
          + 2 ^ d.num_bits_for_lemma_suffixes_len
            * (pos_index
                + 2 ^ d.num_bits_for_pos_idx * (frequency + 2 ^ d.num_bits_for_frequency_idx * 0)))

abbrev pub inflection_word : InflectorDictionary → ℕ → ℕ → ℕ
inflection_word d grammemes_index suffix =
    grammemes_index
    + 2 ^ d.num_bits_for_grammemes_idx * (suffix + 2 ^ d.num_bits_for_suffix_idx * 0)

-- A field of a width has room for a value, and so has the signed type that takes it.
pub record Fits (width signed value : ℕ) : Type 0 where
  pub narrow : width < 64
  pub in_field : value < 2 ^ width
  pub in_type : value < 2 ^ signed

get_or-get_elem? : (xs : List ℕ) (i a : ℕ) → get_elem? xs i ≡ some a → get_or xs i 0 ≡ a
get_or-get_elem? [] i a e = absurd (ground (arith, e))
get_or-get_elem? (x ∷ xs) zero a e = ground (arith, e)
get_or-get_elem? (x ∷ xs) (suc i) a e = get_or-get_elem? xs i a e

element-in : (xs : List ℕ) (i : ℕ) → i < length xs → element xs (pos i) ≡ ok (get_or xs i 0)
unfolding element
element-in xs i h =
    let (a, e) = get_elem?-some xs i h in
    let same = get_or-get_elem? xs i a e in ground (arith, e, same)

module _ (d : InflectorDictionary) where
  -- Let the word of a pattern's row hold the number of its inflections, the number of its lemma suffixes,
  -- the index of its part of speech and the index of its frequency, each in the bits for it and in range
  -- of its type. If both indexes are inside their arrays, the pattern has these values and starts behind
  -- that word; otherwise the call ends with an illegal argument.
  pub get_inflection_pattern_lem :
      (index : ℤ) (inflections suffixes pos_index frequency : ℕ)
      → Fits d.num_bits_for_num_of_inflections 15 inflections
      → Fits d.num_bits_for_lemma_suffixes_len 15 suffixes
      → Fits d.num_bits_for_pos_idx 15 pos_index
      → Fits d.num_bits_for_frequency_idx 31 frequency
      → read d.inflections_array (pos (d.pattern_index index))
        ≡ ok (pattern_word d inflections suffixes pos_index frequency)
      → get_inflection_pattern d index ≡ (
          if ltb frequency (length d.frequencies_array)
            && ltb pos_index (length d.grammeme_patterns)
          then ok (record {
            identifier_id = index;
            frequency_idx = pos frequency;
            parts_of_speech = get_or d.grammeme_patterns pos_index 0;
            lemma_suffixes_len = pos suffixes;
            lemma_suffixes_offset = d.pattern_index index + 1;
            num_of_inflections = pos inflections;
            inflections_array_start = pos (d.pattern_index index + 1 + suffixes);
          })
          else throws illegal_argument)
  unfolding get_inflection_pattern add is_true signed_less
  get_inflection_pattern_lem index inflections suffixes pos_index frequency f1 f2 f3 f4 e =
      let rest3 = frequency + 2 ^ d.num_bits_for_frequency_idx * 0 in
      let rest2 = pos_index + 2 ^ d.num_bits_for_pos_idx * rest3 in
      let rest1 = suffixes + 2 ^ d.num_bits_for_lemma_suffixes_len * rest2 in
      let t1 =
        take_field-low d.num_bits_for_num_of_inflections inflections rest1 f1.narrow f1.in_field in
      let t2 =
        take_field-low d.num_bits_for_lemma_suffixes_len suffixes rest2 f2.narrow f2.in_field in
      let t3 = take_field-low d.num_bits_for_pos_idx pos_index rest3 f3.narrow f3.in_field in
      let t4 = extract_value-low d.num_bits_for_frequency_idx frequency 0 f4.narrow f4.in_field in
      let s1 = to_signed-small 15 inflections f1.in_type in
      let s2 = to_signed-small 15 suffixes f2.in_type in
      let s3 = to_signed-small 15 pos_index f3.in_type in
      let s4 = to_signed-small 31 frequency f4.in_type in
      elim (Bool-cases (ltb frequency (length d.frequencies_array))) [
        | inr g ↦ ground (arith, e, t1, t2, t3, t4, s1, s2, s3, s4, g)
        | inl g ↦ elim (Bool-cases (ltb pos_index (length d.grammeme_patterns))) [
          | inr h ↦ ground (arith, e, t1, t2, t3, t4, s1, s2, s3, s4, g, h)
          | inl h ↦
              let at = element-in d.grammeme_patterns pos_index (ground (arith, h)) in
              ground (arith, e, t1, t2, t3, t4, s1, s2, s3, s4, g, h, at)
        ]
      ]

  -- Let the word of an inflection hold the index of its grammemes, inside their array, and the identifier of
  -- its suffix, each in the bits for it and in range of an int32_t. The position of the row is what counts
  -- from the start of the pattern's inflections; from the number of inflections on there is none.
  pub get_inflection_at_position_lem :
      (pattern : Pattern) (count start idx grammemes_index suffix : ℕ)
      → pattern.num_of_inflections ≡ pos count
      → pattern.inflections_array_start ≡ pos start
      → Fits d.num_bits_for_grammemes_idx 31 grammemes_index
      → Fits d.num_bits_for_suffix_idx 31 suffix
      → grammemes_index < length d.grammeme_patterns
      → read d.inflections_array (pos (start + idx)) ≡ ok (inflection_word d grammemes_index suffix)
      → get_inflection_at_position d pattern idx ≡ (
          if ltb idx count
          then ok (record {
            suffix_id = pos suffix;
            grammemes = get_or d.grammeme_patterns grammemes_index 0;
          })
          else throws index_out_of_bounds)
  unfolding get_inflection_at_position plus less_than
  get_inflection_at_position_lem pattern count start idx grammemes_index suffix count_e start_e f1
        f2 inside e =
      let rest1 = suffix + 2 ^ d.num_bits_for_suffix_idx * 0 in
      let t1 =
        take_field-low d.num_bits_for_grammemes_idx grammemes_index rest1 f1.narrow f1.in_field in
      let t2 = extract_value-low d.num_bits_for_suffix_idx suffix 0 f2.narrow f2.in_field in
      let s1 = to_signed-small 31 grammemes_index f1.in_type in
      let s2 = to_signed-small 31 suffix f2.in_type in
      let at = element-in d.grammeme_patterns grammemes_index inside in
      ground (arith, e, t1, t2, s1, s2, at, count_e, start_e)
