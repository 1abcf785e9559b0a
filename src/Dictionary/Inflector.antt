-- ===== src/Dictionary/Inflector.antt =====
-- src/inflection/dictionary/Inflector_MMappedDictionary.cpp, Inflector_InflectionPattern.cpp and
-- Inflector_Inflection.cpp: the patterns after which words are inflected. A pattern is a row of packed
-- numbers in a CompressedArray: one for itself, one for the suffix of its lemma if it has one, and one
-- for each inflection. What is looked up in the tries of the marisa library is an argument. An int64_t
-- of grammemes is its 64-bit pattern.
pub mod Rows
pub mod Reinflect
pub mod Surface
pub mod Packing
mod Tests
use inflection.Prelude.{
  ℕ, zero, suc, ◌+◌, ◌-◌, ◌/◌, ◌%◌, ◌^◌, bit_and, bit_or, Bool, true, false, not, ◌&&◌, ◌||◌,
  Option, none, some, List, [], ◌∷◌, ◌++◌, if◌then◌else◌, ltb, leb, ◌==◌, length, take, get_elem?,
  Outcome, ok, throws, undefined, ◌>>=◌, ◌>>◌, index_out_of_bounds, illegal_argument, ℤ, pos,
  negsuc,
}
use inflection.Prelude.Strings.{U16String, ends_with}
use inflection.Metadata.CompressedArray.{CompressedArray, read, extract_value}

pub record InflectorDictionary : Type 0 where
  pub grammeme_patterns : List ℕ
  -- getString of inflectionSuffixes
  pub suffix_string : ℤ → U16String
  -- getIdentifierIfAvailable of inflectionSuffixes
  pub suffix_identifier : U16String → ℤ
  pub inflections_array : CompressedArray
  pub num_bits_for_num_of_inflections : ℕ
  pub num_bits_for_lemma_suffixes_len : ℕ
  pub num_bits_for_pos_idx : ℕ
  pub num_bits_for_frequency_idx : ℕ
  pub num_bits_for_grammemes_idx : ℕ
  pub num_bits_for_suffix_idx : ℕ
  pub frequencies_array : List ℤ
  -- find of identifierToInflectionPatternTrie
  pub pattern_index : ℤ → ℕ
  -- getValuesOfTypes of the dictionary
  pub values_of_types : List U16String → ℕ

pub record Pattern : Type 0 where
  pub identifier_id : ℤ
  pub frequency_idx : ℤ
  pub parts_of_speech : ℕ
  pub lemma_suffixes_len : ℤ
  pub lemma_suffixes_offset : ℕ
  pub num_of_inflections : ℤ
  pub inflections_array_start : ℤ

pub record Inflection : Type 0 where
  pub suffix_id : ℤ
  pub grammemes : ℕ

-- The conversion of a 64-bit pattern to a signed integer of w + 1 bits.
unfoldable pub to_signed : ℕ → ℕ → ℤ
to_signed w value =
    let low = value % 2 ^ (w + 1) in
    if ltb low (2 ^ w) then pos low else negsuc (2 ^ (w + 1) - 1 - low)

-- `value >>= bits`
unfoldable pub shift_right : ℕ → ℕ → Outcome ℕ
shift_right value bits = if ltb bits 64 then ok (value / 2 ^ bits) else undefined

-- `*(array + index)`
unfoldable pub element {ℓ} : {A : Type ℓ} → List A → ℤ → Outcome A
element array (negsuc _) = undefined
element array (pos index) = elim (get_elem? array index) [ none ↦ undefined | some a ↦ ok a ]

unfoldable pub plus : ℤ → ℕ → ℤ
plus (pos a) b = pos (a + b)
plus (negsuc a) b = if ltb a b then pos (b - suc a) else negsuc (a - b)

-- Sums of an offset into the array and a length.
unfoldable pub add : ℕ → ℤ → ℤ
add a (pos b) = pos (a + b)
add a (negsuc b) = if ltb b a then pos (a - suc b) else negsuc (b - a)

unfoldable pub less_than : ℕ → ℤ → Bool
less_than a (pos b) = ltb a b
less_than a (negsuc _) = false

unfoldable pub same_id : ℤ → ℤ → Bool
same_id (pos a) (pos b) = a == b
same_id (pos a) (negsuc b) = false
same_id (negsuc a) (pos b) = false
same_id (negsuc a) (negsuc b) = a == b

unfoldable pub contains_all : ℕ → ℕ → Bool
contains_all superset subset = bit_and superset subset == subset

-- The fields of a row, one after the other from its low bits.
unfoldable pub take_field : ℕ → ℕ → Outcome (ℕ × ℕ)
unfolding shift_right
take_field value bits = do
  field ← extract_value value 0 bits
  rest ← shift_right value bits
  ok (field, rest)

unfoldable pub is_true : Bool → Outcome (Unit {0})
is_true true = ok tt
is_true false = throws illegal_argument

-- `a < b` where b is the size of an array.
unfoldable pub signed_less : ℤ → ℕ → Bool
signed_less (pos a) b = ltb a b
signed_less (negsuc _) b = true

unfoldable pub get_inflection_pattern : InflectorDictionary → ℤ → Outcome Pattern
unfolding take_field
get_inflection_pattern d index = do
  let pattern_index = d.pattern_index index
  prefix ← read d.inflections_array (pos pattern_index)
  (inflections, prefix1) ← take_field prefix d.num_bits_for_num_of_inflections
  (suffixes, prefix2) ← take_field prefix1 d.num_bits_for_lemma_suffixes_len
  (pos_field, prefix3) ← take_field prefix2 d.num_bits_for_pos_idx
  frequency_field ← extract_value prefix3 0 d.num_bits_for_frequency_idx
  let lemma_suffixes_len = to_signed 15 suffixes
  let pos_index = to_signed 15 pos_field
  let frequency_idx = to_signed 31 frequency_field
  is_true (signed_less frequency_idx (length d.frequencies_array))
  is_true (signed_less pos_index (length d.grammeme_patterns))
  parts_of_speech ← element d.grammeme_patterns pos_index
  ok (record {
    identifier_id = index;
    frequency_idx = frequency_idx;
    parts_of_speech = parts_of_speech;
    lemma_suffixes_len = lemma_suffixes_len;
    lemma_suffixes_offset = pattern_index + 1;
    num_of_inflections = to_signed 15 inflections;
    inflections_array_start = add (pattern_index + 1) lemma_suffixes_len;
  })

unfoldable pub get_inflection_at_position : InflectorDictionary → Pattern → ℕ → Outcome Inflection
unfolding take_field to_signed element plus less_than
get_inflection_at_position d pattern idx =
    if not (less_than idx pattern.num_of_inflections) then throws index_out_of_bounds else (do
      value ← read d.inflections_array (plus pattern.inflections_array_start idx)
      (grammemes_field, rest) ← take_field value d.num_bits_for_grammemes_idx
      suffix_field ← extract_value rest 0 d.num_bits_for_suffix_idx
      grammemes ← element d.grammeme_patterns (to_signed 31 grammemes_field)
      ok (record { suffix_id = to_signed 31 suffix_field; grammemes = grammemes }))

unfoldable pub get_suffix : InflectorDictionary → Inflection → U16String
get_suffix d inflection = d.suffix_string inflection.suffix_id

-- `for (int16_t i = 0; i < numOfInflections; ++i)`: the rounds that are left, and i.
unfoldable pub rounds : ℤ → ℕ
rounds (pos n) = n
rounds (negsuc _) = 0

module _ (d : InflectorDictionary) (pattern : Pattern) where
  unfoldable pub each_position {ℓ} :
      {S : Type ℓ} → (Inflection → S → Outcome S) → ℕ → ℕ → S → Outcome S
  each_position body zero i state = ok state
  each_position body (suc n) i state = do
    inflection ← get_inflection_at_position d pattern i
    next ← body inflection state
    each_position body n (suc i) next

  -- The same where the body returns true from the function.
  unfoldable pub any_position : (Inflection → Bool) → ℕ → ℕ → Outcome Bool
  any_position test zero i = ok false
  any_position test (suc n) i = do
    inflection ← get_inflection_at_position d pattern i
    elim (test inflection) [ true ↦ ok true | false ↦ any_position test n (suc i) ]

  unfoldable pub for_inflections {ℓ} : {S : Type ℓ} → (Inflection → S → Outcome S) → S → Outcome S
  for_inflections body state = each_position body (rounds pattern.num_of_inflections) 0 state

  unfoldable pub any_inflection : (Inflection → Bool) → Outcome Bool
  any_inflection test = any_position test (rounds pattern.num_of_inflections) 0

  unfoldable pub contains_suffix : U16String → Outcome Bool
  contains_suffix suffix = elim (d.suffix_identifier suffix) [
    | negsuc _ ↦ ok false
    | pos suffix_id ↦ any_inflection (λ inflection. same_id inflection.suffix_id (pos suffix_id))
  ]

  unfoldable pub contains_grammemes : ℕ → Outcome Bool
  contains_grammemes grammemes = any_inflection (λ inflection.
      bit_and (bit_or inflection.grammemes pattern.parts_of_speech) grammemes == grammemes)

  unfoldable pub constrain : List U16String → Bool → Outcome (List Inflection)
  constrain constraints is_superset =
      let constraint_grammemes = d.values_of_types constraints in
      for_inflections
        (λ inflection results.
          let fits =
            if is_superset
            then contains_all constraint_grammemes inflection.grammemes
            else contains_all inflection.grammemes constraint_grammemes in
          ok (if fits then results ++ (inflection ∷ []) else results))
        []

-- `inflect` of an inflection: the loop over the suffixes of the lemma, from i on.
unfoldable pub inflect_loop :
    InflectorDictionary → Pattern → U16String → U16String → ℕ → ℕ → Outcome U16String
inflect_loop d pattern suffix lemma zero i = ok (lemma ++ suffix)
inflect_loop d pattern suffix lemma (suc n) i = do
  value ← read d.inflections_array (pos (pattern.lemma_suffixes_offset + i))
  let lemma_suffix = d.suffix_string (to_signed 31 value)
  elim (ends_with lemma lemma_suffix) [
    | true ↦ ok (take (length lemma - length lemma_suffix) lemma ++ suffix)
    | false ↦ inflect_loop d pattern suffix lemma n (suc i)
  ]

unfoldable pub inflect : InflectorDictionary → Pattern → Inflection → U16String → Outcome U16String
inflect d pattern inflection lemma =
    inflect_loop d pattern (get_suffix d inflection) lemma (rounds pattern.lemma_suffixes_len) 0
