-- ===== src/Dictionary/PropertyMaps.antt =====
-- The properties with values that the dictionary has of a word
-- (src/inflection/dictionary/DictionaryMetaData_MMappedDictionary.cpp): a map from names to lists of
-- values, packed into rows of an array. The rows of the keys come first, in the order of their
-- identifiers, each with the number of its values; the rows of the values follow.
pub mod Layout
pub mod Refinement
mod Tests
use inflection.Prelude.{
  ℕ, zero, suc, ◌+◌, ◌-◌, ◌/◌, ◌%◌, ◌^◌, bit_and, Bool, true, false, not, ◌&&◌, Option, none, some,
  List, [], ◌∷◌, ◌++◌, if◌then◌else◌, ltb, ◌==◌, length, Outcome, ok, throws, undefined, ◌>>=◌, ℤ,
  pos, negsuc,
}
use inflection.Prelude.Strings.{U16String, equals}
use inflection.Metadata.CompressedArray.{CompressedArray, read, extract_value}
use inflection.Dictionary.Inflector.{
  to_signed, plus, add, same_id, rounds, element, InflectorDictionary, Pattern,
  get_inflection_pattern,
}

pub record WordProperties : Type 0 where
  -- find of wordsToDataTrie
  pub words_to_data : U16String → Option ℕ
  pub words_to_types_singletons : List ℕ
  pub is_double_stage_lookup : Bool
  pub words_to_data_singletons : CompressedArray
  pub bits_types_singletons : ℕ
  pub bits_property_map_id : ℕ
  pub property_value_maps : CompressedArray
  pub bits_property_value_map_key : ℕ
  pub bits_property_value_map_values_size : ℕ
  pub bits_property_value_map_key_size : ℕ
  pub bits_property_value_map_key_mask : ℕ
  pub inflection_key_identifier : ℤ

-- ListResultEnum
pub data ListResult : Type 0 where
  unknown empty values : ListResult

-- The conversion of an int32_t to a uint64_t.
unfoldable pub widen : ℤ → ℕ
widen (pos n) = n
widen (negsuc n) = 2 ^ 64 - 1 - n

unfoldable pub plus_signed : ℤ → ℤ → ℤ
plus_signed (pos a) b = add a b
plus_signed (negsuc a) (pos b) = plus (negsuc a) b
plus_signed (negsuc a) (negsuc b) = negsuc (a + b + 1)

-- `a < b`
unfoldable pub is_below : ℤ → ℤ → Bool
is_below (pos a) (pos b) = ltb a b
is_below (pos a) (negsuc b) = false
is_below (negsuc a) (pos b) = true
is_below (negsuc a) (negsuc b) = ltb b a

-- read of a CompressedArray<int32_t>
unfoldable pub read_int32 : CompressedArray → ℤ → Outcome ℤ
read_int32 array index = do value ← read array index; ok (to_signed 31 value)

module _ (d : WordProperties) where
  -- What the trie has for a word, behind the second stage where there is one.
  unfoldable pub data_singleton : ℕ → Outcome ℕ
  data_singleton value =
      if d.is_double_stage_lookup
      then read d.words_to_data_singletons (to_signed 31 value)
      else ok value

  unfoldable pub get_word_type : U16String → Outcome (Option ℕ)
  get_word_type word = elim (d.words_to_data word) [
    | none ↦ ok none
    | some found ↦ (do
      data_value ← data_singleton found
      field ← extract_value data_value 0 d.bits_types_singletons
      let type_singleton = to_signed 15 field
      if same_id type_singleton (pos 0)
          then ok none
          else (do type ← element d.words_to_types_singletons type_singleton; ok (some type)))
  ]

  -- The loop of getPropertyMapInternalIdentifiers from idx on.
  unfoldable pub identifiers_from : ℤ → ℕ → ℕ → Outcome (List ℤ)
  identifiers_from starting_offset zero idx = ok []
  identifiers_from starting_offset (suc n) idx = do
    identifier ← read_int32 d.property_value_maps (plus starting_offset idx)
    rest ← identifiers_from starting_offset n (suc idx)
    ok (identifier ∷ rest)

  unfoldable pub get_property_map_internal_identifiers : ℤ → ℤ → Outcome (List ℤ)
  get_property_map_internal_identifiers starting_offset len =
      identifiers_from starting_offset (rounds len) 0

  -- The loop over the rows of the keys: the rounds that are left, mapIdx and cumulativeOffset. none is
  -- for a key that is not there.
  unfoldable pub scan_keys : ℤ → ℤ → ℤ → ℕ → ℕ → ℤ → Outcome (Option (List ℤ))
  scan_keys property_name_identifier offset original_map_size zero map_idx cumulative_offset =
      ok none
  scan_keys property_name_identifier offset original_map_size (suc n) map_idx cumulative_offset = do
    row ← read_int32 d.property_value_maps (plus offset map_idx)
    entry ←
        extract_value (widen row) 0
          (d.bits_property_value_map_key + d.bits_property_value_map_values_size)
    let key_entry = entry % 2 ^ 32
    let key = to_signed 31 (bit_and key_entry d.bits_property_value_map_key_mask)
    elim (is_below property_name_identifier key) [
      | true ↦ ok none
      | false ↦
          if not (ltb d.bits_property_value_map_key 32)
          then undefined
          else (let values_segment_size =
                to_signed 31 (key_entry / 2 ^ d.bits_property_value_map_key) in
              elim (same_id key property_name_identifier) [
                | true ↦ (do
                  identifiers ←
                      get_property_map_internal_identifiers
                        (plus_signed (plus_signed offset original_map_size) cumulative_offset)
                        values_segment_size
                  ok (some identifiers))
                | false ↦
                    scan_keys property_name_identifier offset original_map_size n (suc map_idx)
                      (plus_signed cumulative_offset values_segment_size)
              ])
    ]

  -- The map at an offset.
  unfoldable pub find_in_map : ℤ → ℤ → Outcome (Option (List ℤ))
  find_in_map property_name_identifier offset = do
    first_value ← read_int32 d.property_value_maps offset
    size_field ←
        extract_value (widen first_value)
          (d.bits_property_value_map_key + d.bits_property_value_map_values_size)
          d.bits_property_value_map_key_size
    let original_map_size = to_signed 31 size_field
    scan_keys property_name_identifier offset original_map_size (rounds original_map_size) 0 (pos 0)

  -- The result, and what is in propertyIdentifiers.
  unfoldable pub get_word_property_internal_identifiers :
      List ℤ → U16String → ℤ → Outcome (ListResult × List ℤ)
  get_word_property_internal_identifiers identifiers word property_name_identifier =
      if is_below property_name_identifier (pos 0)
      then ok (unknown, identifiers)
      else elim (d.words_to_data word) [
        | none ↦ ok (unknown, identifiers)
        | some found ↦ (do
          data_value ← data_singleton found
          field ← extract_value data_value d.bits_types_singletons d.bits_property_map_id
          let offset = to_signed 31 field
          if same_id offset (pos 0) then ok (empty, []) else (do
            in_map ← find_in_map property_name_identifier offset
            ok (elim in_map [ none ↦ (empty, []) | some found_values ↦ (values, found_values) ])))
      ]

unfoldable pub is_found : ListResult → Bool
is_found unknown = false
is_found empty = true
is_found values = true

-- getInflectionPatternIdentifiers of Inflector_MMappedDictionary.cpp. The tests of case and the case
-- mapping are arguments.
unfoldable pub get_inflection_pattern_identifiers :
    WordProperties
    → (U16String → Bool)
    → (U16String → U16String)
    → List ℤ
    → U16String
    → Outcome (Bool × List ℤ)
get_inflection_pattern_identifiers d is_all_lower_case transform identifiers word = do
  (result, found) ←
      get_word_property_internal_identifiers d identifiers word d.inflection_key_identifier
  let normalized = transform word
  if not (is_found result) && (not (is_all_lower_case word) && not (equals normalized word))
      then (do
        (second, found_second) ←
            get_word_property_internal_identifiers d found normalized d.inflection_key_identifier
        ok (is_found second, found_second))
      else ok (is_found result, found)

-- getInflectionPatternsForWord of Inflector.cpp, appended to the patterns that are there.
unfoldable pub patterns_of : InflectorDictionary → List ℤ → Outcome (List Pattern)
patterns_of inflector [] = ok []
patterns_of inflector (identifier ∷ identifiers) = do
  pattern ← get_inflection_pattern inflector identifier
  rest ← patterns_of inflector identifiers
  ok (pattern ∷ rest)

unfoldable pub get_inflection_patterns_for_word :
    InflectorDictionary
    → WordProperties
    → (U16String → Bool)
    → (U16String → U16String)
    → U16String
    → List Pattern
    → Outcome (List Pattern)
get_inflection_patterns_for_word inflector d is_all_lower_case transform word patterns = do
  (exists, identifiers) ← get_inflection_pattern_identifiers d is_all_lower_case transform [] word
  if exists
      then (do found ← patterns_of inflector identifiers; ok (patterns ++ found))
      else ok patterns
