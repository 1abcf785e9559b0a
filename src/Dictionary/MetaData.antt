-- ===== src/Dictionary/MetaData.antt =====
-- src/inflection/dictionary/DictionaryMetaData.cpp, and the functions of
-- DictionaryMetaData_MMappedDictionary.cpp that turn names of properties into bits. What is read from
-- the tries and the case mapping of ICU are the record `Source`; an int64_t of properties is its
-- 64-bit pattern.
pub mod Properties
use inflection.Prelude.{
  ℕ, zero, suc, ◌^◌, bit_and, bit_or, Bool, true, false, not, ◌&&◌, Option, none, some, List, [],
  ◌∷◌, if◌then◌else◌, ltb, ◌==◌, Outcome, ok, throws, undefined, ◌>>=◌, illegal_argument, ℤ, pos,
  negsuc,
}
use inflection.Prelude.Strings.{U16String, equals, is_empty}

pub record Source : Type 0 where
  -- getWordType, of the mapped dictionary, which may throw: it reads packed arrays
  pub get_word_type : U16String → Outcome (Option ℕ)
  -- getIdentifierIfAvailable of the names of the properties: -1 for an unknown name
  pub type_identifier : U16String → ℤ
  -- transform: the word in lower case, which ICU may refuse
  pub transform : U16String → Outcome U16String

-- `int64_t(1) << identifier`
unfoldable pub convert_identifier_to_bit : ℕ → Outcome ℕ
convert_identifier_to_bit identifier = if ltb identifier 64 then ok (2 ^ identifier) else undefined

-- none is an optional without a value.
unfoldable pub get_value_of_type : Source → U16String → Outcome (Option ℕ)
get_value_of_type source type = elim (source.type_identifier type) [
  | negsuc _ ↦ ok none
  | pos id ↦ do value ← convert_identifier_to_bit id; ok (some value)
]

-- The loop of getValuesOfTypes, with the result so far.
unfoldable pub values_loop : Source → ℕ → List U16String → Outcome ℕ
values_loop source result [] = ok result
values_loop source result (type ∷ types) = do
  value ← get_value_of_type source type
  elim value [
    | none ↦ values_loop source result types
    | some bits ↦ values_loop source (bit_or result bits) types
  ]

unfoldable pub get_values_of_types : Source → List U16String → Outcome ℕ
get_values_of_types source types = values_loop source 0 types

-- none is the null pointer.
unfoldable pub get_combined_binary_type : Source → U16String → Outcome (Option ℕ)
get_combined_binary_type source word = do
  direct ← source.get_word_type word
  elim direct [
    | some combined_type ↦ ok (some combined_type)
    | none ↦ (do
      normalized ← source.transform word
      if not (equals normalized word) then source.get_word_type normalized else ok none)
  ]

unfoldable pub is_known_word : Source → U16String → Outcome Bool
is_known_word source word = do
  result ← get_combined_binary_type source word
  ok (elim result [ none ↦ false | some _ ↦ true ])

unfoldable pub has_all_properties : Source → U16String → ℕ → Outcome Bool
has_all_properties source word part_of_speech = do
  result ← get_combined_binary_type source word
  ok (elim result [
    | none ↦ false
    | some combined_type ↦ bit_and combined_type part_of_speech == part_of_speech
  ])

unfoldable pub has_any_property : Source → U16String → ℕ → Outcome Bool
has_any_property source word part_of_speech = do
  result ← get_combined_binary_type source word
  ok (elim result [
    | none ↦ false
    | some combined_type ↦ not (bit_and combined_type part_of_speech == 0)
  ])

unfoldable pub has_property : Source → U16String → U16String → Outcome Bool
has_property source word part_of_speech = do
  property ← get_value_of_type source part_of_speech
  elim property [ none ↦ ok false | some bits ↦ has_all_properties source word bits ]

-- getBinaryProperties(result, properties): none is the null pointer.
unfoldable pub find_binary_properties : Source → List U16String → Outcome (Option ℕ)
find_binary_properties source properties = do
  result ← get_values_of_types source properties
  ok (if result == 0 then none else some result)

unfoldable pub get_binary_properties : Source → List U16String → Outcome ℕ
get_binary_properties source properties = if is_empty properties then ok 0 else (do
  result ← find_binary_properties source properties
  elim result [ none ↦ throws illegal_argument | some combined_type ↦ ok combined_type ])
