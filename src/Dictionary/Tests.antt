-- ===== src/Dictionary/Tests.antt =====
-- Tests and examples of the dictionary's properties.
use inflection.Prelude.{
  ℕ, true, none, some, [], ◌∷◌, ◌≡◌, ◌↔◌, refl, arith, ok, ℤ, pos, negsuc, if◌then◌else◌,
  Bool-cases, inl, inr,
}
use inflection.Prelude.Bits.{bit}
use inflection.Prelude.Strings.{U16String, codes, equals}
use inflection.Dictionary.MetaData.{
  Source, get_values_of_types, values_loop, get_value_of_type, convert_identifier_to_bit,
  has_property, has_all_properties, get_combined_binary_type,
}
use inflection.Dictionary.MetaData.Properties.{
  FitsBits, digit_of_any, get_values_of_types_lem, has_property_lem, HasType,
}

abbrev identifier : U16String → ℤ
identifier name = if equals name (codes "noun") then pos 3 else negsuc 0

abbrev source : Source
source = record {
  get_word_type = λ word. if equals word (codes "run") then ok (some 12) else ok none;
  type_identifier = identifier;
  transform = λ word. ok (codes "run");
}

source-FitsBits : FitsBits source
source-FitsBits type i e = elim (Bool-cases (equals type (codes "noun"))) [
  | inl same ↦ ground (arith, e, same)
  | inr other ↦ absurd (ground (arith, e, other))
]

test_values : get_values_of_types source (codes "noun" ∷ codes "verb" ∷ []) ≡ ok 8
unfolding get_values_of_types values_loop get_value_of_type convert_identifier_to_bit equals
test_values = refl

noun_identifier : source.type_identifier (codes "noun") ≡ pos 3
unfolding equals
noun_identifier = refl

get_values_of_types_lem_example :
    (v : ℕ) × (get_values_of_types source (codes "noun" ∷ []) ≡ ok v)
    × ((k : ℕ) → bit v k ≡ digit_of_any source (codes "noun" ∷ []) k)
get_values_of_types_lem_example = get_values_of_types_lem source (codes "noun" ∷ []) source-FitsBits

has_property_lem_example :
    (has_property source (codes "Run") (codes "noun") ≡ ok true)
    ↔ ((t : ℕ) × HasType source (codes "Run") t × (bit t 3 ≡ 1))
has_property_lem_example =
    has_property_lem source (codes "Run") (codes "noun") 3 noun_identifier (omega arith)

test_has_property : has_property source (codes "Run") (codes "noun") ≡ ok true
unfolding has_property has_all_properties get_combined_binary_type get_value_of_type
    convert_identifier_to_bit equals
test_has_property = refl
