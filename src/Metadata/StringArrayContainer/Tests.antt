-- ===== src/Metadata/StringArrayContainer/Tests.antt =====
-- Tests and examples of StringArrayContainer.
use inflection.Prelude.{List, [], ◌∷◌, ◌≡◌, refl, ok, throws, illegal_argument, pos, negsuc}
use inflection.Prelude.Strings.{U16String, codes, equals}
use inflection.Metadata.StringArrayContainer.{
  StringArrayContainer, Mapping, build, add_strings, add_string, shifts_back, emplace, get_string,
  get_identifier, get_identifier_if_available, padding_size, string_at, search, compare_strings,
}
use inflection.Metadata.StringArrayContainer.Build.{get_string-build}
use inflection.Metadata.StringArrayContainer.Search.{get_identifier-build, index_of}
use inflection.Metadata.StringArrayContainer.Order.{Sorted}

abbrev words : List U16String
words = codes "a" ∷ codes "ab" ∷ codes "b" ∷ []

abbrev container : StringArrayContainer
container = record {
  array_size = 3;
  all_strings_size = 10;
  string_indexes_with_len = 1 ∷ 514 ∷ 1281 ∷ [];
  all_strings = 97 ∷ 0 ∷ 97 ∷ 98 ∷ 0 ∷ 98 ∷ 0 ∷ 0 ∷ 0 ∷ 0 ∷ [];
}

abbrev mapping : Mapping
mapping = (codes "a", 0) ∷ (codes "ab", 1) ∷ (codes "b", 2) ∷ []

test_build : build words [] ≡ ok (container, mapping)
unfolding build add_strings add_string shifts_back emplace padding_size equals
test_build = refl

test_search : get_identifier_if_available (codes "b") container ≡ ok (pos 2)
unfolding get_identifier_if_available search string_at compare_strings
test_search = refl

words-Sorted : Sorted words
unfolding compare_strings
words-Sorted = ((refl, (refl, tt)), ((refl, tt), (tt, tt)))

get_string-build_example : get_string (pos 1) container ≡ ok (codes "ab")
get_string-build_example = get_string-build words container mapping 1 (codes "ab") test_build refl

get_identifier-build_example :
    (get_identifier_if_available (codes "c") container ≡ ok (index_of (codes "c") words))
    × (get_identifier (codes "c") container ≡ elim (index_of (codes "c") words) [
      | negsuc _ ↦ throws illegal_argument
      | pos i ↦ ok (pos i)
    ])
get_identifier-build_example =
    get_identifier-build words container mapping (codes "c") words-Sorted test_build
