-- ===== src/Dictionary/PropertyMaps/Tests.antt =====
-- Tests and examples of the properties of words.
use inflection.Prelude.{false, none, some, [], ◌∷◌, if◌then◌else◌, ◌≡◌, refl, arith, ok, pos}
use inflection.Prelude.Strings.{codes, equals}
use inflection.Metadata.CompressedArray.{CompressedArray, read, extract_value}
use inflection.Dictionary.Inflector.{to_signed, plus, add, same_id, rounds}
use inflection.Dictionary.PropertyMaps.{
  WordProperties, read_int32, find_in_map, get_word_property_internal_identifiers, values,
  data_singleton, scan_keys, identifiers_from, get_property_map_internal_identifiers, widen,
  plus_signed, is_below,
}
use inflection.Dictionary.PropertyMaps.Layout.{
  PropertyMap, lookup, identifiers, key_word, SegmentsAt, KeysAt, IsLayout,
}
use inflection.Dictionary.PropertyMaps.Refinement.{find_in_map_lem}

-- From row 1 on: two keys, and then their values.
abbrev rows : CompressedArray
rows = record { word_width = 8; words = 7722435814656 ∷ []; select_mask = 255 }

-- The word "run" has the map at row 1.
abbrev properties : WordProperties
properties = record {
  words_to_data = λ word. if equals word (codes "run") then some 1 else none;
  words_to_types_singletons = [];
  is_double_stage_lookup = false;
  words_to_data_singletons = record { word_width = 1; words = []; select_mask = 1 };
  bits_types_singletons = 0;
  bits_property_map_id = 4;
  property_value_maps = rows;
  bits_property_value_map_key = 2;
  bits_property_value_map_values_size = 2;
  bits_property_value_map_key_size = 3;
  bits_property_value_map_key_mask = 3;
  inflection_key_identifier = pos 3;
}

properties-IsLayout : IsLayout properties
properties-IsLayout = record { narrow = omega arith; size_narrow = omega arith; mask = refl }

abbrev held : PropertyMap
held = (1, 5 ∷ []) ∷ (3, 6 ∷ 7 ∷ []) ∷ []

first_row : read_int32 rows (pos 1) ≡ ok (pos (key_word properties 1 1 2))
unfolding read_int32 read to_signed
first_row = refl

keys : KeysAt properties 1 held
unfolding read_int32 read to_signed
keys = (2, refl, omega arith, omega arith, (0, refl, omega arith, omega arith, tt))

segments : SegmentsAt properties 3 held
unfolding read_int32 read to_signed
segments = ((refl, tt), ((refl, (refl, tt)), tt))

find_in_map_lem_example : find_in_map properties (pos 3) (pos 1) ≡ ok (identifiers (lookup 3 held))
find_in_map_lem_example =
    find_in_map_lem properties properties-IsLayout 3 1 1 (5 ∷ []) ((3, 6 ∷ 7 ∷ []) ∷ [])
      (omega arith) first_row keys segments ((omega arith, tt), (tt, tt))

test_word :
    get_word_property_internal_identifiers properties [] (codes "run") (pos 3)
    ≡ ok (values, pos 6 ∷ pos 7 ∷ [])
unfolding get_word_property_internal_identifiers data_singleton find_in_map scan_keys
    identifiers_from get_property_map_internal_identifiers widen plus_signed is_below read_int32
    read extract_value to_signed plus add same_id rounds equals
test_word = refl
