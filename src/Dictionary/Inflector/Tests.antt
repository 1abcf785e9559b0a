-- ===== src/Dictionary/Inflector/Tests.antt =====
-- Tests and examples of the patterns of inflection.
use inflection.Prelude.{
  zero, suc, List, [], ◌∷◌, if◌then◌else◌, ok, ◌≡◌, refl, arith, ℤ, pos, negsuc,
}
use inflection.Prelude.Strings.{U16String, codes, equals, ends_with}
use inflection.Metadata.CompressedArray.{CompressedArray, read, extract_value}
use inflection.Dictionary.Inflector.{
  InflectorDictionary, Pattern, Inflection, get_inflection_pattern, get_inflection_at_position,
  rounds, for_inflections, each_position, contains_all, same_id, get_suffix,
}
use inflection.Dictionary.Inflector.Rows.{rows, rows_from}
use inflection.Dictionary.Inflector.Packing.{
  pattern_word, get_inflection_pattern_lem, get_inflection_at_position_lem,
}
use inflection.Dictionary.Inflector.Surface.{
  inflections_for_surface_form, match_inflection, match_suffix, of_length, longest,
  inflections_for_surface_form_lem,
}
use inflection.Dictionary.Inflector.Reinflect.{
  lower, reinflect, reinflect_implementation, consider, longest_with, longer, is_source, better,
  popcount, count_ones, optional_score,
}

-- A row of eight bits for each number: the pattern, and its two inflections.
abbrev array : CompressedArray
array = record { word_width = 8; words = 2166786 ∷ []; select_mask = 255 }

abbrev suffixes : ℤ → U16String
suffixes (pos (suc zero)) = codes "y"
suffixes (pos (suc (suc zero))) = codes "ies"
suffixes other = []

-- Grammemes: 1 is singular, and 2 is plural.
abbrev dictionary : InflectorDictionary
dictionary = record {
  grammeme_patterns = 1 ∷ 2 ∷ [];
  suffix_string = suffixes;
  suffix_identifier = λ suffix. if equals suffix (codes "y") then pos 1 else negsuc 0;
  inflections_array = array;
  num_bits_for_num_of_inflections = 3;
  num_bits_for_lemma_suffixes_len = 1;
  num_bits_for_pos_idx = 2;
  num_bits_for_frequency_idx = 1;
  num_bits_for_grammemes_idx = 4;
  num_bits_for_suffix_idx = 4;
  frequencies_array = pos 7 ∷ [];
  pattern_index = λ index. 0;
  values_of_types = λ types. 0;
}

test_word : read array (pos 2) ≡ ok 33
unfolding read
test_word = refl

abbrev pattern : Pattern
pattern = record {
  identifier_id = pos 0;
  frequency_idx = pos 0;
  parts_of_speech = 1;
  lemma_suffixes_len = pos 0;
  lemma_suffixes_offset = 1;
  num_of_inflections = pos 2;
  inflections_array_start = pos 1;
}

abbrev inflections : List Inflection
inflections =
    record { suffix_id = pos 1; grammemes = 1 } ∷ record { suffix_id = pos 2; grammemes = 2 } ∷ []

test_rows : rows dictionary pattern ≡ ok inflections
unfolding rows rows_from rounds get_inflection_at_position read extract_value
test_rows = refl

first_word : read array (pos 0) ≡ ok (pattern_word dictionary 2 0 0 0)
unfolding read
first_word = refl

get_inflection_pattern_lem_example : get_inflection_pattern dictionary (pos 0) ≡ ok pattern
get_inflection_pattern_lem_example =
    get_inflection_pattern_lem dictionary (pos 0) 2 0 0 0
      (record { narrow = omega arith; in_field = omega arith; in_type = omega arith })
      (record { narrow = omega arith; in_field = omega arith; in_type = omega arith })
      (record { narrow = omega arith; in_field = omega arith; in_type = omega arith })
      (record { narrow = omega arith; in_field = omega arith; in_type = omega arith }) first_word

get_inflection_at_position_lem_example :
    get_inflection_at_position dictionary pattern 1
    ≡ ok (record { suffix_id = pos 2; grammemes = 2 })
get_inflection_at_position_lem_example =
    get_inflection_at_position_lem dictionary pattern 2 1 1 1 2 refl refl
      (record { narrow = omega arith; in_field = omega arith; in_type = omega arith })
      (record { narrow = omega arith; in_field = omega arith; in_type = omega arith }) (omega arith)
      test_word

inflections_for_surface_form_lem_example :
    inflections_for_surface_form dictionary pattern (codes "ponies") 3
    ≡ ok (
        of_length dictionary
          (codes "ponies")
          3
          (longest dictionary (codes "ponies") 3 inflections)
          inflections)
inflections_for_surface_form_lem_example =
    inflections_for_surface_form_lem dictionary (codes "ponies") 3 pattern inflections test_rows
      ((λ e. ground (arith, e)), ((λ e. ground (arith, e)), tt))

test_surface_form :
    inflections_for_surface_form dictionary pattern (codes "ponies") 3
    ≡ ok (record { suffix_id = pos 2; grammemes = 2 } ∷ [])
unfolding inflections_for_surface_form for_inflections each_position get_inflection_at_position read
    extract_value match_inflection match_suffix ends_with equals contains_all same_id get_suffix
    rounds
test_surface_form = refl

test_reinflect : reinflect dictionary pattern 1 2 (codes "pony") ≡ ok (codes "ponies")
unfolding reinflect reinflect_implementation for_inflections each_position
    get_inflection_at_position read extract_value consider longest_with longer is_source better
    lower popcount count_ones optional_score ends_with equals contains_all get_suffix rounds
test_reinflect = refl
