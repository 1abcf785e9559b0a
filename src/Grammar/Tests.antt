-- ===== src/Grammar/Tests.antt =====
-- Tests and examples of the grammars' shared functions.
use inflection.Prelude.{
  ℕ, true, false, Option, none, some, List, [], ◌∷◌, ◌≡◌, ◌⊎◌, refl, ok, throws, out_of_range, pos,
}
use inflection.Prelude.Strings.{U16String, codes, equals, starts_with}
use inflection.Dialog.Constraints.{FeatureMap, find}
use inflection.Dialog.DisplayValue.{DisplayValue}
use inflection.Grammar.SynthesizerUtil.{
  Token, check_significant_token_for_inflection, get_significant_words, string_loop,
  get_string_from_inflected_significant_words, get_the_best_display_value, choose, count_matches,
  merge_constraints_with_display_value, PrefixWithPos, prefix_matches, split_prefix, split_loop,
}
use inflection.Grammar.SynthesizerUtil.Choice.{
  HasMost, get_the_best_display_value_lem, merge_constraints_with_display_value_lem,
}
use inflection.Grammar.SynthesizerUtil.Words.{
  replaced_text, whole_text, get_string-get_significant_words,
  get_string_from_inflected_significant_words_lem,
}
use inflection.Grammar.SynthesizerUtil.Prefix.{
  TakesFirst, NoneFits, nothing_taken, split_prefix_lem,
}

abbrev word : U16String → Token
word value = record { value = value; significant = true; whitespace = false }

abbrev phrase : List Token
phrase =
    word (codes "red")
    ∷ record { value = codes " "; significant = true; whitespace = true }
    ∷ word (codes "cat")
    ∷ []

test_replaced :
    get_string_from_inflected_significant_words phrase (codes "red" ∷ codes "cats" ∷ [])
    ≡ ok (codes "red cats")
unfolding get_string_from_inflected_significant_words string_loop
    check_significant_token_for_inflection equals
test_replaced = refl

get_string_from_inflected_significant_words_lem_example :
    get_string_from_inflected_significant_words phrase (codes "red" ∷ [])
    ≡ elim (replaced_text phrase (codes "red" ∷ [])) [
      | none ↦ throws out_of_range
      | some text ↦ ok text
    ]
get_string_from_inflected_significant_words_lem_example =
    get_string_from_inflected_significant_words_lem phrase (codes "red" ∷ [])

get_string-get_significant_words_example :
    get_string_from_inflected_significant_words phrase (get_significant_words phrase)
    ≡ ok (whole_text phrase)
get_string-get_significant_words_example = get_string-get_significant_words phrase

abbrev plural : DisplayValue
plural = record {
  display_string = codes "cats";
  constraint_map = (codes "number", codes "plural") ∷ [];
}

abbrev plain : DisplayValue
plain = record { display_string = codes "cat"; constraint_map = [] }

abbrev asked : FeatureMap
asked = (codes "number", codes "plural") ∷ []

test_best : get_the_best_display_value (plain ∷ plural ∷ []) asked ≡ some plural
unfolding get_the_best_display_value choose count_matches find equals
test_best = refl

get_the_best_display_value_lem_example :
    (best : DisplayValue) × (get_the_best_display_value (plain ∷ plural ∷ []) asked ≡ some best)
    × HasMost asked (plain ∷ plural ∷ []) best
get_the_best_display_value_lem_example = get_the_best_display_value_lem plain (plural ∷ []) asked

merge_constraints_with_display_value_lem_example :
    find (codes "case") (merge_constraints_with_display_value plural asked)
    ≡ elim (find (codes "case") asked) [
      | none ↦ find (codes "case") plural.constraint_map
      | some own ↦ some own
    ]
merge_constraints_with_display_value_lem_example =
    merge_constraints_with_display_value_lem (codes "case") plural asked

-- A dictionary that knows one word, with the grammeme 4.
abbrev dictionary : U16String → Option ℕ
dictionary s = elim (starts_with s (codes "do")) [ true ↦ some 4 | false ↦ none ]

abbrev prefixes : List PrefixWithPos
prefixes =
    record { prefix = codes "un"; matched_pos = 2; prefix_pos = 1 }
    ∷ record { prefix = codes "u"; matched_pos = 4; prefix_pos = 1 }
    ∷ record { prefix = codes "un"; matched_pos = 4; prefix_pos = 8 }
    ∷ []

test_split_prefix :
    split_prefix dictionary (codes "undo") 0 0 prefixes
    ≡ record { prefix_length = pos 2; prefix_grammemes = 8; word_grammemes = 4 }
unfolding split_prefix split_loop prefix_matches starts_with
test_split_prefix = refl

split_prefix_lem_example :
    TakesFirst dictionary
      (codes "undo")
      prefixes
      (split_prefix dictionary (codes "undo") 0 0 prefixes)
    ⊎ (NoneFits dictionary (codes "undo") prefixes
        × (split_prefix dictionary (codes "undo") 0 0 prefixes ≡ nothing_taken 0 0))
split_prefix_lem_example = split_prefix_lem dictionary (codes "undo") 0 prefixes
