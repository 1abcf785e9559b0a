-- ===== src/Analysis/Tests.antt =====
-- Tests and examples of the inflection of words.
use inflection.Prelude.{
  ℕ, ◌-◌, false, none, some, [], ◌∷◌, ◌++◌, if◌then◌else◌, ltb, length, take, ◌≡◌, refl, arith, pos,
  negsuc, ok,
}
use inflection.Prelude.Choice.{IsStrict}
use inflection.Prelude.Strings.{codes, equals, ends_with}
use inflection.Metadata.CompressedArray.{read, extract_value}
use inflection.Dictionary.Inflector.{
  InflectorDictionary, Pattern, contains_all, same_id, to_signed, get_inflection_at_position,
  rounds, for_inflections, each_position, get_suffix,
}
use inflection.Dictionary.Inflector.Surface.{
  inflections_for_surface_form, match_inflection, match_suffix,
}
use inflection.Dictionary.PropertyMaps.{is_below}
use inflection.Analysis.MorphologicalAnalyzer.{
  InflectionGrammemes, MorphologicalAnalyzer, then_by, priority_index, compare_index,
  compare_tables, compare_grammemes, filter_inflection_grammemes, filter_inflections, is_important,
  convert_each,
}
use inflection.Analysis.InflectionOrder.{
  comes_before, compare_inflection_grammemes, compare_scores, compare_inflections,
  disambiguation_match_score, score_loop, stable_sort, insert,
}
use inflection.Analysis.DictionaryLookupInflector.{
  as_exemplar, common_prefix, Inflector, inflect_word_implementation, inflect_as,
}
use inflection.Analysis.Ordering.{comes_before-IsStrict}
use inflection.Analysis.Exemplar.{as_exemplar_lem}
use inflection.Analysis.Selection.{inflect_word_implementation_lem, IsFirst}

-- The grammemes 4 come before the grammemes 2.
abbrev analyzer : MorphologicalAnalyzer
analyzer = record {
  lemma_attributes = [];
  grammeme_priority_tables = (4 ∷ 2 ∷ []) ∷ [];
  ignore_grammeme_sets = [];
}

abbrev candidate : ℕ → InflectionGrammemes
candidate grammemes = record { grammemes = grammemes; inflection = none }

comes_before-IsStrict_example : IsStrict (comes_before analyzer (1 ∷ []))
comes_before-IsStrict_example = comes_before-IsStrict analyzer (1 ∷ [])

-- The one with the grammeme that is asked for comes first.
test_sort :
    stable_sort (comes_before analyzer (1 ∷ [])) (candidate 2 ∷ candidate 4 ∷ candidate 3 ∷ [])
    ≡ candidate 3 ∷ candidate 4 ∷ candidate 2 ∷ []
unfolding stable_sort insert comes_before compare_inflection_grammemes compare_scores
    disambiguation_match_score score_loop compare_grammemes compare_tables compare_index
    priority_index compare_inflections then_by contains_all same_id is_below to_signed
test_sort = refl

-- A verb that is inflected as another one.
as_exemplar_lem_example :
    as_exemplar (codes "relier") (codes "plier") (codes "plions")
    ≡ (if ltb (length (codes "relier")) (length (codes "er"))
        then codes "relier"
        else take (length (codes "relier") - length (codes "er")) (codes "relier"))
      ++ codes "ons"
as_exemplar_lem_example =
    as_exemplar_lem (codes "relier") (codes "pli") (codes "er") (codes "ons")
      (λ e. omega (arith, e))

test_exemplar : as_exemplar (codes "relier") (codes "plier") (codes "plions") ≡ codes "relions"
unfolding as_exemplar common_prefix
test_exemplar = refl

-- A word that is shorter than the ending keeps it.
test_short : as_exemplar (codes "ir") (codes "aller") (codes "va") ≡ codes "irva"
unfolding as_exemplar common_prefix
test_short = refl

-- A row of eight bits for each number: the pattern, and its two inflections. Grammemes: 1 is singular, and
-- 2 is plural.
abbrev nouns : InflectorDictionary
nouns = record {
  grammeme_patterns = 1 ∷ 2 ∷ [];
  suffix_string = λ id. if same_id id (pos 1) then codes "y" else codes "ies";
  suffix_identifier = λ suffix. if equals suffix (codes "y") then pos 1 else negsuc 0;
  inflections_array = record { word_width = 8; words = 2166786 ∷ []; select_mask = 255 };
  num_bits_for_num_of_inflections = 3;
  num_bits_for_lemma_suffixes_len = 1;
  num_bits_for_pos_idx = 2;
  num_bits_for_frequency_idx = 1;
  num_bits_for_grammemes_idx = 4;
  num_bits_for_suffix_idx = 4;
  frequencies_array = pos 7 ∷ [];
  pattern_index = λ index. 0;
  values_of_types = λ types. 0;
}

abbrev noun : Pattern
noun = record {
  identifier_id = pos 0;
  frequency_idx = pos 0;
  parts_of_speech = 4;
  lemma_suffixes_len = pos 0;
  lemma_suffixes_offset = 1;
  num_of_inflections = pos 2;
  inflections_array_start = pos 1;
}

-- A pattern of words that are not inflected.
abbrev particle : Pattern
particle = record noun { parts_of_speech = 8; num_of_inflections = pos 0 }

abbrev inflector : Inflector
inflector = record {
  dictionary = record {
    get_word_type = λ word. ok (some 1);
    type_identifier = λ name.
        if equals name (codes "singular")
        then pos 0
        else if equals name (codes "plural")
        then pos 1
        else negsuc 0;
    transform = λ word. ok word;
  };
  inflector_dictionary = nouns;
  analyzer = analyzer;
  enable_dictionary_fallback = false;
  patterns_for_word = λ word. ok (particle ∷ noun ∷ []);
  is_all_upper_case = λ word. false;
  lowercase = λ word. word;
  uppercase = λ word. word;
  starts_upper_case = λ word. ok false;
  capitalize_first = λ word. word;
}

abbrev singular_noun : InflectionGrammemes
singular_noun = record {
  grammemes = 5;
  inflection = some (noun, record { suffix_id = pos 1; grammemes = 1 });
}

pony_candidates :
    filter_inflection_grammemes nouns analyzer (codes "pony") 1 (particle ∷ noun ∷ []) []
    ≡ ok (candidate 8 ∷ singular_noun ∷ [])
unfolding filter_inflection_grammemes filter_inflections is_important inflections_for_surface_form
    for_inflections each_position get_inflection_at_position read extract_value match_inflection
    match_suffix ends_with equals contains_all same_id get_suffix rounds
pony_candidates = refl

inflect_word_implementation_lem_example :
    (best : InflectionGrammemes) × IsFirst
      (comes_before analyzer [])
      (candidate 8 ∷ singular_noun ∷ [])
      best
    × (inflect_word_implementation inflector (codes "pony") 1 (codes "plural" ∷ []) [] []
        ≡ inflect_as inflector (codes "pony") (codes "plural" ∷ []) [] (best ∷ []))
unfolding convert_each
inflect_word_implementation_lem_example =
    inflect_word_implementation_lem inflector (codes "pony") 1 (codes "plural" ∷ []) [] [] particle
      (noun ∷ []) (candidate 8) (singular_noun ∷ []) [] refl refl refl pony_candidates refl
