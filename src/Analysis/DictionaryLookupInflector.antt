-- ===== src/Analysis/DictionaryLookupInflector.antt =====
-- src/inflection/dialog/DictionaryLookupInflector.cpp: a word is inflected as the best of the
-- inflections that it may be. The tests and mappings of case, which call ICU, are arguments, and so are
-- the patterns that are found for a word. The logging is left out.
use inflection.Prelude.{
  ℕ, suc, ◌-◌, Bool, true, false, not, ◌&&◌, Option, none, some, List, [], ◌∷◌, ◌++◌, if◌then◌else◌,
  ltb, ◌==◌, length, take, drop, Outcome, ok, ◌>>=◌,
}
use inflection.Prelude.Strings.{U16String, equals, is_empty}
use inflection.Dictionary.MetaData.{Source, get_binary_properties}
use inflection.Dictionary.Inflector.{InflectorDictionary, Pattern}
use inflection.Dictionary.Inflector.Reinflect.{reinflect_with_optional_constraints}
use inflection.Analysis.InflectionOrder.{comes_before, stable_sort}
use inflection.Analysis.MorphologicalAnalyzer.{
  InflectionGrammemes, MorphologicalAnalyzer, convert_each, filter_inflection_grammemes,
}

pub record Inflector : Type 0 where
  pub dictionary : Source
  pub inflector_dictionary : InflectorDictionary
  pub analyzer : MorphologicalAnalyzer
  pub enable_dictionary_fallback : Bool
  -- getInflectionPatternsForWord
  pub patterns_for_word : U16String → Outcome (List Pattern)
  -- of StringViewUtils, and u_isupper of the first code point
  pub is_all_upper_case : U16String → Bool
  pub lowercase : U16String → U16String
  pub uppercase : U16String → U16String
  pub starts_upper_case : U16String → Outcome Bool
  pub capitalize_first : U16String → U16String

-- The loop over the candidates.
unfoldable pub inflect_as :
    Inflector
    → U16String
    → List U16String
    → List U16String
    → List InflectionGrammemes
    → Outcome (Option U16String)
inflect_as i word constraints optional_constraints [] = ok none
inflect_as i word constraints optional_constraints (candidate ∷ candidates) =
    elim candidate.inflection [
      | none ↦ ok (some word)
      | some (pattern, inflection) ↦ (do
        optional ← convert_each i.dictionary optional_constraints
        to_constraints ← get_binary_properties i.dictionary constraints
        inflected_word ←
            reinflect_with_optional_constraints i.inflector_dictionary pattern inflection.grammemes
              to_constraints optional word
        elim (is_empty inflected_word) [
          | false ↦ ok (some inflected_word)
          | true ↦ elim i.enable_dictionary_fallback [
            | true ↦ inflect_as i word constraints optional_constraints candidates
            | false ↦ ok none
          ]
        ])
    ]

unfoldable pub inflect_word_implementation :
    Inflector
    → U16String
    → ℕ
    → List U16String
    → List U16String
    → List U16String
    → Outcome (Option U16String)
inflect_word_implementation i word word_grammemes constraints optional_constraints
      disambiguation_values =
    if word_grammemes == 0 then ok none else (do
      patterns ← i.patterns_for_word word
      if is_empty patterns then ok none else (do
        found ←
            filter_inflection_grammemes i.inflector_dictionary i.analyzer word word_grammemes
              patterns []
        if is_empty found then ok none else (do
          disambiguations ← convert_each i.dictionary disambiguation_values
          inflect_as i word constraints optional_constraints (
              if ltb 1 (length found)
              then stable_sort (comes_before i.analyzer disambiguations) found
              else found))))

unfoldable pub all_empty : List U16String → Bool
all_empty [] = true
all_empty (constraint ∷ constraints) = is_empty constraint && all_empty constraints

-- The second attempt, in lower case, and the case of its result.
unfoldable pub inflect_lower_cased :
    Inflector
    → U16String
    → ℕ
    → List U16String
    → List U16String
    → List U16String
    → Outcome (Option U16String)
inflect_lower_cased i word word_grammemes constraints optional_constraints disambiguation_values =
    do
      inflected ←
          inflect_word_implementation i (i.lowercase word) word_grammemes constraints
            optional_constraints disambiguation_values
      elim inflected [
        | none ↦ ok none
        | some inflected_word ↦
            if i.is_all_upper_case word then ok (some (i.uppercase inflected_word)) else (do
              upper ← i.starts_upper_case word
              ok (some (if upper then i.capitalize_first inflected_word else inflected_word)))
      ]

unfoldable pub inflect_with_optional_constraints :
    Inflector
    → U16String
    → ℕ
    → List U16String
    → List U16String
    → List U16String
    → Outcome (Option U16String)
inflect_with_optional_constraints i word word_grammemes constraints optional disambiguations =
    if all_empty constraints then ok (some word) else (do
      first ←
          (if not (i.is_all_upper_case word)
            then inflect_word_implementation i word word_grammemes constraints optional
                disambiguations
            else ok none)
      elim first [
        | some inflected_word ↦ ok (some inflected_word)
        | none ↦ inflect_lower_cased i word word_grammemes constraints optional disambiguations
      ])

unfoldable pub inflect :
    Inflector → U16String → ℕ → List U16String → List U16String → Outcome (Option U16String)
inflect i word word_grammemes constraints disambiguations =
    inflect_with_optional_constraints i word word_grammemes constraints [] disambiguations

unfoldable pub inflect_word :
    Inflector → U16String → ℕ → List U16String → List U16String → Outcome (Option U16String)
inflect_word i word word_grammemes constraints disambiguations =
    inflect_word_implementation i word word_grammemes constraints [] disambiguations

-- `indexDiff`: the length of the common start.
unfoldable pub common_prefix : U16String → U16String → ℕ
common_prefix [] exemplar = 0
common_prefix (x ∷ inflection) [] = 0
common_prefix (x ∷ inflection) (y ∷ exemplar) =
    if x == y then suc (common_prefix inflection exemplar) else 0

-- `inflection.replace(0, indexDiff, word, 0, word.length() - (exemplarLength - indexDiff))`: a count
-- that wraps around is longer than the word, and stands for all of it.
unfoldable pub as_exemplar : U16String → U16String → U16String → U16String
as_exemplar word exemplar inflection =
    let index_diff = common_prefix inflection exemplar in
    let removed = length exemplar - index_diff in
    let kept = if ltb (length word) removed then word else take (length word - removed) word in
    kept ++ drop index_diff inflection

unfoldable pub inflect_exemplar :
    Inflector
    → U16String
    → U16String
    → ℕ
    → List U16String
    → List U16String
    → Outcome (Option U16String)
inflect_exemplar i word exemplar word_grammemes constraints disambiguations = do
  result ←
      inflect_with_optional_constraints i (if is_empty exemplar then word else exemplar)
        word_grammemes constraints [] disambiguations
  ok (elim result [
    | none ↦ none
    | some inflection ↦
        if not (is_empty exemplar) && equals word exemplar
        then some inflection
        else some (as_exemplar word exemplar inflection)
  ])
