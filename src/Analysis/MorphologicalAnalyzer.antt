-- ===== src/Analysis/MorphologicalAnalyzer.antt =====
-- src/inflection/analysis/MorphologicalAnalyzer.cpp, over DictionaryExposableMorphology.cpp: the
-- inflections that a word may be, and the order of their grammemes.
use inflection.Prelude.{
  ℕ, suc, bit_or, Bool, true, false, not, ◌&&◌, Option, none, some, List, [], ◌∷◌, ◌++◌,
  if◌then◌else◌, ltb, ◌==◌, Outcome, ok, ◌>>=◌, pos,
}
use inflection.Prelude.Strings.{U16String, is_empty}
use inflection.Dictionary.MetaData.{Source, get_binary_properties, get_combined_binary_type}
use inflection.Dictionary.Inflector.{
  InflectorDictionary, Pattern, Inflection, same_id, contains_all,
}
use inflection.Dictionary.Inflector.Surface.{inflections_for_surface_form}

-- Grammemes, and the inflection that has them, with its pattern.
pub record InflectionGrammemes : Type 0 where
  pub grammemes : ℕ
  pub inflection : Option (Pattern × Inflection)

pub record MorphologicalAnalyzer : Type 0 where
  pub lemma_attributes : List ℕ
  pub grammeme_priority_tables : List (List ℕ)
  pub ignore_grammeme_sets : List ℕ

-- An int8_t, of which only -1, 0 and 1 are returned.
pub data Comparison : Type 0 where
  before same after : Comparison

-- `if (result != 0) return result;`
unfoldable pub then_by : Comparison → Comparison → Comparison
then_by before next = before
then_by same next = next
then_by after next = after

-- convertLemmaAttributes, and a row of convertGrammemePriorities
unfoldable pub convert_each : Source → List U16String → Outcome (List ℕ)
convert_each dictionary [] = ok []
convert_each dictionary (name ∷ names) = do
  value ← get_binary_properties dictionary (name ∷ [])
  rest ← convert_each dictionary names
  ok (value ∷ rest)

unfoldable pub convert_grammeme_priorities :
    Source → List (List U16String) → Outcome (List (List ℕ))
convert_grammeme_priorities dictionary [] = ok []
convert_grammeme_priorities dictionary (table ∷ tables) = do
  priorities ← convert_each dictionary table
  rest ← convert_grammeme_priorities dictionary tables
  ok (priorities ∷ rest)

unfoldable pub convert_ignore_grammemes : Source → List (List U16String) → Outcome (List ℕ)
convert_ignore_grammemes dictionary [] = ok []
convert_ignore_grammemes dictionary (grammeme_set ∷ sets) = do
  value ← get_binary_properties dictionary grammeme_set
  rest ← convert_ignore_grammemes dictionary sets
  ok (value ∷ rest)

unfoldable pub construct :
    Source
    → List U16String
    → List (List U16String)
    → List (List U16String)
    → Outcome MorphologicalAnalyzer
construct dictionary lemma_attributes priority_tables ignore_sets = do
  attributes ← convert_each dictionary lemma_attributes
  tables ← convert_grammeme_priorities dictionary priority_tables
  ignored ← convert_ignore_grammemes dictionary ignore_sets
  ok (record {
    lemma_attributes = attributes;
    grammeme_priority_tables = tables;
    ignore_grammeme_sets = ignored;
  })

-- find_if: the number of values before the first that the grammemes contain.
unfoldable pub priority_index : ℕ → List ℕ → ℕ
priority_index grammemes [] = 0
priority_index grammemes (value ∷ values) =
    if contains_all grammemes value then 0 else suc (priority_index grammemes values)

unfoldable pub compare_index : ℕ → ℕ → Comparison
compare_index idx1 idx2 =
    if not (idx1 == idx2) then (if ltb idx1 idx2 then before else after) else same

unfoldable pub compare_tables : List (List ℕ) → ℕ → ℕ → Comparison
compare_tables [] grammemes1 grammemes2 = same
compare_tables (values ∷ tables) grammemes1 grammemes2 =
    then_by (compare_index (priority_index grammemes1 values) (priority_index grammemes2 values))
      (compare_tables tables grammemes1 grammemes2)

unfoldable pub compare_grammemes : MorphologicalAnalyzer → ℕ → ℕ → Comparison
compare_grammemes m grammemes1 grammemes2 =
    compare_tables m.grammeme_priority_tables grammemes1 grammemes2

unfoldable pub is_important : ℕ → List ℕ → Bool
is_important grammemes [] = true
is_important grammemes (grammeme_set ∷ sets) =
    not (contains_all grammemes grammeme_set) && is_important grammemes sets

-- The loop over the inflections of a pattern.
unfoldable pub filter_inflections :
    MorphologicalAnalyzer → Pattern → List Inflection → List InflectionGrammemes
filter_inflections m pattern [] = []
filter_inflections m pattern (inflection ∷ inflections) =
    let current = bit_or inflection.grammemes pattern.parts_of_speech in
    let rest = filter_inflections m pattern inflections in
    if is_important current m.ignore_grammeme_sets
    then record { grammemes = current; inflection = some (pattern, inflection) } ∷ rest
    else rest

unfoldable pub filter_inflection_grammemes :
    InflectorDictionary
    → MorphologicalAnalyzer
    → U16String
    → ℕ
    → List Pattern
    → List InflectionGrammemes
    → Outcome (List InflectionGrammemes)
filter_inflection_grammemes d m word word_grammemes [] result = ok result
filter_inflection_grammemes d m word word_grammemes (pattern ∷ patterns) result =
    elim (same_id pattern.num_of_inflections (pos 0)) [
      | true ↦ filter_inflection_grammemes d m word word_grammemes patterns (
          if is_important pattern.parts_of_speech m.ignore_grammeme_sets
          then result ++ (record { grammemes = pattern.parts_of_speech; inflection = none } ∷ [])
          else result)
      | false ↦ inflections_for_surface_form d pattern word word_grammemes >>= λ inflections.
          filter_inflection_grammemes d m word word_grammemes patterns
            (result ++ filter_inflections m pattern inflections)
    ]

-- getWordGrammemeSets, of DictionaryExposableMorphology: the loop over the patterns of a word.
unfoldable pub grammemes_with : Pattern → List Inflection → List ℕ
grammemes_with pattern [] = []
grammemes_with pattern (inflection ∷ inflections) =
    bit_or inflection.grammemes pattern.parts_of_speech ∷ grammemes_with pattern inflections

unfoldable pub grammeme_sets_of :
    InflectorDictionary → U16String → ℕ → List Pattern → Outcome (List ℕ)
grammeme_sets_of d word word_grammemes [] = ok []
grammeme_sets_of d word word_grammemes (pattern ∷ patterns) = do
  here ← elim (same_id pattern.num_of_inflections (pos 0)) [
    | true ↦ ok (pattern.parts_of_speech ∷ [])
    | false ↦ (do
      inflections ← inflections_for_surface_form d pattern word word_grammemes
      ok (grammemes_with pattern inflections))
  ]
  rest ← grammeme_sets_of d word word_grammemes patterns
  ok (here ++ rest)

-- The patterns of the word, which the inflector finds, are an argument.
unfoldable pub get_word_grammeme_sets :
    InflectorDictionary
    → Source
    → (U16String → Outcome (List Pattern))
    → U16String
    → Outcome (List ℕ)
get_word_grammeme_sets d dictionary patterns_for_word word = do
  known ← get_combined_binary_type dictionary word
  elim known [
    | none ↦ ok []
    | some word_grammemes ↦ (do
      patterns ← patterns_for_word word
      sets ← grammeme_sets_of d word word_grammemes patterns
      ok (if is_empty sets then word_grammemes ∷ [] else sets))
  ]
