-- ===== src/Dialog/PronounConcept.antt =====
-- src/inflection/dialog/PronounConcept.cpp: a concept that is shown as one of the pronouns of a
-- language, or one of those given for it. The table of a language's pronouns, which a resource
-- holds, the speak feature and the language are the record `PronounModel`. A concept that the pronoun refers to
-- stands as its two functions that are called.
pub mod Selection
pub mod Initial
pub mod Choice
pub mod Agreement
mod Tests
use inflection.Prelude.{
  ℕ, zero, suc, ◌+◌, ◌-◌, Bool, true, false, not, ◌&&◌, ◌||◌, Option, none, some, List, [], ◌∷◌,
  ◌++◌, if◌then◌else◌, ltb, ◌==◌, length, get_elem?, Outcome, ok, throws, ◌>>=◌, illegal_argument,
  out_of_range, null_pointer,
}
use inflection.Prelude.Strings.{U16String, codes, equals, is_empty}
use inflection.Dictionary.MetaData.{Source}
use inflection.Dictionary.PhraseProperties.{Icu, is_starts_with_vowel, is_ends_with_vowel}
use inflection.Dialog.Constraints.{FeatureMap, find, emplace}
use inflection.Dialog.DisplayValue.{DisplayValue}
use inflection.Dialog.SpeakableString
use inflection.Dialog.SpeakableString.{SpeakableString, of_print, make}

pub record PronounEntry : Type 0 where
  pub word : U16String
  pub constraint_data : FeatureMap

pub record PronounModel : Type 0 where
  pub language : U16String
  pub speak_feature : Option U16String
  pub default_pronoun_data : List PronounEntry

pub record PronounData : Type 0 where
  pub customized_pronoun_data : List PronounEntry
  pub default_pronoun_data : List PronounEntry

pub record PronounConcept : Type 0 where
  pub model : PronounModel
  pub pronoun_data : PronounData
  pub constraints : FeatureMap
  pub default_constraints : FeatureMap
  -- none for -1
  pub default_pronoun_index : Option ℕ

-- A SemanticFeatureConceptBase: toSpeakableString and getFeatureValueByName.
pub record ReferencedConcept : Type 0 where
  pub to_speakable_string : Outcome (Option SpeakableString)
  pub get_feature_value_by_name : U16String → Outcome (Option SpeakableString)

-- A loop that emplaces each entry of a map.
unfoldable pub emplace_all : FeatureMap → FeatureMap → FeatureMap
emplace_all [] result = result
emplace_all ((feature, value) ∷ entries) result = emplace_all entries (emplace feature value result)

-- The loop of PronounData's constructor.
unfoldable pub customized_entries : List DisplayValue → List PronounEntry
customized_entries [] = []
customized_entries (value ∷ values) =
    record { word = value.display_string; constraint_data = emplace_all value.constraint_map [] }
    ∷ customized_entries values

unfoldable pub num_values : PronounData → ℕ
num_values p = length p.customized_pronoun_data + length p.default_pronoun_data

-- std::vector::at
unfoldable pub entry_at : List PronounEntry → ℕ → Outcome PronounEntry
entry_at entries index = elim (get_elem? entries index) [
  | none ↦ throws out_of_range
  | some entry ↦ ok entry
]

unfoldable pub get_pronoun_entry : PronounData → ℕ → Outcome PronounEntry
get_pronoun_entry p idx =
    if ltb idx (length p.customized_pronoun_data)
    then entry_at p.customized_pronoun_data idx
    else entry_at p.default_pronoun_data (idx - length p.customized_pronoun_data)

unfoldable pub get_feature_value_for_pronoun : FeatureMap → U16String → Option U16String
get_feature_value_for_pronoun constraint_data feature = find feature constraint_data

-- PronounConcept(model, defaultDisplayData, defaultConstraints)
unfoldable pub construct : PronounModel → List DisplayValue → FeatureMap → Outcome PronounConcept
construct model default_display_data default_constraints =
    let pronoun_data : PronounData = record {
      customized_pronoun_data = customized_entries default_display_data;
      default_pronoun_data = model.default_pronoun_data;
    } in
    if num_values pronoun_data == 0
    then throws illegal_argument
    else ok (record {
      model = model;
      pronoun_data = pronoun_data;
      constraints = [];
      default_constraints = emplace_all default_constraints [];
      default_pronoun_index = none;
    })

pub data MatchState : Type 0 where
  no_match generic_match full_match : MatchState

unfoldable pub get_match_state : FeatureMap → U16String → U16String → MatchState
get_match_state value_constraint_map semantic_name semantic_value =
    elim (find semantic_name value_constraint_map) [
      | none ↦ no_match
      | some value_constraint ↦
          if not (equals value_constraint semantic_value)
          then (if is_empty value_constraint then generic_match else no_match)
          else full_match
    ]

unfoldable pub has_same_values : FeatureMap → FeatureMap → Bool
has_same_values [] value_constraint_map = true
has_same_values ((semantic_name, semantic_value) ∷ constraints) value_constraint_map =
    elim (find semantic_name value_constraint_map) [
      | none ↦ false
      | some value ↦ equals value semantic_value && has_same_values constraints value_constraint_map
    ]

unfoldable pub is_matching_initial_pronoun : PronounConcept → Outcome Bool
is_matching_initial_pronoun c = elim c.default_pronoun_index [
  | none ↦ ok false
  | some index ↦
      if not (is_empty c.constraints)
      then (do
        entry ← get_pronoun_entry c.pronoun_data index
        ok (has_same_values c.constraints entry.constraint_data))
      else ok true
]

unfoldable pub is_matching_feature_value : ReferencedConcept → U16String → U16String → Outcome Bool
is_matching_feature_value reference semantic_value semantic_name = do
  feature_value ← reference.get_feature_value_by_name semantic_name
  ok (elim feature_value [
    | none ↦ not (is_empty semantic_value)
    | some text ↦ equals text.print semantic_value
  ])

-- The loop over the constraints: how many are matched in general, or none if one is not matched.
unfoldable pub count_generic : FeatureMap → FeatureMap → ℕ → Option ℕ
count_generic value_constraint_map [] matched = some matched
count_generic value_constraint_map ((semantic_name, semantic_value) ∷ constraints) matched =
    elim (get_match_state value_constraint_map semantic_name semantic_value) [
      | no_match ↦ none
      | generic_match ↦ count_generic value_constraint_map constraints (suc matched)
      | full_match ↦ count_generic value_constraint_map constraints matched
    ]

-- The loop over the default constraints, with currDefaultConstraintsToMatch.
unfoldable pub unmatched_defaults : FeatureMap → FeatureMap → ℕ → ℕ
unmatched_defaults value_constraint_map [] to_match = to_match
unmatched_defaults value_constraint_map ((semantic_name, semantic_value) ∷ defaults) to_match =
    elim (get_match_state value_constraint_map semantic_name semantic_value) [
      | no_match ↦ unmatched_defaults value_constraint_map defaults to_match
      | generic_match ↦ unmatched_defaults value_constraint_map defaults (to_match - 1)
      | full_match ↦ unmatched_defaults value_constraint_map defaults (to_match - 1)
    ]

-- The part of a name after its first `=`.
unfoldable pub after_equals : U16String → Option U16String
after_equals [] = none
after_equals (c ∷ name) = if c == 61 then some name else after_equals name

-- What the loop over the entries has found: the entry, genericConstraintsMatched and
-- defaultConstraintsToMatch.
pub record Possible : Type 0 where
  pub value : PronounEntry
  pub generic_matched : ℕ
  pub defaults_to_match : ℕ

unfoldable pub is_better : Option Possible → ℕ → ℕ → Bool
is_better none generic defaults = true
is_better (some best) generic defaults =
    ltb generic best.generic_matched
    || (generic == best.generic_matched && ltb defaults best.defaults_to_match)
