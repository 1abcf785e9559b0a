-- ===== src/Dialog/Concept.antt =====
-- src/inflection/dialog/SemanticConcept.cpp: a concept with display values, one of which fits its
-- constraints, or that the model's display function makes. The constraints are those of Constraints;
-- the functions of the model are arguments, as another library may give them.
pub mod Match
use inflection.Prelude.{
  Bool, true, false, not, ◌&&◌, ◌||◌, Option, none, some, List, [], ◌∷◌, ◌++◌, if◌then◌else◌,
  Outcome, ok, throws, ◌>>=◌, illegal_argument, illegal_state, null_pointer,
}
use inflection.Prelude.Strings.{U16String, codes, equals, is_empty as is_nil}
use inflection.Dialog.Constraints.{FeatureMap, find}
use inflection.Dialog.DisplayValue.{DisplayValue, of_string, get_feature_value}
use inflection.Dialog.SpeakableString
use inflection.Dialog.SpeakableString.{SpeakableString, of_print, make}

-- What a concept asks of its SemanticFeatureModel. A function that is not set is none; one that is set may
-- throw.
pub record Model : Type 0 where
  pub default_display_function :
      Option (List DisplayValue → FeatureMap → Bool → Outcome (Option DisplayValue))
  pub default_feature_function :
      U16String → Option (DisplayValue → FeatureMap → Outcome (Option SpeakableString))
  pub speak_feature : Option U16String

pub record Concept : Type 0 where
  pub model : Model
  pub constraints : FeatureMap
  pub semantic : U16String
  pub default_to_semantic_value : DisplayValue
  pub display_data : Option (List DisplayValue)
  pub default_to_semantic : Bool

unfoldable has_values : Option (List DisplayValue) → Bool
has_values none = false
has_values (some values) = not (is_nil values)

-- SemanticConcept(model, semantic, defaultToSemantic), with the display data that the model has.
unfoldable pub construct : Model → U16String → Option (List DisplayValue) → Bool → Outcome Concept
unfolding has_values
construct model semantic display_data default_to_semantic =
    if not default_to_semantic && not (has_values display_data)
    then throws illegal_argument
    else ok (record {
      model = model;
      constraints = [];
      semantic = semantic;
      default_to_semantic_value = of_string semantic;
      display_data = display_data;
      default_to_semantic = default_to_semantic;
    })

-- Whether a value has every constraint, with the same value.
pub is_full_match : FeatureMap → FeatureMap → Bool
is_full_match [] value_map = true
is_full_match ((feature, value) ∷ constraints) value_map =
    elim (find feature value_map) [ none ↦ false | some v ↦ equals v value ]
    && is_full_match constraints value_map

pub first_match : FeatureMap → List DisplayValue → Option DisplayValue
unfolding is_full_match
first_match constraints [] = none
first_match constraints (value ∷ values) =
    if is_full_match constraints value.constraint_map
    then some value
    else first_match constraints values

-- The value that the display function makes, where no value matches.
generated_value : Concept → Outcome (Option DisplayValue)
generated_value c = elim c.model.default_display_function [
  | none ↦ ok none
  | some make_display ↦ elim c.display_data [
    | none ↦
        if c.default_to_semantic
        then make_display (c.default_to_semantic_value ∷ []) c.constraints true
        else throws illegal_state
    | some values ↦ make_display values c.constraints true
  ]
]

matching_value : Concept → Option DisplayValue
unfolding first_match
matching_value c = elim c.display_data [
  | none ↦ none
  | some values ↦ first_match c.constraints values
]

pub get_first_possible_value : Concept → Outcome (Option DisplayValue)
unfolding generated_value matching_value
get_first_possible_value c = elim (matching_value c) [
  | none ↦ generated_value c
  | some value ↦ ok (some value)
]

semantic_or_null : Concept → Option DisplayValue
semantic_or_null c =
    if c.default_to_semantic && not (is_nil c.default_to_semantic_value.display_string)
    then some c.default_to_semantic_value
    else none

current_of : Concept → Option DisplayValue → Option DisplayValue
unfolding semantic_or_null
current_of c none = semantic_or_null c
current_of c (some value) = if is_nil value.display_string then semantic_or_null c else some value

pub get_current_value : Concept → Outcome (Option DisplayValue)
unfolding get_first_possible_value current_of
get_current_value c = do possible ← get_first_possible_value c; ok (current_of c possible)

pub is_exists : Concept → Outcome Bool
unfolding get_current_value
is_exists c = do current ← get_current_value c; ok (elim current [ none ↦ false | some _ ↦ true ])

-- The text of a display value, spoken as its speak feature says.
spoken_value : Model → DisplayValue → Outcome SpeakableString
spoken_value model value = elim model.speak_feature [
  | none ↦ throws null_pointer
  | some speak ↦ ok (elim (get_feature_value speak value) [
    | none ↦ of_print value.display_string
    | some spoken ↦ make value.display_string spoken
  ])
]

some_text : Outcome SpeakableString → Outcome (Option SpeakableString)
some_text result = do text ← result; ok (some text)

-- toSpeakableStringDefault(defaultToSemantic); none is the null pointer.
pub to_speakable_string_default : Bool → Concept → Outcome (Option SpeakableString)
unfolding get_current_value spoken_value some_text
to_speakable_string_default default_to_semantic c = do
  current ← get_current_value c
  elim current [
    | none ↦ ok (
        if default_to_semantic && not (is_nil c.semantic) then some (of_print c.semantic) else none)
    | some value ↦
        if is_nil value.display_string then ok none else some_text (spoken_value c.model value)
  ]

pub to_speakable_string : Concept → Outcome (Option SpeakableString)
unfolding to_speakable_string_default
to_speakable_string c = to_speakable_string_default c.default_to_semantic c

pub to_string : Concept → Outcome U16String
unfolding to_speakable_string
to_string c = do
  text ← to_speakable_string c
  ok (elim text [ none ↦ codes "null" | some s ↦ SpeakableString.to_string s ])

-- The feature of the first possible value, asked of it a second time where the current value is
-- another and has no such feature.
synonym_value : U16String → Option DisplayValue → Option SpeakableString
synonym_value feature none = none
synonym_value feature (some value) = elim (get_feature_value feature value) [
  | none ↦ none
  | some text ↦ some (of_print text)
]

pub get_feature : U16String → Concept → Outcome (Option SpeakableString)
unfolding get_current_value synonym_value
get_feature feature c = do
  current ← get_current_value c
  elim current [
    | none ↦ ok none
    | some value ↦ elim (get_feature_value feature value) [
      | some text ↦ ok (some (of_print text))
      | none ↦ elim (c.model.default_feature_function feature) [
        | some function ↦ function value c.constraints
        | none ↦ get_first_possible_value c >>= λ possible. ok (synonym_value feature possible)
      ]
    ]
  ]
