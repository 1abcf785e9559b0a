-- ===== src/Dialog/PronounConcept/Selection.antt =====
-- PronounConcept.cpp: which entry a pronoun is shown as, and what is read from it. The locale's
-- dictionary and ICU's sets, on which the sound of a word depends, are arguments.
use inflection.Prelude.{
  ℕ, zero, suc, Bool, true, false, not, ◌&&◌, ◌||◌, Option, none, some, [], ◌∷◌, if◌then◌else◌,
  ◌==◌, length, Outcome, ok, throws, ◌>>=◌, out_of_range, null_pointer,
}
use inflection.Prelude.Strings.{U16String, codes, equals, is_empty}
use inflection.Dictionary.MetaData.{Source}
use inflection.Dictionary.PhraseProperties.{Icu, is_starts_with_vowel, is_ends_with_vowel}
use inflection.Dialog.Constraints.{FeatureMap}
use inflection.Dialog.SpeakableString
use inflection.Dialog.SpeakableString.{SpeakableString, of_print, make}
use inflection.Dialog.PronounConcept.{
  PronounEntry, PronounConcept, ReferencedConcept, num_values, get_pronoun_entry, Possible,
  is_better, is_matching_initial_pronoun, is_matching_feature_value, count_generic,
  unmatched_defaults, after_equals, get_feature_value_for_pronoun,
}

unfoldable pub num_to_match : PronounConcept → Bool → ℕ
num_to_match c match_all =
    if match_all then num_values c.pronoun_data else length c.pronoun_data.customized_pronoun_data

unfoldable pub initial_entry : PronounConcept → Outcome PronounEntry
initial_entry c = elim c.default_pronoun_index [
  | none ↦ throws out_of_range
  | some index ↦ get_pronoun_entry c.pronoun_data index
]

module _ (icu : Icu) (dictionary : Source) where
  unfoldable pub is_matching_sound_property : PronounConcept → U16String → U16String → Outcome Bool
  is_matching_sound_property c display_value match_type =
      let language = c.model.language in
      if equals match_type (codes "consonant-start") || equals match_type (codes "vowel-start")
      then (do
        starts_with_vowel ← is_starts_with_vowel icu dictionary language display_value
        ok (
            not (
              (starts_with_vowel && equals match_type (codes "consonant-start"))
              || (not starts_with_vowel && equals match_type (codes "vowel-start")))))
      else (do
        ends_with_vowel ← is_ends_with_vowel icu dictionary language display_value
        ok (
            not (
              (ends_with_vowel && equals match_type (codes "consonant-end"))
              || (not ends_with_vowel && equals match_type (codes "vowel-end")))))

  -- What one entry of the value's map asks of the referenced concept. The text of the concept is the same
  -- in each round, so that it need not be kept.
  unfoldable pub is_matching_dependency :
      PronounConcept → ReferencedConcept → U16String → U16String → Outcome Bool
  is_matching_dependency c reference semantic_name semantic_value =
      elim (after_equals semantic_name) [
        | none ↦ ok true
        | some name ↦
            if equals name (codes "sound")
            then (do
              display_value ← reference.to_speakable_string
              elim display_value [
                | none ↦ ok true
                | some text ↦ is_matching_sound_property c text.print semantic_value
              ])
            else is_matching_feature_value reference semantic_value name
      ]

  -- The loop over them.
  unfoldable pub is_matching_reference :
      PronounConcept → ReferencedConcept → FeatureMap → Outcome Bool
  is_matching_reference c reference [] = ok true
  is_matching_reference c reference ((semantic_name, semantic_value) ∷ entries) =
      is_matching_dependency c reference semantic_name semantic_value >>= λ matches. elim matches [
        | true ↦ is_matching_reference c reference entries
        | false ↦ ok false
      ]

  -- Whether an entry is a full match, and then in how many constraints only in general.
  unfoldable pub match_entry :
      PronounConcept → Option ReferencedConcept → PronounEntry → Outcome (Option ℕ)
  match_entry c referenced_concept entry =
      elim (count_generic entry.constraint_data c.constraints 0) [
        | none ↦ ok none
        | some generic ↦ elim referenced_concept [
          | none ↦ ok (some generic)
          | some reference ↦ (do
            matches ← is_matching_reference c reference entry.constraint_data
            ok (if matches then some generic else none))
        ]
      ]

  -- The loop over the entries: the rounds that are left, idx, and what was found.
  unfoldable pub select :
      PronounConcept
      → Option ReferencedConcept
      → ℕ
      → ℕ
      → Option Possible
      → Outcome (Option Possible)
  select c referenced_concept zero idx possible = ok possible
  select c referenced_concept (suc n) idx possible = do
    entry ← get_pronoun_entry c.pronoun_data idx
    full_match ← match_entry c referenced_concept entry
    elim full_match [
      | none ↦ select c referenced_concept n (suc idx) possible
      | some generic ↦
          let defaults =
            unmatched_defaults entry.constraint_data c.default_constraints
              (length c.default_constraints) in
          elim (is_better possible generic defaults) [
            | false ↦ select c referenced_concept n (suc idx) possible
            | true ↦
                let found : Possible = record {
                  value = entry;
                  generic_matched = generic;
                  defaults_to_match = defaults;
                } in
                elim (generic == 0 && defaults == 0) [
                  | true ↦ ok (some found)
                  | false ↦ select c referenced_concept n (suc idx) (some found)
                ]
          ]
    ]

  -- none is the null pointer.
  unfoldable pub get_first_possible_value :
      PronounConcept → Option ReferencedConcept → Bool → Bool → Outcome (Option PronounEntry)
  get_first_possible_value c referenced_concept return_default match_all = do
    matches_initial ← elim referenced_concept [
      | none ↦ is_matching_initial_pronoun c
      | some _ ↦ ok false
    ]
    elim matches_initial [
      | true ↦ (do entry ← initial_entry c; ok (some entry))
      | false ↦ (do
        possible ← select c referenced_concept (num_to_match c match_all) 0 none
        elim possible [
          | some found ↦ ok (some found.value)
          | none ↦
              if return_default
              then (do entry ← get_pronoun_entry c.pronoun_data 0; ok (some entry))
              else ok none
        ])
    ]

  unfoldable pub get_current_value :
      PronounConcept → Option ReferencedConcept → Bool → Bool → Outcome (Option PronounEntry)
  get_current_value c referenced_concept return_default match_all = do
    value ← get_first_possible_value c referenced_concept return_default match_all
    ok (elim value [ none ↦ none | some entry ↦ if is_empty entry.word then none else some entry ])

  unfoldable pub get_feature_value : PronounConcept → U16String → Outcome (Option SpeakableString)
  get_feature_value c feature = do
    value ← get_current_value c none true true
    ok (elim value [
      | none ↦ none
      | some entry ↦ elim (get_feature_value_for_pronoun entry.constraint_data feature) [
        | none ↦ none
        | some feature_value ↦ some (of_print feature_value)
      ]
    ])

  unfoldable pub is_exists : PronounConcept → Outcome Bool
  is_exists c = do
    value ← get_current_value c none false true
    ok (elim value [ none ↦ false | some _ ↦ true ])

  unfoldable pub is_custom_match : PronounConcept → Outcome Bool
  is_custom_match c = do
    value ← get_current_value c none false false
    ok (elim value [ none ↦ false | some _ ↦ true ])

  -- Both overloads of toSpeakableString.
  unfoldable pub to_speakable_string :
      PronounConcept → Option ReferencedConcept → Outcome (Option SpeakableString)
  to_speakable_string c referenced_concept = do
    value ← get_current_value c referenced_concept true true
    elim value [
      | none ↦ ok none
      | some entry ↦ if is_empty entry.word then ok none else elim c.model.speak_feature [
        | none ↦ throws null_pointer
        | some speak ↦ ok (
            some (elim (get_feature_value_for_pronoun entry.constraint_data speak) [
              | none ↦ of_print entry.word
              | some speak_string ↦ make entry.word speak_string
            ]))
      ]
    ]

  unfoldable pub to_string : PronounConcept → Outcome U16String
  to_string c = do
    text ← to_speakable_string c none
    ok (elim text [ none ↦ codes "null" | some s ↦ SpeakableString.to_string s ])
