-- ===== src/Dialog/PronounConcept/Tests.antt =====
-- Tests and examples of pronouns.
use inflection.Prelude.{
  Bool, true, false, none, some, List, [], ◌∷◌, ◌++◌, length, ◌≡◌, refl, ok, throws, ◌>>=◌,
  illegal_argument, negsuc, ◌⊎◌, All,
}
use inflection.Prelude.Choice.{keep}
use inflection.Prelude.Strings.{U16String, codes, equals}
use inflection.Util.CodePoints.{Utf16}
use inflection.Dictionary.MetaData.{Source}
use inflection.Dictionary.PhraseProperties.{Icu}
use inflection.Dialog.Constraints.{find, put, emplace}
use inflection.Dialog.PronounConcept.{
  PronounEntry, PronounModel, PronounConcept, get_pronoun_entry, construct, count_generic,
  get_match_state, num_values, unmatched_defaults, entry_at, is_better, is_matching_initial_pronoun,
  customized_entries, emplace_all,
}
use inflection.Dialog.PronounConcept.Selection.{
  get_first_possible_value, select, match_entry, num_to_match,
}
use inflection.Dialog.PronounConcept.Agreement.{agrees}
use inflection.Dialog.PronounConcept.Initial.{
  construct_initial, initial_loop, remove_last_space, insert_constraints, insert_or_clear,
  clear_ambiguous,
}
use inflection.Dialog.PronounConcept.Initial.Merged.{agreed, unless_empty}
use inflection.Dialog.PronounConcept.Initial.Result.{is_named, pairs_of, construct_initial_lem}

-- No word is looked up.
abbrev ascii : Utf16
ascii = record {
  get = λ str index. 0;
  len = λ cp. 1;
  lead = λ cp. 0;
  trail = λ cp. 0;
  is_lead = λ c. false;
  is_trail = λ c. false;
  is_surrogate = λ c. false;
}

abbrev icu : Icu
icu = record {
  utf16 = ascii;
  nfkd = λ str. some str;
  default_vowels_start = λ cp. false;
  french_vowels_start = λ cp. false;
  default_vowels_end = λ cp. false;
  i_letter = λ cp. false;
  j_letter = λ cp. false;
  default_matchable_set = λ cp. false;
  punctuation = λ cp. false;
}

abbrev dictionary : Source
dictionary = record {
  get_word_type = λ word. ok none;
  type_identifier = λ name. negsuc 0;
  transform = λ word. ok word;
}

abbrev entry : U16String → U16String → U16String → PronounEntry
entry word gender grammatical_case = record {
  word = word;
  constraint_data = (codes "gender", gender) ∷ (codes "case", grammatical_case) ∷ [];
}

abbrev model : PronounModel
model = record {
  language = codes "en";
  speak_feature = some (codes "speak");
  default_pronoun_data =
      entry (codes "her") (codes "f") (codes "acc")
      ∷ entry (codes "her ") (codes "f") (codes "gen")
      ∷ entry (codes "them") [] (codes "acc")
      ∷ entry (codes "him") (codes "m") (codes "acc")
      ∷ [];
}

abbrev masculine : PronounConcept
masculine = record {
  model = model;
  pronoun_data = record {
    customized_pronoun_data = [];
    default_pronoun_data = model.default_pronoun_data;
  };
  constraints = (codes "gender", codes "m") ∷ [];
  default_constraints = (codes "case", codes "acc") ∷ [];
  default_pronoun_index = none;
}

abbrev fits : PronounEntry → Bool
fits value = agrees value.constraint_data masculine.constraints

test_him :
    get_first_possible_value icu dictionary masculine none true true
    ≡ ok (some (entry (codes "him") (codes "m") (codes "acc")))
unfolding get_first_possible_value is_matching_initial_pronoun num_to_match num_values select
    get_pronoun_entry entry_at match_entry count_generic get_match_state unmatched_defaults
    is_better find equals
test_him = refl

-- The two words "her" agree on the gender only.
construct_initial_lem_example :
    let named = keep (is_named equals (codes "her")) model.default_pronoun_data in
    let result = construct_initial equals model (codes "her") in
    ((named ≡ []) × (result ≡ throws illegal_argument))
    ⊎ ((before : List PronounEntry) × (first : PronounEntry) × (after : List PronounEntry)
        × (c : PronounConcept) × (model.default_pronoun_data ≡ before ++ (first ∷ after))
        × All (λ other. is_named equals (codes "her") other ≡ false) before
        × (is_named equals (codes "her") first ≡ true)
        × (result ≡ ok c)
        × (c.default_pronoun_index ≡ some (length before))
        × ((f : U16String)
            → find f c.default_constraints ≡ unless_empty (agreed f (pairs_of named))))
construct_initial_lem_example = construct_initial_lem equals (codes "her") model

test_initial :
    (do c ← construct_initial equals model (codes "her"); ok c.default_constraints)
    ≡ ok ((codes "gender", codes "f") ∷ [])
unfolding construct_initial construct num_values customized_entries emplace_all initial_loop
    get_pronoun_entry entry_at remove_last_space insert_constraints insert_or_clear clear_ambiguous
    find put emplace equals
test_initial = refl
