-- ===== src/Grammar/SynthesizerUtil.antt =====
-- src/inflection/grammar/synthesis/GrammarSynthesizerUtil.cpp. A token chain is the list of its
-- tokens from the first to the last. What the dictionary knows of a word is an argument.
pub mod Choice
pub mod Words
pub mod Prefix
use inflection.Prelude.{
  ℕ, zero, suc, ◌+◌, Bool, true, false, not, ◌&&◌, ◌||◌, Option, none, some, List, [], ◌∷◌, ◌++◌,
  if◌then◌else◌, ltb, ◌==◌, length, drop, get_elem?, Outcome, ok, throws, ◌>>=◌, out_of_range, ℤ,
  pos, negsuc, bit_and,
}
use inflection.Prelude.Strings.{U16String, codes, equals, is_empty, starts_with}
use inflection.Dialog.Constraints.{FeatureMap, find, emplace}
use inflection.Dialog.DisplayValue.{DisplayValue}

-- What is asked of a token here.
pub record Token : Type 0 where
  pub value : U16String
  pub significant : Bool
  pub whitespace : Bool

unfoldable pub check_significant_token_for_inflection : Token → Bool
check_significant_token_for_inflection token = not (
    (((not token.significant || token.whitespace) || equals token.value (codes "-"))
      || is_empty token.value))

unfoldable pub get_significant_words : List Token → List U16String
get_significant_words [] = []
get_significant_words (token ∷ tokens) =
    if check_significant_token_for_inflection token
    then token.value ∷ get_significant_words tokens
    else get_significant_words tokens

-- The loop, with the result so far and the index of the next word. `at` throws std::out_of_range.
unfoldable pub string_loop : U16String → ℕ → List Token → List U16String → Outcome U16String
string_loop result idx [] words = ok result
string_loop result idx (token ∷ tokens) words =
    if check_significant_token_for_inflection token
    then (elim (get_elem? words idx) [
      | none ↦ throws out_of_range
      | some word ↦ string_loop (result ++ word) (suc idx) tokens words
    ])
    else string_loop (result ++ token.value) idx tokens words

unfoldable pub get_string_from_inflected_significant_words :
    List Token → List U16String → Outcome U16String
get_string_from_inflected_significant_words tokens words = string_loop [] 0 tokens words

unfoldable pub has_feature : FeatureMap → U16String → Bool
has_feature constraints feature = elim (find feature constraints) [ none ↦ false | some _ ↦ true ]

unfoldable pub has_any_features : FeatureMap → List U16String → Bool
has_any_features constraints [] = false
has_any_features constraints (feature ∷ features) =
    has_feature constraints feature || has_any_features constraints features

unfoldable pub get_feature_value : FeatureMap → U16String → U16String
get_feature_value constraints feature = elim (find feature constraints) [
  | none ↦ []
  | some value ↦ value
]

unfoldable pub convert_to_string_constraints : FeatureMap → List U16String → List U16String
convert_to_string_constraints constraints [] = []
convert_to_string_constraints constraints (feature ∷ features) =
    let value = get_feature_value constraints feature in
    let rest = convert_to_string_constraints constraints features in
    if is_empty value then rest else value ∷ rest

-- numConstraintsMatch of a display value.
unfoldable pub count_matches : FeatureMap → FeatureMap → ℕ
count_matches constraints [] = 0
count_matches constraints ((feature, value) ∷ entries) =
    let rest = count_matches constraints entries in
    elim (find feature constraints) [
      | none ↦ rest
      | some own ↦ if equals own value then suc rest else rest
    ]

-- The loop, with the value chosen so far and its number of matches. Before the first value nothing is
-- chosen, and the number is -1.
unfoldable pub choose :
    FeatureMap → Option (DisplayValue × ℕ) → List DisplayValue → Option DisplayValue
choose constraints none [] = none
choose constraints (some (chosen, most)) [] = some chosen
choose constraints none (value ∷ values) =
    choose constraints (some (value, count_matches constraints value.constraint_map)) values
choose constraints (some (chosen, most)) (value ∷ values) =
    let matches = count_matches constraints value.constraint_map in
    choose constraints (if ltb most matches then some (value, matches) else some (chosen, most))
      values

unfoldable pub get_the_best_display_value : List DisplayValue → FeatureMap → Option DisplayValue
get_the_best_display_value values constraints = choose constraints none values

-- `insert` of a range: an entry whose feature is there already stays out.
unfoldable pub insert_all : FeatureMap → FeatureMap → FeatureMap
insert_all constraints [] = constraints
insert_all constraints ((feature, value) ∷ entries) =
    insert_all (emplace feature value constraints) entries

unfoldable pub merge_constraints_with_display_value : DisplayValue → FeatureMap → FeatureMap
merge_constraints_with_display_value display_value constraints =
    insert_all constraints display_value.constraint_map

unfoldable pub merge_constraints_with_existing :
    FeatureMap → List (Option U16String × U16String) → FeatureMap
merge_constraints_with_existing existing [] = existing
merge_constraints_with_existing existing ((none, value) ∷ entries) =
    merge_constraints_with_existing existing entries
merge_constraints_with_existing existing ((some feature, value) ∷ entries) =
    merge_constraints_with_existing (emplace feature value existing) entries

-- Forwards from a token, or backwards, as the list of the tokens that are met.
unfoldable pub get_first_significant_token : List Token → Option Token
get_first_significant_token [] = none
get_first_significant_token (token ∷ tokens) =
    if token.significant then some token else get_first_significant_token tokens

-- A prefix with the grammemes of a word that may follow it, and with its own.
pub record PrefixWithPos : Type 0 where
  pub prefix : U16String
  pub matched_pos : ℕ
  pub prefix_pos : ℕ

-- Whether the prefix is taken, and the grammemes of the rest of the word. `dictionary` is
-- getCombinedBinaryType, none for a word that it does not know.
unfoldable pub prefix_matches : (U16String → Option ℕ) → U16String → PrefixWithPos → Option ℕ
prefix_matches dictionary word p =
    if ltb (length p.prefix) (length word) && starts_with word p.prefix
    then (elim (dictionary (drop (length p.prefix) word)) [
      | none ↦ none
      | some grammemes ↦ if bit_and grammemes p.matched_pos == 0 then none else some grammemes
    ])
    else none

-- The result with prefixGrammemes and wordGrammemes, which it sets where a prefix is taken.
pub record SplitPrefix : Type 0 where
  pub prefix_length : ℤ
  pub prefix_grammemes : ℕ
  pub word_grammemes : ℕ

unfoldable pub split_loop :
    (U16String → Option ℕ) → U16String → ℕ → ℕ → List PrefixWithPos → SplitPrefix
split_loop dictionary word prefix_grammemes word_grammemes [] = record {
  prefix_length = negsuc 0;
  prefix_grammemes = prefix_grammemes;
  word_grammemes = word_grammemes;
}
split_loop dictionary word prefix_grammemes word_grammemes (p ∷ prefixes) =
    elim (prefix_matches dictionary word p) [
      | none ↦ split_loop dictionary word prefix_grammemes word_grammemes prefixes
      | some grammemes ↦ record {
        prefix_length = pos (length p.prefix);
        prefix_grammemes = p.prefix_pos;
        word_grammemes = grammemes;
      }
    ]

unfoldable pub split_prefix :
    (U16String → Option ℕ) → U16String → ℕ → ℕ → List PrefixWithPos → SplitPrefix
split_prefix dictionary word prefix_grammemes word_grammemes prefixes =
    if word_grammemes == 0
    then split_loop dictionary word prefix_grammemes word_grammemes prefixes
    else record {
      prefix_length = negsuc 0;
      prefix_grammemes = prefix_grammemes;
      word_grammemes = word_grammemes;
    }
