-- ===== src/Dictionary/PhraseProperties.antt =====
-- src/inflection/dictionary/PhraseProperties.cpp: whether a text starts or ends with the sound of a
-- vowel. The sets of code points, which ICU makes from patterns, its normalizer and the macros of
-- its utf16.h are arguments; a locale stands as its language.
pub mod Usable
pub mod Known
mod Tests
use inflection.Prelude.{
  ℕ, zero, suc, ◌+◌, ◌-◌, bit_and, Bool, true, false, not, ◌&&◌, ◌||◌, Option, none, some, List, [],
  ◌∷◌, ◌++◌, if◌then◌else◌, ltb, ◌==◌, length, Outcome, ok, throws, undefined, ◌>>=◌, icu_failure,
  ℤ, pos, negsuc,
}
use inflection.Prelude.Strings.{U16String, codes, equals, is_empty, starts_with}
use inflection.Util.CodePoints.{Utf16, code_point_at, append_code_point, remove_set_from_string}
use inflection.Dictionary.MetaData.{Source, get_combined_binary_type, find_binary_properties}

pub record Icu : Type 0 where
  pub utf16 : Utf16
  -- unorm2_normalize with the NFKD instance; none is a failure
  pub nfkd : U16String → Option U16String
  pub default_vowels_start : ℕ → Bool
  pub french_vowels_start : ℕ → Bool
  pub default_vowels_end : ℕ → Bool
  pub i_letter : ℕ → Bool
  pub j_letter : ℕ → Bool
  pub default_matchable_set : ℕ → Bool
  pub punctuation : ℕ → Bool

module _ (icu : Icu) where
  unfoldable pub contains_at : (ℕ → Bool) → U16String → ℤ → Outcome Bool
  contains_at set str index = do cp ← code_point_at icu.utf16 str index; ok (set cp)

  -- The loop of getFirstUsableIndex from an index on.
  unfoldable pub first_loop : (ℕ → Bool) → U16String → ℕ → ℕ → Outcome ℤ
  first_loop important_set str zero index = ok (negsuc 0)
  first_loop important_set str (suc n) index =
      contains_at important_set str (pos index) >>= λ found. elim found [
        | true ↦ ok (pos index)
        | false ↦ first_loop important_set str n (suc index)
      ]

  unfoldable pub get_first_usable_index : U16String → (ℕ → Bool) → Outcome ℤ
  get_first_usable_index str important_set =
      if not (is_empty str) then first_loop important_set str (length str) 0 else ok (negsuc 0)

  -- The loop of getLastUsableIndex: from `count - 1` down.
  unfoldable pub last_loop : (ℕ → Bool) → U16String → ℕ → Outcome ℤ
  last_loop important_set str zero = ok (negsuc 0)
  last_loop important_set str (suc index) = contains_at important_set str (pos index) >>= λ found.
      elim found [ true ↦ ok (pos index) | false ↦ last_loop important_set str index ]

  unfoldable pub get_last_usable_index : U16String → (ℕ → Bool) → Outcome ℤ
  get_last_usable_index str important_set =
      if not (is_empty str) then last_loop important_set str (length str) else ok (negsuc 0)

  unfoldable pub normalize : U16String → Outcome U16String
  normalize str =
      if ltb 0 (length str)
      then elim (icu.nfkd str) [ none ↦ throws icu_failure | some result ↦ ok result ]
      else ok []

  unfoldable pub normalized_at : U16String → ℤ → Outcome U16String
  normalized_at str index = do
    cp ← code_point_at icu.utf16 str index
    normalize (append_code_point icu.utf16 [] cp)

  -- The loop over the further sets. The result says whether all of them matched.
  unfoldable pub next_sets : U16String → ℕ → List (ℕ → Bool) → Outcome Bool
  next_sets str index [] = ok true
  next_sets str index (set ∷ sets) = elim (ltb index (length str)) [
    | false ↦ ok false
    | true ↦ contains_at set str (pos index) >>= λ found. elim found [
      | true ↦ next_sets str (suc index) sets
      | false ↦ ok false
    ]
  ]

  unfoldable pub is_starts_with_unicode_sets :
      U16String → (ℕ → Bool) → (ℕ → Bool) → List (ℕ → Bool) → Outcome Bool
  is_starts_with_unicode_sets str important_set matchable_subset matchable_subsets =
      get_first_usable_index str important_set >>= λ first. elim first [
        | negsuc _ ↦ ok false
        | pos index ↦
            if is_empty matchable_subsets
            then (normalized_at str (pos index) >>= λ first_char.
                contains_at matchable_subset first_char (pos 0))
            else (contains_at matchable_subset str (pos index) >>= λ found. elim found [
              | false ↦ ok false
              | true ↦ next_sets str (suc index) matchable_subsets
            ])
      ]

  -- The loop over the sets from the last on, with the index one too high, so that 0 is before the
  -- start of the string, and then the test of the subset.
  unfoldable pub previous_sets : U16String → (ℕ → Bool) → List (ℕ → Bool) → ℕ → Outcome Bool
  previous_sets str matchable_subset [] zero = ok false
  previous_sets str matchable_subset [] (suc index) = contains_at matchable_subset str (pos index)
  previous_sets str matchable_subset (set ∷ sets) zero = ok false
  previous_sets str matchable_subset (set ∷ sets) (suc index) =
      contains_at set str (pos index) >>= λ found. elim found [
        | true ↦ previous_sets str matchable_subset sets index
        | false ↦ ok false
      ]

  unfoldable pub reversed : List (ℕ → Bool) → List (ℕ → Bool)
  reversed [] = []
  reversed (set ∷ sets) = reversed sets ++ (set ∷ [])

  unfoldable pub is_ends_with_unicode_sets :
      U16String → (ℕ → Bool) → (ℕ → Bool) → List (ℕ → Bool) → Outcome Bool
  is_ends_with_unicode_sets str important_set matchable_subset matchable_subsets =
      get_last_usable_index str important_set >>= λ last. elim last [
        | negsuc _ ↦ ok false
        | pos index ↦
            if is_empty matchable_subsets
            then (normalized_at str (pos index) >>= λ last_char.
                get_last_usable_index last_char important_set >>= λ last_in_char.
                elim last_in_char [
                  | negsuc _ ↦ ok false
                  | pos i ↦ contains_at matchable_subset last_char (pos i)
                ])
            else previous_sets str matchable_subset (reversed matchable_subsets) (suc index)
      ]

-- What the properties of a known word say of its vowel.
unfoldable pub decide : ℕ → ℕ → ℕ → Option Bool
decide word_types vowel consonant =
    let has_vowel = not (bit_and word_types vowel == 0) in
    let has_consonant = not (bit_and word_types consonant == 0) in
    if has_vowel && not has_consonant
    then some true
    else if not has_vowel && has_consonant
    then some false
    else none

-- `getBinaryProperties(&result, properties)` with a result that starts with 0, and whether it is known.
unfoldable pub property_or_zero : Source → List U16String → Outcome (ℕ × Bool)
property_or_zero dictionary properties = do
  result ← find_binary_properties dictionary properties
  elim result [ none ↦ ok (0, false) | some value ↦ ok (value, true) ]

unfoldable pub decide_by_properties :
    Source → List U16String → List U16String → ℕ → Outcome (Option Bool)
decide_by_properties dictionary vowel_tags consonant_tags word_types = do
  (vowel, knows_vowel) ← property_or_zero dictionary vowel_tags
  (consonant, knows_consonant) ← property_or_zero dictionary consonant_tags
  ok (if knows_consonant || knows_vowel then decide word_types vowel consonant else none)

module _ (icu : Icu) (dictionary : Source) where
  -- The tests of the letters, after the dictionary.
  unfoldable pub starts_with_vowel_letter : U16String → ℕ → U16String → Outcome Bool
  starts_with_vowel_letter language word_types str =
      if equals (codes "fr") language
      then (if not (word_types == 0) && starts_with str (codes "H")
          then ok false
          else is_starts_with_unicode_sets icu str icu.default_matchable_set icu.french_vowels_start
              [])
      else is_starts_with_unicode_sets icu str icu.default_matchable_set icu.default_vowels_start []

  unfoldable pub is_starts_with_vowel : U16String → U16String → Outcome Bool
  is_starts_with_vowel language str = do
    known ← get_combined_binary_type dictionary str
    elim known [
      | none ↦ starts_with_vowel_letter language 0 str
      | some word_types ↦ (do
        decided ←
            decide_by_properties dictionary (codes "vowel-start" ∷ [])
              (codes "consonant-start" ∷ []) word_types
        elim decided [
          | some answer ↦ ok answer
          | none ↦ starts_with_vowel_letter language word_types str
        ])
    ]

  unfoldable pub ends_with_vowel_letter : U16String → U16String → Outcome Bool
  ends_with_vowel_letter language str =
      if equals (codes "tr") language
      then is_ends_with_unicode_sets icu str icu.default_matchable_set icu.default_vowels_start []
      else (do
        ij ←
            (if equals (codes "nl") language
              then is_ends_with_unicode_sets icu str icu.default_matchable_set icu.i_letter
                  (icu.j_letter ∷ [])
              else ok false)
        elim ij [
          | true ↦ ok true
          | false ↦
              is_ends_with_unicode_sets icu str icu.default_matchable_set icu.default_vowels_end []
        ])

  -- `undefined` also where the fuel of removeSetFromString is not enough.
  unfoldable pub is_ends_with_vowel : U16String → U16String → Outcome Bool
  is_ends_with_vowel language str = do
    stripped ← remove_set_from_string icu.utf16 icu.punctuation str
    elim stripped [
      | none ↦ undefined
      | some stripped_str ↦ (do
        (vowel, knows_vowel) ← property_or_zero dictionary (codes "vowel-end" ∷ [])
        (consonant, knows_consonant) ←
            property_or_zero dictionary (codes "consonant-end" ∷ codes "rieul-end" ∷ [])
        decided ←
            (if knows_consonant || knows_vowel
              then (do
                known ← get_combined_binary_type dictionary stripped_str
                ok (elim known [
                  | none ↦ none
                  | some word_types ↦ decide word_types vowel consonant
                ]))
              else ok none)
        elim decided [ some answer ↦ ok answer | none ↦ ends_with_vowel_letter language str ])
    ]
