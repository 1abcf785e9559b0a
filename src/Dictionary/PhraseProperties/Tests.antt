-- ===== src/Dictionary/PhraseProperties/Tests.antt =====
-- Tests and examples of the sounds of words.
use inflection.Prelude.{
  ℕ, Bool, false, ◌&&◌, ◌||◌, none, some, if◌then◌else◌, leb, ◌==◌, get_or, ◌≡◌, refl, arith, ok, ℤ,
  pos, negsuc,
}
use inflection.Prelude.Bits.{bit}
use inflection.Prelude.Strings.{codes, equals}
use inflection.Util.CodePoints.{Utf16, code_point_at, append_code_point}
use inflection.Dictionary.MetaData.{Source, get_combined_binary_type}
use inflection.Dictionary.PhraseProperties.{
  Icu, is_starts_with_vowel, starts_with_vowel_letter, get_first_usable_index,
  get_last_usable_index, is_starts_with_unicode_sets, first_loop, contains_at, normalized_at,
  normalize,
}
use inflection.Dictionary.PhraseProperties.Usable.{IsFirst, IsLast, usable_index_lem}
use inflection.Dictionary.PhraseProperties.Known.{is_starts_with_vowel_lem}

-- Sets of ASCII letters, and the macros for strings without surrogates.
abbrev letters : ℕ → Bool
letters cp = leb 97 cp && leb cp 122

abbrev vowels : ℕ → Bool
vowels cp = cp == 97 || cp == 101 || cp == 105 || cp == 111 || cp == 117

abbrev ascii : Utf16
ascii = record {
  get = λ str index. get_or str index 0;
  len = λ cp. 1;
  lead = λ cp. 0;
  trail = λ cp. 0;
  is_lead = λ c. false;
  is_trail = λ c. false;
  is_surrogate = λ c. false;
}

abbrev icu : Icu
icu = record {
  utf16 = ascii;
  nfkd = λ str. some str;
  default_vowels_start = vowels;
  french_vowels_start = λ cp. vowels cp || cp == 104;
  default_vowels_end = λ cp. vowels cp || cp == 121;
  i_letter = λ cp. cp == 105;
  j_letter = λ cp. cp == 106;
  default_matchable_set = letters;
  punctuation = λ cp. cp == 46;
}

-- "hour" has the property vowel-start.
abbrev dictionary : Source
dictionary = record {
  get_word_type = λ word. if equals word (codes "hour") then ok (some 1) else ok none;
  type_identifier = λ name.
      if equals name (codes "vowel-start")
      then pos 0
      else if equals name (codes "consonant-start")
      then pos 1
      else negsuc 0;
  transform = λ word. ok word;
}

usable_index_lem_example :
    ((i : ℤ) × (get_first_usable_index icu (codes "'hour'") letters ≡ ok i)
      × IsFirst icu letters (codes "'hour'") i)
    × ((i : ℤ) × (get_last_usable_index icu (codes "'hour'") letters ≡ ok i)
        × IsLast icu letters (codes "'hour'") i)
usable_index_lem_example = usable_index_lem icu letters (codes "'hour'")

vowel_identifier : dictionary.type_identifier (codes "vowel-start") ≡ pos 0
unfolding equals
vowel_identifier = refl

consonant_identifier : dictionary.type_identifier (codes "consonant-start") ≡ pos 1
unfolding equals
consonant_identifier = refl

hour_type : get_combined_binary_type dictionary (codes "hour") ≡ ok (some 1)
unfolding get_combined_binary_type equals
hour_type = refl

is_starts_with_vowel_lem_example :
    is_starts_with_vowel icu dictionary (codes "en") (codes "hour") ≡ (
      if bit 1 0 == bit 1 1
      then starts_with_vowel_letter icu dictionary (codes "en") 1 (codes "hour")
      else ok (bit 1 0 == 1))
is_starts_with_vowel_lem_example =
    is_starts_with_vowel_lem icu dictionary (codes "en") (codes "hour") 0 1 1 vowel_identifier
      consonant_identifier (omega arith) (omega arith) hour_type

-- By its letters it starts with a consonant.
test_letters : starts_with_vowel_letter icu dictionary (codes "en") 0 (codes "hour") ≡ ok false
unfolding starts_with_vowel_letter is_starts_with_unicode_sets get_first_usable_index first_loop
    contains_at code_point_at normalized_at normalize append_code_point equals
test_letters = refl
