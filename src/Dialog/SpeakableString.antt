-- ===== src/Dialog/SpeakableString.antt =====
-- src/inflection/dialog/SpeakableString.cpp. The pointer `speak` is an option: a null pointer says
-- that the text is spoken as it is printed.
pub mod Laws
use inflection.Prelude.{
  Bool, true, false, not, ◌&&◌, ◌||◌, Option, none, some, List, [], ◌∷◌, ◌++◌, if◌then◌else◌,
}
use inflection.Prelude.Strings.{U16String, codes, is_empty as is_nil, equals}

pub record SpeakableString : Type 0 where
  pub print : U16String
  pub speak : Option U16String

-- SpeakableString(print)
unfoldable pub of_print : U16String → SpeakableString
of_print print = record { print = print; speak = none }

-- SpeakableString(print, speak)
unfoldable pub make : U16String → U16String → SpeakableString
make print speak = record { print = print; speak = if equals print speak then none else some speak }

unfoldable pub speak_equals_print : SpeakableString → Bool
speak_equals_print s = elim s.speak [ none ↦ true | some _ ↦ false ]

-- The copy constructor, and operator=, which drops the old spoken text first.
unfoldable pub copy : SpeakableString → SpeakableString
copy s = record {
  print = s.print;
  speak = elim s.speak [ none ↦ none | some spoken ↦ some spoken ];
}

unfoldable pub get_print : SpeakableString → U16String
get_print s = s.print

unfoldable pub get_speak : SpeakableString → U16String
get_speak s = elim s.speak [ none ↦ s.print | some spoken ↦ spoken ]

unfoldable pub to_string : SpeakableString → U16String
to_string s = elim s.speak [
  | none ↦ codes "SS[" ++ (s.print ++ codes "]")
  | some spoken ↦ codes "SS[" ++ (s.print ++ (codes "/tts:" ++ (spoken ++ codes "]")))
]

same_speak : Option U16String → Option U16String → Bool
same_speak none none = true
same_speak none (some t) = false
same_speak (some s) none = false
same_speak (some s) (some t) = equals s t

-- operator==
unfoldable pub eq : SpeakableString → SpeakableString → Bool
unfolding same_speak
eq a b = equals a.print b.print && same_speak a.speak b.speak

-- operator+: the printed text stands for a missing spoken text.
unfoldable pub append : SpeakableString → SpeakableString → SpeakableString
unfolding of_print make speak_equals_print get_speak
append a b =
    if speak_equals_print a && speak_equals_print b
    then of_print (a.print ++ b.print)
    else make (a.print ++ b.print) (get_speak a ++ get_speak b)

unfoldable pub is_empty : SpeakableString → Bool
is_empty s = is_nil s.print && elim s.speak [ none ↦ true | some spoken ↦ is_nil spoken ]

-- operator+=
unfoldable pub append_assign : SpeakableString → SpeakableString → SpeakableString
unfolding append copy
append_assign a b = copy (append a b)

unfoldable pub to_speakable_string : SpeakableString → SpeakableString
unfolding copy
to_speakable_string s = copy s
