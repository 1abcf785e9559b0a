-- ===== src/Grammar/SynthesizerUtil/Words.antt =====
-- The significant words of a phrase, taken out, inflected, and put back.
use inflection.Prelude.{
  ℕ, zero, suc, Option, none, some, List, [], ◌∷◌, ◌++◌, if◌then◌else◌, get_elem?, drop, Outcome,
  ok, throws, out_of_range, ◌≡◌, refl, arith, ap, sym, Bool-cases, Option-cases, inl, inr,
  append_assoc, append-nil,
}
use inflection.Prelude.Strings.{U16String}
use inflection.Grammar.SynthesizerUtil.{
  Token, check_significant_token_for_inflection, get_significant_words, string_loop,
  get_string_from_inflected_significant_words,
}

-- The text of the tokens where each significant token is replaced by the next of the words; none
-- when there are too few of them.
abbrev pub replaced_text : List Token → List U16String → Option U16String
replaced_text [] words = some []
replaced_text (token ∷ tokens) words =
    if check_significant_token_for_inflection token
    then (elim words [
      | [] ↦ none
      | word ∷ rest ↦ elim (replaced_text tokens rest) [
        | none ↦ none
        | some text ↦ some (word ++ text)
      ]
    ])
    else elim (replaced_text tokens words) [ none ↦ none | some text ↦ some (token.value ++ text) ]

get_elem?-drop :
    (words : List U16String) (idx : ℕ)
    → get_elem? words idx ≡ elim (drop idx words) [ [] ↦ none | word ∷ _ ↦ some word ]
get_elem?-drop [] zero = refl
get_elem?-drop [] (suc idx) = refl
get_elem?-drop (word ∷ words) zero = refl
get_elem?-drop (word ∷ words) (suc idx) = get_elem?-drop words idx

drop-suc :
    (words : List U16String) (idx : ℕ) (word : U16String) (rest : List U16String)
    → drop idx words ≡ word ∷ rest
    → drop (suc idx) words ≡ rest
drop-suc [] zero word rest e = cc
drop-suc [] (suc idx) word rest e = cc
drop-suc (w ∷ words) zero word rest e = cc
drop-suc (w ∷ words) (suc idx) word rest e = drop-suc words idx word rest e

prepend : U16String → Option U16String → Outcome U16String
prepend result none = throws out_of_range
prepend result (some text) = ok (result ++ text)

prepend-append :
    (result word : U16String) (text : Option U16String)
    → prepend (result ++ word) text
      ≡ prepend result (elim text [ none ↦ none | some t ↦ some (word ++ t) ])
unfolding prepend
prepend-append result word none = refl
prepend-append result word (some text) = ap ok (append_assoc result word text)

string_loop_lem :
    (result : U16String) (idx : ℕ) (tokens : List Token) (words rest : List U16String)
    → drop idx words ≡ rest
    → string_loop result idx tokens words ≡ prepend result (replaced_text tokens rest)
unfolding string_loop prepend
string_loop_lem result idx [] words rest e = ap ok (sym (append-nil result))
string_loop_lem result idx (token ∷ tokens) words [] e =
    elim (Bool-cases (check_significant_token_for_inflection token)) [
      | inl yes_e ↦ ground (arith, yes_e, e, get_elem?-drop words idx)
      | inr no_e ↦ ground (
        arith,
        no_e,
        string_loop_lem (result ++ token.value) idx tokens words [] e,
        prepend-append result token.value (replaced_text tokens []),
      )
    ]
string_loop_lem result idx (token ∷ tokens) words (word ∷ rest) e =
    elim (Bool-cases (check_significant_token_for_inflection token)) [
      | inl yes_e ↦ ground (
        arith,
        yes_e,
        e,
        get_elem?-drop words idx,
        string_loop_lem (result ++ word) (suc idx) tokens words rest
            (drop-suc words idx word rest e),
        prepend-append result word (replaced_text tokens rest),
      )
      | inr no_e ↦ ground (
        arith,
        no_e,
        string_loop_lem (result ++ token.value) idx tokens words (word ∷ rest) e,
        prepend-append result token.value (replaced_text tokens (word ∷ rest)),
      )
    ]

-- The inflected words are put in the places of the significant words, in their order, and every
-- other token is kept; with fewer words than significant words,
-- std::out_of_range is thrown.
pub get_string_from_inflected_significant_words_lem :
    (tokens : List Token) (words : List U16String)
    → get_string_from_inflected_significant_words tokens words
      ≡ elim (replaced_text tokens words) [ none ↦ throws out_of_range | some text ↦ ok text ]
unfolding get_string_from_inflected_significant_words prepend
get_string_from_inflected_significant_words_lem tokens words =
    elim (Option-cases (replaced_text tokens words)) [
      | inl e ↦ ground (arith, e, string_loop_lem [] 0 tokens words words refl)
      | inr (text, e) ↦ ground (arith, e, string_loop_lem [] 0 tokens words words refl)
    ]

-- All the texts of the tokens.
abbrev pub whole_text : List Token → U16String
whole_text [] = []
whole_text (token ∷ tokens) = token.value ++ whole_text tokens

same_words :
    (tokens : List Token)
    → replaced_text tokens (get_significant_words tokens) ≡ some (whole_text tokens)
unfolding get_significant_words
same_words [] = refl
same_words (token ∷ tokens) = elim (Bool-cases (check_significant_token_for_inflection token)) [
  | inl yes_e ↦ ground (arith, yes_e, same_words tokens)
  | inr no_e ↦ ground (arith, no_e, same_words tokens)
]

-- The significant words of a phrase, put back as they are, give the text of all its tokens.
pub get_string-get_significant_words :
    (tokens : List Token)
    → get_string_from_inflected_significant_words tokens (get_significant_words tokens)
      ≡ ok (whole_text tokens)
get_string-get_significant_words tokens =
    let e = same_words tokens in
    ground (
      arith,
      e,
      get_string_from_inflected_significant_words_lem tokens (get_significant_words tokens),
    )
