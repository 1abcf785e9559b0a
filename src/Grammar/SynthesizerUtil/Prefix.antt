-- ===== src/Grammar/SynthesizerUtil/Prefix.antt =====
-- The prefix that is split off a word.
use inflection.Prelude.{
  ℕ, zero, suc, ◌<◌, Option, none, some, List, [], ◌∷◌, ◌++◌, length, length-append, true, drop,
  ltb, ltb→lt, ◌==◌, bit_and, ◌≡◌, ◌≢◌, ◌⊎◌, inl, inr, refl, arith, ap, All, Bool-cases,
  Option-cases, pos, negsuc, ◌∙◌,
}
use inflection.Prelude.Strings.{U16String, starts_with}
use inflection.Util.StringViewUtils.Splitting.{starts_with-drop}
use inflection.Grammar.SynthesizerUtil.{
  PrefixWithPos, SplitPrefix, prefix_matches, split_loop, split_prefix,
}

-- The word is the prefix and a word that the dictionary knows, with grammemes that the prefix asks
-- for.
abbrev pub Fits : (U16String → Option ℕ) → U16String → PrefixWithPos → ℕ → Type 0
Fits dictionary word p grammemes =
    (rest : U16String) × (word ≡ p.prefix ++ rest)
    × (rest ≢ [])
    × (dictionary rest ≡ some grammemes)
    × (bit_and grammemes p.matched_pos ≢ 0)

rest_of : (word : U16String) (n : ℕ) → n < length word → drop n word ≢ []
rest_of [] n h e = absurd (omega (arith, h))
rest_of (c ∷ word) zero h e = cc
rest_of (c ∷ word) (suc n) h e = rest_of word n (omega (arith, h)) e

prefix_matches_lem :
    (dictionary : U16String → Option ℕ) (word : U16String) (p : PrefixWithPos) (grammemes : ℕ)
    → prefix_matches dictionary word p ≡ some grammemes
    → Fits dictionary word p grammemes
unfolding prefix_matches
prefix_matches_lem dictionary word p grammemes e =
    elim (Bool-cases (ltb (length p.prefix) (length word))) [
      | inr long ↦ absurd (ground (arith, e, long))
      | inl short ↦ elim (Bool-cases (starts_with word p.prefix)) [
        | inr other ↦ absurd (ground (arith, e, short, other))
        | inl starts ↦ elim (Option-cases (dictionary (drop (length p.prefix) word))) [
          | inl unknown ↦ absurd (ground (arith, e, short, starts, unknown))
          | inr (found, known) ↦ elim (Bool-cases (bit_and found p.matched_pos == 0)) [
            | inl nothing ↦ absurd (ground (arith, e, short, starts, known, nothing))
            | inr common ↦
                let same : found ≡ grammemes = ground (arith, e, short, starts, known, common) in
                (
                  drop (length p.prefix) word,
                  starts_with-drop word p.prefix starts,
                  rest_of word (length p.prefix) (ltb→lt (length p.prefix) (length word) short),
                  known ∙ ap some same,
                  ground (arith, common, same),
                )
          ]
        ]
      ]
    ]

starts_with-append : (p rest : U16String) → starts_with (p ++ rest) p ≡ true
unfolding starts_with
starts_with-append [] rest = refl
starts_with-append (c ∷ p) rest = ground (arith, starts_with-append p rest)

drop-prefix : (p rest : U16String) → drop (length p) (p ++ rest) ≡ rest
drop-prefix [] rest = refl
drop-prefix (c ∷ p) rest = drop-prefix p rest

longer : (p rest : U16String) → rest ≢ [] → length p < length (p ++ rest)
longer p [] h = absurd (h refl)
longer p (c ∷ rest) h = omega (arith, length-append p (c ∷ rest))

-- A prefix that fits is not passed.
prefix_matches-Fits :
    (dictionary : U16String → Option ℕ) (word : U16String) (p : PrefixWithPos) (grammemes : ℕ)
    → Fits dictionary word p grammemes
    → prefix_matches dictionary word p ≡ some grammemes
unfolding prefix_matches
prefix_matches-Fits dictionary word p grammemes (rest, word_e, some_rest, known, common) =
    let starts : starts_with word p.prefix ≡ true =
      ap (λ w. starts_with w p.prefix) word_e ∙ starts_with-append p.prefix rest in
    let dropped : drop (length p.prefix) word ≡ rest =
      ap (drop (length p.prefix)) word_e ∙ drop-prefix p.prefix rest in
    let short : length p.prefix < length word =
      omega (arith, longer p.prefix rest some_rest, ap length word_e) in
    let found = ap dictionary dropped ∙ known in ground (arith, starts, short, found, common)

no_fit :
    (dictionary : U16String → Option ℕ) (word : U16String) (p : PrefixWithPos)
    → prefix_matches dictionary word p ≡ none
    → (grammemes : ℕ) → ¬ Fits dictionary word p grammemes
no_fit dictionary word p e grammemes fits =
    ground (arith, e, prefix_matches-Fits dictionary word p grammemes fits)

-- The result where a prefix is taken, and where none is.
abbrev pub taken : PrefixWithPos → ℕ → SplitPrefix
taken p grammemes = record {
  prefix_length = pos (length p.prefix);
  prefix_grammemes = p.prefix_pos;
  word_grammemes = grammemes;
}

abbrev pub nothing_taken : ℕ → ℕ → SplitPrefix
nothing_taken prefix_grammemes word_grammemes = record {
  prefix_length = negsuc 0;
  prefix_grammemes = prefix_grammemes;
  word_grammemes = word_grammemes;
}

abbrev pub NoneFits : (U16String → Option ℕ) → U16String → List PrefixWithPos → Type 0
NoneFits dictionary word prefixes =
    All (λ p. (grammemes : ℕ) → ¬ Fits dictionary word p grammemes) prefixes

-- The first prefix that fits is taken.
abbrev pub TakesFirst :
    (U16String → Option ℕ) → U16String → List PrefixWithPos → SplitPrefix → Type 0
TakesFirst dictionary word prefixes result =
    (before : List PrefixWithPos) × (p : PrefixWithPos) × (after : List PrefixWithPos)
    × (grammemes : ℕ) × (prefixes ≡ before ++ (p ∷ after))
    × NoneFits dictionary word before
    × Fits dictionary word p grammemes
    × (result ≡ taken p grammemes)

module _ (dictionary : U16String → Option ℕ) (word : U16String)
    (prefix_grammemes word_grammemes : ℕ) where
  loop-some :
      (q : PrefixWithPos) (prefixes : List PrefixWithPos) (g : ℕ)
      → prefix_matches dictionary word q ≡ some g
      → split_loop dictionary word prefix_grammemes word_grammemes (q ∷ prefixes) ≡ taken q g
  unfolding split_loop
  loop-some q prefixes g e = ground (arith, e)

  loop-none :
      (q : PrefixWithPos) (prefixes : List PrefixWithPos)
      → prefix_matches dictionary word q ≡ none
      → split_loop dictionary word prefix_grammemes word_grammemes (q ∷ prefixes)
        ≡ split_loop dictionary word prefix_grammemes word_grammemes prefixes
  unfolding split_loop
  loop-none q prefixes e = ground (arith, e)

  split_loop_lem :
      (prefixes : List PrefixWithPos)
      → TakesFirst dictionary word prefixes
          (split_loop dictionary word prefix_grammemes word_grammemes prefixes)
        ⊎ (NoneFits dictionary word prefixes
            × (split_loop dictionary word prefix_grammemes word_grammemes prefixes
                ≡ nothing_taken prefix_grammemes word_grammemes))
  unfolding split_loop
  split_loop_lem [] = inr (tt, refl)
  split_loop_lem (q ∷ prefixes) = elim (Option-cases (prefix_matches dictionary word q)) [
    | inr (g, e) ↦ inl (
      [],
      q,
      prefixes,
      g,
      refl,
      tt,
      prefix_matches_lem dictionary word q g e,
      loop-some q prefixes g e,
    )
    | inl e ↦ elim (split_loop_lem prefixes) [
      | inl (before, p, after, g, split, all, fits, result) ↦ inl (
        q ∷ before,
        p,
        after,
        g,
        ap (λ t. q ∷ t) split,
        (no_fit dictionary word q e, all),
        fits,
        loop-none q prefixes e ∙ result,
      )
      | inr (all, result) ↦ inr ((no_fit dictionary word q e, all), loop-none q prefixes e ∙ result)
    ]
  ]

-- For a word without grammemes of its own: the first of the prefixes is taken such that the word is
-- the prefix and a rest that is not empty and that the dictionary knows with a grammeme that the
-- prefix asks for; its length and its grammemes are returned, and the grammemes of the rest. When
-- no prefix fits, -1 is returned and nothing is set.
pub split_prefix_lem :
    (dictionary : U16String → Option ℕ) (word : U16String) (prefix_grammemes : ℕ)
    (prefixes : List PrefixWithPos)
    → TakesFirst dictionary word prefixes (split_prefix dictionary word prefix_grammemes 0 prefixes)
      ⊎ (NoneFits dictionary word prefixes
          × (split_prefix dictionary word prefix_grammemes 0 prefixes
              ≡ nothing_taken prefix_grammemes 0))
unfolding split_prefix
split_prefix_lem dictionary word prefix_grammemes prefixes =
    split_loop_lem dictionary word prefix_grammemes 0 prefixes
