-- ===== src/Analysis/Selection.antt =====
-- Which of the inflections that a word may be DictionaryLookupInflector.cpp takes.
use inflection.Prelude.{
  ℕ, Bool, true, false, List, [], ◌∷◌, ◌++◌, if◌then◌else◌, ltb, ◌==◌, length, Outcome, ok, ◌>>=◌,
  ◌≡◌, refl, arith, ap, ◌∙◌, sym, subst, All, Option, inl, inr, Bool-cases, some, none,
}
use inflection.Prelude.Choice.{IsStrict, IsFirstBest}
use inflection.Prelude.Strings.{U16String, is_empty}
use inflection.Dictionary.MetaData.{get_binary_properties}
use inflection.Dictionary.Inflector.{Pattern}
use inflection.Dictionary.Inflector.Reinflect.{reinflect_with_optional_constraints}
use inflection.Analysis.MorphologicalAnalyzer.{
  InflectionGrammemes, convert_each, filter_inflection_grammemes,
}
use inflection.Analysis.InflectionOrder.{comes_before, insert, stable_sort}
use inflection.Analysis.DictionaryLookupInflector.{
  Inflector, inflect_as, inflect_word_implementation,
}
use inflection.Analysis.Ordering.{comes_before-IsStrict}

-- The first of those that no other comes before.
abbrev pub IsFirst {ℓ} : {A : Type ℓ} → (A → A → Bool) → List A → A → Type ℓ
IsFirst less values best = IsFirstBest (λ a b. less b a) (λ a. a) values best

module _ {ℓ} {A : Type ℓ} (less : A → A → Bool) (strict : IsStrict less) where
  not_after :
      (a best : A) (before : List A)
      → less best a ≡ false
      → All (λ v. less best v ≡ true) before
      → All (λ v. less v a ≡ false) before
  not_after a best [] h lows = tt
  not_after a best (v ∷ before) h (low, lows) = (
    elim (Bool-cases (less v a)) [
      | inr e ↦ e
      | inl e ↦
          let back = strict.asymmetric v a e in
          absurd (ground (arith, h, low, strict.negatively_transitive best a v h back))
    ],
    not_after a best before h lows,
  )

  not_before :
      (a best : A) (after : List A)
      → less best a ≡ false
      → All (λ v. less v best ≡ false) after
      → All (λ v. less v a ≡ false) after
  not_before a best [] h highs = tt
  not_before a best (v ∷ after) h (high, highs) =
      (strict.negatively_transitive v best a high h, not_before a best after h highs)

  All-append : (P : A → Type 0) (xs ys : List A) → All P xs → All P ys → All P (xs ++ ys)
  All-append P [] ys h k = k
  All-append P (x ∷ xs) ys (p, h) k = (p, All-append P xs ys h k)

  -- A sorted list starts with the first of the best.
  stable_sort-IsFirst :
      (a : A) (rest : List A)
      → (best : A) × (tail : List A) × (stable_sort less (a ∷ rest) ≡ best ∷ tail)
        × IsFirst less (a ∷ rest) best
  unfolding stable_sort insert
  stable_sort-IsFirst a [] = (a, [], refl, ([], [], refl, tt, tt))
  stable_sort-IsFirst a (c ∷ rest) =
      let (best, tail, e, (before, after, split, lows, highs)) = stable_sort-IsFirst c rest in
      elim (Bool-cases (less best a)) [
        | inl h ↦ (
          best,
          insert less a tail,
          ground (arith, e, h),
          (a ∷ before, after, ap (λ t. a ∷ t) split, (h, lows), highs),
        )
        | inr h ↦
            let others : All (λ v. less v a ≡ false) (c ∷ rest) =
              subst (λ t. All (λ v. less v a ≡ false) t) (sym split)
                (All-append (λ v. less v a ≡ false) before (best ∷ after)
                  (not_after a best before h lows) (h, not_before a best after h highs)) in
            (a, best ∷ tail, ground (arith, e, h), ([], c ∷ rest, refl, tt, others))
      ]

-- A single value is not sorted, which makes no difference.
sorted_or_single {ℓ} :
    {A : Type ℓ} (less : A → A → Bool) (a : A) (rest : List A)
    → (if ltb 1 (length (a ∷ rest)) then stable_sort less (a ∷ rest) else a ∷ rest)
      ≡ stable_sort less (a ∷ rest)
unfolding stable_sort insert
sorted_or_single less a [] = refl
sorted_or_single less a (b ∷ rest) = ground arith

-- The attempt with one candidate, and what follows when it has no form.
abbrev attempt :
    Inflector
    → U16String
    → List U16String
    → List U16String
    → InflectionGrammemes
    → Outcome (Option U16String)
    → Bool
    → Outcome (Option U16String)
attempt i word constraints optional_constraints candidate next fallback =
    elim candidate.inflection [
      | none ↦ ok (some word)
      | some (pattern, inflection) ↦ (do
        optional ← convert_each i.dictionary optional_constraints
        to_constraints ← get_binary_properties i.dictionary constraints
        inflected_word ←
            reinflect_with_optional_constraints i.inflector_dictionary pattern inflection.grammemes
              to_constraints optional word
        elim (is_empty inflected_word) [
          | false ↦ ok (some inflected_word)
          | true ↦ elim fallback [ true ↦ next | false ↦ ok none ]
        ])
    ]

-- Where the dictionary is no fallback, what is behind the first candidate does not matter.
inflect_as-single :
    (i : Inflector) (word : U16String) (constraints optional : List U16String)
    (best : InflectionGrammemes) (tail : List InflectionGrammemes)
    → i.enable_dictionary_fallback ≡ false
    → inflect_as i word constraints optional (best ∷ tail)
      ≡ inflect_as i word constraints optional (best ∷ [])
unfolding inflect_as
inflect_as-single i word constraints optional best tail h =
    ap (attempt i word constraints optional best (inflect_as i word constraints optional tail)) h
    ∙ sym (
        ap (attempt i word constraints optional best (inflect_as i word constraints optional [])) h)

-- Let the patterns of a word of the dictionary leave candidates, and let no other candidates be asked for when
-- the first has no form. The word is inflected as the first of those candidates that no other comes
-- before.
pub inflect_word_implementation_lem :
    (i : Inflector) (word : U16String) (word_grammemes : ℕ)
    (constraints optional names : List U16String) (pattern : Pattern) (patterns : List Pattern)
    (candidate : InflectionGrammemes) (candidates : List InflectionGrammemes)
    (disambiguations : List ℕ)
    → i.enable_dictionary_fallback ≡ false
    → (word_grammemes == 0) ≡ false
    → i.patterns_for_word word ≡ ok (pattern ∷ patterns)
    → filter_inflection_grammemes i.inflector_dictionary i.analyzer word word_grammemes
        (pattern ∷ patterns)
        []
      ≡ ok (candidate ∷ candidates)
    → convert_each i.dictionary names ≡ ok disambiguations
    → (best : InflectionGrammemes) × IsFirst
        (comes_before i.analyzer disambiguations)
        (candidate ∷ candidates)
        best
      × (inflect_word_implementation i word word_grammemes constraints optional names
          ≡ inflect_as i word constraints optional (best ∷ []))
unfolding inflect_word_implementation
inflect_word_implementation_lem i word word_grammemes constraints optional names pattern patterns
      candidate candidates disambiguations no_fallback known found kept converted =
    let less = comes_before i.analyzer disambiguations in
    let (best, tail, sorted, first) =
      stable_sort-IsFirst less (comes_before-IsStrict i.analyzer disambiguations) candidate
        candidates in
    let ordered = sorted_or_single less candidate candidates ∙ sorted in
    let only = inflect_as-single i word constraints optional best tail no_fallback in
    (best, first, ground (arith, known, found, kept, converted, ordered, only))
