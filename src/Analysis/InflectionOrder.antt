-- ===== src/Analysis/InflectionOrder.antt =====
-- The order of the inflections that a word may be, of
-- src/inflection/dialog/DictionaryLookupInflector.cpp. std::stable_sort is the insertion of each value
-- behind those that come before it.
use inflection.Prelude.{
  ℕ, ◌+◌, ◌*◌, ◌%◌, ◌^◌, bit_and, Bool, true, false, not, none, some, List, [], ◌∷◌, if◌then◌else◌,
  ltb, ◌==◌, ℤ,
}
use inflection.Dictionary.Inflector.{same_id, to_signed}
use inflection.Dictionary.Inflector.Reinflect.{popcount}
use inflection.Dictionary.PropertyMaps.{is_below}
use inflection.Analysis.MorphologicalAnalyzer.{
  InflectionGrammemes, MorphologicalAnalyzer, Comparison, before, same, after, then_by,
  compare_grammemes,
}

-- A shift to the left of an int64_t, with its low bit set or not.
unfoldable pub score_loop : ℕ → List ℕ → ℕ → ℕ
score_loop grammemes [] result = result
score_loop grammemes (disambiguation ∷ disambiguations) result =
    score_loop grammemes disambiguations
      ((2 * result + (if not (bit_and grammemes disambiguation == 0) then 1 else 0)) % 2 ^ 64)

unfoldable pub disambiguation_match_score : ℕ → List ℕ → ℤ
disambiguation_match_score grammemes disambiguations =
    to_signed 63 (score_loop grammemes disambiguations 0)

-- The higher score comes first.
unfoldable pub compare_scores : ℤ → ℤ → Comparison
compare_scores score1 score2 =
    if not (same_id score1 score2) then (if is_below score2 score1 then before else after) else same

-- What follows the comparison of the grammemes.
unfoldable pub compare_inflections : InflectionGrammemes → InflectionGrammemes → Comparison
compare_inflections a b = elim a.inflection [
  | none ↦ after
  | some (pattern1, _) ↦ elim b.inflection [
    | none ↦ before
    | some (pattern2, _) ↦
        let num1 = popcount a.grammemes in
        let num2 = popcount b.grammemes in
        if not (num1 == num2)
        then (if ltb num1 num2 then before else after)
        else if not (same_id pattern1.num_of_inflections pattern2.num_of_inflections)
        then (if is_below pattern1.num_of_inflections pattern2.num_of_inflections
            then after
            else before)
        else same
  ]
]

unfoldable pub compare_inflection_grammemes :
    MorphologicalAnalyzer → List ℕ → InflectionGrammemes → InflectionGrammemes → Comparison
compare_inflection_grammemes m disambiguations a b =
    then_by
      (compare_scores (disambiguation_match_score a.grammemes disambiguations)
        (disambiguation_match_score b.grammemes disambiguations))
      (then_by (compare_grammemes m a.grammemes b.grammemes) (compare_inflections a b))

-- The comparator of the sort: `compareInflectionGrammemes(...) < 0`.
unfoldable pub comes_before :
    MorphologicalAnalyzer → List ℕ → InflectionGrammemes → InflectionGrammemes → Bool
comes_before m disambiguations a b = elim (compare_inflection_grammemes m disambiguations a b) [
  | before ↦ true
  | same ↦ false
  | after ↦ false
]

module _ {ℓ} {A : Type ℓ} (less : A → A → Bool) where
  unfoldable pub insert : A → List A → List A
  insert a [] = a ∷ []
  insert a (b ∷ sorted) = elim (less b a) [ true ↦ b ∷ insert a sorted | false ↦ a ∷ (b ∷ sorted) ]

  unfoldable pub stable_sort : List A → List A
  stable_sort [] = []
  stable_sort (a ∷ rest) = insert a (stable_sort rest)
