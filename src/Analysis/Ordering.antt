-- ===== src/Analysis/Ordering.antt =====
-- The comparison of inflections is an order: what comes before what does not depend on the way.
use inflection.Prelude.{
  ℕ, false, not, Option, none, some, List, [], ◌∷◌, ℤ, pos, negsuc, ◌≡◌, refl, arith, ◌∙◌, sym,
}
use inflection.Prelude.Choice.{IsStrict}
use inflection.Dictionary.Inflector.{Pattern, Inflection, same_id}
use inflection.Dictionary.Inflector.Reinflect.{popcount}
use inflection.Dictionary.PropertyMaps.{is_below}
use inflection.Analysis.MorphologicalAnalyzer.{
  InflectionGrammemes, MorphologicalAnalyzer, Comparison, then_by, priority_index, compare_index,
  compare_tables, compare_grammemes,
}
use inflection.Analysis.InflectionOrder.{
  disambiguation_match_score, compare_scores, compare_inflections, compare_inflection_grammemes,
  comes_before,
}
use inflection.Analysis.Comparisons.{
  flip, IsOrdering, then_by-IsOrdering, is_first, first_of, first_of-IsStrict, by_number,
  by_number-IsOrdering, by_integer, by_integer-IsOrdering, on-IsOrdering,
}

compare_tables-IsOrdering : (tables : List (List ℕ)) → IsOrdering (compare_tables tables)
unfolding compare_tables flip
compare_tables-IsOrdering [] = record {
  flipped = λ a b. refl;
  through = λ a b d h k. h;
  alike = λ a b d h. refl;
}
compare_tables-IsOrdering (values ∷ tables) =
    then_by-IsOrdering (by_number (λ g. priority_index g values)) (compare_tables tables)
      (by_number-IsOrdering (λ g. priority_index g values)) (compare_tables-IsOrdering tables)

-- Those with an inflection come first, and then by the number of their grammemes and of the inflections of
-- their patterns.
abbrev absence : InflectionGrammemes → ℕ
absence x = elim x.inflection [ none ↦ 1 | some _ ↦ 0 ]

abbrev number_of_grammemes : InflectionGrammemes → ℕ
number_of_grammemes x = elim x.inflection [ none ↦ 0 | some _ ↦ popcount x.grammemes ]

abbrev number_of_inflections : InflectionGrammemes → ℤ
number_of_inflections x = elim x.inflection [
  | none ↦ pos 0
  | some (pattern, _) ↦ pattern.num_of_inflections
]

abbrev by_inflection : InflectionGrammemes → InflectionGrammemes → Comparison
by_inflection a b =
    then_by (by_number absence a b)
      (then_by (by_number number_of_grammemes a b) (by_integer number_of_inflections a b))

by_inflection-IsOrdering : IsOrdering by_inflection
by_inflection-IsOrdering =
    then_by-IsOrdering (by_number absence)
      (λ a b. then_by (by_number number_of_grammemes a b) (by_integer number_of_inflections a b))
      (by_number-IsOrdering absence)
      (then_by-IsOrdering (by_number number_of_grammemes) (by_integer number_of_inflections)
        (by_number-IsOrdering number_of_grammemes) (by_integer-IsOrdering number_of_inflections))

is_below-total : (i j : ℤ) → same_id i j ≡ false → is_below i j ≡ not (is_below j i)
unfolding same_id is_below
is_below-total (pos i) (pos j) h = ground (arith, h)
is_below-total (pos i) (negsuc j) h = refl
is_below-total (negsuc i) (pos j) h = refl
is_below-total (negsuc i) (negsuc j) h = ground (arith, h)

-- The code says of two without an inflection that each comes after the other; first is neither.
compare_inflections-is_first :
    (x y : Comparison) (ga gb : ℕ) (oa ob : Option (Pattern × Inflection))
    → let a : InflectionGrammemes = record { grammemes = ga; inflection = oa } in
      let b : InflectionGrammemes = record { grammemes = gb; inflection = ob } in
      is_first (then_by x (then_by y (compare_inflections a b)))
      ≡ is_first (then_by x (then_by y (by_inflection a b)))
unfolding compare_inflections then_by compare_index compare_scores same_id is_below
compare_inflections-is_first x y ga gb none none = ground arith
compare_inflections-is_first x y ga gb none (some _) = ground arith
compare_inflections-is_first x y ga gb (some _) none = ground arith
compare_inflections-is_first x y ga gb (some (p, _)) (some (q, _)) =
    ground (arith, is_below-total p.num_of_inflections q.num_of_inflections)

module _ (m : MorphologicalAnalyzer) (disambiguations : List ℕ) where
  abbrev by_score : InflectionGrammemes → InflectionGrammemes → Comparison
  by_score = by_integer (λ x. disambiguation_match_score x.grammemes disambiguations)

  abbrev by_grammemes : InflectionGrammemes → InflectionGrammemes → Comparison
  by_grammemes a b = compare_tables m.grammeme_priority_tables a.grammemes b.grammemes

  abbrev whole : InflectionGrammemes → InflectionGrammemes → Comparison
  whole a b = then_by (by_score a b) (then_by (by_grammemes a b) (by_inflection a b))

  whole-IsOrdering : IsOrdering whole
  whole-IsOrdering =
      then_by-IsOrdering by_score (λ a b. then_by (by_grammemes a b) (by_inflection a b))
        (by_integer-IsOrdering (λ x. disambiguation_match_score x.grammemes disambiguations))
        (then_by-IsOrdering by_grammemes by_inflection
          (on-IsOrdering (λ x. x.grammemes) (compare_tables m.grammeme_priority_tables)
            (compare_tables-IsOrdering m.grammeme_priority_tables))
          by_inflection-IsOrdering)

  comes_before-is_first :
      (a b : InflectionGrammemes) → comes_before m disambiguations a b ≡ first_of whole a b
  unfolding comes_before compare_inflection_grammemes compare_grammemes
  comes_before-is_first a b =
      compare_inflections-is_first (by_score a b) (by_grammemes a b) a.grammemes b.grammemes
        a.inflection b.inflection

  -- The comparison that the inflections are sorted by is a strict weak order, as std::stable_sort asks
  -- for: no two come before each other, and that one does not come before another is transitive.
  pub comes_before-IsStrict : IsStrict (comes_before m disambiguations)
  comes_before-IsStrict =
      let strict = first_of-IsStrict whole whole-IsOrdering in
      record {
        asymmetric = λ a b e.
            comes_before-is_first b a ∙ strict.asymmetric a b (sym (comes_before-is_first a b) ∙ e);
        negatively_transitive = λ a b d e k.
            comes_before-is_first a d
            ∙ strict.negatively_transitive a b d (sym (comes_before-is_first a b) ∙ e)
                (sym (comes_before-is_first b d) ∙ k);
      }
